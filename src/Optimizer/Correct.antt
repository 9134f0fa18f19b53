-- ===== src/Optimizer/Correct.antt =====
-- What `_optimise_predicate_fixed_point` of optimizer.py promises.
use yt_media_tools.Prelude.{◌≡◌, ◌<◌, true, some, ap}
use yt_media_tools.Query.Model.{Predicate}
use yt_media_tools.Query.Evaluator.{Runtime, Record, evaluate, accepts_record, is_truth}
use yt_media_tools.Optimizer.Defs.{
  optimise_node, optimise_predicate_fixed_point, max_optimiser_passes,
}
use yt_media_tools.Optimizer.Rewriting.Follows.{optimise_node-Follows, optimise_passes-Rewrites}
use yt_media_tools.Optimizer.Shrinking.{size, Shrinks}
use yt_media_tools.Optimizer.Shrinking.Rules.{Rewrites-Shrinks}
use yt_media_tools.Optimizer.Shrinking.Passes.{optimise_passes-returns}
use yt_media_tools.Optimizer.Sound.Regular.{is_regular}
use yt_media_tools.Optimizer.Sound.Rules.{Rewrites-Keeps}

-- A pass raises no AssertionError: it returns a predicate, the same or a smaller one, which on every
-- record where the original is regular is regular and has the truth value of the original.
pub optimise_node-evaluate :
    ⦃rt : Runtime⦄ (p : Predicate)
    → (q : Predicate) × (optimise_node p ≡ some q)
      × Shrinks p q
      × ((r : Record)
          → is_regular p r ≡ true
          → (is_regular q r ≡ true) × (evaluate q r ≡ evaluate p r))
optimise_node-evaluate p =
    let (q, e, rewrites) = optimise_node-Follows p in
    (q, e, Rewrites-Shrinks rewrites, λ r k. Rewrites-Keeps r rewrites k)

-- A predicate that the optimiser returns has the truth value of the original, UNKNOWN included,
-- on every record where the original is regular.
pub optimise_predicate-evaluate :
    ⦃rt : Runtime⦄ (p q : Predicate) (r : Record)
    → optimise_predicate_fixed_point p ≡ some q
    → is_regular p r ≡ true
    → evaluate q r ≡ evaluate p r
unfolding optimise_predicate_fixed_point
optimise_predicate-evaluate p q r h k =
    (Rewrites-Keeps r (optimise_passes-Rewrites max_optimiser_passes p q h) k).1

-- The optimiser returns a predicate for every predicate whose size is less than the 32 passes, and
-- a query with it as its WHERE accepts the same records among those where the original is regular.
pub optimise_predicate-accepts :
    ⦃rt : Runtime⦄ (p : Predicate)
    → size p < 32
    → (q : Predicate) × (optimise_predicate_fixed_point p ≡ some q)
      × ((r : Record)
          → is_regular p r ≡ true
          → accepts_record (some q) r ≡ accepts_record (some p) r)
unfolding accepts_record optimise_predicate_fixed_point
optimise_predicate-accepts p h =
    let (q, e) = optimise_passes-returns 32 p h in
    (q, e, λ r k. ap (λ t. is_truth t (some true)) (optimise_predicate-evaluate p q r e k))
