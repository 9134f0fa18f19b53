-- ===== src/Examples/Optimized.antt =====
-- The optimiser's theorems at one query.
use yt_media_tools.Prelude.{◌≡◌, refl, true, some, ◌<◌, arith}
use yt_media_tools.Query.Value.{compare_values, equal_values, holds}
use yt_media_tools.Query.Model.{Predicate}
use yt_media_tools.Query.Evaluator.{Record, evaluate, accepts_record, ignores_case, record_value}
use yt_media_tools.Optimizer.Defs.{optimise_node, optimise_passes, optimise_predicate_fixed_point}
use yt_media_tools.Optimizer.Shrinking.{size, Shrinks}
use yt_media_tools.Optimizer.Shrinking.Passes.{optimise_passes-IsFixed}
use yt_media_tools.Optimizer.Sound.Regular.{is_regular}
use yt_media_tools.Optimizer.Correct.{
  optimise_node-evaluate, optimise_predicate-evaluate, optimise_predicate-accepts,
}
use yt_media_tools.Examples.{plain_runtime, views_record, where_views, where_seven}

where_views-optimised : optimise_predicate_fixed_point where_views ≡ some where_seven
unfolding optimise_predicate_fixed_point compare_values holds
where_views-optimised = refl

where_views-regular : is_regular ⦃rt = plain_runtime⦄ where_views views_record ≡ true
unfolding is_regular ignores_case record_value compare_values equal_values
where_views-regular = refl

where_views-size : size where_views < 32
unfolding size
where_views-size = omega arith

optimise_predicate-evaluate_example :
    evaluate ⦃rt = plain_runtime⦄ where_seven views_record
    ≡ evaluate ⦃rt = plain_runtime⦄ where_views views_record
optimise_predicate-evaluate_example =
    optimise_predicate-evaluate ⦃rt = plain_runtime⦄ where_views where_seven views_record
      where_views-optimised where_views-regular

optimise_predicate-accepts_example :
    (q : Predicate) × (optimise_predicate_fixed_point where_views ≡ some q)
    × ((r : Record)
        → is_regular ⦃rt = plain_runtime⦄ where_views r ≡ true
        → accepts_record ⦃rt = plain_runtime⦄ (some q) r
          ≡ accepts_record ⦃rt = plain_runtime⦄ (some where_views) r)
optimise_predicate-accepts_example =
    optimise_predicate-accepts ⦃rt = plain_runtime⦄ where_views where_views-size

where_views-passes : optimise_passes 3 where_views ≡ some where_seven
unfolding optimise_passes compare_values holds
where_views-passes = refl

optimise_passes-IsFixed_example :
    (q : Predicate) × (optimise_passes 32 where_views ≡ some q) × (optimise_node q ≡ some q)
optimise_passes-IsFixed_example = optimise_passes-IsFixed 32 where_views where_views-size

optimise_node-evaluate_example :
    (q : Predicate) × (optimise_node where_views ≡ some q)
    × Shrinks where_views q
    × ((r : Record)
        → is_regular ⦃rt = plain_runtime⦄ where_views r ≡ true
        → (is_regular ⦃rt = plain_runtime⦄ q r ≡ true)
          × (evaluate ⦃rt = plain_runtime⦄ q r ≡ evaluate ⦃rt = plain_runtime⦄ where_views r))
optimise_node-evaluate_example = optimise_node-evaluate ⦃rt = plain_runtime⦄ where_views
