-- ===== src/Examples/Bounded.antt =====
-- The theorems on bounds, stages and collections at one WHERE on the upload date.
use yt_media_tools.Prelude.{
  ℕ, ◌≡◌, ◌⊎◌, ◌||◌, ◌&&◌, refl, true, false, Option, none, some, List, [], ◌∷◌, codes,
}
use yt_media_tools.Query.Value.{Value, day, compare_values, greater, less, less_or_equal}
use yt_media_tools.Query.Model.{Field, Literal, and, or, Predicate, binary, comparison}
use yt_media_tools.Query.Evaluator.{Record, evaluate}
use yt_media_tools.Collections.{existential_truth, universal_truth}
use yt_media_tools.Collections.Laws.{joined, truth-joined}
use yt_media_tools.Temporal.Bounds.{
  Kind, date, FieldBounds, bound, contradictory, intersected, spanned,
}
use yt_media_tools.Temporal.Bounds.Laws.{admits, admits-merged, contradictory-admits}
use yt_media_tools.Temporal.Inference.{infer, upload_date_frontier, temporal_kind}
use yt_media_tools.Temporal.Inference.Merges.{Admitted}
use yt_media_tools.Temporal.Inference.Sound.{
  is_resolved, Reaches, infer-Admitted, upload_date_frontier-Reaches,
}
use yt_media_tools.Optimizer.Terms.{simplify_bounds, simplify_memberships}
use yt_media_tools.Optimizer.Bounds.{dominant_comparison}
use yt_media_tools.Optimizer.Memberships.{subsumed_membership}
use yt_media_tools.Optimizer.Rewriting.Loops.{NoPair, simplify-IsComplete}
use yt_media_tools.Examples.{plain_runtime}

abbrev upload_date : Field
upload_date = record { name = codes "upload_date"; kind = some (codes "date") }

abbrev on_day : ℕ → Literal
on_day n = record { value = day n; quoted = true }

-- upload_date > 10 AND upload_date <= 20, as days
abbrev recent : Predicate
recent =
    binary and (comparison greater upload_date (on_day 10))
      (comparison less_or_equal upload_date (on_day 20))

abbrev day_record : ℕ → Record
day_record n = (codes "upload_date", day n) ∷ []

abbrev no_text : Kind → Value → Option ℕ
no_text kind v = none

recent-resolved : is_resolved ⦃rt = plain_runtime⦄ no_text recent ≡ true
unfolding is_resolved temporal_kind
recent-resolved = refl

recent-accepted : evaluate ⦃rt = plain_runtime⦄ recent (day_record 15) ≡ some true
unfolding evaluate compare_values
recent-accepted = refl

infer-Admitted_example : Admitted (day_record 15) (infer ⦃rt = plain_runtime⦄ no_text recent)
infer-Admitted_example =
    infer-Admitted ⦃rt = plain_runtime⦄ no_text recent (day_record 15) recent-resolved
      recent-accepted

recent-frontier : upload_date_frontier (infer ⦃rt = plain_runtime⦄ no_text recent) ≡ some 11
unfolding upload_date_frontier infer
recent-frontier = refl

upload_date_frontier-Reaches_example :
    Reaches ⦃rt = plain_runtime⦄ no_text (day_record 15) (codes "upload_date") 11
    ⊎ Reaches ⦃rt = plain_runtime⦄ no_text (day_record 15) (codes "date") 11
upload_date_frontier-Reaches_example =
    upload_date_frontier-Reaches ⦃rt = plain_runtime⦄ no_text recent (day_record 15) 11
      recent-resolved recent-accepted recent-frontier

abbrev after_ten : FieldBounds
after_ten = record {
  field = codes "upload_date";
  kind = date;
  lower = some (bound 10 false);
  upper = none;
}

abbrev up_to_ten : FieldBounds
up_to_ten = record {
  field = codes "upload_date";
  kind = date;
  lower = some (bound 10 false);
  upper = some (bound 10 true);
}

admits-merged_example :
    (admits (intersected after_ten up_to_ten) 7 ≡ (admits after_ten 7 && admits up_to_ten 7))
    × ((admits after_ten 7 || admits up_to_ten 7) ≡ true
        → admits (spanned after_ten up_to_ten) 7 ≡ true)
admits-merged_example = admits-merged after_ten up_to_ten 7

ten-contradictory : contradictory up_to_ten ≡ true
unfolding contradictory
ten-contradictory = refl

contradictory-admits_example : admits up_to_ten 10 ≡ false
contradictory-admits_example = contradictory-admits up_to_ten 10 ten-contradictory

truth-joined_example :
    (existential_truth (none ∷ some true ∷ []) false
      ≡ joined or (some false) (none ∷ some true ∷ []))
    × (universal_truth (none ∷ some true ∷ []) false
        ≡ joined and (some true) (none ∷ some true ∷ []))
truth-joined_example = truth-joined (none ∷ some true ∷ [])

abbrev three_bounds : List Predicate
three_bounds =
    comparison greater upload_date (on_day 10)
    ∷ (comparison less upload_date (on_day 30) ∷ (comparison less upload_date (on_day 20) ∷ []))

-- a pair behind the first term is tried too
two_bounds_left :
    simplify_bounds and three_bounds
    ≡ comparison greater upload_date (on_day 10) ∷ (comparison less upload_date (on_day 20) ∷ [])
unfolding simplify_bounds compare_values
two_bounds_left = refl

simplify-IsComplete_example :
    NoPair (subsumed_membership and) (simplify_memberships and three_bounds)
    × NoPair (dominant_comparison and) (simplify_bounds and three_bounds)
simplify-IsComplete_example = simplify-IsComplete and three_bounds
