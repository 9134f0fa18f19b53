-- ===== src/Examples/Rewritten.antt =====
-- The laws behind the optimiser at small predicates.
use yt_media_tools.Prelude.{◌≡◌, refl, true, false, some, codes, ◌==◌, [], ◌∷◌}
use yt_media_tools.Query.Value.{
  compare_values, equal_values, holds, boolean, greater, greater_or_equal, equals,
}
use yt_media_tools.Query.Model.{and, or, Predicate, comparison, in_list}
use yt_media_tools.Query.Like.{like_matches, full_match, compile}
use yt_media_tools.Query.Like.Laws.{like_matches-full_match}
use yt_media_tools.Query.Semantics.{same_key}
use yt_media_tools.Query.Semantics.Laws.{evaluate_of_same_key}
use yt_media_tools.Query.Evaluator.{evaluate, evaluate_not, ignores_case, record_value}
use yt_media_tools.Optimizer.Defs.{normalise_not}
use yt_media_tools.Optimizer.Bounds.{left, right, dominant_comparison}
use yt_media_tools.Optimizer.Memberships.{subsumed_membership}
use yt_media_tools.Optimizer.Sound.Regular.{is_regular}
use yt_media_tools.Optimizer.Sound.Dominance.{Kept, dominant_comparison-Kept}
use yt_media_tools.Optimizer.Sound.Absorption.{subsumed_membership-Kept}
use yt_media_tools.Optimizer.Sound.Leaves.{normalise_not_sound}
use yt_media_tools.Examples.{plain_runtime, views, number, views_record}

abbrev more_than_three : Predicate
more_than_three = comparison greater views (number 3)

abbrev at_least_five : Predicate
at_least_five = comparison greater_or_equal views (number 5)

more-regular : is_regular ⦃rt = plain_runtime⦄ more_than_three views_record ≡ true
unfolding is_regular ignores_case record_value compare_values
more-regular = refl

least-regular : is_regular ⦃rt = plain_runtime⦄ at_least_five views_record ≡ true
unfolding is_regular ignores_case record_value compare_values
least-regular = refl

five-kept : dominant_comparison and more_than_three at_least_five ≡ some right
unfolding dominant_comparison compare_values holds
five-kept = refl

dominant_comparison-Kept_example :
    Kept and right
      (evaluate ⦃rt = plain_runtime⦄ more_than_three views_record)
      (evaluate ⦃rt = plain_runtime⦄ at_least_five views_record)
dominant_comparison-Kept_example =
    dominant_comparison-Kept ⦃rt = plain_runtime⦄ and right more_than_three at_least_five
      views_record five-kept more-regular least-regular

abbrev among_three : Predicate
among_three = in_list views (number 1 ∷ number 7 ∷ number 9 ∷ []) false

abbrev seven : Predicate
seven = comparison equals views (number 7)

seven-kept : subsumed_membership or among_three seven ≡ some left
unfolding subsumed_membership compare_values equal_values
seven-kept = refl

among-regular : is_regular ⦃rt = plain_runtime⦄ among_three views_record ≡ true
unfolding is_regular
among-regular = refl

seven-regular : is_regular ⦃rt = plain_runtime⦄ seven views_record ≡ true
unfolding is_regular
seven-regular = refl

subsumed_membership-Kept_example :
    Kept or left
      (evaluate ⦃rt = plain_runtime⦄ among_three views_record)
      (evaluate ⦃rt = plain_runtime⦄ seven views_record)
subsumed_membership-Kept_example =
    subsumed_membership-Kept ⦃rt = plain_runtime⦄ or left views_record among_three seven seven-kept
      among-regular seven-regular

normalise_not_sound_example :
    (is_regular ⦃rt = plain_runtime⦄ (normalise_not more_than_three) views_record ≡ true)
    × (evaluate ⦃rt = plain_runtime⦄ (normalise_not more_than_three) views_record
        ≡ evaluate_not (evaluate ⦃rt = plain_runtime⦄ more_than_three views_record))
normalise_not_sound_example =
    normalise_not_sound ⦃rt = plain_runtime⦄ more_than_three views_record more-regular

-- Python's TRUE and 1 are one value.
abbrev is_one : Predicate
is_one = comparison equals views (number 1)

abbrev is_true : Predicate
is_true = comparison equals views (record { value = boolean true; quoted = false })

one-true : same_key is_one is_true ≡ true
unfolding same_key compare_values equal_values
one-true = refl

evaluate_of_same_key_example :
    evaluate ⦃rt = plain_runtime⦄ is_one views_record
    ≡ evaluate ⦃rt = plain_runtime⦄ is_true views_record
evaluate_of_same_key_example =
    evaluate_of_same_key ⦃rt = plain_runtime⦄ is_one is_true views_record one-true

like_matches-full_match_example :
    like_matches ◌==◌ (codes "100%") (codes "100\\%") false
    ≡ full_match ◌==◌ (compile false (codes "100\\%")) (codes "100%")
like_matches-full_match_example = like_matches-full_match ◌==◌ (codes "100%") (codes "100\\%")
