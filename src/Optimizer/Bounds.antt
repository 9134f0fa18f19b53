-- ===== src/Optimizer/Bounds.antt =====
-- `_dominant_comparison` of optimizer.py: of two comparisons of one field with literals, the one
-- that makes the other redundant under AND or OR.
use yt_media_tools.Prelude.{
  Ordering, Bool, true, false, not, ◌&&◌, ◌||◌, Option, none, some, if◌then◌else◌,
}
use yt_media_tools.Query.Value.{
  Operator, equals, less, less_or_equal, greater, greater_or_equal, is_null, compare_values, holds,
}
use yt_media_tools.Query.Model.{Literal, Connective, and, or, Predicate, comparison}
use yt_media_tools.Query.Semantics.{same_field, same_operator}

-- which of the two terms is kept
pub data Side : Type 0 where
  left right : Side

abbrev pub opposite : Side → Side
opposite left = right
opposite right = left

abbrev pub is_lower_bound : Operator → Bool
is_lower_bound greater = true
is_lower_bound greater_or_equal = true
is_lower_bound _ = false

abbrev pub is_upper_bound : Operator → Bool
is_upper_bound less = true
is_upper_bound less_or_equal = true
is_upper_bound _ = false

-- the choice of both `_select_…_bound` between equal literals: `strict` is > or <
unfoldable pub select_strict : Operator → Operator → Operator → Bool → Side
select_strict strict op op' stronger =
    if same_operator op op'
    then left
    else let strict_side = if same_operator op strict then left else right in
      if stronger then strict_side else opposite strict_side

unfoldable pub select_lower_bound : Operator → Operator → Ordering → Bool → Side
unfolding select_strict
select_lower_bound op op' Ordering.eq stronger = select_strict greater op op' stronger
select_lower_bound op op' Ordering.gt stronger = if stronger then left else right
select_lower_bound op op' Ordering.lt stronger = if stronger then right else left

unfoldable pub select_upper_bound : Operator → Operator → Ordering → Bool → Side
unfolding select_strict
select_upper_bound op op' Ordering.eq stronger = select_strict less op op' stronger
select_upper_bound op op' Ordering.lt stronger = if stronger then left else right
select_upper_bound op op' Ordering.gt stronger = if stronger then right else left

abbrev pub is_and : Connective → Bool
is_and and = true
is_and or = false

-- an equality beside a bound that it satisfies: `side` is where the equality stands
unfoldable pub select_equality : Connective → Side → Literal → Operator → Literal → Option Side
select_equality op side value bound limit =
    if not (is_lower_bound bound || is_upper_bound bound)
    then none
    else if holds bound value.value limit.value
    then some (if is_and op then side else opposite side)
    else none

-- the operators and literals of two comparisons of one field
unfoldable pub dominant_pair : Connective → Operator → Literal → Operator → Literal → Option Side
unfolding select_lower_bound select_upper_bound select_equality
dominant_pair op o a o' b =
    if is_null a.value || is_null b.value
    then none
    else if is_lower_bound o && is_lower_bound o'
    then elim (compare_values a.value b.value) [
      | none ↦ none
      | some c ↦ some (select_lower_bound o o' c (is_and op))
    ]
    else if is_upper_bound o && is_upper_bound o'
    then elim (compare_values a.value b.value) [
      | none ↦ none
      | some c ↦ some (select_upper_bound o o' c (is_and op))
    ]
    else if same_operator o equals
    then select_equality op left a o' b
    else if same_operator o' equals
    then select_equality op right b o a
    else none

unfoldable pub dominant_comparison : Connective → Predicate → Predicate → Option Side
unfolding dominant_pair same_field
dominant_comparison op (comparison o f a) (comparison o' g b) =
    if same_field f g then dominant_pair op o a o' b else none
dominant_comparison op _ _ = none
