-- ===== src/Optimizer/Sound/Leaves.antt =====
-- The rewrites of one node: NOT pushed inwards, a degenerate BETWEEN, and a shorter IN.
use yt_media_tools.Prelude.{
  ◌≡◌, refl, ap, Bool, true, false, not, ◌&&◌, ◌||◌, Option, none, some, [], ◌∷◌, arith, Bool-cases,
  inl, inr, Ordering, Text,
}
use yt_media_tools.Prelude.Order.{
  flip, compare_ℤ-IsTotalOrder, compare_text-IsTotalOrder, compare-IsTotalOrder,
}
use yt_media_tools.Query.Value.{
  Value, Operator, equals, less_or_equal, is_null, Key, number, characters, calendar, clock, key,
  compare_keys, compare_values, equal_values, holds,
}
use yt_media_tools.Query.Value.Laws.{key_of_equal}
use yt_media_tools.Query.Model.{
  Field, Literal, TextOperator, Predicate, truth_literal, unary, binary, comparison, between,
  in_list, null_test, text_predicate, truth_test,
}
use yt_media_tools.Query.Semantics.Laws.{holds_of_key, member-cons}
use yt_media_tools.Query.Evaluator.{
  Runtime, Record, record_value, compare_field, evaluate, evaluate_not, evaluate_text, ignores_case,
  negate,
}
use yt_media_tools.Optimizer.Defs.{inverted_comparison, normalise_not, equality}
use yt_media_tools.Optimizer.Sound.Regular.{is_regular, is_equality, comparable, is_textual}
use yt_media_tools.Optimizer.Sound.Dominance.{compare_field-holds}

-- Inverting an operator negates it where the two values compare, and everywhere for = and !=.
holds-inverted :
    (o : Operator) (v w : Value)
    → (is_equality o || comparable v w) ≡ true
    → holds (inverted_comparison o) v w ≡ not (holds o v w)
unfolding holds inverted_comparison
holds-inverted o v w h = ground arith

abbrev turned : Option Ordering → Option Ordering
turned none = none
turned (some o) = some (flip o)

compare_keys-turn : (k l : Key) → compare_keys l k ≡ turned (compare_keys k l)
unfolding compare_keys
compare_keys-turn (number i) (number j) = ap some (compare_ℤ-IsTotalOrder.turn i j)
compare_keys-turn (characters s) (characters t) = ap some (compare_text-IsTotalOrder.turn s t)
compare_keys-turn (calendar i) (calendar j) = ap some (compare-IsTotalOrder.turn i j)
compare_keys-turn (clock i) (clock j) = ap some (compare-IsTotalOrder.turn i j)
compare_keys-turn _ _ = ground arith

-- BETWEEN a AND a is `= a`, for a bound that is no NULL.
holds-degenerate :
    (v a : Value)
    → is_null a ≡ false
    → (holds less_or_equal a v && holds less_or_equal v a) ≡ holds equals v a
unfolding holds equal_values compare_values
holds-degenerate v a h = ground (arith, compare_keys-turn (key v) (key a))

module _ ⦃rt : Runtime⦄ where
  compare_field-inverted :
      (o : Operator) (f : Field) (v w : Value)
      → is_equality o ≡ true
      → compare_field (inverted_comparison o) f v w ≡ not (compare_field o f v w)
  unfolding compare_field holds inverted_comparison
  compare_field-inverted o f v w h = ground arith

  comparison-inverted :
      (o : Operator) (f : Field) (a : Literal) (v : Value)
      → (is_equality o || (not (ignores_case f) && comparable v a.value)) ≡ true
      → compare_field (inverted_comparison o) f v a.value ≡ not (compare_field o f v a.value)
  comparison-inverted o f a v h = elim (Bool-cases (is_equality o)) [
    | inl e ↦ compare_field-inverted o f v a.value e
    | inr e ↦ ground (
      arith,
      compare_field-holds o f v a.value,
      compare_field-holds (inverted_comparison o) f v a.value,
      holds-inverted o v a.value,
    )
  ]

  normalise_comparison :
      (o : Operator) (f : Field) (a : Literal) (r : Record)
      → is_regular (comparison o f a) r ≡ true
      → (is_regular (comparison (inverted_comparison o) f a) r ≡ true)
        × (evaluate (comparison (inverted_comparison o) f a) r
            ≡ evaluate_not (evaluate (comparison o f a) r))
  unfolding is_regular evaluate inverted_comparison
  normalise_comparison o f a r h = ground (arith, comparison-inverted o f a (record_value r f))

  negate-not : (n b : Bool) → negate (not n) b ≡ not (negate n b)
  negate-not n b = ground arith

  evaluate_text-not :
      (v : Value) (o : TextOperator) (s : Text) (n : Bool)
      → is_textual v ≡ true
      → evaluate_text o v s (not n) ≡ evaluate_not (evaluate_text o v s n)
  unfolding evaluate_text
  evaluate_text-not v o s n h = ground arith

  -- NOT pushed into a node gives, on a record where the node is regular, the negation of its truth
  -- value, UNKNOWN included, and a node that is regular there.
  pub normalise_not_sound :
      (p : Predicate) (r : Record)
      → is_regular p r ≡ true
      → (is_regular (normalise_not p) r ≡ true)
        × (evaluate (normalise_not p) r ≡ evaluate_not (evaluate p r))
  unfolding normalise_not is_regular evaluate
  normalise_not_sound (truth_literal t) r h = (refl, refl)
  normalise_not_sound (unary p) r h = (h, ground arith)
  normalise_not_sound (binary op p q) r h = (h, refl)
  normalise_not_sound (comparison o f a) r h = normalise_comparison o f a r h
  normalise_not_sound (between f a b n) r h = (h, ground arith)
  normalise_not_sound (in_list f items n) r h = (h, ground arith)
  normalise_not_sound (null_test f n) r h = (refl, ap some (negate-not n _))
  normalise_not_sound (text_predicate o f s k n) r h =
      (h, evaluate_text-not (record_value r f) o s n h)
  normalise_not_sound (truth_test p t n) r h = (h, ap some (negate-not n _))

  compare_field-equality :
      (f : Field) (v : Value) (a : Literal) (n : Bool)
      → compare_field (equality n) f v a.value ≡ negate n (compare_field equals f v a.value)
  unfolding compare_field holds
  compare_field-equality f v a n = ground arith

  -- A BETWEEN whose bounds are equal.
  pub degenerate_sound :
      (f : Field) (a b : Literal) (n : Bool) (r : Record)
      → equal_values a.value b.value ≡ true
      → is_regular (between f a b n) r ≡ true
      → (is_regular (comparison (equality n) f a) r ≡ true)
        × (evaluate (comparison (equality n) f a) r ≡ evaluate (between f a b n) r)
  unfolding is_regular evaluate
  degenerate_sound f a b n r h k =
      let v = record_value r f in
      ground (
        arith,
        compare_field-equality f v a n,
        compare_field-holds equals f v a.value,
        holds-degenerate v a.value,
        holds_of_key less_or_equal v a.value b.value (key_of_equal a.value b.value h),
      )

  -- An IN of one value.
  pub singleton_sound :
      (f : Field) (a : Literal) (n : Bool) (r : Record)
      → is_regular (in_list f (a ∷ []) n) r ≡ true
      → (is_regular (comparison (equality n) f a) r ≡ true)
        × (evaluate (comparison (equality n) f a) r ≡ evaluate (in_list f (a ∷ []) n) r)
  unfolding is_regular evaluate
  singleton_sound f a n r k =
      let v = record_value r f in
      ground (arith, compare_field-equality f v a n, member-cons f v a [])
