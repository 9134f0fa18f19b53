-- ===== src/Optimizer/Sound/Pairs.antt =====
-- A term that a pair rule drops is redundant beside the one that it keeps.
use yt_media_tools.Prelude.{
  both, of_some, ◌≡◌, ◌∙◌, Ordering, Bool, true, ◌&&◌, ◌||◌, some, arith, Bool-cases, Option-cases,
  inl, inr,
}
use mathlib.Core.Path.{subst}
use yt_media_tools.Query.Value.{
  Value, Operator, equals, less, less_or_equal, greater, greater_or_equal, is_null, compare_values,
  holds,
}
use yt_media_tools.Query.Value.Laws.{key_of_equal, compare_values-Together}
use yt_media_tools.Query.Model.{Literal, Connective, and, or}
use yt_media_tools.Query.Semantics.{same_operator}
use yt_media_tools.Query.Semantics.Laws.{holds_of_key_left}
use yt_media_tools.Query.Evaluator.{evaluate_boolean_binary}
use yt_media_tools.Optimizer.Bounds.{
  Side, left, right, is_lower_bound, is_upper_bound, select_lower_bound, select_upper_bound,
  select_equality, dominant_pair, is_and,
}

-- the kept side's result, with the dropped one's beside it
abbrev pub Absorbs : Connective → Side → Bool → Bool → Type 0
Absorbs op left x y = evaluate_boolean_binary op (some x) (some y) ≡ some x
Absorbs op right x y = evaluate_boolean_binary op (some y) (some x) ≡ some y

lower-Absorbs :
    (op : Connective) (v a b : Value) (o o' : Operator) (c : Ordering)
    → is_lower_bound o ≡ true
    → is_lower_bound o' ≡ true
    → compare_values a b ≡ some c
    → Absorbs op (select_lower_bound o o' c (is_and op)) (holds o v a) (holds o' v b)
unfolding select_lower_bound holds evaluate_boolean_binary
lower-Absorbs and v a b greater greater c p q e = ground (arith, compare_values-Together v a b)
lower-Absorbs and v a b greater greater_or_equal c p q e =
    ground (arith, compare_values-Together v a b)
lower-Absorbs and v a b greater_or_equal greater c p q e =
    ground (arith, compare_values-Together v a b)
lower-Absorbs and v a b greater_or_equal greater_or_equal c p q e =
    ground (arith, compare_values-Together v a b)
lower-Absorbs or v a b greater greater c p q e = ground (arith, compare_values-Together v a b)
lower-Absorbs or v a b greater greater_or_equal c p q e =
    ground (arith, compare_values-Together v a b)
lower-Absorbs or v a b greater_or_equal greater c p q e =
    ground (arith, compare_values-Together v a b)
lower-Absorbs or v a b greater_or_equal greater_or_equal c p q e =
    ground (arith, compare_values-Together v a b)
lower-Absorbs op v a b o o' c p q e = cc

upper-Absorbs :
    (op : Connective) (v a b : Value) (o o' : Operator) (c : Ordering)
    → is_upper_bound o ≡ true
    → is_upper_bound o' ≡ true
    → compare_values a b ≡ some c
    → Absorbs op (select_upper_bound o o' c (is_and op)) (holds o v a) (holds o' v b)
unfolding select_upper_bound holds evaluate_boolean_binary
upper-Absorbs and v a b less less c p q e = ground (arith, compare_values-Together v a b)
upper-Absorbs and v a b less less_or_equal c p q e = ground (arith, compare_values-Together v a b)
upper-Absorbs and v a b less_or_equal less c p q e = ground (arith, compare_values-Together v a b)
upper-Absorbs and v a b less_or_equal less_or_equal c p q e =
    ground (arith, compare_values-Together v a b)
upper-Absorbs or v a b less less c p q e = ground (arith, compare_values-Together v a b)
upper-Absorbs or v a b less less_or_equal c p q e = ground (arith, compare_values-Together v a b)
upper-Absorbs or v a b less_or_equal less c p q e = ground (arith, compare_values-Together v a b)
upper-Absorbs or v a b less_or_equal less_or_equal c p q e =
    ground (arith, compare_values-Together v a b)
upper-Absorbs op v a b o o' c p q e = cc

-- an equality that satisfies a bound implies it
equality_implies :
    (bound : Operator) (v a b : Value)
    → holds bound a b ≡ true
    → holds equals v a ≡ true
    → holds bound v b ≡ true
equality_implies bound v a b h k =
    holds_of_key_left bound b v a (key_of_equal v a (unfold holds in k)) ∙ h

select_equality_left :
    (op : Connective) (s : Side) (v : Value) (a b : Literal) (bound : Operator)
    → select_equality op left a bound b ≡ some s
    → Absorbs op s (holds equals v a.value) (holds bound v b.value)
unfolding select_equality evaluate_boolean_binary
select_equality_left and left v a b bound h =
    ground (arith, equality_implies bound v a.value b.value)
select_equality_left _ _ v a b bound h = ground (arith, equality_implies bound v a.value b.value)

select_equality_right :
    (op : Connective) (s : Side) (v : Value) (a b : Literal) (bound : Operator)
    → select_equality op right b bound a ≡ some s
    → Absorbs op s (holds bound v a.value) (holds equals v b.value)
unfolding select_equality evaluate_boolean_binary
select_equality_right and left v a b bound h =
    ground (arith, equality_implies bound v b.value a.value)
select_equality_right _ _ v a b bound h = ground (arith, equality_implies bound v b.value a.value)

operator_of_equals : (o : Operator) → same_operator o equals ≡ true → equals ≡ o
operator_of_equals o h = ground arith

-- Two comparisons of one value: the one that the rule keeps decides.
pub dominant_pair-Absorbs :
    (op : Connective) (s : Side) (v : Value) (o : Operator) (a : Literal) (o' : Operator)
    (b : Literal)
    → dominant_pair op o a o' b ≡ some s
    → Absorbs op s (holds o v a.value) (holds o' v b.value)
unfolding dominant_pair
dominant_pair-Absorbs op s v o a o' b h =
    let kept = λ (t : Side). Absorbs op t (holds o v a.value) (holds o' v b.value) in
    elim (Bool-cases (is_null a.value || is_null b.value)) [
      | inl e ↦ cc (rw (e, dominant_pair) at h)
      | inr e ↦ elim (Bool-cases (is_lower_bound o && is_lower_bound o')) [
        | inl l ↦ elim (Option-cases (compare_values a.value b.value)) [
          | inl n ↦ cc (rw (e, l, n, dominant_pair) at h)
          | inr (c, k) ↦
              let (p, q) = both _ _ l in
              subst kept (of_some (rw (e, l, k, dominant_pair) at h))
                (lower-Absorbs op v a.value b.value o o' c p q k)
        ]
        | inr l ↦ elim (Bool-cases (is_upper_bound o && is_upper_bound o')) [
          | inl u ↦ elim (Option-cases (compare_values a.value b.value)) [
            | inl n ↦ cc (rw (e, l, u, n, dominant_pair) at h)
            | inr (c, k) ↦
                let (p, q) = both _ _ u in
                subst kept (of_some (rw (e, l, u, k, dominant_pair) at h))
                  (upper-Absorbs op v a.value b.value o o' c p q k)
          ]
          | inr u ↦ elim (Bool-cases (same_operator o equals)) [
            | inl q ↦
                subst (λ x. Absorbs op s (holds x v a.value) (holds o' v b.value))
                  (operator_of_equals o q)
                  (select_equality_left op s v a b o' (rw (e, l, u, q, dominant_pair) at h))
            | inr q ↦ elim (Bool-cases (same_operator o' equals)) [
              | inl q' ↦
                  subst (λ x. Absorbs op s (holds o v a.value) (holds x v b.value))
                    (operator_of_equals o' q')
                    (select_equality_right op s v a b o (rw (e, l, u, q, q', dominant_pair) at h))
              | inr q' ↦ cc (rw (e, l, u, q, q', dominant_pair) at h)
            ]
          ]
        ]
      ]
    ]
