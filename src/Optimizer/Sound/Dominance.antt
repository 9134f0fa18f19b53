-- ===== src/Optimizer/Sound/Dominance.antt =====
-- A comparison that `_dominant_comparison` drops changes nothing beside the one that it keeps.
use yt_media_tools.Prelude.{
  ◌≡◌, refl, sym, Bool, true, false, ◌||◌, none, some, arith, Bool-cases, inl, inr,
}
use mathlib.Core.Path.{subst}
use yt_media_tools.Query.Value.{Value, Operator, is_null, holds}
use yt_media_tools.Query.Model.{Field, Literal, Connective, Truth, Predicate, comparison}
use yt_media_tools.Query.Semantics.{same_field}
use yt_media_tools.Query.Semantics.Laws.{field_of_same}
use yt_media_tools.Query.Evaluator.{
  Runtime, Record, record_value, evaluate_boolean_binary, compare_field, comparison_values,
  evaluate, ignores_case,
}
use yt_media_tools.Optimizer.Bounds.{
  Side, left, right, dominant_pair, dominant_comparison, select_equality,
}
use yt_media_tools.Optimizer.Sound.Regular.{is_regular, is_equality}
use yt_media_tools.Optimizer.Sound.Pairs.{Absorbs, dominant_pair-Absorbs}

-- the same on truth values
abbrev pub Kept : Connective → Side → Truth → Truth → Type 0
Kept op left s t = evaluate_boolean_binary op s t ≡ s
Kept op right s t = evaluate_boolean_binary op t s ≡ t

pub Kept-none : (op : Connective) (s : Side) → Kept op s none none
unfolding evaluate_boolean_binary
Kept-none op s = ground arith

Kept-some :
    (op : Connective) (s : Side) (x y : Bool) → Absorbs op s x y → Kept op s (some x) (some y)
Kept-some op left x y h = h
Kept-some op right x y h = h

pair-literals :
    (op : Connective) (s : Side) (o : Operator) (a : Literal) (o' : Operator) (b : Literal)
    → dominant_pair op o a o' b ≡ some s
    → (is_null a.value ≡ false) × (is_null b.value ≡ false)
unfolding dominant_pair
pair-literals op s o a o' b h = elim (Bool-cases (is_null a.value || is_null b.value)) [
  | inl e ↦ cc (rw (e, dominant_pair) at h)
  | inr e ↦ ground arith
]

-- The rule takes no two equalities.
pair-ordering :
    (op : Connective) (s : Side) (o : Operator) (a : Literal) (o' : Operator) (b : Literal)
    → dominant_pair op o a o' b ≡ some s
    → is_equality o ≡ true
    → is_equality o' ≡ false
unfolding dominant_pair select_equality
pair-ordering op s o a o' b h k = ground arith

module _ ⦃rt : Runtime⦄ where
  pub compare_field-holds :
      (o : Operator) (f : Field) (v w : Value)
      → ignores_case f ≡ false
      → compare_field o f v w ≡ holds o v w
  unfolding compare_field comparison_values
  compare_field-holds o f v w h = ground arith

  no_folding :
      (o : Operator) (f : Field) (a : Literal) (r : Record)
      → is_regular (comparison o f a) r ≡ true
      → is_equality o ≡ false
      → ignores_case f ≡ false
  unfolding is_regular
  no_folding o f a r h k = ground arith

  comparison-null :
      (o : Operator) (f : Field) (a : Literal) (r : Record)
      → is_null (record_value r f) ≡ true
      → evaluate (comparison o f a) r ≡ none
  unfolding evaluate
  comparison-null o f a r h = rw h refl

  comparison-holds :
      (o : Operator) (f : Field) (a : Literal) (r : Record)
      → is_null (record_value r f) ≡ false
      → is_null a.value ≡ false
      → ignores_case f ≡ false
      → some (holds o (record_value r f) a.value) ≡ evaluate (comparison o f a) r
  unfolding evaluate
  comparison-holds o f a r h k e =
      rw (h, k, compare_field-holds o f (record_value r f) a.value e) refl

  pair-folding :
      (op : Connective) (s : Side) (o o' : Operator) (f : Field) (a b : Literal) (r : Record)
      → dominant_pair op o a o' b ≡ some s
      → is_regular (comparison o f a) r ≡ true
      → is_regular (comparison o' f b) r ≡ true
      → ignores_case f ≡ false
  pair-folding op s o o' f a b r h p q = elim (Bool-cases (is_equality o)) [
    | inl e ↦ no_folding o' f b r q (pair-ordering op s o a o' b h e)
    | inr e ↦ no_folding o f a r p e
  ]

  pair-Kept :
      (op : Connective) (s : Side) (o o' : Operator) (f : Field) (a b : Literal) (r : Record)
      → dominant_pair op o a o' b ≡ some s
      → is_regular (comparison o f a) r ≡ true
      → is_regular (comparison o' f b) r ≡ true
      → Kept op s (evaluate (comparison o f a) r) (evaluate (comparison o' f b) r)
  pair-Kept op s o o' f a b r h p q = elim (Bool-cases (is_null (record_value r f))) [
    | inl n ↦ rw (comparison-null o f a r n, comparison-null o' f b r n) (Kept-none op s)
    | inr n ↦
        let (na, nb) = pair-literals op s o a o' b h in
        let e = pair-folding op s o o' f a b r h p q in
        let v = record_value r f in
        subst (λ t. Kept op s t (evaluate (comparison o' f b) r)) (comparison-holds o f a r n na e)
          (subst (Kept op s (some (holds o v a.value))) (comparison-holds o' f b r n nb e) (
            Kept-some op s (holds o v a.value) (holds o' v b.value)
              (dominant_pair-Absorbs op s v o a o' b h)))
  ]

  -- Of two comparisons, the bound rule keeps one: on a record where both are regular, AND or OR of
  -- the two, the kept one first, has the truth value of the kept one.
  pub dominant_comparison-Kept :
      (op : Connective) (s : Side) (p q : Predicate) (r : Record)
      → dominant_comparison op p q ≡ some s
      → is_regular p r ≡ true
      → is_regular q r ≡ true
      → Kept op s (evaluate p r) (evaluate q r)
  unfolding dominant_comparison
  dominant_comparison-Kept op s (comparison o f a) (comparison o' g b) r h p q =
      elim (Bool-cases (same_field f g)) [
        | inl e ↦
            let fg = field_of_same f g e in
            subst (λ x. Kept op s (evaluate (comparison o f a) r) (evaluate (comparison o' x b) r))
              fg
              (pair-Kept op s o o' f a b r (rw (e, dominant_comparison) at h) p
                (subst (λ x. is_regular (comparison o' x b) r ≡ true) (sym fg) q))
        | inr e ↦ cc (rw (e, dominant_comparison) at h)
      ]
  dominant_comparison-Kept op s p q r h _ _ = cc
