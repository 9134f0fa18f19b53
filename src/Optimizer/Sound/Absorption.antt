-- ===== src/Optimizer/Sound/Absorption.antt =====
-- A term that the optimiser drops from a chain is absorbed by a term that it keeps.
use yt_media_tools.Prelude.{
  of_some, ◌≡◌, Bool, true, false, not, ◌||◌, some, List, arith, Bool-cases, inl, inr,
}
use mathlib.Core.Path.{subst}
use yt_media_tools.Query.Value.{Operator, equals}
use yt_media_tools.Query.Model.{Field, Literal, Connective, Predicate, comparison, in_list}
use yt_media_tools.Query.Semantics.{same_field, same_operator, has_literal}
use yt_media_tools.Query.Semantics.Laws.{field_of_same, operator_of_same, evaluate_of_same_key}
use yt_media_tools.Query.Evaluator.{Runtime, Record, evaluate_boolean_binary, evaluate}
use yt_media_tools.Query.Evaluator.Laws.{binary_idem}
use yt_media_tools.Optimizer.Bounds.{Side, left, right}
use yt_media_tools.Optimizer.Memberships.{is_subset, subsumed_membership}
use yt_media_tools.Optimizer.Rewriting.{
  Absorbed, repeated, member_left, member_right, bound_left, bound_right,
}
use yt_media_tools.Optimizer.Sound.Regular.{is_regular}
use yt_media_tools.Optimizer.Sound.Dominance.{Kept, dominant_comparison-Kept}
use yt_media_tools.Optimizer.Sound.Subsumption.{
  subset-Kept, superset-Kept, equality_right-Kept, equality_left-Kept,
}

both_false : (a b : Bool) → (a || b) ≡ false → (a ≡ false) × (b ≡ false)
both_false a b h = ground arith

of_not : (a : Bool) → not a ≡ false → a ≡ true
of_not a h = ground arith

module _ ⦃rt : Runtime⦄ (op : Connective) (s : Side) (r : Record) where
  lists-Kept :
      (f g : Field) (items others : List Literal) (n m : Bool)
      → subsumed_membership op (in_list f items n) (in_list g others m) ≡ some s
      → Kept op s (evaluate (in_list f items n) r) (evaluate (in_list g others m) r)
  unfolding subsumed_membership
  lists-Kept f g items others n m h = elim (Bool-cases (n || m || not (same_field f g))) [
    | inl e ↦ cc (rw (e, subsumed_membership) at h)
    | inr e ↦
        let (enm, ef) = both_false _ _ e in
        let (en, em) = both_false n m enm in
        let kept = λ (t : Side) (x y : Bool) (k : Field).
          Kept op t (evaluate (in_list f items x) r) (evaluate (in_list k others y) r) in
        subst (kept s n m) (field_of_same f g (of_not _ ef)) (
          rw (en, em)
            (elim (Bool-cases (is_subset items others)) [
              | inl i ↦
                  subst (λ t. kept t false false f) (of_some (rw (e, i, subsumed_membership) at h))
                    (subset-Kept f r op items others i)
              | inr i ↦ elim (Bool-cases (is_subset others items)) [
                | inl j ↦
                    subst (λ t. kept t false false f)
                      (of_some (rw (e, i, j, subsumed_membership) at h))
                      (superset-Kept f r op items others j)
                | inr j ↦ cc (rw (e, i, j, subsumed_membership) at h)
              ]
            ]))
  ]

  list_equality-Kept :
      (f g : Field) (items : List Literal) (n : Bool) (o : Operator) (b : Literal)
      → subsumed_membership op (in_list f items n) (comparison o g b) ≡ some s
      → is_regular (in_list f items n) r ≡ true
      → Kept op s (evaluate (in_list f items n) r) (evaluate (comparison o g b) r)
  unfolding subsumed_membership is_regular
  list_equality-Kept f g items n o b h k =
      elim (Bool-cases (n || not (same_operator o equals) || not (same_field f g))) [
        | inl e ↦ cc (rw (e, subsumed_membership) at h)
        | inr e ↦ elim (Bool-cases (has_literal b items)) [
          | inl i ↦
              let (eno, ef) = both_false _ _ e in
              let (en, eo) = both_false n (not (same_operator o equals)) eno in
              rw (en, operator_of_same o equals (of_not _ eo))
                (subst
                  (λ g'.
                    Kept op s (evaluate (in_list f items false) r)
                      (evaluate (comparison equals g' b) r))
                  (field_of_same f g (of_not _ ef))
                  (subst
                    (λ t.
                      Kept op t (evaluate (in_list f items false) r)
                        (evaluate (comparison equals f b) r))
                    (of_some (rw (e, i, subsumed_membership) at h))
                    (equality_right-Kept f r op items b i k)))
          | inr i ↦ cc (rw (e, i, subsumed_membership) at h)
        ]
      ]

  equality_list-Kept :
      (f g : Field) (items : List Literal) (n : Bool) (o : Operator) (b : Literal)
      → subsumed_membership op (comparison o g b) (in_list f items n) ≡ some s
      → is_regular (in_list f items n) r ≡ true
      → Kept op s (evaluate (comparison o g b) r) (evaluate (in_list f items n) r)
  unfolding subsumed_membership is_regular
  equality_list-Kept f g items n o b h k =
      elim (Bool-cases (n || not (same_operator o equals) || not (same_field f g))) [
        | inl e ↦ cc (rw (e, subsumed_membership) at h)
        | inr e ↦ elim (Bool-cases (has_literal b items)) [
          | inl i ↦
              let (eno, ef) = both_false _ _ e in
              let (en, eo) = both_false n (not (same_operator o equals)) eno in
              rw (en, operator_of_same o equals (of_not _ eo))
                (subst
                  (λ g'.
                    Kept op s (evaluate (comparison equals g' b) r)
                      (evaluate (in_list f items false) r))
                  (field_of_same f g (of_not _ ef))
                  (subst
                    (λ t.
                      Kept op t (evaluate (comparison equals f b) r)
                        (evaluate (in_list f items false) r))
                    (of_some (rw (e, i, subsumed_membership) at h))
                    (equality_left-Kept f r op items b i k)))
          | inr i ↦ cc (rw (e, i, subsumed_membership) at h)
        ]
      ]

  -- Of two IN tests, or an IN and an equality, the membership rule keeps one: on a record where
  -- both are regular, AND or OR of the two, the kept one first, has the truth value of the kept one.
  pub subsumed_membership-Kept :
      (p q : Predicate)
      → subsumed_membership op p q ≡ some s
      → is_regular p r ≡ true
      → is_regular q r ≡ true
      → Kept op s (evaluate p r) (evaluate q r)
  unfolding subsumed_membership
  subsumed_membership-Kept (in_list f items n) (in_list g others m) h j k =
      lists-Kept f g items others n m h
  subsumed_membership-Kept (in_list f items n) (comparison o g b) h j k =
      list_equality-Kept f g items n o b h j
  subsumed_membership-Kept (comparison o g b) (in_list f items n) h j k =
      equality_list-Kept f g items n o b h k
  subsumed_membership-Kept p q h _ _ = cc

-- The absorbed term `x` beside the kept term `z`.
pub evaluate-Absorbed :
    ⦃rt : Runtime⦄ (op : Connective) (x z : Predicate) (r : Record)
    → Absorbed op x z
    → is_regular x r ≡ true
    → is_regular z r ≡ true
    → evaluate_boolean_binary op (evaluate z r) (evaluate x r) ≡ evaluate z r
evaluate-Absorbed op x z r (repeated h) j k =
    rw (evaluate_of_same_key x z r h) (binary_idem op (evaluate z r))
evaluate-Absorbed op x z r (member_left h) j k = subsumed_membership-Kept op left r z x h k j
evaluate-Absorbed op x z r (member_right h) j k = subsumed_membership-Kept op right r x z h j k
evaluate-Absorbed op x z r (bound_left h) j k = dominant_comparison-Kept op left z x r h k j
evaluate-Absorbed op x z r (bound_right h) j k = dominant_comparison-Kept op right x z r h j k
