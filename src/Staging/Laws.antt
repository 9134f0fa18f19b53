-- ===== src/Staging/Laws.antt =====
-- What an enumeration decides of a WHERE, the complete record decides too.
use yt_media_tools.Prelude.{
  ◌≡◌, refl, ap, ap₂, sym, ◌∙◌, Bool, true, false, ◌&&◌, List, [], ◌∷◌, Text, all, some, arith,
  Bool-cases, inl, inr, both,
}
use mathlib.Core.Path.{subst}
use yt_media_tools.Query.Model.{
  Field, and, Predicate, truth_literal, unary, binary, comparison, between, in_list, null_test,
  text_predicate, truth_test,
}
use yt_media_tools.Query.Evaluator.{
  Runtime, Record, record_value, evaluate, evaluate_boolean_binary, evaluate_not, is_truth, negate,
  accepts_record,
}
use yt_media_tools.Query.Evaluator.Laws.{named, record_value-named}
use yt_media_tools.Staging.{
  and_terms, required_fields, Term, with_fields, select, enumeration_safe, plan_predicate_stages,
  has_key, acquired, is_accepted, rejects, rejects_at_enumeration, accepts_terms,
  matches_at_enumeration,
}
use yt_media_tools.Staging.Fields.{HasFields, order-HasFields, plan_fields}
use yt_media_tools.Staging.Terms.{
  all-append, all-order, all-select, all-union, all-with_fields, and-is_truth, first_of,
}

module _ ⦃rt : Runtime⦄ (is_enumerated : Text → Bool) (early late : Record) where
  -- Of the fields that the source declares exact at the enumeration, the complete record has what
  -- the enumeration acquired. Nothing is said of the other fields, whose values are approximate.
  abbrev pub Extends : Type 0
  Extends =
      (name : Text)
      → is_enumerated name ≡ true
      → has_key name early ≡ true
      → record_value early (named name) ≡ record_value late (named name)

  field_agrees :
      (f : Field)
      → Extends
      → all is_enumerated (f.name ∷ []) ≡ true
      → acquired early (f.name ∷ []) ≡ true
      → record_value early f ≡ record_value late f
  field_agrees f x d h =
      sym (record_value-named early f)
      ∙ x f.name (both (is_enumerated f.name) true d).0 (both (has_key f.name early) true h).0
      ∙ record_value-named late f

  -- The truth value of a predicate depends on its required fields only.
  evaluate_agrees :
      (p : Predicate)
      → Extends
      → all is_enumerated (required_fields p) ≡ true
      → acquired early (required_fields p) ≡ true
      → evaluate p early ≡ evaluate p late
  unfolding required_fields evaluate
  evaluate_agrees (truth_literal t) x d h = refl
  evaluate_agrees (unary p) x d h = ap evaluate_not (evaluate_agrees p x d h)
  evaluate_agrees (binary op p q) x d h =
      let (a, b) =
        all-union (λ (f : Text). has_key f early) (required_fields p) (required_fields q) h in
      let (c, e) = all-union is_enumerated (required_fields p) (required_fields q) d in
      ap₂ (evaluate_boolean_binary op) (evaluate_agrees p x c a) (evaluate_agrees q x e b)
  evaluate_agrees (comparison op f a) x d h = rw (field_agrees f x d h) refl
  evaluate_agrees (between f a b n) x d h = rw (field_agrees f x d h) refl
  evaluate_agrees (in_list f items n) x d h = rw (field_agrees f x d h) refl
  evaluate_agrees (null_test f n) x d h = rw (field_agrees f x d h) refl
  evaluate_agrees (text_predicate op f s k n) x d h = rw (field_agrees f x d h) refl
  evaluate_agrees (truth_test p t n) x d h =
      ap (λ y. some (negate n (is_truth y t))) (evaluate_agrees p x d h)

  accepts-terms : (p : Predicate) → is_accepted late p ≡ all (is_accepted late) (and_terms p)
  unfolding and_terms evaluate
  accepts-terms (binary and p q) =
      and-is_truth (evaluate p late) (evaluate q late)
      ∙ ap₂ ◌&&◌ (accepts-terms p) (accepts-terms q)
      ∙ sym (all-append (is_accepted late) (and_terms p) (and_terms q))
  accepts-terms p = ground arith

  rejects-late :
      (ts : List Term)
      → Extends
      → HasFields is_enumerated ts
      → rejects ts early ≡ true
      → all (first_of (is_accepted late)) ts ≡ false
  unfolding rejects
  rejects-late [] x w h = cc
  rejects-late ((p, fields) ∷ ts) x w h = elim (Bool-cases (acquired early fields)) [
    | inr e ↦ falls _ (rejects-late ts x w.1 (rw (e, rejects) at h))
    | inl e ↦ elim (Bool-cases (is_accepted early p)) [
      | inl a ↦ falls _ (rejects-late ts x w.1 (rw (e, a, rejects) at h))
      | inr a ↦ rejected _ (sym (same p fields x w.0.0 w.0.1 e) ∙ a)
    ]
  ]
    where
      falls : (b : Bool) {c : Bool} → c ≡ false → (b && c) ≡ false
      falls b {c} k = ground arith

      rejected : {b : Bool} (c : Bool) → b ≡ false → (b && c) ≡ false
      rejected {b} c k = ground arith

      same :
          (q : Predicate) (names : List Text)
          → Extends
          → names ≡ required_fields q
          → all is_enumerated (required_fields q) ≡ true
          → acquired early names ≡ true
          → is_accepted early q ≡ is_accepted late q
      same q names y v d k =
          ap (λ t. is_truth t (some true))
            (evaluate_agrees q y d (subst (λ l. acquired early l ≡ true) v k))

  accepts-late :
      (ts : List Term)
      → Extends
      → HasFields is_enumerated ts
      → accepts_terms ts early ≡ true
      → all (first_of (is_accepted late)) ts ≡ true
  unfolding accepts_terms
  accepts-late [] x w h = refl
  accepts-late ((p, fields) ∷ ts) x w h = elim (Bool-cases (acquired early fields)) [
    | inr e ↦ cc (rw (e, accepts_terms) at h)
    | inl e ↦ elim (Bool-cases (is_accepted early p)) [
      | inr a ↦ cc (rw (e, a, accepts_terms) at h)
      | inl a ↦
          rw
            (sym (
                ap (λ t. is_truth t (some true))
                  (evaluate_agrees p x w.0.1 (subst (λ l. acquired early l ≡ true) w.0.0 e)))
              ∙ a)
            (accepts-late ts x w.1 (rw (e, a, accepts_terms) at h))
    ]
  ]

  matches-late :
      (ts : List Term) (rest : List Predicate)
      → Extends
      → HasFields is_enumerated ts
      → matches_at_enumeration (record { enumeration_terms = ts; residual_terms = rest }) early
        ≡ true
      → (all (first_of (is_accepted late)) ts && all (is_accepted late) rest) ≡ true
  unfolding matches_at_enumeration
  matches-late ts [] x w h = ground (arith, accepts-late ts x w h)
  matches-late ts (p ∷ ps) x w h = cc

  module _ (p : Predicate) where
    enumerated-all :
        all (first_of (is_accepted late)) (plan_predicate_stages is_enumerated p).enumeration_terms
        ≡ all (is_accepted late) (select (enumeration_safe is_enumerated) (and_terms p))
    unfolding plan_predicate_stages
    enumerated-all =
        all-order (first_of (is_accepted late))
          (with_fields (select (enumeration_safe is_enumerated) (and_terms p)))
        ∙ all-with_fields (is_accepted late) (select (enumeration_safe is_enumerated) (and_terms p))

    enumerated-HasFields :
        HasFields is_enumerated (plan_predicate_stages is_enumerated p).enumeration_terms
    unfolding plan_predicate_stages
    enumerated-HasFields =
        order-HasFields is_enumerated
          (with_fields (select (enumeration_safe is_enumerated) (and_terms p)))
          (plan_fields is_enumerated (and_terms p))

    split-terms : is_accepted late p ≡ (
        all (first_of (is_accepted late)) (plan_predicate_stages is_enumerated p).enumeration_terms
        && all (is_accepted late) (plan_predicate_stages is_enumerated p).residual_terms)
    unfolding plan_predicate_stages
    split-terms =
        accepts-terms p
        ∙ all-select (is_accepted late) (enumeration_safe is_enumerated) (and_terms p)
        ∙ ap
            (λ b.
              b && all (is_accepted late) (plan_predicate_stages is_enumerated p).residual_terms)
            (sym enumerated-all)

    -- A record that is rejected on the values of its enumeration is not accepted by the WHERE on any
    -- complete record that has those values in the fields that the source declares exact at the
    -- enumeration, whatever the approximate values of the other fields become.
    pub rejects_at_enumeration-accepts :
        Extends
        → rejects_at_enumeration (plan_predicate_stages is_enumerated p) early ≡ true
        → accepts_record (some p) late ≡ false
    unfolding rejects_at_enumeration accepts_record
    rejects_at_enumeration-accepts x h =
        split-terms
        ∙ ap
            (λ b.
              b && all (is_accepted late) (plan_predicate_stages is_enumerated p).residual_terms)
            (rejects-late (plan_predicate_stages is_enumerated p).enumeration_terms x
              enumerated-HasFields h)

    -- A record that matches on the values of its enumeration is accepted by the WHERE on every
    -- complete record that has those values in the fields that the source declares exact at the
    -- enumeration, whatever the approximate values of the other fields become.
    pub matches_at_enumeration-accepts :
        Extends
        → matches_at_enumeration (plan_predicate_stages is_enumerated p) early ≡ true
        → accepts_record (some p) late ≡ true
    unfolding matches_at_enumeration accepts_record
    matches_at_enumeration-accepts x h =
        split-terms
        ∙ matches-late (plan_predicate_stages is_enumerated p).enumeration_terms
            (plan_predicate_stages is_enumerated p).residual_terms x enumerated-HasFields h
