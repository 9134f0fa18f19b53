-- ===== src/Provability/Laws.antt =====
-- A predicate whose AND terms are proved contradictory is TRUE of no record.
use yt_media_tools.Prelude.{
  Bool, true, false, some, List, [], ◌∷◌, Text, any, All, All-append, ◌≡◌, ◌≢◌, refl, arith,
  Bool-cases, inl, inr,
}
use yt_media_tools.Query.Value.{is_null, equal_values}
use yt_media_tools.Query.Model.{Predicate}
use yt_media_tools.Query.Evaluator.{Runtime, Record, record_value, evaluate}
use yt_media_tools.Query.Evaluator.Laws.{named}
use yt_media_tools.Provability.{
  Numerals, flatten_and, term_constraints, term_domains, requires_null, rejects_null,
  constraints_of, domains_of, contradictory_nulls, contradictory_at, names_of,
  prove_and_contradiction,
}
use yt_media_tools.Provability.Constraints.{Satisfied}
use yt_media_tools.Provability.Bounds.{contradictory_constraints-false}
use yt_media_tools.Provability.Terms.{IsExact, flatten_and-holds}
use yt_media_tools.Provability.Facts.{term-Satisfied, term-member, null-required, null-rejected}

abbrev pub AllTrue : ⦃rt : Runtime⦄ → Record → List Predicate → Type 0
AllTrue r terms = All (λ t. evaluate t r ≡ some true) terms

module _ ⦃rt : Runtime⦄ ⦃ns : Numerals⦄ where
  terms-Satisfied :
      (name : Text) (terms : List Predicate) (r : Record)
      → All IsExact terms
      → AllTrue r terms
      → All (Satisfied (record_value r (named name))) (constraints_of name terms)
  unfolding constraints_of
  terms-Satisfied name [] r x h = tt
  terms-Satisfied name (t ∷ terms) r x h =
      All-append _ (term_constraints name t) (constraints_of name terms)
        (term-Satisfied name t r x.0 h.0) (terms-Satisfied name terms r x.1 h.1)

  terms-member :
      (name : Text) (terms : List Predicate) (r : Record)
      → All IsExact terms
      → AllTrue r terms
      → All (λ d. any (equal_values (record_value r (named name))) d ≡ true) (domains_of name terms)
  unfolding domains_of
  terms-member name [] r x h = tt
  terms-member name (t ∷ terms) r x h =
      All-append _ (term_domains name t) (domains_of name terms) (term-member name t r x.0 h.0)
        (terms-member name terms r x.1 h.1)

  terms-required :
      (name : Text) (terms : List Predicate) (r : Record) (required : Bool)
      → AllTrue r terms
      → any (requires_null required name) terms ≡ true
      → is_null (record_value r (named name)) ≡ required
  terms-required name [] r required h k = cc k
  terms-required name (t ∷ terms) r required h k =
      elim (Bool-cases (requires_null required name t)) [
        | inl e ↦ null-required name t r required h.0 e
        | inr e ↦ terms-required name terms r required h.1 (ground (arith, k, e))
      ]

  terms-rejected :
      (name : Text) (terms : List Predicate) (r : Record)
      → All IsExact terms
      → AllTrue r terms
      → any (rejects_null name) terms ≡ true
      → is_null (record_value r (named name)) ≡ false
  terms-rejected name [] r x h k = cc k
  terms-rejected name (t ∷ terms) r x h k = elim (Bool-cases (rejects_null name t)) [
    | inl e ↦ null-rejected name t r x.0 h.0 e
    | inr e ↦ terms-rejected name terms r x.1 h.1 (ground (arith, k, e))
  ]

  contradictory_nulls-false :
      (name : Text) (terms : List Predicate) (r : Record)
      → All IsExact terms
      → AllTrue r terms
      → contradictory_nulls name terms ≡ false
  unfolding contradictory_nulls
  contradictory_nulls-false name terms r x h = ground (
    arith,
    terms-required name terms r true h,
    terms-required name terms r false h,
    terms-rejected name terms r x h,
  )

  contradictory_at-false :
      (name : Text) (terms : List Predicate) (r : Record)
      → All IsExact terms
      → AllTrue r terms
      → contradictory_at terms name ≡ false
  unfolding contradictory_at
  contradictory_at-false name terms r x h =
      rw
        (
          contradictory_nulls-false name terms r x h,
          contradictory_constraints-false (record_value r (named name)) (constraints_of name terms)
              (domains_of name terms) (terms-Satisfied name terms r x h)
              (terms-member name terms r x h),
        )
        refl

  none_contradictory :
      (names : List Text) (terms : List Predicate) (r : Record)
      → All IsExact terms
      → AllTrue r terms
      → any (contradictory_at terms) names ≡ false
  none_contradictory [] terms r x h = refl
  none_contradictory (name ∷ names) terms r x h =
      rw (contradictory_at-false name terms r x h, none_contradictory names terms r x h) refl

  -- A predicate that is proved never TRUE from its contradictory AND terms is TRUE of no record,
  -- where the comparisons and memberships among the terms fold no case and their text literals
  -- are quoted.
  pub prove_and_contradiction-never_true :
      (p : Predicate) (r : Record)
      → All IsExact (flatten_and p)
      → prove_and_contradiction p ≡ true
      → evaluate p r ≢ some true
  unfolding prove_and_contradiction
  prove_and_contradiction-never_true p r x h t = cc (
    h,
    none_contradictory (names_of (flatten_and p)) (flatten_and p) r x (flatten_and-holds p r t),
  )
