-- ===== src/Provability/Constraints.antt =====
-- Equalities, exclusions and finite domains that one value satisfies do not contradict each other.
use yt_media_tools.Prelude.{
  true, false, not, ◌||◌, List, [], ◌∷◌, any, all, All, ◌≡◌, refl, arith, if◌then◌else◌, Bool-cases,
  inl, inr,
}
use yt_media_tools.Query.Value.{Value, equals, differs, equal_values, holds}
use yt_media_tools.Query.Value.Equality.{equal_values_comm, equal_values_of_equal}
use yt_media_tools.Provability.Limits.{
  Constraint, equalities, exclusions, unequal, excluded, allowed, is_none_of, outside_domains,
}

module _ (x : Value) where
  abbrev pub Satisfied : Constraint → Type 0
  Satisfied c = holds c.0 x c.1 ≡ true

  pub equalities-hold :
      (cs : List Constraint) → All Satisfied cs → All (λ v. equal_values x v ≡ true) (equalities cs)
  unfolding equalities holds
  equalities-hold [] h = tt
  equalities-hold ((equals, v) ∷ cs) h = (h.0, equalities-hold cs h.1)
  equalities-hold ((op, v) ∷ cs) h = equalities-hold cs h.1

  pub exclusions-hold :
      (cs : List Constraint)
      → All Satisfied cs
      → All (λ v. equal_values x v ≡ false) (exclusions cs)
  unfolding exclusions holds
  exclusions-hold [] h = tt
  exclusions-hold ((differs, v) ∷ cs) h = (ground (arith, h.0), exclusions-hold cs h.1)
  exclusions-hold ((op, v) ∷ cs) h = exclusions-hold cs h.1

  no_other :
      (e : Value) (vs : List Value)
      → equal_values x e ≡ true
      → All (λ v. equal_values x v ≡ true) vs
      → any (λ v. not (equal_values v e)) vs ≡ false
  no_other e [] h k = refl
  no_other e (v ∷ vs) h k = ground (arith, no_other e vs h k.1, equal_values_of_equal x v e k.0, h)

  no_excluded :
      (e : Value) (vs : List Value)
      → equal_values x e ≡ true
      → All (λ v. equal_values x v ≡ false) vs
      → any (λ v. equal_values v e) vs ≡ false
  no_excluded e [] h k = refl
  no_excluded e (v ∷ vs) h k =
      ground
        (arith, no_excluded e vs h k.1, k.0, equal_values_of_equal x e v h, equal_values_comm v e)

  pub unequal-false : (es : List Value) → All (λ v. equal_values x v ≡ true) es → unequal es ≡ false
  unfolding unequal
  unequal-false [] h = refl
  unequal-false (e ∷ es) h = no_other e es h.0 h.1

  pub excluded-false :
      (es ns : List Value)
      → All (λ v. equal_values x v ≡ true) es
      → All (λ v. equal_values x v ≡ false) ns
      → excluded es ns ≡ false
  unfolding excluded
  excluded-false [] ns h k = refl
  excluded-false (e ∷ es) ns h k = no_excluded e ns h.0 k

  any_of_equal :
      (v : Value) (domain : List Value)
      → equal_values x v ≡ true
      → any (equal_values x) domain ≡ any (equal_values v) domain
  any_of_equal v [] h = refl
  any_of_equal v (w ∷ ws) h = rw (equal_values_of_equal x v w h, any_of_equal v ws h) refl

  in_all :
      (v : Value) (rest : List (List Value))
      → equal_values x v ≡ true
      → All (λ d. any (equal_values x) d ≡ true) rest
      → all (any (equal_values v)) rest ≡ true
  in_all v [] h k = refl
  in_all v (d ∷ rest) h k = ground (arith, k.0, any_of_equal v d h, in_all v rest h k.1)

  -- A value in every domain is in their intersection.
  in_allowed :
      (first : List Value) (rest : List (List Value))
      → any (equal_values x) first ≡ true
      → All (λ d. any (equal_values x) d ≡ true) rest
      → any (equal_values x) (allowed first rest) ≡ true
  unfolding allowed
  in_allowed [] rest h k = cc h
  in_allowed (v ∷ first) rest h k = elim (Bool-cases (equal_values x v)) [
    | inl e ↦ rw (in_all v rest e k, if◌then◌else◌) (ground (arith, e))
    | inr e ↦ ground (arith, h, e, in_allowed first rest (ground (arith, h, e)) k)
  ]

  pub outside_domains-false :
      (es : List Value) (domains : List (List Value))
      → All (λ v. equal_values x v ≡ true) es
      → All (λ d. any (equal_values x) d ≡ true) domains
      → outside_domains es domains ≡ false
  unfolding outside_domains
  outside_domains-false es [] h k = refl
  outside_domains-false [] (first ∷ rest) h k =
      some_allowed (allowed first rest) (in_allowed first rest k.0 k.1)
    where
      some_allowed : (vs : List Value) → any (equal_values x) vs ≡ true → is_none_of vs ≡ false
      some_allowed [] n = cc n
      some_allowed (v ∷ vs) n = refl
  outside_domains-false (e ∷ es) (first ∷ rest) h k =
      both_allowed (allowed first rest) (in_allowed first rest k.0 k.1)
        (any_of_equal e (allowed first rest) h.0)
    where
      both_allowed :
          (vs : List Value)
          → any (equal_values x) vs ≡ true
          → any (equal_values x) vs ≡ any (equal_values e) vs
          → (is_none_of vs || not (any (equal_values e) vs)) ≡ false
      both_allowed [] n m = cc n
      both_allowed (v ∷ vs) n m = ground (arith, n, m)
