-- ===== src/Optimizer/Rewriting/Thins.antt =====
-- What the simplification of a chain removes: one term after the other, each absorbed by another.
use yt_media_tools.Prelude.{
  of_some, ◌≡◌, refl, ◌∙◌, true, Option, none, some, List, [], ◌∷◌, ◌++◌, arith, Bool-cases, inl,
  inr, any, ℕ, zero, suc, length,
}
use mathlib.Core.List.{append_assoc, append-nil}
use mathlib.Core.Path.{subst}
use yt_media_tools.Query.Model.{Connective, Predicate}
use yt_media_tools.Query.Semantics.{same_key}
use yt_media_tools.Optimizer.Bounds.{Side, left, right, dominant_comparison}
use yt_media_tools.Optimizer.Memberships.{subsumed_membership}
use yt_media_tools.Optimizer.Terms.{
  flatten, deduplicate_terms, scan, remove_one, remove_all, simplify_memberships, simplify_terms,
}
use yt_media_tools.Optimizer.Rewriting.{
  Inserts, here, there, Occurs, first, later, Absorbed, repeated, member_left, member_right,
  bound_left, bound_right, Removes, removes,
}

-- Removing some terms, one after the other.
pub data Thins (op : Connective) : List Predicate → List Predicate → Type 0 where
  same : {xs : List Predicate} → Thins op xs xs
  step : {xs ys zs : List Predicate} → Removes op xs ys → Thins op ys zs → Thins op xs zs

Thins-trans :
    {op : Connective} {xs ys zs : List Predicate} → Thins op xs ys → Thins op ys zs → Thins op xs zs
Thins-trans same t = t
Thins-trans (step r s) t = step r (Thins-trans s t)

Inserts-append {ℓ} :
    {A : Type ℓ} (x : A) (before after : List A) → Inserts x (before ++ after) (before ++ x ∷ after)
Inserts-append x [] after = here
Inserts-append x (y ∷ ys) after = there (Inserts-append x ys after)

Occurs-append {ℓ} : {A : Type ℓ} (x : A) (before after : List A) → Occurs x (before ++ x ∷ after)
Occurs-append x [] after = first
Occurs-append x (y ∷ ys) after = later (Occurs-append x ys after)

-- A rule that keeps only terms which make the other redundant.
abbrev pub Justified : Connective → (Predicate → Predicate → Option Side) → Type 0
Justified op rule =
    (x y : Predicate)
    → (rule x y ≡ some left → Absorbed op y x) × (rule x y ≡ some right → Absorbed op x y)

module _ {op : Connective} (rule : Predicate → Predicate → Option Side)
    (ok : Justified op rule) where
  scan_step :
      (term : Predicate) (passed : List Predicate) (other : Predicate) (terms ys : List Predicate)
      (s : Option Side)
      → rule term other ≡ s
      → (scan rule term (passed ++ other ∷ []) terms ≡ some ys
          → Removes op (term ∷ (passed ++ other ∷ []) ++ terms) ys)
      → scan rule term passed (other ∷ terms) ≡ some ys
      → Removes op (term ∷ passed ++ other ∷ terms) ys
  unfolding scan
  scan_step term passed other terms ys none e ih h =
      subst (λ l. Removes op (term ∷ l) ys) (append_assoc passed (other ∷ []) terms)
        (ih (rw (e, scan) at h))
  scan_step term passed other terms ys (some left) e ih h =
      subst (Removes op (term ∷ passed ++ other ∷ terms)) (of_some (rw (e, scan) at h))
        (removes other term (there (Inserts-append other passed terms)) first ((ok term other).0 e))
  scan_step term passed other terms ys (some right) e ih h =
      subst (Removes op (term ∷ passed ++ other ∷ terms)) (of_some (rw (e, scan) at h))
        (removes term other here (Occurs-append other passed terms) ((ok term other).1 e))

  scan-Removes :
      (term : Predicate) (passed terms ys : List Predicate)
      → scan rule term passed terms ≡ some ys
      → Removes op (term ∷ passed ++ terms) ys
  unfolding scan
  scan-Removes term passed [] ys h = cc
  scan-Removes term passed (other ∷ terms) ys h =
      scan_step term passed other terms ys (rule term other) refl
        (scan-Removes term (passed ++ other ∷ []) terms ys) h

  Removes-cons :
      (term : Predicate) {xs ys : List Predicate}
      → Removes op xs ys
      → Removes op (term ∷ xs) (term ∷ ys)
  Removes-cons term (removes x z i o a) = removes x z (there i) (later o) a

  remove_one_step :
      (term : Predicate) (terms ys : List Predicate) (s later : Option (List Predicate))
      → scan rule term [] terms ≡ s
      → remove_one rule terms ≡ later
      → ((zs : List Predicate) → remove_one rule terms ≡ some zs → Removes op terms zs)
      → remove_one rule (term ∷ terms) ≡ some ys
      → Removes op (term ∷ terms) ys
  unfolding remove_one
  remove_one_step term terms ys (some zs) l e e' ih h =
      scan-Removes term [] terms ys (e ∙ (rw (e, remove_one) at h))
  remove_one_step term terms ys none none e e' ih h = ground arith
  remove_one_step term terms ys none (some zs) e e' ih h =
      subst (Removes op (term ∷ terms)) (of_some (rw (e, e', remove_one) at h))
        (Removes-cons term (ih zs e'))

  pub remove_one-Removes :
      (terms ys : List Predicate) → remove_one rule terms ≡ some ys → Removes op terms ys
  unfolding remove_one
  remove_one-Removes [] ys h = cc
  remove_one-Removes (term ∷ terms) ys h =
      remove_one_step term terms ys (scan rule term [] terms) (remove_one rule terms) refl refl
        (λ zs. remove_one-Removes terms zs) h

  remove_all_step :
      (rounds : ℕ) (terms : List Predicate) (s : Option (List Predicate))
      → remove_one rule terms ≡ s
      → ((shorter : List Predicate) → Thins op shorter (remove_all rule rounds shorter))
      → Thins op terms (remove_all rule (suc rounds) terms)
  unfolding remove_all
  remove_all_step rounds terms none e ih = rw (e, remove_all) same
  remove_all_step rounds terms (some shorter) e ih =
      rw (e, remove_all) (step (remove_one-Removes terms shorter e) (ih shorter))

  remove_all-Thins :
      (rounds : ℕ) (terms : List Predicate) → Thins op terms (remove_all rule rounds terms)
  unfolding remove_all
  remove_all-Thins zero terms = same
  remove_all-Thins (suc rounds) terms =
      remove_all_step rounds terms (remove_one rule terms) refl (remove_all-Thins rounds)

-- The rules of the two loops, and the test for a repeated term, are justified.
pub subsumed-Justified : (op : Connective) → Justified op (subsumed_membership op)
subsumed-Justified op x y = (member_left, member_right)

pub dominant-Justified : (op : Connective) → Justified op (dominant_comparison op)
dominant-Justified op x y = (bound_left, bound_right)

Occurs-any :
    (term : Predicate) (unique rest : List Predicate)
    → any (same_key term) unique ≡ true
    → (z : Predicate) × Occurs z (unique ++ rest) × (same_key term z ≡ true)
Occurs-any term [] rest h = cc
Occurs-any term (u ∷ us) rest h = elim (Bool-cases (same_key term u)) [
  | inl e ↦ (u, first, e)
  | inr e ↦ let (z, o, k) = Occurs-any term us rest (ground arith) in (z, later o, k)
]

deduplicate-Thins :
    (op : Connective) (unique terms : List Predicate)
    → Thins op (unique ++ terms) (deduplicate_terms unique terms)
unfolding deduplicate_terms
deduplicate-Thins op unique [] = rw append-nil same
deduplicate-Thins op unique (term ∷ terms) = elim (Bool-cases (any (same_key term) unique)) [
  | inl e ↦
      let (z, o, k) = Occurs-any term unique terms e in
      rw (e, deduplicate_terms)
        (step (removes term z (Inserts-append term unique terms) o (repeated k))
          (deduplicate-Thins op unique terms))
  | inr e ↦
      rw (e, deduplicate_terms)
        (subst (λ l. Thins op l (deduplicate_terms (unique ++ term ∷ []) terms))
          (append_assoc unique (term ∷ []) terms)
          (deduplicate-Thins op (unique ++ term ∷ []) terms))
]

pub simplify_terms-Thins :
    (op : Connective) (p : Predicate) → Thins op (flatten op p) (simplify_terms op p)
unfolding simplify_terms
simplify_terms-Thins op p =
    let unique = deduplicate_terms [] (flatten op p) in
    let members = simplify_memberships op unique in
    Thins-trans (deduplicate-Thins op [] (flatten op p)) (
      Thins-trans
        (remove_all-Thins (subsumed_membership op) (subsumed-Justified op) (length unique) unique)
        (remove_all-Thins (dominant_comparison op) (dominant-Justified op) (length members)
          members))
