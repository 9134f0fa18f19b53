-- ===== src/Optimizer/Rewriting/Loops.antt =====
-- The rounds of `while changed` that the model runs are enough: no pair is left to remove.
use yt_media_tools.Prelude.{
  ◌≡◌, refl, ap, none, Option, List, [], ◌∷◌, ◌++◌, All, arith, Option-cases, inl, inr, ℕ, zero,
  suc, length, ◌≤◌,
}
use yt_media_tools.Query.Model.{Connective, Predicate}
use yt_media_tools.Optimizer.Bounds.{Side, left, right, dominant_comparison}
use yt_media_tools.Optimizer.Memberships.{subsumed_membership}
use yt_media_tools.Optimizer.Terms.{
  scan, keep_first, remove_one, remove_all, simplify_bounds, simplify_memberships,
}
use yt_media_tools.Optimizer.Rewriting.{Inserts, here, there, Removes, removes}
use yt_media_tools.Optimizer.Rewriting.Thins.{
  Justified, remove_one-Removes, subsumed-Justified, dominant-Justified,
}

length-Inserts :
    {x : Predicate} {ys xs : List Predicate} → Inserts x ys xs → length xs ≡ suc (length ys)
length-Inserts here = refl
length-Inserts (there i) = ap suc (length-Inserts i)

length-Removes :
    {op : Connective} {xs ys : List Predicate} → Removes op xs ys → length xs ≡ suc (length ys)
length-Removes (removes x z i o a) = length-Inserts i

module _ {op : Connective} (rule : Predicate → Predicate → Option Side)
    (ok : Justified op rule) where
  remove_all-done :
      (rounds : ℕ) (terms : List Predicate)
      → length terms ≤ rounds
      → remove_one rule (remove_all rule rounds terms) ≡ none
  unfolding remove_all remove_one
  remove_all-done zero [] h = refl
  remove_all-done zero (t ∷ ts) h = ground arith
  remove_all-done (suc n) terms h = elim (Option-cases (remove_one rule terms)) [
    | inl e ↦ rw (e, remove_all) e
    | inr (shorter, e) ↦
        rw (e, remove_all)
          (remove_all-done n shorter
            (omega (arith, h, length-Removes (remove_one-Removes rule ok terms shorter e))))
  ]

-- The rule applies to no term with any other behind it.
abbrev pub NoPair : (Predicate → Predicate → Option Side) → List Predicate → Type 0
NoPair rule [] = Unit
NoPair rule (x ∷ xs) = All (λ y. rule x y ≡ none) xs × NoPair rule xs

module _ (rule : Predicate → Predicate → Option Side) where
  scan-All :
      (x : Predicate) (passed ys : List Predicate)
      → scan rule x passed ys ≡ none
      → All (λ y. rule x y ≡ none) ys
  unfolding scan
  scan-All x passed [] h = tt
  scan-All x passed (y ∷ ys) h = elim (Option-cases (rule x y)) [
    | inl e ↦ (e, scan-All x (passed ++ y ∷ []) ys (rw (e, scan) at h))
    | inr (left, e) ↦ let n = rw (e, scan) at h in cc n
    | inr (right, e) ↦ let n = rw (e, scan) at h in cc n
  ]

  remove_one-NoPair : (xs : List Predicate) → remove_one rule xs ≡ none → NoPair rule xs
  unfolding remove_one
  remove_one-NoPair [] h = tt
  remove_one-NoPair (x ∷ xs) h = elim (Option-cases (scan rule x [] xs)) [
    | inr (shorter, e) ↦ let n = rw (e, remove_one) at h in cc n
    | inl e ↦ elim (Option-cases (remove_one rule xs)) [
      | inr (shorter, e') ↦ let n = rw (e, e', remove_one, keep_first) at h in cc n
      | inl e' ↦ (scan-All x [] xs e, remove_one-NoPair xs e')
    ]
  ]

-- After the loop of each of the two simplifications its rule applies to no two of the terms that are
-- left, wherever in the list they stand.
pub simplify-IsComplete :
    (op : Connective) (terms : List Predicate)
    → NoPair (subsumed_membership op) (simplify_memberships op terms)
      × NoPair (dominant_comparison op) (simplify_bounds op terms)
unfolding simplify_memberships simplify_bounds
simplify-IsComplete op terms = (
  remove_one-NoPair (subsumed_membership op) _ (
      remove_all-done (subsumed_membership op) (subsumed-Justified op) (length terms) terms
        (omega arith)),
  remove_one-NoPair (dominant_comparison op) _ (
      remove_all-done (dominant_comparison op) (dominant-Justified op) (length terms) terms
        (omega arith)),
)
