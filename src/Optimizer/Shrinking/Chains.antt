-- ===== src/Optimizer/Shrinking/Chains.antt =====
-- Flattening a chain, and removing a term from one, makes it smaller.
use yt_media_tools.Prelude.{
  of_some, ℕ, suc, ◌+◌, ◌≤◌, ◌<◌, ◌≡◌, refl, sym, ◌⊎◌, inl, inr, some, List, [], ◌∷◌, ◌++◌, arith,
  Bool-cases,
}
use mathlib.Core.Path.{subst}
use yt_media_tools.Query.Model.{Connective, Predicate, binary}
use yt_media_tools.Query.Semantics.{same_connective}
use yt_media_tools.Query.Semantics.Laws.{connective_of_same}
use yt_media_tools.Optimizer.Terms.{flatten, rebuild, rebuild_from}
use yt_media_tools.Optimizer.Rewriting.{Inserts, here, there}
use yt_media_tools.Optimizer.Shrinking.{size, Shrinks}

-- the size that the terms behind the first add to a chain
abbrev weight : List Predicate → ℕ
weight [] = 0
weight (p ∷ ps) = suc (size p + size p) + weight ps

weight-append : (ps qs : List Predicate) → weight (ps ++ qs) ≡ weight ps + weight qs
weight-append [] qs = omega arith
weight-append (p ∷ ps) qs = omega (arith, weight-append ps qs)

size-rebuild_from :
    (op : Connective) (p : Predicate) (ps : List Predicate)
    → size (rebuild_from op p ps) ≡ size p + weight ps
unfolding rebuild_from size
size-rebuild_from op p [] = omega arith
size-rebuild_from op p (q ∷ ps) = omega (arith, size-rebuild_from op (binary op p q) ps)

rebuild_from-append :
    (op : Connective) (p : Predicate) (ps qs : List Predicate)
    → rebuild_from op p (ps ++ qs) ≡ rebuild_from op (rebuild_from op p ps) qs
unfolding rebuild_from
rebuild_from-append op p [] qs = refl
rebuild_from-append op p (s ∷ ps) qs = rebuild_from-append op (binary op p s) ps qs

-- what `flatten` makes of an operand on the right: one term, or terms of less weight
abbrev Lightens : Connective → Predicate → Type 0
Lightens op p = (flatten op p ≡ p ∷ []) ⊎ (weight (flatten op p) < suc (size p + size p))

Lightens-bound :
    (op : Connective) (p : Predicate)
    → Lightens op p
    → weight (flatten op p) ≤ suc (size p + size p)
Lightens-bound op p (inl e) = rw e (omega arith)
Lightens-bound op p (inr h) = omega (arith, h)

flatten-Lightens : (op : Connective) (p : Predicate) → Lightens op p
unfolding flatten size
flatten-Lightens op (binary c p q) =
    let hp = Lightens-bound op p (flatten-Lightens op p) in
    let hq = Lightens-bound op q (flatten-Lightens op q) in
    elim (Bool-cases (same_connective c op)) [
      | inl e ↦
          inr (rw (e, flatten, weight-append (flatten op p) (flatten op q)) (omega (arith, hp, hq)))
      | inr e ↦ inl (rw (e, flatten) refl)
    ]
flatten-Lightens op p = inl refl

-- The flattened chain, rebuilt.
abbrev Rebuilds : Connective → Predicate → Type 0
Rebuilds op p =
    (h : Predicate) × (ts : List Predicate) × (flatten op p ≡ h ∷ ts)
    × Shrinks p (rebuild_from op h ts)

rebuild-right :
    (op : Connective) (p p' q : Predicate)
    → Shrinks p p'
    → Lightens op q
    → Shrinks (binary op p q) (rebuild_from op p' (flatten op q))
unfolding size rebuild_from
rebuild-right op p p' q (inl e) (inl f) = rw (f, e) (inl refl)
rebuild-right op p p' q (inr e) (inl f) = rw f (inr (omega (arith, e)))
rebuild-right op p p' q (inl e) (inr f) = inr (rw (size-rebuild_from, e) (omega (arith, f)))
rebuild-right op p p' q (inr e) (inr f) = inr (rw size-rebuild_from (omega (arith, e, f)))

flatten-Rebuilds : (op : Connective) (p : Predicate) → Rebuilds op p
unfolding flatten rebuild_from
flatten-Rebuilds op (binary c p q) = elim (Bool-cases (same_connective c op)) [
  | inl e ↦
      let (h, ts, f, s) = flatten-Rebuilds op p in
      (
        h,
        ts ++ flatten op q,
        rw (e, flatten, f) refl,
        rw (rebuild_from-append op h ts (flatten op q), connective_of_same c op e)
            (rebuild-right op p (rebuild_from op h ts) q s (flatten-Lightens op q)),
      )
  | inr e ↦ (binary c p q, [], rw (e, flatten) refl, inl refl)
]
flatten-Rebuilds op p = (p, [], refl, inl refl)

pub flattened-Shrinks :
    (op : Connective) (p q : Predicate) → rebuild op (flatten op p) ≡ some q → Shrinks p q
unfolding rebuild
flattened-Shrinks op p q e =
    let (h, ts, f, s) = flatten-Rebuilds op p in
    subst (Shrinks p) (of_some (rw (f, rebuild) at e)) s

weight-Inserts :
    {x : Predicate} {ys xs : List Predicate}
    → Inserts x ys xs
    → weight xs ≡ suc (size x + size x) + weight ys
weight-Inserts here = refl
weight-Inserts (there i) = omega (arith, weight-Inserts i)

pub removed-Shrinks :
    {x : Predicate} {ys xs : List Predicate} (op : Connective) (p q : Predicate)
    → Inserts x ys xs
    → rebuild op xs ≡ some p
    → rebuild op ys ≡ some q
    → size q < size p
unfolding rebuild
removed-Shrinks {x} {ys = []} op p q i h k = cc
removed-Shrinks {x} {ys = y ∷ ys} op p q here h k =
    rw (sym (of_some h), sym (of_some k), size-rebuild_from, size-rebuild_from) (omega arith)
removed-Shrinks {x} {ys = y ∷ ys} op p q (there i) h k =
    rw (sym (of_some h), sym (of_some k), size-rebuild_from, size-rebuild_from)
      (omega (arith, weight-Inserts i))
