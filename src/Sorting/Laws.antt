-- ===== src/Sorting/Laws.antt =====
-- Sorting permutes, sorts, and leaves a sorted list as it is.
use yt_media_tools.Prelude.{
  Ordering, ◌≡◌, ◌≢◌, refl, ◌⊎◌, inl, inr, List, [], ◌∷◌, All, all, keep, Bool, ◌&&◌, arith,
}
use mathlib.Core.List.{Perm}
use yt_media_tools.Sorting.Defs.{IsRanking, insert, sort, NotBefore, IsSorted, tied}
use mathlib.Core.List.Perm

pub Ordering-cases : (o : Ordering) → (o ≡ Ordering.lt) ⊎ (o ≢ Ordering.lt)
Ordering-cases Ordering.lt = inl refl
Ordering-cases Ordering.eq = inr (λ h. cc h)
Ordering-cases Ordering.gt = inr (λ h. cc h)

module _ {ℓ} {A : Type ℓ} (cmp : A → A → Ordering) where
  pub insert-later :
      (x y : A) (ys : List A) → cmp y x ≡ Ordering.lt → insert cmp x (y ∷ ys) ≡ y ∷ insert cmp x ys
  unfolding insert
  insert-later x y ys h = ground arith

  pub insert-here :
      (x y : A) (ys : List A) → cmp y x ≢ Ordering.lt → insert cmp x (y ∷ ys) ≡ x ∷ (y ∷ ys)
  unfolding insert
  insert-here x y ys h = ground arith

  insert-Perm : (x : A) (ys : List A) → Perm (insert cmp x ys) (x ∷ ys)
  unfolding insert
  insert-Perm x [] = Perm.rfl
  insert-Perm x (y ∷ ys) = elim (Ordering-cases (cmp y x)) [
    | inl h ↦
        rw (insert-later x y ys h) (Perm.trans (Perm.cons y (insert-Perm x ys)) (Perm.swap x y ys))
    | inr h ↦ rw (insert-here x y ys h) Perm.rfl
  ]

  pub sort-Perm : (xs : List A) → Perm (sort cmp xs) xs
  unfolding sort
  sort-Perm [] = Perm.rfl
  sort-Perm (x ∷ xs) = Perm.trans (insert-Perm x (sort cmp xs)) (Perm.cons x (sort-Perm xs))

  pub NotBefore-trans :
      (x y z : A) → IsRanking cmp → NotBefore cmp x y → NotBefore cmp y z → NotBefore cmp x z
  NotBefore-trans x y z o h k = ground (
    arith,
    o.turn x y,
    o.turn x z,
    o.turn y z,
    o.level x y z,
    o.level y z x,
    o.trans z x y,
    o.trans y z x,
    o.trans z y x,
    o.level z y x,
    h,
    k,
  )

  pub NotBefore-All :
      (x y : A) (ys : List A)
      → IsRanking cmp
      → NotBefore cmp x y
      → All (NotBefore cmp y) ys
      → All (NotBefore cmp x) ys
  NotBefore-All x y [] o h k = tt
  NotBefore-All x y (z ∷ zs) o h k = (NotBefore-trans x y z o h k.0, NotBefore-All x y zs o h k.1)

  insert-NotBefore :
      (a x : A) (ys : List A)
      → NotBefore cmp a x
      → All (NotBefore cmp a) ys
      → All (NotBefore cmp a) (insert cmp x ys)
  unfolding insert
  insert-NotBefore a x [] h k = (h, tt)
  insert-NotBefore a x (y ∷ ys) h k = elim (Ordering-cases (cmp y x)) [
    | inl e ↦ rw (insert-later x y ys e) (k.0, insert-NotBefore a x ys h k.1)
    | inr e ↦ rw (insert-here x y ys e) (h, k)
  ]

  insert-IsSorted :
      (x : A) (ys : List A) → IsRanking cmp → IsSorted cmp ys → IsSorted cmp (insert cmp x ys)
  unfolding insert
  insert-IsSorted x [] o s = (tt, tt)
  insert-IsSorted x (y ∷ ys) o s = elim (Ordering-cases (cmp y x)) [
    | inl e ↦
        rw (insert-later x y ys e)
          (insert-NotBefore y x ys (ground (arith, o.turn y x, e)) s.0, insert-IsSorted x ys o s.1)
    | inr e ↦ rw (insert-here x y ys e) ((e, NotBefore-All x y ys o e s.0), s)
  ]

  pub sort-IsSorted : (xs : List A) → IsRanking cmp → IsSorted cmp (sort cmp xs)
  unfolding sort
  sort-IsSorted [] o = tt
  sort-IsSorted (x ∷ xs) o = insert-IsSorted x (sort cmp xs) o (sort-IsSorted xs o)

  pub insert-first : (x : A) (ys : List A) → All (NotBefore cmp x) ys → insert cmp x ys ≡ x ∷ ys
  unfolding insert
  insert-first x [] h = refl
  insert-first x (y ∷ ys) h = insert-here x y ys h.0

  -- A sorted list is left as it is.
  pub sort_of_IsSorted : (xs : List A) → IsSorted cmp xs → sort cmp xs ≡ xs
  unfolding sort
  sort_of_IsSorted [] s = refl
  sort_of_IsSorted (x ∷ xs) s = rw (sort_of_IsSorted xs s.1) (insert-first x xs s.0)

  insert-All :
      (P : A → Type 0) (x : A) (rows : List A) → P x → All P rows → All P (insert cmp x rows)
  unfolding insert
  insert-All P x [] h k = (h, tt)
  insert-All P x (y ∷ rows) h k = elim (Ordering-cases (cmp y x)) [
    | inl e ↦ rw (insert-later x y rows e) (k.0, insert-All P x rows h k.1)
    | inr e ↦ rw (insert-here x y rows e) (h, k)
  ]

  pub sort-All : (P : A → Type 0) (rows : List A) → All P rows → All P (sort cmp rows)
  unfolding sort
  sort-All P [] h = tt
  sort-All P (x ∷ rows) h = insert-All P x (sort cmp rows) h.0 (sort-All P rows h.1)

  all-insert :
      (p : A → Bool) (x : A) (rows : List A) → all p (insert cmp x rows) ≡ (p x && all p rows)
  unfolding insert
  all-insert p x [] = refl
  all-insert p x (y ∷ rows) = elim (Ordering-cases (cmp y x)) [
    | inl e ↦ rw (insert-later x y rows e) (ground (arith, all-insert p x rows))
    | inr e ↦ rw (insert-here x y rows e) refl
  ]

  pub all-sort : (p : A → Bool) (rows : List A) → all p (sort cmp rows) ≡ all p rows
  unfolding sort
  all-sort p [] = refl
  all-sort p (x ∷ rows) = rw (all-insert p x (sort cmp rows), all-sort p rows) refl

  keep-insert :
      (a x : A) (rows : List A)
      → IsRanking cmp
      → keep (tied cmp a) (insert cmp x rows) ≡ keep (tied cmp a) (x ∷ rows)
  unfolding insert tied
  keep-insert a x [] o = refl
  keep-insert a x (y ∷ rows) o = elim (Ordering-cases (cmp y x)) [
    | inl e ↦
        rw (insert-later x y rows e, keep-insert a x rows o)
          (ground (arith, e, o.level a x y, o.level a y x, o.turn a y, o.turn a x, o.turn x y))
    | inr e ↦ rw (insert-here x y rows e) refl
  ]

  -- Tied rows keep their order.
  pub keep-sort :
      (a : A) (rows : List A)
      → IsRanking cmp
      → keep (tied cmp a) (sort cmp rows) ≡ keep (tied cmp a) rows
  unfolding sort
  keep-sort a [] o = refl
  keep-sort a (x ∷ rows) o = rw (keep-insert a x (sort cmp rows) o, keep, keep-sort a rows o) refl
