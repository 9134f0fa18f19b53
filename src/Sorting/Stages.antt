-- ===== src/Sorting/Stages.antt =====
-- Sorting by the second comparison and then by the first is sorting by the first and, among its
-- ties, by the second.
use yt_media_tools.Prelude.{Ordering, ◌≡◌, refl, ap, ◌∙◌, inl, inr, List, [], ◌∷◌, All, arith}
use yt_media_tools.Sorting.Defs.{IsRanking, insert, sort, NotBefore, IsSorted, then_by}
use yt_media_tools.Sorting.Laws.{
  Ordering-cases, insert-later, insert-here, sort-IsSorted, NotBefore-All, sort-All,
}

pub then_by-IsRanking {ℓ} :
    {A : Type ℓ} (first second : A → A → Ordering)
    → IsRanking first
    → IsRanking second
    → IsRanking (then_by first second)
then_by-IsRanking {A} first second o q = record {
  turn = λ x y. ground (arith, o.turn x y, q.turn x y);
  level = λ x y z. ground (arith, o.level x y z, q.level x y z);
  trans = λ x y z. ground (
    arith,
    o.level x y z,
    o.level y z x,
    o.turn x y,
    o.turn y z,
    o.turn x z,
    o.trans x y z,
    q.trans x y z,
  );
}

module _ {ℓ} {A : Type ℓ} (first second : A → A → Ordering) where
  -- A row that is strictly earlier in `second` can be inserted before or after the other one.
  insert_comm :
      (x y : A) (rows : List A)
      → IsRanking first
      → second y x ≡ Ordering.lt
      → insert first y (insert (then_by first second) x rows)
        ≡ insert (then_by first second) x (insert first y rows)
  unfolding insert
  insert_comm x y [] o h = ground (arith, o.turn x y)
  insert_comm x y (z ∷ rows) o h = ground (
    arith,
    insert_comm x y rows o h,
    o.turn x y,
    o.turn x z,
    o.turn y z,
    o.level x y z,
    o.level x z y,
    o.level y z x,
    o.trans x y z,
    o.trans y z x,
    o.trans z x y,
    o.trans x z y,
    o.trans z y x,
    o.trans y x z,
  )

  -- a row that is not strictly later in `second` than any other
  insert_same :
      (x : A) (rows : List A)
      → All (NotBefore second x) rows
      → insert first x rows ≡ insert (then_by first second) x rows
  unfolding insert
  insert_same x [] h = refl
  insert_same x (z ∷ rows) h = ground (arith, insert_same x rows h.1, h.0)

  sort-insert :
      (x : A) (rows : List A)
      → IsRanking first
      → IsRanking second
      → IsSorted second rows
      → sort first (insert second x rows) ≡ insert (then_by first second) x (sort first rows)
  unfolding sort
  sort-insert x [] o q s = refl
  sort-insert x (y ∷ rows) o q s = elim (Ordering-cases (second y x)) [
    | inl e ↦
        rw (insert-later second x y rows e, sort, sort-insert x rows o q s.1)
          (insert_comm x y (sort first rows) o e)
    | inr e ↦ rw (insert-here second x y rows e) (
        insert_same x (sort first (y ∷ rows)) (
          sort-All first (NotBefore second x) (y ∷ rows)
            (e, NotBefore-All second x y rows q e s.0)))
  ]

  pub sort-sort :
      (rows : List A)
      → IsRanking first
      → IsRanking second
      → sort first (sort second rows) ≡ sort (then_by first second) rows
  unfolding sort
  sort-sort [] o q = refl
  sort-sort (x ∷ rows) o q =
      sort-insert x (sort second rows) o q (sort-IsSorted second rows q)
      ∙ ap (insert (then_by first second) x) (sort-sort rows o q)
