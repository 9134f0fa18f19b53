-- ===== src/Query/Results/Orders.antt =====
-- ORDER BY: a permutation, and where every term's values compare the stable order of all terms.
use yt_media_tools.Prelude.{
  Ordering, ◌≡◌, refl, sym, ap, ◌∙◌, Bool, true, false, not, List, [], ◌∷◌, ◌++◌, All, all, keep,
  arith, if◌then◌else◌, Bool-cases, inl, inr,
}
use mathlib.Core.List.{Perm, perm_middle}
use mathlib.Core.List.Perm
use yt_media_tools.Sorting.Defs.{insert, sort, IsSorted, tied}
use yt_media_tools.Sorting.Laws.{sort-All, sort-Perm, sort-IsSorted, all-sort, keep-sort}
use yt_media_tools.Sorting.Stages.{sort-sort}
use yt_media_tools.Query.Evaluator.{Record}
use yt_media_tools.Query.Results.{
  OrderTerm, SortRuntime, has_value, compares, sortable, by_value, by_text, order_pass, order_rows,
}
use yt_media_tools.Query.Results.Ranks.{rank, rank_by, rank_by-IsRanking, rank-IsRanking}

keep-Perm :
    (p : Record → Bool) (rows : List Record) → Perm (keep p rows ++ keep (λ r. not (p r)) rows) rows
keep-Perm p [] = Perm.rfl
keep-Perm p (r ∷ rows) = elim (Bool-cases (p r)) [
  | inl e ↦ rw (e, if◌then◌else◌) (Perm.cons r (keep-Perm p rows))
  | inr e ↦
      rw (e, if◌then◌else◌)
        (Perm.trans (perm_middle (keep p rows) (keep (λ x. not (p x)) rows))
          (Perm.cons r (keep-Perm p rows)))
]

module _ ⦃srt : SortRuntime⦄ where
  order_pass-Perm :
      (term : OrderTerm) (rows : List Record)
      → ((l : List Record) → Perm (srt.after_failed_sort l) l)
      → Perm (order_pass term rows) rows
  unfolding order_pass
  order_pass-Perm term rows h = elim (Bool-cases (sortable term rows)) [
    | inl e ↦
        rw (e, if◌then◌else◌)
          (Perm.trans (Perm.append_right _ (sort-Perm (by_value term) (keep (has_value term) rows)))
            (keep-Perm (has_value term) rows))
    | inr e ↦
        rw (e, if◌then◌else◌)
          (Perm.trans
            (Perm.append_right _ (
              Perm.trans
                (sort-Perm (by_text term) (srt.after_failed_sort (keep (has_value term) rows)))
                (h (keep (has_value term) rows))))
            (keep-Perm (has_value term) rows))
  ]

  -- ORDER BY returns the rows that it is given, each as often, also where values do not compare,
  -- provided that a failed sort of Python leaves a permutation of its list.
  pub order_rows-Perm :
      (terms : List OrderTerm) (rows : List Record)
      → ((l : List Record) → Perm (srt.after_failed_sort l) l)
      → Perm (order_rows terms rows) rows
  unfolding order_rows
  order_rows-Perm [] rows h = Perm.rfl
  order_rows-Perm (term ∷ terms) rows h =
      Perm.trans (order_pass-Perm term (order_rows terms rows) h) (order_rows-Perm terms rows h)

-- Rows with a value come before a row without one.
insert-missing :
    (term : OrderTerm) (x : Record) (present missing : List Record)
    → has_value term x ≡ false
    → All (λ r. has_value term r ≡ true) present
    → All (λ r. has_value term r ≡ false) missing
    → insert (rank term) x (present ++ missing) ≡ present ++ (x ∷ missing)
unfolding rank insert
insert-missing term x [] [] e p m = refl
insert-missing term x [] (y ∷ missing) e p m = ground (arith, e, m.0)
insert-missing term x (y ∷ present) missing e p m =
    ground (arith, e, p.0, insert-missing term x present missing e p.1 m)

insert-present :
    (term : OrderTerm) (x : Record) (present missing : List Record)
    → has_value term x ≡ true
    → All (λ r. has_value term r ≡ true) present
    → All (λ r. has_value term r ≡ false) missing
    → insert (rank term) x (present ++ missing) ≡ insert (by_value term) x present ++ missing
unfolding rank insert
insert-present term x [] [] e p m = refl
insert-present term x [] (y ∷ missing) e p m = ground (arith, e, m.0)
insert-present term x (y ∷ present) missing e p m =
    ground (arith, e, p.0, insert-present term x present missing e p.1 m)

All-keep : (p : Record → Bool) (rows : List Record) → All (λ r. p r ≡ true) (keep p rows)
All-keep p [] = tt
All-keep p (r ∷ rows) = elim (Bool-cases (p r)) [
  | inl e ↦ rw (e, if◌then◌else◌) (e, All-keep p rows)
  | inr e ↦ rw (e, if◌then◌else◌) (All-keep p rows)
]

All-keep-not :
    (p : Record → Bool) (rows : List Record) → All (λ r. p r ≡ false) (keep (λ r. not (p r)) rows)
All-keep-not p [] = tt
All-keep-not p (r ∷ rows) = elim (Bool-cases (p r)) [
  | inl e ↦ rw (e, if◌then◌else◌) (All-keep-not p rows)
  | inr e ↦ rw (e, if◌then◌else◌) (e, All-keep-not p rows)
]

-- Sorting the present values and appending the missing is sorting by the term's order.
sort-rank :
    (term : OrderTerm) (rows : List Record)
    → sort (by_value term) (keep (has_value term) rows) ++ keep (λ r. not (has_value term r)) rows
      ≡ sort (rank term) rows
unfolding sort
sort-rank term [] = refl
sort-rank term (r ∷ rows) =
    let present =
      sort-All (by_value term) (λ x. has_value term x ≡ true) _ (All-keep (has_value term) rows) in
    let missing = All-keep-not (has_value term) rows in
    elim (Bool-cases (has_value term r)) [
      | inl e ↦
          rw (e, if◌then◌else◌)
            (sym (insert-present term r _ _ e present missing)
              ∙ ap (insert (rank term) r) (sort-rank term rows))
      | inr e ↦
          rw (e, if◌then◌else◌)
            (sym (insert-missing term r _ _ e present missing)
              ∙ ap (insert (rank term) r) (sort-rank term rows))
    ]

all_ext :
    (p q : Record → Bool) (rows : List Record)
    → ((r : Record) → p r ≡ q r)
    → all p rows ≡ all q rows
all_ext p q [] h = refl
all_ext p q (r ∷ rows) h = rw (h r, all_ext p q rows h) refl

sortable-sort :
    (cmp : Record → Record → Ordering) (term : OrderTerm) (rows : List Record)
    → sortable term (sort cmp rows) ≡ sortable term rows
unfolding sortable
sortable-sort cmp term rows =
    all-sort cmp (λ a. all (compares term a) (sort cmp rows)) rows
    ∙ all_ext _ _ rows (λ a. all-sort cmp (compares term a) rows)

insert-level : (r : Record) (rows : List Record) → insert (λ a b. Ordering.eq) r rows ≡ r ∷ rows
unfolding insert
insert-level r [] = refl
insert-level r (x ∷ rows) = refl

sort-level : (rows : List Record) → sort (λ a b. Ordering.eq) rows ≡ rows
unfolding sort insert
sort-level [] = refl
sort-level (r ∷ rows) = rw (sort-level rows) (insert-level r rows)

-- Every term can be sorted by on these rows.
abbrev pub Sortable : List OrderTerm → List Record → Type 0
Sortable terms rows = All (λ term. sortable term rows ≡ true) terms

module _ ⦃srt : SortRuntime⦄ where
  pub order_pass-rank :
      (term : OrderTerm) (rows : List Record)
      → sortable term rows ≡ true
      → order_pass term rows ≡ sort (rank term) rows
  unfolding order_pass
  order_pass-rank term rows h = rw (h, if◌then◌else◌) (sort-rank term rows)

  pub order_rows-sort :
      (terms : List OrderTerm) (rows : List Record)
      → Sortable terms rows
      → order_rows terms rows ≡ sort (rank_by terms) rows
  unfolding order_rows rank_by
  order_rows-sort [] rows s = sym (sort-level rows)
  order_rows-sort (term ∷ terms) rows s = rw (order_rows-sort terms rows s.1) (
      order_pass-rank term (sort (rank_by terms) rows)
        (sortable-sort (rank_by terms) term rows ∙ s.0)
      ∙ sort-sort (rank term) (rank_by terms) rows (rank-IsRanking term) (rank_by-IsRanking terms))

  -- Where every term's values compare, ORDER BY sorts by the first term, within its ties by the
  -- second and so on, each in its direction with rows without a value last, and rows that are
  -- tied in all terms keep their order.
  pub order_rows-IsSorted :
      (terms : List OrderTerm) (rows : List Record)
      → Sortable terms rows
      → IsSorted (rank_by terms) (order_rows terms rows)
        × ((a : Record)
            → keep (tied (rank_by terms) a) (order_rows terms rows)
              ≡ keep (tied (rank_by terms) a) rows)
  order_rows-IsSorted terms rows s =
      let o = rank_by-IsRanking terms in
      rw (order_rows-sort terms rows s)
        (sort-IsSorted (rank_by terms) rows o, λ a. keep-sort (rank_by terms) a rows o)
