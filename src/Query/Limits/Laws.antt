-- ===== src/Query/Limits/Laws.antt =====
-- An eligible LIMIT plan: rows after the required matches do not change the result.
use yt_media_tools.Prelude.{
  ℕ, suc, zero, ◌+◌, ◌≤◌, ◌≡◌, refl, ap, ◌∙◌, Bool, true, false, Option, none, some, List, [], ◌∷◌,
  ◌++◌, All, all, keep, length, take, drop, arith, if◌then◌else◌, Bool-cases, Option-cases, inl,
  inr, Text,
}
use yt_media_tools.Sorting.Defs.{IsSorted}
use yt_media_tools.Sorting.Laws.{sort_of_IsSorted}
use yt_media_tools.Query.Evaluator.{Runtime, Record, accepts_record}
use yt_media_tools.Query.Results.{
  OrderTerm, Query, SortRuntime, position_names, sortable, compares, order_rows, number_rows,
  slice_final_result, apply_query_body,
}
use yt_media_tools.Query.Results.Orders.{order_pass-rank}
use yt_media_tools.Query.Results.Ranks.{rank}
use yt_media_tools.Query.Like.Laws.{equal_text_iff}
use yt_media_tools.Query.Limits.{
  Analysis, FacetCapabilities, source_order_equivalent, order_blocks, limit_blocks,
  plan_limit_termination, plan_limited,
}

module _ (p : Record → Bool) where
  all-keep :
      (q : Record → Bool) (rows : List Record) → all q rows ≡ true → all q (keep p rows) ≡ true
  all-keep q [] h = refl
  all-keep q (r ∷ rows) h = ground (arith, all-keep q rows)

  All-keep : (P : Record → Type 0) (rows : List Record) → All P rows → All P (keep p rows)
  All-keep P [] h = tt
  All-keep P (r ∷ rows) h = elim (Bool-cases (p r)) [
    | inl e ↦ rw (e, if◌then◌else◌) (h.0, All-keep P rows h.1)
    | inr e ↦ rw (e, if◌then◌else◌) (All-keep P rows h.1)
  ]

  keep-append : (xs ys : List Record) → keep p (xs ++ ys) ≡ keep p xs ++ keep p ys
  keep-append [] ys = refl
  keep-append (x ∷ xs) ys = ground (arith, keep-append xs ys)

module _ {ℓ} {A : Type ℓ} where
  drop-append : (m : ℕ) (xs ys : List A) → m ≤ length xs → drop m (xs ++ ys) ≡ drop m xs ++ ys
  drop-append zero xs ys h = refl
  drop-append (suc m) [] ys h = ground arith
  drop-append (suc m) (x ∷ xs) ys h = drop-append m xs ys (omega arith)

  take-append : (n : ℕ) (xs ys : List A) → n ≤ length xs → take n (xs ++ ys) ≡ take n xs
  take-append zero xs ys h = refl
  take-append (suc n) [] ys h = ground arith
  take-append (suc n) (x ∷ xs) ys h = ap (◌∷◌ x) (take-append n xs ys (omega arith))

  length-drop : (m n : ℕ) (xs : List A) → m + n ≤ length xs → n ≤ length (drop m xs)
  length-drop zero n xs h = omega arith
  length-drop (suc m) n [] h = omega arith
  length-drop (suc m) n (x ∷ xs) h = length-drop m n xs (omega arith)

  take-drop-append :
      (m n : ℕ) (xs ys : List A)
      → m + n ≤ length xs
      → take n (drop m (xs ++ ys)) ≡ take n (drop m xs)
  take-drop-append m n xs ys h =
      ap (take n) (drop-append m xs ys (omega arith))
      ∙ take-append n (drop m xs) ys (length-drop m n xs h)

module _ {ℓ} {A : Type ℓ} where
  all-prefix : (p : A → Bool) (xs ys : List A) → all p (xs ++ ys) ≡ true → all p xs ≡ true
  all-prefix p [] ys h = refl
  all-prefix p (x ∷ xs) ys h = ground (arith, all-prefix p xs ys)

  all-imp :
      (p q : A → Bool) (xs : List A)
      → ((x : A) → p x ≡ true → q x ≡ true)
      → all p xs ≡ true
      → all q xs ≡ true
  all-imp p q [] i h = refl
  all-imp p q (x ∷ xs) i h = ground (arith, i x, all-imp p q xs i)

  All-prefix : (P : A → Type 0) (xs ys : List A) → All P (xs ++ ys) → All P xs
  All-prefix P [] ys h = tt
  All-prefix P (x ∷ xs) ys h = (h.0, All-prefix P xs ys h.1)

-- the rows stand in the term's order, and its values compare
abbrev pub InOrder : OrderTerm → List Record → Type 0
InOrder term rows = (sortable term rows ≡ true) × IsSorted (rank term) rows

InOrder-prefix :
    (term : OrderTerm) (xs ys : List Record) → InOrder term (xs ++ ys) → InOrder term xs
unfolding sortable
InOrder-prefix term xs ys h = (
  all-imp _ _ xs (λ a k. all-prefix (compares term a) xs ys k)
      (all-prefix (λ a. all (compares term a) (xs ++ ys)) xs ys h.0),
  IsSorted-prefix xs h.1,
)
  where
    IsSorted-prefix : (zs : List Record) → IsSorted (rank term) (zs ++ ys) → IsSorted (rank term) zs
    IsSorted-prefix [] s = tt
    IsSorted-prefix (z ∷ zs) s = (All-prefix _ zs ys s.0, IsSorted-prefix zs s.1)

InOrder-keep :
    (term : OrderTerm) (p : Record → Bool) (rows : List Record)
    → InOrder term rows
    → InOrder term (keep p rows)
unfolding sortable
InOrder-keep term p rows h = (
  all-keep p (λ a. all (compares term a) (keep p rows)) rows
      (all-imp _ _ rows (λ a k. all-keep p (compares term a) rows k) h.0),
  IsSorted-keep rows h.1,
)
  where
    IsSorted-keep : (zs : List Record) → IsSorted (rank term) zs → IsSorted (rank term) (keep p zs)
    IsSorted-keep [] s = tt
    IsSorted-keep (z ∷ zs) s = elim (Bool-cases (p z)) [
      | inl e ↦ rw (e, if◌then◌else◌) (All-keep p _ zs s.0, IsSorted-keep zs s.1)
      | inr e ↦ rw (e, if◌then◌else◌) (IsSorted-keep zs s.1)
    ]

number_nothing : (index : ℕ) (rows : List Record) → number_rows [] index rows ≡ rows
unfolding number_rows
number_nothing index [] = refl
number_nothing index (r ∷ rows) = ap (◌∷◌ r) (number_nothing (suc index) rows)

module _ ⦃rt : Runtime⦄ ⦃srt : SortRuntime⦄ where
  -- What the selected facet promises: in a stable collection the rows come in the forward order of
  -- its trustworthy field.
  abbrev pub InSourceOrder : Option FacetCapabilities → List Record → Type 0
  InSourceOrder none rows = Unit
  InSourceOrder (some facet) rows =
      (name : Text) (term : OrderTerm)
      → facet.stable_collection ≡ true
      → facet.trustworthy_order_field ≡ some name
      → rt.casefold term.field.name ≡ rt.casefold name
      → term.descending ≡ false
      → InOrder term rows

  equivalent-InOrder :
      (facet : FacetCapabilities) (term : OrderTerm) (rows : List Record)
      → InSourceOrder (some facet) rows
      → source_order_equivalent facet (term ∷ []) ≡ true
      → InOrder term rows
  unfolding source_order_equivalent
  equivalent-InOrder facet term rows s h = elim (Option-cases facet.trustworthy_order_field) [
    | inl e ↦ let n = rw e at h in cc n
    | inr (name, e) ↦
        let n = rw e at h in
        s name term (ground (arith, n)) e
          (ground (arith, n, equal_text_iff (rt.casefold term.field.name) (rt.casefold name)))
          (ground (arith, n))
  ]

  order_rows-fixed :
      (source : Option FacetCapabilities) (terms : List OrderTerm) (p : Record → Bool)
      (rows : List Record)
      → InSourceOrder source rows
      → order_blocks source terms ≡ false
      → order_rows terms (keep p rows) ≡ keep p rows
  unfolding order_blocks order_rows
  order_rows-fixed source [] p rows s h = refl
  order_rows-fixed none (term ∷ terms) p rows s h = cc h
  order_rows-fixed (some facet) (term ∷ (other ∷ terms)) p rows s h = cc h
  order_rows-fixed (some facet) (term ∷ []) p rows s h =
      let k = InOrder-keep term p rows (equivalent-InOrder facet term rows s (ground (arith, h))) in
      order_pass-rank term (keep p rows) k.0 ∙ sort_of_IsSorted (rank term) (keep p rows) k.1

  InSourceOrder-prefix :
      (source : Option FacetCapabilities) (xs ys : List Record)
      → InSourceOrder source (xs ++ ys)
      → InSourceOrder source xs
  InSourceOrder-prefix none xs ys s = tt
  InSourceOrder-prefix (some facet) xs ys s =
      λ name term c o f d. InOrder-prefix term xs ys (s name term c o f d)

  distinct_off : (q : Query) (a : Analysis) → limit_blocks q a ≡ false → q.distinct ≡ false
  unfolding limit_blocks
  distinct_off q a h = ground (arith, h)

  no_positions :
      (q : Query) (a : Analysis) → limit_blocks q a ≡ false → position_names q.select ≡ []
  unfolding limit_blocks
  no_positions q a h = ground (arith, h)

  no_order :
      (q : Query) (a : Analysis)
      → limit_blocks q a ≡ false
      → order_blocks a.source q.order_by ≡ false
  unfolding limit_blocks
  no_order q a h = ground (arith, h)

  slice-plain :
      (q : Query) (n : ℕ) (rows : List Record)
      → position_names q.select ≡ []
      → q.limit ≡ some n
      → slice_final_result q rows ≡ take n (drop q.offset rows)
  unfolding slice_final_result
  slice-plain q n rows h k = rw (h, k) (number_nothing (q.offset + 1) (take n (drop q.offset rows)))

  -- The result of a query whose plan is eligible is a slice of the accepted rows.
  eligible-slice :
      (q : Query) (a : Analysis) (n : ℕ) (rows : List Record)
      → InSourceOrder a.source rows
      → limit_blocks q a ≡ false
      → q.limit ≡ some n
      → apply_query_body q rows ≡ take n (drop q.offset (keep (accepts_record q.predicate) rows))
  unfolding apply_query_body
  eligible-slice q a n rows s h k =
      rw
        (
          order_rows-fixed a.source q.order_by (accepts_record q.predicate) rows s (no_order q a h),
          distinct_off q a h,
          if◌then◌else◌,
        )
        (slice-plain q n (keep (accepts_record q.predicate) rows) (no_positions q a h) k)

  -- Where the plan lets a LIMIT stop early, the rows after OFFSET + LIMIT accepted ones do not
  -- change the result, provided that the source keeps the order that its facet promises.
  pub plan_limit_termination-prefix :
      (q : Query) (a : Analysis) (seen rest : List Record)
      → InSourceOrder a.source (seen ++ rest)
      → (plan_limit_termination q a).eligible ≡ true
      → (plan_limit_termination q a).required_matches
        ≤ length (keep (accepts_record q.predicate) seen)
      → apply_query_body q (seen ++ rest) ≡ apply_query_body q seen
  unfolding plan_limit_termination
  plan_limit_termination-prefix q a seen rest s e m = elim (Option-cases q.limit) [
    | inl k ↦ let n = rw k at e in cc n
    | inr (n, k) ↦ elim (Bool-cases (limit_blocks q a)) [
      | inl b ↦ let c = rw (k, plan_limited, b, if◌then◌else◌) at e in cc c
      | inr b ↦
          let enough = rw (k, plan_limited, b, if◌then◌else◌) at m in
          let whole = eligible-slice q a n (seen ++ rest) s b k in
          let prefix = eligible-slice q a n seen (InSourceOrder-prefix a.source seen rest s) b k in
          rw (whole, prefix, keep-append (accepts_record q.predicate) seen rest)
            (take-drop-append q.offset n _ _ enough)
    ]
  ]
