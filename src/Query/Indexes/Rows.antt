-- ===== src/Query/Indexes/Rows.antt =====
-- The hash index returns exactly the right rows that agree with a left row, in their order.
use yt_media_tools.Prelude.{
  false, some, List, [], ◌∷◌, ◌++◌, arith, ◌≡◌, refl, sym, ◌∙◌, Bool-cases, inl, inr, ◌⊎◌,
  if◌then◌else◌, keep,
}
use yt_media_tools.Query.Value.{Value}
use yt_media_tools.Query.Relations.{equal_lists, Row}
use yt_media_tools.Query.Indexes.{
  FieldPair, JoinKey, incomplete, unhashable, hashed, join_key, lefts, rights, Index, add_row,
  find_rows, index_rows, hash_join_index, hash_join_matches,
}
use yt_media_tools.Query.Relations.Equality.{equal_lists_comm, equal_lists_of_equal}
use yt_media_tools.Query.Indexes.Keys.{
  agree_all, agree_all-hashed, agree_all-incomplete_left, agree_all-incomplete_right,
}
use mathlib.Core.List.{append_assoc, append-nil}

JoinKey-cases :
    (k : JoinKey)
    → (k ≡ incomplete) ⊎ ((k ≡ unhashable) ⊎ ((values : List Value) × (k ≡ hashed values)))
JoinKey-cases incomplete = inl refl
JoinKey-cases unhashable = inr (inl refl)
JoinKey-cases (hashed values) = inr (inr (values, refl))

find_rows-add_row :
    (key k : List Value) (r : Row) (index : Index)
    → find_rows k (add_row key r index)
      ≡ (if equal_lists key k then find_rows k index ++ (r ∷ []) else find_rows k index)
unfolding find_rows add_row
find_rows-add_row key k r [] = refl
find_rows-add_row key k r ((j, rows) ∷ rest) = elim (Bool-cases (equal_lists j key)) [
  | inl e ↦ elim (Bool-cases (equal_lists j k)) [
    | inl g ↦ rw (e, sym (equal_lists_of_equal j key k e), g, find_rows, if◌then◌else◌) refl
    | inr g ↦ rw (e, sym (equal_lists_of_equal j key k e), g, find_rows, if◌then◌else◌) refl
  ]
  | inr e ↦ elim (Bool-cases (equal_lists j k)) [
    | inl g ↦
        let n = equal_lists_of_equal j k key g in
        let m : equal_lists key k ≡ false = equal_lists_comm key k ∙ (sym n ∙ e) in
        rw (e, g, m, find_rows, if◌then◌else◌) refl
    | inr g ↦ rw (e, g, find_rows, if◌then◌else◌) (find_rows-add_row key k r rest)
  ]
]

step :
    (l : Row) (k ys : List Value) (r : Row) (rows : List Row) (ps : List FieldPair) (index : Index)
    → find_rows k (add_row ys r index) ++ keep (λ x. agree_all l x ps) rows
      ≡ find_rows k index
        ++ (if equal_lists k ys
            then r ∷ keep (λ x. agree_all l x ps) rows
            else keep (λ x. agree_all l x ps) rows)
step l k ys r rows ps index = elim (Bool-cases (equal_lists k ys)) [
  | inl e ↦
      rw (find_rows-add_row ys k r index, equal_lists_comm ys k, e, if◌then◌else◌)
        (append_assoc (find_rows k index) (r ∷ []) (keep (λ x. agree_all l x ps) rows))
  | inr e ↦ rw (find_rows-add_row ys k r index, equal_lists_comm ys k, e, if◌then◌else◌) refl
]

-- The rows of the index at a key: those indexed before, then the agreeing ones of the rest.
find_rows-index_rows :
    (l : Row) (ps : List FieldPair) (k : List Value) (rows : List Row) (index built : Index)
    → join_key l (lefts ps) ≡ hashed k
    → index_rows (rights ps) rows index ≡ some built
    → find_rows k built ≡ find_rows k index ++ keep (λ r. agree_all l r ps) rows
unfolding index_rows
find_rows-index_rows l ps k [] index built hl h = ground (arith, append-nil (find_rows k index))
find_rows-index_rows l ps k (r ∷ rows) index built hl h =
    elim (JoinKey-cases (join_key r (rights ps))) [
      | inl e ↦
          rw (agree_all-incomplete_right l r ps e, if◌then◌else◌)
            (find_rows-index_rows l ps k rows index built hl (rw (e, index_rows) at h))
      | inr (inl e) ↦ let n = rw (e, index_rows) at h in cc n
      | inr (inr (ys, e)) ↦ rw (agree_all-hashed l r ps k ys hl e) (
          find_rows-index_rows l ps k rows (add_row ys r index) built hl (rw (e, index_rows) at h)
          ∙ step l k ys r rows ps index)
    ]

keep_nothing :
    (l : Row) (ps : List FieldPair) (rows : List Row)
    → join_key l (lefts ps) ≡ incomplete
    → keep (λ r. agree_all l r ps) rows ≡ []
keep_nothing l ps [] h = refl
keep_nothing l ps (r ∷ rows) h =
    rw (agree_all-incomplete_left l r ps h, if◌then◌else◌) (keep_nothing l ps rows h)

-- The matches that an index gives a left row are the right rows that agree with it, in order.
pub hash_join_matches-keep :
    (l : Row) (ps : List FieldPair) (right matches : List Row) (index : Index)
    → hash_join_index right (rights ps) ≡ some index
    → hash_join_matches l (lefts ps) index ≡ some matches
    → matches ≡ keep (λ r. agree_all l r ps) right
unfolding hash_join_index hash_join_matches
hash_join_matches-keep l ps right matches index h k = elim (JoinKey-cases (join_key l (lefts ps))) [
  | inl e ↦ cc (rw (e, hash_join_matches) at k, keep_nothing l ps right e)
  | inr (inl e) ↦ let n = rw (e, hash_join_matches) at k in cc n
  | inr (inr (xs, e)) ↦
      cc (rw (e, hash_join_matches) at k, find_rows-index_rows l ps xs right [] index e h)
]
