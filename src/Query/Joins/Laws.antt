-- ===== src/Query/Joins/Laws.antt =====
-- What the joins produce, with the hash index and without it.
use yt_media_tools.Prelude.{
  Bool, true, false, none, some, List, [], ◌∷◌, ◌++◌, any, ◌≡◌, refl, sym, ◌∙◌, ap, ap₂, Bool-cases,
  Option-cases, inl, inr, if◌then◌else◌, keep, map,
}
use yt_media_tools.Query.Like.{equal_text}
use yt_media_tools.Query.Evaluator.{is_truth}
use yt_media_tools.Query.Relations.{Row, JoinContext, evaluate_condition}
use yt_media_tools.Query.Joins.{
  joins, ExistenceKind, semi, anti, RowKind, inner, left_outer, keeps, select_indexed,
  select_reference, select_fast, or_else, without_right, apply_existence_join, JoinedRow,
  joined_row, produce, pad, candidates, join_rows, join_index, apply_row_producing_join,
}
use yt_media_tools.Query.Indexes.{
  FieldPair, lefts, rights, Index, hash_join_index, hash_join_matches, Join,
  equality_join_key_fields,
}
use yt_media_tools.Query.Joins.Matches.{matches-joins, any-keep}

select_indexed-reference :
    (j : Join) (kind : ExistenceKind) (ps : List FieldPair) (left right rows : List Row)
    (index : Index)
    → equal_text j.left_alias j.right_alias ≡ false
    → equality_join_key_fields j ≡ some ps
    → hash_join_index right (rights ps) ≡ some index
    → select_indexed kind (lefts ps) index left ≡ some rows
    → rows ≡ select_reference j kind right left
unfolding select_indexed select_reference
select_indexed-reference j kind ps [] right rows index d f h k = cc k
select_indexed-reference j kind ps (l ∷ left) right rows index d f h k =
    elim (Option-cases (hash_join_matches l (lefts ps) index)) [
      | inl e ↦ let n = rw (e, select_indexed) at k in cc n
      | inr (matches, e) ↦ elim (Option-cases (select_indexed kind (lefts ps) index left)) [
        | inl g ↦ let n = rw (e, select_indexed, g) at k in cc n
        | inr (rest, g) ↦
            let n = rw (e, select_indexed, g) at k in
            cc (
              n,
              matches-joins j ps l right matches index d f h e,
              any-keep (joins j l) right,
              select_indexed-reference j kind ps left right rest index d f h g,
            )
      ]
    ]

select_reference-keep :
    (j : Join) (kind : ExistenceKind) (right left : List Row)
    → select_reference j kind right left ≡ keep (λ l. keeps kind (any (joins j l) right)) left
unfolding select_reference
select_reference-keep j kind right [] = refl
select_reference-keep j kind right (l ∷ left) = rw (select_reference-keep j kind right left) refl

-- Without right rows a SEMI join keeps nothing and an ANTI join everything.
without_right-keep :
    (j : Join) (kind : ExistenceKind) (left : List Row)
    → without_right kind left ≡ keep (λ l. keeps kind (any (joins j l) [])) left
without_right-keep j semi [] = refl
without_right-keep j anti [] = refl
without_right-keep j semi (l ∷ left) = without_right-keep j semi left
without_right-keep j anti (l ∷ left) = ap (◌∷◌ l) (without_right-keep j anti left)

select_fast-reference :
    (j : Join) (optimised : Bool) (kind : ExistenceKind) (left right : List Row)
    → equal_text j.left_alias j.right_alias ≡ false
    → or_else
        (select_fast (if optimised then equality_join_key_fields j else none) kind right left)
        (select_reference j kind right left)
      ≡ select_reference j kind right left
unfolding select_fast
select_fast-reference j false kind left right d = refl
select_fast-reference j true kind left right d = elim (Option-cases (equality_join_key_fields j)) [
  | inl e ↦ rw (e, if◌then◌else◌, select_fast, or_else) refl
  | inr (ps, e) ↦ elim (Option-cases (hash_join_index right (rights ps))) [
    | inl g ↦ rw (e, if◌then◌else◌, select_fast, g, or_else) refl
    | inr (index, g) ↦ elim (Option-cases (select_indexed kind (lefts ps) index left)) [
      | inl h ↦ rw (e, if◌then◌else◌, select_fast, g, h, or_else) refl
      | inr (rows, h) ↦
          rw (e, if◌then◌else◌, select_fast, g, h, or_else)
            (select_indexed-reference j kind ps left right rows index d e g h)
    ]
  ]
]

-- With the relational optimisation or without it, a SEMI join keeps exactly the left rows that
-- some right row joins with, and an ANTI join exactly the others, in the order of the left
-- relation, where the two aliases differ.
pub apply_existence_join-keep :
    (optimised : Bool) (j : Join) (kind : ExistenceKind) (left right : List Row)
    → equal_text j.left_alias j.right_alias ≡ false
    → apply_existence_join optimised j kind left right
      ≡ keep (λ l. keeps kind (any (joins j l) right)) left
unfolding apply_existence_join
apply_existence_join-keep optimised j kind [] right d = refl
apply_existence_join-keep optimised j kind (l ∷ left) [] d = without_right-keep j kind (l ∷ left)
apply_existence_join-keep optimised j kind (l ∷ left) (r ∷ right) d =
    select_fast-reference j optimised kind (l ∷ left) (r ∷ right) d
    ∙ select_reference-keep j kind (r ∷ right) (l ∷ left)

produce-keep :
    (j : Join) (l : Row) (rows : List Row)
    → produce j l rows ≡ map (joined_row j l) (keep (joins j l) rows)
unfolding produce
produce-keep j l [] = refl
produce-keep j l (r ∷ rows) = elim (Bool-cases (joins j l r)) [
  | inl e ↦ rw (e, produce-keep j l rows) refl
  | inr e ↦ rw (e, produce-keep j l rows) refl
]

keep-keep : (p : Row → Bool) (rows : List Row) → keep p (keep p rows) ≡ keep p rows
keep-keep p [] = refl
keep-keep p (r ∷ rows) = elim (Bool-cases (p r)) [
  | inl e ↦ rw (e, if◌then◌else◌, keep, e, keep-keep p rows) refl
  | inr e ↦ rw (e, if◌then◌else◌) (keep-keep p rows)
]

-- the records of two rows under their aliases
abbrev pub pair_records : Join → Row → Row → JoinContext
pair_records j l r = record {
  left_alias = j.left_alias;
  right_alias = j.right_alias;
  left = l;
  right = r;
}

-- the right rows with which the condition is TRUE
abbrev pub partners : Join → Row → List Row → List Row
partners j l right =
    keep (λ r. is_truth (evaluate_condition j.predicate (pair_records j l r)) (some true)) right

-- the rows of a join for one left row with its partners
abbrev pub rows_of : Join → RowKind → Row → List Row → List JoinedRow
rows_of j inner l [] = []
rows_of j left_outer l [] = record { base = l; relation_records = pair_records j l [] } ∷ []
rows_of j kind l (r ∷ rs) =
    map (λ (s : Row). record { base = l; relation_records = pair_records j l s }) (r ∷ rs)

-- The rows of a join by its definition: for each left row in turn one row for each right row it
-- joins with, and in a LEFT join one with an empty right record where there is none.
unfoldable pub joined_rows : Join → RowKind → List Row → List Row → List JoinedRow
joined_rows j kind right [] = []
joined_rows j kind right (l ∷ left) =
    rows_of j kind l (partners j l right) ++ joined_rows j kind right left

rows_of-pad :
    (j : Join) (kind : RowKind) (l : Row) (rs : List Row)
    → pad j kind l (map (joined_row j l) rs) ≡ rows_of j kind l rs
rows_of-pad j inner l [] = refl
rows_of-pad j left_outer l [] = refl
rows_of-pad j inner l (r ∷ rs) = refl
rows_of-pad j left_outer l (r ∷ rs) = refl

pad-partners :
    (j : Join) (kind : RowKind) (l : Row) (right : List Row)
    → pad j kind l (map (joined_row j l) (keep (joins j l) right))
      ≡ rows_of j kind l (partners j l right)
unfolding joins
pad-partners j kind l right = rows_of-pad j kind l (keep (joins j l) right)

produce-candidates :
    (j : Join) (ps : List FieldPair) (l : Row) (right : List Row) (index : Index)
    → equal_text j.left_alias j.right_alias ≡ false
    → equality_join_key_fields j ≡ some ps
    → hash_join_index right (rights ps) ≡ some index
    → produce j l (candidates (some (lefts ps, index)) l right)
      ≡ map (joined_row j l) (keep (joins j l) right)
unfolding candidates
produce-candidates j ps l right index d f h =
    elim (Option-cases (hash_join_matches l (lefts ps) index)) [
      | inl e ↦ rw (e, or_else) (produce-keep j l right)
      | inr (matches, e) ↦
          rw (e, or_else, matches-joins j ps l right matches index d f h e)
            (produce-keep j l (keep (joins j l) right)
              ∙ ap (map (joined_row j l)) (keep-keep (joins j l) right))
    ]

join_rows-reference :
    (j : Join) (kind : RowKind) (right left : List Row)
    → join_rows j kind none right left ≡ joined_rows j kind right left
unfolding join_rows joined_rows candidates
join_rows-reference j kind right [] = refl
join_rows-reference j kind right (l ∷ left) =
    ap₂ ◌++◌ (ap (pad j kind l) (produce-keep j l right) ∙ pad-partners j kind l right)
      (join_rows-reference j kind right left)

join_rows-indexed :
    (j : Join) (kind : RowKind) (ps : List FieldPair) (right left : List Row) (index : Index)
    → equal_text j.left_alias j.right_alias ≡ false
    → equality_join_key_fields j ≡ some ps
    → hash_join_index right (rights ps) ≡ some index
    → join_rows j kind (some (lefts ps, index)) right left ≡ joined_rows j kind right left
unfolding join_rows joined_rows
join_rows-indexed j kind ps right [] index d f h = refl
join_rows-indexed j kind ps right (l ∷ left) index d f h =
    ap₂ ◌++◌
      (ap (pad j kind l) (produce-candidates j ps l right index d f h)
        ∙ pad-partners j kind l right)
      (join_rows-indexed j kind ps right left index d f h)

join_rows-join_index :
    (optimised : Bool) (j : Join) (kind : RowKind) (right left : List Row)
    → equal_text j.left_alias j.right_alias ≡ false
    → join_rows j kind
        (join_index (if optimised then equality_join_key_fields j else none) right)
        right
        left
      ≡ joined_rows j kind right left
unfolding join_index
join_rows-join_index false j kind right left d = join_rows-reference j kind right left
join_rows-join_index true j kind right left d = elim (Option-cases (equality_join_key_fields j)) [
  | inl e ↦ rw (e, if◌then◌else◌, join_index) (join_rows-reference j kind right left)
  | inr (ps, e) ↦ elim (Option-cases (hash_join_index right (rights ps))) [
    | inl g ↦ rw (e, if◌then◌else◌, join_index, g) (join_rows-reference j kind right left)
    | inr (index, g) ↦
        rw (e, if◌then◌else◌, join_index, g) (join_rows-indexed j kind ps right left index d e g)
  ]
]

no_left : (j : Join) (kind : RowKind) (right : List Row) → joined_rows j kind right [] ≡ []
unfolding joined_rows
no_left j kind right = refl

inner_without_right : (j : Join) (left : List Row) → joined_rows j inner [] left ≡ []
unfolding joined_rows
inner_without_right j [] = refl
inner_without_right j (l ∷ left) = inner_without_right j left

-- With the relational optimisation or without it, an INNER or LEFT join gives its rows by
-- definition, in the order of the left and then of the right relation, where the two aliases
-- differ.
pub apply_row_producing_join-joined_rows :
    (optimised : Bool) (j : Join) (kind : RowKind) (left right : List Row)
    → equal_text j.left_alias j.right_alias ≡ false
    → apply_row_producing_join optimised j kind left right ≡ joined_rows j kind right left
unfolding apply_row_producing_join
apply_row_producing_join-joined_rows optimised j kind [] right d = sym (no_left j kind right)
apply_row_producing_join-joined_rows optimised j inner (l ∷ left) [] d =
    sym (inner_without_right j (l ∷ left))
apply_row_producing_join-joined_rows optimised j left_outer (l ∷ left) [] d =
    join_rows-join_index optimised j left_outer [] (l ∷ left) d
apply_row_producing_join-joined_rows optimised j inner (l ∷ left) (r ∷ right) d =
    join_rows-join_index optimised j inner (r ∷ right) (l ∷ left) d
apply_row_producing_join-joined_rows optimised j left_outer (l ∷ left) (r ∷ right) d =
    join_rows-join_index optimised j left_outer (r ∷ right) (l ∷ left) d
