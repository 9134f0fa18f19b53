-- ===== src/Query/Joins.antt =====
-- yt_media_tools/query_evaluator.py: the joins of two materialised relations, by the hash
-- index for conjunctions of equalities and by the nested loop for every other condition.
mod Matches
pub mod Laws
use yt_media_tools.Prelude.{
  Bool, true, false, not, ◌&&◌, Option, none, some, List, [], ◌∷◌, ◌++◌, Text, any, if◌then◌else◌,
}
use yt_media_tools.Query.Value.{Value, equals, equal_values}
use yt_media_tools.Query.Model.{and}
use yt_media_tools.Query.Like.{equal_text}
use yt_media_tools.Query.Evaluator.{is_truth}
use yt_media_tools.Query.Relations.{
  Cell, scalar, collection, is_missing, equal_lists, Row, cell, RelationField, JoinContext,
  relation_field, ordinary, Condition, binary, scalar_comparison, evaluate_condition,
}
use yt_media_tools.Query.Indexes.{
  Join, FieldPair, append_pairs, collect_equality, collect, nonempty_pairs,
  equality_join_key_fields, JoinKey, hash_cells, key_of_hash, cells, join_key, Index, add_row,
  find_rows, index_rows, hash_join_index, hash_join_matches, lefts, rights, incomplete, unhashable,
  hashed,
}

-- JoinKind, by the two routines that apply it
pub data ExistenceKind : Type 0 where
  semi anti : ExistenceKind

pub data RowKind : Type 0 where
  inner left_outer : RowKind

abbrev pub context : Join → Row → Row → JoinContext
context j l r = record {
  left_alias = j.left_alias;
  right_alias = j.right_alias;
  left = l;
  right = r;
}

-- `evaluate(join.predicate, context) is True`
unfoldable pub joins : Join → Row → Row → Bool
unfolding evaluate_condition
joins j l r = is_truth (evaluate_condition j.predicate (context j l r)) (some true)

-- whether a left row is selected
abbrev pub keeps : ExistenceKind → Bool → Bool
keeps semi matched = matched
keeps anti matched = not matched

abbrev pub select : Bool → Row → List Row → List Row
select selected l rows = if selected then l ∷ rows else rows

abbrev pub is_empty {ℓ} : {A : Type ℓ} → List A → Bool
is_empty [] = true
is_empty (x ∷ xs) = false

-- the membership fast path; `none` is its `break` at an unhashable left key
unfoldable pub select_indexed :
    ExistenceKind → List RelationField → Index → List Row → Option (List Row)
unfolding hash_join_matches
select_indexed kind fields index [] = some []
select_indexed kind fields index (l ∷ left) = elim (hash_join_matches l fields index) [
  | none ↦ none
  | some matches ↦ elim (select_indexed kind fields index left) [
    | none ↦ none
    | some rows ↦ some (select (keeps kind (not (is_empty matches))) l rows)
  ]
]

-- the reference execution route
unfoldable pub select_reference : Join → ExistenceKind → List Row → List Row → List Row
unfolding joins
select_reference j kind right [] = []
select_reference j kind right (l ∷ left) =
    select (keeps kind (any (joins j l) right)) l (select_reference j kind right left)

-- the fast path for the key fields it has, if their index can be built
unfoldable pub select_fast :
    Option (List FieldPair) → ExistenceKind → List Row → List Row → Option (List Row)
unfolding select_indexed hash_join_index
select_fast none kind right left = none
select_fast (some pairs) kind right left = elim (hash_join_index right (rights pairs)) [
  | none ↦ none
  | some index ↦ select_indexed kind (lefts pairs) index left
]

abbrev pub or_else {ℓ} : {A : Type ℓ} → Option A → A → A
or_else (some a) b = a
or_else none b = b

-- the right relation is empty
abbrev pub without_right : ExistenceKind → List Row → List Row
without_right semi left = []
without_right anti left = left

-- `_apply_existence_join` on the materialised relations, with `relational_optimisation`
unfoldable pub apply_existence_join : Bool → Join → ExistenceKind → List Row → List Row → List Row
unfolding select_fast select_reference equality_join_key_fields
apply_existence_join optimised j kind left right =
    let fields = if optimised then equality_join_key_fields j else none in
    if is_empty left
    then []
    else (if is_empty right
        then without_right kind left
        else or_else (select_fast fields kind right left) (select_reference j kind right left))

-- a produced row: the left record's own fields, and the records of both relations
pub record JoinedRow : Type 0 where
  pub base : Row
  pub relation_records : JoinContext

abbrev pub joined_row : Join → Row → Row → JoinedRow
joined_row j l r = record { base = l; relation_records = context j l r }

-- the rows that one left record produces, and whether a candidate matched
unfoldable pub produce : Join → Row → List Row → List JoinedRow
unfolding joins
produce j l [] = []
produce j l (r ∷ candidates) =
    if joins j l r then joined_row j l r ∷ produce j l candidates else produce j l candidates

-- `if join.kind is JoinKind.LEFT and not matched`
abbrev pub pad : Join → RowKind → Row → List JoinedRow → List JoinedRow
pad j left_outer l [] = joined_row j l [] ∷ []
pad j kind l produced = produced

-- the candidates of one left record
unfoldable pub candidates : Option (List RelationField × Index) → Row → List Row → List Row
unfolding hash_join_matches
candidates none l right = right
candidates (some (fields, index)) l right = or_else (hash_join_matches l fields index) right

unfoldable pub join_rows :
    Join → RowKind → Option (List RelationField × Index) → List Row → List Row → List JoinedRow
unfolding candidates produce
join_rows j kind index right [] = []
join_rows j kind index right (l ∷ left) =
    pad j kind l (produce j l (candidates index l right)) ++ join_rows j kind index right left

unfoldable pub join_index : Option (List FieldPair) → List Row → Option (List RelationField × Index)
unfolding hash_join_index
join_index none right = none
join_index (some pairs) right = elim (hash_join_index right (rights pairs)) [
  | none ↦ none
  | some index ↦ some (lefts pairs, index)
]

abbrev pub is_inner : RowKind → Bool
is_inner inner = true
is_inner left_outer = false

-- `_apply_row_producing_join` on the materialised relations, with `relational_optimisation`
unfoldable pub apply_row_producing_join :
    Bool → Join → RowKind → List Row → List Row → List JoinedRow
unfolding join_rows join_index equality_join_key_fields
apply_row_producing_join optimised j kind left right =
    let fields = if optimised then equality_join_key_fields j else none in
    if is_empty left
    then []
    else (if is_inner kind && is_empty right
        then []
        else join_rows j kind (join_index fields right) right left)
