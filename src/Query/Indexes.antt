-- ===== src/Query/Indexes.antt =====
-- yt_media_tools/query_evaluator.py: the hash index of a join whose condition is a conjunction of
-- equalities between its two relations.
pub mod Keys
pub mod Rows
use yt_media_tools.Prelude.{
  Bool, true, false, not, ◌&&◌, Option, none, some, List, [], ◌∷◌, ◌++◌, Text, any, if◌then◌else◌,
}
use yt_media_tools.Query.Value.{Value, equals, equal_values}
use yt_media_tools.Query.Model.{and}
use yt_media_tools.Query.Like.{equal_text}
use yt_media_tools.Query.Evaluator.{is_truth}
use yt_media_tools.Query.Relations.{
  Cell, scalar, collection, is_missing, equal_lists, Row, cell, RelationField, JoinContext,
  relation_field, ordinary, Condition, binary, scalar_comparison, evaluate_condition,
}

-- a query's one JOIN: the aliases of its two relations, and its ON condition
pub record Join : Type 0 where
  pub left_alias : Text
  pub right_alias : Text
  pub predicate : Condition

abbrev pub FieldPair : Type 0
FieldPair = RelationField × RelationField

abbrev pub append_pairs :
    Option (List FieldPair) → Option (List FieldPair) → Option (List FieldPair)
append_pairs (some ps) (some qs) = some (ps ++ qs)
append_pairs _ _ = none

-- one equality between the two relations, as (left field, right field)
unfoldable pub collect_equality :
    Text → Text → RelationField → RelationField → Option (List FieldPair)
unfolding equal_text
collect_equality left_alias right_alias f g =
    if equal_text f.qualifier left_alias && equal_text g.qualifier right_alias
    then some ((f, g) ∷ [])
    else (if equal_text g.qualifier left_alias && equal_text f.qualifier right_alias
        then some ((g, f) ∷ [])
        else none)

-- `collect` of `_equality_join_key_fields`
unfoldable pub collect : Text → Text → Condition → Option (List FieldPair)
unfolding collect_equality
collect left_alias right_alias (binary and p q) =
    append_pairs (collect left_alias right_alias p) (collect left_alias right_alias q)
collect left_alias right_alias
      (scalar_comparison (ordinary equals) (relation_field f) (relation_field g)) =
    collect_equality left_alias right_alias f g
collect left_alias right_alias _ = none

-- `tuple(fields) if fields else None`
abbrev pub nonempty_pairs : Option (List FieldPair) → Option (List FieldPair)
nonempty_pairs (some (p ∷ ps)) = some (p ∷ ps)
nonempty_pairs _ = none

unfoldable pub equality_join_key_fields : Join → Option (List FieldPair)
unfolding collect
equality_join_key_fields j = nonempty_pairs (collect j.left_alias j.right_alias j.predicate)

-- None, `_UNHASHABLE_JOIN_KEY`, or the key; one value stands for a tuple of one
pub data JoinKey : Type 0 where
  incomplete unhashable : JoinKey
  hashed : List Value → JoinKey

abbrev pub hash_cells : List Cell → Option (List Value)
hash_cells [] = some []
hash_cells (collection values ∷ cells) = none
hash_cells (scalar value ∷ cells) = elim (hash_cells cells) [
  | some values ↦ some (value ∷ values)
  | none ↦ none
]

abbrev pub key_of_hash : Option (List Value) → JoinKey
key_of_hash (some values) = hashed values
key_of_hash none = unhashable

unfoldable pub cells : Row → List RelationField → List Cell
unfolding cell
cells r [] = []
cells r (f ∷ fs) = cell r f.name ∷ cells r fs

unfoldable pub join_key : Row → List RelationField → JoinKey
unfolding cells
join_key r fields =
    let values = cells r fields in
    if any is_missing values then incomplete else key_of_hash (hash_cells values)

-- the dict of a hash index, in insertion order; a key is found by `==`
abbrev pub Index : Type 0
Index = List (List Value × List Row)

-- `index.setdefault(key, []).append(record)`
unfoldable pub add_row : List Value → Row → Index → Index
unfolding equal_lists
add_row key r [] = (key, r ∷ []) ∷ []
add_row key r ((k, rows) ∷ rest) =
    if equal_lists k key then (k, rows ++ (r ∷ [])) ∷ rest else (k, rows) ∷ add_row key r rest

-- `index.get(key, [])`
unfoldable pub find_rows : List Value → Index → List Row
unfolding equal_lists
find_rows key [] = []
find_rows key ((k, rows) ∷ rest) = if equal_lists k key then rows else find_rows key rest

-- the loop of `_hash_join_index`, from the index built so far
unfoldable pub index_rows : List RelationField → List Row → Index → Option Index
unfolding join_key add_row
index_rows fields [] index = some index
index_rows fields (r ∷ rows) index = elim (join_key r fields) [
  | incomplete ↦ index_rows fields rows index
  | unhashable ↦ none
  | hashed key ↦ index_rows fields rows (add_row key r index)
]

unfoldable pub hash_join_index : List Row → List RelationField → Option Index
unfolding index_rows
hash_join_index rows fields = index_rows fields rows []

unfoldable pub hash_join_matches : Row → List RelationField → Index → Option (List Row)
unfolding join_key find_rows
hash_join_matches l fields index = elim (join_key l fields) [
  | incomplete ↦ some []
  | unhashable ↦ none
  | hashed key ↦ some (find_rows key index)
]

abbrev pub lefts : List FieldPair → List RelationField
lefts [] = []
lefts ((f, g) ∷ pairs) = f ∷ lefts pairs

abbrev pub rights : List FieldPair → List RelationField
rights [] = []
rights ((f, g) ∷ pairs) = g ∷ rights pairs
