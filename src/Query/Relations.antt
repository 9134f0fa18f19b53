-- ===== src/Query/Relations.antt =====
-- yt_media_tools/query_evaluator.py on two joined relations: the cells of their records, the
-- context that says which relation owns a field, and three-valued JOIN conditions over fields,
-- literals and comparisons. A cell is canonical, as `canonical_record_value` makes it.
pub mod Equality
use yt_media_tools.Prelude.{
  Ordering, Bool, true, false, not, ◌&&◌, Option, none, some, List, [], ◌∷◌, Text, if◌then◌else◌,
}
use yt_media_tools.Query.Value.{
  Value, null, Operator, equals, differs, is_null, equal_values, compare_values, ordered,
}
use yt_media_tools.Query.Model.{Connective, Truth}
use yt_media_tools.Query.Like.{equal_text}
use yt_media_tools.Query.Evaluator.{evaluate_boolean_binary, evaluate_not, negate}

-- What a field of a relation holds: a scalar, or a list of scalars, which Python cannot hash.
pub data Cell : Type 0 where
  scalar : Value → Cell
  collection : List Value → Cell

abbrev pub is_missing : Cell → Bool
is_missing (scalar value) = is_null value
is_missing (collection values) = false

-- `==` and `<` on lists: the first elements that differ decide
unfoldable pub equal_lists : List Value → List Value → Bool
unfolding equal_values
equal_lists [] [] = true
equal_lists (x ∷ xs) (y ∷ ys) = equal_values x y && equal_lists xs ys
equal_lists xs ys = false

unfoldable pub compare_lists : List Value → List Value → Option Ordering
unfolding equal_values compare_values
compare_lists [] [] = some Ordering.eq
compare_lists [] (y ∷ ys) = some Ordering.lt
compare_lists (x ∷ xs) [] = some Ordering.gt
compare_lists (x ∷ xs) (y ∷ ys) =
    let rest = compare_lists xs ys in if equal_values x y then rest else compare_values x y

unfoldable pub equal_cells : Cell → Cell → Bool
unfolding equal_lists
equal_cells (scalar v) (scalar w) = equal_values v w
equal_cells (collection vs) (collection ws) = equal_lists vs ws
equal_cells _ _ = false

unfoldable pub compare_cells : Cell → Cell → Option Ordering
unfolding compare_lists
compare_cells (scalar v) (scalar w) = compare_values v w
compare_cells (collection vs) (collection ws) = compare_lists vs ws
compare_cells _ _ = none

-- a comparison operator, or IS [NOT] DISTINCT FROM with its `negated`
pub data ScalarOperator : Type 0 where
  ordinary : Operator → ScalarOperator
  distinct_from : Bool → ScalarOperator

-- `left op right` with TypeError as false; `==` and `!=` never raise
unfoldable pub holds_cells : Operator → Cell → Cell → Bool
unfolding equal_cells compare_cells
holds_cells equals v w = equal_cells v w
holds_cells differs v w = not (equal_cells v w)
holds_cells op v w = ordered op (compare_cells v w)

-- `_evaluate_comparison`
unfoldable pub evaluate_comparison : ScalarOperator → Cell → Cell → Truth
unfolding holds_cells
evaluate_comparison (distinct_from negated) left right =
    let same =
      if is_missing left
      then is_missing right
      else (if is_missing right then false else equal_cells left right) in
    some (if negated then same else not same)
evaluate_comparison (ordinary op) left right =
    if is_missing left
    then none
    else (if is_missing right then none else some (holds_cells op left right))

abbrev pub Row : Type 0
Row = List (Text × Cell)

-- `record.get(name)`
unfoldable pub cell : Row → Text → Cell
unfolding equal_text
cell [] name = scalar null
cell ((key, value) ∷ rest) name = if equal_text key name then value else cell rest name

pub record RelationField : Type 0 where
  pub qualifier : Text
  pub name : Text

-- `{left_alias: left_record, right_alias: right_record}`, where a repeated alias keeps the last
pub record JoinContext : Type 0 where
  pub left_alias : Text
  pub right_alias : Text
  pub left : Row
  pub right : Row

-- `relation_record(qualifier)` and the field's canonical value; an unknown relation gives None
unfoldable pub relation_value : JoinContext → RelationField → Cell
unfolding cell
relation_value c field =
    if equal_text field.qualifier c.right_alias
    then cell c.right field.name
    else (if equal_text field.qualifier c.left_alias then cell c.left field.name else scalar null)

pub data Scalar : Type 0 where
  relation_field : RelationField → Scalar
  literal : Value → Scalar

unfoldable pub scalar_value : JoinContext → Scalar → Cell
unfolding relation_value
scalar_value c (relation_field field) = relation_value c field
scalar_value c (literal value) = scalar value

pub data Condition : Type 0 where
  truth_value : Truth → Condition
  unary : Condition → Condition
  binary : Connective → Condition → Condition → Condition
  scalar_is_null : Scalar → Bool → Condition
  scalar_comparison : ScalarOperator → Scalar → Scalar → Condition

-- `_evaluate_boolean_expression` in a context of two relations
unfoldable pub evaluate_condition : Condition → JoinContext → Truth
unfolding scalar_value evaluate_comparison evaluate_boolean_binary
evaluate_condition (truth_value value) c = value
evaluate_condition (unary operand) c = evaluate_not (evaluate_condition operand c)
evaluate_condition (binary op left right) c =
    evaluate_boolean_binary op (evaluate_condition left c) (evaluate_condition right c)
evaluate_condition (scalar_is_null expression negated) c =
    some (negate negated (is_missing (scalar_value c expression)))
evaluate_condition (scalar_comparison op left right) c =
    evaluate_comparison op (scalar_value c left) (scalar_value c right)
