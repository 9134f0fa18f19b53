-- ===== src/Query/Evaluator.antt =====
-- yt_media_tools/query_evaluator.py and query_values.py: SQL's three-valued evaluation of a
-- resolved predicate on one record. The values of a record are canonical: a date field holds a
-- `day` and a datetime field an `instant`, as `canonical_record_value` makes them. An UNKNOWN
-- truth value, Python's None, is `none`.
pub mod Laws
use yt_media_tools.Prelude.{
  ℕ, Bool, true, false, not, ◌&&◌, ◌||◌, Option, none, some, List, [], ◌∷◌, Text, codes, any,
  if◌then◌else◌,
}
use yt_media_tools.Query.Value.{
  Value, null, text, Operator, less_or_equal, is_null, equal_values, holds,
}
use yt_media_tools.Query.Model.{
  Field, Literal, Connective, and, or, TextOperator, contains, matches, like, ilike, Truth,
  Predicate, truth_literal, unary, binary, comparison, between, in_list, null_test, text_predicate,
  truth_test,
}
use yt_media_tools.Query.Like.{equal_text, like_matches}

-- What the evaluator uses of Python's library: `str.casefold`, `re.search` with a pattern and a
-- text, and the equality of characters under `re.IGNORECASE`.
pub record Runtime : Type 0 where
  pub casefold : Text → Text
  pub search : Text → Text → Bool
  pub same_ignoring_case : ℕ → ℕ → Bool

abbrev pub Record : Type 0
Record = List (Text × Value)

-- `record.get(field.name)`; a value under the name counts once, as in a dict
unfoldable pub record_value : Record → Field → Value
unfolding equal_text
record_value [] field = null
record_value ((name, value) ∷ rest) field =
    if equal_text name field.name then value else record_value rest field

unfoldable pub evaluate_boolean_binary : Connective → Truth → Truth → Truth
evaluate_boolean_binary and (some false) right = some false
evaluate_boolean_binary and left (some false) = some false
evaluate_boolean_binary and (some true) (some true) = some true
evaluate_boolean_binary and left right = none
evaluate_boolean_binary or (some true) right = some true
evaluate_boolean_binary or left (some true) = some true
evaluate_boolean_binary or (some false) (some false) = some false
evaluate_boolean_binary or left right = none

abbrev pub evaluate_not : Truth → Truth
evaluate_not none = none
evaluate_not (some b) = some (not b)

-- `not result if node.negated else result`
abbrev pub negate : Bool → Bool → Bool
negate negated result = if negated then not result else result

-- `value is True`, `value is False`, `value is None`
abbrev pub is_truth : Truth → Truth → Bool
is_truth none none = true
is_truth (some true) (some true) = true
is_truth (some false) (some false) = true
is_truth _ _ = false

-- `needle in text`
unfoldable pub is_prefix : Text → Text → Bool
unfolding equal_text
is_prefix [] s = true
is_prefix (c ∷ cs) [] = false
is_prefix (c ∷ cs) (x ∷ xs) = equal_text (c ∷ []) (x ∷ []) && is_prefix cs xs

unfoldable pub is_within : Text → Text → Bool
unfolding is_prefix
is_within needle [] = is_prefix needle []
is_within needle (x ∷ xs) = is_prefix needle (x ∷ xs) || is_within needle xs

module _ ⦃rt : Runtime⦄ where
  -- `_CASE_INSENSITIVE_ENUM_FIELDS` holds the casefolded name
  unfoldable pub ignores_case : Field → Bool
  unfolding equal_text
  ignores_case field =
      let name = rt.casefold field.name in
      equal_text name (codes "live_status") || equal_text name (codes "availability")

  unfoldable pub comparison_values : Field → Value → Value → Value × Value
  unfolding ignores_case
  comparison_values field (text s) (text t) =
      if ignores_case field then (text (rt.casefold s), text (rt.casefold t)) else (text s, text t)
  comparison_values field left right = (left, right)

  -- a comparison of two values that are not None
  unfoldable pub compare_field : Operator → Field → Value → Value → Bool
  unfolding comparison_values holds
  compare_field op field left right =
      let (l, r) = comparison_values field left right in holds op l r

  unfoldable pub member : Field → Value → List Literal → Bool
  unfolding comparison_values equal_values
  member field value items =
      any
        (λ (item : Literal).
          let (l, r) = comparison_values field value item.value in equal_values l r)
        items

  unfoldable pub text_holds : TextOperator → Text → Text → Bool
  unfolding is_within like_matches
  text_holds contains value needle = is_within (rt.casefold needle) (rt.casefold value)
  text_holds matches value needle = rt.search needle value
  text_holds like value needle = like_matches rt.same_ignoring_case value needle false
  text_holds ilike value needle = like_matches rt.same_ignoring_case value needle true

  unfoldable pub evaluate_text : TextOperator → Value → Text → Bool → Truth
  unfolding text_holds
  evaluate_text op null needle negated = none
  evaluate_text op (text value) needle negated = some (negate negated (text_holds op value needle))
  evaluate_text op _ needle negated = some false

  -- `_evaluate_boolean_expression` on a plain record
  unfoldable pub evaluate : Predicate → Record → Truth
  unfolding record_value evaluate_boolean_binary compare_field member evaluate_text
  evaluate (truth_literal value) record_ = value
  evaluate (unary operand) record_ = evaluate_not (evaluate operand record_)
  evaluate (binary op left right) record_ =
      evaluate_boolean_binary op (evaluate left record_) (evaluate right record_)
  evaluate (comparison op field literal) record_ =
      let left = record_value record_ field in
      if is_null left || is_null literal.value
      then none
      else some (compare_field op field left literal.value)
  evaluate (between field lower upper negated) record_ =
      let value = record_value record_ field in
      if is_null value
      then none
      else some (
          negate negated
            (holds less_or_equal lower.value value && holds less_or_equal value upper.value))
  evaluate (in_list field values negated) record_ =
      let value = record_value record_ field in
      if is_null value then none else some (negate negated (member field value values))
  evaluate (null_test field negated) record_ =
      some (negate negated (is_null (record_value record_ field)))
  evaluate (text_predicate op field needle quoted negated) record_ =
      evaluate_text op (record_value record_ field) needle negated
  evaluate (truth_test operand truth negated) record_ =
      some (negate negated (is_truth (evaluate operand record_) truth))

  -- `evaluate(query.predicate, record) is True`; an absent WHERE accepts every record
  unfoldable pub accepts_record : Option Predicate → Record → Bool
  unfolding evaluate
  accepts_record none record_ = true
  accepts_record (some p) record_ = is_truth (evaluate p record_) (some true)
