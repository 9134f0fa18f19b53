-- ===== src/Provability.antt =====
-- yt_media_tools/semantic_provability.py, `_prove_and_contradiction`: whether the AND terms of a
-- predicate contradict each other on one field. The dicts by field are read off the terms, one
-- field at a time, and a proof is its Boolean; the reason it names is left out.
pub mod Limits
mod Constraints
mod Bounds
pub mod Terms
mod Facts
pub mod Laws
use yt_media_tools.Prelude.{
  Ordering, Bool, true, false, not, ◌&&◌, ◌||◌, Option, none, some, List, [], ◌∷◌, ◌++◌, Text, any,
  all, keep, if◌then◌else◌,
}
use yt_media_tools.Query.Value.{
  Value, null, text, Operator, equals, differs, less, less_or_equal, greater, greater_or_equal,
  compare_values, is_null, equal_values,
}
use yt_media_tools.Query.Model.{
  Field, Literal, and, Predicate, binary, comparison, between, in_list, null_test, text_predicate,
}
use yt_media_tools.Query.Like.{equal_text}
use yt_media_tools.Provability.Limits.{
  Constraint, equalities, exclusions, Limit, choose_lower, choose_upper, stronger_lower,
  stronger_upper, lower_bound, upper_bound, unequal, excluded, allowed, is_none_of, outside_domains,
  beyond, beyond_limit, first_proof, outside_bounds, apart, bounds_apart, contradictory_constraints,
}

-- Python's `int` and `float` of an unquoted text, or its ValueError
pub record Numerals : Type 0 where
  pub number_of : Text → Option Value

unfoldable pub flatten_and : Predicate → List Predicate
flatten_and (binary and left right) = flatten_and left ++ flatten_and right
flatten_and p = p ∷ []

module _ ⦃ns : Numerals⦄ where
  unfoldable pub literal_text : Bool → Text → Value
  literal_text true s = text s
  literal_text false s = elim (ns.number_of s) [ some v ↦ v | none ↦ text s ]

  unfoldable pub value_of : Value → Bool → Value
  unfolding literal_text
  value_of (text s) quoted = literal_text quoted s
  value_of v quoted = v

  -- `_literal_value`
  unfoldable pub literal_value : Literal → Value
  unfolding value_of
  literal_value literal = value_of literal.value literal.quoted

  -- the constraints with a value that is not None
  unfoldable pub with_value : Operator → Value → List Constraint
  with_value op v = if is_null v then [] else (op, v) ∷ []

  -- what one term adds to `by_field` at a field: `_comparison_constraint`, `_between_constraints`
  unfoldable pub term_constraints : Text → Predicate → List Constraint
  unfolding literal_value with_value equal_text
  term_constraints name (comparison op field literal) =
      if equal_text field.name name then with_value op (literal_value literal) else []
  term_constraints name (between field lower upper false) =
      if equal_text field.name name
        && not (is_null (literal_value lower) || is_null (literal_value upper))
      then (greater_or_equal, literal_value lower) ∷ ((less_or_equal, literal_value upper) ∷ [])
      else []
  term_constraints name p = []

  unfoldable pub present_values : List Literal → List Value
  unfolding literal_value
  present_values [] = []
  present_values (item ∷ items) =
      if is_null (literal_value item)
      then present_values items
      else literal_value item ∷ present_values items

  -- `_positive_in_constraint`
  unfoldable pub term_domains : Text → Predicate → List (List Value)
  unfolding present_values equal_text
  term_domains name (in_list field values false) =
      if equal_text field.name name then present_values values ∷ [] else []
  term_domains name p = []

  -- `_null_constraint`, by whether NULL is required
  unfoldable pub requires_null : Bool → Text → Predicate → Bool
  unfolding equal_text
  requires_null required name (null_test field negated) =
      equal_text field.name name && (if required then not negated else negated)
  requires_null required name p = false

  -- `_null_rejecting_field`
  unfoldable pub rejects_null : Text → Predicate → Bool
  unfolding literal_value equal_text
  rejects_null name (comparison op field literal) =
      equal_text field.name name && not (is_null (literal_value literal))
  rejects_null name (between field lower upper negated) = equal_text field.name name
  rejects_null name (in_list field values negated) = equal_text field.name name
  rejects_null name (text_predicate op field needle quoted negated) = equal_text field.name name
  rejects_null name (null_test field negated) = equal_text field.name name && negated
  rejects_null name p = false

  unfoldable pub constraints_of : Text → List Predicate → List Constraint
  unfolding term_constraints
  constraints_of name [] = []
  constraints_of name (p ∷ terms) = term_constraints name p ++ constraints_of name terms

  unfoldable pub domains_of : Text → List Predicate → List (List Value)
  unfolding term_domains
  domains_of name [] = []
  domains_of name (p ∷ terms) = term_domains name p ++ domains_of name terms

module _ ⦃ns : Numerals⦄ where
  -- the tests on NULL at one field
  unfoldable pub contradictory_nulls : Text → List Predicate → Bool
  unfolding requires_null rejects_null
  contradictory_nulls name terms =
      any (requires_null true name) terms
      && (any (requires_null false name) terms || any (rejects_null name) terms)

  unfoldable pub contradictory_at : List Predicate → Text → Bool
  unfolding contradictory_nulls contradictory_constraints constraints_of domains_of
  contradictory_at terms name =
      contradictory_nulls name terms
      || contradictory_constraints (constraints_of name terms) (domains_of name terms)

  -- the fields of the dicts
  unfoldable pub term_names : Predicate → List Text
  term_names (comparison op field literal) = field.name ∷ []
  term_names (between field lower upper negated) = field.name ∷ []
  term_names (in_list field values negated) = field.name ∷ []
  term_names (null_test field negated) = field.name ∷ []
  term_names p = []

  unfoldable pub names_of : List Predicate → List Text
  unfolding term_names
  names_of [] = []
  names_of (p ∷ terms) = term_names p ++ names_of terms

  -- `_prove_and_contradiction`
  unfoldable pub prove_and_contradiction : Predicate → Bool
  unfolding flatten_and names_of contradictory_at
  prove_and_contradiction node =
      let terms = flatten_and node in any (contradictory_at terms) (names_of terms)
