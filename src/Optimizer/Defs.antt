-- ===== src/Optimizer/Defs.antt =====
-- `_optimise_node` of optimizer.py with its helpers, and the loop that runs it to a fixed point.
use yt_media_tools.Prelude.{
  ℕ, zero, suc, Bool, true, false, not, Option, none, some, List, [], ◌∷◌, if◌then◌else◌,
}
use yt_media_tools.Query.Value.{
  equals, differs, less, less_or_equal, greater, greater_or_equal, Operator, equal_values,
}
use yt_media_tools.Query.Model.{
  Literal, Connective, and, or, Predicate, truth_literal, unary, binary, comparison, between,
  in_list, null_test, text_predicate, truth_test,
}
use yt_media_tools.Query.Semantics.{has_literal, same_key}
use yt_media_tools.Optimizer.Terms.{simplify_terms, rebuild}

-- `_INVERTED_COMPARISON`
unfoldable pub inverted_comparison : Operator → Operator
inverted_comparison equals = differs
inverted_comparison differs = equals
inverted_comparison less = greater_or_equal
inverted_comparison less_or_equal = greater
inverted_comparison greater = less_or_equal
inverted_comparison greater_or_equal = less

-- `_normalise_not(node)`, for the node under the NOT
unfoldable pub normalise_not : Predicate → Predicate
unfolding inverted_comparison
normalise_not (unary operand) = operand
normalise_not (comparison op field literal) = comparison (inverted_comparison op) field literal
normalise_not (between field lower upper negated) = between field lower upper (not negated)
normalise_not (in_list field values negated) = in_list field values (not negated)
normalise_not (null_test field negated) = null_test field (not negated)
normalise_not (truth_test operand truth negated) = truth_test operand truth (not negated)
normalise_not (text_predicate op field needle quoted negated) =
    text_predicate op field needle quoted (not negated)
normalise_not p = unary p

-- `_left_boolean_operand_dominates`
unfoldable pub left_boolean_operand_dominates : Connective → Predicate → Bool
left_boolean_operand_dominates and (truth_literal (some false)) = true
left_boolean_operand_dominates or (truth_literal (some true)) = true
left_boolean_operand_dominates _ _ = false

-- the constant that leaves the other operand as the result: TRUE for AND, FALSE for OR
unfoldable pub is_identity : Connective → Predicate → Bool
is_identity and (truth_literal (some true)) = true
is_identity or (truth_literal (some false)) = true
is_identity _ _ = false

-- the values of an IN, each once, from the front
unfoldable pub unique_values : List Literal → List Literal → List Literal
unfolding has_literal
unique_values seen [] = []
unique_values seen (value ∷ values) =
    let known = unique_values seen values in
    let fresh = value ∷ unique_values (value ∷ seen) values in
    if has_literal value seen then known else fresh

abbrev pub equality : Bool → Operator
equality negated = if negated then differs else equals

unfoldable pub collapse_in : Predicate → Predicate
collapse_in (in_list field (value ∷ []) negated) = comparison (equality negated) field value
collapse_in p = p

-- The AND/OR branch of `_optimise_node` after its two operands are optimised.
unfoldable pub combine : Connective → Predicate → Predicate → Option Predicate
unfolding is_identity simplify_terms rebuild
combine op left right =
    if is_identity op left
    then some right
    else if is_identity op right
    then some left
    else rebuild op (simplify_terms op (binary op left right))

infixl 5 ◌>>=◌
abbrev pub ◌>>=◌ : Option Predicate → (Predicate → Option Predicate) → Option Predicate
none >>= f = none
some p >>= f = f p

unfoldable pub optimise_node : Predicate → Option Predicate
unfolding normalise_not left_boolean_operand_dominates combine unique_values collapse_in
optimise_node (truth_test operand truth negated) = do
  operand' ← optimise_node operand
  some (truth_test operand' truth negated)
optimise_node (unary operand) = do operand' ← optimise_node operand; some (normalise_not operand')
optimise_node (binary op left right) =
    let right' = optimise_node right in
    optimise_node left >>= λ left'.
    if left_boolean_operand_dominates op left' then some left' else right' >>= combine op left'
optimise_node (between field lower upper negated) = some (
    if equal_values lower.value upper.value
    then comparison (equality negated) field lower
    else between field lower upper negated)
optimise_node (in_list field values negated) =
    some (collapse_in (in_list field (unique_values [] values) negated))
optimise_node p = some p

-- `_optimise_predicate_fixed_point`, by the passes that are left. The code compares with `==`, raw
-- spellings and positions included. A pass moves, drops or makes smaller the parts that it is given
-- and respells none, and a pass with the semantic key of its argument is that argument.
unfoldable pub optimise_passes : ℕ → Predicate → Option Predicate
unfolding optimise_node same_key
optimise_passes zero p = none
optimise_passes (suc passes) p = optimise_node p >>= λ q.
    let again = optimise_passes passes q in if same_key q p then some p else again

abbrev pub max_optimiser_passes : ℕ
max_optimiser_passes = 32

unfoldable pub optimise_predicate_fixed_point : Predicate → Option Predicate
unfolding optimise_passes
optimise_predicate_fixed_point = optimise_passes max_optimiser_passes
