-- ===== src/Optimizer/Terms.antt =====
-- The flat list of terms of an AND or OR chain in optimizer.py, and what is removed from it.
use yt_media_tools.Prelude.{
  ℕ, zero, suc, Option, none, some, List, [], ◌∷◌, ◌++◌, any, length, if◌then◌else◌,
}
use yt_media_tools.Query.Model.{Connective, Predicate, binary}
use yt_media_tools.Query.Semantics.{same_connective, same_key}
use yt_media_tools.Optimizer.Bounds.{Side, left, right, dominant_comparison}
use yt_media_tools.Optimizer.Memberships.{subsumed_membership}

-- `_flatten`
unfoldable pub flatten : Connective → Predicate → List Predicate
flatten op (binary c p q) =
    let chain = flatten op p ++ flatten op q in
    if same_connective c op then chain else binary c p q ∷ []
flatten op p = p ∷ []

unfoldable pub rebuild_from : Connective → Predicate → List Predicate → Predicate
rebuild_from op node [] = node
rebuild_from op node (term ∷ terms) = rebuild_from op (binary op node term) terms

-- `_rebuild`, which asserts that there is a term
unfoldable pub rebuild : Connective → List Predicate → Option Predicate
unfolding rebuild_from
rebuild op [] = none
rebuild op (term ∷ terms) = some (rebuild_from op term terms)

-- `_deduplicate_terms`, with the terms kept so far. Every predicate of the model is
-- deterministic, which is the rule's condition for dropping a repeated term.
unfoldable pub deduplicate_terms : List Predicate → List Predicate → List Predicate
unfolding same_key
deduplicate_terms unique [] = unique
deduplicate_terms unique (term ∷ terms) =
    deduplicate_terms (if any (same_key term) unique then unique else unique ++ term ∷ []) terms

-- The loops of `_simplify_memberships` and `_simplify_bounds`, for a rule that says which term of
-- a pair is kept. `none` means that the rule applies to no pair.
module _ (rule : Predicate → Predicate → Option Side) where
  abbrev pub keep_first : Predicate → Option (List Predicate) → Option (List Predicate)
  keep_first p none = none
  keep_first p (some terms) = some (p ∷ terms)

  -- one term against those behind it: the list `term ∷ terms` with one term removed
  unfoldable pub scan : Predicate → List Predicate → List Predicate → Option (List Predicate)
  scan term passed [] = none
  scan term passed (other ∷ terms) =
      let later = scan term (passed ++ other ∷ []) terms in
      elim (rule term other) [
        | some left ↦ some (term ∷ passed ++ terms)
        | some right ↦ some (passed ++ other ∷ terms)
        | none ↦ later
      ]

  unfoldable pub remove_one : List Predicate → Option (List Predicate)
  unfolding scan
  remove_one [] = none
  remove_one (term ∷ terms) =
      let later = keep_first term (remove_one terms) in
      elim (scan term [] terms) [ some shorter ↦ some shorter | none ↦ later ]

  -- `while changed`: each round but the last removes a term
  unfoldable pub remove_all : ℕ → List Predicate → List Predicate
  unfolding remove_one
  remove_all zero terms = terms
  remove_all (suc rounds) terms = elim (remove_one terms) [
    | some shorter ↦ remove_all rounds shorter
    | none ↦ terms
  ]

unfoldable pub simplify_memberships : Connective → List Predicate → List Predicate
unfolding remove_all subsumed_membership
simplify_memberships op terms = remove_all (subsumed_membership op) (length terms) terms

unfoldable pub simplify_bounds : Connective → List Predicate → List Predicate
unfolding remove_all dominant_comparison
simplify_bounds op terms = remove_all (dominant_comparison op) (length terms) terms

unfoldable pub simplify_terms : Connective → Predicate → List Predicate
unfolding flatten deduplicate_terms simplify_memberships simplify_bounds
simplify_terms op chain =
    simplify_bounds op (simplify_memberships op (deduplicate_terms [] (flatten op chain)))
