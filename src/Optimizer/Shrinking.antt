-- ===== src/Optimizer/Shrinking.antt =====
-- Every rewrite but the trivial ones makes a predicate smaller.
pub mod Chains
pub mod Rules
pub mod Passes
use yt_media_tools.Prelude.{
  both, of_some, ℕ, zero, suc, ◌+◌, ◌≤◌, ◌<◌, ◌≡◌, refl, ap, ap₂, sym, ◌∙◌, ◌⊎◌, inl, inr, Bool,
  true, false, Option, none, some, List, [], ◌∷◌, ◌++◌, length, any, arith, Bool-cases,
  if◌then◌else◌,
}
use mathlib.Core.Path.{subst}
use yt_media_tools.Query.Model.{
  Field, Literal, Connective, and, or, Predicate, truth_literal, unary, binary, comparison, between,
  in_list, null_test, text_predicate, truth_test,
}
use yt_media_tools.Query.Semantics.{same_connective, has_literal}
use yt_media_tools.Query.Semantics.Laws.{connective_of_same}
use yt_media_tools.Optimizer.Terms.{flatten, rebuild, rebuild_from}
use yt_media_tools.Optimizer.Defs.{
  normalise_not, unique_values, left_boolean_operand_dominates, is_identity,
}
use yt_media_tools.Optimizer.Rewriting.{
  Inserts, here, there, Occurs, Removes, removes, Rewrites, unchanged, compose, in_unary,
  in_truth_test, in_binary, normalised, dominated, identity_left, identity_right, flattened,
  removed, degenerate, without_repeats, singleton,
}

-- A right operand counts twice, so that rebuilding a chain to the left makes it smaller.
unfoldable pub size : Predicate → ℕ
size (truth_literal t) = 1
size (unary p) = suc (size p)
size (binary op p q) = suc (size p + (size q + size q))
size (comparison o f a) = 2
size (between f a b n) = 3
size (in_list f items n) = 3 + length items
size (null_test f n) = 2
size (text_predicate o f s k n) = 2
size (truth_test p t n) = suc (size p)

abbrev pub Shrinks : Predicate → Predicate → Type 0
Shrinks p q = (q ≡ p) ⊎ (size q < size p)
