-- ===== src/Examples.antt =====
-- A small runtime, records and predicates, and the theorems at them.
pub mod Optimized
pub mod Rewritten
pub mod Cached
pub mod Bounded
pub mod Staged
pub mod Queried
pub mod Downloads
pub mod Reported
pub mod Proved
use yt_media_tools.Prelude.{
  ℕ, Bool, true, false, Option, none, some, [], ◌∷◌, Text, codes, ◌==◌, ◌≡◌, refl,
}
use yt_media_tools.Prelude.Order.{ℤ, pos, negsuc}
use yt_media_tools.Query.Value.{Value, null, integer, text, greater, greater_or_equal, equals, less}
use yt_media_tools.Query.Model.{
  Field, Literal, Connective, and, or, Predicate, unary, binary, comparison, between, in_list,
  truth_literal,
}
use yt_media_tools.Query.Evaluator.{Runtime, Record}

-- nothing folds, and no regular expression matches
abbrev pub plain_runtime : Runtime
plain_runtime = record {
  casefold = λ (s : Text). s;
  search = λ (s t : Text). false;
  same_ignoring_case = λ (a b : ℕ). a == b;
}

abbrev pub views : Field
views = record { name = codes "views"; kind = none }

abbrev pub number : ℕ → Literal
number n = record { value = integer (pos n); quoted = false }

abbrev pub views_record : Record
views_record = (codes "views", integer (pos 7)) ∷ []

-- NOT (views > 9) AND views >= 3 AND views BETWEEN 7 AND 7
abbrev pub where_views : Predicate
where_views =
    binary and
      (binary and (unary (comparison greater views (number 9)))
        (comparison greater_or_equal views (number 3)))
      (between views (number 7) (number 7) false)

abbrev pub where_seven : Predicate
where_seven = comparison equals views (number 7)
