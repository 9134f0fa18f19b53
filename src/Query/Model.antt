-- ===== src/Query/Model.antt =====
-- yt_media_tools/query_model.py: the resolved WHERE predicates over one relation. Source positions
-- and the raw spelling of a literal, which no evaluation reads, are left out, and so are the
-- predicates over scalar expressions (ScalarComparison, ScalarIsNull, CollectionPredicate).
use yt_media_tools.Prelude.{Bool, Option, List, Text}
use yt_media_tools.Query.Value.{Value, Operator}

pub record Field : Type 0 where
  pub name : Text
  pub kind : Option Text

pub record Literal : Type 0 where
  pub value : Value
  pub quoted : Bool

pub data Connective : Type 0 where
  and or : Connective

pub data TextOperator : Type 0 where
  contains matches like ilike : TextOperator

-- A truth value is `bool | None`, where None is UNKNOWN.
abbrev pub Truth : Type 0
Truth = Option Bool

-- The last argument of each test that has one is `negated`. `unary` is NOT, the only operator that
-- the parser gives it; `binary` is a `Binary` with AND or OR, and `comparison` one with any other
-- operator. The pattern of a text predicate is its literal's text, with the literal's `quoted`.
pub data Predicate : Type 0 where
  truth_literal : Truth → Predicate
  unary : Predicate → Predicate
  binary : Connective → Predicate → Predicate → Predicate
  comparison : Operator → Field → Literal → Predicate
  between : Field → Literal → Literal → Bool → Predicate
  in_list : Field → List Literal → Bool → Predicate
  null_test : Field → Bool → Predicate
  text_predicate : TextOperator → Field → Text → Bool → Bool → Predicate
  truth_test : Predicate → Truth → Bool → Predicate
