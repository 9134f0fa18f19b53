-- ===== src/Query/Semantics.antt =====
-- yt_media_tools/query_semantics.py: semantic identity of fields, literals and predicates. Source
-- positions are no part of the model, so that the `==` of the dataclasses is the same test.
pub mod Laws
use yt_media_tools.Prelude.{Bool, true, false, ◌&&◌, Option, none, some, List, [], ◌∷◌, Text, any}
use yt_media_tools.Query.Value.{
  Operator, equals, differs, less, less_or_equal, greater, greater_or_equal, equal_values,
}
use yt_media_tools.Query.Model.{
  Field, Literal, Connective, and, or, TextOperator, contains, matches, like, ilike, Predicate,
  truth_literal, unary, binary, comparison, between, in_list, null_test, text_predicate, truth_test,
}
use yt_media_tools.Query.Like.{equal_text}
use yt_media_tools.Query.Evaluator.{is_truth}

abbrev pub same_bool : Bool → Bool → Bool
same_bool true b = b
same_bool false true = false
same_bool false false = true

abbrev pub same_kind : Option Text → Option Text → Bool
same_kind none none = true
same_kind (some s) (some t) = equal_text s t
same_kind _ _ = false

unfoldable pub same_field : Field → Field → Bool
unfolding equal_text
same_field f g = equal_text f.name g.name && same_kind f.kind g.kind

-- ("literal", value, quoted) == ("literal", value, quoted)
unfoldable pub same_literal : Literal → Literal → Bool
unfolding equal_values
same_literal a b = equal_values a.value b.value && same_bool a.quoted b.quoted

unfoldable pub same_literals : List Literal → List Literal → Bool
unfolding same_literal
same_literals [] [] = true
same_literals (a ∷ items) (b ∷ others) = same_literal a b && same_literals items others
same_literals _ _ = false

abbrev pub same_operator : Operator → Operator → Bool
same_operator equals equals = true
same_operator differs differs = true
same_operator less less = true
same_operator less_or_equal less_or_equal = true
same_operator greater greater = true
same_operator greater_or_equal greater_or_equal = true
same_operator _ _ = false

abbrev pub same_connective : Connective → Connective → Bool
same_connective and and = true
same_connective or or = true
same_connective _ _ = false

abbrev pub same_text_operator : TextOperator → TextOperator → Bool
same_text_operator contains contains = true
same_text_operator matches matches = true
same_text_operator like like = true
same_text_operator ilike ilike = true
same_text_operator _ _ = false

-- `_semantic_key(p) == _semantic_key(q)`
unfoldable pub same_key : Predicate → Predicate → Bool
unfolding same_field same_literals
same_key (truth_literal s) (truth_literal t) = is_truth s t
same_key (unary p) (unary q) = same_key p q
same_key (binary c p p') (binary d q q') = same_connective c d && same_key p q && same_key p' q'
same_key (comparison o f a) (comparison o' g b) =
    same_operator o o' && same_field f g && same_literal a b
same_key (between f a b n) (between g c d m) =
    same_field f g && same_literal a c && same_literal b d && same_bool n m
same_key (in_list f items n) (in_list g others m) =
    same_field f g && same_literals items others && same_bool n m
same_key (null_test f n) (null_test g m) = same_field f g && same_bool n m
same_key (text_predicate o f s k n) (text_predicate o' g t l m) =
    same_text_operator o o' && same_field f g && equal_text s t && same_bool k l && same_bool n m
same_key (truth_test p s n) (truth_test q t m) = same_key p q && is_truth s t && same_bool n m
same_key _ _ = false

-- `_semantic_key(item) in {_semantic_key(value) for value in values}`
unfoldable pub has_literal : Literal → List Literal → Bool
unfolding same_literal
has_literal item values = any (same_literal item) values
