-- ===== src/Optimizer/Sound/Regular.antt =====
-- Where the optimiser may be trusted: the comparisons that raise no TypeError and fold no case.
use yt_media_tools.Prelude.{Bool, true, false, not, ◌&&◌, ◌||◌, all, none, some}
use yt_media_tools.Query.Value.{
  Value, null, text, Operator, equals, differs, is_null, compare_values, equal_values,
}
use yt_media_tools.Query.Model.{
  Literal, Predicate, truth_literal, unary, binary, comparison, between, in_list, null_test,
  text_predicate, truth_test,
}
use yt_media_tools.Query.Evaluator.{Runtime, Record, record_value, ignores_case}

abbrev pub comparable : Value → Value → Bool
comparable v w = elim (compare_values v w) [ none ↦ false | some _ ↦ true ]

abbrev pub is_equality : Operator → Bool
is_equality equals = true
is_equality differs = true
is_equality _ = false

abbrev pub is_textual : Value → Bool
is_textual null = true
is_textual (text s) = true
is_textual _ = false

module _ ⦃rt : Runtime⦄ where
  -- An ordering comparison is regular where it raises no TypeError and folds no case; a collapsible
  -- BETWEEN, where it folds no case and its bound is no NULL; an IN, where it lists no NULL; a text
  -- test, on a text or NULL.
  unfoldable pub is_regular : Predicate → Record → Bool
  is_regular (truth_literal t) r = true
  is_regular (unary p) r = is_regular p r
  is_regular (binary op p q) r = is_regular p r && is_regular q r
  is_regular (comparison op f a) r =
      is_equality op
      || (not (ignores_case f)
          && (is_null (record_value r f)
              || is_null a.value
              || comparable (record_value r f) a.value))
  is_regular (between f a b n) r =
      not (equal_values a.value b.value) || (not (ignores_case f) && not (is_null a.value))
  is_regular (in_list f items n) r = all (λ (a : Literal). not (is_null a.value)) items
  is_regular (null_test f n) r = true
  is_regular (text_predicate op f s k n) r = is_textual (record_value r f)
  is_regular (truth_test p t n) r = is_regular p r
