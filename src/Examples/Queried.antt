-- ===== src/Examples/Queried.antt =====
-- Small relations and rows, and the theorems on joins, ordering, DISTINCT and LIMIT at them.
use yt_media_tools.Prelude.{
  ℕ, true, false, none, some, List, [], ◌∷◌, Text, codes, any, keep, if◌then◌else◌, take, ◌≡◌, refl,
  arith, ◌++◌,
}
use yt_media_tools.Prelude.Order.{pos}
use mathlib.Core.List.{Perm}
use mathlib.Core.List.Perm
use yt_media_tools.Sorting.Defs.{IsSorted, tied}
use yt_media_tools.Query.Value.{Value, integer, text, equals, greater, compare_values}
use yt_media_tools.Query.Like.{equal_text}
use yt_media_tools.Query.Model.{Field, comparison}
use yt_media_tools.Query.Evaluator.{Record, accepts_record, record_value}
use yt_media_tools.Query.Relations.{
  scalar, collection, Row, RelationField, relation_field, ordinary, scalar_comparison,
}
use yt_media_tools.Query.Joins.{
  joins, anti, left_outer, keeps, apply_existence_join, apply_row_producing_join,
}
use yt_media_tools.Query.Indexes.{Join}
use yt_media_tools.Query.Joins.Laws.{
  apply_existence_join-keep, joined_rows, apply_row_producing_join-joined_rows,
}
use yt_media_tools.Query.Results.{
  OrderTerm, SelectTerm, column, position, with_positions, slice_final_result, Query, SortRuntime,
  sortable, order_rows, distinct_rows, apply_query_body,
}
use yt_media_tools.Query.Results.Ranks.{rank, rank_by}
use yt_media_tools.Query.Results.Orders.{order_rows-Perm, order_rows-IsSorted}
use yt_media_tools.Query.Results.Positions.{nth, positioned, slice_final_result-rows}
use yt_media_tools.Query.Results.Distinct.{same_columns, distinct_rows-first}
use yt_media_tools.Query.Limits.{Analysis, FacetCapabilities, plan_limit_termination}
use yt_media_tools.Query.Limits.Laws.{InOrder, plan_limit_termination-prefix}
use yt_media_tools.Examples.{plain_runtime, views, number}

abbrev id_of : Text → RelationField
id_of qualifier = record { qualifier = qualifier; name = codes "id" }

abbrev row : ℕ → Row
row n = (codes "id", scalar (integer (pos n))) ∷ []

-- `l JOIN r ON r.id = l.id`
abbrev by_id : Join
by_id = record {
  left_alias = codes "l";
  right_alias = codes "r";
  predicate =
      scalar_comparison (ordinary equals) (relation_field (id_of (codes "r")))
        (relation_field (id_of (codes "l")));
}

abbrev listed_row : Row
listed_row = (codes "id", collection (integer (pos 1) ∷ [])) ∷ []

abbrev left_rows : List Row
left_rows = row 1 ∷ (row 2 ∷ ([] ∷ []))

abbrev right_rows : List Row
right_rows = row 2 ∷ (row 3 ∷ (row 2 ∷ []))

aliases_differ : equal_text (codes "l") (codes "r") ≡ false
unfolding equal_text
aliases_differ = refl

apply_existence_join-keep_example :
    apply_existence_join true by_id anti left_rows right_rows
    ≡ keep (λ l. keeps anti (any (joins by_id l) right_rows)) left_rows
apply_existence_join-keep_example =
    apply_existence_join-keep true by_id anti left_rows right_rows aliases_differ

apply_row_producing_join-joined_rows_example :
    apply_row_producing_join true by_id left_outer left_rows (listed_row ∷ right_rows)
    ≡ joined_rows by_id left_outer (listed_row ∷ right_rows) left_rows
apply_row_producing_join-joined_rows_example =
    apply_row_producing_join-joined_rows true by_id left_outer left_rows (listed_row ∷ right_rows)
      aliases_differ

-- the rows that the fast path keeps
anti_rows : apply_existence_join true by_id anti left_rows right_rows ≡ row 1 ∷ ([] ∷ [])
unfolding apply_existence_join
anti_rows = refl

abbrev plain_sorts : SortRuntime
plain_sorts = record { str = λ (v : Value). []; after_failed_sort = λ (l : List Record). l }

abbrev by_views : OrderTerm
by_views = record { field = views; descending = true }

abbrev viewed : ℕ → Record
viewed n = (codes "views", integer (pos n)) ∷ []

abbrev mixed_records : List Record
mixed_records = viewed 3 ∷ (((codes "views", text (codes "many")) ∷ []) ∷ (viewed 7 ∷ []))

abbrev number_records : List Record
number_records = viewed 3 ∷ ([] ∷ (viewed 7 ∷ (viewed 3 ∷ [])))

numbers_compare : sortable by_views number_records ≡ true
unfolding sortable
numbers_compare = refl

order_rows-Perm_example :
    Perm (order_rows ⦃srt = plain_sorts⦄ (by_views ∷ []) mixed_records) mixed_records
order_rows-Perm_example =
    order_rows-Perm ⦃srt = plain_sorts⦄ (by_views ∷ []) mixed_records (λ l. Perm.rfl)

order_rows-IsSorted_example :
    IsSorted
      (rank_by (by_views ∷ []))
      (order_rows ⦃srt = plain_sorts⦄ (by_views ∷ []) number_records)
    × ((a : Record)
        → keep
            (tied (rank_by (by_views ∷ [])) a)
            (order_rows ⦃srt = plain_sorts⦄ (by_views ∷ []) number_records)
          ≡ keep (tied (rank_by (by_views ∷ [])) a) number_records)
order_rows-IsSorted_example =
    order_rows-IsSorted ⦃srt = plain_sorts⦄ (by_views ∷ []) number_records (numbers_compare, tt)

ordered_numbers :
    order_rows ⦃srt = plain_sorts⦄ (by_views ∷ []) number_records
    ≡ viewed 7 ∷ (viewed 3 ∷ (viewed 3 ∷ ([] ∷ [])))
unfolding order_rows
ordered_numbers = refl

abbrev views_column : List SelectTerm
views_column = column (codes "views") views ∷ []

distinct_rows-first_example :
    keep (same_columns views_column (viewed 3)) (distinct_rows views_column [] number_records)
    ≡ take 1 (keep (same_columns views_column (viewed 3)) number_records)
distinct_rows-first_example = distinct_rows-first views_column (viewed 3) number_records

-- SELECT views, POSITION() AS n LIMIT 2 OFFSET 1
abbrev numbered : Query
numbered = record {
  predicate = none;
  order_by = [];
  select = position (codes "n") ∷ views_column;
  distinct = false;
  limit = some 2;
  offset = 1;
}

slice_final_result-rows_example :
    (nth (slice_final_result numbered number_records) 1
      ≡ positioned (codes "n" ∷ []) 3 (some (viewed 7)))
    × ((r : Record) (field : Field)
        → record_value (with_positions (codes "n" ∷ []) 3 r) field ≡ (
            if any (equal_text field.name) (codes "n" ∷ [])
            then integer (pos 3)
            else record_value r field))
slice_final_result-rows_example = slice_final_result-rows numbered number_records 1

-- a stable facet in the order of its views
abbrev ordered_facet : FacetCapabilities
ordered_facet = record {
  stable_collection = true;
  trustworthy_order_field = some (codes "views");
  cheaply_enumerates_identities = true;
}

-- SELECT views WHERE views > 2 ORDER BY views LIMIT 1
abbrev first_viewed : Query
first_viewed = record {
  predicate = some (comparison greater views (number 2));
  order_by = record { field = views; descending = false } ∷ [];
  select = views_column;
  distinct = false;
  limit = some 1;
  offset = 0;
}

abbrev simple_analysis : Analysis
simple_analysis = record {
  has_ctes = false;
  has_set_operations = false;
  requires_aggregation = false;
  has_volatile_expressions = false;
  has_dynamic_fields = false;
  needs_detailed_metadata = true;
  source = some ordered_facet;
  stages = none;
}

abbrev seen_rows : List Record
seen_rows = viewed 1 ∷ (viewed 3 ∷ [])

in_order :
    (term : OrderTerm)
    → term.field.name ≡ codes "views"
    → term.descending ≡ false
    → InOrder term (seen_rows ++ (viewed 5 ∷ []))
unfolding sortable rank
in_order term e d = rw (e, d) (refl, ((λ h. cc h, (λ h. cc h, tt)), ((λ h. cc h, tt), (tt, tt))))

plan_limit_termination-prefix_example :
    apply_query_body ⦃srt = plain_sorts⦄ ⦃rt = plain_runtime⦄ first_viewed
      (seen_rows ++ (viewed 5 ∷ []))
    ≡ apply_query_body ⦃srt = plain_sorts⦄ ⦃rt = plain_runtime⦄ first_viewed seen_rows
unfolding plan_limit_termination accepts_record compare_values
plan_limit_termination-prefix_example =
    plan_limit_termination-prefix ⦃rt = plain_runtime⦄ ⦃srt = plain_sorts⦄ first_viewed
      simple_analysis seen_rows (viewed 5 ∷ []) (λ name term c o f d. in_order term (cc (f, o)) d)
      refl (omega arith)
