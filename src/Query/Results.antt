-- ===== src/Query/Results.antt =====
-- yt_media_tools/query_evaluator.py: the body of a query without aggregates, on plain records:
-- WHERE, ORDER BY, DISTINCT, OFFSET, LIMIT and POSITION(). Terms are fields, not expressions.
pub mod Ranks
pub mod Orders
pub mod Distinct
pub mod Positions
use yt_media_tools.Prelude.{
  ℕ, suc, ◌+◌, compare, Ordering, Bool, true, false, not, ◌||◌, Option, none, some, List, [], ◌∷◌,
  ◌++◌, Text, any, all, keep, take, drop, if◌then◌else◌,
}
use yt_media_tools.Prelude.Order.{pos, compare_text, flip}
use yt_media_tools.Sorting.Defs.{sort}
use yt_media_tools.Query.Value.{
  Value, null, boolean, integer, text, day, instant, compare_values, is_null,
}
use yt_media_tools.Query.Model.{Field, Predicate}
use yt_media_tools.Query.Evaluator.{Runtime, Record, record_value, accepts_record}
use yt_media_tools.Query.Relations.{equal_lists}

pub record OrderTerm : Type 0 where
  pub field : Field
  pub descending : Bool

-- a column under its output name, or POSITION()
pub data SelectTerm : Type 0 where
  column : Text → Field → SelectTerm
  position : Text → SelectTerm

pub record Query : Type 0 where
  pub predicate : Option Predicate
  pub order_by : List OrderTerm
  pub select : List SelectTerm
  pub distinct : Bool
  pub limit : Option ℕ
  pub offset : ℕ

-- `str` of a value, and the order in which a `list.sort` that raised TypeError leaves its list
pub record SortRuntime : Type 0 where
  pub str : Value → Text
  pub after_failed_sort : List Record → List Record

-- the type of a value, of which `<` accepts two alike
abbrev pub type_rank : Value → ℕ
type_rank null = 0
type_rank (boolean b) = 1
type_rank (integer i) = 1
type_rank (text s) = 2
type_rank (day d) = 3
type_rank (instant t) = 4

-- The order of values of one type. Values of different types are never sorted by it.
unfoldable pub value_order : Value → Value → Ordering
unfolding compare_values
value_order v w = elim (compare_values v w) [
  | some o ↦ o
  | none ↦ compare (type_rank v) (type_rank w)
]

abbrev pub directed : Bool → Ordering → Ordering
directed true o = flip o
directed false o = o

abbrev pub has_value : OrderTerm → Record → Bool
has_value term r = not (is_null (record_value r term.field))

-- whether `<` between the term's values of two rows raises no TypeError
unfoldable pub compares : OrderTerm → Record → Record → Bool
unfolding record_value compare_values
compares term a b =
    not (has_value term a)
    || (not (has_value term b)
        || elim (compare_values (record_value a term.field) (record_value b term.field)) [
          | some o ↦ true
          | none ↦ false
        ])

-- A sort raises TypeError exactly if two of the values do not compare: the comparisons that it
-- makes connect all rows, so that some of them are between values of different types.
unfoldable pub sortable : OrderTerm → List Record → Bool
unfolding compares
sortable term rows = all (λ a. all (λ b. compares term a b) rows) rows

unfoldable pub by_value : OrderTerm → Record → Record → Ordering
unfolding record_value value_order
by_value term a b =
    directed term.descending (value_order (record_value a term.field) (record_value b term.field))

-- the columns' values, which DISTINCT compares
unfoldable pub distinct_key : List SelectTerm → Record → List Value
unfolding record_value
distinct_key [] r = []
distinct_key (column name field ∷ select) r = record_value r field ∷ distinct_key select r
distinct_key (position name ∷ select) r = distinct_key select r

-- the loop of DISTINCT with its set `seen`
unfoldable pub distinct_rows : List SelectTerm → List (List Value) → List Record → List Record
unfolding distinct_key equal_lists
distinct_rows select seen [] = []
distinct_rows select seen (r ∷ rows) =
    let key = distinct_key select r in
    let skipped = distinct_rows select seen rows in
    let kept = r ∷ distinct_rows select (key ∷ seen) rows in
    if any (equal_lists key) seen then skipped else kept

abbrev pub position_names : List SelectTerm → List Text
position_names [] = []
position_names (column name field ∷ select) = position_names select
position_names (position name ∷ select) = name ∷ position_names select

-- `{**row, **{name: index for name in names}}`, where the first entry of a name counts
abbrev pub with_positions : List Text → ℕ → Record → Record
with_positions [] index r = r
with_positions (name ∷ names) index r = (name, integer (pos index)) ∷ with_positions names index r

-- `enumerate(rows, start=index)`
unfoldable pub number_rows : List Text → ℕ → List Record → List Record
number_rows names index [] = []
number_rows names index (r ∷ rows) =
    with_positions names index r ∷ number_rows names (suc index) rows

abbrev pub take_limit {ℓ} : {A : Type ℓ} → Option ℕ → List A → List A
take_limit none rows = rows
take_limit (some n) rows = take n rows

-- `_slice_final_result`; numbering by no names leaves the rows as they are
unfoldable pub slice_final_result : Query → List Record → List Record
unfolding number_rows
slice_final_result q rows =
    number_rows (position_names q.select) (q.offset + 1) (take_limit q.limit (drop q.offset rows))

module _ ⦃srt : SortRuntime⦄ where
  unfoldable pub by_text : OrderTerm → Record → Record → Ordering
  unfolding record_value compare_text
  by_text term a b =
      directed term.descending
        (compare_text (srt.str (record_value a term.field)) (srt.str (record_value b term.field)))

  -- one round of ORDER BY
  unfoldable pub order_pass : OrderTerm → List Record → List Record
  unfolding sortable by_value by_text sort
  order_pass term rows =
      let present = keep (has_value term) rows in
      let missing = keep (λ r. not (has_value term r)) rows in
      if sortable term rows
      then sort (by_value term) present ++ missing
      else sort (by_text term) (srt.after_failed_sort present) ++ missing

  -- `for term in reversed(query.order_by)`
  unfoldable pub order_rows : List OrderTerm → List Record → List Record
  unfolding order_pass
  order_rows [] rows = rows
  order_rows (term ∷ terms) rows = order_pass term (order_rows terms rows)

  -- `_apply_query_body`
  unfoldable pub apply_query_body : ⦃rt : Runtime⦄ → Query → List Record → List Record
  unfolding accepts_record order_rows distinct_rows slice_final_result
  apply_query_body q records =
      let accepted = keep (accepts_record q.predicate) records in
      let ordered = order_rows q.order_by accepted in
      let result = if q.distinct then distinct_rows q.select [] ordered else ordered in
      slice_final_result q result
