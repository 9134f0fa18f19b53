-- ===== src/Query/Results/Distinct.antt =====
-- DISTINCT keeps the first row of each key.
use yt_media_tools.Prelude.{
  ◌≡◌, refl, ap, ◌&&◌, Bool, true, List, [], ◌∷◌, any, keep, take, arith, if◌then◌else◌,
}
use mathlib.Core.Path.{subst, fun_ext}
use yt_media_tools.Query.Value.{Value, equal_values}
use yt_media_tools.Query.Evaluator.{Record, record_value}
use yt_media_tools.Query.Relations.{equal_lists}
use yt_media_tools.Query.Relations.Equality.{equal_lists_of_equal}
use yt_media_tools.Query.Results.{SelectTerm, column, position, distinct_key, distinct_rows}

-- whether a row has the values of `a` in the selected columns
abbrev pub same_columns : List SelectTerm → Record → Record → Bool
same_columns [] a r = true
same_columns (column name field ∷ select) a r =
    equal_values (record_value a field) (record_value r field) && same_columns select a r
same_columns (position name ∷ select) a r = same_columns select a r

-- the keys of two rows are equal exactly if the rows agree in every selected column
equal_lists-distinct_key :
    (select : List SelectTerm) (a r : Record)
    → equal_lists (distinct_key select a) (distinct_key select r) ≡ same_columns select a r
unfolding distinct_key equal_lists
equal_lists-distinct_key [] a r = refl
equal_lists-distinct_key (column name field ∷ select) a r =
    ap (λ b. equal_values (record_value a field) (record_value r field) && b)
      (equal_lists-distinct_key select a r)
equal_lists-distinct_key (position name ∷ select) a r = equal_lists-distinct_key select a r

abbrev same_key_as : List SelectTerm → Record → Record → Bool
same_key_as select a r = equal_lists (distinct_key select a) (distinct_key select r)

any_of_equal :
    (j k : List Value) (seen : List (List Value))
    → equal_lists j k ≡ true
    → any (equal_lists j) seen ≡ any (equal_lists k) seen
any_of_equal j k [] h = refl
any_of_equal j k (s ∷ seen) h = rw (equal_lists_of_equal j k s h, any_of_equal j k seen h) refl

distinct_rows-seen :
    (select : List SelectTerm) (a : Record) (seen : List (List Value)) (rows : List Record)
    → keep (same_key_as select a) (distinct_rows select seen rows) ≡ (
        if any (equal_lists (distinct_key select a)) seen
        then []
        else take 1 (keep (same_key_as select a) rows))
unfolding distinct_rows
distinct_rows-seen select a seen [] = ground arith
distinct_rows-seen select a seen (r ∷ rows) = ground (
  arith,
  distinct_rows-seen select a seen rows,
  distinct_rows-seen select a (distinct_key select r ∷ seen) rows,
  any_of_equal (distinct_key select a) (distinct_key select r) seen,
)

-- DISTINCT keeps, of the rows with given values in the selected columns, exactly the first one.
pub distinct_rows-first :
    (select : List SelectTerm) (a : Record) (rows : List Record)
    → keep (same_columns select a) (distinct_rows select [] rows)
      ≡ take 1 (keep (same_columns select a) rows)
distinct_rows-first select a rows =
    let e : same_key_as select a ≡ same_columns select a =
      fun_ext (equal_lists-distinct_key select a) in
    subst
      (λ (same : Record → Bool). keep same (distinct_rows select [] rows) ≡ take 1 (keep same rows))
      e (distinct_rows-seen select a [] rows)
