-- ===== src/Query/Results/Positions.antt =====
-- OFFSET, LIMIT and POSITION(): which rows a result holds and how they are numbered.
use yt_media_tools.Prelude.{
  ℕ, zero, suc, ◌+◌, ◌≡◌, refl, ap, ◌∙◌, Bool, true, false, Option, none, some, List, [], ◌∷◌, Text,
  any, take, drop, ltb, arith, if◌then◌else◌,
}
use yt_media_tools.Prelude.Order.{pos}
use yt_media_tools.Query.Like.{equal_text}
use yt_media_tools.Query.Like.Laws.{equal_text_iff}
use yt_media_tools.Query.Value.{integer}
use yt_media_tools.Query.Model.{Field}
use yt_media_tools.Query.Evaluator.{Record, record_value}
use yt_media_tools.Query.Results.{
  Query, position_names, with_positions, number_rows, take_limit, slice_final_result,
}

-- the row at an index
abbrev pub nth {ℓ} : {A : Type ℓ} → List A → ℕ → Option A
nth [] k = none
nth (x ∷ xs) zero = some x
nth (x ∷ xs) (suc k) = nth xs k

-- an index below the LIMIT
abbrev pub within : Option ℕ → ℕ → Bool
within none k = true
within (some n) k = ltb k n

-- a row with its position under the names
abbrev pub positioned : List Text → ℕ → Option Record → Option Record
positioned names index none = none
positioned names index (some r) = some (with_positions names index r)

nth-number_rows :
    (names : List Text) (index : ℕ) (rows : List Record) (k : ℕ)
    → nth (number_rows names index rows) k ≡ positioned names (index + k) (nth rows k)
unfolding number_rows
nth-number_rows names index [] k = refl
nth-number_rows names index (r ∷ rows) zero =
    let e : index ≡ index + 0 = omega arith in ap (λ i. some (with_positions names i r)) e
nth-number_rows names index (r ∷ rows) (suc k) =
    let e : suc index + k ≡ index + suc k = omega arith in
    nth-number_rows names (suc index) rows k ∙ ap (λ i. positioned names i (nth rows k)) e

nth-drop : (m : ℕ) (rows : List Record) (k : ℕ) → nth (drop m rows) k ≡ nth rows (m + k)
nth-drop zero rows k = ap (nth rows) (omega arith)
nth-drop (suc m) [] k = refl
nth-drop (suc m) (r ∷ rows) k =
    let e : suc (m + k) ≡ suc m + k = omega arith in nth-drop m rows k ∙ ap (nth (r ∷ rows)) e

nth-take :
    (n : ℕ) (rows : List Record) (k : ℕ)
    → nth (take n rows) k ≡ (if ltb k n then nth rows k else none)
nth-take zero rows k = ground arith
nth-take (suc n) [] k = ground arith
nth-take (suc n) (r ∷ rows) zero = ground arith
nth-take (suc n) (r ∷ rows) (suc k) = ground (arith, nth-take n rows k)

nth-take_limit :
    (limit : Option ℕ) (rows : List Record) (k : ℕ)
    → nth (take_limit limit rows) k ≡ (if within limit k then nth rows k else none)
nth-take_limit none rows k = refl
nth-take_limit (some n) rows k = nth-take n rows k

record_value-with_positions :
    (names : List Text) (index : ℕ) (r : Record) (field : Field)
    → record_value (with_positions names index r) field
      ≡ (if any (equal_text field.name) names then integer (pos index) else record_value r field)
unfolding record_value
record_value-with_positions [] index r field = refl
record_value-with_positions (name ∷ names) index r field = ground (
  arith,
  record_value-with_positions names index r field,
  equal_text_iff name field.name,
  equal_text_iff field.name name,
)

when_within :
    (names : List Text) (index : ℕ) (inside : Bool) (row : Option Record)
    → positioned names index (if inside then row else none)
      ≡ (if inside then positioned names index row else none)
when_within names index true row = refl
when_within names index false row = refl

-- The row of a result at an index below the LIMIT is the row OFFSET places later, in which each
-- POSITION() is OFFSET + 1 plus the index and every other field is unchanged; from the LIMIT on
-- there is none.
pub slice_final_result-rows :
    (q : Query) (rows : List Record) (k : ℕ)
    → (nth (slice_final_result q rows) k ≡ (
        if within q.limit k
        then positioned (position_names q.select) ((q.offset + 1) + k) (nth rows (q.offset + k))
        else none))
      × ((r : Record) (field : Field)
          → record_value (with_positions (position_names q.select) ((q.offset + 1) + k) r) field ≡ (
              if any (equal_text field.name) (position_names q.select)
              then integer (pos ((q.offset + 1) + k))
              else record_value r field))
unfolding slice_final_result
slice_final_result-rows q rows k =
    let names = position_names q.select in
    (
      nth-number_rows names (q.offset + 1) (take_limit q.limit (drop q.offset rows)) k
          ∙ rw (nth-take_limit q.limit (drop q.offset rows) k, nth-drop q.offset rows k)
              (when_within names ((q.offset + 1) + k) (within q.limit k) (nth rows (q.offset + k))),
      λ r field. record_value-with_positions names ((q.offset + 1) + k) r field,
    )
