-- ===== src/Query/Results/Ranks.antt =====
-- The order that one ORDER BY term asks for, with the rows without a value last.
use yt_media_tools.Prelude.{compare, Ordering, ◌≡◌, refl, List, [], ◌∷◌, arith, if◌then◌else◌}
use yt_media_tools.Prelude.Order.{
  compare-IsTotalOrder, compare_ℤ-IsTotalOrder, compare_text-IsTotalOrder, compare_ℤ, compare_text,
  flip,
}
use yt_media_tools.Sorting.Defs.{IsRanking, then_by}
use yt_media_tools.Sorting.Stages.{then_by-IsRanking}
use yt_media_tools.Query.Value.{
  Value, Key, absent, number, characters, calendar, clock, key, compare_keys, compare_values,
}
use yt_media_tools.Query.Evaluator.{Record, record_value}
use yt_media_tools.Query.Results.{OrderTerm, value_order, by_value, has_value}

key_rank : Key → Key → Ordering
key_rank (number i) (number j) = compare_ℤ i j
key_rank (characters s) (characters t) = compare_text s t
key_rank (calendar d) (calendar e) = compare d e
key_rank (clock t) (clock u) = compare t u
key_rank absent absent = Ordering.eq
key_rank absent _ = Ordering.lt
key_rank _ absent = Ordering.gt
key_rank (number i) _ = Ordering.lt
key_rank _ (number i) = Ordering.gt
key_rank (characters i) _ = Ordering.lt
key_rank _ (characters i) = Ordering.gt
key_rank (calendar i) _ = Ordering.lt
key_rank _ (calendar i) = Ordering.gt

value_order-key_rank : (v w : Value) → value_order v w ≡ key_rank (key v) (key w)
unfolding value_order compare_values key key_rank compare_keys
value_order-key_rank v w = ground arith

key_rank-turn : (k l : Key) → key_rank l k ≡ flip (key_rank k l)
unfolding key_rank
key_rank-turn (number i) (number j) = compare_ℤ-IsTotalOrder.turn i j
key_rank-turn (characters i) (characters j) = compare_text-IsTotalOrder.turn i j
key_rank-turn (calendar i) (calendar j) = compare-IsTotalOrder.turn i j
key_rank-turn (clock i) (clock j) = compare-IsTotalOrder.turn i j
key_rank-turn _ _ = ground arith

key_rank-same : (k l : Key) → key_rank k l ≡ Ordering.eq → k ≡ l
unfolding key_rank
key_rank-same (number i) (number j) h = ground (arith, compare_ℤ-IsTotalOrder.same i j)
key_rank-same (characters i) (characters j) h = ground (arith, compare_text-IsTotalOrder.same i j)
key_rank-same (calendar i) (calendar j) h = ground (arith, compare-IsTotalOrder.same i j)
key_rank-same (clock i) (clock j) h = ground (arith, compare-IsTotalOrder.same i j)
key_rank-same _ _ h = ground arith

key_rank_trans :
    (x y z : Key)
    → key_rank x y ≡ Ordering.lt
    → key_rank y z ≡ Ordering.lt
    → key_rank x z ≡ Ordering.lt
unfolding key_rank
key_rank_trans (number i) (number j) (number k) h g = compare_ℤ-IsTotalOrder.trans i j k h g
key_rank_trans (characters i) (characters j) (characters k) h g =
    compare_text-IsTotalOrder.trans i j k h g
key_rank_trans (calendar i) (calendar j) (calendar k) h g = compare-IsTotalOrder.trans i j k h g
key_rank_trans (clock i) (clock j) (clock k) h g = compare-IsTotalOrder.trans i j k h g
key_rank_trans _ _ _ h g = ground arith

value_order-IsRanking : IsRanking value_order
value_order-IsRanking = record {
  turn =
      λ x y. cc (value_order-key_rank x y, value_order-key_rank y x, key_rank-turn (key x) (key y));
  level = λ x y z h. ground (
    arith,
    value_order-key_rank x y,
    value_order-key_rank x z,
    value_order-key_rank y z,
    key_rank-same (key x) (key y),
  );
  trans = λ x y z h g. ground (
    arith,
    value_order-key_rank x y,
    value_order-key_rank x z,
    value_order-key_rank y z,
    key_rank_trans (key x) (key y) (key z),
  );
}

-- The order of a term: values in its direction, and rows without a value last.
unfoldable pub rank : OrderTerm → Record → Record → Ordering
unfolding by_value
rank term a b =
    if has_value term a
    then (if has_value term b then by_value term a b else Ordering.lt)
    else (if has_value term b then Ordering.gt else Ordering.eq)

rank-turn : (t : OrderTerm) (x y : Record) → rank t y x ≡ flip (rank t x y)
unfolding rank by_value
rank-turn t x y =
    ground (arith, value_order-IsRanking.turn (record_value x t.field) (record_value y t.field))

rank-level : (t : OrderTerm) (x y z : Record) → rank t x y ≡ Ordering.eq → rank t x z ≡ rank t y z
unfolding rank by_value
rank-level t x y z h = ground (
  arith,
  value_order-IsRanking.level (record_value x t.field) (record_value y t.field)
      (record_value z t.field),
)

rank_trans :
    (t : OrderTerm) (x y z : Record)
    → rank t x y ≡ Ordering.lt
    → rank t y z ≡ Ordering.lt
    → rank t x z ≡ Ordering.lt
unfolding rank by_value
rank_trans t x y z h g = ground (
  arith,
  value_order-IsRanking.trans (record_value x t.field) (record_value y t.field)
      (record_value z t.field),
  value_order-IsRanking.trans (record_value z t.field) (record_value y t.field)
      (record_value x t.field),
  value_order-IsRanking.turn (record_value x t.field) (record_value y t.field),
  value_order-IsRanking.turn (record_value x t.field) (record_value z t.field),
  value_order-IsRanking.turn (record_value y t.field) (record_value z t.field),
)

pub rank-IsRanking : (term : OrderTerm) → IsRanking (rank term)
rank-IsRanking term = record {
  turn = rank-turn term;
  level = rank-level term;
  trans = rank_trans term;
}

-- The order of all terms, the first one first.
unfoldable pub rank_by : List OrderTerm → Record → Record → Ordering
unfolding rank
rank_by [] = λ a b. Ordering.eq
rank_by (term ∷ terms) = then_by (rank term) (rank_by terms)

pub rank_by-IsRanking : (terms : List OrderTerm) → IsRanking (rank_by terms)
unfolding rank_by
rank_by-IsRanking [] = record {
  turn = λ x y. refl;
  level = λ x y z h. refl;
  trans = λ x y z h g. h;
}
rank_by-IsRanking (term ∷ terms) =
    then_by-IsRanking (rank term) (rank_by terms) (rank-IsRanking term) (rank_by-IsRanking terms)
