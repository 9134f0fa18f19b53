-- ===== src/Query/Value/Equality.antt =====
-- Python's `==` on the modelled values is an equivalence.
use yt_media_tools.Prelude.{◌≡◌, Ordering, true, Option, none, some, arith}
use yt_media_tools.Prelude.Order.{
  compare-IsTotalOrder, compare_ℤ-IsTotalOrder, compare_text-IsTotalOrder,
}
use yt_media_tools.Query.Value.{
  Value, Key, number, characters, calendar, clock, key, compare_keys, compare_values, equal_values,
  holds, less_or_equal, greater_or_equal, is_null,
}
use yt_media_tools.Query.Value.Laws.{key_of_equal}

abbrev IsTurned : Option Ordering → Option Ordering → Type 0
IsTurned none none = Unit
IsTurned (some Ordering.eq) (some Ordering.eq) = Unit
IsTurned (some Ordering.lt) (some Ordering.gt) = Unit
IsTurned (some Ordering.gt) (some Ordering.lt) = Unit
IsTurned _ _ = ⊥

compare_keys-turn : (k l : Key) → IsTurned (compare_keys k l) (compare_keys l k)
unfolding compare_keys
compare_keys-turn (number i) (number j) = ground (arith, compare_ℤ-IsTotalOrder.turn i j)
compare_keys-turn (characters i) (characters j) = ground (arith, compare_text-IsTotalOrder.turn i j)
compare_keys-turn (calendar i) (calendar j) = ground (arith, compare-IsTotalOrder.turn i j)
compare_keys-turn (clock i) (clock j) = ground (arith, compare-IsTotalOrder.turn i j)
compare_keys-turn _ _ = ground arith

pub equal_values_comm : (v w : Value) → equal_values v w ≡ equal_values w v
unfolding equal_values compare_values
equal_values_comm v w = ground (arith, compare_keys-turn (key v) (key w))

is_null_of_key : (v w : Value) → key v ≡ key w → is_null v ≡ is_null w
unfolding key
is_null_of_key v w h = ground arith

pub equal_values_of_equal :
    (v w u : Value) → equal_values v w ≡ true → equal_values v u ≡ equal_values w u
unfolding equal_values compare_values
equal_values_of_equal v w u h =
    ground (arith, key_of_equal v w h, is_null_of_key v w (key_of_equal v w h))

-- a bound read from either side
pub holds-turn : (v w : Value) → holds less_or_equal v w ≡ holds greater_or_equal w v
unfolding holds compare_values
holds-turn v w = ground (arith, compare_keys-turn (key v) (key w))
