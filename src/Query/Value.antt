-- ===== src/Query/Value.antt =====
-- The values that yt-sql compares, with Python's `==` and `<` on them. A mismatch of types is
-- Python's TypeError. Floats, lists, dicts and the temporal infinities are not modelled.
pub mod Laws
pub mod Equality
use yt_media_tools.Prelude.{
  ℕ, compare, Ordering, Bool, true, false, not, Option, none, some, Text, if◌then◌else◌,
}
use yt_media_tools.Prelude.Order.{ℤ, pos, compare_ℤ, compare_text}

-- A `day` is a `date` by its ordinal; an `instant` is an aware `datetime`, in microseconds.
pub data Value : Type 0 where
  null : Value
  boolean : Bool → Value
  integer : ℤ → Value
  text : Text → Value
  day : ℕ → Value
  instant : ℕ → Value

-- What a comparison sees of a value: a Python `bool` is the `int` 0 or 1.
pub data Key : Type 0 where
  absent : Key
  number : ℤ → Key
  characters : Text → Key
  calendar : ℕ → Key
  clock : ℕ → Key

unfoldable pub key : Value → Key
key null = absent
key (boolean b) = number (pos (if b then 1 else 0))
key (integer i) = number i
key (text s) = characters s
key (day d) = calendar d
key (instant t) = clock t

-- `none` is the TypeError that `<` raises between values of different types, and at None.
unfoldable pub compare_keys : Key → Key → Option Ordering
unfolding compare_ℤ compare_text
compare_keys (number i) (number j) = some (compare_ℤ i j)
compare_keys (characters s) (characters t) = some (compare_text s t)
compare_keys (calendar d) (calendar e) = some (compare d e)
compare_keys (clock t) (clock u) = some (compare t u)
compare_keys _ _ = none

unfoldable pub compare_values : Value → Value → Option Ordering
unfolding key compare_keys
compare_values v w = compare_keys (key v) (key w)

abbrev pub is_null : Value → Bool
is_null null = true
is_null _ = false

-- `v == w`, which is false between types and never raises
unfoldable pub equal_values : Value → Value → Bool
equal_values v w = elim (compare_values v w) [
  | some o ↦ elim o [ Ordering.eq ↦ true | _ ↦ false ]
  | none ↦ if is_null v then is_null w else false
]

pub data Operator : Type 0 where
  equals differs less less_or_equal greater greater_or_equal : Operator

-- the outcomes of a comparison at which an ordering operator holds
abbrev pub accepts : Operator → Ordering → Bool
accepts equals Ordering.eq = true
accepts differs Ordering.lt = true
accepts differs Ordering.gt = true
accepts less Ordering.lt = true
accepts less_or_equal Ordering.lt = true
accepts less_or_equal Ordering.eq = true
accepts greater Ordering.gt = true
accepts greater_or_equal Ordering.gt = true
accepts greater_or_equal Ordering.eq = true
accepts _ _ = false

abbrev pub ordered : Operator → Option Ordering → Bool
ordered op none = false
ordered op (some o) = accepts op o

-- `v op w` inside `try: … except TypeError: return False`
unfoldable pub holds : Operator → Value → Value → Bool
holds equals v w = equal_values v w
holds differs v w = not (equal_values v w)
holds op v w = ordered op (compare_values v w)
