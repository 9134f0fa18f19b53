-- ===== src/Query/Value/Laws.antt =====
-- What comparing values obeys where it raises no TypeError.
use yt_media_tools.Prelude.{◌≡◌, refl, Ordering, true, Option, none, some, arith}
use yt_media_tools.Prelude.Order.{
  consistent, cmp-consistent, compare-IsTotalOrder, compare_ℤ-IsTotalOrder,
  compare_text-IsTotalOrder, compare_ℤ, compare_text,
}
use yt_media_tools.Prelude.{compare}
use yt_media_tools.Query.Value.{
  Value, Key, number, characters, calendar, clock, key, compare_keys, compare_values, equal_values,
  is_null, null,
}

compare_keys-same : (k l : Key) → compare_keys k l ≡ some Ordering.eq → k ≡ l
unfolding compare_keys
compare_keys-same (number i) (number j) h = ground (arith, compare_ℤ-IsTotalOrder.same i j)
compare_keys-same (characters s) (characters t) h =
    ground (arith, compare_text-IsTotalOrder.same s t)
compare_keys-same (calendar d) (calendar e) h = ground (arith, compare-IsTotalOrder.same d e)
compare_keys-same (clock d) (clock e) h = ground (arith, compare-IsTotalOrder.same d e)
compare_keys-same _ _ h = cc

-- How the comparisons of `k` with `a` and with `b` may fall out when `a` and `b` compare.
abbrev pub Together : Option Ordering → Option Ordering → Option Ordering → Type 0
Together x y none = Unit
Together none none (some o) = Unit
Together (some x) (some y) (some o) = consistent x y o ≡ true
Together _ _ (some o) = ⊥

compare_keys-Together :
    (k a b : Key) → Together (compare_keys k a) (compare_keys k b) (compare_keys a b)
unfolding compare_keys
compare_keys-Together (number k) (number a) (number b) =
    cmp-consistent compare_ℤ k a b compare_ℤ-IsTotalOrder
compare_keys-Together (characters k) (characters a) (characters b) =
    cmp-consistent compare_text k a b compare_text-IsTotalOrder
compare_keys-Together (calendar k) (calendar a) (calendar b) =
    cmp-consistent compare k a b compare-IsTotalOrder
compare_keys-Together (clock k) (clock a) (clock b) =
    cmp-consistent compare k a b compare-IsTotalOrder
compare_keys-Together _ _ _ = ground arith

-- Literals that compare are compared with any value alike: both raise, or the three agree.
pub compare_values-Together :
    (v a b : Value) → Together (compare_values v a) (compare_values v b) (compare_values a b)
unfolding compare_values
compare_values-Together v a b = compare_keys-Together (key v) (key a) (key b)

null_key : (v w : Value) → is_null v ≡ true → is_null w ≡ true → key v ≡ key w
unfolding key
null_key null null h k = refl
null_key _ _ h k = cc

-- Values that are `==` are compared alike with everything.
pub key_of_equal : (v w : Value) → equal_values v w ≡ true → key v ≡ key w
unfolding equal_values compare_values
key_of_equal v w h = ground (arith, compare_keys-same (key v) (key w), null_key v w)
