-- ===== src/Prelude/Order.antt =====
-- Three-way comparisons of integers and of texts, and what makes one a total order.
use yt_media_tools.Prelude.{
  ℕ, ◌≡◌, refl, ap, [], ◌∷◌, Text, arith, compare, Ordering, Bool, true, false,
}

-- `negsuc n` is -(n + 1).
pub data ℤ : Type 0 where
  pos : ℕ → ℤ
  negsuc : ℕ → ℤ

unfoldable pub compare_ℤ : ℤ → ℤ → Ordering
compare_ℤ (pos m) (pos n) = compare m n
compare_ℤ (pos m) (negsuc n) = Ordering.gt
compare_ℤ (negsuc m) (pos n) = Ordering.lt
compare_ℤ (negsuc m) (negsuc n) = compare n m

-- Python orders strings by their first differing code point.
unfoldable pub compare_text : Text → Text → Ordering
compare_text [] [] = Ordering.eq
compare_text [] (y ∷ ys) = Ordering.lt
compare_text (x ∷ xs) [] = Ordering.gt
compare_text (x ∷ xs) (y ∷ ys) =
    let rest = compare_text xs ys in
    elim (compare x y) [
      | Ordering.eq ↦ rest
      | Ordering.lt ↦ Ordering.lt
      | Ordering.gt ↦ Ordering.gt
    ]

abbrev pub flip : Ordering → Ordering
flip Ordering.lt = Ordering.gt
flip Ordering.eq = Ordering.eq
flip Ordering.gt = Ordering.lt

pub record IsTotalOrder {ℓ} {A : Type ℓ} (cmp : A → A → Ordering) : Type ℓ where
  pub self : (x : A) → cmp x x ≡ Ordering.eq
  pub same : (x y : A) → cmp x y ≡ Ordering.eq → x ≡ y
  pub turn : (x y : A) → cmp y x ≡ flip (cmp x y)
  pub trans : (x y z : A) → cmp x y ≡ Ordering.lt → cmp y z ≡ Ordering.lt → cmp x z ≡ Ordering.lt

-- Which outcomes of `cmp k a`, `cmp k b` and `cmp a b` go together.
abbrev pub consistent : Ordering → Ordering → Ordering → Bool
consistent Ordering.lt Ordering.lt Ordering.eq = true
consistent Ordering.eq Ordering.eq Ordering.eq = true
consistent Ordering.gt Ordering.gt Ordering.eq = true
consistent x y Ordering.eq = false
consistent Ordering.gt y Ordering.lt = true
consistent x Ordering.lt Ordering.lt = true
consistent x y Ordering.lt = false
consistent Ordering.lt y Ordering.gt = true
consistent x Ordering.gt Ordering.gt = true
consistent x y Ordering.gt = false

-- In a total order the three comparisons of three points are consistent.
pub cmp-consistent {ℓ} :
    {A : Type ℓ} (cmp : A → A → Ordering) (k a b : A)
    → IsTotalOrder cmp
    → consistent (cmp k a) (cmp k b) (cmp a b) ≡ true
cmp-consistent cmp k a b o = ground (
  arith,
  o.same k a,
  o.same k b,
  o.same a b,
  o.self k,
  o.self a,
  o.turn k a,
  o.turn k b,
  o.turn a b,
  o.trans k a b,
  o.trans k b a,
  o.trans a k b,
  o.trans b k a,
  o.trans a b k,
  o.trans b a k,
)

compare-same : (m n : ℕ) → compare m n ≡ Ordering.eq → m ≡ n
compare-same m n h = ground arith

compare-turn : (m n : ℕ) → compare n m ≡ flip (compare m n)
compare-turn m n = ground arith

compare_trans :
    (a b c : ℕ) → compare a b ≡ Ordering.lt → compare b c ≡ Ordering.lt → compare a c ≡ Ordering.lt
compare_trans a b c h k = ground arith

compare_self : (n : ℕ) → compare n n ≡ Ordering.eq
compare_self n = ground arith

pub compare-IsTotalOrder : IsTotalOrder compare
compare-IsTotalOrder = record {
  self = compare_self;
  same = compare-same;
  turn = compare-turn;
  trans = compare_trans;
}

compare_ℤ_self : (x : ℤ) → compare_ℤ x x ≡ Ordering.eq
unfolding compare_ℤ
compare_ℤ_self (pos m) = compare_self m
compare_ℤ_self (negsuc m) = compare_self m

compare_ℤ-same : (x y : ℤ) → compare_ℤ x y ≡ Ordering.eq → x ≡ y
unfolding compare_ℤ
compare_ℤ-same (pos m) (pos n) h = ap pos (compare-same m n h)
compare_ℤ-same (pos m) (negsuc n) h = cc
compare_ℤ-same (negsuc m) (pos n) h = cc
compare_ℤ-same (negsuc m) (negsuc n) h = ground (arith, compare-same n m h)

compare_ℤ-turn : (x y : ℤ) → compare_ℤ y x ≡ flip (compare_ℤ x y)
unfolding compare_ℤ
compare_ℤ-turn (pos m) (pos n) = compare-turn m n
compare_ℤ-turn (negsuc m) (negsuc n) = compare-turn n m
compare_ℤ-turn (pos m) (negsuc n) = refl
compare_ℤ-turn (negsuc m) (pos n) = refl

compare_ℤ_trans :
    (x y z : ℤ)
    → compare_ℤ x y ≡ Ordering.lt
    → compare_ℤ y z ≡ Ordering.lt
    → compare_ℤ x z ≡ Ordering.lt
unfolding compare_ℤ
compare_ℤ_trans (pos a) (pos b) (pos c) h k = compare_trans a b c h k
compare_ℤ_trans (negsuc a) (negsuc b) (negsuc c) h k = compare_trans c b a k h
compare_ℤ_trans x y z h k = ground arith

pub compare_ℤ-IsTotalOrder : IsTotalOrder compare_ℤ
compare_ℤ-IsTotalOrder = record {
  self = compare_ℤ_self;
  same = compare_ℤ-same;
  turn = compare_ℤ-turn;
  trans = compare_ℤ_trans;
}

compare_text_self : (s : Text) → compare_text s s ≡ Ordering.eq
unfolding compare_text
compare_text_self [] = refl
compare_text_self (x ∷ xs) = ground (arith, compare_self x, compare_text_self xs)

compare_text-same : (s t : Text) → compare_text s t ≡ Ordering.eq → s ≡ t
unfolding compare_text
compare_text-same [] [] h = refl
compare_text-same [] (y ∷ ys) h = cc
compare_text-same (x ∷ xs) [] h = cc
compare_text-same (x ∷ xs) (y ∷ ys) h = ground (arith, compare_text-same xs ys)

compare_text-turn : (s t : Text) → compare_text t s ≡ flip (compare_text s t)
unfolding compare_text
compare_text-turn [] [] = refl
compare_text-turn [] (y ∷ ys) = refl
compare_text-turn (x ∷ xs) [] = refl
compare_text-turn (x ∷ xs) (y ∷ ys) = ground (arith, compare_text-turn xs ys)

compare_text_trans :
    (s t u : Text)
    → compare_text s t ≡ Ordering.lt
    → compare_text t u ≡ Ordering.lt
    → compare_text s u ≡ Ordering.lt
unfolding compare_text
compare_text_trans [] (y ∷ ys) (z ∷ zs) h k = refl
compare_text_trans (x ∷ xs) (y ∷ ys) (z ∷ zs) h k = ground (arith, compare_text_trans xs ys zs)
compare_text_trans s t u h k = ground arith

pub compare_text-IsTotalOrder : IsTotalOrder compare_text
compare_text-IsTotalOrder = record {
  self = compare_text_self;
  same = compare_text-same;
  turn = compare_text-turn;
  trans = compare_text_trans;
}
