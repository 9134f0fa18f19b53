-- ===== src/Temporal/Inference/Points.antt =====
-- The points that a comparison, a BETWEEN and an IN admit.
use yt_media_tools.Prelude.{
  any, compare, ◌≢◌, ℕ, ◌≤◌, ◌≡◌, refl, ap, sym, Bool, true, false, ◌&&◌, Option, none, some, List,
  [], ◌∷◌, ltb, leb, ◌==◌, if◌then◌else◌, arith, Option-cases, inl, inr, of_some,
}
use yt_media_tools.Query.Value.{
  accepts, Value, day, instant, Operator, equals, differs, less, less_or_equal, greater,
  greater_or_equal, holds, equal_values, compare_values, key, compare_keys,
}
use yt_media_tools.Temporal.Bounds.{TemporalBound, Kind, date, datetime, bound}
use yt_media_tools.Temporal.Bounds.Laws.{above, below}
use yt_media_tools.Temporal.Inference.{minimum, maximum, bounds_of_comparison}
use yt_media_tools.Temporal.Inference.Merges.{point}

-- An operator that accepts how two points compare puts the one within the bounds of the other.
pub accepts-bounds :
    (op : Operator) (m n : ℕ) (l u : Option TemporalBound)
    → bounds_of_comparison op n ≡ some (l, u)
    → accepts op (compare m n) ≡ true
    → (above l m && below u m) ≡ true
unfolding bounds_of_comparison
accepts-bounds equals m n l u b h =
    rw (sym (ap (λ p. p.0) (of_some b)), sym (ap (λ p. p.1) (of_some b))) (ground arith)
accepts-bounds less m n l u b h =
    rw (sym (ap (λ p. p.0) (of_some b)), sym (ap (λ p. p.1) (of_some b))) (ground arith)
accepts-bounds less_or_equal m n l u b h =
    rw (sym (ap (λ p. p.0) (of_some b)), sym (ap (λ p. p.1) (of_some b))) (ground arith)
accepts-bounds greater m n l u b h =
    rw (sym (ap (λ p. p.0) (of_some b)), sym (ap (λ p. p.1) (of_some b))) (ground arith)
accepts-bounds greater_or_equal m n l u b h =
    rw (sym (ap (λ p. p.0) (of_some b)), sym (ap (λ p. p.1) (of_some b))) (ground arith)
accepts-bounds differs m n l u b h = cc

-- A comparison other than != that holds at a date or datetime is one of a value of that kind.
pub holds-accepts :
    (kind : Kind) (op : Operator) (v w : Value) (n : ℕ)
    → point kind w ≡ some n
    → op ≢ differs
    → holds op v w ≡ true
    → (m : ℕ) × (point kind v ≡ some m) × (accepts op (compare m n) ≡ true)
unfolding holds equal_values compare_values key compare_keys
holds-accepts date op (day m) (day k) n e d h = (m, refl, ground arith)
holds-accepts datetime op (instant m) (instant k) n e d h = (m, refl, ground arith)
holds-accepts kind op v w n e d h = ground arith

pub holds-lower :
    (kind : Kind) (v w : Value) (n m : ℕ)
    → point kind w ≡ some n
    → point kind v ≡ some m
    → holds less_or_equal w v ≡ true
    → leb n m ≡ true
unfolding holds compare_values key compare_keys
holds-lower kind v w n m e f h = ground arith

pub minimum-first : (k : ℕ) (ns : List ℕ) → minimum k ns ≤ k
minimum-first k [] = omega arith
minimum-first k (n ∷ ns) = ground (arith, minimum-first (if ltb n k then n else k) ns)

pub minimum-any :
    (k : ℕ) (ns : List ℕ) (m : ℕ) → any (λ n. n == m) (k ∷ ns) ≡ true → minimum k ns ≤ m
minimum-any k [] m h = ground arith
minimum-any k (n ∷ ns) m h =
    let x = if ltb n k then n else k in ground (arith, minimum-first x ns, minimum-any x ns m)

pub maximum-first : (k : ℕ) (ns : List ℕ) → k ≤ maximum k ns
maximum-first k [] = omega arith
maximum-first k (n ∷ ns) = ground (arith, maximum-first (if ltb k n then n else k) ns)

pub maximum-any :
    (k : ℕ) (ns : List ℕ) (m : ℕ) → any (λ n. n == m) (k ∷ ns) ≡ true → m ≤ maximum k ns
maximum-any k [] m h = ground arith
maximum-any k (n ∷ ns) m h =
    let x = if ltb k n then n else k in ground (arith, maximum-first x ns, maximum-any x ns m)

pub listed-bounds :
    (k : ℕ) (ns : List ℕ) (m : ℕ)
    → any (λ n. n == m) (k ∷ ns) ≡ true
    → (above (some (bound (minimum k ns) true)) m && below (some (bound (maximum k ns) true)) m)
      ≡ true
listed-bounds k ns m h = ground (arith, minimum-any k ns m h, maximum-any k ns m h)

pub not_differs :
    (op : Operator) (n : ℕ) (l u : Option TemporalBound)
    → bounds_of_comparison op n ≡ some (l, u)
    → op ≢ differs
unfolding bounds_of_comparison
not_differs differs n l u b = cc
not_differs op n l u b = λ d. cc

abbrev pub has_point : Kind → Value → Bool
has_point kind v = elim (point kind v) [ some _ ↦ true | none ↦ false ]

pub point_of :
    (kind : Kind) (v : Value) → has_point kind v ≡ true → (n : ℕ) × (point kind v ≡ some n)
point_of kind v h = elim (Option-cases (point kind v)) [
  | inl e ↦ cc (rw (e, has_point) at h)
  | inr (n, e) ↦ (n, e)
]
