-- ===== src/Temporal/Bounds/Laws.antt =====
-- The merges of bounds are exactly the intersection, and the span, of what the bounds admit.
use yt_media_tools.Prelude.{
  ℕ, ◌≡◌, refl, Bool, true, false, not, ◌&&◌, ◌||◌, Option, none, some, ltb, leb, ◌==◌,
  if◌then◌else◌, arith, Option-cases, inl, inr,
}
use yt_media_tools.Temporal.Bounds.{
  TemporalBound, FieldBounds, contradictory, stronger_lower, stronger_upper, weaker_lower,
  weaker_upper, intersected, spanned,
}

abbrev pub above : Option TemporalBound → ℕ → Bool
above none n = true
above (some b) n = if b.inclusive then leb b.value n else ltb b.value n

abbrev pub below : Option TemporalBound → ℕ → Bool
below none n = true
below (some b) n = if b.inclusive then leb n b.value else ltb n b.value

abbrev pub admits : FieldBounds → ℕ → Bool
admits b n = above b.lower n && below b.upper n

above-stronger :
    (l r : Option TemporalBound) (n : ℕ) → above (stronger_lower l r) n ≡ (above l n && above r n)
unfolding stronger_lower
above-stronger none r n = refl
above-stronger (some l) none n = ground arith
above-stronger (some l) (some r) n = ground arith

below-stronger :
    (l r : Option TemporalBound) (n : ℕ) → below (stronger_upper l r) n ≡ (below l n && below r n)
unfolding stronger_upper
below-stronger none r n = refl
below-stronger (some l) none n = ground arith
below-stronger (some l) (some r) n = ground arith

above-weaker :
    (l r : Option TemporalBound) (n : ℕ) → above (weaker_lower l r) n ≡ (above l n || above r n)
unfolding weaker_lower
above-weaker none r n = refl
above-weaker (some l) none n = ground arith
above-weaker (some l) (some r) n = ground arith

below-weaker :
    (l r : Option TemporalBound) (n : ℕ) → below (weaker_upper l r) n ≡ (below l n || below r n)
unfolding weaker_upper
below-weaker none r n = refl
below-weaker (some l) none n = ground arith
below-weaker (some l) (some r) n = ground arith

-- What AND makes of two intervals admits exactly the values that both admit, and what OR makes of
-- them admits every value that one of them admits.
pub admits-merged :
    (first second : FieldBounds) (n : ℕ)
    → (admits (intersected first second) n ≡ (admits first n && admits second n))
      × ((admits first n || admits second n) ≡ true → admits (spanned first second) n ≡ true)
admits-merged first second n = (
  rw (above-stronger first.lower second.lower n, below-stronger first.upper second.upper n)
      (ground arith),
  λ h.
      rw (above-weaker first.lower second.lower n, below-weaker first.upper second.upper n)
        (ground arith),
)

-- An interval that is reported as contradictory admits nothing.
pub contradictory-admits : (b : FieldBounds) (n : ℕ) → contradictory b ≡ true → admits b n ≡ false
unfolding contradictory
contradictory-admits b n h = elim (Option-cases b.lower) [
  | inl e ↦ cc (rw (e, contradictory) at h)
  | inr (l, e) ↦ elim (Option-cases b.upper) [
    | inl f ↦ cc (rw (e, f, contradictory) at h)
    | inr (u, f) ↦ rw (e, f) (outside l u (rw (e, f, contradictory) at h))
  ]
]
  where
    outside :
        (l u : TemporalBound)
        → (if ltb u.value l.value
            then true
            else (l.value == u.value) && not (l.inclusive && u.inclusive))
          ≡ true
        → (above (some l) n && below (some u) n) ≡ false
    outside l u k = ground arith
