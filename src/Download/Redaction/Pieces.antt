-- ===== src/Download/Redaction/Pieces.antt =====
-- Splitting, joining and partitioning of texts.
use yt_media_tools.Prelude.{
  Bool, true, false, not, ◌&&◌, some, List, [], ◌∷◌, ◌++◌, Text, All, ◌≡◌, refl, ap, ◌∙◌, arith,
  ◌==◌, if◌then◌else◌, Bool-cases, inl, inr, ℕ,
}
use yt_media_tools.Download.Redaction.{put_first, split, join_with, partition}

-- a text without a separator
abbrev pub lacks : ℕ → Text → Bool
lacks separator [] = true
lacks separator (c ∷ cs) = not (c == separator) && lacks separator cs

put_first-lacks :
    (s c : ℕ) (ps : List Text)
    → (c == s) ≡ false
    → All (λ p. lacks s p ≡ true) ps
    → All (λ p. lacks s p ≡ true) (put_first c ps)
put_first-lacks s c [] n h = (rw n refl, tt)
put_first-lacks s c (p ∷ ps) n h = (rw (n, h.0) refl, h.1)

pub split-lacks : (s : ℕ) (t : Text) → All (λ p. lacks s p ≡ true) (split s t)
unfolding split
split-lacks s [] = (refl, tt)
split-lacks s (c ∷ cs) = elim (Bool-cases (c == s)) [
  | inl e ↦ rw (e, if◌then◌else◌) (refl, split-lacks s cs)
  | inr e ↦ rw (e, if◌then◌else◌) (put_first-lacks s c (split s cs) e (split-lacks s cs))
]

split-piece : (s : ℕ) (p : Text) → lacks s p ≡ true → split s p ≡ p ∷ []
unfolding split
split-piece s [] h = refl
split-piece s (c ∷ cs) h = ground (arith, h, split-piece s cs)

split-next : (s : ℕ) (p t : Text) → lacks s p ≡ true → split s (p ++ (s ∷ t)) ≡ p ∷ split s t
unfolding split
split-next s [] t h = ground arith
split-next s (c ∷ cs) t h = ground (arith, h, split-next s cs t)

-- Splitting joined pieces gives the pieces.
pub split-join_with :
    (s : ℕ) (p : Text) (ps : List Text)
    → All (λ q. lacks s q ≡ true) (p ∷ ps)
    → split s (join_with s (p ∷ ps)) ≡ p ∷ ps
unfolding join_with
split-join_with s p [] h = split-piece s p h.0
split-join_with s p (q ∷ qs) h =
    split-next s p (join_with s (q ∷ qs)) h.0 ∙ ap (◌∷◌ p) (split-join_with s q qs h.1)

pub partition-again :
    (s : ℕ) (t u : Text)
    → (value : Text) → (partition s t).1 ≡ some value
    → partition s ((partition s t).0 ++ (s ∷ u)) ≡ ((partition s t).0, some u)
unfolding partition
partition-again s [] u value h = cc h
partition-again s (c ∷ cs) u value h = elim (Bool-cases (c == s)) [
  | inl e ↦ ground (arith, e, h)
  | inr e ↦ ground (arith, e, h, partition-again s cs u value)
]

pub lacks-append :
    (s : ℕ) (a b : Text) → lacks s a ≡ true → lacks s b ≡ true → lacks s (a ++ b) ≡ true
lacks-append s [] b h k = k
lacks-append s (c ∷ cs) b h k = ground (arith, h, lacks-append s cs b)

-- the name before a separator has nothing that the text lacks
pub partition-lacks :
    (t s : ℕ) (text : Text) → lacks s text ≡ true → lacks s (partition t text).0 ≡ true
unfolding partition
partition-lacks t s [] h = refl
partition-lacks t s (c ∷ cs) h = elim (Bool-cases (c == t)) [
  | inl e ↦ rw (e, if◌then◌else◌) refl
  | inr e ↦ rw (e, if◌then◌else◌) (ground (arith, h, partition-lacks t s cs))
]

pub split_nonempty : (t : Text) → (p : Text) × (ps : List Text) × (split b';' t ≡ p ∷ ps)
unfolding split
split_nonempty [] = ([], [], refl)
split_nonempty (c ∷ cs) = elim (Bool-cases (c == b';')) [
  | inl e ↦ ([], split b';' cs, rw (e, if◌then◌else◌) refl)
  | inr e ↦ let (p, ps, q) = split_nonempty cs in (c ∷ p, ps, rw (e, if◌then◌else◌, q) refl)
]
