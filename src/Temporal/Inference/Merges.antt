-- ===== src/Temporal/Inference/Merges.antt =====
-- What AND and OR merge holds of a record of which the operands hold.
use yt_media_tools.Prelude.{
  ℕ, ◌≡◌, refl, sym, ◌∙◌, Bool, true, false, ◌||◌, Option, none, some, [], ◌∷◌, Text, All, arith,
  Bool-cases, Option-cases, inl, inr, ◌⊎◌, of_some,
}
use mathlib.Core.Path.{subst}
use yt_media_tools.Query.Like.{equal_text}
use yt_media_tools.Query.Like.Laws.{equal_text_iff}
use yt_media_tools.Query.Value.{Value, day, instant}
use yt_media_tools.Query.Evaluator.{Record, record_value}
use yt_media_tools.Temporal.Bounds.{
  Kind, date, datetime, FieldBounds, Inferred, bounds_at, put, intersected, spanned, merge_and,
  merge_or, is_bounded,
}
use yt_media_tools.Temporal.Bounds.Laws.{admits, admits-merged}
use yt_media_tools.Temporal.Inference.{temporal_kind}
use yt_media_tools.Query.Evaluator.Laws.{named}

-- the point of a value of a kind
abbrev pub point : Kind → Value → Option ℕ
point date (day d) = some d
point datetime (instant t) = some t
point _ _ = none

abbrev admits_point : FieldBounds → Option ℕ → Bool
admits_point b none = false
admits_point b (some n) = admits b n

-- The value has a point that the bounds admit.
abbrev pub within : FieldBounds → Value → Bool
within b v = admits_point b (point b.kind v)

-- Every entry has the kind of its field.
abbrev pub Kinded : Inferred → Type 0
Kinded = All (λ (e : Text × FieldBounds). temporal_kind e.0 ≡ some (FieldBounds.kind e.1))

abbrev pub Admitted : Record → Inferred → Type 0
Admitted r = All (λ (e : Text × FieldBounds). within e.1 (record_value r (named e.0)) ≡ true)

Kinded-at :
    (k : Text) (m : Inferred) (b : FieldBounds)
    → Kinded m
    → bounds_at k m ≡ some b
    → temporal_kind k ≡ some b.kind
unfolding bounds_at
Kinded-at k [] b a h = cc
Kinded-at k ((j, c) ∷ rest) b a h = elim (Bool-cases (equal_text j k)) [
  | inl e ↦
      subst (λ x. temporal_kind k ≡ some (FieldBounds.kind x)) (of_some (rw (e, bounds_at) at h))
        (subst (λ x. temporal_kind x ≡ some c.kind) ((equal_text_iff j k).0 e) a.0)
  | inr e ↦ Kinded-at k rest b a.1 (rw (e, bounds_at) at h)
]

pub Admitted-at :
    (r : Record) (k : Text) (m : Inferred) (b : FieldBounds)
    → Admitted r m
    → bounds_at k m ≡ some b
    → within b (record_value r (named k)) ≡ true
unfolding bounds_at
Admitted-at r k [] b a h = cc
Admitted-at r k ((j, c) ∷ rest) b a h = elim (Bool-cases (equal_text j k)) [
  | inl e ↦
      subst (λ x. within x (record_value r (named k)) ≡ true) (of_some (rw (e, bounds_at) at h))
        (subst (λ x. within c (record_value r (named x)) ≡ true) ((equal_text_iff j k).0 e) a.0)
  | inr e ↦ Admitted-at r k rest b a.1 (rw (e, bounds_at) at h)
]

All-put :
    (P : Text × FieldBounds → Type 0) (k : Text) (b : FieldBounds) (m : Inferred)
    → P (k, b)
    → All P m
    → All P (put k b m)
unfolding put
All-put P k b [] p a = (p, tt)
All-put P k b ((j, c) ∷ rest) p a = elim (Bool-cases (equal_text j k)) [
  | inl e ↦ rw (e, put) (subst (λ x. P (x, b)) (sym ((equal_text_iff j k).0 e)) p, a.1)
  | inr e ↦ rw (e, put) (a.0, All-put P k b rest p a.1)
]

within-intersected :
    (v : Value) (first second : FieldBounds)
    → first.kind ≡ second.kind
    → within first v ≡ true
    → within second v ≡ true
    → within (intersected first second) v ≡ true
within-intersected v first second k p q = elim (Option-cases (point first.kind v)) [
  | inl e ↦ cc (rw e at p)
  | inr (n, e) ↦ rw e ((admits-merged first second n).0 ∙ rw (rw e at p, rw (sym k, e) at q) refl)
]

within-spanned :
    (v : Value) (first second : FieldBounds)
    → first.kind ≡ second.kind
    → (within first v ≡ true) ⊎ (within second v ≡ true)
    → within (spanned first second) v ≡ true
within-spanned v first second k p = elim (Option-cases (point first.kind v)) [
  | inl e ↦ elim p [ inl q ↦ cc (rw e at q) | inr q ↦ cc (rw (sym k, e) at q) ]
  | inr (n, e) ↦ rw e (
      (admits-merged first second n).1 (elim p [
        | inl q ↦ one_of _ _ (inl (rw e at q))
        | inr q ↦ one_of _ _ (inr (rw (sym k, e) at q))
      ]))
]
  where
    one_of : (a b : Bool) → (a ≡ true) ⊎ (b ≡ true) → (a || b) ≡ true
    one_of a b h = ground arith

-- Entries for one field have one kind.
same_kinds :
    (k : Text) (m : Inferred) (b c : FieldBounds)
    → Kinded m
    → bounds_at k m ≡ some b
    → temporal_kind k ≡ some c.kind
    → c.kind ≡ b.kind
same_kinds k m b c a h g = of_some (sym g ∙ Kinded-at k m b a h)

pub merge_and-Kinded : (l m : Inferred) → Kinded l → Kinded m → Kinded (merge_and l m)
unfolding merge_and
merge_and-Kinded l [] a b = a
merge_and-Kinded l ((k, c) ∷ rest) a b = elim (Option-cases (bounds_at k l)) [
  | inl e ↦ rw (e, merge_and) (merge_and-Kinded (put k c l) rest (All-put _ k c l b.0 a) b.1)
  | inr (d, e) ↦
      rw (e, merge_and)
        (merge_and-Kinded (put k (intersected d c) l) rest
          (All-put _ k (intersected d c) l (Kinded-at k l d a e) a) b.1)
]

pub merge_and-Admitted :
    (r : Record) (l m : Inferred)
    → Kinded l
    → Kinded m
    → Admitted r l
    → Admitted r m
    → Admitted r (merge_and l m)
unfolding merge_and
merge_and-Admitted r l [] a b p q = p
merge_and-Admitted r l ((k, c) ∷ rest) a b p q = elim (Option-cases (bounds_at k l)) [
  | inl e ↦
      rw (e, merge_and)
        (merge_and-Admitted r (put k c l) rest (All-put _ k c l b.0 a) b.1 (All-put _ k c l q.0 p)
          q.1)
  | inr (d, e) ↦
      rw (e, merge_and)
        (merge_and-Admitted r (put k (intersected d c) l) rest
          (All-put _ k (intersected d c) l (Kinded-at k l d a e) a) b.1
          (All-put _ k (intersected d c) l
            (within-intersected (record_value r (named k)) d c (sym (same_kinds k l d c a e b.0))
              (Admitted-at r k l d p e) q.0)
            p)
          q.1)
]

pub merge_or-Kinded : (l m : Inferred) → Kinded l → Kinded (merge_or l m)
unfolding merge_or
merge_or-Kinded [] m a = tt
merge_or-Kinded ((k, c) ∷ rest) m a = elim (Option-cases (bounds_at k m)) [
  | inl e ↦ rw (e, merge_or) (merge_or-Kinded rest m a.1)
  | inr (d, e) ↦ elim (Bool-cases (is_bounded (spanned c d))) [
    | inl f ↦ rw (e, f, merge_or) (a.0, merge_or-Kinded rest m a.1)
    | inr f ↦ rw (e, f, merge_or) (merge_or-Kinded rest m a.1)
  ]
]

pub merge_or-Admitted :
    (r : Record) (l m : Inferred)
    → Kinded l
    → Kinded m
    → Admitted r l ⊎ Admitted r m
    → Admitted r (merge_or l m)
unfolding merge_or
merge_or-Admitted r [] m a b p = tt
merge_or-Admitted r ((k, c) ∷ rest) m a b p =
    let others = merge_or-Admitted r rest m a.1 b (behind p) in
    elim (Option-cases (bounds_at k m)) [
      | inl e ↦ rw (e, merge_or) others
      | inr (d, e) ↦ elim (Bool-cases (is_bounded (spanned c d))) [
        | inr f ↦ rw (e, f, merge_or) others
        | inl f ↦
            rw (e, f, merge_or)
              (
                within-spanned (record_value r (named k)) c d (same_kinds k m d c b e a.0)
                    (at d e p),
                others,
              )
      ]
    ]
  where
    behind : Admitted r ((k, c) ∷ rest) ⊎ Admitted r m → Admitted r rest ⊎ Admitted r m
    behind (inl q) = inl q.1
    behind (inr q) = inr q

    at :
        (d : FieldBounds)
        → bounds_at k m ≡ some d
        → Admitted r ((k, c) ∷ rest) ⊎ Admitted r m
        → (within c (record_value r (named k)) ≡ true)
          ⊎ (within d (record_value r (named k)) ≡ true)
    at d e (inl q) = inl q.0
    at d e (inr q) = inr (Admitted-at r k m d q e)
