-- ===== src/Temporal/Inference/Sound.antt =====
-- A record that a WHERE accepts lies within the bounds that are inferred from it.
use yt_media_tools.Prelude.{
  ℕ, ◌≤◌, ◌≡◌, refl, Bool, true, false, ◌&&◌, Option, none, some, List, ◌∷◌, Text, codes, arith,
  Option-cases, inl, inr, ◌⊎◌, both, all,
}
use yt_media_tools.Query.Like.{equal_text}
use yt_media_tools.Query.Like.Laws.{equal_text_iff}
use yt_media_tools.Query.Value.{Value, day, Operator, differs}
use yt_media_tools.Query.Model.{
  Field, Literal, and, or, Truth, Predicate, binary, comparison, between, in_list,
}
use yt_media_tools.Query.Evaluator.{
  Runtime, Record, record_value, evaluate, evaluate_boolean_binary,
}
use yt_media_tools.Temporal.Bounds.{
  TemporalBound, Kind, date, datetime, FieldBounds, Inferred, bounds_at,
}
use yt_media_tools.Temporal.Inference.{
  temporal_kind, bounds_of_comparison, parse_literal, parse_literals, infer_comparison,
  infer_between, infer_in_list, of_field, infer, frontier_of, upload_date_frontier,
}
use yt_media_tools.Temporal.Inference.Merges.{
  within, Kinded, Admitted, Admitted-at, merge_and-Kinded, merge_and-Admitted, merge_or-Kinded,
  merge_or-Admitted,
}
use yt_media_tools.Query.Evaluator.Laws.{named}
use yt_media_tools.Temporal.Inference.Leaves.{
  comparison-Admitted, between-Admitted, in_list-Admitted,
}
use yt_media_tools.Temporal.Inference.Points.{has_point}

binary-both :
    (a b : Truth) → evaluate_boolean_binary and a b ≡ some true → (a ≡ some true) × (b ≡ some true)
unfolding evaluate_boolean_binary
binary-both a b h = ground arith

binary-one :
    (a b : Truth) → evaluate_boolean_binary or a b ≡ some true → (a ≡ some true) ⊎ (b ≡ some true)
unfolding evaluate_boolean_binary
binary-one a b h = ground arith

module _ ⦃rt : Runtime⦄ (parse : Kind → Value → Option ℕ) where
  -- a field that is not temporal, or is named as it folds, with literals of its kind
  abbrev pub plain_field : Field → (Kind → Bool) → Bool
  plain_field f literals = elim (temporal_kind (rt.casefold f.name)) [
    | none ↦ true
    | some kind ↦ equal_text (rt.casefold f.name) f.name && literals kind
  ]

  -- What the resolver has made of the temporal fields and their literals.
  unfoldable pub is_resolved : Predicate → Bool
  is_resolved (binary op p q) = is_resolved p && is_resolved q
  is_resolved (comparison op f a) = plain_field f (λ kind. has_point kind a.value)
  is_resolved (between f a b n) =
      plain_field f (λ kind. has_point kind a.value && has_point kind b.value)
  is_resolved (in_list f items n) =
      plain_field f (λ kind. all (λ (a : Literal). has_point kind a.value) items)
  is_resolved _ = true

  Kinded-of_field :
      (f : Field) (inferred : Kind → Inferred)
      → ((kind : Kind) → temporal_kind (rt.casefold f.name) ≡ some kind → Kinded (inferred kind))
      → Kinded (of_field f inferred)
  Kinded-of_field f inferred h = elim (Option-cases (temporal_kind (rt.casefold f.name))) [
    | inl e ↦ rw (e, of_field) tt
    | inr (kind, e) ↦ rw (e, of_field) (h kind e)
  ]

  comparison-Kinded :
      (op : Operator) (f : Field) (kind : Kind) (o : Option ℕ)
      → temporal_kind (rt.casefold f.name) ≡ some kind
      → Kinded (infer_comparison op f kind o)
  unfolding infer_comparison bounds_of_comparison
  comparison-Kinded op f kind none e = tt
  comparison-Kinded differs f kind (some n) e = tt
  comparison-Kinded op f kind (some n) e = (e, tt)

  between-Kinded :
      (f : Field) (kind : Kind) (o o' : Option ℕ)
      → temporal_kind (rt.casefold f.name) ≡ some kind
      → Kinded (infer_between f kind o o')
  unfolding infer_between
  between-Kinded f kind (some n) (some n') e = (e, tt)
  between-Kinded f kind _ _ e = tt

  in_list-Kinded :
      (f : Field) (kind : Kind) (o : Option (List ℕ))
      → temporal_kind (rt.casefold f.name) ≡ some kind
      → Kinded (infer_in_list f kind o)
  unfolding infer_in_list
  in_list-Kinded f kind (some (n ∷ ns)) e = (e, tt)
  in_list-Kinded f kind _ e = tt

  infer-Kinded : (p : Predicate) → Kinded (infer parse p)
  unfolding infer
  infer-Kinded (binary and p q) =
      merge_and-Kinded (infer parse p) (infer parse q) (infer-Kinded p) (infer-Kinded q)
  infer-Kinded (binary or p q) = merge_or-Kinded (infer parse p) (infer parse q) (infer-Kinded p)
  infer-Kinded (comparison op f a) =
      Kinded-of_field f (λ kind. infer_comparison op f kind (parse_literal parse a kind))
        (λ kind. comparison-Kinded op f kind (parse_literal parse a kind))
  infer-Kinded (between f a b false) =
      Kinded-of_field f
        (λ kind. infer_between f kind (parse_literal parse a kind) (parse_literal parse b kind))
        (λ kind. between-Kinded f kind (parse_literal parse a kind) (parse_literal parse b kind))
  infer-Kinded (in_list f items false) =
      Kinded-of_field f (λ kind. infer_in_list f kind (parse_literals parse items kind))
        (λ kind. in_list-Kinded f kind (parse_literals parse items kind))
  infer-Kinded _ = tt

  Admitted-of_field :
      (r : Record) (f : Field) (inferred : Kind → Inferred) (literals : Kind → Bool)
      → plain_field f literals ≡ true
      → ((kind : Kind)
          → rt.casefold f.name ≡ f.name
          → literals kind ≡ true
          → Admitted r (inferred kind))
      → Admitted r (of_field f inferred)
  Admitted-of_field r f inferred literals p h =
      elim (Option-cases (temporal_kind (rt.casefold f.name))) [
        | inl e ↦ rw (e, of_field) tt
        | inr (kind, e) ↦
            let (c, l) =
              both (equal_text (rt.casefold f.name) f.name) (literals kind)
                (rw (e, plain_field) at p) in
            rw (e, of_field) (h kind ((equal_text_iff _ _).0 c) l)
      ]

  -- For a resolved WHERE and a record that it accepts, every field for which bounds are inferred
  -- has in the record a value of its kind that the bounds admit.
  pub infer-Admitted :
      (p : Predicate) (r : Record)
      → is_resolved p ≡ true
      → evaluate p r ≡ some true
      → Admitted r (infer parse p)
  unfolding infer is_resolved evaluate
  infer-Admitted (binary and p q) r h k =
      let (hp, hq) = both _ _ h in
      let (kp, kq) = binary-both (evaluate p r) (evaluate q r) k in
      merge_and-Admitted r (infer parse p) (infer parse q) (infer-Kinded p) (infer-Kinded q)
        (infer-Admitted p r hp kp) (infer-Admitted q r hq kq)
  infer-Admitted (binary or p q) r h k =
      let (hp, hq) = both _ _ h in
      merge_or-Admitted r (infer parse p) (infer parse q) (infer-Kinded p) (infer-Kinded q)
        (elim (binary-one (evaluate p r) (evaluate q r) k) [
          | inl kp ↦ inl (infer-Admitted p r hp kp)
          | inr kq ↦ inr (infer-Admitted q r hq kq)
        ])
  infer-Admitted (comparison op f a) r h k =
      Admitted-of_field r f (λ kind. infer_comparison op f kind (parse_literal parse a kind))
        (λ kind. has_point kind a.value) h
        (λ kind c l. comparison-Admitted parse op f a r kind c l k)
  infer-Admitted (between f a b false) r h k =
      Admitted-of_field r f
        (λ kind. infer_between f kind (parse_literal parse a kind) (parse_literal parse b kind))
        (λ kind. has_point kind a.value && has_point kind b.value) h
        (λ kind c l. between-Admitted parse f a b r kind c l k)
  infer-Admitted (in_list f items false) r h k =
      Admitted-of_field r f (λ kind. infer_in_list f kind (parse_literals parse items kind))
        (λ kind. all (λ (a : Literal). has_point kind a.value) items) h
        (λ kind c l. in_list-Admitted parse f items r kind c l k)
  infer-Admitted _ r h k = tt

  -- A frontier that is read off an entry is not after the day of an accepted record.
  abbrev pub Reaches : Record → Text → ℕ → Type 0
  Reaches r name n = (d : ℕ) × (record_value r (named name) ≡ day d) × (n ≤ d)

  frontier_admits :
      (kind : Kind) (lower upper : Option TemporalBound) (field : Text) (v : Value) (n : ℕ)
      → within (record { field = field; kind = kind; lower = lower; upper = upper }) v ≡ true
      → frontier_of lower kind ≡ some n
      → (d : ℕ) × (v ≡ day d) × (n ≤ d)
  frontier_admits date (some l) u field (day d) n h k = (d, refl, ground arith)
  frontier_admits date none u field v n h k = cc
  frontier_admits datetime none u field v n h k = cc
  frontier_admits datetime (some l) u field v n h k = cc
  frontier_admits date (some l) u field v n h k = cc

  frontier-Reaches :
      (r : Record) (name : Text) (m : Inferred) (b : FieldBounds) (n : ℕ)
      → Admitted r m
      → bounds_at name m ≡ some b
      → frontier_of b.lower b.kind ≡ some n
      → Reaches r name n
  frontier-Reaches r name m b n a e h =
      frontier_admits b.kind b.lower b.upper b.field (record_value r (named name)) n
        (Admitted-at r name m b a e) h

  -- The acquisition frontier of a resolved WHERE is not after the day that a record which the WHERE
  -- accepts has as its upload_date or as its date.
  pub upload_date_frontier-Reaches :
      (p : Predicate) (r : Record) (n : ℕ)
      → is_resolved p ≡ true
      → evaluate p r ≡ some true
      → upload_date_frontier (infer parse p) ≡ some n
      → Reaches r (codes "upload_date") n ⊎ Reaches r (codes "date") n
  unfolding upload_date_frontier
  upload_date_frontier-Reaches p r n h k f =
      let m = infer parse p in
      let a = infer-Admitted p r h k in
      elim (Option-cases (bounds_at (codes "upload_date") m)) [
        | inr (b, e) ↦
            inl (
              frontier-Reaches r (codes "upload_date") m b n a e
                (rw (e, upload_date_frontier) at f))
        | inl e ↦ elim (Option-cases (bounds_at (codes "date") m)) [
          | inr (b, e') ↦
              inr (
                frontier-Reaches r (codes "date") m b n a e'
                  (rw (e, e', upload_date_frontier) at f))
          | inl e' ↦ cc (rw (e, e', upload_date_frontier) at f)
        ]
      ]
