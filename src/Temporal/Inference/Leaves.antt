-- ===== src/Temporal/Inference/Leaves.antt =====
-- What one predicate on a temporal field says of the field's value.
use yt_media_tools.Prelude.{
  any, compare, ℕ, ◌≡◌, refl, sym, ◌∙◌, Bool, true, false, ◌&&◌, ◌||◌, Option, some, List, [], ◌∷◌,
  leb, ◌==◌, arith, Bool-cases, Option-cases, inl, inr, of_some, both, all,
}
use mathlib.Core.Path.{subst}
use yt_media_tools.Query.Value.{
  accepts, Value, day, instant, Operator, equals, less_or_equal, is_null, holds,
}
use yt_media_tools.Query.Model.{Field, Literal, comparison, between, in_list}
use yt_media_tools.Query.Evaluator.{
  Runtime, Record, record_value, evaluate, compare_field, comparison_values, member,
}
use yt_media_tools.Query.Semantics.Laws.{member-cons}
use yt_media_tools.Temporal.Bounds.{TemporalBound, Kind, date, datetime, bound}
use yt_media_tools.Temporal.Bounds.Laws.{above, below}
use yt_media_tools.Temporal.Inference.{
  minimum, maximum, bounds_of_comparison, parse_literal, parse_literals, entry, infer_comparison,
  infer_between, infer_in_list,
}
use yt_media_tools.Temporal.Inference.Merges.{point, Admitted}
use yt_media_tools.Query.Evaluator.Laws.{record_value-named}
use yt_media_tools.Temporal.Inference.Points.{
  accepts-bounds, has_point, holds-accepts, holds-lower, listed-bounds, not_differs, point_of,
}

module _ ⦃rt : Runtime⦄ (parse : Kind → Value → Option ℕ) where
  parse_point :
      (kind : Kind) (a : Literal) (n : ℕ)
      → point kind a.value ≡ some n
      → parse_literal parse a kind ≡ some n
  unfolding parse_literal
  parse_point kind a n h = go kind a.value h
    where
      go :
          (k : Kind) (v : Value)
          → point k v ≡ some n
          → parse_literal parse (record { value = v; quoted = a.quoted }) k ≡ some n
      go date (day d) e = e
      go datetime (instant t) e = e
      go k v e = cc

  compare_field-point :
      (op : Operator) (f : Field) (kind : Kind) (v w : Value) (n : ℕ)
      → point kind w ≡ some n
      → compare_field op f v w ≡ holds op v w
  unfolding compare_field comparison_values
  compare_field-point op f kind v w n h = ground arith

  evaluate-holds :
      (op : Operator) (f : Field) (a : Literal) (r : Record) (kind : Kind) (n : ℕ)
      → point kind a.value ≡ some n
      → evaluate (comparison op f a) r ≡ some true
      → holds op (record_value r f) a.value ≡ true
  unfolding evaluate
  evaluate-holds op f a r kind n h k =
      elim (Bool-cases (is_null (record_value r f) || is_null a.value)) [
        | inl e ↦ cc (rw (e, evaluate) at k)
        | inr e ↦
            sym (compare_field-point op f kind (record_value r f) a.value n h)
            ∙ of_some (rw (e, evaluate) at k)
      ]

  entry-Admitted :
      (f : Field) (kind : Kind) (l u : Option TemporalBound) (r : Record) (m : ℕ)
      → rt.casefold f.name ≡ f.name
      → point kind (record_value r f) ≡ some m
      → (above l m && below u m) ≡ true
      → Admitted r (entry f kind l u)
  entry-Admitted f kind l u r m c e h = (rw (c, record_value-named r f, e) h, tt)

  -- The literal of a comparison has a point.
  pub comparison-Admitted :
      (op : Operator) (f : Field) (a : Literal) (r : Record) (kind : Kind)
      → rt.casefold f.name ≡ f.name
      → has_point kind a.value ≡ true
      → evaluate (comparison op f a) r ≡ some true
      → Admitted r (infer_comparison op f kind (parse_literal parse a kind))
  unfolding infer_comparison bounds_of_comparison
  comparison-Admitted op f a r kind c p h =
      let (n, e) = point_of kind a.value p in
      elim (Option-cases (bounds_of_comparison op n)) [
        | inl b ↦ rw (parse_point kind a n e, b, infer_comparison) tt
        | inr ((l, u), b) ↦
            let (m, q, k) =
              holds-accepts kind op (record_value r f) a.value n e (not_differs op n l u b)
                (evaluate-holds op f a r kind n e h) in
            rw (parse_point kind a n e, b, infer_comparison)
              (entry-Admitted f kind l u r m c q (accepts-bounds op m n l u b k))
      ]

  evaluate-between :
      (f : Field) (a b : Literal) (r : Record)
      → evaluate (between f a b false) r ≡ some true
      → (holds less_or_equal a.value (record_value r f) ≡ true)
        × (holds less_or_equal (record_value r f) b.value ≡ true)
  unfolding evaluate
  evaluate-between f a b r h = elim (Bool-cases (is_null (record_value r f))) [
    | inl e ↦ cc (rw (e, evaluate) at h)
    | inr e ↦ both _ _ (of_some (rw (e, evaluate) at h))
  ]

  pub between-Admitted :
      (f : Field) (a b : Literal) (r : Record) (kind : Kind)
      → rt.casefold f.name ≡ f.name
      → (has_point kind a.value && has_point kind b.value) ≡ true
      → evaluate (between f a b false) r ≡ some true
      → Admitted r (infer_between f kind (parse_literal parse a kind) (parse_literal parse b kind))
  unfolding infer_between
  between-Admitted f a b r kind c p h =
      let (pa, pb) = both (has_point kind a.value) (has_point kind b.value) p in
      let (lower, upper) = evaluate-between f a b r h in
      let (n, e) = point_of kind a.value pa in
      let (n', e') = point_of kind b.value pb in
      let v = record_value r f in
      let (m, q, k) = holds-accepts kind less_or_equal v b.value n' e' (λ d. cc) upper in
      rw (parse_point kind a n e, parse_point kind b n' e', infer_between)
        (entry-Admitted f kind (some (bound n true)) (some (bound n' true)) r m c q
          (interval n n' m (holds-lower kind v a.value n m e q lower) k))
    where
      interval :
          (n n' m : ℕ)
          → leb n m ≡ true
          → accepts less_or_equal (compare m n') ≡ true
          → (above (some (bound n true)) m && below (some (bound n' true)) m) ≡ true
      interval n n' m h k = ground arith

  parse_points :
      (kind : Kind) (items : List Literal)
      → all (λ (a : Literal). has_point kind a.value) items ≡ true
      → (ns : List ℕ) × (parse_literals parse items kind ≡ some ns)
  unfolding parse_literals
  parse_points kind [] p = ([], refl)
  parse_points kind (a ∷ items) p =
      let (pa, ps) = both (has_point kind a.value) _ p in
      let (n, e) = point_of kind a.value pa in
      let (ns, e') = parse_points kind items ps in (n ∷ ns, rw (parse_point kind a n e, e') refl)

  -- the value has a point, which is listed
  abbrev Listed : Kind → Value → List ℕ → Type 0
  Listed kind v ns = (m : ℕ) × (point kind v ≡ some m) × (any (λ n. n == m) ns ≡ true)

  Listed-cons :
      (kind : Kind) (v : Value) (n : ℕ) (ns : List ℕ) → Listed kind v ns → Listed kind v (n ∷ ns)
  Listed-cons kind v n ns (m, q, k) = (m, q, ground arith)

  -- The value of an IN that accepts is the point of one of its items.
  member-Listed :
      (f : Field) (v : Value) (kind : Kind) (items : List Literal) (ns : List ℕ)
      → all (λ (a : Literal). has_point kind a.value) items ≡ true
      → parse_literals parse items kind ≡ some ns
      → member f v items ≡ true
      → Listed kind v ns
  unfolding member parse_literals
  member-Listed f v kind [] ns p g h = cc
  member-Listed f v kind (a ∷ items) ns p g h =
      let (pa, ps) = both (has_point kind a.value) _ p in
      let (n, e) = point_of kind a.value pa in
      let (ns', e') = parse_points kind items ps in
      subst (Listed kind v) (of_some (rw (parse_point kind a n e, e') at g))
        (elim (Bool-cases (compare_field equals f v a.value)) [
          | inl c ↦
              let (m, q, k) =
                holds-accepts kind equals v a.value n e (λ d. cc)
                  (sym (compare_field-point equals f kind v a.value n e) ∙ c) in
              (m, q, found m n ns' k)
          | inr c ↦ Listed-cons kind v n ns' (
              member-Listed f v kind items ns' ps e'
                (remaining c (sym (member-cons f v a items) ∙ h)))
        ])
    where
      found :
          (m n : ℕ) (rest : List ℕ)
          → accepts equals (compare m n) ≡ true
          → any (λ x. x == m) (n ∷ rest) ≡ true
      found m n rest k = ground arith

      remaining : {b c : Bool} → b ≡ false → (b || c) ≡ true → c ≡ true
      remaining {b} {c} x y = ground arith

  evaluate-member :
      (f : Field) (items : List Literal) (r : Record)
      → evaluate (in_list f items false) r ≡ some true
      → member f (record_value r f) items ≡ true
  unfolding evaluate
  evaluate-member f items r h = elim (Bool-cases (is_null (record_value r f))) [
    | inl e ↦ cc (rw (e, evaluate) at h)
    | inr e ↦ of_some (rw (e, evaluate) at h)
  ]

  pub in_list-Admitted :
      (f : Field) (items : List Literal) (r : Record) (kind : Kind)
      → rt.casefold f.name ≡ f.name
      → all (λ (a : Literal). has_point kind a.value) items ≡ true
      → evaluate (in_list f items false) r ≡ some true
      → Admitted r (infer_in_list f kind (parse_literals parse items kind))
  unfolding infer_in_list
  in_list-Admitted f items r kind c p h =
      let (ns, e) = parse_points kind items p in
      let (m, q, k) =
        member-Listed f (record_value r f) kind items ns p e (evaluate-member f items r h) in
      rw e (listed ns m q k)
    where
      listed :
          (ns : List ℕ) (m : ℕ)
          → point kind (record_value r f) ≡ some m
          → any (λ n. n == m) ns ≡ true
          → Admitted r (infer_in_list f kind (some ns))
      listed [] m q k = cc
      listed (n ∷ ns) m q k =
          entry-Admitted f kind (some (bound (minimum n ns) true))
            (some (bound (maximum n ns) true)) r m c q (listed-bounds n ns m k)
