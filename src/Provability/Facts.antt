-- ===== src/Provability/Facts.antt =====
-- What the terms that are TRUE of a record add to the dicts of the proof, and why it holds.
use yt_media_tools.Prelude.{
  Bool, true, false, not, ◌&&◌, ◌||◌, some, List, [], ◌∷◌, Text, any, All, ◌≡◌, sym, ap, ◌∙◌, arith,
  if◌then◌else◌, Bool-cases, inl, inr,
}
use yt_media_tools.Query.Like.{equal_text}
use yt_media_tools.Query.Value.{Value, Operator, is_null, equal_values, holds, compare_values}
use yt_media_tools.Query.Value.Equality.{holds-turn}
use yt_media_tools.Query.Model.{
  Field, Literal, Predicate, truth_literal, unary, binary, comparison, between, in_list, null_test,
  text_predicate, truth_test,
}
use yt_media_tools.Query.Evaluator.{
  Runtime, Record, record_value, evaluate, member, comparison_values, ignores_case,
}
use yt_media_tools.Query.Evaluator.Laws.{named}
use yt_media_tools.Provability.{
  Numerals, literal_value, with_value, term_constraints, present_values, term_domains,
  requires_null, rejects_null,
}
use yt_media_tools.Provability.Constraints.{Satisfied}
use yt_media_tools.Provability.Terms.{
  IsTyped, IsExact, same_name, comparison-parts, between-parts, between-not_null, in_list-not_null,
  in_list-member, text-not_null, null_test-parts, literal_value-typed,
}

module _ ⦃rt : Runtime⦄ ⦃ns : Numerals⦄ where
  with_value-Satisfied :
      (x : Value) (op : Operator) (v : Value)
      → holds op x v ≡ true
      → All (Satisfied x) (with_value op v)
  unfolding with_value
  with_value-Satisfied x op v h = elim (Bool-cases (is_null v)) [
    | inl e ↦ rw (e, if◌then◌else◌) tt
    | inr e ↦ rw (e, if◌then◌else◌) (h, tt)
  ]

  -- what a TRUE term adds to the constraints of a field holds of the field's value
  pub term-Satisfied :
      (name : Text) (t : Predicate) (r : Record)
      → IsExact t
      → evaluate t r ≡ some true
      → All (Satisfied (record_value r (named name))) (term_constraints name t)
  unfolding term_constraints
  term-Satisfied name (comparison op f l) r x h = elim (Bool-cases (equal_text f.name name)) [
    | inl e ↦
        let p = comparison-parts op f l r x.0 h in
        rw (e, if◌then◌else◌, literal_value-typed l x.1)
          (with_value-Satisfied _ op l.value (rw (same_name name f r e) at p.1))
    | inr e ↦ rw (e, if◌then◌else◌) tt
  ]
  term-Satisfied name (between f l u false) r x h =
      elim (Bool-cases
        (equal_text f.name name && not (is_null (literal_value l) || is_null (literal_value u)))) [
          | inl e ↦
              let p = between-parts f l u r h in
              let k = same_name name f r (ground (arith, e)) in
              rw (e, if◌then◌else◌, literal_value-typed l x.0, literal_value-typed u x.1)
                (rw (holds-turn l.value (record_value r f), k) at p.1, (rw k at p.2, tt))
          | inr e ↦ rw (e, if◌then◌else◌) tt
        ]
  term-Satisfied name (between f l u true) r x h = tt
  term-Satisfied name (truth_literal t) r x h = tt
  term-Satisfied name (unary p) r x h = tt
  term-Satisfied name (binary op p q) r x h = tt
  term-Satisfied name (in_list f values n) r x h = tt
  term-Satisfied name (null_test f n) r x h = tt
  term-Satisfied name (text_predicate op f s q n) r x h = tt
  term-Satisfied name (truth_test p t n) r x h = tt

  equal-null : (v w : Value) → is_null v ≡ false → is_null w ≡ true → equal_values v w ≡ false
  unfolding equal_values compare_values
  equal-null v w h k = ground (arith, h, k)

  item-equal :
      (f : Field) (v : Value) (item : Literal)
      → ignores_case f ≡ false
      → comparison_values f v item.value ≡ (v, item.value)
  unfolding comparison_values
  item-equal f v item c = ground (arith, c)

  member-any :
      (f : Field) (v : Value) (values : List Literal)
      → ignores_case f ≡ false
      → is_null v ≡ false
      → All IsTyped values
      → member f v values ≡ true
      → any (equal_values v) (present_values values) ≡ true
  unfolding member present_values
  member-any f v [] c n x h = cc h
  member-any f v (item ∷ items) c n x h = elim (Bool-cases (is_null item.value)) [
    | inl e ↦
        let m = rw (item-equal f v item c, equal-null v item.value n e) at h in
        rw (literal_value-typed item x.0, e, if◌then◌else◌) (member-any f v items c n x.1 m)
    | inr e ↦
        let m = rw (item-equal f v item c) at h in
        rw (literal_value-typed item x.0, e, if◌then◌else◌)
          (ground (arith, m, member-any f v items c n x.1))
  ]

  pub term-member :
      (name : Text) (t : Predicate) (r : Record)
      → IsExact t
      → evaluate t r ≡ some true
      → All (λ d. any (equal_values (record_value r (named name))) d ≡ true) (term_domains name t)
  unfolding term_domains
  term-member name (in_list f values false) r x h = elim (Bool-cases (equal_text f.name name)) [
    | inl e ↦
        let m =
          member-any f (record_value r f) values x.0 (in_list-not_null f values false r h) x.1
            (in_list-member f values r h) in
        rw (e, if◌then◌else◌) (rw (same_name name f r e) at m, tt)
    | inr e ↦ rw (e, if◌then◌else◌) tt
  ]
  term-member name (in_list f values true) r x h = tt
  term-member name (comparison op f l) r x h = tt
  term-member name (between f l u n) r x h = tt
  term-member name (truth_literal t) r x h = tt
  term-member name (unary p) r x h = tt
  term-member name (binary op p q) r x h = tt
  term-member name (null_test f n) r x h = tt
  term-member name (text_predicate op f s q n) r x h = tt
  term-member name (truth_test p t n) r x h = tt

  -- a term that requires NULL, requires a value or rejects NULL
  pub null-required :
      (name : Text) (t : Predicate) (r : Record) (required : Bool)
      → evaluate t r ≡ some true
      → requires_null required name t ≡ true
      → is_null (record_value r (named name)) ≡ required
  unfolding requires_null
  null-required name (null_test f n) r true h k =
      sym (ap is_null (same_name name f r (ground (arith, k))))
      ∙ null_test-parts f n r h
      ∙ ground (arith, k)
  null-required name (null_test f n) r false h k =
      sym (ap is_null (same_name name f r (ground (arith, k))))
      ∙ null_test-parts f n r h
      ∙ ground (arith, k)
  null-required name (comparison op f l) r required h k = cc k
  null-required name (between f l u n) r required h k = cc k
  null-required name (in_list f values n) r required h k = cc k
  null-required name (truth_literal t) r required h k = cc k
  null-required name (unary p) r required h k = cc k
  null-required name (binary op p q) r required h k = cc k
  null-required name (text_predicate op f s q n) r required h k = cc k
  null-required name (truth_test p t n) r required h k = cc k

  pub null-rejected :
      (name : Text) (t : Predicate) (r : Record)
      → IsExact t
      → evaluate t r ≡ some true
      → rejects_null name t ≡ true
      → is_null (record_value r (named name)) ≡ false
  unfolding rejects_null
  null-rejected name (comparison op f l) r x h k =
      sym (ap is_null (same_name name f r (ground (arith, k))))
      ∙ (comparison-parts op f l r x.0 h).0
  null-rejected name (between f l u n) r x h k =
      sym (ap is_null (same_name name f r k)) ∙ between-not_null f l u n r h
  null-rejected name (in_list f values n) r x h k =
      sym (ap is_null (same_name name f r k)) ∙ in_list-not_null f values n r h
  null-rejected name (text_predicate op f s q n) r x h k =
      sym (ap is_null (same_name name f r k)) ∙ text-not_null op f s q n r h
  null-rejected name (null_test f n) r x h k =
      sym (ap is_null (same_name name f r (ground (arith, k))))
      ∙ null_test-parts f n r h
      ∙ ground (arith, k)
  null-rejected name (truth_literal t) r x h k = cc k
  null-rejected name (unary p) r x h k = cc k
  null-rejected name (binary op p q) r x h k = cc k
  null-rejected name (truth_test p t n) r x h k = cc k
