-- ===== src/Optimizer/Sound/Subsumption.antt =====
-- A membership test that `_simplify_memberships` drops changes nothing beside the one that it keeps.
use yt_media_tools.Prelude.{
  ◌≡◌, refl, Bool, true, false, not, none, some, List, [], ◌∷◌, all, arith, Bool-cases, inl, inr,
}
use yt_media_tools.Query.Value.{Value, equals, is_null}
use yt_media_tools.Query.Model.{Field, Literal, Connective, and, or, comparison, in_list}
use yt_media_tools.Query.Semantics.{has_literal}
use yt_media_tools.Query.Semantics.Laws.{
  key_of_same, is_null_of_key, compare_field_of_key, member-cons,
}
use yt_media_tools.Query.Evaluator.{
  Runtime, Record, record_value, evaluate_boolean_binary, compare_field, member, evaluate,
}
use yt_media_tools.Optimizer.Bounds.{left, right}
use yt_media_tools.Optimizer.Memberships.{is_subset, keep_narrow}
use yt_media_tools.Optimizer.Sound.Regular.{is_regular}
use yt_media_tools.Optimizer.Sound.Dominance.{Kept, Kept-none}

narrow-left :
    (op : Connective) (x y : Bool)
    → (x ≡ true → y ≡ true)
    → Kept op (keep_narrow op left) (some x) (some y)
unfolding evaluate_boolean_binary
narrow-left and x y h = ground arith
narrow-left or x y h = ground arith

narrow-right :
    (op : Connective) (x y : Bool)
    → (y ≡ true → x ≡ true)
    → Kept op (keep_narrow op right) (some x) (some y)
unfolding evaluate_boolean_binary
narrow-right and x y h = ground arith
narrow-right or x y h = ground arith

null_of_has :
    (b : Literal) (items : List Literal)
    → has_literal b items ≡ true
    → all (λ (a : Literal). not (is_null a.value)) items ≡ true
    → is_null b.value ≡ false
unfolding has_literal
null_of_has b [] h k = cc
null_of_has b (a ∷ items) h k =
    ground (arith, key_of_same b a, is_null_of_key b.value a.value, null_of_has b items)

module _ ⦃rt : Runtime⦄ (f : Field) where
  member_of_has :
      (v : Value) (b : Literal) (items : List Literal)
      → has_literal b items ≡ true
      → compare_field equals f v b.value ≡ true
      → member f v items ≡ true
  unfolding has_literal
  member_of_has v b [] h k = cc
  member_of_has v b (a ∷ items) h k = rw member-cons (
      ground (
        arith,
        key_of_same b a,
        compare_field_of_key equals f v b.value a.value,
        member_of_has v b items,
      ))

  member_of_subset :
      (v : Value) (items others : List Literal)
      → is_subset items others ≡ true
      → member f v items ≡ true
      → member f v others ≡ true
  unfolding is_subset member
  member_of_subset v [] others h k = cc
  member_of_subset v (a ∷ items) others h k =
      ground
        (arith, member-cons f v a items, member_of_has v a others, member_of_subset v items others)

  module _ (r : Record) where
    in_list-null :
        (items : List Literal) (n : Bool)
        → is_null (record_value r f) ≡ true
        → evaluate (in_list f items n) r ≡ none
    unfolding evaluate
    in_list-null items n h = rw h refl

    in_list-member :
        (items : List Literal)
        → is_null (record_value r f) ≡ false
        → evaluate (in_list f items false) r ≡ some (member f (record_value r f) items)
    unfolding evaluate
    in_list-member items h = rw h refl

    equality-null :
        (b : Literal)
        → is_null (record_value r f) ≡ true
        → evaluate (comparison equals f b) r ≡ none
    unfolding evaluate
    equality-null b h = rw h refl

    equality-compare :
        (b : Literal)
        → is_null (record_value r f) ≡ false
        → is_null b.value ≡ false
        → evaluate (comparison equals f b) r
          ≡ some (compare_field equals f (record_value r f) b.value)
    unfolding evaluate
    equality-compare b h k = rw (h, k) refl

    pub subset-Kept :
        (op : Connective) (items others : List Literal)
        → is_subset items others ≡ true
        → Kept op
            (keep_narrow op left)
            (evaluate (in_list f items false) r)
            (evaluate (in_list f others false) r)
    subset-Kept op items others h =
        let v = record_value r f in
        elim (Bool-cases (is_null v)) [
          | inl n ↦ rw (in_list-null items false n, in_list-null others false n) (Kept-none op _)
          | inr n ↦
              rw (in_list-member items n, in_list-member others n)
                (narrow-left op _ _ (member_of_subset v items others h))
        ]

    pub superset-Kept :
        (op : Connective) (items others : List Literal)
        → is_subset others items ≡ true
        → Kept op
            (keep_narrow op right)
            (evaluate (in_list f items false) r)
            (evaluate (in_list f others false) r)
    superset-Kept op items others h =
        let v = record_value r f in
        elim (Bool-cases (is_null v)) [
          | inl n ↦ rw (in_list-null items false n, in_list-null others false n) (Kept-none op _)
          | inr n ↦
              rw (in_list-member items n, in_list-member others n)
                (narrow-right op _ _ (member_of_subset v others items h))
        ]

    pub equality_right-Kept :
        (op : Connective) (items : List Literal) (b : Literal)
        → has_literal b items ≡ true
        → is_regular (in_list f items false) r ≡ true
        → Kept op
            (keep_narrow op right)
            (evaluate (in_list f items false) r)
            (evaluate (comparison equals f b) r)
    unfolding is_regular
    equality_right-Kept op items b h k =
        let v = record_value r f in
        elim (Bool-cases (is_null v)) [
          | inl n ↦ rw (in_list-null items false n, equality-null b n) (Kept-none op _)
          | inr n ↦
              rw (in_list-member items n, equality-compare b n (null_of_has b items h k))
                (narrow-right op _ _ (member_of_has v b items h))
        ]

    pub equality_left-Kept :
        (op : Connective) (items : List Literal) (b : Literal)
        → has_literal b items ≡ true
        → is_regular (in_list f items false) r ≡ true
        → Kept op
            (keep_narrow op left)
            (evaluate (comparison equals f b) r)
            (evaluate (in_list f items false) r)
    unfolding is_regular
    equality_left-Kept op items b h k =
        let v = record_value r f in
        elim (Bool-cases (is_null v)) [
          | inl n ↦ rw (in_list-null items false n, equality-null b n) (Kept-none op _)
          | inr n ↦
              rw (in_list-member items n, equality-compare b n (null_of_has b items h k))
                (narrow-left op _ _ (member_of_has v b items h))
        ]
