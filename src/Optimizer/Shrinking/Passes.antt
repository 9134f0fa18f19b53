-- ===== src/Optimizer/Shrinking/Passes.antt =====
-- The loop of `_optimise_predicate_fixed_point` comes to an end, at a fixed point.
use yt_media_tools.Prelude.{
  both, of_some, ap, sym, ◌∙◌, length, ◌+◌, ℕ, zero, suc, ◌<◌, ◌≡◌, refl, inl, inr, Bool, true,
  false, Option, none, some, List, [], ◌∷◌, arith, Bool-cases, Text,
}
use yt_media_tools.Prelude.Order.{
  compare_ℤ-IsTotalOrder, compare_text-IsTotalOrder, compare-IsTotalOrder,
}
use yt_media_tools.Query.Value.{
  Value, null, boolean, integer, text, day, instant, key, compare_keys, compare_values,
  equal_values,
}
use yt_media_tools.Query.Like.{equal_text}
use yt_media_tools.Query.Like.Laws.{equal_text_iff}
use yt_media_tools.Query.Model.{
  Field, Literal, Predicate, truth_literal, unary, binary, comparison, between, in_list, null_test,
  text_predicate, truth_test, Truth,
}
use yt_media_tools.Query.Evaluator.{is_truth}
use yt_media_tools.Query.Semantics.{
  same_bool, same_kind, same_field, same_literal, same_literals, same_operator, same_connective,
  same_text_operator, same_key,
}
use yt_media_tools.Optimizer.Defs.{optimise_node, optimise_passes}
use yt_media_tools.Optimizer.Rewriting.Follows.{optimise_node-Follows}
use yt_media_tools.Optimizer.Shrinking.{size}
use yt_media_tools.Optimizer.Shrinking.Rules.{Rewrites-Shrinks}

equal_text_self : (s : Text) → equal_text s s ≡ true
equal_text_self s = (equal_text_iff s s).1 refl

same_kind_self : (k : Option Text) → same_kind k k ≡ true
same_kind_self none = refl
same_kind_self (some s) = equal_text_self s

same_field_self : (f : Field) → same_field f f ≡ true
unfolding same_field
same_field_self f = rw (equal_text_self f.name, same_kind_self f.kind) refl

equal_values_self : (v : Value) → equal_values v v ≡ true
unfolding equal_values compare_values key compare_keys
equal_values_self null = refl
equal_values_self (boolean true) = refl
equal_values_self (boolean false) = refl
equal_values_self (integer i) = rw (equal_values, compare_ℤ-IsTotalOrder.self i) refl
equal_values_self (text s) = rw (equal_values, compare_text-IsTotalOrder.self s) refl
equal_values_self (day d) = rw (equal_values, compare-IsTotalOrder.self d) refl
equal_values_self (instant t) = rw (equal_values, compare-IsTotalOrder.self t) refl

same_bool_self : (b : Bool) → same_bool b b ≡ true
same_bool_self b = ground arith

is_truth_self : (t : Truth) → is_truth t t ≡ true
is_truth_self t = ground arith

same_literal_self : (a : Literal) → same_literal a a ≡ true
unfolding same_literal
same_literal_self a = rw (equal_values_self a.value, same_bool_self a.quoted) refl

same_literals_self : (items : List Literal) → same_literals items items ≡ true
unfolding same_literals
same_literals_self [] = refl
same_literals_self (a ∷ items) = rw (same_literal_self a, same_literals_self items) refl

same_operator_self : (o : _) → same_operator o o ≡ true
same_operator_self o = ground arith

same_connective_self : (o : _) → same_connective o o ≡ true
same_connective_self o = ground arith

same_text_operator_self : (o : _) → same_text_operator o o ≡ true
same_text_operator_self o = ground arith

same_key_self : (p : Predicate) → same_key p p ≡ true
unfolding same_key
same_key_self (truth_literal t) = is_truth_self t
same_key_self (unary p) = same_key_self p
same_key_self (binary c p q) = rw (same_connective_self c, same_key_self p, same_key_self q) refl
same_key_self (comparison o f a) =
    rw (same_operator_self o, same_field_self f, same_literal_self a) refl
same_key_self (between f a b n) =
    rw (same_field_self f, same_literal_self a, same_literal_self b, same_bool_self n) refl
same_key_self (in_list f items n) =
    rw (same_field_self f, same_literals_self items, same_bool_self n) refl
same_key_self (null_test f n) = rw (same_field_self f, same_bool_self n) refl
same_key_self (text_predicate o f s k n) =
    rw
      (
        same_text_operator_self o,
        same_field_self f,
        equal_text_self s,
        same_bool_self k,
        same_bool_self n,
      )
      refl
same_key_self (truth_test p t n) = rw (same_key_self p, is_truth_self t, same_bool_self n) refl

length-same_literals :
    (items others : List Literal) → same_literals items others ≡ true → length items ≡ length others
unfolding same_literals
length-same_literals [] [] h = refl
length-same_literals [] (b ∷ bs) h = cc
length-same_literals (a ∷ items) [] h = cc
length-same_literals (a ∷ items) (b ∷ bs) h =
    ap suc (length-same_literals items bs (both (same_literal a b) _ h).1)

-- predicates with one semantic key have one size
size-same_key : (p q : Predicate) → same_key p q ≡ true → size p ≡ size q
unfolding size same_key
size-same_key (truth_literal s) (truth_literal t) h = refl
size-same_key (unary p) (unary q) h = ap suc (size-same_key p q h)
size-same_key (binary c p p') (binary d q q') h =
    let (hcp, hp') = both _ _ h in
    let (hc, hp) = both _ _ hcp in omega (arith, size-same_key p q hp, size-same_key p' q' hp')
size-same_key (comparison o f a) (comparison o' g b) h = refl
size-same_key (between f a b n) (between g c d m) h = refl
size-same_key (in_list f items n) (in_list g others m) h =
    let (hfi, hn) = both _ _ h in
    ap (λ k. 3 + k) (length-same_literals items others (both _ _ hfi).1)
size-same_key (null_test f n) (null_test g m) h = refl
size-same_key (text_predicate o f s k n) (text_predicate o' g t l m) h = refl
size-same_key (truth_test p s n) (truth_test q t m) h =
    let (hps, hn) = both _ _ h in ap suc (size-same_key p q (both _ _ hps).0)
size-same_key p q h = cc

pub optimise_passes-returns :
    (k : ℕ) (p : Predicate) → size p < k → (q : Predicate) × (optimise_passes k p ≡ some q)
unfolding optimise_passes
optimise_passes-returns zero p h = ground arith
optimise_passes-returns (suc k) p h =
    let (s, e, r) = optimise_node-Follows p in
    elim (Bool-cases (same_key s p)) [
      | inl stop ↦ (p, rw (e, stop, optimise_passes) refl)
      | inr differ ↦ elim (Rewrites-Shrinks r) [
        | inl same_node ↦ cc (differ, same_node, same_key_self p)
        | inr smaller ↦
            let (q, f) = optimise_passes-returns k s (omega (arith, h, smaller)) in
            (q, rw (e, differ, optimise_passes) f)
      ]
    ]

-- A pass that keeps the semantic key changes nothing at all.
pass_of_same_key : (p s : Predicate) → optimise_node p ≡ some s → same_key s p ≡ true → s ≡ p
pass_of_same_key p s e k =
    let (t, f, r) = optimise_node-Follows p in
    let same : t ≡ s = of_some (sym f ∙ e) in
    elim (Rewrites-Shrinks r) [
      | inl u ↦ sym same ∙ u
      | inr smaller ↦ absurd (omega (arith, smaller, ap size same, size-same_key s p k))
    ]

-- For more passes than the predicate's size, the loop returns a predicate that a further pass leaves
-- exactly as it is.
pub optimise_passes-IsFixed :
    (k : ℕ) (p : Predicate)
    → size p < k
    → (q : Predicate) × (optimise_passes k p ≡ some q) × (optimise_node q ≡ some q)
unfolding optimise_passes
optimise_passes-IsFixed zero p h = ground arith
optimise_passes-IsFixed (suc k) p h =
    let (s, e, r) = optimise_node-Follows p in
    elim (Bool-cases (same_key s p)) [
      | inl stop ↦
          (p, rw (e, stop, optimise_passes) refl, e ∙ ap some (pass_of_same_key p s e stop))
      | inr differ ↦ elim (Rewrites-Shrinks r) [
        | inl same_node ↦ cc (differ, same_node, same_key_self p)
        | inr smaller ↦
            let (q, f, g) = optimise_passes-IsFixed k s (omega (arith, h, smaller)) in
            (q, rw (e, differ, optimise_passes) f, g)
      ]
    ]
