-- ===== src/Query/Semantics/Laws.antt =====
-- Predicates with one semantic key evaluate alike.
use yt_media_tools.Prelude.{
  both, ◌≡◌, refl, ap, ◌∙◌, Bool, true, List, [], ◌∷◌, ◌||◌, ap₂, arith, Option, none, some, Text,
}
use yt_media_tools.Query.Value.{
  Value, text, key, is_null, Operator, equals, less_or_equal, compare_keys, compare_values,
  equal_values, holds,
}
use yt_media_tools.Query.Value.Laws.{key_of_equal}
use yt_media_tools.Query.Model.{
  Field, Literal, Connective, TextOperator, Truth, Predicate, truth_literal, unary, binary,
  comparison, between, in_list, null_test, text_predicate, truth_test,
}
use yt_media_tools.Query.Like.Laws.{equal_text_iff}
use yt_media_tools.Query.Evaluator.{
  Runtime, Record, comparison_values, compare_field, member, evaluate, record_value, is_truth,
  evaluate_not, evaluate_text,
}
use yt_media_tools.Query.Semantics.{
  same_bool, same_operator, same_connective, same_text_operator, same_kind, same_field,
  same_literal, same_literals, same_key,
}

pub is_null_of_key : (v w : Value) → key v ≡ key w → is_null v ≡ is_null w
unfolding key
is_null_of_key v w h = ground arith

pub compare_values_of_key :
    (u v w : Value) → key v ≡ key w → compare_values u v ≡ compare_values u w
unfolding compare_values
compare_values_of_key u v w h = rw h

pub holds_of_key : (op : Operator) (u v w : Value) → key v ≡ key w → holds op u v ≡ holds op u w
unfolding holds equal_values
holds_of_key op u v w h = ground (arith, compare_values_of_key u v w h, is_null_of_key v w h)

kind_of_same : (k l : Option Text) → same_kind k l ≡ true → k ≡ l
kind_of_same none none h = refl
kind_of_same (some s) (some t) h = ground (arith, equal_text_iff s t)
kind_of_same _ _ h = cc

pub field_of_same : (f g : Field) → same_field f g ≡ true → f ≡ g
unfolding same_field
field_of_same f g h = ground (arith, equal_text_iff f.name g.name, kind_of_same f.kind g.kind)

pub key_of_same : (a b : Literal) → same_literal a b ≡ true → key a.value ≡ key b.value
unfolding same_literal
key_of_same a b h = ground (arith, key_of_equal a.value b.value)

pub holds_of_key_left :
    (op : Operator) (u v w : Value) → key v ≡ key w → holds op v u ≡ holds op w u
unfolding holds equal_values compare_values
holds_of_key_left op u v w h =
    ground (arith, ap (λ k. compare_keys k (key u)) h, is_null_of_key v w h)

truth_of_same : (s t : Truth) → is_truth s t ≡ true → s ≡ t
truth_of_same s t h = ground arith

bool_of_same : (a b : Bool) → same_bool a b ≡ true → a ≡ b
bool_of_same a b h = ground arith

pub operator_of_same : (a b : Operator) → same_operator a b ≡ true → a ≡ b
operator_of_same a b h = ground arith

pub connective_of_same : (a b : Connective) → same_connective a b ≡ true → a ≡ b
connective_of_same a b h = ground arith

text_operator_of_same : (a b : TextOperator) → same_text_operator a b ≡ true → a ≡ b
text_operator_of_same a b h = ground arith

text_of_key : (s t : Text) → key (text s) ≡ key (text t) → s ≡ t
unfolding key
text_of_key s t h = ground arith

module _ ⦃rt : Runtime⦄ where
  pub compare_field_of_key :
      (op : Operator) (f : Field) (u v w : Value)
      → key v ≡ key w
      → compare_field op f u v ≡ compare_field op f u w
  unfolding compare_field comparison_values key
  compare_field_of_key op f (text s) (text t) (text t') h =
      ap (λ x. compare_field op f (text s) (text x)) (text_of_key t t' h)
  compare_field_of_key op f (text s) (text t) w h = cc
  compare_field_of_key op f (text s) v (text t) h = cc
  compare_field_of_key op f u v w h = holds_of_key op u v w h

  -- One item of IN, as a comparison with `=`.
  pub member-cons :
      (f : Field) (v : Value) (a : Literal) (items : List Literal)
      → member f v (a ∷ items) ≡ (compare_field equals f v a.value || member f v items)
  unfolding member compare_field holds
  member-cons f v a items = refl

  member_of_same :
      (f : Field) (v : Value) (items others : List Literal)
      → same_literals items others ≡ true
      → member f v items ≡ member f v others
  unfolding same_literals
  member_of_same f v [] [] h = refl
  member_of_same f v [] (b ∷ bs) h = cc
  member_of_same f v (a ∷ rest) [] h = cc
  member_of_same f v (a ∷ rest) (b ∷ bs) h =
      rw (member-cons, member-cons)
        (ground (
          arith,
          key_of_same a b,
          compare_field_of_key equals f v a.value b.value,
          member_of_same f v rest bs,
        ))

  comparison_of_key :
      (r : Record) (o : Operator) (f : Field) (a b : Literal)
      → key a.value ≡ key b.value
      → evaluate (comparison o f a) r ≡ evaluate (comparison o f b) r
  unfolding evaluate
  comparison_of_key r o f a b h =
      let v = record_value r f in
      rw (is_null_of_key a.value b.value h, compare_field_of_key o f v a.value b.value h)

  between_of_key :
      (r : Record) (f : Field) (a b c d : Literal) (n : Bool)
      → key a.value ≡ key c.value
      → key b.value ≡ key d.value
      → evaluate (between f a b n) r ≡ evaluate (between f c d n) r
  unfolding evaluate
  between_of_key r f a b c d n h k =
      let v = record_value r f in
      rw (
        holds_of_key_left less_or_equal v a.value c.value h,
        holds_of_key less_or_equal v b.value d.value k,
      )

  in_list_of_same :
      (r : Record) (f : Field) (items others : List Literal) (n : Bool)
      → same_literals items others ≡ true
      → evaluate (in_list f items n) r ≡ evaluate (in_list f others n) r
  unfolding evaluate
  in_list_of_same r f items others n h = rw (member_of_same f (record_value r f) items others h)

  -- Predicates with the same semantic key have the same truth value on every record.
  pub evaluate_of_same_key :
      (p q : Predicate) (r : Record) → same_key p q ≡ true → evaluate p r ≡ evaluate q r
  unfolding same_key evaluate
  evaluate_of_same_key (truth_literal s) (truth_literal t) r h = truth_of_same s t h
  evaluate_of_same_key (unary p) (unary q) r h = ap evaluate_not (evaluate_of_same_key p q r h)
  evaluate_of_same_key (binary c p p') (binary d q q') r h =
      let (hcp, hp') = both _ _ h in
      let (hc, hp) = both _ _ hcp in
      rw
        (connective_of_same c d hc, evaluate_of_same_key p q r hp, evaluate_of_same_key p' q' r hp')
  evaluate_of_same_key (comparison o f a) (comparison o' g b) r h =
      let (hof, ha) = both _ _ h in
      let (ho, hf) = both _ _ hof in
      ap₂ (λ x y. evaluate (comparison x y a) r) (operator_of_same o o' ho) (field_of_same f g hf)
      ∙ comparison_of_key r o' g a b (key_of_same a b ha)
  evaluate_of_same_key (between f a b n) (between g c d m) r h =
      let (hfab, hn) = both _ _ h in
      let (hfa, hb) = both _ _ hfab in
      let (hf, ha) = both _ _ hfa in
      ap₂ (λ x y. evaluate (between x a b y) r) (field_of_same f g hf) (bool_of_same n m hn)
      ∙ between_of_key r g a b c d m (key_of_same a c ha) (key_of_same b d hb)
  evaluate_of_same_key (in_list f items n) (in_list g others m) r h =
      let (hfi, hn) = both _ _ h in
      let (hf, hi) = both _ _ hfi in
      ap₂ (λ x y. evaluate (in_list x items y) r) (field_of_same f g hf) (bool_of_same n m hn)
      ∙ in_list_of_same r g items others m hi
  evaluate_of_same_key (null_test f n) (null_test g m) r h =
      let (hf, hn) = both _ _ h in
      ap₂ (λ x y. evaluate (null_test x y) r) (field_of_same f g hf) (bool_of_same n m hn)
  evaluate_of_same_key (text_predicate o f s k n) (text_predicate o' g t l m) r h =
      let (hofsk, hn) = both _ _ h in
      let (hofs, _) = both _ _ hofsk in
      let (hof, hs) = both _ _ hofs in
      let (ho, hf) = both _ _ hof in
      ap₂ (λ x y. evaluate_text x (record_value r y) s n) (text_operator_of_same o o' ho)
        (field_of_same f g hf)
      ∙ ap₂ (λ x y. evaluate_text o' (record_value r g) x y) ((equal_text_iff s t).0 hs)
          (bool_of_same n m hn)
  evaluate_of_same_key (truth_test p s n) (truth_test q t m) r h =
      let (hps, hn) = both _ _ h in
      let (hp, hs) = both _ _ hps in
      rw (evaluate_of_same_key p q r hp, truth_of_same s t hs, bool_of_same n m hn)
  evaluate_of_same_key _ _ r h = cc
