-- ===== src/Provability/Terms.antt =====
-- What a term that is TRUE of a record says of its field.
use yt_media_tools.Prelude.{
  Bool, true, false, not, some, List, Text, All, All-append, ◌≡◌, refl, sym, ap, ◌∙◌, arith,
}
use yt_media_tools.Query.Like.{equal_text}
use yt_media_tools.Query.Like.Laws.{equal_text_iff}
use yt_media_tools.Query.Value.{
  Value, null, boolean, integer, text, day, instant, Operator, less_or_equal, is_null, holds,
}
use yt_media_tools.Query.Model.{
  Field, Literal, Truth, TextOperator, and, Predicate, binary, comparison, between, in_list,
  null_test, text_predicate,
}
use yt_media_tools.Query.Evaluator.{
  Runtime, Record, record_value, evaluate, evaluate_boolean_binary, member, ignores_case,
  evaluate_text,
}
use yt_media_tools.Query.Evaluator.Laws.{named, record_value-named}
use yt_media_tools.Optimizer.Sound.Dominance.{compare_field-holds}
use yt_media_tools.Provability.{Numerals, flatten_and, literal_value, literal_text, value_of}

-- a value whose text, if it is one, was quoted
abbrev pub Typed : Value → Bool → Type 0
Typed (text s) quoted = quoted ≡ true
Typed v quoted = Unit

abbrev pub IsTyped : Literal → Type 0
IsTyped literal = Typed literal.value literal.quoted

and_holds :
    (a b : Truth) → evaluate_boolean_binary and a b ≡ some true → (a ≡ some true) × (b ≡ some true)
unfolding evaluate_boolean_binary
and_holds a b h = ground (arith, h)

pub same_name :
    (name : Text) (f : Field) (r : Record)
    → equal_text f.name name ≡ true
    → record_value r f ≡ record_value r (named name)
same_name name f r h =
    sym (record_value-named r f)
    ∙ ap (λ n. record_value r (named n)) ((equal_text_iff f.name name).0 h)

module _ ⦃rt : Runtime⦄ where
  -- a term that folds no case, with typed literals
  abbrev pub IsExact : Predicate → Type 0
  IsExact (comparison op field literal) = (ignores_case field ≡ false) × IsTyped literal
  IsExact (between field lower upper negated) = IsTyped lower × IsTyped upper
  IsExact (in_list field values negated) = (ignores_case field ≡ false) × All IsTyped values
  IsExact p = Unit

  and_term :
      (p q : Predicate) (r : Record)
      → evaluate (binary and p q) r ≡ some true
      → (evaluate p r ≡ some true) × (evaluate q r ≡ some true)
  unfolding evaluate
  and_term p q r h = and_holds (evaluate p r) (evaluate q r) h

  pub flatten_and-holds :
      (p : Predicate) (r : Record)
      → evaluate p r ≡ some true
      → All (λ t. evaluate t r ≡ some true) (flatten_and p)
  unfolding flatten_and
  flatten_and-holds (binary and p q) r h =
      All-append _ (flatten_and p) (flatten_and q) (flatten_and-holds p r (and_term p q r h).0)
        (flatten_and-holds q r (and_term p q r h).1)
  flatten_and-holds p r h = (h, tt)

  -- a comparison that is TRUE
  pub comparison-parts :
      (op : Operator) (f : Field) (l : Literal) (r : Record)
      → ignores_case f ≡ false
      → evaluate (comparison op f l) r ≡ some true
      → (is_null (record_value r f) ≡ false) × (holds op (record_value r f) l.value ≡ true)
  unfolding evaluate
  comparison-parts op f l r c h =
      ground (arith, h, compare_field-holds op f (record_value r f) l.value c)

  -- a positive BETWEEN that is TRUE
  pub between-parts :
      (f : Field) (l u : Literal) (r : Record)
      → evaluate (between f l u false) r ≡ some true
      → (is_null (record_value r f) ≡ false)
        × (holds less_or_equal l.value (record_value r f) ≡ true)
        × (holds less_or_equal (record_value r f) u.value ≡ true)
  unfolding evaluate
  between-parts f l u r h = ground (arith, h)

  pub between-not_null :
      (f : Field) (l u : Literal) (n : Bool) (r : Record)
      → evaluate (between f l u n) r ≡ some true
      → is_null (record_value r f) ≡ false
  unfolding evaluate
  between-not_null f l u n r h = ground (arith, h)

  pub in_list-not_null :
      (f : Field) (values : List Literal) (n : Bool) (r : Record)
      → evaluate (in_list f values n) r ≡ some true
      → is_null (record_value r f) ≡ false
  unfolding evaluate
  in_list-not_null f values n r h = ground (arith, h)

  pub in_list-member :
      (f : Field) (values : List Literal) (r : Record)
      → evaluate (in_list f values false) r ≡ some true
      → member f (record_value r f) values ≡ true
  unfolding evaluate
  in_list-member f values r h = ground (arith, h)

  pub text-not_null :
      (op : TextOperator) (f : Field) (s : Text) (q n : Bool) (r : Record)
      → evaluate (text_predicate op f s q n) r ≡ some true
      → is_null (record_value r f) ≡ false
  unfolding evaluate evaluate_text
  text-not_null op f s q n r h = ground (arith, h)

  pub null_test-parts :
      (f : Field) (n : Bool) (r : Record)
      → evaluate (null_test f n) r ≡ some true
      → is_null (record_value r f) ≡ not n
  unfolding evaluate
  null_test-parts f n r h = ground (arith, h)

  module _ ⦃ns : Numerals⦄ where
    value_of-Typed : (v : Value) (quoted : Bool) → Typed v quoted → value_of v quoted ≡ v
    unfolding value_of literal_text
    value_of-Typed (text s) quoted h = rw h refl
    value_of-Typed null quoted h = refl
    value_of-Typed (boolean b) quoted h = refl
    value_of-Typed (integer i) quoted h = refl
    value_of-Typed (day d) quoted h = refl
    value_of-Typed (instant t) quoted h = refl

    pub literal_value-typed : (l : Literal) → IsTyped l → literal_value l ≡ l.value
    unfolding literal_value
    literal_value-typed l h = value_of-Typed l.value l.quoted h
