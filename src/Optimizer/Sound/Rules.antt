-- ===== src/Optimizer/Sound/Rules.antt =====
-- Every rewrite keeps the truth value of a predicate on the records where it is regular.
use yt_media_tools.Prelude.{
  both, ◌≡◌, refl, ap, ap₂, sym, ◌∙◌, Bool, true, false, ◌&&◌, ◌||◌, none, some, List, [], ◌∷◌, all,
  arith, Bool-cases, inl, inr, if◌then◌else◌,
}
use yt_media_tools.Query.Value.{is_null, equals, Value}
use yt_media_tools.Query.Model.{
  Field, Literal, Connective, and, or, Predicate, truth_literal, binary, in_list,
}
use yt_media_tools.Query.Semantics.{has_literal}
use yt_media_tools.Query.Semantics.Laws.{key_of_same, compare_field_of_key, member-cons}
use yt_media_tools.Query.Evaluator.{
  Runtime, Record, record_value, evaluate_boolean_binary, evaluate_not, compare_field, member,
  evaluate, is_truth, negate,
}
use yt_media_tools.Optimizer.Terms.{flatten, rebuild}
use yt_media_tools.Optimizer.Defs.{left_boolean_operand_dominates, is_identity, unique_values}
use yt_media_tools.Optimizer.Rewriting.{
  Removes, removes, Rewrites, unchanged, compose, in_unary, in_truth_test, in_binary, normalised,
  dominated, identity_left, identity_right, flattened, removed, degenerate, without_repeats,
  singleton,
}
use yt_media_tools.Optimizer.Sound.Regular.{is_regular}
use yt_media_tools.Optimizer.Sound.Chains.{
  chain-flatten, regular-flatten, evaluate-rebuild, chain-Inserts, regular-Inserts, chain-Occurs,
  regular-Occurs,
}
use yt_media_tools.Optimizer.Sound.Absorption.{evaluate-Absorbed}
use yt_media_tools.Optimizer.Sound.Leaves.{normalise_not_sound, degenerate_sound, singleton_sound}

-- What a rewrite keeps.
abbrev pub Keeps : ⦃rt : Runtime⦄ → Predicate → Predicate → Record → Type 0
Keeps p q r = (is_regular q r ≡ true) × (evaluate q r ≡ evaluate p r)

unique-all :
    (p : Literal → Bool) (seen items : List Literal)
    → all p items ≡ true
    → all p (unique_values seen items) ≡ true
unfolding unique_values
unique-all p seen [] h = refl
unique-all p seen (a ∷ items) h =
    ground (arith, unique-all p seen items, unique-all p (a ∷ seen) items)

module _ ⦃rt : Runtime⦄ where
  -- A value is among the unseen ones, or the seen ones hold it.
  member_seen :
      (f : Field) (v : Value) (a : Literal) (seen : List Literal)
      → has_literal a seen ≡ true
      → compare_field equals f v a.value ≡ true
      → member f v seen ≡ true
  unfolding has_literal member
  member_seen f v a [] h k = cc
  member_seen f v a (b ∷ seen) h k = rw member-cons (
      ground (
        arith,
        key_of_same a b,
        compare_field_of_key equals f v a.value b.value,
        member_seen f v a seen,
      ))

  member_unique :
      (f : Field) (v : Value) (seen items : List Literal)
      → (member f v seen || member f v (unique_values seen items))
        ≡ (member f v seen || member f v items)
  unfolding unique_values
  member_unique f v seen [] = refl
  member_unique f v seen (a ∷ items) = elim (Bool-cases (has_literal a seen)) [
    | inl e ↦
        rw (e, unique_values, member-cons f v a items)
          (ground (arith, member_unique f v seen items, member_seen f v a seen))
    | inr e ↦
        rw
          (
            e,
            unique_values,
            member-cons f v a items,
            member-cons f v a (unique_values (a ∷ seen) items),
          )
          (ground (arith, member_unique f v (a ∷ seen) items, member-cons f v a seen))
  ]

  unique-Keeps :
      (f : Field) (items : List Literal) (n : Bool) (r : Record)
      → is_regular (in_list f items n) r ≡ true
      → Keeps (in_list f items n) (in_list f (unique_values [] items) n) r
  unfolding is_regular evaluate member
  unique-Keeps f items n r h = (
    unique-all _ [] items h,
    ap (λ x. if is_null (record_value r f) then none else some (negate n x))
        (member_unique f (record_value r f) [] items),
  )

  dominated-Keeps :
      (op : Connective) (p q : Predicate) (r : Record)
      → left_boolean_operand_dominates op p ≡ true
      → is_regular (binary op p q) r ≡ true
      → Keeps (binary op p q) p r
  unfolding left_boolean_operand_dominates is_regular evaluate evaluate_boolean_binary
  dominated-Keeps and (truth_literal (some false)) q r e h = (refl, refl)
  dominated-Keeps or (truth_literal (some true)) q r e h = (refl, refl)
  dominated-Keeps op p q r e h = cc

  identity_left-Keeps :
      (op : Connective) (p q : Predicate) (r : Record)
      → is_identity op p ≡ true
      → is_regular (binary op p q) r ≡ true
      → Keeps (binary op p q) q r
  unfolding is_identity is_regular evaluate evaluate_boolean_binary
  identity_left-Keeps and (truth_literal (some true)) q r e h = (h, ground arith)
  identity_left-Keeps or (truth_literal (some false)) q r e h = (h, ground arith)
  identity_left-Keeps op p q r e h = cc

  identity_right-Keeps :
      (op : Connective) (p q : Predicate) (r : Record)
      → is_identity op q ≡ true
      → is_regular (binary op p q) r ≡ true
      → Keeps (binary op p q) p r
  unfolding is_identity is_regular evaluate evaluate_boolean_binary
  identity_right-Keeps and p (truth_literal (some true)) r e h = ((both _ _ h).0, ground arith)
  identity_right-Keeps or p (truth_literal (some false)) r e h = ((both _ _ h).0, ground arith)
  identity_right-Keeps op p q r e h = cc

  flattened-Keeps :
      (op : Connective) (p q : Predicate) (r : Record)
      → rebuild op (flatten op p) ≡ some q
      → is_regular p r ≡ true
      → Keeps p q r
  flattened-Keeps op p q r e h =
      let (v, g) = evaluate-rebuild op r (flatten op p) q e in
      (g ∙ regular-flatten op r p ∙ h, v ∙ chain-flatten op r p)

  removed-Keeps :
      (op : Connective) (p q : Predicate) (xs ys : List Predicate) (r : Record)
      → Removes op xs ys
      → rebuild op xs ≡ some p
      → rebuild op ys ≡ some q
      → is_regular p r ≡ true
      → Keeps p q r
  removed-Keeps op p q xs ys r (removes x z i o a) e e' h =
      let (v, g) = evaluate-rebuild op r xs p e in
      let (v', g') = evaluate-rebuild op r ys q e' in
      let (hx, hys) = both _ _ (sym (regular-Inserts op r i) ∙ sym g ∙ h) in
      let absorbed = evaluate-Absorbed op x z r a hx (regular-Occurs op r o hys) in
      (g' ∙ hys, v' ∙ sym (chain-Occurs op r x o absorbed) ∙ sym (chain-Inserts op r i) ∙ sym v)

  -- A rewritten predicate has the truth value of the original on a record where that is regular,
  -- and is regular there too.
  pub Rewrites-Keeps :
      {p q : Predicate} (r : Record) → Rewrites p q → is_regular p r ≡ true → Keeps p q r
  unfolding is_regular evaluate
  Rewrites-Keeps r unchanged h = (h, refl)
  Rewrites-Keeps r (compose a b) h =
      let (g, e) = Rewrites-Keeps r a h in let (g', e') = Rewrites-Keeps r b g in (g', e' ∙ e)
  Rewrites-Keeps r (in_unary a) h = let (g, e) = Rewrites-Keeps r a h in (g, ap evaluate_not e)
  Rewrites-Keeps r (in_truth_test t n a) h =
      let (g, e) = Rewrites-Keeps r a h in (g, ap (λ x. some (negate n (is_truth x t))) e)
  Rewrites-Keeps r (in_binary op a b) h =
      let (hp, hq) = both _ _ h in
      let (g, e) = Rewrites-Keeps r a hp in
      let (g', e') = Rewrites-Keeps r b hq in (ap₂ ◌&&◌ g g', ap₂ (evaluate_boolean_binary op) e e')
  Rewrites-Keeps r (normalised p) h = normalise_not_sound p r h
  Rewrites-Keeps r (dominated op p q e) h = dominated-Keeps op p q r e h
  Rewrites-Keeps r (identity_left op p q e) h = identity_left-Keeps op p q r e h
  Rewrites-Keeps r (identity_right op p q e) h = identity_right-Keeps op p q r e h
  Rewrites-Keeps {p} {q} r (flattened op _ _ e) h = flattened-Keeps op p q r e h
  Rewrites-Keeps {p} {q} r (removed op _ _ xs ys m e e') h = removed-Keeps op p q xs ys r m e e' h
  Rewrites-Keeps r (degenerate f a b n e) h = degenerate_sound f a b n r e h
  Rewrites-Keeps r (without_repeats f items n) h = unique-Keeps f items n r h
  Rewrites-Keeps r (singleton f a n) h = singleton_sound f a n r h
