-- ===== src/Optimizer/Shrinking/Rules.antt =====
-- Every rewrite but the trivial ones makes a predicate smaller.
use yt_media_tools.Prelude.{
  ◌<◌, ◌≡◌, refl, ap, ap₂, sym, ◌∙◌, ◌⊎◌, inl, inr, List, [], ◌∷◌, length, arith, Bool-cases,
}
use yt_media_tools.Query.Model.{
  Literal, Connective, Predicate, truth_literal, unary, binary, comparison, between, in_list,
  null_test, text_predicate, truth_test,
}
use yt_media_tools.Query.Semantics.{has_literal}
use yt_media_tools.Optimizer.Defs.{normalise_not, unique_values}
use yt_media_tools.Optimizer.Rewriting.{
  removes, Rewrites, unchanged, compose, in_unary, in_truth_test, in_binary, normalised, dominated,
  identity_left, identity_right, flattened, removed, degenerate, without_repeats, singleton,
}
use yt_media_tools.Optimizer.Shrinking.{size, Shrinks}
use yt_media_tools.Optimizer.Shrinking.Chains.{flattened-Shrinks, removed-Shrinks}

unique-Shrinks :
    (seen items : List Literal)
    → (unique_values seen items ≡ items) ⊎ (length (unique_values seen items) < length items)
unfolding unique_values
unique-Shrinks seen [] = inl refl
unique-Shrinks seen (a ∷ items) = elim (Bool-cases (has_literal a seen)) [
  | inl e ↦
      rw (e, unique_values)
        (elim (unique-Shrinks seen items) [
          | inl f ↦ inr (rw f (omega arith))
          | inr h ↦ inr (omega (arith, h))
        ])
  | inr e ↦
      rw (e, unique_values)
        (elim (unique-Shrinks (a ∷ seen) items) [
          | inl f ↦ inl (ap (◌∷◌ a) f)
          | inr h ↦ inr (omega (arith, h))
        ])
]

normalised-Shrinks : (p : Predicate) → Shrinks (unary p) (normalise_not p)
unfolding normalise_not size
normalised-Shrinks (truth_literal t) = inl refl
normalised-Shrinks (binary op p q) = inl refl
normalised-Shrinks (unary p) = inr (omega arith)
normalised-Shrinks (comparison o f a) = inr (omega arith)
normalised-Shrinks (between f a b n) = inr (omega arith)
normalised-Shrinks (in_list f items n) = inr (omega arith)
normalised-Shrinks (null_test f n) = inr (omega arith)
normalised-Shrinks (text_predicate o f s k n) = inr (omega arith)
normalised-Shrinks (truth_test p t n) = inr (omega arith)

compose-Shrinks : (p q s : Predicate) → Shrinks p q → Shrinks q s → Shrinks p s
compose-Shrinks p q s (inl e) (inl f) = inl (f ∙ e)
compose-Shrinks p q s (inl e) (inr f) = inr (rw (sym e) f)
compose-Shrinks p q s (inr e) (inl f) = inr (rw f e)
compose-Shrinks p q s (inr e) (inr f) = inr (omega (arith, e, f))

binary-Shrinks :
    (op : Connective) (p q p' q' : Predicate)
    → Shrinks p p'
    → Shrinks q q'
    → Shrinks (binary op p q) (binary op p' q')
unfolding size
binary-Shrinks op p q p' q' (inl e) (inl f) = inl (ap₂ (binary op) e f)
binary-Shrinks op p q p' q' (inl e) (inr f) = inr (rw e (omega (arith, f)))
binary-Shrinks op p q p' q' (inr e) (inl f) = inr (rw f (omega (arith, e)))
binary-Shrinks op p q p' q' (inr e) (inr f) = inr (omega (arith, e, f))

-- A rewrite changes nothing or makes the predicate smaller.
pub Rewrites-Shrinks : {p q : Predicate} → Rewrites p q → Shrinks p q
unfolding size
Rewrites-Shrinks unchanged = inl refl
Rewrites-Shrinks (compose {p} {q} {s} a b) =
    compose-Shrinks p q s (Rewrites-Shrinks a) (Rewrites-Shrinks b)
Rewrites-Shrinks (in_unary a) = elim (Rewrites-Shrinks a) [
  | inl e ↦ inl (ap unary e)
  | inr h ↦ inr (omega (arith, h))
]
Rewrites-Shrinks (in_truth_test t n a) = elim (Rewrites-Shrinks a) [
  | inl e ↦ inl (ap (λ x. truth_test x t n) e)
  | inr h ↦ inr (omega (arith, h))
]
Rewrites-Shrinks (in_binary {p} {q} {p'} {q'} op a b) =
    binary-Shrinks op p q p' q' (Rewrites-Shrinks a) (Rewrites-Shrinks b)
Rewrites-Shrinks (normalised p) = normalised-Shrinks p
Rewrites-Shrinks (dominated op p q e) = inr (omega arith)
Rewrites-Shrinks (identity_left op p q e) = inr (omega arith)
Rewrites-Shrinks (identity_right op p q e) = inr (omega arith)
Rewrites-Shrinks (flattened op p q e) = flattened-Shrinks op p q e
Rewrites-Shrinks (removed op p q xs ys (removes x z i o a) e e') =
    inr (removed-Shrinks op p q i e e')
Rewrites-Shrinks (degenerate f a b n e) = inr (omega arith)
Rewrites-Shrinks (without_repeats f items n) = elim (unique-Shrinks [] items) [
  | inl e ↦ inl (ap (λ l. in_list f l n) e)
  | inr h ↦ inr (omega (arith, h))
]
Rewrites-Shrinks (singleton f a n) = inr (omega arith)
