-- ===== src/Optimizer/Rewriting.antt =====
-- The rewrites of optimizer.py as a relation.
pub mod Thins
pub mod Loops
pub mod Follows
use yt_media_tools.Prelude.{◌≡◌, Bool, true, some, List, [], ◌∷◌}
use yt_media_tools.Query.Value.{equal_values}
use yt_media_tools.Query.Model.{
  Field, Literal, Connective, Truth, Predicate, unary, binary, comparison, between, in_list,
  truth_test,
}
use yt_media_tools.Query.Semantics.{same_key}
use yt_media_tools.Optimizer.Bounds.{left, right, dominant_comparison}
use yt_media_tools.Optimizer.Memberships.{subsumed_membership}
use yt_media_tools.Optimizer.Terms.{flatten, rebuild}
use yt_media_tools.Optimizer.Defs.{
  normalise_not, left_boolean_operand_dominates, is_identity, unique_values, equality,
}

-- `x` put somewhere into the first list makes the second.
pub data Inserts {ℓ} {A : Type ℓ} (x : A) : List A → List A → Type ℓ where
  here : {ys : List A} → Inserts x ys (x ∷ ys)
  there : {y : A} {ys xs : List A} → Inserts x ys xs → Inserts x (y ∷ ys) (y ∷ xs)

pub data Occurs {ℓ} {A : Type ℓ} (z : A) : List A → Type ℓ where
  first : {ys : List A} → Occurs z (z ∷ ys)
  later : {y : A} {ys : List A} → Occurs z ys → Occurs z (y ∷ ys)

-- Beside `z`, the term `x` is redundant.
pub data Absorbed (op : Connective) (x z : Predicate) : Type 0 where
  repeated : same_key x z ≡ true → Absorbed op x z
  member_left : subsumed_membership op z x ≡ some left → Absorbed op x z
  member_right : subsumed_membership op x z ≡ some right → Absorbed op x z
  bound_left : dominant_comparison op z x ≡ some left → Absorbed op x z
  bound_right : dominant_comparison op x z ≡ some right → Absorbed op x z

-- One term fewer in a chain.
pub data Removes (op : Connective) (xs ys : List Predicate) : Type 0 where
  removes : (x z : Predicate) → Inserts x ys xs → Occurs z ys → Absorbed op x z → Removes op xs ys

pub data Rewrites : Predicate → Predicate → Type 0 where
  unchanged : {p : Predicate} → Rewrites p p
  compose : {p q s : Predicate} → Rewrites p q → Rewrites q s → Rewrites p s
  in_unary : {p q : Predicate} → Rewrites p q → Rewrites (unary p) (unary q)
  in_truth_test :
      {p q : Predicate} (t : Truth) (n : Bool)
      → Rewrites p q
      → Rewrites (truth_test p t n) (truth_test q t n)
  in_binary :
      {p q p' q' : Predicate} (op : Connective)
      → Rewrites p p'
      → Rewrites q q'
      → Rewrites (binary op p q) (binary op p' q')
  normalised : (p : Predicate) → Rewrites (unary p) (normalise_not p)
  dominated :
      (op : Connective) (p q : Predicate)
      → left_boolean_operand_dominates op p ≡ true
      → Rewrites (binary op p q) p
  identity_left :
      (op : Connective) (p q : Predicate) → is_identity op p ≡ true → Rewrites (binary op p q) q
  identity_right :
      (op : Connective) (p q : Predicate) → is_identity op q ≡ true → Rewrites (binary op p q) p
  flattened :
      (op : Connective) (p q : Predicate) → rebuild op (flatten op p) ≡ some q → Rewrites p q
  removed :
      (op : Connective) (p q : Predicate) (xs ys : List Predicate)
      → Removes op xs ys
      → rebuild op xs ≡ some p
      → rebuild op ys ≡ some q
      → Rewrites p q
  degenerate :
      (f : Field) (a b : Literal) (n : Bool)
      → equal_values a.value b.value ≡ true
      → Rewrites (between f a b n) (comparison (equality n) f a)
  without_repeats :
      (f : Field) (items : List Literal) (n : Bool)
      → Rewrites (in_list f items n) (in_list f (unique_values [] items) n)
  singleton :
      (f : Field) (a : Literal) (n : Bool)
      → Rewrites (in_list f (a ∷ []) n) (comparison (equality n) f a)
