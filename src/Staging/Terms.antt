-- ===== src/Staging/Terms.antt =====
-- Splitting, ordering and joining the AND terms keeps what holds of all of them.
use yt_media_tools.Prelude.{
  ◌≡◌, refl, ap, sym, ◌∙◌, Bool, true, not, ◌&&◌, List, [], ◌∷◌, ◌++◌, Text, all, any, some, arith,
  Bool-cases, inl, inr, both,
}
use mathlib.Core.Path.{subst}
use yt_media_tools.Query.Like.{equal_text}
use yt_media_tools.Query.Like.Laws.{equal_text_iff}
use yt_media_tools.Query.Model.{and, Truth, Predicate}
use yt_media_tools.Query.Evaluator.{evaluate_boolean_binary, is_truth}
use yt_media_tools.Staging.{
  union_fields, Term, insert_term, order_predicate_terms, precedes, with_fields, select,
}

pub all-append :
    (f : Predicate → Bool) (ps qs : List Predicate) → all f (ps ++ qs) ≡ (all f ps && all f qs)
all-append f [] qs = refl
all-append f (p ∷ ps) qs = ground (arith, all-append f ps qs)

pub all-select :
    (f test : Predicate → Bool) (ps : List Predicate)
    → all f ps ≡ (all f (select test ps) && all f (select (λ (t : Predicate). not (test t)) ps))
unfolding select
all-select f test [] = refl
all-select f test (p ∷ ps) = ground (arith, all-select f test ps)

abbrev pub first_of : (Predicate → Bool) → Term → Bool
first_of f t = f t.0

pub all-insert :
    (g : Term → Bool) (t : Term) (ts : List Term) → all g (insert_term t ts) ≡ (g t && all g ts)
unfolding insert_term
all-insert g t [] = refl
all-insert g t (u ∷ us) = elim (Bool-cases (precedes u t)) [
  | inl e ↦ rw (e, insert_term, all-insert g t us) (ground arith)
  | inr e ↦ rw (e, insert_term) refl
]

-- Ordering the terms keeps them all.
pub all-order : (g : Term → Bool) (ts : List Term) → all g (order_predicate_terms ts) ≡ all g ts
unfolding order_predicate_terms
all-order g [] = refl
all-order g (t ∷ ts) =
    all-insert g t (order_predicate_terms ts) ∙ ap (λ b. g t && b) (all-order g ts)

pub all-with_fields :
    (f : Predicate → Bool) (ps : List Predicate) → all (first_of f) (with_fields ps) ≡ all f ps
unfolding with_fields
all-with_fields f [] = refl
all-with_fields f (p ∷ ps) = ap (λ b. f p && b) (all-with_fields f ps)

pub and-is_truth :
    (a b : Truth)
    → is_truth (evaluate_boolean_binary and a b) (some true)
      ≡ (is_truth a (some true) && is_truth b (some true))
unfolding evaluate_boolean_binary
and-is_truth a b = ground arith

pub all-any :
    (g : Text → Bool) (f : Text) (fs : List Text)
    → all g fs ≡ true
    → any (equal_text f) fs ≡ true
    → g f ≡ true
all-any g f [] h k = cc
all-any g f (x ∷ xs) h k = elim (Bool-cases (equal_text f x)) [
  | inl e ↦ subst (λ y. g y ≡ true) (sym ((equal_text_iff f x).0 e)) (both (g x) _ h).0
  | inr e ↦ all-any g f xs (both (g x) _ h).1 (ground arith)
]

-- a test on names that holds of a union holds of both sides
pub all-union :
    (g : Text → Bool) (fs others : List Text)
    → all g (union_fields fs others) ≡ true
    → (all g fs ≡ true) × (all g others ≡ true)
unfolding union_fields
all-union g [] others h = (refl, h)
all-union g (f ∷ fs) others h =
    let rest = union_fields fs others in
    elim (Bool-cases (any (equal_text f) rest)) [
      | inl e ↦
          let k : all g rest ≡ true = rw (e, union_fields) at h in
          let (a, b) = all-union g fs others k in (rw (all-any g f rest k e, a) refl, b)
      | inr e ↦
          let (x, k) = both (g f) (all g rest) (rw (e, union_fields) at h) in
          let (a, b) = all-union g fs others k in (rw (x, a) refl, b)
    ]
