-- ===== src/Optimizer/Sound/Chains.antt =====
-- The truth value of a chain of terms, and that it ignores the order and redundant terms.
use yt_media_tools.Prelude.{
  of_some, ◌≡◌, refl, ap, ap₂, sym, ◌∙◌, Bool, true, false, ◌&&◌, some, List, [], ◌∷◌, ◌++◌, all,
  arith, Bool-cases, inl, inr,
}
use yt_media_tools.Query.Model.{Connective, and, or, Truth, Predicate, binary}
use yt_media_tools.Query.Semantics.{same_connective}
use yt_media_tools.Query.Semantics.Laws.{connective_of_same}
use yt_media_tools.Query.Evaluator.{Runtime, Record, evaluate_boolean_binary, evaluate}
use yt_media_tools.Query.Evaluator.Laws.{binary_comm, binary_assoc}
use yt_media_tools.Optimizer.Terms.{flatten, rebuild, rebuild_from}
use yt_media_tools.Optimizer.Rewriting.{Inserts, here, there, Occurs, first, later}
use yt_media_tools.Optimizer.Sound.Regular.{is_regular}

abbrev identity : Connective → Truth
identity and = some true
identity or = some false

binary_identity : (op : Connective) (a : Truth) → evaluate_boolean_binary op a (identity op) ≡ a
unfolding evaluate_boolean_binary
binary_identity op a = ground arith

binary_identity_left :
    (op : Connective) (a : Truth) → evaluate_boolean_binary op (identity op) a ≡ a
unfolding evaluate_boolean_binary
binary_identity_left op a = ground arith

binary_swap :
    (op : Connective) (a b c : Truth)
    → evaluate_boolean_binary op a (evaluate_boolean_binary op b c)
      ≡ evaluate_boolean_binary op b (evaluate_boolean_binary op a c)
unfolding evaluate_boolean_binary
binary_swap op a b c = ground arith

and-true : (a : Bool) → (a && true) ≡ a
and-true a = ground arith

and_assoc : (a b c : Bool) → ((a && b) && c) ≡ (a && (b && c))
and_assoc a b c = ground arith

and_swap : (a b c : Bool) → (a && (b && c)) ≡ (b && (a && c))
and_swap a b c = ground arith

module _ ⦃rt : Runtime⦄ (op : Connective) (r : Record) where
  abbrev pub chain : List Predicate → Truth
  chain [] = identity op
  chain (p ∷ ps) = evaluate_boolean_binary op (evaluate p r) (chain ps)

  abbrev pub regular_chain : List Predicate → Bool
  regular_chain = all (λ (p : Predicate). is_regular p r)

  evaluate-rebuild_from :
      (p : Predicate) (ps : List Predicate)
      → evaluate (rebuild_from op p ps) r ≡ evaluate_boolean_binary op (evaluate p r) (chain ps)
  unfolding rebuild_from
  evaluate-rebuild_from p [] = sym (binary_identity op (evaluate p r))
  evaluate-rebuild_from p (q ∷ ps) =
      evaluate-rebuild_from (binary op p q) ps
      ∙ unfold evaluate in binary_assoc op (evaluate p r) (evaluate q r) (chain ps)

  chain-append :
      (ps qs : List Predicate) → chain (ps ++ qs) ≡ evaluate_boolean_binary op (chain ps) (chain qs)
  chain-append [] qs = sym (binary_identity_left op (chain qs))
  chain-append (p ∷ ps) qs =
      rw (chain-append ps qs) (sym (binary_assoc op (evaluate p r) (chain ps) (chain qs)))

  regular_chain-append :
      (ps qs : List Predicate) → regular_chain (ps ++ qs) ≡ (regular_chain ps && regular_chain qs)
  regular_chain-append [] qs = refl
  regular_chain-append (p ∷ ps) qs =
      rw (regular_chain-append ps qs)
        (sym (and_assoc (is_regular p r) (regular_chain ps) (regular_chain qs)))

  binary-connective :
      (c : Connective) (p q : Predicate)
      → same_connective c op ≡ true
      → evaluate_boolean_binary op (evaluate p r) (evaluate q r) ≡ evaluate (binary c p q) r
  unfolding evaluate
  binary-connective c p q e =
      ap (λ o. evaluate_boolean_binary o (evaluate p r) (evaluate q r))
        (sym (connective_of_same c op e))

  pub chain-flatten : (p : Predicate) → chain (flatten op p) ≡ evaluate p r
  unfolding flatten
  chain-flatten (binary c p q) = elim (Bool-cases (same_connective c op)) [
    | inl e ↦ rw e (
        chain-append (flatten op p) (flatten op q)
        ∙ ap₂ (evaluate_boolean_binary op) (chain-flatten p) (chain-flatten q)
        ∙ binary-connective c p q e)
    | inr e ↦ rw (e, flatten) (binary_identity op (evaluate (binary c p q) r))
  ]
  chain-flatten p = binary_identity op (evaluate p r)

  pub regular-flatten : (p : Predicate) → regular_chain (flatten op p) ≡ is_regular p r
  unfolding flatten is_regular
  regular-flatten (binary c p q) = elim (Bool-cases (same_connective c op)) [
    | inl e ↦ rw e (
        regular_chain-append (flatten op p) (flatten op q)
        ∙ ap₂ ◌&&◌ (regular-flatten p) (regular-flatten q))
    | inr e ↦ rw e (and-true _)
  ]
  regular-flatten p = and-true _

  regular-rebuild_from :
      (p : Predicate) (ps : List Predicate)
      → is_regular (rebuild_from op p ps) r ≡ (is_regular p r && regular_chain ps)
  unfolding rebuild_from
  regular-rebuild_from p [] = sym (and-true _)
  regular-rebuild_from p (q ∷ ps) =
      regular-rebuild_from (binary op p q) ps
      ∙ unfold is_regular in and_assoc (is_regular p r) (is_regular q r) (regular_chain ps)

  -- A rebuilt chain has the truth value of its terms, and is regular where they all are.
  pub evaluate-rebuild :
      (ps : List Predicate) (q : Predicate)
      → rebuild op ps ≡ some q
      → (evaluate q r ≡ chain ps) × (is_regular q r ≡ regular_chain ps)
  unfolding rebuild
  evaluate-rebuild [] q h = cc
  evaluate-rebuild (p ∷ ps) q h =
      let e = of_some h in
      (
        sym (ap (λ x. evaluate x r) e) ∙ evaluate-rebuild_from p ps,
        sym (ap (λ x. is_regular x r) e) ∙ regular-rebuild_from p ps,
      )

  pub chain-Inserts :
      {x : Predicate} {ys xs : List Predicate}
      → Inserts x ys xs
      → chain xs ≡ evaluate_boolean_binary op (evaluate x r) (chain ys)
  chain-Inserts here = refl
  chain-Inserts {x} (there {y} {ys} i) =
      rw (chain-Inserts i) (binary_swap op (evaluate y r) (evaluate x r) (chain ys))

  pub regular-Inserts :
      {x : Predicate} {ys xs : List Predicate}
      → Inserts x ys xs
      → regular_chain xs ≡ (is_regular x r && regular_chain ys)
  regular-Inserts here = refl
  regular-Inserts {x} (there {y} {ys} i) =
      rw (regular-Inserts i) (and_swap (is_regular y r) (is_regular x r) (regular_chain ys))

  pub chain-Occurs :
      {z : Predicate} {ys : List Predicate} (x : Predicate)
      → Occurs z ys
      → evaluate_boolean_binary op (evaluate z r) (evaluate x r) ≡ evaluate z r
      → evaluate_boolean_binary op (evaluate x r) (chain ys) ≡ chain ys
  chain-Occurs {z} x (first {ys}) h =
      sym (binary_assoc op (evaluate x r) (evaluate z r) (chain ys))
      ∙ ap (λ t. evaluate_boolean_binary op t (chain ys))
          (binary_comm op (evaluate x r) (evaluate z r) ∙ h)
  chain-Occurs x (later {y} {ys} o) h =
      binary_swap op (evaluate x r) (evaluate y r) (chain ys)
      ∙ ap (evaluate_boolean_binary op (evaluate y r)) (chain-Occurs x o h)

  pub regular-Occurs :
      {z : Predicate} {ys : List Predicate}
      → Occurs z ys
      → regular_chain ys ≡ true
      → is_regular z r ≡ true
  regular-Occurs first h = ground arith
  regular-Occurs (later o) h = regular-Occurs o (ground arith)
