-- ===== src/Optimizer/Rewriting/Follows.antt =====
-- What the optimiser does to a predicate is a chain of the rewrites.
use yt_media_tools.Prelude.{
  of_some, ◌≡◌, refl, Bool, Option, some, List, [], ◌∷◌, ◌++◌, Bool-cases, inl, inr, if◌then◌else◌,
  ℕ, zero, suc,
}
use mathlib.Core.Path.{subst}
use yt_media_tools.Query.Value.{equal_values}
use yt_media_tools.Query.Model.{
  Field, Literal, Connective, Predicate, unary, binary, comparison, between, in_list, truth_test,
}
use yt_media_tools.Query.Semantics.{same_connective, same_key}
use yt_media_tools.Optimizer.Terms.{flatten, rebuild, rebuild_from, simplify_terms}
use yt_media_tools.Optimizer.Defs.{
  normalise_not, left_boolean_operand_dominates, is_identity, combine, unique_values, collapse_in,
  optimise_node, equality, optimise_passes, ◌>>=◌,
}
use yt_media_tools.Optimizer.Rewriting.{
  Occurs, first, removes, Rewrites, unchanged, compose, in_unary, in_truth_test, in_binary,
  normalised, dominated, identity_left, identity_right, flattened, removed, degenerate,
  without_repeats, singleton,
}
use yt_media_tools.Optimizer.Rewriting.Thins.{Thins, same, step, simplify_terms-Thins}

-- A chain keeps at least one term.
rebuild-Occurs :
    (op : Connective) {z : Predicate} (ys : List Predicate)
    → Occurs z ys
    → (q : Predicate) × (rebuild op ys ≡ some q)
unfolding rebuild
rebuild-Occurs op [] o = elim o [ ]
rebuild-Occurs op (y ∷ ys) o = (rebuild_from op y ys, refl)

Thins-Rewrites :
    (op : Connective) (xs ys : List Predicate) (p : Predicate)
    → Thins op xs ys
    → rebuild op xs ≡ some p
    → (q : Predicate) × (rebuild op ys ≡ some q) × Rewrites p q
Thins-Rewrites op xs ys p same h = (p, h, unchanged)
Thins-Rewrites op xs zs p (step {ys} (removes x z i o a) t) h =
    let (q, e) = rebuild-Occurs op ys o in
    let (s, e', r) = Thins-Rewrites op ys zs q t e in
    (s, e', compose (removed op p q xs ys (removes x z i o a) h e) r)

flatten-cons :
    (op : Connective) (p : Predicate)
    → (t : Predicate) × (ts : List Predicate) × (flatten op p ≡ t ∷ ts)
unfolding flatten
flatten-cons op (binary c p q) = elim (Bool-cases (same_connective c op)) [
  | inl e ↦ let (t, ts, h) = flatten-cons op p in (t, ts ++ flatten op q, rw (e, flatten, h))
  | inr e ↦ (binary c p q, [], rw (e, flatten))
]
flatten-cons op p = (p, [], refl)

-- The optimiser returned a predicate, by rewrites.
abbrev pub Follows : Predicate → Option Predicate → Type 0
Follows p r = (q : Predicate) × (r ≡ some q) × Rewrites p q

simplify-Follows : (op : Connective) (p : Predicate) → Follows p (rebuild op (simplify_terms op p))
simplify-Follows op p =
    let (t, ts, h) = flatten-cons op p in
    let (q, e) = rebuild-Occurs op {z = t} (flatten op p) (rw h first) in
    let (s, e', r) =
      Thins-Rewrites op (flatten op p) (simplify_terms op p) q (simplify_terms-Thins op p) e in
    (s, e', compose (flattened op p q e) r)

combine-Follows : (op : Connective) (p q : Predicate) → Follows (binary op p q) (combine op p q)
unfolding combine
combine-Follows op p q = elim (Bool-cases (is_identity op p)) [
  | inl e ↦ (q, rw (e, combine), identity_left op p q e)
  | inr e ↦ elim (Bool-cases (is_identity op q)) [
    | inl e' ↦ (p, rw (e, e', combine), identity_right op p q e')
    | inr e' ↦ let (s, h, r) = simplify-Follows op (binary op p q) in (s, rw (e, e', combine) h, r)
  ]
]

binary-Follows :
    (op : Connective) (p q p' : Predicate) (o : Option Predicate)
    → Rewrites p p'
    → Follows q o
    → Follows
        (binary op p q)
        (if left_boolean_operand_dominates op p' then some p' else o >>= combine op p')
binary-Follows op p q p' o r (q', e, r') =
    elim (Bool-cases (left_boolean_operand_dominates op p')) [
      | inl d ↦ (p', rw d, compose (in_binary op r unchanged) (dominated op p' q d))
      | inr d ↦
          let (s, h, r'') = combine-Follows op p' q' in
          (s, rw (d, e) h, compose (in_binary op r r') r'')
    ]

collapse-Rewrites :
    (f : Field) (items : List Literal) (n : Bool)
    → Rewrites (in_list f items n) (collapse_in (in_list f items n))
unfolding collapse_in
collapse-Rewrites f [] n = unchanged
collapse-Rewrites f (a ∷ []) n = singleton f a n
collapse-Rewrites f (a ∷ b ∷ items) n = unchanged

-- A pass of the optimiser returns a predicate for every predicate, and reaches it by the rewrites
-- of `Rewrites`.
pub optimise_node-Follows : (p : Predicate) → Follows p (optimise_node p)
unfolding optimise_node
optimise_node-Follows (truth_test p t n) =
    let (q, e, r) = optimise_node-Follows p in
    (truth_test q t n, rw (e, optimise_node), in_truth_test t n r)
optimise_node-Follows (unary p) =
    let (q, e, r) = optimise_node-Follows p in
    (normalise_not q, rw (e, optimise_node), compose (in_unary r) (normalised q))
optimise_node-Follows (binary op p q) =
    let (p', e, r) = optimise_node-Follows p in
    rw (e, optimise_node) (binary-Follows op p q p' (optimise_node q) r (optimise_node-Follows q))
optimise_node-Follows (between f a b n) = elim (Bool-cases (equal_values a.value b.value)) [
  | inl e ↦ (comparison (equality n) f a, rw (e, optimise_node), degenerate f a b n e)
  | inr e ↦ (between f a b n, rw (e, optimise_node), unchanged)
]
optimise_node-Follows (in_list f items n) = (
  collapse_in (in_list f (unique_values [] items) n),
  refl,
  compose (without_repeats f items n) (collapse-Rewrites f (unique_values [] items) n),
)
optimise_node-Follows p = (p, refl, unchanged)

-- So too for any number of passes, where they are enough.
pub optimise_passes-Rewrites :
    (k : ℕ) (p q : Predicate) → optimise_passes k p ≡ some q → Rewrites p q
unfolding optimise_passes
optimise_passes-Rewrites zero p q h = cc
optimise_passes-Rewrites (suc k) p q h =
    let (s, e, r) = optimise_node-Follows p in
    elim (Bool-cases (same_key s p)) [
      | inl stop ↦ subst (Rewrites p) (of_some (rw (e, stop, optimise_passes) at h)) unchanged
      | inr diff ↦ compose r (optimise_passes-Rewrites k s q (rw (e, diff, optimise_passes) at h))
    ]
