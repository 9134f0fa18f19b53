-- ===== src/Query/Indexes/Keys.antt =====
-- Join keys against the ON condition: where all of a condition's equalities are indexed, two
-- records join exactly if their keys are equal.
use yt_media_tools.Prelude.{
  Bool, true, false, not, ◌&&◌, some, List, [], ◌∷◌, ◌++◌, Text, any, arith, ◌≡◌, refl, ◌∙◌,
  if◌then◌else◌, Bool-cases, Option-cases, inl, inr,
}
use mathlib.Core.Path.{subst}
use yt_media_tools.Query.Value.{Value, equals}
use yt_media_tools.Query.Value.Equality.{equal_values_comm}
use yt_media_tools.Query.Relations.Equality.{equal_lists_comm}
use yt_media_tools.Query.Model.{and, Truth}
use yt_media_tools.Query.Evaluator.{is_truth, evaluate_boolean_binary}
use yt_media_tools.Query.Relations.{
  Cell, scalar, collection, is_missing, equal_lists, equal_cells, Row, cell, RelationField,
  JoinContext, holds_cells, evaluate_comparison, relation_value, scalar_value, relation_field,
  ordinary, Condition, binary, scalar_comparison, evaluate_condition,
}
use yt_media_tools.Query.Like.{equal_text}
use yt_media_tools.Query.Like.Laws.{equal_text_iff}
use yt_media_tools.Query.Indexes.{
  FieldPair, append_pairs, collect_equality, collect, JoinKey, incomplete, unhashable, hashed,
  hash_cells, key_of_hash, cells, join_key, lefts, rights,
}

equal_cells_comm : (v w : Cell) → equal_cells v w ≡ equal_cells w v
unfolding equal_cells
equal_cells_comm (scalar v) (scalar w) = equal_values_comm v w
equal_cells_comm (collection v) (collection w) = equal_lists_comm v w
equal_cells_comm (scalar v) (collection w) = refl
equal_cells_comm (collection v) (scalar w) = refl

-- an equality that is TRUE of two cells
abbrev pub agree : Cell → Cell → Bool
agree v w = not (is_missing v) && (not (is_missing w) && equal_cells v w)

abbrev is_true : Truth → Bool
is_true t = is_truth t (some true)

equality-agree : (v w : Cell) → is_true (evaluate_comparison (ordinary equals) v w) ≡ agree v w
unfolding evaluate_comparison holds_cells
equality-agree v w = ground arith

agree_comm : (v w : Cell) → agree v w ≡ agree w v
agree_comm v w = ground (arith, equal_cells_comm v w)

is_true-and : (a b : Truth) → is_true (evaluate_boolean_binary and a b) ≡ (is_true a && is_true b)
unfolding evaluate_boolean_binary
is_true-and a b = ground arith

-- whether every pair of key fields agrees
unfoldable pub agree_all : Row → Row → List FieldPair → Bool
agree_all l r [] = true
agree_all l r ((f, g) ∷ pairs) = agree (cell l f.name) (cell r g.name) && agree_all l r pairs

agree_all-append :
    (l r : Row) (ps qs : List FieldPair)
    → agree_all l r (ps ++ qs) ≡ (agree_all l r ps && agree_all l r qs)
unfolding agree_all
agree_all-append l r [] qs = refl
agree_all-append l r ((f, g) ∷ ps) qs = ground (arith, agree_all-append l r ps qs)

abbrev sides : Text → Text → Row → Row → JoinContext
sides la ra l r = record { left_alias = la; right_alias = ra; left = l; right = r }

equality-sides :
    (la ra : Text) (l r : Row) (f g : RelationField) (ps : List FieldPair)
    → equal_text la ra ≡ false
    → collect_equality la ra f g ≡ some ps
    → agree (relation_value (sides la ra l r) f) (relation_value (sides la ra l r) g)
      ≡ agree_all l r ps
unfolding collect_equality relation_value agree_all
equality-sides la ra l r f g ps d h = ground (
  arith,
  equal_text_iff f.qualifier la,
  equal_text_iff f.qualifier ra,
  equal_text_iff g.qualifier la,
  equal_text_iff g.qualifier ra,
  agree_comm (cell l g.name) (cell r f.name),
)

pub collect-agree_all :
    (la ra : Text) (l r : Row) (p : Condition) (ps : List FieldPair)
    → equal_text la ra ≡ false
    → collect la ra p ≡ some ps
    → is_true (evaluate_condition p (sides la ra l r)) ≡ agree_all l r ps
unfolding collect evaluate_condition scalar_value
collect-agree_all la ra l r (binary and p q) ps d h = elim (Option-cases (collect la ra p)) [
  | inl e ↦ let k = rw (e, append_pairs) at h in cc k
  | inr (x, e) ↦ elim (Option-cases (collect la ra q)) [
    | inl g ↦ let k = rw (e, g, append_pairs) at h in cc k
    | inr (y, g) ↦ ground (
      arith,
      rw (e, g, append_pairs) at h,
      agree_all-append l r x y,
      is_true-and (evaluate_condition p (sides la ra l r)) (evaluate_condition q (sides la ra l r)),
      collect-agree_all la ra l r p x d e,
      collect-agree_all la ra l r q y d g,
    )
  ]
]
collect-agree_all la ra l r
      (scalar_comparison (ordinary equals) (relation_field f) (relation_field g)) ps d h =
    equality-agree (relation_value (sides la ra l r) f) (relation_value (sides la ra l r) g)
    ∙ equality-sides la ra l r f g ps d h
collect-agree_all la ra l r _ ps d h = cc h

-- What a hashed key says of its first cell.
hash_cells-cons :
    (c : Cell) (cs : List Cell) (xs : List Value)
    → hash_cells (c ∷ cs) ≡ some xs
    → (v : Value) × (vs : List Value) × (c ≡ scalar v) × (hash_cells cs ≡ some vs) × (xs ≡ v ∷ vs)
hash_cells-cons (collection values) cs xs h = cc h
hash_cells-cons (scalar v) cs xs h = elim (Option-cases (hash_cells cs)) [
  | inl e ↦ let k = rw e at h in cc k
  | inr (vs, e) ↦ (v, vs, refl, e, cc (rw e at h))
]

-- The keys of the two records of a pair list.
hashed-agree :
    (l r : Row) (ps : List FieldPair) (xs ys : List Value)
    → any is_missing (cells l (lefts ps)) ≡ false
    → any is_missing (cells r (rights ps)) ≡ false
    → hash_cells (cells l (lefts ps)) ≡ some xs
    → hash_cells (cells r (rights ps)) ≡ some ys
    → agree_all l r ps ≡ equal_lists xs ys
unfolding agree_all cells equal_lists equal_cells
hashed-agree l r [] xs ys ml mr hl hr = ground arith
hashed-agree l r ((f, g) ∷ ps) xs ys ml mr hl hr =
    let (v, vs, ec, eh, ex) = hash_cells-cons (cell l f.name) (cells l (lefts ps)) xs hl in
    let (w, ws, fc, fh, fx) = hash_cells-cons (cell r g.name) (cells r (rights ps)) ys hr in
    ground (arith, hashed-agree l r ps vs ws)

missing-left :
    (l r : Row) (ps : List FieldPair)
    → any is_missing (cells l (lefts ps)) ≡ true
    → agree_all l r ps ≡ false
unfolding agree_all cells
missing-left l r [] h = cc
missing-left l r ((f, g) ∷ ps) h = ground (arith, missing-left l r ps)

missing-right :
    (l r : Row) (ps : List FieldPair)
    → any is_missing (cells r (rights ps)) ≡ true
    → agree_all l r ps ≡ false
unfolding agree_all cells
missing-right l r [] h = cc
missing-right l r ((f, g) ∷ ps) h = ground (arith, missing-right l r ps)

-- Where a key comes from.
abbrev Keyed : Row → List RelationField → JoinKey → Type 0
Keyed r fields incomplete = any is_missing (cells r fields) ≡ true
Keyed r fields unhashable = Unit
Keyed r fields (hashed values) =
    (any is_missing (cells r fields) ≡ false) × (hash_cells (cells r fields) ≡ some values)

join_key-Keyed : (r : Row) (fields : List RelationField) → Keyed r fields (join_key r fields)
unfolding join_key
join_key-Keyed r fields = elim (Bool-cases (any is_missing (cells r fields))) [
  | inl m ↦ rw (m, if◌then◌else◌) m
  | inr m ↦ elim (Option-cases (hash_cells (cells r fields))) [
    | inl e ↦ rw (m, e, if◌then◌else◌, key_of_hash) tt
    | inr (vs, e) ↦ rw (m, e, if◌then◌else◌, key_of_hash) (m, e)
  ]
]

keyed :
    (r : Row) (fields : List RelationField) (k : JoinKey) → join_key r fields ≡ k → Keyed r fields k
keyed r fields k e = subst (Keyed r fields) e (join_key-Keyed r fields)

pub agree_all-hashed :
    (l r : Row) (ps : List FieldPair) (xs ys : List Value)
    → join_key l (lefts ps) ≡ hashed xs
    → join_key r (rights ps) ≡ hashed ys
    → agree_all l r ps ≡ equal_lists xs ys
agree_all-hashed l r ps xs ys hl hr =
    let (ml, el) = keyed l (lefts ps) (hashed xs) hl in
    let (mr, er) = keyed r (rights ps) (hashed ys) hr in hashed-agree l r ps xs ys ml mr el er

pub agree_all-incomplete_left :
    (l r : Row) (ps : List FieldPair)
    → join_key l (lefts ps) ≡ incomplete
    → agree_all l r ps ≡ false
agree_all-incomplete_left l r ps h = missing-left l r ps (keyed l (lefts ps) incomplete h)

pub agree_all-incomplete_right :
    (l r : Row) (ps : List FieldPair)
    → join_key r (rights ps) ≡ incomplete
    → agree_all l r ps ≡ false
agree_all-incomplete_right l r ps h = missing-right l r ps (keyed r (rights ps) incomplete h)
