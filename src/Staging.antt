-- ===== src/Staging.antt =====
-- yt_media_tools/staged_predicates.py and the ordering of planning_heuristics.py: the AND terms of a
-- WHERE that are decided on the values of an enumeration. Which fields an enumeration gives exactly
-- is the source's declaration, given by the caller; the texts of the reasons are left out.
pub mod Terms
pub mod Fields
pub mod Capabilities
pub mod Laws
use yt_media_tools.Prelude.{
  ℕ, suc, Bool, true, false, not, ◌&&◌, ◌||◌, List, [], ◌∷◌, ◌++◌, Text, all, any, length, ltb, leb,
  ◌==◌, Option, some, if◌then◌else◌,
}
use yt_media_tools.Query.Like.{equal_text}
use yt_media_tools.Query.Value.{
  Value, Operator, equals, differs, less, less_or_equal, greater, greater_or_equal,
}
use yt_media_tools.Query.Model.{
  Field, Literal, Connective, and, or, TextOperator, contains, matches, like, ilike, Predicate,
  truth_literal, unary, binary, comparison, between, in_list, null_test, text_predicate, truth_test,
}
use yt_media_tools.Query.Evaluator.{Runtime, Record, evaluate, is_truth}

-- `_and_terms`
unfoldable pub and_terms : Predicate → List Predicate
and_terms (binary and left right) = and_terms left ++ and_terms right
and_terms p = p ∷ []

unfoldable pub union_fields : List Text → List Text → List Text
unfolding equal_text
union_fields [] others = others
union_fields (f ∷ fs) others =
    let rest = union_fields fs others in if any (equal_text f) rest then rest else f ∷ rest

-- `required_fields` of a predicate's properties
unfoldable pub required_fields : Predicate → List Text
unfolding union_fields
required_fields (truth_literal t) = []
required_fields (unary p) = required_fields p
required_fields (binary op p q) = union_fields (required_fields p) (required_fields q)
required_fields (comparison op f a) = f.name ∷ []
required_fields (between f a b n) = f.name ∷ []
required_fields (in_list f items n) = f.name ∷ []
required_fields (null_test f n) = f.name ∷ []
required_fields (text_predicate op f s k n) = f.name ∷ []
required_fields (truth_test p t n) = required_fields p

-- a rank of `_SELECTIVITY_RANK`, `_COST_RANK` or `_INFORMATION_RANK`
abbrev pub low : ℕ
low = 1

abbrev pub moderate : ℕ
moderate = 2

abbrev pub high : ℕ
high = 3

-- `_predicate_selectivity`
unfoldable pub predicate_selectivity : Predicate → ℕ
predicate_selectivity (truth_literal t) = high
predicate_selectivity (null_test f n) = moderate
predicate_selectivity (comparison equals f a) = high
predicate_selectivity (comparison differs f a) = low
predicate_selectivity (comparison op f a) = moderate
predicate_selectivity (between f a b n) = if n then low else moderate
predicate_selectivity (in_list f items n) =
    if n then low else if leb (length items) 3 then high else moderate
predicate_selectivity (text_predicate op f s k n) = if n then low else moderate
predicate_selectivity p = low

abbrev pub is_matches : Predicate → Bool
is_matches (text_predicate matches f s k n) = true
is_matches p = false

unfoldable pub evaluation_cost : Predicate → ℕ → ℕ
evaluation_cost p field_count = if is_matches p || ltb 1 field_count then moderate else low

unfoldable pub information_value : ℕ → ℕ → ℕ
information_value selectivity cost =
    if (selectivity == high) && (cost == low)
    then high
    else if leb moderate selectivity && leb cost moderate
    then moderate
    else low

-- a term with its fields
abbrev pub Term : Type 0
Term = Predicate × List Text

unfoldable pub information : Term → ℕ
unfolding predicate_selectivity evaluation_cost information_value
information (p, fields) =
    information_value (predicate_selectivity p) (evaluation_cost p (length fields))

unfoldable pub cost : Term → ℕ
unfolding evaluation_cost
cost (p, fields) = evaluation_cost p (length fields)

-- `sort_key` of the one is less than that of the other
unfoldable pub precedes : Term → Term → Bool
unfolding information cost
precedes s t =
    ltb (information t) (information s)
    || ((information s == information t) && ltb (cost s) (cost t))

unfoldable pub insert_term : Term → List Term → List Term
unfolding precedes
insert_term t [] = t ∷ []
insert_term t (u ∷ us) =
    let later = u ∷ insert_term t us in if precedes u t then later else t ∷ u ∷ us

-- `order_predicate_terms`: by key, and at equal keys by position
unfoldable pub order_predicate_terms : List Term → List Term
unfolding insert_term
order_predicate_terms [] = []
order_predicate_terms (t ∷ ts) = insert_term t (order_predicate_terms ts)

pub record StagePlan : Type 0 where
  pub enumeration_terms : List Term
  pub residual_terms : List Predicate

unfoldable pub with_fields : List Predicate → List Term
unfolding required_fields
with_fields [] = []
with_fields (p ∷ ps) = (p, required_fields p) ∷ with_fields ps

unfoldable pub select : (Predicate → Bool) → List Predicate → List Predicate
select test [] = []
select test (p ∷ ps) = let rest = select test ps in if test p then p ∷ rest else rest

module _ (is_enumerated : Text → Bool) where
  -- `_enumeration_safe`: the predicates of the model are deterministic and need no group
  unfoldable pub enumeration_safe : Predicate → Bool
  unfolding required_fields
  enumeration_safe p = all is_enumerated (required_fields p)

  -- `plan_predicate_stages` for a query with a WHERE
  unfoldable pub plan_predicate_stages : Predicate → StagePlan
  unfolding and_terms select with_fields order_predicate_terms enumeration_safe
  plan_predicate_stages p = record {
    enumeration_terms = order_predicate_terms (with_fields (select enumeration_safe (and_terms p)));
    residual_terms = select (λ (t : Predicate). not (enumeration_safe t)) (and_terms p);
  }

-- `field in record`
unfoldable pub has_key : Text → Record → Bool
unfolding equal_text
has_key name [] = false
has_key name ((k, v) ∷ rest) = equal_text k name || has_key name rest

abbrev pub acquired : Record → List Text → Bool
acquired record_ fields = all (λ (f : Text). has_key f record_) fields

module _ ⦃rt : Runtime⦄ where
  abbrev pub is_accepted : Record → Predicate → Bool
  is_accepted record_ p = is_truth (evaluate p record_) (some true)

  unfoldable pub rejects : List Term → Record → Bool
  unfolding evaluate has_key
  rejects [] record_ = false
  rejects ((p, fields) ∷ terms) record_ =
      let later = rejects terms record_ in
      if not (acquired record_ fields)
      then later
      else if not (is_accepted record_ p)
      then true
      else later

  unfoldable pub rejects_at_enumeration : StagePlan → Record → Bool
  unfolding rejects
  rejects_at_enumeration plan record_ = rejects plan.enumeration_terms record_

  unfoldable pub accepts_terms : List Term → Record → Bool
  unfolding evaluate has_key
  accepts_terms [] record_ = true
  accepts_terms ((p, fields) ∷ terms) record_ =
      let later = accepts_terms terms record_ in
      if not (acquired record_ fields)
      then false
      else if not (is_accepted record_ p)
      then false
      else later

  unfoldable pub matches_at_enumeration : StagePlan → Record → Bool
  unfolding accepts_terms
  matches_at_enumeration plan record_ = elim plan.residual_terms [
    | [] ↦ accepts_terms plan.enumeration_terms record_
    | _ ∷ _ ↦ false
  ]
