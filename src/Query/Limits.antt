-- ===== src/Query/Limits.antt =====
-- yt_media_tools/planner.py, `plan_limit_termination`: whether a LIMIT may stop the acquisition of
-- rows early. The analyses of the query that it reads are the fields of `Analysis`.
pub mod Laws
use yt_media_tools.Prelude.{
  ℕ, ◌+◌, Bool, true, false, not, ◌&&◌, ◌||◌, Option, none, some, List, [], ◌∷◌, Text,
  if◌then◌else◌,
}
use yt_media_tools.Query.Like.{equal_text}
use yt_media_tools.Query.Evaluator.{Runtime}
use yt_media_tools.Query.Results.{OrderTerm, Query, position_names}

-- LimitTerminationPlan, without its reason
pub data Mode : Type 0 where
  no_stop enumeration_match detailed_match : Mode

pub record LimitTerminationPlan : Type 0 where
  pub eligible : Bool
  pub limit : Option ℕ
  pub required_matches : ℕ
  pub mode : Mode

-- the capabilities of the selected facet of a source
pub record FacetCapabilities : Type 0 where
  pub stable_collection : Bool
  pub trustworthy_order_field : Option Text
  pub cheaply_enumerates_identities : Bool

-- the predicate stages, as far as the plan reads them
pub record Stages : Type 0 where
  pub requires_residual_evaluation : Bool
  pub reads_source_index : Bool

-- What the plan reads of the query beside its terms, and of its source: whether there are CTEs, set
-- operations, dynamic fields; whether the metadata depth is detailed; the stages that are given
-- or, with a source, planned.
pub record Analysis : Type 0 where
  pub has_ctes : Bool
  pub has_set_operations : Bool
  pub requires_aggregation : Bool
  pub has_volatile_expressions : Bool
  pub has_dynamic_fields : Bool
  pub needs_detailed_metadata : Bool
  pub source : Option FacetCapabilities
  pub stages : Option Stages

abbrev pub is_some {ℓ} : {A : Type ℓ} → Option A → Bool
is_some (some a) = true
is_some none = false

abbrev pub is_nil {ℓ} : {A : Type ℓ} → List A → Bool
is_nil [] = true
is_nil (x ∷ xs) = false

module _ ⦃rt : Runtime⦄ where
  -- `source_order_equivalent`
  unfoldable pub source_order_equivalent : FacetCapabilities → List OrderTerm → Bool
  unfolding equal_text
  source_order_equivalent facet (term ∷ []) = elim facet.trustworthy_order_field [
    | some order_field ↦
        facet.stable_collection
        && (equal_text (rt.casefold term.field.name) (rt.casefold order_field)
            && not term.descending)
    | none ↦ false
  ]
  source_order_equivalent facet terms = false

  -- the ORDER BY of a query blocks the plan
  unfoldable pub order_blocks : Option FacetCapabilities → List OrderTerm → Bool
  unfolding source_order_equivalent
  order_blocks source [] = false
  order_blocks none (term ∷ terms) = true
  order_blocks (some facet) (term ∷ terms) = not (source_order_equivalent facet (term ∷ terms))

  -- the tests that return before the eligible plans, in their order
  unfoldable pub limit_blocks : Query → Analysis → Bool
  unfolding order_blocks
  limit_blocks q a =
      not (is_nil (position_names q.select))
      || (a.has_ctes
          || (a.has_set_operations
              || (a.requires_aggregation
                  || (order_blocks a.source q.order_by
                      || (q.distinct || (a.has_volatile_expressions || a.has_dynamic_fields))))))

  abbrev pub stages_decide : Option Stages → Bool
  stages_decide none = false
  stages_decide (some stages) =
      not stages.requires_residual_evaluation && not stages.reads_source_index

  abbrev pub enumerates_cheaply : Option FacetCapabilities → Bool
  enumerates_cheaply none = true
  enumerates_cheaply (some facet) = facet.cheaply_enumerates_identities

  -- the stage at which an eligible LIMIT stops the acquisition
  unfoldable pub stop_mode : Analysis → Mode
  stop_mode a =
      if (not a.needs_detailed_metadata && enumerates_cheaply a.source) && stages_decide a.stages
      then enumeration_match
      else detailed_match

  unfoldable pub plan_limited : ℕ → Query → Analysis → LimitTerminationPlan
  unfolding limit_blocks stop_mode
  plan_limited n q a =
      if limit_blocks q a
      then record {
        eligible = false;
        limit = some n;
        required_matches = q.offset + n;
        mode = no_stop;
      }
      else record {
        eligible = true;
        limit = some n;
        required_matches = q.offset + n;
        mode = stop_mode a;
      }

  -- `plan_limit_termination`
  unfoldable pub plan_limit_termination : Query → Analysis → LimitTerminationPlan
  unfolding plan_limited
  plan_limit_termination q a = elim q.limit [
    | none ↦ record { eligible = false; limit = none; required_matches = 0; mode = no_stop }
    | some n ↦ plan_limited n q a
  ]
