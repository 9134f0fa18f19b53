-- ===== src/Cache/Migration.antt =====
-- yt_media_tools/cache_migration.py: chains of schema migrations. A path is a text, and an executor
-- is what the code is given: a function that returns its result, or `none` where it raises.
pub mod Plans
pub mod Runs
use yt_media_tools.Prelude.{
  ℕ, zero, suc, ◌-◌, Bool, true, false, ◌&&◌, ◌||◌, Option, none, some, List, [], ◌∷◌, ◌++◌, all,
  any, Text, ltb, leb, ◌==◌, if◌then◌else◌,
}
use yt_media_tools.Query.Like.{equal_text}

-- `MigrationDestinationState`
pub data DestinationState : Type 0 where
  incomplete complete : DestinationState

pub record Context : Type 0 where
  pub source_path : Text
  pub destination_path : Text
  pub source_version : ℕ
  pub target_version : ℕ

-- `MigrationTransitionResult`, without its message
pub record Outcome : Type 0 where
  pub source_version : ℕ
  pub target_version : ℕ
  pub destination_path : Text
  pub destination_state : DestinationState

abbrev pub is_complete : DestinationState → Bool
is_complete complete = true
is_complete incomplete = false

abbrev pub succeeded : Outcome → Bool
succeeded outcome = is_complete outcome.destination_state

pub record Transition : Type 0 where
  pub source_version : ℕ
  pub target_version : ℕ
  pub execute : Context → Option Outcome

-- what is raised
pub data Failure : Type 0 where
  version_not_positive not_advancing moves_back : Failure
  duplicate_source no_transition : ℕ → Failure
  overshoots : ℕ → ℕ → Failure
  executor_failed wrong_versions wrong_path out_of_rounds : Failure

pub data Result {ℓ} (A : Type ℓ) : Type ℓ where
  done : A → Result A
  raised : Failure → Result A

infixl 5 ◌>>=◌
abbrev pub ◌>>=◌ {ℓ κ} : {A : Type ℓ} {B : Type κ} → Result A → (A → Result B) → Result B
done a >>= f = f a
raised e >>= f = raised e

-- `MigrationTransition.__post_init__`
unfoldable pub new_transition : ℕ → ℕ → (Context → Option Outcome) → Result Transition
new_transition source target execute =
    if ltb source 1 || ltb target 1
    then raised version_not_positive
    else if leb target source
    then raised not_advancing
    else done (record { source_version = source; target_version = target; execute = execute })

-- `self._transitions.get(version)`
unfoldable pub transition_from : List Transition → ℕ → Option Transition
transition_from [] version = none
transition_from (t ∷ ts) version =
    let rest = transition_from ts version in if t.source_version == version then some t else rest

-- `MigrationCoordinator.__init__`, with the transitions that are registered already
unfoldable pub register : List Transition → List Transition → Result (List Transition)
unfolding transition_from
register known [] = done known
register known (t ∷ ts) =
    let rest = register (known ++ t ∷ []) ts in
    elim (transition_from known t.source_version) [
      | some _ ↦ raised (duplicate_source t.source_version)
      | none ↦ rest
    ]

abbrev pub planned_after : Transition → List Transition → Result (List Transition)
planned_after hop hops = done (hop ∷ hops)

-- The loop of `plan`. Each hop advances the version, so that the distance to the target bounds
-- the rounds.
unfoldable pub plan_hops : ℕ → List Transition → ℕ → ℕ → Result (List Transition)
unfolding transition_from
plan_hops zero transitions current target =
    if ltb current target then raised out_of_rounds else done []
plan_hops (suc rounds) transitions current target =
    if ltb current target
    then elim (transition_from transitions current) [
      | none ↦ raised (no_transition current)
      | some hop ↦
          let rest = plan_hops rounds transitions hop.target_version target in
          if ltb target hop.target_version
          then raised (overshoots current hop.target_version)
          else rest >>= planned_after hop
    ]
    else done []

unfoldable pub plan : List Transition → ℕ → ℕ → Result (List Transition)
unfolding plan_hops
plan transitions source target =
    if ltb source 1 || ltb target 1
    then raised version_not_positive
    else if ltb target source
    then raised moves_back
    else plan_hops (target - source) transitions source target

-- `_validate_result`
unfoldable pub validate_result : Transition → Context → Outcome → Result Outcome
unfolding equal_text
validate_result hop context outcome =
    if (outcome.source_version == hop.source_version)
      && (outcome.target_version == hop.target_version)
    then if equal_text outcome.destination_path context.destination_path
      then done outcome
      else raised wrong_path
    else raised wrong_versions

abbrev pub context_of : Text → (ℕ → Text) → Transition → Context
context_of path destination_for hop = record {
  source_path = path;
  destination_path = destination_for hop.target_version;
  source_version = hop.source_version;
  target_version = hop.target_version;
}

abbrev pub executed : Option Outcome → Result Outcome
executed none = raised executor_failed
executed (some outcome) = done outcome

-- one hop: its executor and the check of what it returns
unfoldable pub run_hop : Text → (ℕ → Text) → Transition → Result Outcome
unfolding validate_result
run_hop path destination_for hop =
    executed (hop.execute (context_of path destination_for hop))
    >>= validate_result hop (context_of path destination_for hop)

abbrev pub after : Outcome → Result (List Outcome) → Result (List Outcome)
after outcome (done outcomes) = done (outcome ∷ outcomes)
after outcome (raised e) = raised e

-- the loop of `run` over the planned hops
unfoldable pub run_hops : Text → (ℕ → Text) → List Transition → Result (List Outcome)
unfolding run_hop
run_hops path destination_for [] = done []
run_hops path destination_for (hop ∷ hops) = run_hop path destination_for hop >>= (λ outcome.
    let rest = run_hops outcome.destination_path destination_for hops in
    if succeeded outcome then after outcome rest else done (outcome ∷ []))

pub record ChainResult : Type 0 where
  pub initial_version : ℕ
  pub requested_version : ℕ
  pub transitions : List Outcome

abbrev pub last_version : ℕ → List Outcome → ℕ
last_version initial [] = initial
last_version initial (outcome ∷ outcomes) = last_version outcome.target_version outcomes

unfoldable pub final_version : ChainResult → ℕ
final_version result = last_version result.initial_version result.transitions

unfoldable pub chain_succeeded : ChainResult → Bool
unfolding final_version
chain_succeeded result =
    (final_version result == result.requested_version) && all succeeded result.transitions

unfoldable pub run : List Transition → Text → (ℕ → Text) → ℕ → ℕ → Result ChainResult
unfolding plan run_hops
run transitions path destination_for source target = plan transitions source target >>= λ hops.
    run_hops path destination_for hops >>= λ outcomes.
    done (record { initial_version = source; requested_version = target; transitions = outcomes })
