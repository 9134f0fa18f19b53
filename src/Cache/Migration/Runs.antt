-- ===== src/Cache/Migration/Runs.antt =====
-- What a run of a plan has done, whether it reached the target or stopped on the way.
use yt_media_tools.Prelude.{
  ℕ, ◌≤◌, ◌≡◌, ◌↔◌, refl, ap, sym, ◌∙◌, true, false, some, List, [], ◌∷◌, Text, all, arith,
  Bool-cases, Option-cases, inl, inr, ◌⊎◌,
}
use mathlib.Core.Path.{subst}
use yt_media_tools.Query.Like.Laws.{equal_text_iff}
use yt_media_tools.Cache.Migration.{
  Transition, Outcome, Context, Failure, Result, done, raised, context_of, validate_result,
  succeeded, run_hop, run_hops, ChainResult, last_version, final_version, chain_succeeded, plan,
  run,
}
use yt_media_tools.Cache.Migration.Plans.{
  Advances, Chain, arrived, hops_on, Planned, plan-Planned, of_done,
}

Result-cases {ℓ} :
    {A : Type ℓ} (x : Result A) → ((a : A) × (x ≡ done a)) ⊎ ((e : Failure) × (x ≡ raised e))
Result-cases (done a) = inl (a, refl)
Result-cases (raised e) = inr (e, refl)

module _ (destination_for : ℕ → Text) where
  -- The hop was executed from `path` and returned an outcome that is its own.
  abbrev pub Ran : Text → Transition → Outcome → Type 0
  Ran path hop outcome =
      (hop.execute (context_of path destination_for hop) ≡ some outcome)
      × (outcome.source_version ≡ hop.source_version)
      × (outcome.target_version ≡ hop.target_version)
      × (outcome.destination_path ≡ destination_for hop.target_version)

  -- Every hop ran to the end, each from the destination of the one before it.
  pub data Completed : Text → List Transition → List Outcome → Type 0 where
    none_left : {path : Text} → Completed path [] []
    completed_hop :
        {path : Text} {hop : Transition} {hops : List Transition} {outcome : Outcome}
        {outcomes : List Outcome}
        → Ran path hop outcome
        → succeeded outcome ≡ true
        → Completed outcome.destination_path hops outcomes
        → Completed path (hop ∷ hops) (outcome ∷ outcomes)

  -- The hops ran up to the first incomplete destination, and none after it.
  pub data Stopped : Text → List Transition → List Outcome → Type 0 where
    stopped_here :
        {path : Text} {hop : Transition} {hops : List Transition} {outcome : Outcome}
        → Ran path hop outcome
        → succeeded outcome ≡ false
        → Stopped path (hop ∷ hops) (outcome ∷ [])
    stopped_later :
        {path : Text} {hop : Transition} {hops : List Transition} {outcome : Outcome}
        {outcomes : List Outcome}
        → Ran path hop outcome
        → succeeded outcome ≡ true
        → Stopped outcome.destination_path hops outcomes
        → Stopped path (hop ∷ hops) (outcome ∷ outcomes)

  abbrev Runs : Text → List Transition → List Outcome → Type 0
  Runs path hops outcomes = Completed path hops outcomes ⊎ Stopped path hops outcomes

  validated :
      (hop : Transition) (context : Context) (outcome x : Outcome)
      → validate_result hop context outcome ≡ done x
      → (x ≡ outcome)
        × (outcome.source_version ≡ hop.source_version)
        × (outcome.target_version ≡ hop.target_version)
        × (outcome.destination_path ≡ context.destination_path)
  unfolding validate_result
  validated hop context outcome x h =
      ground (arith, equal_text_iff outcome.destination_path context.destination_path)

  run_hop-Ran :
      (path : Text) (hop : Transition) (outcome : Outcome)
      → run_hop path destination_for hop ≡ done outcome
      → Ran path hop outcome
  unfolding run_hop
  run_hop-Ran path hop outcome h =
      elim (Option-cases (hop.execute (context_of path destination_for hop))) [
        | inl e ↦ cc (rw (e, run_hop) at h)
        | inr (x, e) ↦
            let (f, s, t, d) =
              validated hop (context_of path destination_for hop) x outcome
                (rw (e, run_hop) at h) in
            (e ∙ ap some (sym f), rw f s, rw f t, rw f d)
      ]

  run_hops-Runs :
      (path : Text) (hops : List Transition) (outcomes : List Outcome)
      → run_hops path destination_for hops ≡ done outcomes
      → Runs path hops outcomes
  unfolding run_hops
  run_hops-Runs path [] outcomes h = subst (Runs path []) (of_done h) (inl none_left)
  run_hops-Runs path (hop ∷ hops) outcomes h =
      elim (Result-cases (run_hop path destination_for hop)) [
        | inr (f, e) ↦ cc (rw (e, run_hops) at h)
        | inl (outcome, e) ↦
            let ran = run_hop-Ran path hop outcome e in
            elim (Bool-cases (succeeded outcome)) [
              | inr i ↦
                  subst (Runs path (hop ∷ hops)) (of_done (rw (e, i, run_hops) at h))
                    (inr (stopped_here ran i))
              | inl c ↦
                  elim (Result-cases (run_hops outcome.destination_path destination_for hops)) [
                    | inr (f, e') ↦ cc (rw (e, c, e', run_hops) at h)
                    | inl (rest, e') ↦
                        subst (Runs path (hop ∷ hops)) (of_done (rw (e, c, e', run_hops) at h))
                          (elim (run_hops-Runs outcome.destination_path hops rest e') [
                            | inl d ↦ inl (completed_hop ran c d)
                            | inr d ↦ inr (stopped_later ran c d)
                          ])
                  ]
            ]
      ]

  Stopped-incomplete :
      {path : Text} {hops : List Transition} {outcomes : List Outcome}
      → Stopped path hops outcomes
      → all succeeded outcomes ≡ false
  Stopped-incomplete (stopped_here {outcome} ran i) = ground arith
  Stopped-incomplete (stopped_later {outcome} ran c s) = ground (arith, Stopped-incomplete s)

  Completed-all :
      {path : Text} {hops : List Transition} {outcomes : List Outcome}
      → Completed path hops outcomes
      → all succeeded outcomes ≡ true
  Completed-all none_left = refl
  Completed-all (completed_hop {outcome} ran c d) = ground (arith, Completed-all d)

  Completed-version :
      {ts : List Transition} {v w : ℕ} {path : Text} {hops : List Transition}
      {outcomes : List Outcome}
      → Chain ts v w hops
      → Completed path hops outcomes
      → last_version v outcomes ≡ w
  Completed-version arrived none_left = refl
  Completed-version {w} (hops_on hop hops e s a c) (completed_hop {outcome} {outcomes} ran k d) =
      ap (λ u. last_version u outcomes) ran.2 ∙ Completed-version c d

  chain_succeeded_of :
      (v w : ℕ) (outcomes : List Outcome)
      → last_version v outcomes ≡ w
      → all succeeded outcomes ≡ true
      → chain_succeeded
          (record { initial_version = v; requested_version = w; transitions = outcomes })
        ≡ true
  unfolding chain_succeeded final_version
  chain_succeeded_of v w outcomes h k = ground arith

  -- A run that returns has executed its plan: either every hop completed, each from the destination
  -- of the one before it, or the run stopped at the first incomplete destination.
  pub run-Runs :
      (ts : List Transition) (path : Text) (v w : ℕ) (result : ChainResult)
      → run ts path destination_for v w ≡ done result
      → (hops : List Transition) × (plan ts v w ≡ done hops)
        × (result.initial_version ≡ v)
        × (result.requested_version ≡ w)
        × (Completed path hops result.transitions ⊎ Stopped path hops result.transitions)
  unfolding run
  run-Runs ts path v w result h = elim (Result-cases (plan ts v w)) [
    | inr (f, e) ↦ cc (rw (e, run) at h)
    | inl (hops, e) ↦ elim (Result-cases (run_hops path destination_for hops)) [
      | inr (f, e') ↦ cc (rw (e, e', run) at h)
      | inl (outcomes, e') ↦
          let r = of_done (rw (e, e', run) at h) in
          (
            hops,
            e,
            sym (ap ChainResult.initial_version r),
            sym (ap ChainResult.requested_version r),
            subst (λ x. Runs path hops (ChainResult.transitions x)) r
                (run_hops-Runs path hops outcomes e'),
          )
    ]
  ]

  -- For transitions that advance and versions that are in order: a run that returns reports success
  -- exactly if a chain of registered hops from the one version to the other was completed.
  pub run-chain_succeeded :
      (ts : List Transition) (path : Text) (v w : ℕ) (result : ChainResult)
      → Advances ts
      → 1 ≤ v
      → v ≤ w
      → run ts path destination_for v w ≡ done result
      → (chain_succeeded result ≡ true)
        ↔ ((hops : List Transition) × Chain ts v w hops × Completed path hops result.transitions)
  unfolding chain_succeeded final_version
  run-chain_succeeded ts path v w result a p o h =
      let (hops, e, iv, rv, runs) = run-Runs ts path v w result h in
      (
        λ s. (hops, subst (Planned ts v w) e (plan-Planned ts v w a p o), completed hops runs s),
        λ (chain_hops, c, d). finished iv rv (Completed-version c d) (Completed-all d),
      )
    where
      completed :
          (hops : List Transition)
          → Completed path hops result.transitions ⊎ Stopped path hops result.transitions
          → chain_succeeded result ≡ true
          → Completed path hops result.transitions
      completed hops (inl d) s = d
      completed hops (inr d) s = ground (arith, Stopped-incomplete d)

      finished :
          result.initial_version ≡ v
          → result.requested_version ≡ w
          → last_version v result.transitions ≡ w
          → all succeeded result.transitions ≡ true
          → chain_succeeded result ≡ true
      finished iv rv l k = rw (iv, rv, l, k) (ground arith)
