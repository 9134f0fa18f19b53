-- ===== src/Cache/Migration/Plans.antt =====
-- A plan is a chain of registered hops from the source version to the target version.
use yt_media_tools.Prelude.{
  ℕ, zero, suc, ◌+◌, ◌-◌, ◌≤◌, ◌<◌, ◌≡◌, ◌⊎◌, refl, sym, false, none, some, List, [], ◌∷◌, All,
  arith, Bool-cases, Option-cases, inl, inr, ltb, ◌==◌, of_some,
}
use mathlib.Core.Path.{subst}
use yt_media_tools.Cache.Migration.{
  Transition, no_transition, overshoots, Result, done, raised, ◌>>=◌, planned_after,
  transition_from, plan_hops, plan,
}

-- what `__post_init__` has checked of each transition
abbrev pub Advances : List Transition → Type 0
Advances = All (λ (t : Transition). t.source_version < t.target_version)

-- Hops from one version to another: each starts where the one before it ended, is what is
-- registered there, and advances.
pub data Chain (transitions : List Transition) : ℕ → ℕ → List Transition → Type 0 where
  arrived : {v : ℕ} → Chain transitions v v []
  hops_on :
      {v w : ℕ} (hop : Transition) (hops : List Transition)
      → transition_from transitions v ≡ some hop
      → hop.source_version ≡ v
      → v < hop.target_version
      → Chain transitions hop.target_version w hops
      → Chain transitions v w (hop ∷ hops)

pub of_done {ℓ} : {A : Type ℓ} {a b : A} → done a ≡ done b → a ≡ b
of_done h = cc

found_source :
    (ts : List Transition) (v : ℕ) (hop : Transition)
    → transition_from ts v ≡ some hop
    → hop.source_version ≡ v
unfolding transition_from
found_source [] v hop h = cc
found_source (t ∷ ts) v hop h = elim (Bool-cases (t.source_version == v)) [
  | inl e ↦
      subst (λ x. Transition.source_version x ≡ v) (of_some (rw (e, transition_from) at h))
        (ground arith)
  | inr e ↦ found_source ts v hop (rw (e, transition_from) at h)
]

found_Advances :
    (ts : List Transition) (v : ℕ) (hop : Transition)
    → Advances ts
    → transition_from ts v ≡ some hop
    → hop.source_version < hop.target_version
unfolding transition_from
found_Advances [] v hop a h = cc
found_Advances (t ∷ ts) v hop a h = elim (Bool-cases (t.source_version == v)) [
  | inl e ↦
      subst (λ x. Transition.source_version x < Transition.target_version x)
        (of_some (rw (e, transition_from) at h)) a.0
  | inr e ↦ found_Advances ts v hop a.1 (rw (e, transition_from) at h)
]

-- The loop ends in a chain, or with one of the code's own errors, within the rounds.
abbrev pub Planned : List Transition → ℕ → ℕ → Result (List Transition) → Type 0
Planned ts v w (done hops) = Chain ts v w hops
Planned ts v w (raised e) =
    ((u : ℕ) × (e ≡ no_transition u) × (transition_from ts u ≡ none))
    ⊎ ((u : ℕ) × (t : ℕ) × (e ≡ overshoots u t) × (w < t))

Planned-cons :
    (ts : List Transition) (v w : ℕ) (hop : Transition) (rest : Result (List Transition))
    → transition_from ts v ≡ some hop
    → hop.source_version ≡ v
    → v < hop.target_version
    → Planned ts hop.target_version w rest
    → Planned ts v w (rest >>= planned_after hop)
Planned-cons ts v w hop (done hops) e s a c = hops_on hop hops e s a c
Planned-cons ts v w hop (raised x) e s a c = c

arrived_at : (ts : List Transition) (v w : ℕ) → v ≤ w → ltb v w ≡ false → Planned ts v w (done [])
arrived_at ts v w h k = subst (λ x. Chain ts v x []) (equal v w h k) arrived
  where
    equal : (a b : ℕ) → a ≤ b → ltb a b ≡ false → a ≡ b
    equal a b p q = ground arith

plan_hops-Planned :
    (rounds : ℕ) (ts : List Transition) (v w : ℕ)
    → Advances ts
    → v ≤ w
    → w ≤ v + rounds
    → Planned ts v w (plan_hops rounds ts v w)
unfolding plan_hops
plan_hops-Planned zero ts v w a h k = elim (Bool-cases (ltb v w)) [
  | inl e ↦ ground arith
  | inr e ↦ rw (e, plan_hops) (arrived_at ts v w h e)
]
plan_hops-Planned (suc n) ts v w a h k = elim (Bool-cases (ltb v w)) [
  | inr e ↦ rw (e, plan_hops) (arrived_at ts v w h e)
  | inl e ↦ elim (Option-cases (transition_from ts v)) [
    | inl f ↦ rw (e, f, plan_hops) (inl (v, refl, f))
    | inr (hop, f) ↦
        let s = found_source ts v hop f in
        let m = found_Advances ts v hop a f in
        elim (Bool-cases (ltb w hop.target_version)) [
          | inl g ↦ rw (e, f, g, plan_hops) (inr (v, hop.target_version, refl, ground arith))
          | inr g ↦
              rw (e, f, g, plan_hops)
                (Planned-cons ts v w hop (plan_hops n ts hop.target_version w) f s (rw (sym s) m) (
                  plan_hops-Planned n ts hop.target_version w a (ground arith)
                    (omega (arith, k, s, m))))
        ]
  ]
]

-- Planning from a positive version to one that is not older, over transitions that advance, finds
-- a chain of registered hops from the one to the other, or raises because a version on the way
-- starts no transition, or because a transition leads beyond the target: the loop ends within the
-- distance of the versions.
pub plan-Planned :
    (ts : List Transition) (v w : ℕ) → Advances ts → 1 ≤ v → v ≤ w → Planned ts v w (plan ts v w)
unfolding plan
plan-Planned ts v w a p h =
    rw (positive v p, positive w (omega (arith, p, h)), not_older v w h)
      (plan_hops-Planned (w - v) ts v w a h (omega (arith, h)))
  where
    positive : (n : ℕ) → 1 ≤ n → ltb n 1 ≡ false
    positive n q = ground arith

    not_older : (a b : ℕ) → a ≤ b → ltb b a ≡ false
    not_older a b q = ground arith
