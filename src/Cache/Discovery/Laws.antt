-- ===== src/Cache/Discovery/Laws.antt =====
-- Discovery trusts only a complete cache, and never falls back to an older one.
use yt_media_tools.Prelude.{
  ℕ, ◌≡◌, ◌↔◌, refl, ap, sym, true, false, not, ◌||◌, Option, none, some, List, Text, codes, arith,
  Bool-cases, Option-cases, inl, inr, of_some,
}
use mathlib.Core.Path.{subst}
use yt_media_tools.Prelude.Order.{ℤ, pos}
use yt_media_tools.Cache.Discovery.{
  Platform, Contents, Database, Candidate, CandidateKind, current, CandidateState, valid,
  has_required_tables, contains_text, meta_value, is_text, parsed_version, version_state, read_meta,
  read_contents, read_candidate, usable,
}

module _ (platform : Platform) where
  abbrev pub IsFinished : List Text → List (Text × Text) → Type 0
  IsFinished tables meta =
      (parsed_version platform.int_of (meta_value (codes "schema_version") meta) ≡ some (pos 4))
      × (is_text (meta_value (codes "migration_state") meta) (codes "complete") ≡ true)
      × (has_required_tables tables ≡ true)

  -- What makes a database a finished cache of the current schema.
  abbrev pub IsCurrent : Contents → Type 0
  IsCurrent contents =
      (meta : List (Text × Text)) × (contents.meta ≡ some meta)
      × (is_text contents.integrity (codes "ok") ≡ true)
      × (contains_text (codes "cache_meta") contents.tables ≡ true)
      × IsFinished contents.tables meta

  state-valid :
      (path : Text) (tables : List Text) (actual : ℤ) (migration : Option Text)
      → (version_state platform path 4 tables actual migration ≡ valid) ↔ (
          (actual ≡ pos 4)
          × (is_text migration (codes "complete") ≡ true)
          × (has_required_tables tables ≡ true))
  unfolding version_state
  state-valid path tables actual migration = ground arith

  valid_state : (s : CandidateState) → elim s [ valid ↦ true | _ ↦ false ] ≡ true → s ≡ valid
  valid_state valid h = refl
  valid_state _ h = cc

  meta-valid :
      (path : Text) (tables : List Text) (meta : List (Text × Text))
      → (usable (read_meta platform path current 4 tables meta) ≡ true) ↔ IsFinished tables meta
  unfolding read_meta
  meta-valid path tables meta =
      let raw = meta_value (codes "schema_version") meta in
      let migration = meta_value (codes "migration_state") meta in
      elim (Option-cases (parsed_version platform.int_of raw)) [
        | inl e ↦ rw (e, read_meta) ((λ h. cc), (λ h. cc))
        | inr (actual, e) ↦
            let state = state-valid path tables actual migration in
            rw (e, read_meta)
              (
                (λ h. let (v, c, t) = state.0 (valid_state _ h) in (ap some v, c, t)),
                (λ (v, c, t). rw (state.1 (of_some v, c, t)) refl),
              )
      ]

  -- A file at the current path is usable exactly if it is a finished cache of the current schema.
  pub read_candidate-IsCurrent :
      (path : Text) (contents : Contents)
      → (usable (read_candidate platform path current 4 (some contents)) ≡ true)
        ↔ IsCurrent contents
  unfolding read_candidate read_contents
  read_candidate-IsCurrent path contents =
      elim (Bool-cases (is_text contents.integrity (codes "ok"))) [
        | inr e ↦ rw (e, read_contents) ((λ h. cc), (λ (m, d, o, k, w). cc))
        | inl e ↦ elim (Bool-cases (contains_text (codes "cache_meta") contents.tables)) [
          | inr f ↦ rw (e, f, read_contents) ((λ h. cc), (λ (m, d, o, k, w). cc))
          | inl f ↦ elim (Option-cases contents.meta) [
            | inl n ↦ rw (e, f, n, read_contents) ((λ h. cc), (λ (m, d, o, k, w). cc))
            | inr (meta, d) ↦
                let fine = meta-valid path contents.tables meta in
                rw (e, f, d, read_contents)
                  (
                    (λ h. (meta, refl, refl, refl, fine.0 h)),
                    (λ (m, d2, o, k, w).
                        fine.1 (subst (IsFinished contents.tables) (sym (of_some d2)) w)),
                  )
          ]
        ]
      ]

  meta_keeps :
      (path : Text) (kind : CandidateKind) (version : ℕ) (tables : List Text)
      (meta : List (Text × Text))
      → (Candidate.kind (read_meta platform path kind version tables meta) ≡ kind)
        × (Candidate.path (read_meta platform path kind version tables meta) ≡ path)
  unfolding read_meta
  meta_keeps path kind version tables meta =
      elim (Option-cases
        (parsed_version platform.int_of (meta_value (codes "schema_version") meta))) [
          | inl e ↦ rw (e, read_meta) (refl, refl)
          | inr (actual, e) ↦ rw (e, read_meta) (refl, refl)
        ]

  contents_keeps :
      (path : Text) (kind : CandidateKind) (version : ℕ) (contents : Contents)
      → (Candidate.kind (read_contents platform path kind version contents) ≡ kind)
        × (Candidate.path (read_contents platform path kind version contents) ≡ path)
  unfolding read_contents
  contents_keeps path kind version contents =
      elim (Bool-cases (
        not (is_text contents.integrity (codes "ok"))
        || not (contains_text (codes "cache_meta") contents.tables))) [
          | inl e ↦ rw (e, read_contents) (refl, refl)
          | inr e ↦ elim (Option-cases contents.meta) [
            | inl n ↦ rw (e, n, read_contents) (refl, refl)
            | inr (meta, d) ↦
                rw (e, d, read_contents) (meta_keeps path kind version contents.tables meta)
          ]
        ]

  -- A candidate has the kind and the path that it was read with.
  pub read_candidate_keeps :
      (path : Text) (kind : CandidateKind) (version : ℕ) (db : Database)
      → (Candidate.kind (read_candidate platform path kind version db) ≡ kind)
        × (Candidate.path (read_candidate platform path kind version db) ≡ path)
  unfolding read_candidate
  read_candidate_keeps path kind version none = (refl, refl)
  read_candidate_keeps path kind version (some contents) = contents_keeps path kind version contents
