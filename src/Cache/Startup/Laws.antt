-- ===== src/Cache/Startup/Laws.antt =====
-- Startup works on a finished current cache only, and migrates only where there is none.
use yt_media_tools.Prelude.{
  ◌≡◌, ◌↔◌, ◌⊎◌, refl, ap, sym, ◌∙◌, Bool, true, false, Option, none, some, [], Text, Bool-cases,
  Option-cases, inl, inr, of_some,
}
use mathlib.Core.Path.{subst}
use yt_media_tools.Cache.Discovery.{
  Platform, Contents, Database, Candidate, current, historical, read_candidate, usable, cache_paths,
  candidate_at, discover_caches, resolve_discovery,
}
use yt_media_tools.Cache.Discovery.Laws.{IsCurrent, read_candidate_keeps, read_candidate-IsCurrent}
use yt_media_tools.Cache.Startup.{
  use_active, create_fresh, migrate, held, not_required, Decision, decision, may_begin_normal_work,
  confirm_migration, decide_migration, decide_cache_startup,
}
use yt_media_tools.Cache.Startup.Steps.{
  discover_current, discover_legacy, discover_none, decide_active, decide_blocked,
  decide_historical,
}

module _ (platform : Platform) (strip_casefold : Text → Text) (files : Text → Option Database)
    (directory : Text) where
  -- discovery, its resolution, and the decision at them
  abbrev pub startup : Bool → Option Text → Option Decision
  startup interactive answer =
      decide_cache_startup strip_casefold
        (resolve_discovery (discover_caches platform files directory)) interactive answer

  abbrev pub current_path : Text
  current_path = (cache_paths platform directory).0

  abbrev pub legacy_path : Text
  legacy_path = (cache_paths platform directory).1

  abbrev at_current : Database → Candidate
  at_current = read_candidate platform current_path current 4

  abbrev at_legacy : Database → Candidate
  at_legacy = read_candidate platform legacy_path historical 3

  -- which files there are
  data Files : Type 0 where
    with_current : (db : Database) → files current_path ≡ some db → Files
    legacy_only : (db : Database) → files current_path ≡ none → files legacy_path ≡ some db → Files
    no_file : files current_path ≡ none → files legacy_path ≡ none → Files

  which_files : Files
  which_files = elim (Option-cases (files current_path)) [
    | inr (db, e) ↦ with_current db e
    | inl e ↦ elim (Option-cases (files legacy_path)) [
      | inr (db, f) ↦ legacy_only db e f
      | inl f ↦ no_file e f
    ]
  ]

  module _ (i : Bool) (a : Option Text) where
    startup_current :
        (db : Database)
        → files current_path ≡ some db
        → usable (at_current db) ≡ true
        → startup i a ≡ some (decision use_active (some current_path) not_required)
    unfolding discover_caches
    startup_current db h u =
        let (kind, path) = read_candidate_keeps platform current_path current 4 db in
        rw (discover_current platform files current_path legacy_path db h) (
          decide_active strip_casefold (at_current db)
            (candidate_at platform files legacy_path historical 3) i a u kind
          ∙ ap (λ x. some (decision use_active (some x) not_required)) path)

    startup_held :
        (db : Database)
        → files current_path ≡ some db
        → usable (at_current db) ≡ false
        → startup i a ≡ some (decision held (some current_path) not_required)
    unfolding discover_caches
    startup_held db h u =
        let (kind, path) = read_candidate_keeps platform current_path current 4 db in
        rw (discover_current platform files current_path legacy_path db h) (
          decide_blocked strip_casefold (at_current db)
            (candidate_at platform files legacy_path historical 3) i a u
          ∙ ap (λ x. some (decision held (some x) not_required)) path)

    startup_legacy :
        (db : Database)
        → files current_path ≡ none
        → files legacy_path ≡ some db
        → usable (at_legacy db) ≡ true
        → startup i a ≡ decide_migration strip_casefold (at_legacy db) i a
    unfolding discover_caches
    startup_legacy db h k u =
        let (kind, path) = read_candidate_keeps platform legacy_path historical 3 db in
        rw (discover_legacy platform files current_path legacy_path db h k)
          (decide_historical strip_casefold (at_legacy db) [] i a u kind)

    startup_legacy_held :
        (db : Database)
        → files current_path ≡ none
        → files legacy_path ≡ some db
        → usable (at_legacy db) ≡ false
        → startup i a ≡ some (decision held (some legacy_path) not_required)
    unfolding discover_caches
    startup_legacy_held db h k u =
        let (kind, path) = read_candidate_keeps platform legacy_path historical 3 db in
        rw (discover_legacy platform files current_path legacy_path db h k) (
          decide_blocked strip_casefold (at_legacy db) [] i a u
          ∙ ap (λ x. some (decision held (some x) not_required)) path)

    startup_fresh :
        files current_path ≡ none
        → files legacy_path ≡ none
        → startup i a ≡ some (decision create_fresh none not_required)
    unfolding discover_caches resolve_discovery decide_cache_startup
    startup_fresh h k = rw (discover_none platform files current_path legacy_path h k) refl

  -- What startup decides, by the files.
  data Decided (i : Bool) (a : Option Text) : Type 0 where
    works :
        (db : Database)
        → files current_path ≡ some db
        → usable (at_current db) ≡ true
        → startup i a ≡ some (decision use_active (some current_path) not_required)
        → Decided i a
    holds_current :
        (db : Database)
        → files current_path ≡ some db
        → usable (at_current db) ≡ false
        → startup i a ≡ some (decision held (some current_path) not_required)
        → Decided i a
    asks :
        (db : Database)
        → files current_path ≡ none
        → files legacy_path ≡ some db
        → usable (at_legacy db) ≡ true
        → startup i a ≡ decide_migration strip_casefold (at_legacy db) i a
        → Decided i a
    holds_legacy :
        files current_path ≡ none
        → startup i a ≡ some (decision held (some legacy_path) not_required)
        → Decided i a
    starts_fresh :
        files current_path ≡ none
        → startup i a ≡ some (decision create_fresh none not_required)
        → Decided i a

  startup-Decided : (i : Bool) (a : Option Text) → Decided i a
  startup-Decided i a = elim (Option-cases (files current_path)) [
    | inr (db, e) ↦ elim (Bool-cases (usable (at_current db))) [
      | inl u ↦ works db e u (startup_current i a db e u)
      | inr u ↦ holds_current db e u (startup_held i a db e u)
    ]
    | inl e ↦ elim (Option-cases (files legacy_path)) [
      | inr (db, f) ↦ elim (Bool-cases (usable (at_legacy db))) [
        | inl u ↦ asks db e f u (startup_legacy i a db e f u)
        | inr u ↦ holds_legacy e (startup_legacy_held i a db e f u)
      ]
      | inl f ↦ starts_fresh e (startup_fresh i a e f)
    ]
  ]

  -- The file at the current path can be read as a finished cache of the current schema.
  abbrev pub HasCurrent : Type 0
  HasCurrent =
      (contents : Contents) × (files current_path ≡ some (some contents))
      × IsCurrent platform contents

  usable-HasCurrent :
      (db : Database) → files current_path ≡ some db → usable (at_current db) ≡ true → HasCurrent
  unfolding read_candidate
  usable-HasCurrent none e u = cc
  usable-HasCurrent (some contents) e u =
      (contents, e, (read_candidate-IsCurrent platform current_path contents).0 u)

  HasCurrent-usable :
      (db : Database) → files current_path ≡ some db → HasCurrent → usable (at_current db) ≡ true
  HasCurrent-usable db e (contents, f, c) =
      subst (λ x. usable (at_current x) ≡ true) (of_some (sym f ∙ e))
        ((read_candidate-IsCurrent platform current_path contents).1 c)

  migration_waits :
      (c : Candidate) (i : Bool) (a : Option Text) (d : Decision)
      → decide_migration strip_casefold c i a ≡ some d
      → may_begin_normal_work d ≡ false
  unfolding decide_migration may_begin_normal_work
  migration_waits c false a d h = subst (λ x. may_begin_normal_work x ≡ false) (of_some h) refl
  migration_waits c true none d h = cc
  migration_waits c true (some line) d h =
      subst (λ x. may_begin_normal_work x ≡ false) (of_some h)
        (elim (Bool-cases (confirm_migration strip_casefold line)) [
          | inl e ↦ rw e refl
          | inr e ↦ rw e refl
        ])

  waits :
      (x d : Decision)
      → some x ≡ some d
      → may_begin_normal_work x ≡ false
      → may_begin_normal_work d ≡ false
  waits x d e h = subst (λ y. may_begin_normal_work y ≡ false) (of_some e) h

  absent : (b : Bool) → files current_path ≡ none → b ≡ false → (b ≡ true) ↔ HasCurrent
  absent b e h = ((λ k. cc), (λ (contents, f, c). cc))

  -- A decision lets ordinary work begin exactly if the file at the current path can be read as a
  -- finished cache of the current schema.
  pub startup-work :
      (i : Bool) (a : Option Text) (d : Decision)
      → startup i a ≡ some d
      → (may_begin_normal_work d ≡ true) ↔ HasCurrent
  unfolding may_begin_normal_work
  startup-work i a d h = elim (startup-Decided i a) [
    | works db e u r ↦ (
      λ k. usable-HasCurrent db e u,
      λ k. subst (λ x. may_begin_normal_work x ≡ true) (of_some (sym r ∙ h)) refl,
    )
    | holds_current db e u r ↦
        (λ k. cc (k, waits _ d (sym r ∙ h) refl), λ k. cc (u, HasCurrent-usable db e k))
    | asks db e f u r ↦ absent _ e (migration_waits (at_legacy db) i a d (sym r ∙ h))
    | holds_legacy e r ↦ absent _ e (waits _ d (sym r ∙ h) refl)
    | starts_fresh e r ↦ absent _ e (waits _ d (sym r ∙ h) refl)
  ]

  abbrev pub Consent : Bool → Option Text → Type 0
  Consent i a =
      (i ≡ false)
      ⊎ ((line : Text) × (a ≡ some line) × (confirm_migration strip_casefold line ≡ true))

  migration-Consent :
      (c : Candidate) (i : Bool) (a : Option Text) (d : Decision)
      → decide_migration strip_casefold c i a ≡ some d
      → d.action ≡ migrate
      → Consent i a
  unfolding decide_migration
  migration-Consent c false a d h k = inl refl
  migration-Consent c true none d h k = cc
  migration-Consent c true (some line) d h k =
      elim (Bool-cases (confirm_migration strip_casefold line)) [
        | inl e ↦ inr (line, refl, e)
        | inr e ↦ cc (sym (ap Decision.action (of_some (rw (e, decide_migration) at h))), k)
      ]

  -- Startup migrates only where there is no file at the current path, the legacy file is usable, and
  -- the migration is not interactive or was confirmed.
  pub startup-migrate :
      (i : Bool) (a : Option Text) (d : Decision)
      → startup i a ≡ some d
      → d.action ≡ migrate
      → (db : Database) × (files current_path ≡ none)
        × (files legacy_path ≡ some db)
        × (usable (at_legacy db) ≡ true)
        × Consent i a
  startup-migrate i a d h k = elim (startup-Decided i a) [
    | asks db e f u r ↦ (db, e, f, u, migration-Consent (at_legacy db) i a d (sym r ∙ h) k)
    | works db e u r ↦ cc (ap Decision.action (of_some (sym h ∙ r)), k)
    | holds_current db e u r ↦ cc (ap Decision.action (of_some (sym h ∙ r)), k)
    | holds_legacy e r ↦ cc (ap Decision.action (of_some (sym h ∙ r)), k)
    | starts_fresh e r ↦ cc (ap Decision.action (of_some (sym h ∙ r)), k)
  ]

  -- Startup decides for every directory: no resolution that discovery makes raises a ValueError,
  -- where an interactive startup has its streams.
  pub startup-decides :
      (line : Text)
      → ((d : Decision) × (startup true (some line) ≡ some d))
        × ((d : Decision) × (startup false none ≡ some d))
  unfolding decide_migration
  startup-decides line =
      (decides true (some line) (λ c. (_, refl)), decides false none (λ c. (_, refl)))
    where
      decides :
          (i : Bool) (a : Option Text)
          → ((c : Candidate) → (d : Decision) × (decide_migration strip_casefold c i a ≡ some d))
          → (d : Decision) × (startup i a ≡ some d)
      decides i a m = elim (startup-Decided i a) [
        | works db e u r ↦ (_, r)
        | holds_current db e u r ↦ (_, r)
        | asks db e f u r ↦ let (d, k) = m (at_legacy db) in (d, r ∙ k)
        | holds_legacy e r ↦ (_, r)
        | starts_fresh e r ↦ (_, r)
      ]
