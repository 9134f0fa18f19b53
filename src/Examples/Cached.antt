-- ===== src/Examples/Cached.antt =====
-- The theorems on the cache at one migration and one directory.
use yt_media_tools.Prelude.{
  ℕ, ◌≡◌, ◌↔◌, ◌⊎◌, refl, true, false, Option, none, some, List, [], ◌∷◌, Text, codes, arith,
}
use yt_media_tools.Prelude.Order.{pos}
use yt_media_tools.Query.Like.{equal_text}
use yt_media_tools.Cache.Migration.{
  Transition, Context, complete, done, plan, run, ChainResult, chain_succeeded,
}
use yt_media_tools.Cache.Migration.Plans.{Advances, Chain, Planned, plan-Planned}
use yt_media_tools.Cache.Migration.Runs.{Completed, Stopped, run-Runs, run-chain_succeeded}
use yt_media_tools.Cache.Discovery.{
  Platform, Contents, Database, read_candidate, usable, current, historical, resolve_discovery,
  discover_caches, cache_paths,
}
use yt_media_tools.Cache.Discovery.Laws.{IsCurrent, read_candidate-IsCurrent}
use yt_media_tools.Cache.Startup.{
  Decision, decision, migrate, non_interactive_default, may_begin_normal_work, decide_cache_startup,
}
use yt_media_tools.Cache.Startup.Laws.{
  startup, HasCurrent, Consent, legacy_path, current_path, startup-work, startup-migrate,
  startup-decides,
}

abbrev upgrade : Transition
upgrade = record {
  source_version = 3;
  target_version = 4;
  execute = λ (c : Context). some (record {
    source_version = 3;
    target_version = 4;
    destination_path = c.destination_path;
    destination_state = complete;
  });
}

abbrev registered : List Transition
registered = upgrade ∷ []

abbrev destination : ℕ → Text
destination version = codes "metadata-v4.sqlite3"

abbrev upgraded : ChainResult
upgraded = record {
  initial_version = 3;
  requested_version = 4;
  transitions =
      record {
        source_version = 3;
        target_version = 4;
        destination_path = codes "metadata-v4.sqlite3";
        destination_state = complete;
      }
      ∷ [];
}

registered-Advances : Advances registered
registered-Advances = (omega arith, tt)

plan-Planned_example : Planned registered 3 4 (plan registered 3 4)
plan-Planned_example = plan-Planned registered 3 4 registered-Advances (omega arith) (omega arith)

run-upgraded : run registered (codes "metadata.sqlite3") destination 3 4 ≡ done upgraded
unfolding run
run-upgraded = refl

run-Runs_example :
    (hops : List Transition) × (plan registered 3 4 ≡ done hops)
    × (upgraded.initial_version ≡ 3)
    × (upgraded.requested_version ≡ 4)
    × (Completed destination (codes "metadata.sqlite3") hops upgraded.transitions
        ⊎ Stopped destination (codes "metadata.sqlite3") hops upgraded.transitions)
run-Runs_example =
    run-Runs destination registered (codes "metadata.sqlite3") 3 4 upgraded run-upgraded

run-chain_succeeded_example : (chain_succeeded upgraded ≡ true) ↔ (
    (hops : List Transition) × Chain registered 3 4 hops
    × Completed destination (codes "metadata.sqlite3") hops upgraded.transitions)
run-chain_succeeded_example =
    run-chain_succeeded destination registered (codes "metadata.sqlite3") 3 4 upgraded
      registered-Advances (omega arith) (omega arith) run-upgraded

abbrev platform : Platform
platform = record {
  expanduser = λ (t : Text). t;
  int_of = λ (t : Text). some (pos 3);
  breaks_v3_contract = λ (t : Text). false;
}

-- a v3 database
abbrev legacy_contents : Contents
legacy_contents = record {
  integrity = some (codes "ok");
  tables = codes "cache_meta" ∷ [];
  meta = some ((codes "schema_version", codes "3") ∷ []);
}

read_candidate-IsCurrent_example :
    (usable (read_candidate platform (codes "a") current 4 (some legacy_contents)) ≡ true)
    ↔ IsCurrent platform legacy_contents
read_candidate-IsCurrent_example = read_candidate-IsCurrent platform (codes "a") legacy_contents

abbrev same_text : Text → Text
same_text t = t

-- only the legacy file exists
unfoldable files : Text → Option Database
unfolding equal_text
files path = elim (equal_text path (codes "d/metadata.sqlite3")) [
  | true ↦ some (some legacy_contents)
  | false ↦ none
]

abbrev migrates : Decision
migrates = decision migrate (some (codes "d/metadata.sqlite3")) non_interactive_default

startup-migrates : startup platform same_text files (codes "d") false none ≡ some migrates
unfolding files decide_cache_startup resolve_discovery discover_caches cache_paths read_candidate
startup-migrates = refl

startup-work_example :
    (may_begin_normal_work migrates ≡ true) ↔ HasCurrent platform same_text files (codes "d")
startup-work_example =
    startup-work platform same_text files (codes "d") false none migrates startup-migrates

startup-migrate_example :
    (db : Database) × (files (current_path platform same_text files (codes "d")) ≡ none)
    × (files (legacy_path platform same_text files (codes "d")) ≡ some db)
    × (usable (
          read_candidate platform
            (legacy_path platform same_text files (codes "d"))
            historical
            3
            db)
        ≡ true)
    × Consent platform same_text files (codes "d") false none
startup-migrate_example =
    startup-migrate platform same_text files (codes "d") false none migrates startup-migrates refl

startup-decides_example :
    ((d : Decision) × (startup platform same_text files (codes "d") true (some (codes "y"))
        ≡ some d))
    × ((d : Decision) × (startup platform same_text files (codes "d") false none ≡ some d))
startup-decides_example = startup-decides platform same_text files (codes "d") (codes "y")
