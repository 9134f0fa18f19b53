-- ===== src/Cache/Discovery.antt =====
-- yt_media_tools/cache_discovery.py: which recognised cache file is authoritative. A database is
-- what SQLite reads of it; the texts of `detail` are left out. `Path.expanduser`, `int` on a text and
-- the check of the v3 contract's tables are given by the caller.
pub mod Laws
use yt_media_tools.Prelude.{
  ℕ, Bool, true, false, not, ◌&&◌, ◌||◌, Option, none, some, List, [], ◌∷◌, ◌++◌, all, any, Text,
  codes, leb, ◌==◌, if◌then◌else◌,
}
use yt_media_tools.Prelude.Order.{ℤ, pos, negsuc}
use yt_media_tools.Query.Like.{equal_text}

abbrev pub current_cache_schema_version : ℕ
current_cache_schema_version = 4

abbrev pub legacy_cache_schema_version : ℕ
legacy_cache_schema_version = 3

-- `_REQUIRED_V4_TABLES`
abbrev pub required_v4_tables : List Text
required_v4_tables =
    codes "cache_v4_registry_meta"
    ∷ codes "cache_v4_providers"
    ∷ codes "cache_v4_media_entities"
    ∷ codes "cache_v4_ytdlp_metadata"
    ∷ codes "cache_v4_acquisition_state"
    ∷ codes "cache_v4_sources"
    ∷ codes "cache_v4_source_observations"
    ∷ codes "cache_v4_source_entries"
    ∷ codes "cache_v4_source_coverage"
    ∷ codes "cache_v4_source_frontiers"
    ∷ codes "cache_v4_ytdlp_collections"
    ∷ []

pub data CandidateKind : Type 0 where
  current historical : CandidateKind

pub data CandidateState : Type 0 where
  valid incomplete version_mismatch corrupt : CandidateState

pub data ResolutionKind : Type 0 where
  active migration_required fresh_required blocked : ResolutionKind

pub record Candidate : Type 0 where
  pub path : Text
  pub kind : CandidateKind
  pub expected_schema_version : ℕ
  pub state : CandidateState
  pub actual_schema_version : Option ℤ
  pub migration_state : Option Text

-- What a read-only connection finds: the first row of the integrity check, the names of the tables,
-- and the rows of cache_meta where that table can be read.
pub record Contents : Type 0 where
  pub integrity : Option Text
  pub tables : List Text
  pub meta : Option (List (Text × Text))

-- `none` where SQLite raises an error before that
abbrev pub Database : Type 0
Database = Option Contents

pub record Platform : Type 0 where
  pub expanduser : Text → Text
  pub int_of : Text → Option ℤ
  pub breaks_v3_contract : Text → Bool

unfoldable pub contains_text : Text → List Text → Bool
unfolding equal_text
contains_text s texts = any (equal_text s) texts

-- no table is missing
unfoldable pub has_required_tables : List Text → Bool
unfolding contains_text
has_required_tables tables = all (λ (t : Text). contains_text t tables) required_v4_tables

-- `dict(rows).get(key)`: the last row of a key counts
unfoldable pub meta_value : Text → List (Text × Text) → Option Text
unfolding equal_text
meta_value name [] = none
meta_value name ((k, v) ∷ rows) = elim (meta_value name rows) [
  | some w ↦ some w
  | none ↦ if equal_text k name then some v else none
]

abbrev pub is_version : ℤ → ℕ → Bool
is_version (pos n) version = n == version
is_version (negsuc n) version = false

abbrev pub is_text : Option Text → Text → Bool
is_text none t = false
is_text (some s) t = equal_text s t

abbrev pub unread : Text → CandidateKind → ℕ → Candidate
unread path kind version = record {
  path = path;
  kind = kind;
  expected_schema_version = version;
  state = corrupt;
  actual_schema_version = none;
  migration_state = none;
}

abbrev pub read_as : Text → CandidateKind → ℕ → ℤ → Option Text → CandidateState → Candidate
read_as path kind version actual migration state = record {
  path = path;
  kind = kind;
  expected_schema_version = version;
  state = state;
  actual_schema_version = some actual;
  migration_state = migration;
}

abbrev pub parsed_version : (Text → Option ℤ) → Option Text → Option ℤ
parsed_version int_of none = none
parsed_version int_of (some raw) = int_of raw

module _ (platform : Platform) where
  -- the state of a database whose version can be read
  unfoldable pub version_state : Text → ℕ → List Text → ℤ → Option Text → CandidateState
  unfolding has_required_tables
  version_state path version tables actual migration =
      if not (is_version actual version)
      then version_mismatch
      else if leb current_cache_schema_version version && not (is_text migration (codes "complete"))
      then incomplete
      else if (version == current_cache_schema_version) && not (has_required_tables tables)
      then corrupt
      else if (version == legacy_cache_schema_version) && platform.breaks_v3_contract path
      then corrupt
      else valid

  -- `_read_candidate`, after the integrity check
  unfoldable pub read_meta : Text → CandidateKind → ℕ → List Text → List (Text × Text) → Candidate
  unfolding meta_value version_state
  read_meta path kind version tables meta =
      let migration = meta_value (codes "migration_state") meta in
      elim (parsed_version platform.int_of (meta_value (codes "schema_version") meta)) [
        | none ↦ unread path kind version
        | some actual ↦
            read_as path kind version actual migration
              (version_state path version tables actual migration)
      ]

  unfoldable pub read_contents : Text → CandidateKind → ℕ → Contents → Candidate
  unfolding read_meta contains_text
  read_contents path kind version contents =
      if not (is_text contents.integrity (codes "ok"))
        || not (contains_text (codes "cache_meta") contents.tables)
      then unread path kind version
      else elim contents.meta [
        | none ↦ unread path kind version
        | some meta ↦ read_meta path kind version contents.tables meta
      ]

  unfoldable pub read_candidate : Text → CandidateKind → ℕ → Database → Candidate
  unfolding read_contents
  read_candidate path kind version none = unread path kind version
  read_candidate path kind version (some contents) = read_contents path kind version contents

  unfoldable pub cache_paths : Text → Text × Text
  cache_paths directory =
      let root = platform.expanduser directory in
      (root ++ codes "/metadata-v4.sqlite3", root ++ codes "/metadata.sqlite3")

  abbrev pub candidate_at : (Text → Option Database) → Text → CandidateKind → ℕ → List Candidate
  candidate_at files path kind version = elim (files path) [
    | none ↦ []
    | some database ↦ read_candidate path kind version database ∷ []
  ]

  -- the files at the current and the legacy path
  unfoldable pub discover_at : (Text → Option Database) → Text → Text → List Candidate
  unfolding read_candidate
  discover_at files newer older =
      candidate_at files newer current current_cache_schema_version
      ++ candidate_at files older historical legacy_cache_schema_version

  -- `discover_caches`; `files` gives the databases at the paths that exist
  unfoldable pub discover_caches : (Text → Option Database) → Text → List Candidate
  unfolding cache_paths discover_at
  discover_caches files directory =
      discover_at files (cache_paths directory).0 (cache_paths directory).1

abbrev pub usable : Candidate → Bool
usable candidate = elim candidate.state [ valid ↦ true | _ ↦ false ]

pub record Resolution : Type 0 where
  pub kind : ResolutionKind
  pub candidate : Option Candidate
  pub blocking_candidate : Option Candidate

abbrev pub resolution : ResolutionKind → Option Candidate → Option Candidate → Resolution
resolution kind candidate blocking = record {
  kind = kind;
  candidate = candidate;
  blocking_candidate = blocking;
}

unfoldable pub resolve_discovery : List Candidate → Resolution
resolve_discovery [] = resolution fresh_required none none
resolve_discovery (newest ∷ older) =
    if usable newest
    then elim newest.kind [
      | current ↦ resolution active (some newest) none
      | historical ↦ resolution migration_required (some newest) none
    ]
    else resolution blocked none (some newest)
