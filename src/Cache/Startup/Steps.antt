-- ===== src/Cache/Startup/Steps.antt =====
-- What discovery finds at the files that there are, and what is decided at the newest candidate.
use yt_media_tools.Prelude.{
  ◌≡◌, refl, Bool, true, false, Option, none, some, List, [], ◌∷◌, ◌++◌, Text,
}
use yt_media_tools.Cache.Discovery.{
  Platform, Database, Candidate, current, historical, read_candidate, usable, candidate_at,
  discover_at, resolve_discovery,
}
use yt_media_tools.Cache.Startup.{
  use_active, held, not_required, decision, decide_migration, decide_cache_startup,
}

-- What discovery finds for the files that exist.
module _ (platform : Platform) (files : Text → Option Database) (newer older : Text) where
  pub discover_current :
      (db : Database)
      → files newer ≡ some db
      → discover_at platform files newer older
        ≡ read_candidate platform newer current 4 db
          ∷ candidate_at platform files older historical 3
  unfolding discover_at
  discover_current db h = rw (h, discover_at, candidate_at, ◌++◌) refl

  pub discover_legacy :
      (db : Database)
      → files newer ≡ none
      → files older ≡ some db
      → discover_at platform files newer older ≡ read_candidate platform older historical 3 db ∷ []
  unfolding discover_at
  discover_legacy db h k = rw (h, k, discover_at, candidate_at, ◌++◌) refl

  pub discover_none :
      files newer ≡ none → files older ≡ none → discover_at platform files newer older ≡ []
  unfolding discover_at
  discover_none h k = rw (h, k, discover_at, candidate_at, ◌++◌) refl

-- The decision at the newest candidate.
module _ (strip_casefold : Text → Text) (c : Candidate) (older : List Candidate) (i : Bool)
    (a : Option Text) where
  pub decide_active :
      usable c ≡ true
      → c.kind ≡ current
      → decide_cache_startup strip_casefold (resolve_discovery (c ∷ older)) i a
        ≡ some (decision use_active (some c.path) not_required)
  unfolding resolve_discovery decide_cache_startup
  decide_active h k = rw (h, k) refl

  pub decide_blocked :
      usable c ≡ false
      → decide_cache_startup strip_casefold (resolve_discovery (c ∷ older)) i a
        ≡ some (decision held (some c.path) not_required)
  unfolding resolve_discovery decide_cache_startup
  decide_blocked h = rw h refl

  pub decide_historical :
      usable c ≡ true
      → c.kind ≡ historical
      → decide_cache_startup strip_casefold (resolve_discovery (c ∷ older)) i a
        ≡ decide_migration strip_casefold c i a
  unfolding resolve_discovery decide_cache_startup
  decide_historical h k = rw (h, k) (same_path i a)
    where
      same_path :
          (j : Bool) (b : Option Text)
          → decide_migration strip_casefold (record c { kind = historical }) j b
            ≡ decide_migration strip_casefold c j b
      same_path false b = refl
      same_path true none = refl
      same_path true (some line) = refl
