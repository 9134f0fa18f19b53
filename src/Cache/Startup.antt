-- ===== src/Cache/Startup.antt =====
-- yt_media_tools/cache_startup_policy.py: what startup may do with a resolved cache. The input
-- stream gives the line that is read; `str.strip` with `str.casefold` is given by the caller, and
-- the texts of `detail` and what is printed are left out.
pub mod Steps
pub mod Laws
use yt_media_tools.Prelude.{
  Bool, true, false, ◌||◌, Option, none, some, Text, codes, [], ◌∷◌, if◌then◌else◌,
}
use yt_media_tools.Query.Like.{equal_text}
use yt_media_tools.Cache.Discovery.{
  Candidate, Resolution, ResolutionKind, active, migration_required, fresh_required, blocked,
}

pub data Action : Type 0 where
  use_active create_fresh migrate cancelled held : Action

pub data Authorisation : Type 0 where
  not_required interactive_consent non_interactive_default declined : Authorisation

pub record Decision : Type 0 where
  pub action : Action
  pub path : Option Text
  pub authorisation : Authorisation

abbrev pub decision : Action → Option Text → Authorisation → Decision
decision action path authorisation = record {
  action = action;
  path = path;
  authorisation = authorisation;
}

-- `CacheStartupDecision.may_begin_normal_work`
unfoldable pub may_begin_normal_work : Decision → Bool
may_begin_normal_work d = elim d.action [ use_active ↦ true | _ ↦ false ]

abbrev pub path_of : Option Candidate → Option Text
path_of none = none
path_of (some candidate) = some candidate.path

module _ (strip_casefold : Text → Text) where
  -- `_confirm_migration`, by the line that is read; at the end of the input that is empty
  unfoldable pub confirm_migration : Text → Bool
  unfolding equal_text
  confirm_migration [] = false
  confirm_migration (c ∷ cs) =
      let reply = strip_casefold (c ∷ cs) in
      equal_text reply (codes "y") || equal_text reply (codes "yes")

  -- The answer is `none` where a stream is missing. A ValueError is `none`.
  unfoldable pub decide_migration : Candidate → Bool → Option Text → Option Decision
  unfolding confirm_migration
  decide_migration candidate false answer =
      some (decision migrate (some candidate.path) non_interactive_default)
  decide_migration candidate true none = none
  decide_migration candidate true (some answer) = some (
      if confirm_migration answer
      then decision migrate (some candidate.path) interactive_consent
      else decision cancelled (some candidate.path) declined)

  unfoldable pub decide_cache_startup : Resolution → Bool → Option Text → Option Decision
  unfolding decide_migration
  decide_cache_startup resolution interactive answer = elim resolution.kind [
    | active ↦ elim resolution.candidate [
      | none ↦ none
      | some candidate ↦ some (decision use_active (some candidate.path) not_required)
    ]
    | fresh_required ↦ some (decision create_fresh none not_required)
    | blocked ↦ some (decision held (path_of resolution.blocking_candidate) not_required)
    | migration_required ↦ elim resolution.candidate [
      | none ↦ none
      | some candidate ↦ decide_migration candidate interactive answer
    ]
  ]
