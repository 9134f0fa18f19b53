-- ===== src/Examples/Downloads.antt =====
-- Small profiles and queues, and the theorems on them.
use yt_media_tools.Prelude.{
  true, not, none, some, List, [], ◌∷◌, ◌++◌, Text, codes, All, all, keep, map, ◌≡◌, refl, ◌⊎◌, ◌≤◌,
  arith,
}
use yt_media_tools.Download.Profiles.{
  Dict, Validation, RawProfile, load_profiles, find, raised, inheritance_cycle,
}
use yt_media_tools.Download.Profiles.Laws.{IsDict, Loads, load_profiles-Loads}
use yt_media_tools.Download.Redaction.{Letters, partition, redact_clause, redact_extractor_argument}
use yt_media_tools.Download.Redaction.Laws.{clauses_of, hides, redact_extractor_argument-hides}
use yt_media_tools.Download.Queue.{
  splitlines, join, is_other, remove_completed_id, remove_archived_ids,
}
use yt_media_tools.Download.Queue.Laws.{remove_completed_id-lines, remove_archived_ids-removed}
use yt_media_tools.Download.Queue.Writes.{
  Files, at, opening, failing, finished, Run, begin, then_step, opens, writes, write_fails, writing,
  steps, all_succeed, with_temporary,
}
use yt_media_tools.Download.Queue.Writes.Safe.{Run-atomic}
use yt_media_tools.Download.Queue.Writes.Live.{Continues, Run-finishes}

abbrev all_valid : Validation
all_valid = record { Setting = Text; validate = λ (name : Text) (d : Dict Text). some d }

-- a profile "hd" below "base", and two that are each other's parents
abbrev three_profiles : Dict (RawProfile ⦃v = all_valid⦄)
three_profiles =
    (codes "hd", (some (codes "base"), (codes "format", codes "best") ∷ []))
    ∷ ((codes "base", (none, (codes "retries", codes "3") ∷ [])) ∷ [])

abbrev circular_profiles : Dict (RawProfile ⦃v = all_valid⦄)
circular_profiles = (codes "a", (some (codes "b"), [])) ∷ ((codes "b", (some (codes "a"), [])) ∷ [])

abbrev profile_names : List Text
profile_names = codes "base" ∷ (codes "hd" ∷ [])

three_IsDict : IsDict ⦃v = all_valid⦄ three_profiles
unfolding find
three_IsDict = (refl, (refl, tt))

load_profiles-Loads_example :
    Loads ⦃v = all_valid⦄ three_profiles [] profile_names
      (load_profiles ⦃v = all_valid⦄ three_profiles [] profile_names)
load_profiles-Loads_example =
    load_profiles-Loads ⦃v = all_valid⦄ three_profiles [] profile_names three_IsDict

circular_raises :
    load_profiles ⦃v = all_valid⦄ circular_profiles [] (codes "a" ∷ [])
    ≡ raised (inheritance_cycle (codes "a" ∷ (codes "b" ∷ (codes "a" ∷ []))))
unfolding load_profiles
circular_raises = refl

-- a queue with both kinds of line ends, in which "id" stands between blanks
abbrev queue_bytes : Text
queue_bytes = codes "x" ++ (13 ∷ (codes " id" ++ (10 ∷ (10 ∷ codes "id2"))))

remove_completed_id-lines_example :
    ((remove_completed_id queue_bytes (codes "id")).0
      ≡ not (all (is_other (codes "id")) (splitlines queue_bytes)))
    × ((remove_completed_id queue_bytes (codes "id")).1
        ≡ join (keep (is_other (codes "id")) (splitlines queue_bytes)))
    × (all (is_other (codes "id")) (splitlines (remove_completed_id queue_bytes (codes "id")).1)
        ≡ true)
remove_completed_id-lines_example = remove_completed_id-lines queue_bytes (codes "id")

removed_id :
    remove_completed_id queue_bytes (codes "id") ≡ (true, codes "x" ++ (13 ∷ (10 ∷ codes "id2")))
unfolding remove_completed_id
removed_id = refl

abbrev archived_ids : List Text
archived_ids = codes "id" ∷ (codes "x" ∷ [])

remove_archived_ids-removed_example :
    All
      (λ id. all (is_other id) (splitlines (remove_archived_ids queue_bytes archived_ids).1) ≡ true)
      archived_ids
remove_archived_ids-removed_example = remove_archived_ids-removed queue_bytes archived_ids

abbrev old_files : Files
old_files = record { target = some (codes "old"); temporary = none }

interrupted :
    Run (codes "new") (at opening old_files) (at failing (with_temporary (some []) old_files))
interrupted = then_step (then_step begin (opens old_files refl)) (write_fails _ 0)

Run-atomic_example :
    ((with_temporary (some []) old_files).target ≡ some (codes "old")
      ⊎ ((with_temporary (some []) old_files).target ≡ some (codes "new")))
    × (failing ≡ finished
        → ((with_temporary (some []) old_files).target ≡ some (codes "new"))
          × ((with_temporary (some []) old_files).temporary ≡ none))
Run-atomic_example = Run-atomic (codes "new") old_files _ interrupted

abbrev started_files : Files
started_files = with_temporary (some (codes "n")) (with_temporary (some []) old_files)

-- a rewrite that has written one byte
abbrev started : Run (codes "new") (at opening old_files) (at (writing 1) started_files)
started =
    then_step (then_step begin (opens old_files refl))
      (writes (with_temporary (some []) old_files) 0 (omega arith))

started-succeeds : all_succeed started ≡ true
unfolding all_succeed
started-succeeds = refl

Run-finishes_example :
    (steps started ≤ 9)
    × (((at (writing 1) started_files).stage ≡ finished
          × ((at (writing 1) started_files).files.target ≡ some (codes "new")))
        ⊎ Continues (codes "new") (at (writing 1) started_files))
Run-finishes_example =
    Run-finishes (codes "new") old_files (at (writing 1) started_files) started refl
      started-succeeds

abbrev no_letters : Letters
no_letters = record { strip_lower = λ (s : Text). s }

abbrev shown_argument : Text
shown_argument = codes "youtube:lang=en;po-token=abc"

redacted_argument :
    redact_extractor_argument ⦃ls = no_letters⦄ shown_argument
    ≡ codes "youtube:lang=en;po-token=<redacted>"
unfolding redact_extractor_argument
redacted_argument = refl

redact_extractor_argument-hides_example :
    ((partition b':' (redact_extractor_argument ⦃ls = no_letters⦄ shown_argument)).0
      ≡ (partition b':' shown_argument).0)
    × (clauses_of (partition b':' (redact_extractor_argument ⦃ls = no_letters⦄ shown_argument))
        ≡ map (redact_clause ⦃ls = no_letters⦄) (clauses_of (partition b':' shown_argument)))
    × All
        (λ c. hides ⦃ls = no_letters⦄ (partition b'=' c) ≡ true)
        (clauses_of (partition b':' (redact_extractor_argument ⦃ls = no_letters⦄ shown_argument)))
redact_extractor_argument-hides_example =
    redact_extractor_argument-hides ⦃ls = no_letters⦄ shown_argument
