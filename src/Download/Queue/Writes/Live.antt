-- ===== src/Download/Queue/Writes/Live.antt =====
-- A rewrite none of whose calls fails comes to its end.
use yt_media_tools.Prelude.{
  ℕ, suc, ◌+◌, ◌-◌, ◌≤◌, true, false, none, some, Text, length, ◌≡◌, refl, ◌⊎◌, inl, inr, arith,
  both,
}
use native.Mathlib.Decide.{dec_lt}
use yt_media_tools.Download.Queue.Writes.Safe.{Run-atomic}
use yt_media_tools.Download.Queue.Writes.{
  Files, Stage, opening, syncing, changing_mode, replacing, syncing_directory, finished, failing,
  failed, writing, Writer, at, Step, opens, open_fails, writes, write_fails, flushes, syncs,
  sync_fails, changes_mode, mode_fails, replaces, replace_fails, directory_syncs,
  directory_not_opened, directory_fails, unlinks, unlink_fails, Run, begin, then_step, succeeds,
  all_succeed, steps,
}

-- the calls that are left of a rewrite, while none has failed
abbrev calls_left : Text → Stage → ℕ
calls_left content opening = length content + 6
calls_left content (writing n) = (length content - n) + 5
calls_left content syncing = 4
calls_left content changing_mode = 3
calls_left content replacing = 2
calls_left content syncing_directory = 1
calls_left content finished = 0
calls_left content failing = 0
calls_left content failed = 0

-- what holds before each call, while none has failed
abbrev OnTrack : Text → Stage → Files → Type 0
OnTrack content opening files = files.temporary ≡ none
OnTrack content (writing n) files = n ≤ length content
OnTrack content failing files = false ≡ true
OnTrack content failed files = false ≡ true
OnTrack content stage files = Unit

Step-OnTrack :
    (content : Text) (w w' : Writer) (step : Step content w w')
    → succeeds step ≡ true
    → OnTrack content w.stage w.files
    → OnTrack content w'.stage w'.files
      × (calls_left content w.stage ≡ suc (calls_left content w'.stage))
unfolding succeeds
Step-OnTrack content _ _ (opens files e) c h = (omega arith, omega arith)
Step-OnTrack content _ _ (open_fails files) c h = cc
Step-OnTrack content _ _ (writes files n e) c h = (omega arith, omega arith)
Step-OnTrack content _ _ (write_fails files n) c h = cc
Step-OnTrack content _ _ (flushes files n e) c h = (tt, omega arith)
Step-OnTrack content _ _ (syncs files) c h = (tt, refl)
Step-OnTrack content _ _ (sync_fails files) c h = cc
Step-OnTrack content _ _ (changes_mode files) c h = (tt, refl)
Step-OnTrack content _ _ (mode_fails files) c h = cc
Step-OnTrack content _ _ (replaces files) c h = (tt, refl)
Step-OnTrack content _ _ (replace_fails files) c h = cc
Step-OnTrack content _ _ (directory_syncs files) c h = (tt, refl)
Step-OnTrack content _ _ (directory_not_opened files) c h = (tt, refl)
Step-OnTrack content _ _ (directory_fails files) c h = cc
Step-OnTrack content _ _ (unlinks files) c h = cc
Step-OnTrack content _ _ (unlink_fails files) c h = cc

Run-OnTrack :
    (content : Text) (files : Files) (w : Writer) (run : Run content (at opening files) w)
    → files.temporary ≡ none
    → all_succeed run ≡ true
    → OnTrack content w.stage w.files
      × (steps run + calls_left content w.stage ≡ length content + 6)
unfolding all_succeed steps
Run-OnTrack content files _ begin e c = (e, omega arith)
Run-OnTrack content files w (then_step {w = u} run step) e c =
    let (now, before) = both (succeeds step) (all_succeed run) c in
    let (track, count) = Run-OnTrack content files u run e before in
    let (track', next) = Step-OnTrack content u w step now track in
    (track', omega (arith, count, next))

-- A rewrite on its track is at its end or has a call that can succeed.
abbrev pub Continues : Text → Writer → Type 0
Continues content w = (w' : Writer) × (step : Step content w w') × (succeeds step ≡ true)

OnTrack-Continues :
    (content : Text) (stage : Stage) (files : Files)
    → OnTrack content stage files
    → (stage ≡ finished) ⊎ Continues content (at stage files)
unfolding succeeds
OnTrack-Continues content opening files h = inr (_, opens files h, refl)
OnTrack-Continues content (writing n) files h = elim (dec_lt n (length content)) [
  | yes more ↦ inr (_, writes files n more, refl)
  | no full ↦ inr (_, flushes files n (omega arith), refl)
]
OnTrack-Continues content syncing files h = inr (_, syncs files, refl)
OnTrack-Continues content changing_mode files h = inr (_, changes_mode files, refl)
OnTrack-Continues content replacing files h = inr (_, replaces files, refl)
OnTrack-Continues content syncing_directory files h = inr (_, directory_syncs files, refl)
OnTrack-Continues content finished files h = inl refl
OnTrack-Continues content failing files h = cc
OnTrack-Continues content failed files h = cc

-- Where no temporary file is left from before, every rewrite none of whose calls has failed makes at
-- most six calls and one for each byte, and it has either ended, with the new contents in place, or
-- makes a further call that can succeed. So a rewrite whose calls succeed always ends.
pub Run-finishes :
    (content : Text) (files : Files) (w : Writer) (run : Run content (at opening files) w)
    → files.temporary ≡ none
    → all_succeed run ≡ true
    → (steps run ≤ length content + 6)
      × (((w.stage ≡ finished) × (w.files.target ≡ some content)) ⊎ Continues content w)
Run-finishes content files w run e c =
    let (track, count) = Run-OnTrack content files w run e c in
    (
      omega (arith, count),
      elim (OnTrack-Continues content w.stage w.files track) [
        | inl end ↦ inl (end, ((Run-atomic content files w run).1 end).0)
        | inr more ↦ inr more
      ],
    )
