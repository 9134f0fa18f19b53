-- ===== src/Download/Queue/Writes.antt =====
-- yt-download.py, `atomic_write_bytes` and the same rewrite in `remove_completed_id` and
-- `remove_completed_row`: what the directory holds at every moment, as a step relation with the
-- calls of the operating system that may fail. `os.replace` is atomic. `os.fsync` changes nothing that
-- is seen in the directory: a run can be interrupted at every moment, and a loss of power, which could
-- undo what was not synchronised, is not modelled.
pub mod Safe
pub mod Live
use yt_media_tools.Prelude.{
  Bool, true, false, ◌&&◌, ℕ, suc, ◌<◌, Option, none, some, [], Text, length, take, ◌≡◌,
}

-- the contents of the file and of its temporary file
pub record Files : Type 0 where
  pub target : Option Text
  pub temporary : Option Text

-- The next call: opening with "xb", writing with so many bytes written, `os.fsync`, `os.chmod`,
-- `os.replace`, the directory's `os.fsync`; the end, the `except` branch, and the RuntimeError it ends with.
pub data Stage : Type 0 where
  opening syncing changing_mode replacing syncing_directory finished failing failed : Stage
  writing : ℕ → Stage

pub record Writer : Type 0 where
  pub stage : Stage
  pub files : Files

abbrev pub at : Stage → Files → Writer
at stage files = record { stage = stage; files = files }

abbrev pub with_temporary : Option Text → Files → Files
with_temporary temporary files = record files { temporary = temporary }

-- One step of writing `content`. `atomic_write_bytes` makes no call of `os.chmod`: there
-- `changes_mode` is no call, and `mode_fails` does not happen.
pub data Step (content : Text) : Writer → Writer → Type 0 where
  opens :
      (files : Files)
      → files.temporary ≡ none
      → Step content (at opening files) (at (writing 0) (with_temporary (some []) files))
  open_fails : (files : Files) → Step content (at opening files) (at failing files)
  writes :
      (files : Files) (n : ℕ)
      → n < length content
      → Step content
          (at (writing n) files)
          (at (writing (suc n)) (with_temporary (some (take (suc n) content)) files))
  write_fails : (files : Files) (n : ℕ) → Step content (at (writing n) files) (at failing files)
  flushes :
      (files : Files) (n : ℕ)
      → n ≡ length content
      → Step content (at (writing n) files) (at syncing files)
  syncs : (files : Files) → Step content (at syncing files) (at changing_mode files)
  sync_fails : (files : Files) → Step content (at syncing files) (at failing files)
  changes_mode : (files : Files) → Step content (at changing_mode files) (at replacing files)
  mode_fails : (files : Files) → Step content (at changing_mode files) (at failing files)
  replaces :
      (files : Files)
      → Step content
          (at replacing files)
          (at syncing_directory (record { target = files.temporary; temporary = none }))
  replace_fails : (files : Files) → Step content (at replacing files) (at failing files)
  directory_syncs : (files : Files) → Step content (at syncing_directory files) (at finished files)
  directory_not_opened :
      (files : Files) → Step content (at syncing_directory files) (at finished files)
  directory_fails : (files : Files) → Step content (at syncing_directory files) (at failing files)
  unlinks :
      (files : Files) → Step content (at failing files) (at failed (with_temporary none files))
  unlink_fails : (files : Files) → Step content (at failing files) (at failed files)

-- the moments of a run
pub data Run (content : Text) (start : Writer) : Writer → Type 0 where
  begin : Run content start start
  then_step : {w w' : Writer} → Run content start w → Step content w w' → Run content start w'

-- whether a step is not one of a failing call or of the `except` branch
unfoldable pub succeeds : {content : Text} {w w' : Writer} → Step content w w' → Bool
succeeds (opens files e) = true
succeeds (open_fails files) = false
succeeds (writes files n e) = true
succeeds (write_fails files n) = false
succeeds (flushes files n e) = true
succeeds (syncs files) = true
succeeds (sync_fails files) = false
succeeds (changes_mode files) = true
succeeds (mode_fails files) = false
succeeds (replaces files) = true
succeeds (replace_fails files) = false
succeeds (directory_syncs files) = true
succeeds (directory_not_opened files) = true
succeeds (directory_fails files) = false
succeeds (unlinks files) = false
succeeds (unlink_fails files) = false

-- whether no call of a run has failed
unfoldable pub all_succeed : {content : Text} {start w : Writer} → Run content start w → Bool
unfolding succeeds
all_succeed begin = true
all_succeed (then_step run step) = succeeds step && all_succeed run

unfoldable pub steps : {content : Text} {start w : Writer} → Run content start w → ℕ
steps begin = 0
steps (then_step run step) = suc (steps run)
