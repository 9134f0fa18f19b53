-- ===== src/Download/Report.antt =====
-- yt-download.py, `queue_targets` to `queue_run_report`: the targets that a queue file names, and the
-- report on what became of them. `lines` are the decoded lines of the file.
pub mod Laws
use yt_media_tools.Prelude.{
  ℕ, Bool, true, false, not, ◌&&◌, ◌||◌, Option, none, some, List, [], ◌∷◌, Text, codes, any, keep,
  map, length, ◌==◌, if◌then◌else◌,
}
use yt_media_tools.Query.Like.{equal_text}
use yt_media_tools.Query.Evaluator.{is_prefix}

-- Python's `line.strip()` and the first field of `stripped.split(None, 1)`
pub record Splitting : Type 0 where
  pub strip : Text → Text
  pub first_field : Text → Text

-- `target in seen`
unfoldable pub is_seen : Text → List Text → Bool
unfolding equal_text
is_seen target seen = any (equal_text target) seen

-- `not text`
abbrev pub is_empty : Text → Bool
is_empty [] = true
is_empty (c ∷ cs) = false

-- of the targets that some lines have, those that are not among the ones seen, each once
unfoldable pub new_targets : List Text → List (Option Text) → List Text
unfolding is_seen
new_targets seen [] = []
new_targets seen (none ∷ lines) = new_targets seen lines
new_targets seen (some target ∷ lines) =
    let rest = new_targets seen lines in
    let next = new_targets (target ∷ seen) lines in
    if is_seen target seen then rest else target ∷ next

-- `len(set(targets))`
unfoldable pub distinct_targets : List Text → List Text → List Text
unfolding is_seen
distinct_targets seen [] = []
distinct_targets seen (target ∷ targets) =
    let rest = distinct_targets seen targets in
    let next = distinct_targets (target ∷ seen) targets in
    if is_seen target seen then rest else target ∷ next

module _ ⦃sp : Splitting⦄ where
  -- a line of a plain queue: neither empty nor a comment
  unfoldable pub line_target : Text → Option Text
  unfolding is_prefix
  line_target line =
      let target = sp.strip line in
      if is_empty target || is_prefix (codes "#") target then none else some target

  unfoldable pub row_target : Text → Option Text
  unfolding is_prefix
  row_target line =
      let stripped = sp.strip line in
      let is_comment =
        is_prefix (codes "#") stripped
        || (is_prefix (codes ";") stripped || is_prefix (codes "]") stripped) in
      if is_empty stripped || is_comment then none else some (sp.first_field stripped)

  unfoldable pub queue_targets : List Text → List Text
  unfolding new_targets line_target
  queue_targets lines = new_targets [] (map line_target lines)

  unfoldable pub queue_row_targets : List Text → List Text
  unfolding new_targets row_target
  queue_row_targets lines = new_targets [] (map row_target lines)

pub record Counts : Type 0 where
  pub requested : ℕ
  pub already_archived : ℕ
  pub completed : ℕ
  pub unresolved : ℕ

-- the report without its file names and version
pub record QueueReport : Type 0 where
  pub exit_status : ℕ
  pub interrupted : Bool
  pub counts : Counts
  pub requested : List Text
  pub already_archived : List Text
  pub completed : List Text
  pub unresolved : List Text

-- `target not in archived_before and target not in remaining_set`
unfoldable pub is_completed : List Text → List Text → Text → Bool
unfolding is_seen
is_completed archived_before remaining target =
    not (is_seen target archived_before) && not (is_seen target remaining)

unfoldable pub queue_run_report : List Text → List Text → List Text → ℕ → QueueReport
unfolding is_completed is_seen distinct_targets
queue_run_report requested archived_before remaining exit_status =
    let already_archived = keep (λ target. is_seen target archived_before) requested in
    let completed = keep (is_completed archived_before remaining) requested in
    let unresolved = keep (λ target. is_seen target remaining) requested in
    record {
      exit_status = exit_status;
      interrupted = exit_status == 130;
      counts = record {
        requested = length (distinct_targets [] requested);
        already_archived = length already_archived;
        completed = length completed;
        unresolved = length unresolved;
      };
      requested = requested;
      already_archived = already_archived;
      completed = completed;
      unresolved = unresolved;
    }
