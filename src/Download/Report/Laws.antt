-- ===== src/Download/Report/Laws.antt =====
-- The report on a queue accounts for every requested target.
use yt_media_tools.Prelude.{
  ◌≡◌, refl, ℕ, ◌+◌, Bool, ◌&&◌, Option, none, some, List, [], ◌∷◌, Text, map, keep, length, arith,
}
use yt_media_tools.Download.Report.{
  Splitting, is_seen, new_targets, distinct_targets, line_target, row_target, queue_targets,
  queue_row_targets, is_completed, queue_run_report, QueueReport,
}

-- what a reader of a queue found is without repetition
distinct_targets-new_targets :
    (seen : List Text) (lines : List (Option Text))
    → distinct_targets seen (new_targets seen lines) ≡ new_targets seen lines
unfolding new_targets distinct_targets
distinct_targets-new_targets seen [] = refl
distinct_targets-new_targets seen (none ∷ lines) = distinct_targets-new_targets seen lines
distinct_targets-new_targets seen (some target ∷ lines) = ground (
  arith,
  distinct_targets-new_targets seen lines,
  distinct_targets-new_targets (target ∷ seen) lines,
)

-- whether a target was archived before the run and is still in the queue after it
abbrev pub is_left_over : List Text → List Text → Text → Bool
is_left_over archived_before remaining target =
    is_seen target archived_before && is_seen target remaining

groups-length :
    (archived_before remaining targets : List Text)
    → length (keep (λ target. is_seen target archived_before) targets)
        + length (keep (is_completed archived_before remaining) targets)
        + length (keep (λ target. is_seen target remaining) targets)
      ≡ length targets + length (keep (is_left_over archived_before remaining) targets)
unfolding is_completed
groups-length archived_before remaining [] = refl
groups-length archived_before remaining (target ∷ targets) =
    ground (arith, groups-length archived_before remaining targets)

-- whether the counts of a report add up to the requested targets and those that are counted twice
abbrev pub Accounts : ℕ → QueueReport → Type 0
Accounts twice report =
    report.counts.already_archived + report.counts.completed + report.counts.unresolved
    ≡ report.counts.requested + twice

queue_run_report-new_targets :
    (lines : List (Option Text)) (archived_before remaining : List Text) (exit_status : ℕ)
    → Accounts
        (length (keep (is_left_over archived_before remaining) (new_targets [] lines)))
        (queue_run_report (new_targets [] lines) archived_before remaining exit_status)
unfolding queue_run_report
queue_run_report-new_targets lines archived_before remaining exit_status =
    rw (distinct_targets-new_targets [] lines)
      (groups-length archived_before remaining (new_targets [] lines))

module _ ⦃sp : Splitting⦄ where
  -- In the report on a plain and on an annotated queue the archived, completed and unresolved targets
  -- add up to the requested ones, with those counted twice that were archived before the run and are
  -- still in the queue after it.
  pub queue_run_report-Accounts :
      (lines archived_before remaining : List Text) (exit_status : ℕ)
      → Accounts
          (length (keep (is_left_over archived_before remaining) (queue_targets lines)))
          (queue_run_report (queue_targets lines) archived_before remaining exit_status)
        × Accounts
            (length (keep (is_left_over archived_before remaining) (queue_row_targets lines)))
            (queue_run_report (queue_row_targets lines) archived_before remaining exit_status)
  unfolding queue_targets queue_row_targets
  queue_run_report-Accounts lines archived_before remaining exit_status = (
    queue_run_report-new_targets (map line_target lines) archived_before remaining exit_status,
    queue_run_report-new_targets (map row_target lines) archived_before remaining exit_status,
  )
