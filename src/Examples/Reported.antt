-- ===== src/Examples/Reported.antt =====
-- The report on a small queue, after a run that left one archived target in it.
use yt_media_tools.Prelude.{◌≡◌, refl, List, [], ◌∷◌, Text, codes, take, keep, length}
use yt_media_tools.Download.Report.{Splitting, queue_targets, queue_row_targets, queue_run_report}
use yt_media_tools.Download.Report.Laws.{is_left_over, Accounts, queue_run_report-Accounts}

-- no blanks around a line, and two characters in its first field
abbrev short_fields : Splitting
short_fields = record { strip = λ (line : Text). line; first_field = take 2 }

abbrev queue_lines : List Text
queue_lines =
    codes "v1" ∷ (codes "# old" ∷ (codes "v2 b" ∷ (codes "v1" ∷ (codes "" ∷ (codes "v3" ∷ [])))))

abbrev archived_targets : List Text
archived_targets = codes "v1" ∷ []

abbrev left_targets : List Text
left_targets = codes "v3" ∷ (codes "v1" ∷ [])

row_targets :
    queue_row_targets ⦃sp = short_fields⦄ queue_lines
    ≡ codes "v1" ∷ (codes "v2" ∷ (codes "v3" ∷ []))
unfolding queue_row_targets
row_targets = refl

completed_targets :
    (queue_run_report
      (queue_row_targets ⦃sp = short_fields⦄ queue_lines)
      archived_targets
      left_targets
      0).completed
    ≡ codes "v2" ∷ []
unfolding queue_run_report queue_row_targets
completed_targets = refl

queue_run_report-Accounts_example :
    Accounts
      (length (
        keep
          (is_left_over archived_targets left_targets)
          (queue_targets ⦃sp = short_fields⦄ queue_lines)))
      (queue_run_report
        (queue_targets ⦃sp = short_fields⦄ queue_lines)
        archived_targets
        left_targets
        130)
    × Accounts
        (length (
          keep
            (is_left_over archived_targets left_targets)
            (queue_row_targets ⦃sp = short_fields⦄ queue_lines)))
        (queue_run_report
          (queue_row_targets ⦃sp = short_fields⦄ queue_lines)
          archived_targets
          left_targets
          130)
queue_run_report-Accounts_example =
    queue_run_report-Accounts ⦃sp = short_fields⦄ queue_lines archived_targets left_targets 130
