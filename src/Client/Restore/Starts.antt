-- ===== src/Client/Restore/Starts.antt =====
-- client/src/backup/mod.rs: `run` up to its tasks with `estimate_size`, the ends of `run`, and
-- `request_restore` with the start of `run_restore`.
use backuwup.Prelude.{ℕ, Bool, false, Option, none, some, Result, ok, err, Done, if◌then◌else◌}
use backuwup.Client.Config.{Failure, refused}
use backuwup.Client.Backup.Orchestrator.{
  BackupOrchestrator, set_backup_started, set_backup_finished, set_size_estimate,
}
use backuwup.Client.Backup.Orchestrator
use backuwup.Client.Tables.Log.Transaction.{Difference, bigger, smaller}
use backuwup.Client.Restore.Orchestrator.{RestoreOrchestrator, set_started, set_finished}
use backuwup.Client.Restore.Orchestrator as RestoreState

-- The two global cells.
pub record Cells : Type 0 where
  pub backup : Option BackupOrchestrator
  pub restore : Option RestoreOrchestrator

is_restoring : Option RestoreOrchestrator → Bool
is_restoring none = false
is_restoring (some r) = r.restore_running

-- What `estimate_size` makes of the difference to the last backup; sizes are below 2^63.
unfoldable pub estimate : ℕ → Result Failure (Option Difference) → ℕ
estimate new_size (ok (some (bigger size))) = size
estimate new_size (ok (some (smaller size))) = new_size
estimate new_size (ok none) = new_size
estimate new_size (err e) = new_size

-- `measured` is the size of the folder, already reduced by the factor for compression.
unfoldable pub estimate_size :
    Result Failure ℕ
    → (ℕ → Result Failure (Option Difference))
    → BackupOrchestrator
    → BackupOrchestrator
estimate_size (ok new_size) difference o =
    set_size_estimate (estimate new_size (difference new_size)) o
estimate_size (err e) difference o = set_backup_finished o

with_backup : Cells → BackupOrchestrator → Result Failure Done × Cells
with_backup c o = (ok tt, record c { backup = some o })

-- A backup is started when none runs, no restore does, and a path is set. Whatever becomes of the size,
-- `run` goes on to its tasks.
run_checked :
    Option ℕ
    → Result Failure ℕ
    → (ℕ → Result Failure (Option Difference))
    → BackupOrchestrator
    → Cells
    → Result Failure Done × Cells
unfolding with_backup is_restoring
run_checked path measured difference o c =
    let held = record c { backup = some o } in
    if is_restoring c.restore then (err refused, held) else elim path [
      | none ↦ (err refused, held)
      | some p ↦ with_backup held (estimate_size measured difference (set_backup_started o))
    ]

unfoldable pub run :
    ℕ
    → Option ℕ
    → Result Failure ℕ
    → (ℕ → Result Failure (Option Difference))
    → Cells
    → Result Failure Done × Cells
unfolding run_checked
run destination path measured difference c =
    elim (Orchestrator.initialize_static destination c.backup) [
      | err e ↦ (err e, c)
      | ok o ↦ run_checked path measured difference o c
    ]

-- Both tasks of `run` have ended, or one has failed.
end_backup : Option BackupOrchestrator → Option BackupOrchestrator
end_backup none = none
end_backup (some o) = some (set_backup_finished o)

unfoldable pub run_ended : Cells → Cells
unfolding end_backup
run_ended c = record c { backup = end_backup c.backup }

-- `request_restore` and `run_restore` each set the restore as started.
start_restore : Cells → RestoreOrchestrator → Result Failure Done × Cells
start_restore c r =
    let held = record c { restore = some r } in
    elim (set_started c.backup r) [
      | err e ↦ (err e, held)
      | ok s ↦ elim (set_started c.backup s) [
        | err e ↦ (err e, record c { restore = some (set_finished s) })
        | ok t ↦ (ok tt, record c { restore = some t })
      ]
    ]

unfoldable pub request_restore : Cells → Result Failure Done × Cells
unfolding start_restore
request_restore c = elim (RestoreState.initialize_static c.restore) [
  | err e ↦ (err e, c)
  | ok r ↦ start_restore c r
]

end_restore : Option RestoreOrchestrator → Option RestoreOrchestrator
end_restore none = none
end_restore (some r) = some (set_finished r)

unfoldable pub restore_ended : Cells → Cells
unfolding end_restore
restore_ended c = record c { restore = end_restore c.restore }
