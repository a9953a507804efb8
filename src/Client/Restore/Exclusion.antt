-- ===== src/Client/Restore/Exclusion.antt =====
-- A backup and a restore never run together, when no two starts overlap (client/src/backup/mod.rs).
use backuwup.Prelude.{ℕ, ◌≡◌, refl, true, false, Bool, Option, none, some, Result, arith}
use backuwup.Client.Config.{Failure}
use backuwup.Client.Backup.Orchestrator.{
  BackupOrchestrator, set_backup_started, set_backup_finished, set_size_estimate,
}
use backuwup.Client.Backup.Orchestrator
use backuwup.Client.Tables.Log.Transaction.{Difference}
use backuwup.Client.Restore.Orchestrator.{RestoreOrchestrator, set_started, set_finished}
use backuwup.Client.Restore.Orchestrator as RestoreState
use backuwup.Client.Restore.Starts.{Cells, run, run_ended, request_restore, restore_ended}

abbrev pub backing_up : Option BackupOrchestrator → Bool
backing_up none = false
backing_up (some o) = o.backup_running

abbrev pub restoring : Option RestoreOrchestrator → Bool
restoring none = false
restoring (some r) = r.restore_running

abbrev AreExclusive : Cells → Type 0
AreExclusive c = backing_up c.backup ≡ true → restoring c.restore ≡ false

-- The states of the two cells, from a process that has just begun.
pub data Reach : Cells → Type 0 where
  begun : Reach (record { backup = none; restore = none })
  ran :
      {c : Cells} (destination : ℕ) (path : Option ℕ) (measured : Result Failure ℕ)
      (difference : ℕ → Result Failure (Option Difference))
      → Reach c
      → Reach (run destination path measured difference c).1
  backup_done : {c : Cells} → Reach c → Reach (run_ended c)
  asked : {c : Cells} → Reach c → Reach (request_restore c).1
  restore_done : {c : Cells} → Reach c → Reach (restore_ended c)

-- Only a backup that runs already keeps `initialize_static` from clearing it.
run-AreExclusive :
    (destination : ℕ) (path : Option ℕ) (measured : Result Failure ℕ)
    (difference : ℕ → Result Failure (Option Difference)) (b : Option BackupOrchestrator)
    (r : Option RestoreOrchestrator)
    → AreExclusive (record { backup = b; restore = r })
    → AreExclusive (run destination path measured difference (record { backup = b; restore = r })).1
unfolding run Orchestrator.initialize_static
run-AreExclusive destination path measured difference none none h e = ground arith
run-AreExclusive destination path measured difference none (some r) h e = ground arith
run-AreExclusive destination path measured difference (some o) none h e = ground arith
run-AreExclusive destination path measured difference (some o) (some r) h e = ground arith

request-AreExclusive :
    (b : Option BackupOrchestrator) (r : Option RestoreOrchestrator)
    → AreExclusive (record { backup = b; restore = r })
    → AreExclusive (request_restore (record { backup = b; restore = r })).1
unfolding request_restore RestoreState.initialize_static set_started set_finished
request-AreExclusive none none h e = ground arith
request-AreExclusive none (some r) h e = ground arith
request-AreExclusive (some o) none h e = ground arith
request-AreExclusive (some o) (some r) h e = ground arith

ended-AreExclusive :
    (b : Option BackupOrchestrator) (r : Option RestoreOrchestrator)
    → AreExclusive (run_ended (record { backup = b; restore = r }))
unfolding run_ended set_backup_finished
ended-AreExclusive none r e = cc
ended-AreExclusive (some o) r e = cc

restored-AreExclusive :
    (b : Option BackupOrchestrator) (r : Option RestoreOrchestrator)
    → AreExclusive (restore_ended (record { backup = b; restore = r }))
unfolding restore_ended set_finished
restored-AreExclusive b none e = refl
restored-AreExclusive b (some r) e = refl

-- Whatever was started and ended before, in any order but with no two starts overlapping, while a backup
-- is marked as running no restore is.
pub Reach-exclusive :
    {c : Cells} → Reach c → backing_up c.backup ≡ true → restoring c.restore ≡ false
Reach-exclusive begun e = cc
Reach-exclusive (ran {c} destination path measured difference r) e =
    run-AreExclusive destination path measured difference c.backup c.restore (Reach-exclusive r) e
Reach-exclusive (backup_done {c} r) e = ended-AreExclusive c.backup c.restore e
Reach-exclusive (asked {c} r) e = request-AreExclusive c.backup c.restore (Reach-exclusive r) e
Reach-exclusive (restore_done {c} r) e = restored-AreExclusive c.backup c.restore e
