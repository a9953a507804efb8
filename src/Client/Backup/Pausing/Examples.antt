-- ===== src/Client/Backup/Pausing/Examples.antt =====
-- The theorems about pausing at a backup with one packing task.
use backuwup.Prelude.{ℕ, ◌≡◌, refl, true, ◌==◌, if◌then◌else◌, arith}
use backuwup.Client.Backup.Loop.{has_room}
use backuwup.Client.Backup.Orchestrator.{
  BackupOrchestrator, Listener, default, should_continue, subscribe, drain,
  available_packfile_bytes,
}
use backuwup.Client.Backup.Pausing.{
  Packer, working, blocked, waiting, idle, elsewhere, System, moved, wake, block, listen, Reach,
  here, next,
}
use backuwup.Client.Backup.Pausing.Wakes.{Reach-wake}
use backuwup.Client.Backup.Pausing.Stuck.{blocked-waits}

abbrev paused : BackupOrchestrator
paused = record (default 0) { paused = true }

abbrev alone : Packer → ℕ → Packer
alone p task = if task == 7 then p else idle

abbrev at_work : System
at_work = record { orchestrator = paused; packers = alone working; sender = elsewhere }

abbrev asleep : System
asleep = record at_work {
  orchestrator = subscribe (Listener.packing 7) paused;
  packers = moved 7 waiting (moved 7 blocked (alone working));
}

falls_asleep : Reach at_work asleep
unfolding should_continue moved
falls_asleep = next (next here (block 7 refl refl)) (listen 7 refl)

Reach-wake_example : wake (drain asleep.orchestrator).0 asleep.packers 7 ≡ working
unfolding moved
Reach-wake_example = Reach-wake 7 {s = at_work} {t = asleep} (λ e. cc) falls_asleep refl

abbrev in_between : System
in_between = record at_work { packers = alone blocked }

blocked-waits_example :
    (t : System) × Reach in_between t × ((u : System) → Reach t u → u.packers 7 ≡ waiting)
unfolding should_continue available_packfile_bytes has_room
blocked-waits_example =
    blocked-waits 7 in_between refl (λ other ne. ground arith) refl refl (omega arith) refl
