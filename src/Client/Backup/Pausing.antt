-- ===== src/Client/Backup/Pausing.antt =====
-- How packing tasks wait while the sending task catches up: the macro `block_if_paused` of
-- client/src/backup/mod.rs against `pause` and `resume`, each effect on the shared state a step. The
-- tasks are those of one directory: one for each file, and the one that spawns them.
pub mod Wakes
pub mod Stuck
mod Examples
use backuwup.Prelude.{ℕ, ◌+◌, ◌≡◌, Bool, true, false, ◌||◌, List, [], ◌∷◌, ◌<◌, ◌==◌, if◌then◌else◌}
use backuwup.Shared.{u64_mod}
use backuwup.Client.Defaults.{max_packfile_local_buffer_size}
use backuwup.Client.Backup.Loop.{has_room}
use backuwup.Client.Backup.Orchestrator.{
  BackupOrchestrator, Listener, packing, sending, should_continue, subscribe, set_paused, drain,
  update_packfile_bytes_written, increment_packfile_bytes_sent, available_packfile_bytes,
}

-- `blocked` stands between the test of the macro and its subscription; `idle` has ended, or awaits the
-- other tasks.
pub data Packer : Type 0 where
  working blocked waiting idle : Packer

-- Inside `pause` behind the store, inside `resume` behind the store, or elsewhere.
pub data Sender : Type 0 where
  elsewhere pausing resuming : Sender

pub record System : Type 0 where
  pub orchestrator : BackupOrchestrator
  pub packers : ℕ → Packer
  pub sender : Sender

unfoldable pub moved : ℕ → Packer → (ℕ → Packer) → ℕ → Packer
moved task to packers other = if other == task then to else packers other

unfoldable pub hears : ℕ → List Listener → Bool
hears task [] = false
hears task (packing other ∷ more) = other == task || hears task more
hears task (sending ∷ more) = hears task more

woken : Packer → Packer
woken waiting = working
woken p = p

-- A waiting task goes on when its channel was told.
unfoldable pub wake : List Listener → (ℕ → Packer) → ℕ → Packer
unfolding woken
wake told packers task = if hears task told then woken (packers task) else packers task

abbrev pub IsFull : BackupOrchestrator → Type 0
IsFull o = max_packfile_local_buffer_size < available_packfile_bytes o

pub data Step (s : System) : System → Type 0 where
  -- a packfile was written: the manager gives its total
  write :
      (task bytes : ℕ)
      → s.packers task ≡ working
      → Step s (record s { orchestrator = update_packfile_bytes_written bytes s.orchestrator })
  rest :
      (task : ℕ)
      → s.packers task ≡ working
      → Step s (record s { packers = moved task idle s.packers })
  block :
      (task : ℕ)
      → s.packers task ≡ working
      → should_continue s.orchestrator ≡ false
      → Step s (record s { packers = moved task blocked s.packers })
  listen :
      (task : ℕ)
      → s.packers task ≡ blocked
      → Step s (record s {
        orchestrator = subscribe (packing task) s.orchestrator;
        packers = moved task waiting s.packers;
      })
  -- a packfile was acknowledged; no session sends 2^64 bytes
  send :
      (bytes : ℕ)
      → s.orchestrator.packfile_bytes_sent + bytes < u64_mod
      → s.sender ≡ elsewhere
      → Step s (record s { orchestrator = increment_packfile_bytes_sent bytes s.orchestrator })
  pause_store :
      s.sender ≡ elsewhere
      → IsFull s.orchestrator
      → Step s (record s { orchestrator = set_paused true s.orchestrator; sender = pausing })
  pause_subscribe :
      s.sender ≡ pausing
      → Step s (record s { orchestrator = subscribe sending s.orchestrator; sender = elsewhere })
  resume_store :
      s.sender ≡ elsewhere
      → has_room s.orchestrator ≡ true
      → should_continue s.orchestrator ≡ false
      → Step s (record s { orchestrator = set_paused false s.orchestrator; sender = resuming })
  resume_drain :
      s.sender ≡ resuming
      → Step s (record s {
        orchestrator = (drain s.orchestrator).1;
        packers = wake (drain s.orchestrator).0 s.packers;
        sender = elsewhere;
      })

pub data Reach (s : System) : System → Type 0 where
  here : Reach s s
  next : {t u : System} → Reach s t → Step t u → Reach s u
