-- ===== src/Client/Backup/Orchestrator.antt =====
-- client/src/backup/backup_orchestrator.rs: what the tasks of a backup share. Each field is an atomic
-- value or behind a lock of its own. The calls of the user interface only print.
use backuwup.Prelude.{
  ℕ, ◌+◌, ◌-◌, ◌%◌, Bool, true, false, not, List, [], ◌∷◌, ◌++◌, Option, none, some, Result, ok,
  err, if◌then◌else◌,
}
use backuwup.Prelude.Dict.{Dict}
use backuwup.Shared.{u64_mod}
use backuwup.Client.Config.{Failure, refused}
use backuwup.Client.Net.Stream.{BackupTransportManager}

-- The oneshot channels that wait for a resume: one of a packing task, by the number of the task, and
-- the one that `pause` hands to the sending task.
pub data Listener : Type 0 where
  packing : ℕ → Listener
  sending : Listener

pub record BackupOrchestrator : Type 0 where
  pub active_transport_sessions : Dict BackupTransportManager
  pub listeners : List Listener
  pub paused : Bool
  pub packfile_bytes_written : ℕ
  pub packfile_bytes_sent : ℕ
  pub backup_running : Bool
  pub packing_completed : Bool
  pub storage_request_last_sent : ℕ
  pub storage_request_last_matched : ℕ
  pub storage_requests_fulfilled_size : ℕ
  pub destination_path : ℕ
  pub size_estimate : ℕ

-- `..Default::default()`
abbrev pub default : ℕ → BackupOrchestrator
default destination = record {
  active_transport_sessions = [];
  listeners = [];
  paused = false;
  packfile_bytes_written = 0;
  packfile_bytes_sent = 0;
  backup_running = false;
  packing_completed = false;
  storage_request_last_sent = 0;
  storage_request_last_matched = 0;
  storage_requests_fulfilled_size = 0;
  destination_path = destination;
  size_estimate = 0;
}

-- The global cell is filled once, and its value cleared later on. Of a value that was there, the
-- sessions, the times of the storage requests and the path are kept.
unfoldable pub initialize_static : ℕ → Option BackupOrchestrator → Result Failure BackupOrchestrator
initialize_static destination none = ok (default destination)
initialize_static destination (some o) =
    if o.backup_running
    then err refused
    else ok (record o {
      listeners = [];
      paused = false;
      packfile_bytes_written = 0;
      packfile_bytes_sent = 0;
      packing_completed = false;
      size_estimate = 0;
      storage_requests_fulfilled_size = 0;
    })

unfoldable pub should_continue : BackupOrchestrator → Bool
should_continue o = not o.paused

unfoldable pub subscribe : Listener → BackupOrchestrator → BackupOrchestrator
subscribe tx o = record o { listeners = o.listeners ++ tx ∷ [] }

-- `pause` and `resume` have two effects each, between which other tasks run.
unfoldable pub set_paused : Bool → BackupOrchestrator → BackupOrchestrator
set_paused value o = record o { paused = value }

unfoldable pub pause : BackupOrchestrator → BackupOrchestrator
unfolding set_paused subscribe
pause o = subscribe sending (set_paused true o)

-- The listeners that are told, and what is left.
unfoldable pub drain : BackupOrchestrator → List Listener × BackupOrchestrator
drain o = (o.listeners, record o { listeners = [] })

unfoldable pub resume : BackupOrchestrator → List Listener × BackupOrchestrator
unfolding set_paused drain
resume o = drain (set_paused false o)

unfoldable pub update_packfile_bytes_written : ℕ → BackupOrchestrator → BackupOrchestrator
update_packfile_bytes_written bytes o = record o { packfile_bytes_written = bytes }

-- `fetch_add` wraps.
unfoldable pub increment_packfile_bytes_sent : ℕ → BackupOrchestrator → BackupOrchestrator
increment_packfile_bytes_sent bytes o = record o {
  packfile_bytes_sent = (o.packfile_bytes_sent + bytes) % u64_mod;
}

-- The difference as an `i64`, and 0 in place of a negative one: for amounts below 2^63.
unfoldable pub available_packfile_bytes : BackupOrchestrator → ℕ
available_packfile_bytes o = o.packfile_bytes_written - o.packfile_bytes_sent

unfoldable pub set_packing_completed : BackupOrchestrator → BackupOrchestrator
set_packing_completed o = record o { packing_completed = true }

unfoldable pub update_storage_request_last_sent : ℕ → BackupOrchestrator → BackupOrchestrator
update_storage_request_last_sent now o = record o { storage_request_last_sent = now }

unfoldable pub update_storage_request_last_matched : ℕ → BackupOrchestrator → BackupOrchestrator
update_storage_request_last_matched now o = record o { storage_request_last_matched = now }

unfoldable pub increment_storage_request_fulfilled_size :
    ℕ → BackupOrchestrator → BackupOrchestrator
increment_storage_request_fulfilled_size size o = record o {
  storage_requests_fulfilled_size = (o.storage_requests_fulfilled_size + size) % u64_mod;
}

unfoldable pub set_backup_started : BackupOrchestrator → BackupOrchestrator
set_backup_started o = record o { backup_running = true }

unfoldable pub set_backup_finished : BackupOrchestrator → BackupOrchestrator
set_backup_finished o = record o { backup_running = false }

unfoldable pub set_size_estimate : ℕ → BackupOrchestrator → BackupOrchestrator
set_size_estimate size o = record o { size_estimate = size }
