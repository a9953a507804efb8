-- ===== src/Client/Restore/Orchestrator.antt =====
-- client/src/backup/restore_orchestrator.rs, with the part of `run_restore` (client/src/backup/mod.rs)
-- that waits for the peers.
use backuwup.Prelude.{
  Bool, true, false, ◌&&◌, List, [], ◌∷◌, Option, none, some, Result, ok, err, if◌then◌else◌,
}
use backuwup.Prelude.Dict.{Dict, insert}
use backuwup.Shared.{ClientId}
use backuwup.Client.Config.{Failure, refused}
use backuwup.Client.Backup.Orchestrator.{BackupOrchestrator}

pub record RestoreOrchestrator : Type 0 where
  pub restore_running : Bool
  pub peer_restore_status : Dict Bool

-- The global cell is filled once; a value that was there loses its peers.
unfoldable pub initialize_static : Option RestoreOrchestrator → Result Failure RestoreOrchestrator
initialize_static none = ok (record { restore_running = false; peer_restore_status = [] })
initialize_static (some r) =
    if r.restore_running then err refused else ok (record r { peer_restore_status = [] })

is_backup_running : Option BackupOrchestrator → Bool
is_backup_running none = false
is_backup_running (some o) = o.backup_running

unfoldable pub set_started :
    Option BackupOrchestrator → RestoreOrchestrator → Result Failure RestoreOrchestrator
unfolding is_backup_running
set_started backup r =
    if is_backup_running backup then err refused else ok (record r { restore_running = true })

unfoldable pub set_finished : RestoreOrchestrator → RestoreOrchestrator
set_finished r = record r { restore_running = false }

unfoldable pub add_peer : ClientId → RestoreOrchestrator → RestoreOrchestrator
add_peer client_id r = record r {
  peer_restore_status = insert client_id false r.peer_restore_status;
}

unfoldable pub complete_peer : ClientId → RestoreOrchestrator → RestoreOrchestrator
complete_peer client_id r = record r {
  peer_restore_status = insert client_id true r.peer_restore_status;
}

unfoldable pub all_true : Dict Bool → Bool
all_true [] = true
all_true ((peer, status) ∷ rest) = status && all_true rest

unfoldable pub all_peers_completed : RestoreOrchestrator → Bool
unfolding all_true
all_peers_completed r = all_true r.peer_restore_status

-- The loop of `run_restore` over the peers, and one look of the loop that waits for them.
unfoldable pub add_peers : List ClientId → RestoreOrchestrator → RestoreOrchestrator
add_peers [] r = r
add_peers (peer ∷ peers) r = add_peers peers (add_peer peer r)

pub data Wait : Type 0 where
  failed completed pending : Wait

unfoldable pub poll : RestoreOrchestrator → Wait
poll r =
    if r.restore_running then (if all_peers_completed r then completed else pending) else failed
