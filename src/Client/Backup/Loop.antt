-- ===== src/Client/Backup/Loop.antt =====
-- client/src/backup/send.rs: `send`, a function for each part of the body of its loop. The user
-- interface is told of the peer, and nothing of that comes back.
pub mod Keeps
pub mod Untouched
pub mod Honest
pub mod Finishes
pub mod Room
mod Examples
use backuwup.Prelude.{
  ℕ, ◌+◌, ◌-◌, ◌%◌, Bool, true, false, not, ◌&&◌, ◌||◌, List, Option, none, some, Result, ok, err,
  Done, ltb, ◌==◌, if◌then◌else◌,
}
use backuwup.Prelude.Dict.{Dict}
use backuwup.Shared.{ClientId, u64_mod}
use backuwup.DelayMap.{DelayMap}
use backuwup.Client.Bytes.{Bytes}
use backuwup.Client.Config.{Failure}
use backuwup.Client.Defaults.{
  max_packfile_local_buffer_size, packfile_local_buffer_resume_threshold,
}
use backuwup.Client.Net.Transport.{Codec}
use backuwup.Client.Net.Stream.{BackupTransportManager}
use backuwup.Client.Net.Requests.{P2PConnectionRequest}
use backuwup.Client.Backup.Orchestrator.{
  BackupOrchestrator, pause, resume, should_continue, available_packfile_bytes,
}
use backuwup.Client.Backup.Sending.{
  Outbox, Names, Entry, Slot, send_packfiles_from_folder, send_index,
}
use backuwup.Client.Backup.Connecting.{Shared, Desk, with_orchestrator, get_peer_connection}

-- The local variables of `send`, and what it works on.
pub record Sending (D : DelayMap P2PConnectionRequest) : Type 0 where
  pub desk : Desk D
  pub packfiles : Dict Bytes
  pub indexes : Dict Bytes
  pub disk : List Bool
  pub last_written : ℕ
  pub last_matched : ℕ
  pub connection : Option (ClientId × BackupTransportManager)
  pub packfiles_done : Bool
  pub index_done : Bool

-- The file system: the order in which it lists the two folders, and `get_size` of the crate fs_extra.
pub record Folders : Type 0 where
  pub packfile_slots : Dict Bytes → List Slot
  pub index_entries : Dict Bytes → List Entry
  pub get_size : Dict Bytes → Result Failure ℕ

-- How a part of the body ends: it goes on, is left by `continue`, or by an error of the function.
pub data Part : Type 0 where
  onward retry stop : Part

-- How the body ends.
pub data Turn : Type 0 where
  again finished failed : Turn

-- `max - available > threshold`, over `u64`, which wraps
unfoldable pub has_room : BackupOrchestrator → Bool
has_room o =
    ltb packfile_local_buffer_resume_threshold
      ((max_packfile_local_buffer_size + u64_mod - available_packfile_bytes o) % u64_mod)

unfoldable pub resume_if_room : BackupOrchestrator → BackupOrchestrator
resume_if_room o = if has_room o && not (should_continue o) then (resume o).1 else o

unfoldable pub pause_if_full : BackupOrchestrator → BackupOrchestrator
pause_if_full o =
    if ltb max_packfile_local_buffer_size (available_packfile_bytes o) then pause o else o

module _ {D : DelayMap P2PConnectionRequest} where
  abbrev pub orchestrator_of : Sending D → BackupOrchestrator
  orchestrator_of s = s.desk.shared.orchestrator

  abbrev pub on_orchestrator : (BackupOrchestrator → BackupOrchestrator) → Sending D → Sending D
  on_orchestrator op s = record s {
    desk = record s.desk { shared = with_orchestrator op s.desk.shared };
  }

  abbrev pub outbox : Sending D → BackupTransportManager → Dict Bytes → Outbox
  outbox s t files = record {
    orchestrator = orchestrator_of s;
    config = s.desk.shared.config;
    transport = t;
    files = files;
    disk = s.disk;
  }

  abbrev pub after : Sending D → ClientId → Outbox → Sending D
  after s peer o = record s {
    desk = record s.desk {
      shared = record s.desk.shared { orchestrator = o.orchestrator; config = o.config };
    };
    disk = o.disk;
    connection = some (peer, o.transport);
  }

  connected : Sending D → Result Failure (ClientId × BackupTransportManager) × Desk D → Sending D
  connected s (ok found, d) = record s { desk = d; connection = some found }
  connected s (err e, d) = record s { desk = d; connection = none }

  connect_if_none : Option (ClientId × BackupTransportManager) → Sending D → Sending D
  connect_if_none none s = connected s (get_peer_connection s.desk)
  connect_if_none (some c) s = s

  -- up to the first use of the connection
  unfoldable pub begin_turn : Sending D → Sending D
  unfolding connect_if_none connected
  begin_turn s =
      let paused = on_orchestrator pause_if_full s in connect_if_none paused.connection paused

  module _ (C : Codec) (names : Names) (folders : Folders) (me : ClientId) where
    unfoldable pub send_packs :
        ClientId → BackupTransportManager → Sending D → Result Failure Done × Sending D
    send_packs peer t s =
        let (r, o) =
          send_packfiles_from_folder C names me peer (folders.packfile_slots s.packfiles)
            (outbox s t s.packfiles) in
        (r, record (after s peer o) { packfiles = o.files })

    sized : Result Failure ℕ → Sending D → Part × Sending D
    sized (err e) s = (stop, s)
    sized (ok size) s =
        if size == 0 then (onward, record s { packfiles_done = true }) else (onward, s)

    check_done : Sending D → Part × Sending D
    unfolding sized
    check_done s =
        if (orchestrator_of s).packing_completed
        then sized (folders.get_size s.packfiles) s
        else (onward, s)

    packs_sent : ℕ → ℕ → Result Failure Done × Sending D → Part × Sending D
    unfolding check_done
    packs_sent written matched (err e, s) = (retry, record s { connection = none })
    packs_sent written matched (ok _, s) = check_done (
        on_orchestrator resume_if_room
          (record s { last_matched = matched; last_written = written }))

    -- The packfiles, when there is something new or packing is completed.
    unfoldable pub serve_packs :
        ℕ → ℕ → ClientId → BackupTransportManager → Sending D → Part × Sending D
    unfolding packs_sent
    serve_packs written matched peer t s =
        if ((ltb s.last_written written || ltb s.last_matched matched)
            || (orchestrator_of s).packing_completed)
          && not s.packfiles_done
        then packs_sent written matched (send_packs peer t s)
        else (onward, s)

    indexes_sent : ClientId → Result Failure Done × Outbox → Sending D → Part × Sending D
    indexes_sent peer (ok _, o) s =
        (onward, record (after s peer o) { indexes = o.files; index_done = true })
    indexes_sent peer (err e, o) s =
        (retry, record (after s peer o) { indexes = o.files; connection = none })

    -- The index files, behind the packfiles; without a connection there are none to send.
    serve_index_over : Option (ClientId × BackupTransportManager) → Sending D → Part × Sending D
    unfolding indexes_sent
    serve_index_over none s = (onward, s)
    serve_index_over (some (peer, t)) s =
        indexes_sent peer
          (send_index C names me peer (folders.index_entries s.indexes) (outbox s t s.indexes)) s

    unfoldable pub serve_index : Sending D → Part × Sending D
    unfolding serve_index_over
    serve_index s =
        if s.packfiles_done && not s.index_done
        then serve_index_over s.connection s
        else (onward, s)

    end_turn : Part × Sending D → Turn × Sending D
    end_turn (onward, s) = if s.packfiles_done && s.index_done then (finished, s) else (again, s)
    end_turn (retry, s) = (again, s)
    end_turn (stop, s) = (failed, s)

    then_index : Part × Sending D → Part × Sending D
    then_index (onward, s) = serve_index s
    then_index (retry, s) = (retry, s)
    then_index (stop, s) = (stop, s)

    -- With a connection
    unfoldable pub serve :
        ℕ → ℕ → Option (ClientId × BackupTransportManager) → Sending D → Turn × Sending D
    unfolding end_turn then_index
    serve written matched none s = (again, s)
    serve written matched (some (peer, t)) s =
        end_turn (then_index (serve_packs written matched peer t s))

    -- The two counters are read before the connection is looked for.
    unfoldable pub send_turn : Sending D → Turn × Sending D
    send_turn s =
        let o = pause_if_full (orchestrator_of s) in
        let begun = begin_turn s in
        serve o.packfile_bytes_written o.storage_request_last_matched begun.connection begun
