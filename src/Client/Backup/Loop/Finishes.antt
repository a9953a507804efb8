-- ===== src/Client/Backup/Loop/Finishes.antt =====
-- When `send` of client/src/backup/send.rs returns, there was nothing left to send.
use backuwup.Prelude.{◌≡◌, true, some, ok}
use backuwup.Shared.{ClientId}
use backuwup.DelayMap.{DelayMap}
use backuwup.Client.Net.Transport.{Codec}
use backuwup.Client.Net.Stream.{BackupTransportManager}
use backuwup.Client.Net.Requests.{P2PConnectionRequest}
use backuwup.Client.Backup.Sending.{Names, send_index}
use backuwup.Client.Backup.Sending.Shipped.{paths_of}
use backuwup.Client.Backup.Sending.Rising.{SendsIndexes}
use backuwup.Client.Backup.Loop.{
  Sending, Folders, Part, onward, again, pause_if_full, begin_turn, outbox, serve_packs, send_turn,
}
use backuwup.Client.Backup.Loop.Honest.{Others}

module _ {D : DelayMap P2PConnectionRequest} (folders : Folders) (C : Codec) (names : Names)
    (me : ClientId) where
  -- The index files of a state are sent by a call that succeeds.
  pub record IndexesGo (x : Sending D) : Type 0 where
    pub peer : ClientId
    pub transport : BackupTransportManager
    pub connected : x.connection ≡ some (peer, transport)
    pub behind : x.packfiles_done ≡ true
    pub fine :
        (send_index C names me peer
          (folders.index_entries x.indexes)
          (outbox x transport x.indexes)).0
        ≡ ok tt
    pub sends :
        SendsIndexes C names me peer
          (paths_of (folders.index_entries x.indexes))
          (outbox x transport x.indexes)
          (send_index C names me peer
            (folders.index_entries x.indexes)
            (outbox x transport x.indexes)).1

  -- The part of a round for the packfiles, over the connection that the round begins with.
  abbrev pub packs_of : Sending D → ClientId × BackupTransportManager → Part × Sending D
  packs_of s (peer, t) =
      let o = pause_if_full s.desk.shared.orchestrator in
      serve_packs C names folders me o.packfile_bytes_written o.storage_request_last_matched peer t
        (begin_turn s)

  -- In the round that starts at `s`, the index files are sent, behind the packfiles.
  pub record IndexRound (s : Sending D) : Type 0 where
    pub session : ClientId × BackupTransportManager
    pub begun : (begin_turn s).connection ≡ some session
    pub onwards : (packs_of s session).0 ≡ onward
    pub go : IndexesGo (packs_of s session).1

  -- The rounds of the loop, with the other tasks in between.
  pub data Runs (s : Sending D) : Sending D → Type 0 where
    at_start : Runs s s
    turn :
        {t : Sending D}
        → Runs s t
        → (send_turn C names folders me t).0 ≡ again
        → Runs s (send_turn C names folders me t).1
    others : {t u : Sending D} → Runs s t → Others folders t u → Runs s u

  -- A round of the run has sent the index files.
  pub record SentIndexes (s : Sending D) : Type 0 where
    pub at : Sending D
    pub runs : Runs s at
    pub round : IndexRound at
