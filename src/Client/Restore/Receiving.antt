-- ===== src/Client/Restore/Receiving.antt =====
-- client/src/net_p2p/restore_files_writer.rs: the client takes back its files from one peer.
use backuwup.Prelude.{List, [], ◌∷◌, Result, ok, err, Exec, Done, take, if◌then◌else◌}
use backuwup.Shared.{ClientId, TransportSessionNonce}
use backuwup.Client.Bytes.{Bytes}
use backuwup.Client.Config.{Failure, io}
use backuwup.Client.Net.Received.{FileInfo, is_same_file, Write, works, fails}
use backuwup.Client.Net.Transport.{Codec}
use backuwup.Client.Net.Stream.{Incoming, Receiving, handle_stream}
use backuwup.Client.Restore.Orchestrator.{RestoreOrchestrator, complete_peer, set_finished}

-- The folder of restored files: all peers write into the same one, and a file of the same name is
-- overwritten.
unfoldable pub overwrite : FileInfo → Bytes → List (FileInfo × Bytes) → List (FileInfo × Bytes)
overwrite info b [] = (info, b) ∷ []
overwrite info b ((other, old) ∷ files) =
    if is_same_file other info then (info, b) ∷ files else (other, old) ∷ overwrite info b files

-- The folder, and what the coming file operations do.
pub record Restored : Type 0 where
  pub files : List (FileInfo × Bytes)
  pub writes : List Write

write_restored :
    FileInfo → Bytes → List Write → List (FileInfo × Bytes) → Result Failure Done × Restored
write_restored info b [] files = (ok tt, record { files = overwrite info b files; writes = [] })
write_restored info b (works ∷ later) files =
    (ok tt, record { files = overwrite info b files; writes = later })
write_restored info b (fails n ∷ later) files =
    (err io, record { files = overwrite info (take n b) files; writes = later })

-- `RestoreReceiver::save_file`: a write that fails leaves what it had written.
unfoldable pub save_restored : FileInfo → Bytes → Exec Restored Failure Done
unfolding write_restored
save_restored info b r = write_restored info b r.writes r.files

-- The end of the stream completes the peer; an error ends the restore.
unfoldable pub received : ClientId → Result Failure Done → RestoreOrchestrator → RestoreOrchestrator
received peer (ok _) r = complete_peer peer r
received peer (err e) r = set_finished r

unfoldable pub handle_receiving :
    Codec
    → ClientId
    → TransportSessionNonce
    → ClientId
    → List Incoming
    → Receiving Restored
    → RestoreOrchestrator
    → Result Failure Done × Receiving Restored × RestoreOrchestrator
handle_receiving C me nonce peer messages s r =
    let (x, s') = handle_stream C save_restored me nonce peer messages s in
    (x, s', received peer x r)
