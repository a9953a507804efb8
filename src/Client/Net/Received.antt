-- ===== src/Client/Net/Received.antt =====
-- client/src/net_p2p/received_files_writer.rs: a peer's files are written to disk, within its quota.
use backuwup.Prelude.{
  ℕ, ◌-◌, Bool, true, false, ◌&&◌, List, [], ◌∷◌, Option, none, some, Result, ok, err, Exec, Done,
  length, take, ltb, ◌==◌, if◌then◌else◌, raise, ◌>>=◌, ◌>>◌,
}
use backuwup.Shared.{ClientId}
use backuwup.Client.Bytes.{Bytes}
use backuwup.Client.Defaults.{peer_storage_usage_spread}
use backuwup.Client.Peers.{
  Failure, io, refused, unknown_peer, PeerInfo, Config, get_peer_info, peer_increment_received,
}
use backuwup.Client.Net.Obfuscation.{ObfuscationKey, obfuscate_data_impl}

-- p2p_message.rs: a packfile by its ID, an index file by its number
pub data FileInfo : Type 0 where
  packfile index : ℕ → FileInfo

-- `get_packfile_path` and `get_index_path` of file_utils.rs give two files one path only if they are of
-- one kind and one name; each peer has a folder of its own.
unfoldable pub is_same_file : FileInfo → FileInfo → Bool
is_same_file (packfile a) (packfile b) = a == b
is_same_file (index a) (index b) = a == b
is_same_file (packfile a) (index b) = false
is_same_file (index a) (packfile b) = false

pub record StoredFile : Type 0 where
  pub owner : ClientId
  pub info : FileInfo
  pub bytes : Bytes

-- What the coming file operations do: each works, or fails after so many bytes.
pub data Write : Type 0 where
  works : Write
  fails : ℕ → Write

pub record Storage : Type 0 where
  pub config : Config
  pub files : List StoredFile
  pub writes : List Write

pub record PeerDataReceiver : Type 0 where
  pub peer_id : ClientId
  pub obfuscation_key : ObfuscationKey

unfoldable pub exists : ClientId → FileInfo → List StoredFile → Bool
exists peer info [] = false
exists peer info (f ∷ files) =
    if f.owner == peer && is_same_file f.info info then true else exists peer info files

-- The two arms of the match that compares with the negotiated storage.
unfoldable pub is_peer_allowed_to_send_data : PeerInfo → Bool
is_peer_allowed_to_send_data peer =
    if ltb peer.bytes_received peer.bytes_negotiated
    then true
    else ltb (peer.bytes_received - peer.bytes_negotiated) peer_storage_usage_spread

write_file : ClientId → FileInfo → Bytes → List Write → Storage → Result Failure Done × Storage
write_file peer info b [] s =
    (ok tt, record s { files = record { owner = peer; info = info; bytes = b } ∷ s.files })
write_file peer info b (works ∷ later) s = (
  ok tt,
  record s { files = record { owner = peer; info = info; bytes = b } ∷ s.files; writes = later },
)
write_file peer info b (fails n ∷ later) s = (
  err io,
  record s {
    files = record { owner = peer; info = info; bytes = take n b } ∷ s.files;
    writes = later;
  },
)

-- `fs::write` to a path that does not exist; a write that fails leaves what it had written.
unfoldable pub write : ClientId → FileInfo → Bytes → Exec Storage Failure Done
unfolding write_file
write peer info b s = write_file peer info b s.writes s

abbrev pub on_config : {A : Type 0} → Exec Config Failure A → Exec Storage Failure A
on_config op s = let (r, c) = op s.config in (r, record s { config = c })

-- Obfuscation works on the bytes in place, and keeps their number.
store_for : PeerDataReceiver → FileInfo → Bytes → Option PeerInfo → Exec Storage Failure Done
store_for r info data_given none = raise unknown_peer
store_for r info data_given (some peer) =
    if is_peer_allowed_to_send_data peer
    then (do
      write r.peer_id info (obfuscate_data_impl data_given r.obfuscation_key)
      on_config (peer_increment_received r.peer_id (length data_given)))
    else raise refused

-- `save_index` and `save_packfile` differ in the path alone.
unfoldable pub save_file : PeerDataReceiver → FileInfo → Bytes → Exec Storage Failure Done
unfolding store_for
save_file r info data_given s =
    if exists r.peer_id info s.files
    then (err refused, s)
    else (do peer ← on_config (get_peer_info r.peer_id); store_for r info data_given peer) s
