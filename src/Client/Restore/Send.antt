-- ===== src/Client/Restore/Send.antt =====
-- client/src/backup/restore_send.rs: a peer sends back what it has stored. The names of the files are
-- those that they were stored under, and the folders list them in the order of the list.
use backuwup.Prelude.{
  not, ℕ, ◌+◌, Bool, true, false, List, [], ◌∷◌, Option, none, some, err, Exec, Done, ltb, ◌==◌,
  if◌then◌else◌, ◌>>=◌, ◌>>◌, ok,
}
use backuwup.Shared.{ClientId}
use backuwup.Client.Bytes.{Bytes}
use backuwup.Client.Config.{Failure, io, refused, Config}
use backuwup.Client.Defaults.{restore_throttle_delay}
use backuwup.Client.Tables.Log.{get_last_peer_restore_request, log_peer_restore_request}
use backuwup.Client.Tables.Settings.{get_obfuscation_key}
use backuwup.Client.Net.Obfuscation.{ObfuscationKey, obfuscate_data_impl}
use backuwup.Client.Net.Received.{FileInfo, packfile, index, StoredFile}
use backuwup.Client.Net.Transport.{Codec}
use backuwup.Client.Net.Stream.{send_data, BackupTransportManager}

-- The database, the files that were stored for peers, whether the coming reads of the folders fail (past
-- the end of the list, they work), and the connection.
pub record Returning : Type 0 where
  pub config : Config
  pub files : List StoredFile
  pub disk : List Bool
  pub transport : BackupTransportManager

-- `last_request > now - delay`, over integers
unfoldable pub is_throttled : Option ℕ → ℕ → Bool
is_throttled none now = false
is_throttled (some last_request) now = ltb now (last_request + restore_throttle_delay)

unfoldable pub is_packfile : FileInfo → Bool
is_packfile (packfile id) = true
is_packfile (index id) = false

-- A file of the peer's folder of packfiles, or of that of index files.
unfoldable pub is_wanted : ClientId → Bool → StoredFile → Bool
is_wanted peer packs f =
    if f.owner == peer
    then (if packs then is_packfile f.info else not (is_packfile f.info))
    else false

next_read : List Bool → Exec Returning Failure Done
next_read [] r = (ok tt, r)
next_read (true ∷ later) r = (err io, record r { disk = later })
next_read (false ∷ later) r = (ok tt, record r { disk = later })

unfoldable pub disk_read : Exec Returning Failure Done
unfolding next_read
disk_read r = next_read r.disk r

abbrev on_config : {A : Type 0} → Exec Config Failure A → Exec Returning Failure A
on_config op r = let (x, c) = op r.config in (x, record r { config = c })

module _ (C : Codec) (to_le_bytes : ℕ → ObfuscationKey) (me : ClientId) where
  -- `transport.send_data`
  unfoldable pub send_back : FileInfo → Bytes → Exec Returning Failure Done
  send_back info b r =
      let (x, t) = send_data C me b info r.transport in (x, record r { transport = t })

  -- The loop over one of the two folders: each file is read, turned back by the key and sent, and the
  -- first failure ends the function. What may fail before a file is sent, the listing up to it, its type,
  -- reading it and its name, is one read; so is the end of the listing.
  unfoldable pub send_kind :
      ObfuscationKey → ClientId → Bool → List StoredFile → Exec Returning Failure Done
  send_kind key peer packs [] r = disk_read r
  send_kind key peer packs (f ∷ files) r =
      let rest = send_kind key peer packs files in
      if is_wanted peer packs f
      then (do disk_read; send_back f.info (obfuscate_data_impl f.bytes key); rest) r
      else rest r

  -- The first read of each folder is `read_dir`, which fails too when the peer has no folder.
  unfoldable pub restore_files : ClientId → Exec Returning Failure Done
  restore_files peer_id = do
    number ← on_config get_obfuscation_key
    disk_read
    λ r. send_kind (to_le_bytes number) peer_id true r.files r
    disk_read
    λ r. send_kind (to_le_bytes number) peer_id false r.files r

  unfoldable pub restore_all_data_to_peer : ClientId → Exec Returning Failure Done
  restore_all_data_to_peer peer_id = do
    last_request ← on_config (get_last_peer_restore_request peer_id)
    λ r.
        if is_throttled last_request r.config.now
        then (err refused, r)
        else (do on_config (log_peer_restore_request peer_id); restore_files peer_id) r
