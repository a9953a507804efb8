-- ===== src/Client/Backup/Sending.antt =====
-- client/src/backup/send.rs: `send_single_packfile`, `send_packfiles_from_folder` and `send_index`.
pub mod Shipments
pub mod Shipped
pub mod Indexes
pub mod Rising
mod Examples
use backuwup.Prelude.{
  ℕ, Bool, true, false, List, [], ◌∷◌, Option, none, some, Result, ok, err, Exec, Done, ok_or,
  length, leb, if◌then◌else◌, pure, raise, lift, ◌>>=◌, ◌>>◌,
}
use backuwup.Prelude.Dict.{Dict, lookup, erase}
use backuwup.Shared.{ClientId}
use backuwup.Client.Packfile.Types.{PackfileId}
use backuwup.Client.Bytes.{Bytes}
use backuwup.Client.Config.{Failure, io, Config}
use backuwup.Client.Peers.{peer_increment_transmitted}
use backuwup.Client.Tables.Settings.{get_highest_sent_index_number, save_highest_sent_index_number}
use backuwup.Client.Net.Received.{FileInfo, packfile, index}
use backuwup.Client.Net.Transport.{Codec}
use backuwup.Client.Net.Stream.{BackupTransportManager, send_data}
use backuwup.Client.Backup.Orchestrator.{BackupOrchestrator, increment_packfile_bytes_sent}

-- The paths of one folder are the names of its files, and `files` has their contents. `disk` says
-- whether the coming calls of the file system fail (past its end, they work).
pub record Outbox : Type 0 where
  pub orchestrator : BackupOrchestrator
  pub config : Config
  pub transport : BackupTransportManager
  pub files : Dict Bytes
  pub disk : List Bool

-- file_utils.rs: the number that a file's name spells, by `hex::decode` and by `str::parse`.
pub record Names : Type 0 where
  pub parse_packfile_path_into_id : ℕ → Option PackfileId
  pub parse_index_path_into_id : ℕ → Option ℕ

-- What `read_dir` gives for an entry of a folder.
pub data Entry : Type 0 where
  file : ℕ → Entry
  stray unreadable : Entry

-- What it gives for an entry of the folder of folders; a folder may not be listed.
pub data Slot : Type 0 where
  folder : List Entry → Slot
  unlisted stray unreadable : Slot

next_disk_call : List Bool → Exec Outbox Failure Done
next_disk_call [] o = (ok tt, o)
next_disk_call (true ∷ later) o = (err io, record o { disk = later })
next_disk_call (false ∷ later) o = (ok tt, record o { disk = later })

unfoldable pub disk_call : Exec Outbox Failure Done
unfolding next_disk_call
disk_call o = next_disk_call o.disk o

-- `fs::read`
unfoldable pub read : ℕ → Exec Outbox Failure Bytes
read path = do disk_call; λ o. (ok_or (lookup path o.files) io, o)

-- `fs::metadata(path)?.len()`
unfoldable pub metadata_len : ℕ → Exec Outbox Failure ℕ
metadata_len path = do b ← read path; pure (length b)

-- `fs::remove_file`
unfoldable pub remove_file : ℕ → Exec Outbox Failure Done
remove_file path = do disk_call; λ o. (ok tt, record o { files = erase path o.files })

abbrev pub on_config : {A : Type 0} → Exec Config Failure A → Exec Outbox Failure A
on_config op o = let (r, c) = op o.config in (r, record o { config = c })

abbrev pub on_orchestrator : (BackupOrchestrator → BackupOrchestrator) → Exec Outbox Failure Done
on_orchestrator op o = (ok tt, record o { orchestrator = op o.orchestrator })

unfoldable pub is_sent_already : Option ℕ → ℕ → Bool
is_sent_already none index_num = false
is_sent_already (some highest) index_num = leb index_num highest

-- `transport.send_data`
unfoldable pub transported : Codec → ClientId → Bytes → FileInfo → Exec Outbox Failure Done
transported C me b info o =
    let (r, t) = send_data C me b info o.transport in (r, record o { transport = t })

module _ (C : Codec) (names : Names) (me peer_id : ClientId) where
  -- The file is removed behind its acknowledgement, and behind the count of its bytes.
  unfoldable pub send_single_packfile : ℕ → Exec Outbox Failure Done
  send_single_packfile path = do
    size ← metadata_len path
    b ← read path
    id ← lift (ok_or (names.parse_packfile_path_into_id path) io)
    transported C me b (packfile id)
    on_orchestrator (increment_packfile_bytes_sent size)
    on_config (peer_increment_transmitted peer_id size)
    remove_file path

  unfoldable pub send_folder : List Entry → Exec Outbox Failure Done
  send_folder [] o = (ok tt, o)
  send_folder (file path ∷ more) o = (do send_single_packfile path; send_folder more) o
  send_folder (stray ∷ more) o = send_folder more o
  send_folder (unreadable ∷ more) o = (err io, o)

  unfoldable pub send_packfiles_from_folder : List Slot → Exec Outbox Failure Done
  send_packfiles_from_folder [] o = (ok tt, o)
  send_packfiles_from_folder (folder entries ∷ more) o =
      (do send_folder entries; send_packfiles_from_folder more) o
  send_packfiles_from_folder (Slot.stray ∷ more) o = send_packfiles_from_folder more o
  send_packfiles_from_folder (unlisted ∷ more) o = (err io, o)
  send_packfiles_from_folder (Slot.unreadable ∷ more) o = (err io, o)

  unfoldable pub send_index_file : ℕ → ℕ → Exec Outbox Failure Done
  send_index_file path index_num = do
    b ← read path
    transported C me b (index index_num)
    size ← metadata_len path
    on_config (peer_increment_transmitted peer_id size)
    on_config (save_highest_sent_index_number index_num)

  -- The body of the loop, for a file
  unfoldable pub visit_index : ℕ → Exec Outbox Failure Done
  visit_index path = do
    index_num ← lift (ok_or (names.parse_index_path_into_id path) io)
    highest_sent_index ← on_config get_highest_sent_index_number
    λ o.
        if is_sent_already highest_sent_index index_num
        then (ok tt, o)
        else send_index_file path index_num o

  unfoldable pub send_index : List Entry → Exec Outbox Failure Done
  send_index [] o = (ok tt, o)
  send_index (file path ∷ more) o = (do visit_index path; send_index more) o
  send_index (stray ∷ more) o = send_index more o
  send_index (unreadable ∷ more) o = (err io, o)
