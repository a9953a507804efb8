-- ===== src/Client/Backup/Sending/Shipped.antt =====
-- `send_packfiles_from_folder` of client/src/backup/send.rs removes what was acknowledged.
use backuwup.Prelude.{
  ℕ, ◌≡◌, ◌≢◌, ◌⊎◌, inl, inr, refl, subst, List, [], ◌∷◌, ◌++◌, Bool, true, false, some, Result, ok,
  Exec, Done, arith, Result-cases, Option-cases, ◌>>◌,
}
use backuwup.Prelude.Dict.{lookup, erase}
use backuwup.Shared.{ClientId}
use backuwup.Client.Bytes.{Bytes}
use backuwup.Client.Config.{Failure}
use backuwup.Client.Peers.{peer_increment_transmitted}
use backuwup.Client.Net.Received.{packfile}
use backuwup.Client.Net.Transport.{Codec}
use backuwup.Client.Net.Stream.{BackupTransportManager, send_data, send_files}
use backuwup.Client.Backup.Orchestrator.{increment_packfile_bytes_sent}
use backuwup.Client.Backup.Sending.{
  Outbox, Names, Entry, file, stray, unreadable, Slot, folder, unlisted, disk_call, read,
  metadata_len, remove_file, on_config, on_orchestrator, transported, send_single_packfile,
  send_folder, send_packfiles_from_folder,
}
use backuwup.Client.Backup.Sending.Shipments.{
  Leaves, all_left, leaves, Ships, Ships-none, Ships-tried, none_tried, Ships->>,
}

-- A call of the file system that only reads.
abbrev pub IsSame : Outbox → Outbox → Type 0
IsSame o o' = (o'.files ≡ o.files) × (o'.transport ≡ o.transport) × (o'.config ≡ o.config)

disk_call-IsSame : (o : Outbox) → IsSame o (disk_call o).1
unfolding disk_call
disk_call-IsSame o = go o.disk
  where
    go : (ds : List Bool) → IsSame o (disk_call (record o { disk = ds })).1
    go [] = (refl, refl, refl)
    go (true ∷ ds) = (refl, refl, refl)
    go (false ∷ ds) = (refl, refl, refl)

pub read-found :
    (path : ℕ) (o : Outbox)
    → IsSame o (read path o).1
      × ((b : Bytes) → (read path o).0 ≡ ok b → lookup path o.files ≡ some b)
unfolding read
read-found path o =
    let same = disk_call-IsSame o in (ground (arith, same), λ b e. ground (arith, same))

pub metadata_len-IsSame : (path : ℕ) (o : Outbox) → IsSame o (metadata_len path o).1
unfolding metadata_len
metadata_len-IsSame path o = ground (arith, (read-found path o).0)

remove_file-files :
    (path : ℕ) (o : Outbox)
    → (((remove_file path o).0 ≡ ok tt)
        × ((remove_file path o).1.files ≡ erase path o.files)
        × ((remove_file path o).1.transport ≡ o.transport))
      ⊎ (((remove_file path o).0 ≢ ok tt)
          × ((remove_file path o).1.files ≡ o.files)
          × ((remove_file path o).1.transport ≡ o.transport))
unfolding remove_file
remove_file-files path o =
    let same = disk_call-IsSame o in
    elim (Result-cases (disk_call o).0) [
      | inl (u, e) ↦ inl (ground arith, ground (arith, same), ground (arith, same))
      | inr (f, e) ↦ inr (λ x. ground arith, ground (arith, same), ground (arith, same))
    ]

-- The files of a listing, in its order.
abbrev pub paths_of : List Entry → List ℕ
paths_of [] = []
paths_of (file path ∷ more) = path ∷ paths_of more
paths_of (stray ∷ more) = paths_of more
paths_of (unreadable ∷ more) = paths_of more

abbrev pub all_paths : List Slot → List ℕ
all_paths [] = []
all_paths (folder entries ∷ more) = paths_of entries ++ all_paths more
all_paths (Slot.stray ∷ more) = all_paths more
all_paths (unlisted ∷ more) = all_paths more
all_paths (Slot.unreadable ∷ more) = all_paths more

module _ (C : Codec) (names : Names) (me peer_id : ClientId) where
  -- What comes behind the acknowledgement.
  abbrev settle : ℕ → ℕ → Exec Outbox Failure Done
  settle path size = do
    on_orchestrator (increment_packfile_bytes_sent size)
    on_config (peer_increment_transmitted peer_id size)
    remove_file path

  settle-files :
      (path size : ℕ) (o : Outbox)
      → (((settle path size o).0 ≡ ok tt)
          × ((settle path size o).1.files ≡ erase path o.files)
          × ((settle path size o).1.transport ≡ o.transport))
        ⊎ (((settle path size o).0 ≢ ok tt)
            × ((settle path size o).1.files ≡ o.files)
            × ((settle path size o).1.transport ≡ o.transport))
  settle-files path size o =
      let counted = (peer_increment_transmitted peer_id size o.config) in
      elim (Result-cases counted.0) [
        | inl (u, e) ↦
            let o1 : Outbox = record o {
              orchestrator = increment_packfile_bytes_sent size o.orchestrator;
              config = counted.1;
            } in
            elim (remove_file-files path o1) [
              | inl (fine, files, same) ↦ inl (ground arith, ground arith, ground arith)
              | inr (bad, files, same) ↦ inr (λ x. ground arith, ground arith, ground arith)
            ]
        | inr (f, e) ↦ inr (λ x. ground arith, ground arith, ground arith)
      ]

  -- From the read on, with the content that was read.
  abbrev deliver_then_settle : ℕ → ℕ → Bytes → ℕ → Exec Outbox Failure Done
  deliver_then_settle path size b id = do transported C me b (packfile id); settle path size

  deliver-Ships :
      (path size : ℕ) (b : Bytes) (id : ℕ) (o : Outbox)
      → lookup path o.files ≡ some b
      → names.parse_packfile_path_into_id path ≡ some id
      → Ships C me names (path ∷ []) o (deliver_then_settle path size b id o)
  unfolding transported send_files
  deliver-Ships path size b id o found named =
      let t : BackupTransportManager = (send_data C me b (packfile id) o.transport).1 in
      let o1 : Outbox = record o { transport = t } in
      elim (Result-cases (send_data C me b (packfile id) o.transport).0) [
        | inr (f, e) ↦
            Ships-tried C me names path id b o _ (ground arith) found named (ground arith)
              (λ x. ground arith)
        | inl (u, e) ↦ elim (settle-files path size o1) [
          | inr (bad, files, same) ↦
              Ships-tried C me names path id b o _ (ground arith) found named (ground arith)
                (λ x. ground arith)
          | inl (fine, files, same) ↦ record {
            gone = path ∷ [];
            rest = [];
            sent = (packfile id, b) ∷ [];
            tried = [];
            listed = refl;
            left =
                subst (Leaves names (path ∷ []) o.files ((packfile id, b) ∷ [])) (ground arith)
                  (leaves found named all_left);
            acknowledged = ground arith;
            next = none_tried;
            moved = ground arith;
            complete = λ x. (refl, refl);
          }
        ]
      ]

  Ships-from :
      (paths : List ℕ) (o o' : Outbox) (out : Result Failure Done × Outbox)
      → IsSame o o'
      → Ships C me names paths o' out
      → Ships C me names paths o out
  Ships-from paths o o' out (files, transport, config) k = record {
    gone = k.gone;
    rest = k.rest;
    sent = k.sent;
    tried = k.tried;
    listed = k.listed;
    left = subst (λ d. Leaves names k.gone d k.sent out.1.files) files k.left;
    acknowledged = subst (λ t. (send_files C me k.sent t).0 ≡ ok tt) transport k.acknowledged;
    next = k.next;
    moved =
        subst (λ t. (send_files C me (k.sent ++ k.tried) t).1 ≡ out.1.transport) transport k.moved;
    complete = k.complete;
  }

  send_single_packfile-Ships :
      (path : ℕ) (o : Outbox)
      → Ships C me names (path ∷ []) o (send_single_packfile C names me peer_id path o)
  unfolding send_single_packfile
  send_single_packfile-Ships path o =
      let o1 : Outbox = (metadata_len path o).1 in
      let measured = metadata_len-IsSame path o in
      let (same, found) = read-found path o1 in
      let o2 : Outbox = (read path o1).1 in
      elim (Result-cases (metadata_len path o).0) [
        | inr (f, e) ↦ Ships-none C me names _ o _ (ground arith) (ground arith) (λ x. ground arith)
        | inl (size, e) ↦ elim (Result-cases (read path o1).0) [
          | inr (f, g) ↦
              Ships-none C me names _ o _ (ground arith) (ground arith) (λ x. ground arith)
          | inl (b, g) ↦ elim (Option-cases (names.parse_packfile_path_into_id path)) [
            | inl n ↦ Ships-none C me names _ o _ (ground arith) (ground arith) (λ x. ground arith)
            | inr (id, n) ↦
                let there = found b g in
                subst (Ships C me names (path ∷ []) o) (ground arith) (
                  Ships-from (path ∷ []) o o2 (deliver_then_settle path size b id o2) (ground arith)
                    (deliver-Ships path size b id o2 (ground arith) n))
          ]
        ]
      ]

  send_folder-Ships :
      (entries : List Entry) (o : Outbox)
      → Ships C me names (paths_of entries) o (send_folder C names me peer_id entries o)
  unfolding send_folder send_files
  send_folder-Ships [] o = Ships-none C me names [] o _ refl refl (λ x. refl)
  send_folder-Ships (file path ∷ more) o =
      Ships->> C me names (path ∷ []) (paths_of more) (send_single_packfile C names me peer_id path)
        (send_folder C names me peer_id more) o (send_single_packfile-Ships path o)
        (send_folder-Ships more)
  send_folder-Ships (stray ∷ more) o = send_folder-Ships more o
  send_folder-Ships (unreadable ∷ more) o = Ships-none C me names _ o _ refl refl (λ x. cc)

  -- Whether it succeeds or fails, the files that have left the folder of packfiles are the first ones of
  -- the listing, in its order, and each was sent under the number of its name with the content that it
  -- had, and acknowledged. Over the connection went these and, at most, the next file of
  -- the listing, which is then still in the folder; when it succeeds, these are all the files of the
  -- listing, and nothing else was sent.
  pub send_packfiles_from_folder-Ships :
      (slots : List Slot) (o : Outbox)
      → Ships C me names (all_paths slots) o (send_packfiles_from_folder C names me peer_id slots o)
  unfolding send_packfiles_from_folder
  send_packfiles_from_folder-Ships [] o = Ships-none C me names [] o _ refl refl (λ x. refl)
  send_packfiles_from_folder-Ships (folder entries ∷ more) o =
      Ships->> C me names (paths_of entries) (all_paths more)
        (send_folder C names me peer_id entries)
        (send_packfiles_from_folder C names me peer_id more) o (send_folder-Ships entries o)
        (send_packfiles_from_folder-Ships more)
  send_packfiles_from_folder-Ships (Slot.stray ∷ more) o = send_packfiles_from_folder-Ships more o
  send_packfiles_from_folder-Ships (unlisted ∷ more) o =
      Ships-none C me names _ o _ refl refl (λ x. cc)
  send_packfiles_from_folder-Ships (Slot.unreadable ∷ more) o =
      Ships-none C me names _ o _ refl refl (λ x. cc)
