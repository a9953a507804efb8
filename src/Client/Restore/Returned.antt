-- ===== src/Client/Restore/Returned.antt =====
-- What a peer sends back is what was given to it (client/src/backup/restore_send.rs).
use backuwup.Prelude.{
  ℕ, ◌≡◌, refl, ap, ◌∙◌, Bool, true, false, List, [], ◌∷◌, ◌++◌, some, err, arith, Result-cases,
  inl, inr, ok, Exec, Done, Bool-cases, ◌>>◌,
}
use backuwup.Shared.{ClientId}
use backuwup.Client.Bytes.{Bytes}
use backuwup.Client.Config.{Failure}
use backuwup.Client.Tables.Log.Transaction.{is_restore_request, newest}
use backuwup.Client.Tables.LogLaws.{
  stamp, logged, get_last-works, log_request-works, get_obfuscation_key-works,
}
use backuwup.Client.Net.Obfuscation.{ObfuscationKey, obfuscate_data_impl}
use backuwup.Client.Net.Received.{FileInfo, StoredFile}
use backuwup.Client.Net.Transport.{Codec}
use backuwup.Client.Net.Stream.{send_data, send_files, BackupTransportManager}
use backuwup.Client.Backup.Sending.Shipments.{send_files-append}
use backuwup.Client.Restore.Send.{
  Returning, is_throttled, is_wanted, disk_read, send_back, send_kind, restore_files,
  restore_all_data_to_peer,
}
use backuwup.Client.Restore.Given.{Holds, of_kind, deobfuscated, deobfuscated-Holds}

module _ (C : Codec) (to_le_bytes : ℕ → ObfuscationKey) (me : ClientId) where
  send_files-failed :
      (xs ys : List (FileInfo × Bytes)) (t : BackupTransportManager) (e : Failure)
      → (send_files C me xs t).0 ≡ err e
      → send_files C me (xs ++ ys) t ≡ (err e, (send_files C me xs t).1)
  unfolding send_files
  send_files-failed [] ys t e p = cc
  send_files-failed ((info, b) ∷ xs) ys t e p = elim (Result-cases (send_data C me b info t).0) [
    | inr (f, q) ↦ ground arith
    | inl (u, q) ↦ ground (arith, send_files-failed xs ys (send_data C me b info t).1 e)
  ]

  disk_read-same :
      (r : Returning)
      → ((disk_read r).1.transport ≡ r.transport)
        × ((disk_read r).1.files ≡ r.files)
        × ((disk_read r).1.config ≡ r.config)
  unfolding disk_read
  disk_read-same r = go r.disk
    where
      go :
          (ds : List Bool)
          → ((disk_read (record r { disk = ds })).1.transport ≡ r.transport)
            × ((disk_read (record r { disk = ds })).1.files ≡ r.files)
            × ((disk_read (record r { disk = ds })).1.config ≡ r.config)
      go [] = (refl, refl, refl)
      go (true ∷ ds) = (refl, refl, refl)
      go (false ∷ ds) = (refl, refl, refl)

  disk_read-works : (r : Returning) → r.disk ≡ [] → disk_read r ≡ (ok tt, r)
  unfolding disk_read
  disk_read-works r e = rw e refl

  -- What is sent when the folder can be read.
  abbrev sent_over : List (FileInfo × Bytes) → Exec Returning Failure Done
  sent_over files r =
      let (x, t) = send_files C me files r.transport in (x, record r { transport = t })

  send_kind-works :
      (key : ObfuscationKey) (peer : ClientId) (packs : Bool) (files : List StoredFile)
      (r : Returning)
      → r.disk ≡ []
      → send_kind C to_le_bytes me key peer packs files r
        ≡ sent_over (deobfuscated key peer packs files) r
  unfolding send_kind send_files send_back
  send_kind-works key peer packs [] r e = disk_read-works r e
  send_kind-works key peer packs (f ∷ files) r e = elim (Bool-cases (is_wanted peer packs f)) [
    | inr skip ↦ ground (arith, send_kind-works key peer packs files r e)
    | inl due ↦
        let b = obfuscate_data_impl f.bytes key in
        let t : BackupTransportManager = (send_data C me b f.info r.transport).1 in
        let read = disk_read-works r e in
        elim (Result-cases (send_data C me b f.info r.transport).0) [
          | inr (x, p) ↦ ground (arith, read)
          | inl (u, p) ↦
              ground
                (arith, read, send_kind-works key peer packs files (record r { transport = t }) e)
        ]
  ]

  send_kind-sent :
      (key : ObfuscationKey) (peer : ClientId) (packs : Bool) (files : List StoredFile)
      (r : Returning)
      → (send_kind C to_le_bytes me key peer packs files r).0 ≡ ok tt
      → (send_files C me (deobfuscated key peer packs files) r.transport
          ≡ (ok tt, (send_kind C to_le_bytes me key peer packs files r).1.transport))
        × ((send_kind C to_le_bytes me key peer packs files r).1.files ≡ r.files)
  unfolding send_kind send_files send_back
  send_kind-sent key peer packs [] r e = ground (arith, disk_read-same r)
  send_kind-sent key peer packs (f ∷ files) r e = elim (Bool-cases (is_wanted peer packs f)) [
    | inr skip ↦ ground (arith, send_kind-sent key peer packs files r)
    | inl due ↦
        let r1 : Returning = (disk_read r).1 in
        let same = disk_read-same r in
        let b = obfuscate_data_impl f.bytes key in
        let t : BackupTransportManager = (send_data C me b f.info r1.transport).1 in
        elim (Result-cases (disk_read r).0) [
          | inr (x, p) ↦ absurd (ground arith)
          | inl (u, p) ↦ elim (Result-cases (send_data C me b f.info r1.transport).0) [
            | inr (x, q) ↦ absurd (ground arith)
            | inl (v, q) ↦
                ground
                  (arith, same, send_kind-sent key peer packs files (record r1 { transport = t }))
          ]
        ]
  ]

  -- The two loops, behind the key.
  abbrev both : ObfuscationKey → ClientId → Exec Returning Failure Done
  both key peer = do
    disk_read
    λ r. send_kind C to_le_bytes me key peer true r.files r
    disk_read
    λ r. send_kind C to_le_bytes me key peer false r.files r

  both-sent :
      (key : ObfuscationKey) (peer : ClientId) (r r' : Returning)
      → both key peer r ≡ (ok tt, r')
      → send_files C me
          (deobfuscated key peer true r.files ++ deobfuscated key peer false r.files)
          r.transport
        ≡ (ok tt, r'.transport)
  both-sent key peer r r' e =
      let r1 : Returning = (disk_read r).1 in
      let one = send_kind C to_le_bytes me key peer true r1.files r1 in
      let r2 : Returning = one.1 in
      let r3 : Returning = (disk_read r2).1 in
      let two = send_kind C to_le_bytes me key peer false r3.files r3 in
      let kept = disk_read-same r in
      let still = disk_read-same r2 in
      elim (Result-cases (disk_read r).0) [
        | inr (f, p) ↦ absurd (ground arith)
        | inl (tt, p) ↦ elim (Result-cases one.0) [
          | inr (f, q) ↦ absurd (ground arith)
          | inl (tt, q) ↦ elim (Result-cases (disk_read r2).0) [
            | inr (f, t) ↦ absurd (ground arith)
            | inl (tt, t) ↦ elim (Result-cases two.0) [
              | inr (f, w) ↦ absurd (ground arith)
              | inl (tt, w) ↦
                  let (first, same) = send_kind-sent key peer true r1.files r1 q in
                  let (second, end) = send_kind-sent key peer false r3.files r3 w in
                  let ps = deobfuscated key peer true r.files in
                  let is = deobfuscated key peer false r.files in
                  let sent : send_files C me ps r.transport ≡ (ok tt, r2.transport) =
                    ground (arith, kept, first) in
                  let more : send_files C me is r2.transport ≡ (ok tt, r'.transport) =
                    ground (arith, kept, same, still, second) in
                  send_files-append C me ps is r.transport (ap (λ x. x.0) sent)
                  ∙ (ap (λ x. send_files C me is x.1) sent ∙ more)
            ]
          ]
        ]
      ]

  -- A call that succeeds has sent the client's files, whatever reads were made.
  pub restore_all_data_to_peer-sent :
      (peer : ClientId) (r r' : Returning) (key : ℕ) (orig : List (FileInfo × Bytes))
      → r.config.faults ≡ []
      → r.config.settings.obfuscation_key ≡ some key
      → is_throttled (stamp (newest (is_restore_request peer) r.config.log)) r.config.now ≡ false
      → Holds (to_le_bytes key) peer r.files orig
      → restore_all_data_to_peer C to_le_bytes me peer r ≡ (ok tt, r')
      → send_files C me (of_kind true orig ++ of_kind false orig) r.transport
        ≡ (ok tt, r'.transport)
  unfolding restore_all_data_to_peer restore_files
  restore_all_data_to_peer-sent peer r r' key orig works keyed free h e =
      let packs = deobfuscated-Holds (to_le_bytes key) peer true h in
      let indexes = deobfuscated-Holds (to_le_bytes key) peer false h in
      let asked = get_last-works peer r.config works in
      let noted = log_request-works peer r.config works in
      let unlocked = get_obfuscation_key-works key (logged peer r.config) works keyed in
      let r1 : Returning = record r { config = logged peer r.config } in
      let run : both (to_le_bytes key) peer r1 ≡ (ok tt, r') =
        ground (arith, asked, noted, unlocked) in
      rw (packs, indexes) at (both-sent (to_le_bytes key) peer r1 r' run)

  -- A peer that is not throttled, with a working database and its key and folders that can be read,
  -- sends a client the files that the client once gave to it, unchanged: first the packfiles and then
  -- the index files, each in the order of its folder, and nothing of other clients; and it fails
  -- exactly when sending those fails.
  pub restore_all_data_to_peer-Holds :
      (peer : ClientId) (r : Returning) (key : ℕ) (orig : List (FileInfo × Bytes))
      → r.config.faults ≡ []
      → r.disk ≡ []
      → r.config.settings.obfuscation_key ≡ some key
      → is_throttled (stamp (newest (is_restore_request peer) r.config.log)) r.config.now ≡ false
      → Holds (to_le_bytes key) peer r.files orig
      → ((restore_all_data_to_peer C to_le_bytes me peer r).0
          ≡ (send_files C me (of_kind true orig ++ of_kind false orig) r.transport).0)
        × ((restore_all_data_to_peer C to_le_bytes me peer r).1.transport
            ≡ (send_files C me (of_kind true orig ++ of_kind false orig) r.transport).1)
  unfolding restore_all_data_to_peer restore_files
  restore_all_data_to_peer-Holds peer r key orig works reads keyed free h =
      let packs = deobfuscated-Holds (to_le_bytes key) peer true h in
      let indexes = deobfuscated-Holds (to_le_bytes key) peer false h in
      let asked = get_last-works peer r.config works in
      let noted = log_request-works peer r.config works in
      let unlocked = get_obfuscation_key-works key (logged peer r.config) works keyed in
      let r1 : Returning = record r { config = logged peer r.config } in
      let r2 : Returning = record r1 {
        transport = (send_files C me (of_kind true orig) r.transport).1;
      } in
      let read = disk_read-works r1 reads in
      let again = disk_read-works r2 reads in
      let first = send_kind-works (to_le_bytes key) peer true r.files r1 reads in
      let second = send_kind-works (to_le_bytes key) peer false r.files r2 reads in
      elim (Result-cases (send_files C me (of_kind true orig) r.transport).0) [
        | inr (e, p) ↦
            let all = send_files-failed (of_kind true orig) (of_kind false orig) r.transport e p in
            (
              ground (arith, packs, indexes, asked, noted, unlocked, all, read, first),
              ground (arith, packs, indexes, asked, noted, unlocked, all, read, first),
            )
        | inl (tt, p) ↦
            let all =
              send_files-append C me (of_kind true orig) (of_kind false orig) r.transport p in
            (
              ground
                  (arith, packs, indexes, asked, noted, unlocked, all, read, again, first, second),
              ground
                  (arith, packs, indexes, asked, noted, unlocked, all, read, again, first, second),
            )
      ]
