-- ===== src/Client/Backup/Sending/Indexes.antt =====
-- One round of the loop of `send_index` (client/src/backup/send.rs), when it succeeds.
use backuwup.Prelude.{
  ℕ, ◌≡◌, inl, inr, refl, true, false, Option, some, ok, Exec, Done, arith, Result-cases,
  Option-cases, Bool-cases, ◌>>=◌, ◌>>◌,
}
use backuwup.Prelude.Dict.{lookup}
use backuwup.Shared.{ClientId}
use backuwup.Client.Bytes.{Bytes}
use backuwup.Client.Config.{Failure, Config}
use backuwup.Client.Peers.{peer_increment_transmitted}
use backuwup.Client.Tables.Settings.{get_highest_sent_index_number, save_highest_sent_index_number}
use backuwup.Client.Tables.Laws.{get_highest-found, save_highest-saved}
use backuwup.Client.Net.Received.{index}
use backuwup.Client.Net.Transport.{Codec}
use backuwup.Client.Net.Stream.{BackupTransportManager, send_data}
use backuwup.Client.Backup.Sending.{
  Outbox, Names, read, metadata_len, on_config, transported, is_sent_already, send_index_file,
  visit_index,
}
use backuwup.Client.Backup.Sending.Shipped.{IsSame, read-found, metadata_len-IsSame}

abbrev pub highest_of : Outbox → Option ℕ
highest_of o = o.config.settings.highest_sent_index

module _ (C : Codec) (names : Names) (me peer_id : ClientId) where
  -- A round that succeeds has skipped a file that is not above the highest number, or has sent it and
  -- made its number the highest.
  pub data Visited (path : ℕ) (o o' : Outbox) : Type 0 where
    skipped :
        (n : ℕ)
        → names.parse_index_path_into_id path ≡ some n
        → is_sent_already (highest_of o) n ≡ true
        → o'.files ≡ o.files
        → o'.transport ≡ o.transport
        → highest_of o' ≡ highest_of o
        → Visited path o o'
    sent :
        (n : ℕ) (b : Bytes)
        → names.parse_index_path_into_id path ≡ some n
        → is_sent_already (highest_of o) n ≡ false
        → lookup path o.files ≡ some b
        → o'.files ≡ o.files
        → send_data C me b (index n) o.transport ≡ (ok tt, o'.transport)
        → highest_of o' ≡ some n
        → Visited path o o'

  -- What comes behind the acknowledgement of an index file.
  abbrev recorded : ℕ → ℕ → Exec Outbox Failure Done
  recorded path n = do
    size ← metadata_len path
    on_config (peer_increment_transmitted peer_id size)
    on_config (save_highest_sent_index_number n)

  recorded-highest :
      (path n : ℕ) (o : Outbox)
      → (recorded path n o).0 ≡ ok tt
      → ((recorded path n o).1.files ≡ o.files)
        × ((recorded path n o).1.transport ≡ o.transport)
        × (highest_of (recorded path n o).1 ≡ some n)
  recorded-highest path n o e =
      let (files, transport, config) = metadata_len-IsSame path o in
      elim (Result-cases (metadata_len path o).0) [
        | inr (f, p) ↦ absurd (ground arith)
        | inl (size, p) ↦
            let c : Config = (metadata_len path o).1.config in
            let counted = peer_increment_transmitted peer_id size c in
            elim (Result-cases counted.0) [
              | inr (f, q) ↦ absurd (ground arith)
              | inl (u, q) ↦
                  let saved = save_highest-saved n counted.1 in
                  (ground arith, ground arith, ground (arith, saved))
            ]
      ]

  send_index_file-sent :
      (path n : ℕ) (o o1 : Outbox)
      → IsSame o o1
      → (send_index_file C names me peer_id path n o1).0 ≡ ok tt
      → (b : Bytes) × (lookup path o.files ≡ some b)
        × ((send_index_file C names me peer_id path n o1).1.files ≡ o.files)
        × (send_data C me b (index n) o.transport
            ≡ (ok tt, (send_index_file C names me peer_id path n o1).1.transport))
        × (highest_of (send_index_file C names me peer_id path n o1).1 ≡ some n)
  unfolding send_index_file transported
  send_index_file-sent path n o o1 (files, transport, config) e =
      let (same, found) = read-found path o1 in
      elim (Result-cases (read path o1).0) [
        | inr (f, p) ↦ absurd (ground arith)
        | inl (b, p) ↦
            let o2 : Outbox = (read path o1).1 in
            let there = found b p in
            elim (Result-cases (send_data C me b (index n) o2.transport).0) [
              | inr (f, q) ↦ absurd (ground arith)
              | inl (tt, q) ↦
                  let t : BackupTransportManager = (send_data C me b (index n) o2.transport).1 in
                  let k = recorded-highest path n (record o2 { transport = t }) in
                  (b, ground arith, ground (arith, k), ground (arith, k), ground (arith, k))
            ]
      ]

  pub visit_index-Visited :
      (path : ℕ) (o : Outbox)
      → (visit_index C names me peer_id path o).0 ≡ ok tt
      → Visited path o (visit_index C names me peer_id path o).1
  unfolding visit_index
  visit_index-Visited path o e = elim (Option-cases (names.parse_index_path_into_id path)) [
    | inl n ↦ absurd (ground arith)
    | inr (n, named) ↦
        let c : Config = (get_highest_sent_index_number o.config).1 in
        let o1 : Outbox = record o { config = c } in
        let (settings, reads) = get_highest-found o.config in
        elim (Result-cases (get_highest_sent_index_number o.config).0) [
          | inr (f, g) ↦ absurd (ground arith)
          | inl (h, g) ↦
              let is = reads h g in
              elim (Bool-cases (is_sent_already h n)) [
                | inl old ↦
                    skipped n named (ground arith) (ground arith) (ground arith) (ground arith)
                | inr new ↦
                    let (b, found, files, delivered, high) =
                      send_index_file-sent path n o1 o1 (refl, refl, refl) (ground arith) in
                    sent n b named (ground arith) found (ground arith) (ground arith) (ground arith)
              ]
        ]
  ]
