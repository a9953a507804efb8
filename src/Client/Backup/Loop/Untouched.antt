-- ===== src/Client/Backup/Loop/Untouched.antt =====
-- `send_index` of client/src/backup/send.rs leaves the orchestrator alone.
use backuwup.Prelude.{
  ℕ, ◌≡◌, refl, Bool, true, false, List, [], ◌∷◌, arith, Result-cases, Option-cases, inl, inr,
}
use backuwup.Shared.{ClientId}
use backuwup.Client.Config.{Config}
use backuwup.Client.Tables.Settings.{get_highest_sent_index_number}
use backuwup.Client.Net.Received.{index}
use backuwup.Client.Net.Transport.{Codec}
use backuwup.Client.Net.Stream.{send_data}
use backuwup.Client.Backup.Sending.{
  Outbox, Names, Entry, file, stray, unreadable, disk_call, read, metadata_len, transported,
  send_index_file, visit_index, send_index,
}

disk_call-orchestrator : (o : Outbox) → (disk_call o).1.orchestrator ≡ o.orchestrator
unfolding disk_call
disk_call-orchestrator o = go o.disk
  where
    go : (ds : List Bool) → (disk_call (record o { disk = ds })).1.orchestrator ≡ o.orchestrator
    go [] = refl
    go (true ∷ ds) = refl
    go (false ∷ ds) = refl

read-orchestrator : (path : ℕ) (o : Outbox) → (read path o).1.orchestrator ≡ o.orchestrator
unfolding read
read-orchestrator path o = ground (arith, disk_call-orchestrator o)

metadata_len-orchestrator :
    (path : ℕ) (o : Outbox) → (metadata_len path o).1.orchestrator ≡ o.orchestrator
unfolding metadata_len
metadata_len-orchestrator path o = ground (arith, read-orchestrator path o)

module _ (C : Codec) (names : Names) (me peer_id : ClientId) where
  send_index_file-orchestrator :
      (path n : ℕ) (o : Outbox)
      → (send_index_file C names me peer_id path n o).1.orchestrator ≡ o.orchestrator
  unfolding send_index_file transported
  send_index_file-orchestrator path n o =
      let o1 : Outbox = (read path o).1 in
      let was = read-orchestrator path o in
      elim (Result-cases (read path o).0) [
        | inr (f, p) ↦ ground (arith, was)
        | inl (b, p) ↦
            let o2 : Outbox = record o1 {
              transport = (send_data C me b (index n) o1.transport).1;
            } in
            let is = metadata_len-orchestrator path o2 in
            elim (Result-cases (send_data C me b (index n) o1.transport).0) [
              | inr (f, q) ↦ ground (arith, was)
              | inl (u, q) ↦ elim (Result-cases (metadata_len path o2).0) [
                | inr (f, r) ↦ ground (arith, was, is)
                | inl (size, r) ↦ ground (arith, was, is)
              ]
            ]
      ]

  visit_index-orchestrator :
      (path : ℕ) (o : Outbox)
      → (visit_index C names me peer_id path o).1.orchestrator ≡ o.orchestrator
  unfolding visit_index
  visit_index-orchestrator path o =
      let c : Config = (get_highest_sent_index_number o.config).1 in
      elim (Option-cases (names.parse_index_path_into_id path)) [
        | inl p ↦ ground arith
        | inr (n, p) ↦ ground (arith, send_index_file-orchestrator path n (record o { config = c }))
      ]

  pub send_index-orchestrator :
      (entries : List Entry) (o : Outbox)
      → (send_index C names me peer_id entries o).1.orchestrator ≡ o.orchestrator
  unfolding send_index
  send_index-orchestrator [] o = refl
  send_index-orchestrator (stray ∷ more) o = send_index-orchestrator more o
  send_index-orchestrator (unreadable ∷ more) o = refl
  send_index-orchestrator (file path ∷ more) o =
      let one = visit_index-orchestrator path o in
      ground (arith, one, send_index-orchestrator more (visit_index C names me peer_id path o).1)
