-- ===== src/Client/Backup/Sending/Examples.antt =====
-- The theorems about sending at a buffer of two packfiles and one of three index files.
use backuwup.Prelude.{◌≡◌, refl, List, [], ◌∷◌, some, ok}
use backuwup.Prelude.Dict.{Dict, lookup}
use backuwup.Client.Bytes.{Bytes}
use backuwup.Client.Config.{no_settings, call, transaction, committing}
use backuwup.Client.Peers.{peer_increment_transmitted, peer_add_transmitted, update_peer}
use backuwup.Client.Tables.Settings.{get_highest_sent_index_number, save_highest_sent_index_number}
use backuwup.Client.Tables.Settings.Transaction
use backuwup.Client.Net.PlainCodec.{plain}
use backuwup.Client.Net.Stream.{new_transport, send_data, file_message, deliver}
use backuwup.Client.Backup.Orchestrator.{default}
use backuwup.Client.Backup.Sending.{
  Outbox, Names, Entry, file, stray, Slot, folder, disk_call, read, metadata_len, transported,
  is_sent_already, send_index_file, visit_index, send_index, send_packfiles_from_folder,
}
use backuwup.Client.Backup.Sending.Shipments.{Ships}
use backuwup.Client.Backup.Sending.Shipped.{paths_of, all_paths, send_packfiles_from_folder-Ships}
use backuwup.Client.Backup.Sending.Rising.{SendsIndexes, send_index-SendsIndexes}

abbrev names : Names
names = record { parse_packfile_path_into_id = λ p. some p; parse_index_path_into_id = λ p. some p }

abbrev outbox : Dict Bytes → Outbox
outbox files = record {
  orchestrator = default 0;
  config = record { peers = []; settings = no_settings; log = []; now = 9; faults = [] };
  transport = new_transport 55 [];
  files = files;
  disk = [];
}

abbrev slots : List Slot
slots = folder (file 4 ∷ stray ∷ []) ∷ folder (file 5 ∷ []) ∷ []

abbrev packs : Outbox
packs = outbox ((4, 1 ∷ 2 ∷ []) ∷ (5, 3 ∷ []) ∷ [])

send_packfiles_from_folder-Ships_example :
    Ships plain 3 names
      (all_paths slots)
      packs
      (send_packfiles_from_folder plain names 3 8 slots packs)
send_packfiles_from_folder-Ships_example =
    send_packfiles_from_folder-Ships plain names 3 8 slots packs

abbrev listing : List Entry
listing = file 5 ∷ file 3 ∷ file 6 ∷ []

abbrev indexes : Outbox
indexes = outbox ((3, 1 ∷ []) ∷ (5, 2 ∷ []) ∷ (6, 3 ∷ []) ∷ [])

succeeds : (send_index plain names 3 8 listing indexes).0 ≡ ok tt
unfolding send_index visit_index send_index_file read metadata_len disk_call transported send_data
    file_message deliver peer_increment_transmitted peer_add_transmitted update_peer transaction
    call committing get_highest_sent_index_number save_highest_sent_index_number is_sent_already
    Transaction.get_highest_sent_index_number Transaction.save_highest_sent_index_number lookup
succeeds = refl

send_index-SendsIndexes_example :
    SendsIndexes plain names 3 8
      (paths_of listing)
      indexes
      (send_index plain names 3 8 listing indexes).1
send_index-SendsIndexes_example = send_index-SendsIndexes plain names 3 8 listing indexes succeeds
