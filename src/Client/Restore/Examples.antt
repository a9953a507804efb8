-- ===== src/Client/Restore/Examples.antt =====
-- The theorems about restores at a small table, two stored files and one start of each kind.
use backuwup.Prelude.{
  ℕ, ◌≡◌, refl, true, false, List, [], ◌∷◌, ◌++◌, none, some, ok, err, arith, Result, Done, map, ap,
  ◌∙◌,
}
use backuwup.Client.Bytes.{Bytes}
use backuwup.Client.Config.{Failure, no_settings, refused, restore_request, LogRow}
use backuwup.Client.Tables.Log.Transaction.{newest, is_restore_request}
use backuwup.Client.Tables.LogLaws.{stamp}
use backuwup.Client.Net.Obfuscation.{ObfuscationKey, obfuscate_data_impl}
use backuwup.Client.Net.Received.{FileInfo, packfile, index, StoredFile}
use backuwup.Client.Net.PlainCodec.{plain, plain-IsLawful}
use backuwup.Client.Net.Transport.{
  validate_incoming_message, open_message, validate_encapsulated_signature, header_matches, ack_msg,
}
use backuwup.Client.Net.Stream.{
  new_transport, send_files, send_data, file_message, deliver, binary, BackupTransportManager,
  Receiving, handle_stream, receive_file, send,
}
use backuwup.Client.Backup.Orchestrator.{set_backup_started, set_size_estimate}
use backuwup.Client.Backup.Orchestrator
use backuwup.Client.Restore.Orchestrator.{
  RestoreOrchestrator, complete_peer, set_started, set_finished,
}
use backuwup.Client.Restore.Orchestrator as RestoreState
use backuwup.Client.Restore.Send.{Returning, is_throttled, restore_all_data_to_peer}
use backuwup.Client.Restore.Given.{Holds, no_files, others, given, of_kind}
use backuwup.Client.Restore.Returned.{restore_all_data_to_peer-Holds}
use backuwup.Client.Restore.Receiving.{Restored, save_restored, received, handle_receiving}
use backuwup.Client.Restore.RoundTrip.{
  last_given, find_file, handle_receiving-restore_all_data_to_peer,
}
use backuwup.Client.Restore.Throttle.{restore_all_data_to_peer-again}
use backuwup.Client.Restore.Starts.{Cells, run, estimate_size, estimate, request_restore}
use backuwup.Client.Restore.Exclusion.{backing_up, restoring, begun, ran, asked, Reach-exclusive}

abbrev key : ObfuscationKey
key = record { k0 = 64; k1 = 65; k2 = 66; k3 = 67 }

abbrev restored_key : ℕ → ObfuscationKey
restored_key n = key

-- Peer 3 gave an index file and then a packfile, and peer 5 a packfile; peer 3 asked last at time 7.
abbrev first_file : Bytes
first_file = 1 ∷ 2 ∷ []

abbrev second_file : Bytes
second_file = 3 ∷ 4 ∷ 5 ∷ []

abbrev kept : List StoredFile
kept =
    record { owner = 3; info = index 1; bytes = obfuscate_data_impl first_file key }
    ∷ record { owner = 5; info = packfile 8; bytes = 9 ∷ [] }
    ∷ record { owner = 3; info = packfile 4; bytes = obfuscate_data_impl second_file key }
    ∷ []

abbrev gave : List (FileInfo × Bytes)
gave = (index 1, first_file) ∷ (packfile 4, second_file) ∷ []

abbrev asked_at_seven : List LogRow
asked_at_seven = record { timestamp = 7; event = restore_request 3 } ∷ []

abbrev later : ℕ → Returning
later now = record {
  config = record {
    peers = [];
    settings = record no_settings { obfuscation_key = some 1 };
    log = asked_at_seven;
    now = now;
    faults = [];
  };
  files = kept;
  disk = [];
  transport = new_transport 55 [];
}

kept-Holds : Holds key 3 kept gave
kept-Holds = given refl refl (ground arith) (others refl (given refl refl (ground arith) no_files))

after_a_minute :
    is_throttled (stamp (newest (is_restore_request 3) (later 90).config.log)) (later 90).config.now
    ≡ false
unfolding is_throttled newest is_restore_request
after_a_minute = refl

restore_all_data_to_peer-Holds_example :
    ((restore_all_data_to_peer plain restored_key 2 3 (later 90)).0
      ≡ (send_files plain 2 (of_kind true gave ++ of_kind false gave) (later 90).transport).0)
    × ((restore_all_data_to_peer plain restored_key 2 3 (later 90)).1.transport
        ≡ (send_files plain 2 (of_kind true gave ++ of_kind false gave) (later 90).transport).1)
restore_all_data_to_peer-Holds_example =
    restore_all_data_to_peer-Holds plain restored_key 2 3 (later 90) 1 gave refl refl refl
      after_a_minute kept-Holds

restore_all_data_to_peer-again_example :
    restore_all_data_to_peer plain restored_key 2 3 (later 30) ≡ (err refused, later 30)
restore_all_data_to_peer-again_example =
    restore_all_data_to_peer-again plain restored_key 2 3 (later 30) [] [] 7 refl refl
      (ground arith)

abbrev answered : Returning
answered = (restore_all_data_to_peer plain restored_key 2 3 (later 90)).1

abbrev orchestrator : RestoreOrchestrator
orchestrator = record { restore_running = true; peer_restore_status = (2, false) ∷ [] }

abbrev taking : Receiving Restored
taking = record {
  data_msg_counter = 1;
  ack_msg_counter = 0;
  stored = record { files = []; writes = [] };
  outgoing = [];
  send_faults = [];
}

abbrev sent_back : BackupTransportManager
sent_back = (send_files plain 2 (of_kind true gave ++ of_kind false gave) (new_transport 55 [])).1

abbrev taken : Result Failure Done × Receiving Restored × RestoreOrchestrator
taken = handle_receiving plain 3 55 2 (map binary sent_back.sent) taking orchestrator

sends_back :
    send_files plain 2 (of_kind true gave ++ of_kind false gave) (new_transport 55 [])
    ≡ (ok tt, sent_back)
unfolding send_files send_data file_message deliver
sends_back = refl

answers : restore_all_data_to_peer plain restored_key 2 3 (later 90) ≡ (ok tt, answered)
answers =
    let (result, moved) = restore_all_data_to_peer-Holds_example in
    ap (λ x. (x, answered)) (result ∙ ap (λ x. x.0) sends_back)

takes_sent :
    handle_receiving plain 3 55 2 (map binary sent_back.sent) taking orchestrator
    ≡ (ok tt, taken.1, taken.2)
unfolding send_files send_data file_message deliver handle_receiving handle_stream receive_file send
    ack_msg validate_incoming_message open_message validate_encapsulated_signature header_matches
    save_restored received
takes_sent = refl

takes :
    handle_receiving plain 3 55 2 (map binary answered.transport.sent) taking orchestrator
    ≡ (ok tt, taken.1, taken.2)
takes =
    let (result, moved) = restore_all_data_to_peer-Holds_example in
    ap (λ t. handle_receiving plain 3 55 2 (map binary t.sent) taking orchestrator) moved
    ∙ takes_sent

handle_receiving-restore_all_data_to_peer_example :
    ((name : FileInfo) → find_file name taken.1.stored.files ≡ last_given name gave)
    × (taken.2 ≡ complete_peer 2 orchestrator)
handle_receiving-restore_all_data_to_peer_example =
    handle_receiving-restore_all_data_to_peer plain plain-IsLawful 55 2 3 restored_key (later 90)
      answered 1 gave [] taking taken.1 orchestrator taken.2 refl refl after_a_minute kept-Holds
      refl answers refl refl takes

-- A backup starts, and a restore that is asked for during it is refused.
abbrev backed_up : Cells
backed_up =
    (request_restore
      (run 100 (some 1) (ok 50) (λ n. ok none) (record { backup = none; restore = none })).1).1

backs_up : backing_up backed_up.backup ≡ true
unfolding run request_restore Orchestrator.initialize_static estimate_size estimate
    set_backup_started set_size_estimate RestoreState.initialize_static set_started set_finished
backs_up = refl

Reach-exclusive_example : restoring backed_up.restore ≡ false
Reach-exclusive_example =
    Reach-exclusive (asked (ran 100 (some 1) (ok 50) (λ n. ok none) begun)) backs_up
