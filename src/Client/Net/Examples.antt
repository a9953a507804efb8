-- ===== src/Client/Net/Examples.antt =====
-- The theorems on received files (client/src/net_p2p) at concrete inputs: client 3 sends ten bytes, two
-- past the eight that were negotiated.
use backuwup.Prelude.{◌≡◌, refl, List, [], ◌∷◌, ◌++◌, map, arith, ok, err, Exec, Done}
use backuwup.Prelude.Dict.{lookup}
use backuwup.Client.Bytes.{Bytes}
use backuwup.Client.Config.{no_settings}
use backuwup.Client.Peers.{PeerInfo, Failure, invalid_message}
use backuwup.Client.Net.PlainCodec.{plain, plain-IsLawful}
use backuwup.Client.Net.Obfuscation.{ObfuscationKey, obfuscate_data_impl, obfuscate_data_impl_twice}
use backuwup.Client.Net.Received.{FileInfo, packfile, index, Storage, PeerDataReceiver, save_file}
use backuwup.Client.Net.Transport.{
  validate_incoming_message, open_message, validate_encapsulated_signature, header_matches, ack_msg,
}
use backuwup.Client.Net.Stream.{
  binary, Receiving, BackupTransportManager, new_transport, send, send_files, send_data,
  file_message, deliver, handle_stream, receive_file,
}
use backuwup.Client.Net.Replay.{validate_incoming_message-again}
use backuwup.Client.Net.Arrival.{saves, handle_stream-send_files}
use backuwup.Client.Net.Quota.{IsWithin, Saves, save_file-Saves, save_file-IsWithin}

abbrev key : ObfuscationKey
key = record { k0 = 64; k1 = 65; k2 = 66; k3 = 67 }

abbrev ten : Bytes
ten = 1 ∷ 2 ∷ 3 ∷ 4 ∷ 5 ∷ 6 ∷ 7 ∷ 8 ∷ 9 ∷ 10 ∷ []

obfuscate_data_impl_twice_example : obfuscate_data_impl (obfuscate_data_impl ten key) key ≡ ten
obfuscate_data_impl_twice_example = obfuscate_data_impl_twice ten key (ground arith)

abbrev row : PeerInfo
row = record {
  bytes_transmitted = 0;
  bytes_received = 0;
  bytes_negotiated = 8;
  first_seen = 1;
  last_seen = 1;
}

abbrev storage : Storage
storage = record {
  config = record { peers = (3, row) ∷ []; settings = no_settings; log = []; now = 9; faults = [] };
  files = [];
  writes = [];
}

abbrev receiver : PeerDataReceiver
receiver = record { peer_id = 3; obfuscation_key = key }

IsWithin-at_start : IsWithin 100 storage.config.peers
unfolding lookup
IsWithin-at_start p other e = ground arith

save_file-Saves_example :
    Saves receiver (packfile 4) ten storage (save_file receiver (packfile 4) ten storage)
save_file-Saves_example = save_file-Saves receiver (packfile 4) ten storage

save_file-IsWithin_example :
    IsWithin 100 (save_file receiver (packfile 4) ten storage).1.config.peers
save_file-IsWithin_example =
    save_file-IsWithin 100 receiver (packfile 4) ten storage (omega arith) IsWithin-at_start

-- Client 3 sends two files with the nonce 55; what is stored is the list of them.
abbrev two_files : List (FileInfo × Bytes)
two_files = (packfile 4, ten) ∷ (index 1, 7 ∷ []) ∷ []

abbrev keep : FileInfo → Bytes → Exec (List (FileInfo × Bytes)) Failure Done
keep info b kept = (ok tt, kept ++ (info, b) ∷ [])

abbrev sender : BackupTransportManager
sender = (send_files plain 3 two_files (new_transport 55 [])).1

abbrev receiving : Receiving (List (FileInfo × Bytes))
receiving = record {
  data_msg_counter = 1;
  ack_msg_counter = 0;
  stored = [];
  outgoing = [];
  send_faults = [];
}

abbrev received : Receiving (List (FileInfo × Bytes))
received = (handle_stream plain keep 8 55 3 (map binary sender.sent) receiving).1

sends : send_files plain 3 two_files (new_transport 55 []) ≡ (ok tt, sender)
unfolding send_files send_data file_message deliver
sends = refl

receives : handle_stream plain keep 8 55 3 (map binary sender.sent) receiving ≡ (ok tt, received)
unfolding send_files send_data file_message deliver handle_stream receive_file send ack_msg
    validate_incoming_message open_message validate_encapsulated_signature header_matches
receives = refl

handle_stream-send_files_example :
    saves plain plain-IsLawful 55 3 keep 8 two_files [] ≡ (ok tt, received.stored)
handle_stream-send_files_example =
    handle_stream-send_files plain plain-IsLawful 55 3 keep 8 two_files [] sender receiving received
      sends refl receives

abbrev message : Bytes
message = 5 ∷ 1 ∷ 55 ∷ 0 ∷ 4 ∷ 9 ∷ 3 ∷ []

accepted : (validate_incoming_message plain 55 3 message 1).0 ≡ ok (1, packfile 4, 9 ∷ [])
unfolding validate_incoming_message open_message validate_encapsulated_signature header_matches
accepted = refl

validate_incoming_message-again_example :
    validate_incoming_message plain 55 3 message 2 ≡ (err invalid_message, 2)
validate_incoming_message-again_example =
    validate_incoming_message-again plain 55 3 message 1 2 (1, packfile 4, 9 ∷ []) accepted
      (omega arith)
