-- ===== src/Client/Net/Connections/Examples.antt =====
-- The theorems about new connections: client 3 connects to client 8 to back up.
use backuwup.Prelude.{◌≡◌, refl, [], ◌∷◌, none, some, ok}
use backuwup.Prelude.Dict.{lookup, insert}
use backuwup.Shared.{IncomingP2PConnection}
use backuwup.Client.Bytes.{Bytes}
use backuwup.Client.Config.{no_settings, transaction, call, committing}
use backuwup.Client.Peers.{PeerInfo, get_peer_info, get_peer_row}
use backuwup.Client.Net.LastingMap.{lasting, lasting-IsDelayMap}
use backuwup.Client.Net.PlainCodec.{plain, plain-IsLawful, plain_request}
use backuwup.Client.Net.Transport.{RequestType, transport}
use backuwup.Client.Net.Stream.{binary}
use backuwup.Client.Net.Requests.{
  P2PConnectionRequest, P2PConnectionManager, add_request, finalize_request,
}
use backuwup.Client.Net.Connections.{
  Listening, Dialing, io_error, sock_conn, sock_conn_loop, request_message, accept_and_connect,
  accept_and_listen,
}
use backuwup.Client.Net.Connections.Handshake.{
  accept_and_listen-accept_and_connect, accept_and_listen-guarded, IsSigned,
}

abbrev no_requests : P2PConnectionManager lasting
no_requests = record { requests = []; entropy = some 55 ∷ [] }

-- The second attempt to connect works.
abbrev dialing : Dialing lasting
dialing = record {
  manager = (add_request 8 transport no_requests).1;
  attempts = io_error ∷ [];
  sending = ok tt;
  sent = [];
}

abbrev backup_request : P2PConnectionRequest
backup_request = record { session_nonce = 55; purpose = transport }

abbrev message : Bytes
message = 3 ∷ 0 ∷ 55 ∷ 0 ∷ 3 ∷ []

abbrev row : PeerInfo
row = record {
  bytes_transmitted = 0;
  bytes_received = 0;
  bytes_negotiated = 8;
  first_seen = 1;
  last_seen = 1;
}

abbrev listening : Listening
listening = record {
  config = record { peers = (3, row) ∷ []; settings = no_settings; log = []; now = 9; faults = [] };
  confirmed = [];
  listen = ok tt;
  confirm = ok tt;
  accept = ok tt;
  first = some (binary message);
}

abbrev incoming : IncomingP2PConnection
incoming = record { source_client_id = 3; session_nonce = 55 }

adds : (add_request 8 transport no_requests).0 ≡ ok 55
unfolding add_request
adds = refl

connects :
    accept_and_connect plain 3 8 dialing
    ≡ (ok backup_request, (accept_and_connect plain 3 8 dialing).1)
unfolding accept_and_connect request_message sock_conn sock_conn_loop add_request finalize_request
    lookup insert
connects = refl

sends : (accept_and_connect plain 3 8 dialing).1.sent ≡ message ∷ []
unfolding accept_and_connect request_message sock_conn sock_conn_loop add_request finalize_request
    lookup insert
sends = refl

knows : (get_peer_info 3 listening.config).0 ≡ ok (some row)
unfolding get_peer_info transaction call committing lookup get_peer_row
knows = refl

accept_and_listen-accept_and_connect_example :
    (backup_request ≡ record { session_nonce = 55; purpose = transport })
    × ((accept_and_listen plain incoming listening).0 ≡ ok (some transport))
accept_and_listen-accept_and_connect_example =
    accept_and_listen-accept_and_connect plain plain-IsLawful plain_request 3 lasting-IsDelayMap 8
      transport no_requests 55 dialing (accept_and_connect plain 3 8 dialing).1 backup_request
      listening row message adds refl refl connects sends knows refl refl refl refl

accept_and_listen-guarded_example :
    ((purpose : RequestType)
      → (accept_and_listen plain incoming listening).0 ≡ ok (some purpose)
      → (p : PeerInfo) × ((get_peer_info 3 listening.config).0 ≡ ok (some p))
        × (b : Bytes) × (listening.first ≡ some (binary b))
        × IsSigned plain incoming purpose b
        × ((accept_and_listen plain incoming listening).1.confirmed ≡ 3 ∷ []))
    × ((get_peer_info 3 listening.config).0 ≡ ok none
        → ((accept_and_listen plain incoming listening).0 ≡ ok none)
          × ((accept_and_listen plain incoming listening).1.confirmed ≡ []))
accept_and_listen-guarded_example = accept_and_listen-guarded plain incoming listening
