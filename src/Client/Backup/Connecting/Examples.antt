-- ===== src/Client/Backup/Connecting/Examples.antt =====
-- The theorems about storage requests and connections at a client with two peers.
use backuwup.Prelude.{ℕ, ◌-◌, ◌≡◌, ◌≢◌, ◌<◌, refl, [], ◌∷◌, some, ok, arith, min, true, inl}
use backuwup.Prelude.Dict.{lookup}
use backuwup.Client.Config.{PeerInfo, no_settings, call, transaction}
use backuwup.Client.Defaults.{storage_request_cap, storage_request_step}
use backuwup.Client.Tables.Listing.{
  filter, ordered, has_storage, has_more_storage, select_peers_with_storage,
  find_peers_with_storage,
}
use backuwup.Client.Tables.Listing.Order.{Row, IsAmong}
use backuwup.Client.Net.LastingMap.{lasting}
use backuwup.Client.Net.Stream.{BackupTransportManager, new_transport}
use backuwup.Client.Backup.Orchestrator.{
  BackupOrchestrator, default, update_storage_request_last_sent,
}
use backuwup.Client.Backup.Connecting.{
  Desk, estimate_storage_request_size, backup_storage_request, send_storage_request_if_needed,
  get_peer_connection,
}
use backuwup.Client.Backup.Connecting.Requests.{
  estimate_storage_request_size-Sizes, send_storage_request_if_needed-again,
}
use backuwup.Client.Backup.Connecting.Sessions.{session_of, get_peer_connection-best}

abbrev peer : ℕ → PeerInfo
peer negotiated = record {
  bytes_transmitted = 10;
  bytes_received = 0;
  bytes_negotiated = negotiated;
  first_seen = 1;
  last_seen = 1;
}

abbrev estimated : BackupOrchestrator
estimated = record (default 0) {
  active_transport_sessions = (3, new_transport 55 []) ∷ (4, new_transport 56 []) ∷ [];
  size_estimate = 900;
  storage_requests_fulfilled_size = 200;
}

estimate_storage_request_size-Sizes_example :
    (200 < 900 → estimate_storage_request_size estimated ≡ min (900 - 200) storage_request_cap)
    × (◌≡◌ {A = ℕ} 200 900 → estimate_storage_request_size estimated ≡ storage_request_step)
    × (900 < 200 → estimate_storage_request_size estimated ≡ storage_request_cap)
estimate_storage_request_size-Sizes_example =
    estimate_storage_request_size-Sizes estimated (omega arith) (omega arith)

abbrev desk : Desk lasting
desk = record {
  shared = record {
    orchestrator = estimated;
    config = record {
      peers = (3, peer 500) ∷ (4, peer 800) ∷ [];
      settings = no_settings;
      log = [];
      now = 100;
      faults = [];
    };
    requests = record { requests = []; entropy = some 57 ∷ [] };
    clock = 100;
  };
  begun = [];
  accepted = ok tt ∷ [];
  meanwhile = [];
  requested = [];
}

abbrev later : Desk lasting
later = record desk {
  shared = record desk.shared {
    orchestrator = record estimated { storage_request_last_sent = 100 };
    clock = 108;
  };
}

requests_fine : (send_storage_request_if_needed desk).0 ≡ ok tt
unfolding send_storage_request_if_needed backup_storage_request
requests_fine = refl

requests_once : (send_storage_request_if_needed desk).1.requested ≢ []
unfolding send_storage_request_if_needed backup_storage_request
requests_once e = cc

send_storage_request_if_needed-again_example : send_storage_request_if_needed later ≡ (ok tt, later)
unfolding send_storage_request_if_needed backup_storage_request update_storage_request_last_sent
send_storage_request_if_needed-again_example =
    send_storage_request_if_needed-again desk later requests_fine requests_once refl (omega arith)
      (omega arith)

finds : (find_peers_with_storage desk.shared.config).0 ≡ ok (4 ∷ 3 ∷ [])
unfolding find_peers_with_storage select_peers_with_storage transaction call filter ordered
    has_storage has_more_storage
finds = refl

get_peer_connection-best_example :
    (best : Row) × (t : BackupTransportManager) × ((get_peer_connection desk).0 ≡ ok (best.0, t))
    × (session_of best.0 desk ≡ some t)
    × IsAmong best desk.shared.config.peers
    × (has_storage best ≡ true)
    × (has_more_storage best (3, peer 500) ≡ true)
    × ((get_peer_connection desk).1.requested ≡ [])
unfolding has_storage lookup
get_peer_connection-best_example =
    get_peer_connection-best desk (4 ∷ 3 ∷ []) (3, peer 500) (new_transport 55 []) finds (inl refl)
      refl refl
