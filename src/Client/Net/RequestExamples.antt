-- ===== src/Client/Net/RequestExamples.antt =====
-- The theorem on connection requests (client/src/net_p2p/p2p_connection_manager.rs) at a concrete input:
-- one request, in a map whose entries never expire.
use backuwup.Prelude.{◌≡◌, refl, [], ◌∷◌, some, ok, err}
use backuwup.Client.Net.LastingMap.{lasting, lasting-IsDelayMap}
use backuwup.Client.Peers.{refused}
use backuwup.Client.Net.Transport.{transport}
use backuwup.Client.Net.Requests.{
  P2PConnectionManager, add_request, finalize_request, finalize_request-add_request,
}

abbrev no_requests : P2PConnectionManager lasting
no_requests = record { requests = []; entropy = some 55 ∷ [] }

adds : (add_request 3 transport no_requests).0 ≡ ok 55
unfolding add_request
adds = refl

finalize_request-add_request_example :
    ((finalize_request 3 (add_request 3 transport no_requests).1).0
      ≡ ok (record { session_nonce = 55; purpose = transport }))
    × ((finalize_request 3 (finalize_request 3 (add_request 3 transport no_requests).1).1).0
        ≡ err refused)
finalize_request-add_request_example =
    finalize_request-add_request lasting-IsDelayMap 3 transport no_requests 55 adds
