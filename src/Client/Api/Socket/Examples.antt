-- ===== src/Client/Api/Socket/Examples.antt =====
-- The theorem about the WebSocket at a client whose token is one that the server has forgotten.
use backuwup.Prelude.{ℕ, ◌≡◌, refl, true, none, some, [], Result, ok, err, ◌==◌, if◌then◌else◌}
use backuwup.Shared.{SessionToken, Reply, message, client_login_challenge, client_login_token}
use backuwup.Server.Connections.{Wire}
use backuwup.Server.Handlers.{Call, logins_begin, logins_complete}
use backuwup.Client.Config.{Failure, io, no_settings, call, committing}
use backuwup.Client.Tables.Laws.{with_token}
use backuwup.Client.Tables.Settings.{save_auth_token}
use backuwup.Client.Tables.Settings.Transaction
use backuwup.Client.Api.{Signer, Api, login, login_begin, login_complete, send}
use backuwup.Client.Api.Socket.{Upgrade, accepted, unauthorized_status, opened, websocket_connect}
use backuwup.Client.Api.Socket.Reconnects.{websocket_connect-expired}

abbrev wire : Wire
wire = record { Sink = ℕ; Json = ℕ; to_string = λ m. none; send = λ s m. (true, s) }

-- The state of this server is the one token that it accepts.
abbrev answer : Call wire → SessionToken → Result Failure Reply × SessionToken
answer (logins_begin client) s = (ok (message (client_login_challenge 9)), s)
answer (logins_complete client response) s = (ok (message (client_login_token 77)), 77)
answer _ s = (err io, s)

abbrev dial : SessionToken → SessionToken → Upgrade × SessionToken
dial token s = if token == s then (accepted, s) else (unauthorized_status, s)

abbrev keys : Signer
keys = record { pubkey = 5; sign = λ nonce. [] }

abbrev client : Api SessionToken
client = record {
  config = record {
    peers = [];
    settings = record no_settings { auth_token = some 70 };
    log = [];
    now = 9;
    faults = [];
  };
  server = 76;
}

abbrev wiped : Api SessionToken
wiped = record client { config = with_token none client.config }

abbrev known : Api SessionToken
known = record { config = with_token (some 77) client.config; server = 77 }

logs_in : login answer keys wiped ≡ (ok tt, known)
unfolding login login_begin login_complete send save_auth_token Transaction.save_auth_token call
    committing
logs_in = refl

websocket_connect-expired_example : websocket_connect answer dial keys 3 client ≡ (opened 77, known)
websocket_connect-expired_example =
    websocket_connect-expired answer dial keys 0 client known 76 77 70 77 refl refl refl logs_in
      refl refl refl
