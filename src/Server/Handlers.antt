-- ===== src/Server/Handlers.antt =====
-- server/src/handlers: the HTTP endpoints, and the upgrade of a WebSocket (server/src/ws.rs), over the
-- server's global state (server/src/main.rs). Each runs here with no other between its steps.
pub mod Sessions
pub mod Access
mod Examples
use Prim.Native.String.{String, len}
use backuwup.Prelude.{
  ℕ, Bool, true, false, not, Option, none, some, Result, ok, err, Exec, Done, length, ltb, ◌==◌,
  pure, raise, lift, ok_or, ◌>>=◌, ◌>>◌,
}
use backuwup.Shared.{
  ClientId, BlobHash, ChallengeResponse, SessionToken, TransportSessionNonce, ServerMessageWs,
  incoming_p2p_connection, finalize_p2p_connection, ServerMessage, done,
  client_registration_challenge, client_login_challenge, client_login_token, backup_restore_info,
  challenge_response_length,
}
use backuwup.DelayMap.{DelayMap}
use backuwup.Server.Error.{Error, Stop, error}
use backuwup.Server.SumQueue.{SumQueue}
use backuwup.Server.Connections.{Wire, notify_client, new_connection, remove_connection}
use backuwup.Server.Database.{
  Database, client_exists, register_client, client_update_logged_in, save_snapshot,
  get_latest_client_snapshot, get_client_negotiated_peers,
}
use backuwup.Server.Auth.{
  Crypto, ClientAuthManager, challenge_begin, challenge_verify, session_start, get_session,
}
use backuwup.Server.Matching.{Request, Globals, fulfill}

pub record Server (W : Wire) (Q : SumQueue Request) (D : DelayMap ℕ) : Type 0 where
  pub globals : Globals W Q
  pub auth : ClientAuthManager D

-- A request to an endpoint, with the fields of its JSON body; a WebSocket that opens, with the
-- token of its header where there is one that decodes, and one that closes.
pub data Call (W : Wire) : Type 0 where
  registers_begin logins_begin : ClientId → Call W
  registers_complete logins_complete : ClientId → ChallengeResponse → Call W
  requests_storage : SessionToken → ℕ → Call W
  reports_backup : SessionToken → BlobHash → Call W
  asks_restore : SessionToken → Call W
  begins_p2p : SessionToken → ClientId → TransportSessionNonce → Call W
  confirms_p2p : SessionToken → ClientId → String → Call W
  connects : Option SessionToken → W.Sink → Call W
  disconnects : ClientId → Call W

module _ {W : Wire} {Q : SumQueue Request} {D : DelayMap ℕ} where
  -- The methods of the database, the authentication manager and the connections, as steps of the
  -- server's state.
  abbrev pub on_db : {A : Type 0} → Exec Database Error A → Exec (Server W Q D) Error A
  on_db m s =
      let (r, db) = m s.globals.db in (r, record s { globals = record s.globals { db = db } })

  abbrev pub on_auth :
      {A : Type 0} → Exec (ClientAuthManager D) Error A → Exec (Server W Q D) Error A
  on_auth m s = let (r, a) = m s.auth in (r, record s { auth = a })

  abbrev pub notify : ClientId → ServerMessageWs → Exec (Server W Q D) Error Done
  notify client_id message s =
      let (r, c) = notify_client W client_id message s.globals.connections in
      (r, record s { globals = record s.globals { connections = c } })

  -- `get_session(token).ok_or(Error::Unauthorized)?`
  abbrev pub session_of : SessionToken → Exec (Server W Q D) Error ClientId
  session_of token s = (ok_or (get_session token s.auth) Error.unauthorized, s)

  -- `if b { return Err(e) }`
  abbrev pub fail_if : Bool → Error → Exec (Server W Q D) Error Done
  fail_if true e = raise e
  fail_if false e = pure tt

  -- register.rs
  unfoldable pub register_begin : ClientId → Exec (Server W Q D) Error ServerMessage
  register_begin client_id = do
    exists ← on_db (client_exists client_id)
    fail_if exists (Error.client_exists client_id)
    server_challenge ← on_auth (challenge_begin client_id)
    pure (client_registration_challenge server_challenge)

  unfoldable pub register_complete :
      Crypto → ClientId → ChallengeResponse → Exec (Server W Q D) Error ServerMessage
  register_complete C client_id response = do
    fail_if (not (length response == challenge_response_length)) Error.bad_request
    on_auth (challenge_verify C client_id response)
    on_db (register_client client_id)
    pure done

  -- login.rs
  unfoldable pub login_begin : ClientId → Exec (Server W Q D) Error ServerMessage
  login_begin client_id = do
    exists ← on_db (client_exists client_id)
    fail_if (not exists) (Error.client_not_found client_id)
    server_challenge ← on_auth (challenge_begin client_id)
    pure (client_login_challenge server_challenge)

  unfoldable pub login_complete :
      Crypto → ClientId → ChallengeResponse → Exec (Server W Q D) Error ServerMessage
  login_complete C client_id response = do
    fail_if (not (length response == challenge_response_length)) Error.bad_request
    on_auth (challenge_verify C client_id response)
    token ← on_auth (session_start client_id)
    on_db (client_update_logged_in client_id)
    pure (client_login_token token)

  -- backup.rs
  unfoldable pub backup_done : SessionToken → BlobHash → Exec (Server W Q D) Error ServerMessage
  backup_done token snapshot_hash = do
    source_client_id ← session_of token
    on_db (save_snapshot source_client_id snapshot_hash)
    pure done

  unfoldable pub backup_restore : SessionToken → Exec (Server W Q D) Error ServerMessage
  backup_restore token = do
    source_client_id ← session_of token
    found ← on_db (get_latest_client_snapshot source_client_id)
    snapshot_hash ← lift (ok_or found Error.no_backups_available)
    peers ← on_db (get_client_negotiated_peers source_client_id)
    pure (backup_restore_info (record { snapshot_hash = snapshot_hash; peers = peers }))

  -- p2p_connection_request.rs
  unfoldable pub p2p_connection_begin :
      SessionToken → ClientId → TransportSessionNonce → Exec (Server W Q D) Error ServerMessage
  p2p_connection_begin token destination_client_id session_nonce = do
    source_client_id ← session_of token
    exists ← on_db (client_exists destination_client_id)
    fail_if (not exists) (Error.client_not_found destination_client_id)
    notify destination_client_id (
        incoming_p2p_connection
          (record { source_client_id = source_client_id; session_nonce = session_nonce }))
    pure done

  unfoldable pub p2p_connection_confirm :
      SessionToken → ClientId → String → Exec (Server W Q D) Error ServerMessage
  p2p_connection_confirm token source_client_id destination_ip_address = do
    destination_client_id ← session_of token
    fail_if (ltb 64 (len destination_ip_address)) Error.bad_request
    exists ← on_db (client_exists source_client_id)
    fail_if (not exists) (Error.client_not_found source_client_id)
    notify source_client_id (
        finalize_p2p_connection (record {
          destination_client_id = destination_client_id;
          destination_ip_address = destination_ip_address;
        }))
    pure done

  -- backup_request.rs: what the handler makes of the result of `fulfill`
  unfoldable pub answer :
      Server W Q D
      → Option (Result Stop Done × Globals W Q)
      → Option (Result Stop ServerMessage × Server W Q D)
  answer s none = none
  answer s (some (ok _, g)) = some (ok done, record s { globals = g })
  answer s (some (err e, g)) = some (err e, record s { globals = g })

  unfoldable pub make_backup_request :
      SessionToken → ℕ → Server W Q D → Option (Result Stop ServerMessage × Server W Q D)
  make_backup_request token storage_required s = elim (get_session token s.auth) [
    | none ↦ some (err (error Error.unauthorized), s)
    | some client_id ↦
        answer s (
          fulfill (record { storage_required = storage_required; client_id = client_id }) s.globals)
  ]

  -- ws.rs: `handler` and the end of `incoming_listener`; an unauthorized socket is not kept.
  unfoldable pub handler : Option SessionToken → W.Sink → Exec (Server W Q D) Error ServerMessage
  handler token connection = do
    header ← lift (ok_or token Error.unauthorized)
    client_id ← session_of header
    λ s. (
      ok done,
      record s {
        globals = record s.globals {
          connections = new_connection W client_id connection s.globals.connections;
        };
      },
    )

  unfoldable pub connection_dropped : ClientId → Exec (Server W Q D) Error ServerMessage
  connection_dropped client_id s = (
    ok done,
    record s {
      globals = record s.globals {
        connections = remove_connection W client_id s.globals.connections;
      };
    },
  )

  -- A handler with no loop always answers.
  abbrev pub finish :
      Result Error ServerMessage × Server W Q D → Option (Result Stop ServerMessage × Server W Q D)
  finish (ok a, s) = some (ok a, s)
  finish (err e, s) = some (err (error e), s)

  -- The routes of `main`; `none` is no answer within the fuel of `fulfill`.
  unfoldable pub handle :
      Crypto → Call W → Server W Q D → Option (Result Stop ServerMessage × Server W Q D)
  handle C (registers_begin c) s = finish (register_begin c s)
  handle C (registers_complete c response) s = finish (register_complete C c response s)
  handle C (logins_begin c) s = finish (login_begin c s)
  handle C (logins_complete c response) s = finish (login_complete C c response s)
  handle C (requests_storage token size) s = make_backup_request token size s
  handle C (reports_backup token hash) s = finish (backup_done token hash s)
  handle C (asks_restore token) s = finish (backup_restore token s)
  handle C (begins_p2p token destination nonce) s =
      finish (p2p_connection_begin token destination nonce s)
  handle C (confirms_p2p token source address) s =
      finish (p2p_connection_confirm token source address s)
  handle C (connects token connection) s = finish (handler token connection s)
  handle C (disconnects c) s = finish (connection_dropped c s)
