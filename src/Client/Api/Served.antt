-- ===== src/Client/Api/Served.antt =====
-- A client before the server that the other half models: client/src/identity.rs with
-- server/src/handlers.
use backuwup.Prelude.{
  ℕ, ◌≡◌, refl, true, List, [], ◌∷◌, Option, none, some, Result, ok, err, arith, length, ==_refl,
  map,
}
use backuwup.Shared.{
  ClientId, SessionToken, ServerMessage, client_login_challenge, client_login_token, Reply,
  challenge_response_length,
}
use backuwup.DelayMap.{DelayMap, IsDelayMap}
use backuwup.Server.Error.{Stop, panic, as_response}
use backuwup.Server.SumQueue.{SumQueue}
use backuwup.Server.Connections.{Wire}
use backuwup.Server.Database.{client_exists, client_update_logged_in, execute, is_client, logged_in}
use backuwup.Server.Auth.{
  Crypto, check_signature, challenge_begin, challenge_verify, session_start, get_session,
}
use backuwup.Server.Matching.{Request}
use backuwup.Server.Handlers
use backuwup.Server.Handlers.{Server, Call, logins_begin, logins_complete, handle}
use backuwup.Client.Config.{Failure, io}
use backuwup.Client.Tables.Laws.{with_token, save_auth_token-works}
use backuwup.Client.Api.{Signer, Api, send, login_begin, login_complete, login}

module _ {W : Wire} {Q : SumQueue Request} {D : DelayMap ℕ} (C : Crypto) where
  served :
      Server W Q D
      → Option (Result Stop ServerMessage × Server W Q D)
      → Result Failure Reply × Server W Q D
  served s none = (err io, s)
  served s (some (ok m, s')) = (ok (Reply.message m), s')
  served s (some (err (Stop.error e), s')) = (ok (Reply.error (as_response e)), s')
  served s (some (err panic, s')) = (err io, s')

  -- The reply of the server over a network that works; a panic closes the connection.
  unfoldable pub serve : Call W → Server W Q D → Result Failure Reply × Server W Q D
  unfolding served
  serve call s = served s (handle C call s)

  module _ (lawful : IsDelayMap D) (client : ClientId) (s : Server W Q D) where
    abbrev challenged : ℕ → List (Option ℕ) → Server W Q D
    challenged n rest = record s {
      auth = record s.auth { challenges = D.insert s.auth.challenges client n; entropy = rest };
    }

    serve-logins_begin :
        (n : ℕ) (rest : List (Option ℕ))
        → s.globals.db.faults ≡ []
        → is_client client s.globals.db.clients ≡ true
        → s.auth.entropy ≡ some n ∷ rest
        → serve (logins_begin client) s
          ≡ (ok (Reply.message (client_login_challenge n)), challenged n rest)
    unfolding serve handle Handlers.login_begin client_exists execute challenge_begin
    serve-logins_begin n rest works known random = ground arith

    -- The client has answered the challenge, and has a session.
    abbrev authenticated : ℕ → SessionToken → List (Option ℕ) → Server W Q D
    authenticated n token rest = record s {
      globals = record s.globals {
        db = record s.globals.db {
          clients = map (logged_in client s.globals.db.now) s.globals.db.clients;
        };
      };
      auth = record {
        challenges = D.remove (D.insert s.auth.challenges client n) client;
        sessions = D.insert s.auth.sessions token client;
        entropy = rest;
      };
    }

    serve-logins_complete :
        (n : ℕ) (token : SessionToken) (response : List ℕ) (rest : List (Option ℕ))
        → s.globals.db.faults ≡ []
        → length response ≡ challenge_response_length
        → check_signature C client n response ≡ ok tt
        → serve (logins_complete client response) (challenged n (some token ∷ rest))
          ≡ (ok (Reply.message (client_login_token token)), authenticated n token rest)
    unfolding serve handle Handlers.login_complete challenge_verify session_start
        client_update_logged_in execute
    serve-logins_complete n token response rest works long signed =
        let found : D.get (D.insert s.auth.challenges client n) client ≡ some n =
          ground (arith, lawful.get-insert s.auth.challenges client client n, ==_refl client) in
        ground arith

  -- A registered client logs in: if the server has two more random numbers, `n` and then `token`, and
  -- accepts the client's signature of `n`, and both databases work, then `login` succeeds, the
  -- client stores `token`, and the server takes requests with `token` for requests of that client.
  pub login-served :
      IsDelayMap D
      → (keys : Signer) (a : Api (Server W Q D)) (n : ℕ) (token : SessionToken)
        (rest : List (Option ℕ))
      → a.config.faults ≡ []
      → a.server.globals.db.faults ≡ []
      → is_client keys.pubkey a.server.globals.db.clients ≡ true
      → a.server.auth.entropy ≡ some n ∷ some token ∷ rest
      → length (keys.sign n) ≡ challenge_response_length
      → check_signature C keys.pubkey n (keys.sign n) ≡ ok tt
      → ((login serve keys a).0 ≡ ok tt)
        × ((login serve keys a).1.config.settings.auth_token ≡ some token)
        × (get_session token (login serve keys a).1.server.auth ≡ some keys.pubkey)
  unfolding login login_begin login_complete send get_session
  login-served lawful keys a n token rest stores works known random long signed =
      let s : Server W Q D = a.server in
      let begun =
        serve-logins_begin lawful keys.pubkey s n (some token ∷ rest) works known random in
      let completed =
        serve-logins_complete lawful keys.pubkey s n token (keys.sign n) rest works long signed in
      let saved = save_auth_token-works token a.config stores in
      let found = lawful.get-insert s.auth.sessions token token keys.pubkey in
      let outcome : login serve keys a ≡ (
        ok tt,
        record {
          config = with_token (some token) a.config;
          server = authenticated lawful keys.pubkey s n token rest;
        },
      ) =
        rw begun (rw completed (rw saved refl)) in
      rw outcome (refl, refl, ground (arith, found, ==_refl token))
