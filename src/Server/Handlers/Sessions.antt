-- ===== src/Server/Handlers/Sessions.antt =====
-- Where the server's sessions come from (client_auth_manager.rs, handlers/login.rs).
use backuwup.Prelude.{
  ℕ, ◌≡◌, refl, sym, ◌∙◌, subst, ◌⊎◌, inl, inr, none, some, Result, ok, length, arith, ◌==◌,
  Result-cases, Bool-cases,
}
use backuwup.Shared.{
  ClientId, ChallengeNonce, ChallengeResponse, SessionToken, ServerMessage, client_login_token,
  challenge_response_length,
}
use backuwup.DelayMap.{DelayMap, IsDelayMap}
use backuwup.Server.Error.{Stop}
use backuwup.Server.SumQueue.{SumQueue}
use backuwup.Server.Connections.{Wire}
use backuwup.Server.Auth.{Crypto, check_signature, challenge_verify, session_start, get_session}
use backuwup.Server.Auth.Laws.{
  sessions-challenge_begin, sessions-challenge_verify, challenge_verify-ok, session_start-session,
}
use backuwup.Server.Matching.{Request}
use backuwup.Server.Handlers.{
  Server, Call, logins_complete, registers_begin, registers_complete, logins_begin, handle,
  register_begin, register_complete, login_begin, login_complete, backup_done, backup_restore,
  p2p_connection_begin, p2p_connection_confirm, make_backup_request, answer, handler,
  connection_dropped,
}

module _ {W : Wire} {Q : SumQueue Request} {D : DelayMap ℕ} (C : Crypto) where
  -- The client `c` answers the challenge that the state holds for it, with its key.
  pub data Proves (s : Server W Q D) (c : ClientId) (call : Call W) : Type 0 where
    proves :
        (nonce : ChallengeNonce) (response : ChallengeResponse)
        → call ≡ logins_complete c response
        → length response ≡ challenge_response_length
        → D.get s.auth.challenges c ≡ some nonce
        → check_signature C c nonce response ≡ ok tt
        → Proves s c call

  module _ (lawful : IsDelayMap D) (t : SessionToken) (c : ClientId) where
    -- A login of `c` that answers with the token `t`, if it answers.
    abbrev Logs : Server W Q D → ClientId → ChallengeResponse → Type 0
    Logs s client response =
        Proves s c (logins_complete client response)
        × ((message : ServerMessage)
            → (login_complete C client response s).0 ≡ ok message
            → message ≡ client_login_token t)

    accepted-session :
        (client : ClientId) (response : ChallengeResponse) (s : Server W Q D)
        → (challenge_verify C client response s.auth).0 ≡ ok tt
        → length response ≡ challenge_response_length
        → get_session t (login_complete C client response s).1.auth ≡ some c
        → (get_session t s.auth ≡ some c) ⊎ Logs s client response
    unfolding login_complete get_session
    accepted-session client response s e l h =
        let (nonce, got, checked, _) = challenge_verify-ok C client response s.auth e in
        let started : get_session t
              (session_start client (challenge_verify C client response s.auth).1).1
            ≡ some c =
          ground arith in
        elim (session_start-session lawful client c t _ started) [
          | inl p ↦ inl (ground (arith, sessions-challenge_verify C client response s.auth))
          | inr (p, issued) ↦ inr (
            subst (λ k. Proves s k (logins_complete client response)) p
                (proves nonce response refl l got checked),
            λ message m. ground arith,
          )
        ]

    login_complete-session :
        (client : ClientId) (response : ChallengeResponse) (s : Server W Q D)
        → get_session t (login_complete C client response s).1.auth ≡ some c
        → (get_session t s.auth ≡ some c) ⊎ Logs s client response
    unfolding login_complete get_session
    login_complete-session client response s h =
        elim (Result-cases (challenge_verify C client response s.auth).0) [
          | inl (tt, e) ↦ elim (Bool-cases (length response == challenge_response_length)) [
            | inl l ↦ accepted-session client response s e (ground arith) h
            | inr l ↦ inl (ground arith)
          ]
          | inr (_, e) ↦ inl (ground (arith, sessions-challenge_verify C client response s.auth))
        ]

    handle-Issues :
        (call : Call W) (s s' : Server W Q D) (r : Result Stop ServerMessage)
        → handle C call s ≡ some (r, s')
        → get_session t s'.auth ≡ some c
        → (get_session t s.auth ≡ some c)
          ⊎ (Proves s c call
              × ((message : ServerMessage) → r ≡ ok message → message ≡ client_login_token t))
    unfolding handle register_begin register_complete login_begin backup_done backup_restore
        p2p_connection_begin p2p_connection_confirm make_backup_request answer handler
        connection_dropped get_session
    handle-Issues (logins_complete client response) s s' r e h =
        elim (login_complete-session client response s (ground arith)) [
          | inl old ↦ inl old
          | inr (proof, tells) ↦ inr (proof, λ message m. tells message (ground arith))
        ]
    handle-Issues (registers_begin client) s s' r e h =
        ground (arith, sessions-challenge_begin client s.auth)
    handle-Issues (logins_begin client) s s' r e h =
        ground (arith, sessions-challenge_begin client s.auth)
    handle-Issues (registers_complete client response) s s' r e h =
        ground (arith, sessions-challenge_verify C client response s.auth)
    handle-Issues _ s s' r e h = ground arith

    -- Whatever the call, a session that it did not find there is that of a client which just
    -- answered its challenge.
    pub handle-session :
        (call : Call W) (s s' : Server W Q D) (r : Result Stop ServerMessage)
        → handle C call s ≡ some (r, s')
        → get_session t s'.auth ≡ some c
        → (get_session t s.auth ≡ some c) ⊎ Proves s c call
    handle-session call s s' r e h = elim (handle-Issues call s s' r e h) [
      | inl old ↦ inl old
      | inr (proof, tells) ↦ inr proof
    ]

  -- The states of the server from a start on, with time that passes between the calls.
  pub data Reach (start : Server W Q D) : Server W Q D → Type 0 where
    here : Reach start start
    call :
        {s s' : Server W Q D} (c : Call W) (r : Result Stop ServerMessage)
        → Reach start s
        → handle C c s ≡ some (r, s')
        → Reach start s'
    time_passes :
        {s : Server W Q D}
        → Reach start s
        → Reach start (record s {
          auth = record s.auth {
            challenges = D.elapse s.auth.challenges;
            sessions = D.elapse s.auth.sessions;
          };
        })

  -- One of the calls of the run is a login in which the client `c` signed the nonce that the server
  -- held for it then, and behind it the token `t` is valid for `c`; what that login answered, unless it failed at the database, is `t`.
  pub data Authenticated {start : Server W Q D} (t : SessionToken) (c : ClientId)
      : (s : Server W Q D) → Reach start s → Type 0 where
    now :
        {s s' : Server W Q D} {k : Call W} {r : Result Stop ServerMessage} {reach : Reach start s}
        {e : handle C k s ≡ some (r, s')}
        → Proves s c k
        → get_session t s'.auth ≡ some c
        → ((message : ServerMessage) → r ≡ ok message → message ≡ client_login_token t)
        → Authenticated t c s' (call k r reach e)
    earlier :
        {s s' : Server W Q D} {k : Call W} {r : Result Stop ServerMessage} {reach : Reach start s}
        {e : handle C k s ≡ some (r, s')}
        → Authenticated t c s reach
        → Authenticated t c s' (call k r reach e)
    earlier_than_wait :
        {s : Server W Q D} {reach : Reach start s}
        → Authenticated t c s reach
        → Authenticated t c _ (time_passes reach)

  module _ (lawful : IsDelayMap D) (start : Server W Q D) where
    -- A token that is valid for a client, after any calls and waits of a server that had no sessions,
    -- goes back to one of those calls: a login by which the token became valid for that client, whose
    -- response is a signature, by that client's key, of the nonce that the server held for it, and
    -- which answered with that token, unless the database failed behind it.
    pub session-Authenticated :
        (none_at_start : (t : SessionToken) → get_session t start.auth ≡ none) (s : Server W Q D)
        (t : SessionToken) (c : ClientId) (reach : Reach start s)
        → get_session t s.auth ≡ some c
        → Authenticated t c s reach
    unfolding get_session
    session-Authenticated fresh s t c here h = absurd (ground (arith, fresh t))
    session-Authenticated fresh s t c (call {s = before} k r reach e) h =
        elim (handle-Issues lawful t c k before s r e h) [
          | inl old ↦ earlier (session-Authenticated fresh before t c reach old)
          | inr (proof, tells) ↦ now proof h tells
        ]
    session-Authenticated fresh s t c (time_passes {s = before} reach) h =
        elim (lawful.get-elapse before.auth.sessions t) [
          | inl gone ↦ absurd (ground arith)
          | inr kept ↦
              earlier_than_wait (session-Authenticated fresh before t c reach (sym kept ∙ h))
        ]
