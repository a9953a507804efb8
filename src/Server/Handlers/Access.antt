-- ===== src/Server/Handlers/Access.antt =====
-- What the endpoints refuse (server/src/handlers), and challenges that are used once.
use backuwup.Prelude.{
  ◌≢◌, ◌∙◌, inl, inr, Bool, false, Result, ◌==◌, ==_iff, ℕ, ◌≡◌, refl, Option, none, some, ok, err,
  arith, length, ==_refl,
}
use Prim.Native.String.{String}
use backuwup.Shared.{
  ClientId, BlobHash, ChallengeResponse, SessionToken, TransportSessionNonce, ServerMessage,
  challenge_response_length,
}
use backuwup.DelayMap.{DelayMap, IsDelayMap}
use backuwup.Server.Error.{Error, error, Stop}
use backuwup.Server.SumQueue.{SumQueue}
use backuwup.Server.Connections.{Wire}
use backuwup.Server.Auth.{Crypto, challenge_verify, get_session}
use backuwup.Server.Auth.Laws.{
  challenge_verify-ok, challenges-session_start, challenge_begin-none, challenge_verify-none,
}
use backuwup.Server.Matching.{Request}
use backuwup.Server.Handlers.{
  Server, Call, requests_storage, reports_backup, asks_restore, begins_p2p, confirms_p2p, connects,
  handle, backup_done, backup_restore, p2p_connection_begin, p2p_connection_confirm,
  make_backup_request, handler, login_complete, registers_begin, logins_begin, registers_complete,
  logins_complete, register_begin, register_complete, login_begin, answer, connection_dropped,
}

-- The calls that need a session, and its token where they carry one.
pub data Needs {W : Wire} : Call W → Option SessionToken → Type 0 where
  storage : (t : SessionToken) (n : ℕ) → Needs (requests_storage t n) (some t)
  backup : (t : SessionToken) (hash : BlobHash) → Needs (reports_backup t hash) (some t)
  restore : (t : SessionToken) → Needs (asks_restore t) (some t)
  begin_p2p :
      (t : SessionToken) (c : ClientId) (nonce : TransportSessionNonce)
      → Needs (begins_p2p t c nonce) (some t)
  confirm_p2p :
      (t : SessionToken) (c : ClientId) (address : String)
      → Needs (confirms_p2p t c address) (some t)
  socket : (t : Option SessionToken) (connection : W.Sink) → Needs (connects t connection) t

-- Whether a call begins a challenge for the client.
abbrev pub begins_for : {W : Wire} → ClientId → Call W → Bool
begins_for client (registers_begin c) = c == client
begins_for client (logins_begin c) = c == client
begins_for client _ = false

module _ {W : Wire} {Q : SumQueue Request} {D : DelayMap ℕ} (C : Crypto) where
  -- The token is absent, or belongs to no session.
  pub data NoSession (s : Server W Q D) : Option SessionToken → Type 0 where
    no_token : NoSession s none
    unknown : (t : SessionToken) → get_session t s.auth ≡ none → NoSession s (some t)

  -- Without a session, each of the six endpoints that need one answers 401 and changes nothing.
  pub handle-Needs :
      (call : Call W) (token : Option SessionToken) (s : Server W Q D)
      → Needs call token
      → NoSession s token
      → handle C call s ≡ some (err (error Error.unauthorized), s)
  unfolding handle backup_done backup_restore p2p_connection_begin p2p_connection_confirm
      make_backup_request handler
  handle-Needs call token s (storage t n) (unknown u e) = ground arith
  handle-Needs call token s (backup t hash) (unknown u e) = ground arith
  handle-Needs call token s (restore t) (unknown u e) = ground arith
  handle-Needs call token s (begin_p2p t c nonce) (unknown u e) = ground arith
  handle-Needs call token s (confirm_p2p t c address) (unknown u e) = ground arith
  handle-Needs call token s (socket t connection) no_token = refl
  handle-Needs call token s (socket t connection) (unknown u e) = ground arith

  login_complete-no_challenge :
      (client : ClientId) (response : ChallengeResponse) (s : Server W Q D)
      → D.get s.auth.challenges client ≡ none
      → length response ≡ challenge_response_length
      → login_complete C client response s ≡ (err Error.challenge_not_found, s)
  unfolding login_complete challenge_verify
  login_complete-no_challenge client response s e l = ground arith

  module _ (lawful : IsDelayMap D) (client : ClientId) (response : ChallengeResponse) where
    no_challenge_after :
        (s : Server W Q D)
        → (challenge_verify C client response s.auth).0 ≡ ok tt
        → D.get (challenge_verify C client response s.auth).1.challenges client ≡ none
    no_challenge_after s e =
        let (nonce, got, checked, after) = challenge_verify-ok C client response s.auth e in
        rw (after, lawful.get-remove s.auth.challenges client client, ==_refl client)

    no_challenge_after_login :
        (s : Server W Q D) (message : ServerMessage)
        → (login_complete C client response s).0 ≡ ok message
        → D.get (login_complete C client response s).1.auth.challenges client ≡ none
    unfolding login_complete
    no_challenge_after_login s message h = ground (
      arith,
      no_challenge_after s,
      challenges-session_start client (challenge_verify C client response s.auth).1,
    )

  -- What the server does from a state on until it begins a challenge for the client: calls of any
  -- clients, and time that passes.
  pub data Quiet (client : ClientId) (start : Server W Q D) : Server W Q D → Type 0 where
    here : Quiet client start start
    call :
        {s s' : Server W Q D} (k : Call W) (r : Result Stop ServerMessage)
        → Quiet client start s
        → begins_for client k ≡ false
        → handle C k s ≡ some (r, s')
        → Quiet client start s'
    time_passes :
        {s : Server W Q D}
        → Quiet client start s
        → Quiet client start (record s {
          auth = record s.auth {
            challenges = D.elapse s.auth.challenges;
            sessions = D.elapse s.auth.sessions;
          };
        })

  module _ (lawful : IsDelayMap D) (client : ClientId) where
    abbrev HasNone : Server W Q D → Type 0
    HasNone s = D.get s.auth.challenges client ≡ none

    handle-HasNone :
        (k : Call W) (s s' : Server W Q D) (r : Result Stop ServerMessage)
        → HasNone s
        → begins_for client k ≡ false
        → handle C k s ≡ some (r, s')
        → HasNone s'
    unfolding handle register_begin register_complete login_begin login_complete backup_done
        backup_restore p2p_connection_begin p2p_connection_confirm make_backup_request answer
        handler connection_dropped
    handle-HasNone (logins_complete c response) s s' r n b e = ground (
      arith,
      challenge_verify-none lawful C c client response s.auth n,
      challenges-session_start c (challenge_verify C c response s.auth).1,
    )
    handle-HasNone (registers_complete c response) s s' r n b e =
        ground (arith, challenge_verify-none lawful C c client response s.auth n)
    handle-HasNone (registers_begin c) s s' r n b e =
        ground (arith, challenge_begin-none lawful c client s.auth n b)
    handle-HasNone (logins_begin c) s s' r n b e =
        ground (arith, challenge_begin-none lawful c client s.auth n b)
    handle-HasNone _ s s' r n b e = ground arith

    Quiet-HasNone : {s t : Server W Q D} → Quiet client s t → HasNone s → HasNone t
    Quiet-HasNone here n = n
    Quiet-HasNone (call {s = before} k r q b e) n =
        handle-HasNone k before _ r (Quiet-HasNone q n) b e
    Quiet-HasNone (time_passes {s = before} q) n =
        let none_before = Quiet-HasNone q n in
        elim (lawful.get-elapse before.auth.challenges client) [
          | inl gone ↦ gone
          | inr kept ↦ kept ∙ none_before
        ]

    -- A challenge is answered once: after a login that succeeded, and whatever calls and waits follow
    -- until a new challenge begins for that client, every further response of the client, the same or
    -- another, is refused and changes nothing: with `ChallengeNotFound` if it has the length of a
    -- response, and with `BadRequest` if not.
    pub login_complete-again :
        (response again : ChallengeResponse) (s t : Server W Q D) (message : ServerMessage)
        → (login_complete C client response s).0 ≡ ok message
        → Quiet client (login_complete C client response s).1 t
        → (length again ≡ challenge_response_length
            → login_complete C client again t ≡ (err Error.challenge_not_found, t))
          × (length again ≢ challenge_response_length
              → login_complete C client again t ≡ (err Error.bad_request, t))
    unfolding login_complete
    login_complete-again response again s t message h q = (
      login_complete-no_challenge client again t
          (Quiet-HasNone q (no_challenge_after_login lawful client response s message h)),
      λ n. ground (arith, ==_iff (length again) challenge_response_length),
    )
