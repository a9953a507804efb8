-- ===== src/Client/Api.antt =====
-- client/src/net_server/requests.rs: the calls of the server's endpoints, with the login that they may
-- need (client/src/identity.rs). The transport and the JSON are the parameter `post`: the reply of the
-- server in a state of its own, or the failure of `reqwest`.
pub mod Retries
pub mod Served
pub mod Socket
mod Examples
use Prim.Native.String.{String}
use backuwup.Prelude.{
  ℕ, zero, suc, Bool, true, false, Option, none, some, Result, ok, err, Exec, Done, pure, raise,
  ◌>>=◌, ◌>>◌,
}
use backuwup.Shared.{
  ClientId, BlobHash, ChallengeNonce, ChallengeResponse, SessionToken, TransportSessionNonce,
  BackupRestoreInfo, ServerMessage, done, client_registration_challenge, client_login_challenge,
  client_login_token, backup_restore_info, ErrorType, unauthorized, destination_unreachable, Reply,
  message, error,
}
use backuwup.Server.Connections.{Wire}
use backuwup.Server.Handlers.{
  Call, registers_begin, registers_complete, logins_begin, logins_complete, requests_storage,
  reports_backup, asks_restore, begins_p2p, confirms_p2p,
}
use backuwup.Client.Config.{Failure, io, refused, Config}
use backuwup.Client.Tables.Settings.{load_auth_token, save_auth_token}

-- `enum ResponseError`
pub data ResponseError : Type 0 where
  unauthorized_error : ResponseError
  network : ResponseError
  other : ResponseError

-- What a client signs with (key_manager.rs).
pub record Signer : Type 0 where
  pub pubkey : ClientId
  pub sign : ChallengeNonce → ChallengeResponse

-- The client's database, and the server with the network before it.
pub record Api (S : Type 0) : Type 0 where
  pub config : Config
  pub server : S

abbrev Answered : Type 0 → Type 0
Answered T = Result ResponseError T

-- The arms of the calls that need no session.
expect_registration : Reply → Result Failure ChallengeNonce
expect_registration (message (client_registration_challenge nonce)) = ok nonce
expect_registration _ = err refused

expect_challenge : Reply → Result Failure ChallengeNonce
expect_challenge (message (client_login_challenge nonce)) = ok nonce
expect_challenge _ = err refused

expect_token : Reply → Result Failure SessionToken
expect_token (message (client_login_token token)) = ok token
expect_token _ = err refused

expect_registered : Reply → Result Failure Done
expect_registered (message done) = ok tt
expect_registered _ = err refused

-- Those of the calls with a session.
unfoldable pub expect_ok : Reply → Result ResponseError Done
expect_ok (message done) = ok tt
expect_ok (error unauthorized) = err unauthorized_error
expect_ok _ = err other

unfoldable pub expect_begun : Reply → Result ResponseError Bool
expect_begun (message done) = ok true
expect_begun (error unauthorized) = err unauthorized_error
expect_begun (error destination_unreachable) = ok false
expect_begun _ = err other

unfoldable pub expect_info : Reply → Result ResponseError BackupRestoreInfo
expect_info (message (backup_restore_info info)) = ok info
expect_info (error unauthorized) = err unauthorized_error
expect_info _ = err other

module _ {W : Wire} {S : Type 0} (post : Call W → S → Result Failure Reply × S) where
  abbrev pub on_config : {A : Type 0} → Exec Config Failure A → Exec (Api S) Failure A
  on_config op a = let (r, c) = op a.config in (r, record a { config = c })

  read_reply : {A : Type 0} → (Reply → Result Failure A) → Result Failure Reply → Result Failure A
  read_reply expect (ok reply) = expect reply
  read_reply expect (err e) = err e

  unfoldable pub send : {A : Type 0} → (Reply → Result Failure A) → Call W → Exec (Api S) Failure A
  unfolding read_reply
  send expect call a =
      let (r, s) = post call a.server in (read_reply expect r, record a { server = s })

  unfoldable pub register_begin : ClientId → Exec (Api S) Failure ChallengeNonce
  unfolding expect_registration
  register_begin pubkey = send expect_registration (registers_begin pubkey)

  unfoldable pub register_complete : ClientId → ChallengeResponse → Exec (Api S) Failure Done
  unfolding expect_registered
  register_complete pubkey response = send expect_registered (registers_complete pubkey response)

  unfoldable pub login_begin : ClientId → Exec (Api S) Failure ChallengeNonce
  unfolding expect_challenge
  login_begin pubkey = send expect_challenge (logins_begin pubkey)

  unfoldable pub login_complete : ClientId → ChallengeResponse → Exec (Api S) Failure SessionToken
  unfolding expect_token
  login_complete pubkey response = send expect_token (logins_complete pubkey response)

  -- identity.rs
  unfoldable pub login : Signer → Exec (Api S) Failure Done
  login keys = do
    challenge_nonce ← login_begin keys.pubkey
    token ← login_complete keys.pubkey (keys.sign challenge_nonce)
    on_config (save_auth_token (some token))

  read_answer :
      {A : Type 0}
      → (Reply → Result ResponseError A)
      → Result Failure Reply
      → Result ResponseError A
  read_answer expect (ok reply) = expect reply
  read_answer expect (err e) = err network

  unfoldable pub send_with_session :
      {A : Type 0} → (Reply → Result ResponseError A) → Call W → Exec (Api S) ResponseError A
  unfolding read_answer
  send_with_session expect call a =
      let (r, s) = post call a.server in (read_answer expect r, record a { server = s })

  -- What comes behind a try: an unauthorized answer wipes the token, and the next round follows.
  unfoldable pub tried :
      {A : Type 0}
      → Exec (Api S) Failure A
      → Result ResponseError A × Api S
      → Result Failure A × Api S
  tried again (ok value, a) = (ok value, a)
  tried again (err unauthorized_error, a) = (do on_config (save_auth_token none); again) a
  tried again (err network, a) = (err io, a)
  tried again (err other, a) = (err refused, a)

  unfoldable pub round :
      {A : Type 0}
      → Signer
      → (SessionToken → Exec (Api S) ResponseError A)
      → Exec (Api S) Failure A
      → Exec (Api S) Failure A
  round keys func again = do
    token ← on_config load_auth_token
    λ a. elim token [ none ↦ (do login keys; again) a | some t ↦ tried again (func t a) ]

  unfoldable pub retry_with_login :
      {A : Type 0} → Signer → (SessionToken → Exec (Api S) ResponseError A) → Exec (Api S) Failure A
  retry_with_login keys func = round keys func (round keys func (raise refused))

  module _ (keys : Signer) where
    unfoldable pub p2p_connection_begin :
        ClientId → TransportSessionNonce → Exec (Api S) Failure Bool
    p2p_connection_begin destination nonce =
        retry_with_login keys
          (λ token. send_with_session expect_begun (begins_p2p token destination nonce))

    unfoldable pub p2p_connection_confirm : ClientId → String → Exec (Api S) Failure Done
    p2p_connection_confirm source address =
        retry_with_login keys
          (λ token. send_with_session expect_ok (confirms_p2p token source address))

    unfoldable pub backup_storage_request : ℕ → Exec (Api S) Failure Done
    backup_storage_request amount =
        retry_with_login keys (λ token. send_with_session expect_ok (requests_storage token amount))

    unfoldable pub backup_done : BlobHash → Exec (Api S) Failure Done
    backup_done snapshot_hash =
        retry_with_login keys
          (λ token. send_with_session expect_ok (reports_backup token snapshot_hash))

    unfoldable pub backup_restore : Exec (Api S) Failure BackupRestoreInfo
    backup_restore =
        retry_with_login keys (λ token. send_with_session expect_info (asks_restore token))
