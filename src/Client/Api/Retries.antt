-- ===== src/Client/Api/Retries.antt =====
-- `retry_with_login` of client/src/net_server/requests.rs.
use backuwup.Prelude.{
  ℕ, ◌≡◌, ◌≢◌, refl, [], none, some, Result, ok, err, Exec, arith, Result-cases, inl, inr, raise,
}
use backuwup.Shared.{ChallengeResponse, SessionToken, Reply}
use backuwup.Server.Connections.{Wire}
use backuwup.Server.Handlers.{Call}
use backuwup.Client.Config.{Failure, refused}
use backuwup.Client.Tables.Settings.{load_auth_token, save_auth_token}
use backuwup.Client.Tables.Laws.{
  load_auth_token-found, save_auth_token-wiped, load_auth_token-works, save_auth_token-works,
  with_token,
}
use backuwup.Client.Api.{
  ResponseError, unauthorized_error, Signer, Api, send, login_begin, login_complete, login,
  send_with_session, tried, round, retry_with_login,
}

module _ {W : Wire} {S : Type 0} (post : Call W → S → Result Failure Reply × S)
    (keys : Signer) where
  login_begin-config : (client : ℕ) (a : Api S) → (login_begin post client a).1.config ≡ a.config
  unfolding login_begin send
  login_begin-config client a = refl

  login_complete-config :
      (client : ℕ) (response : ChallengeResponse) (a : Api S)
      → (login_complete post client response a).1.config ≡ a.config
  unfolding login_complete send
  login_complete-config client response a = refl

  -- With no round left, a round without a token logs in and fails.
  last_round-fails :
      {A : Type 0} (func : SessionToken → Exec (Api S) ResponseError A) (a : Api S) (v : A)
      → a.config.settings.auth_token ≡ none
      → (round post keys func (raise refused) a).0 ≢ ok v
  unfolding round
  last_round-fails func a v e =
      let (same, reads) = load_auth_token-found a.config in
      let b : Api S = record a { config = (load_auth_token a.config).1 } in
      elim (Result-cases (load_auth_token a.config).0) [
        | inr (f, p) ↦ λ x. ground arith
        | inl (o, p) ↦
            let is = reads o p in
            elim (Result-cases (login post keys b).0) [
              | inr (f, q) ↦ λ x. ground arith
              | inl (u, q) ↦ λ x. ground arith
            ]
      ]

  wiped-fails :
      {A : Type 0} (func : SessionToken → Exec (Api S) ResponseError A) (x : Api S) (v : A)
      → (tried post (round post keys func (raise refused)) (err unauthorized_error, x)).0 ≢ ok v
  unfolding tried
  wiped-fails func x v =
      let y : Api S = record x { config = (save_auth_token none x.config).1 } in
      elim (Result-cases (save_auth_token none x.config).0) [
        | inr (f, p) ↦ λ z. ground arith
        | inl (u, p) ↦ λ z.
            last_round-fails func y v (save_auth_token-wiped x.config (ground arith)) (ground arith)
      ]

  module _ {A : Type 0} (expect : Reply → Result ResponseError A)
      (call : SessionToken → Call W) where
    abbrev func : SessionToken → Exec (Api S) ResponseError A
    func token = send_with_session post expect (call token)

    -- A call never succeeds when the stored token is one that the server rejects: the first round wipes
    -- the token, and the second logs in, but there is no third in which to call again.
    pub retry_with_login-expired :
        (a : Api S) (token : SessionToken) (v : A)
        → a.config.settings.auth_token ≡ some token
        → (send_with_session post expect (call token) a).0 ≡ err unauthorized_error
        → (retry_with_login post keys (λ t. send_with_session post expect (call t)) a).0 ≢ ok v
    unfolding retry_with_login round send_with_session
    retry_with_login-expired a token v stored rejected =
        let (same, reads) = load_auth_token-found a.config in
        let b : Api S = record a { config = (load_auth_token a.config).1 } in
        let x : Api S = (send_with_session post expect (call token) b).1 in
        elim (Result-cases (load_auth_token a.config).0) [
          | inr (f, p) ↦ λ z. ground arith
          | inl (o, p) ↦ λ z.
              let is = reads o p in
              wiped-fails (λ t. send_with_session post expect (call t)) x v (ground arith)
        ]

    -- With no stored token and a working database, a call logs in, stores the token that it is given,
    -- and succeeds with what the server answers to the call with that token.
    pub retry_with_login-fresh :
        (a b c d : Api S) (challenge : ℕ) (token : SessionToken) (v : A)
        → a.config.faults ≡ []
        → a.config.settings.auth_token ≡ none
        → login_begin post keys.pubkey a ≡ (ok challenge, b)
        → login_complete post keys.pubkey (keys.sign challenge) b ≡ (ok token, c)
        → send_with_session post expect
            (call token)
            (record c { config = with_token (some token) a.config })
          ≡ (ok v, d)
        → retry_with_login post keys (λ t. send_with_session post expect (call t)) a ≡ (ok v, d)
    unfolding retry_with_login round login tried
    retry_with_login-fresh a b c d challenge token v works no_token begun completed called =
        let b_same : b.config ≡ a.config = ground (arith, login_begin-config keys.pubkey a) in
        let c_same : c.config ≡ a.config =
          ground (arith, login_complete-config keys.pubkey (keys.sign challenge) b) in
        let first = load_auth_token-works a.config works in
        let saved = save_auth_token-works token c.config (ground arith) in
        let second = load_auth_token-works (with_token (some token) c.config) (ground arith) in
        ground (arith, first, saved, second)
