-- ===== src/Server/Auth.antt =====
-- server/src/client_auth_manager.rs: challenges, their responses, and sessions. Ed25519 is the
-- parameter `Crypto`; `getrandom` reads the coming values of `entropy`, where `none` is its failure.
pub mod Laws
use backuwup.Prelude.{
  ℕ, Bool, true, false, Option, none, some, List, [], ◌∷◌, Result, ok, err, Exec, Done, lift, raise,
  ◌>>=◌, ◌>>◌,
}
use backuwup.Shared.{ClientId, ChallengeNonce, ChallengeResponse, SessionToken}
use backuwup.DelayMap.{DelayMap}
use backuwup.Server.Error.{Error}

pub record Crypto : Type 1 where
  pub PublicKey : Type 0
  pub Signature : Type 0
  -- `PublicKey::from_bytes` and `Signature::from_bytes`
  pub key_from_bytes : ClientId → Option PublicKey
  pub signature_from_bytes : ChallengeResponse → Option Signature
  pub verify_strict : PublicKey → ChallengeNonce → Signature → Bool

pub record ClientAuthManager (D : DelayMap ℕ) : Type 0 where
  pub challenges : D.Map
  pub sessions : D.Map
  pub entropy : List (Option ℕ)

verdict : Bool → Result Error Done
verdict true = ok tt
verdict false = err Error.crypto

accept : (C : Crypto) → ChallengeNonce → Option C.PublicKey → Option C.Signature → Result Error Done
accept C nonce none signature = err Error.crypto
accept C nonce (some key) none = err Error.crypto
accept C nonce (some key) (some signature) = verdict (C.verify_strict key nonce signature)

-- The checks of the client's key, of the response and of its signature on the nonce.
unfoldable pub check_signature :
    (C : Crypto) → ClientId → ChallengeNonce → ChallengeResponse → Result Error Done
unfolding accept verdict
check_signature C client_id nonce response =
    accept C nonce (C.key_from_bytes client_id) (C.signature_from_bytes response)

module _ {D : DelayMap ℕ} where
  draw : List (Option ℕ) → Exec (ClientAuthManager D) Error ℕ
  draw [] a = (err Error.rng, a)
  draw (none ∷ later) a = (err Error.rng, record a { entropy = later })
  draw (some n ∷ later) a = (ok n, record a { entropy = later })

  getrandom : Exec (ClientAuthManager D) Error ℕ
  unfolding draw
  getrandom a = draw a.entropy a

  -- A client has one challenge at a time; a new one replaces it.
  unfoldable pub challenge_begin : ClientId → Exec (ClientAuthManager D) Error ChallengeNonce
  unfolding getrandom
  challenge_begin client_id = do
    nonce ← getrandom
    λ a. (ok nonce, record a { challenges = D.insert a.challenges client_id nonce })

  verify_challenge :
      Crypto
      → ClientId
      → ChallengeResponse
      → Option ChallengeNonce
      → Exec (ClientAuthManager D) Error Done
  verify_challenge C client_id response none = raise Error.challenge_not_found
  verify_challenge C client_id response (some nonce) = do
    lift (check_signature C client_id nonce response)
    λ a. (ok tt, record a { challenges = D.remove a.challenges client_id })

  unfoldable pub challenge_verify :
      Crypto → ClientId → ChallengeResponse → Exec (ClientAuthManager D) Error Done
  unfolding verify_challenge
  challenge_verify C client_id response a =
      verify_challenge C client_id response (D.get a.challenges client_id) a

  unfoldable pub session_start : ClientId → Exec (ClientAuthManager D) Error SessionToken
  unfolding getrandom
  session_start client_id = do
    token ← getrandom
    λ a. (ok token, record a { sessions = D.insert a.sessions token client_id })

  unfoldable pub get_session : SessionToken → ClientAuthManager D → Option ClientId
  get_session token a = D.get a.sessions token
