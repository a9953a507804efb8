-- ===== src/Client/Identity/Greetings.antt =====
-- What the server is asked in a setup (client/src/identity.rs).
use backuwup.Prelude.{ℕ, ◌≡◌, inl, inr, Result, ok, Exec, Done, arith, Result-cases}
use backuwup.Shared.{Reply}
use backuwup.Server.Connections.{Wire}
use backuwup.Server.Handlers.{Call}
use backuwup.Client.Config.{Failure}
use backuwup.Client.Api.{
  Signer, Api, send, register_begin, register_complete, login_begin, login_complete,
}
use backuwup.Client.Identity.{greet_known, greet_new}

module _ {W : Wire} {S : Type 0} (post : Call W → S → Result Failure Reply × S) where
  -- The calls of the server that a setup makes leave the database alone.
  abbrev pub IsAway : Exec (Api S) Failure Done → Type 0
  IsAway greet = (a : Api S) → (greet a).1.config ≡ a.config

  pub greet_known-IsAway : (keys : Signer) → IsAway (greet_known post keys)
  unfolding greet_known login_begin login_complete send
  greet_known-IsAway keys a = ground arith

  pub greet_new-IsAway : (keys : Signer) → IsAway (greet_new post keys)
  unfolding greet_new register_begin register_complete send
  greet_new-IsAway keys a = ground arith

  -- The server set a challenge for the registration, and accepted the response that the client signed.
  abbrev pub Registers : Signer → Api S → S → Type 0
  Registers keys a server =
      (nonce : ℕ) × (b : Api S) × (c : Api S) × (register_begin post keys.pubkey a ≡ (ok nonce, b))
      × (register_complete post keys.pubkey (keys.sign nonce) b ≡ (ok tt, c))
      × (c.server ≡ server)

  -- The same for a login, which is answered by a token.
  abbrev pub LogsIn : Signer → Api S → S → Type 0
  LogsIn keys a server =
      (nonce : ℕ) × (token : ℕ) × (b : Api S) × (c : Api S) × (login_begin post keys.pubkey a
        ≡ (ok nonce, b))
      × (login_complete post keys.pubkey (keys.sign nonce) b ≡ (ok token, c))
      × (c.server ≡ server)

  pub greet_new-Registers :
      (keys : Signer) (a : Api S)
      → (greet_new post keys a).0 ≡ ok tt
      → Registers keys a (greet_new post keys a).1.server
  unfolding greet_new
  greet_new-Registers keys a e =
      let b : Api S = (register_begin post keys.pubkey a).1 in
      elim (Result-cases (register_begin post keys.pubkey a).0) [
        | inr (f, p) ↦ absurd (ground arith)
        | inl (nonce, p) ↦
            let c : Api S = (register_complete post keys.pubkey (keys.sign nonce) b).1 in
            (nonce, b, c, ground arith, ground arith, ground arith)
      ]

  pub greet_known-LogsIn :
      (keys : Signer) (a : Api S)
      → (greet_known post keys a).0 ≡ ok tt
      → LogsIn keys a (greet_known post keys a).1.server
  unfolding greet_known
  greet_known-LogsIn keys a e =
      let b : Api S = (login_begin post keys.pubkey a).1 in
      elim (Result-cases (login_begin post keys.pubkey a).0) [
        | inr (f, p) ↦ absurd (ground arith)
        | inl (nonce, p) ↦
            let c : Api S = (login_complete post keys.pubkey (keys.sign nonce) b).1 in
            elim (Result-cases (login_complete post keys.pubkey (keys.sign nonce) b).0) [
              | inr (f, q) ↦ absurd (ground arith)
              | inl (token, q) ↦ (nonce, token, b, c, ground arith, ground arith, ground arith)
            ]
      ]
