-- ===== src/Client/Identity.antt =====
-- client/src/identity.rs: the two ways to set a client up. Deriving keys from a secret, and drawing
-- random numbers, are arguments.
pub mod Greetings
pub mod Setup
mod Examples
use backuwup.Prelude.{
  ℕ, Option, none, some, Result, ok, err, Exec, Done, lift, ok_or, pure, ◌>>=◌, ◌>>◌,
}
use backuwup.Shared.{Reply}
use backuwup.Server.Connections.{Wire}
use backuwup.Server.Handlers.{Call}
use backuwup.Client.Config.{Failure, io, panicked, Config, call, rolled_back}
use backuwup.Client.Tables.Settings.Transaction
use backuwup.Client.Tables.Settings.{load_root_secret}
use backuwup.Client.Api.{
  Signer, Api, register_begin, register_complete, login_begin, login_complete,
}

-- key_manager.rs: the keys made from a root secret
pub record KeyManager : Type 0 where
  pub root_secret : ℕ
  pub signer : Signer

-- The database and the server, with the cell `KEYS` that is set once.
pub record Process (S : Type 0) : Type 0 where
  pub api : Api S
  pub keys : Option KeyManager

module _ {S : Type 0} where
  abbrev on_api : {A : Type 0} → Exec (Api S) Failure A → Exec (Process S) Failure A
  on_api op p = let (r, a) = op p.api in (r, record p { api = a })

  abbrev on_db : {A : Type 0} → Exec Config Failure A → Exec (Process S) Failure A
  on_db op p = let (r, c) = op p.api.config in (r, record p { api = record p.api { config = c } })

  abbrev back : Config → Process S → Process S
  back before p = record p { api = record p.api { config = rolled_back before p.api.config } }

  closed : {A : Type 0} → Config → Result Failure A × Process S → Result Failure A × Process S
  closed before (err e, p) = (err e, back before p)
  closed before (ok a, p) = (ok a, p)

  -- `let transaction = ….transaction().await?; …; transaction.commit().await?`: a transaction that stays
  -- open while the server is called, and that is dropped on the way of an error.
  unfoldable pub in_transaction :
      {A : Type 0} → Exec (Process S) Failure A → Exec (Process S) Failure A
  unfolding closed
  in_transaction steps p = closed p.api.config ((do on_db call; a ← steps; on_db call; pure a) p)

  set_once : KeyManager → Option KeyManager → Exec (Process S) Failure Done
  set_once manager none p = (ok tt, record p { keys = some manager })
  set_once manager (some old) p = (err panicked, p)

  -- `KEYS.set(…).expect(…)`
  unfoldable pub set_keys : KeyManager → Exec (Process S) Failure Done
  unfolding set_once
  set_keys manager p = set_once manager p.keys p

  unfoldable pub load_secret : (ℕ → Option KeyManager) → Exec (Process S) Failure Done
  load_secret from_secret = do
    secret ← on_db load_root_secret
    manager ← lift (ok_or (from_secret secret) io)
    set_keys manager

module _ {W : Wire} {S : Type 0} (post : Call W → S → Result Failure Reply × S) where
  -- `key` is the outcome of `generate_obfuscation_key`.
  unfoldable pub enter :
      KeyManager → Exec (Api S) Failure Done → Option ℕ → Exec (Process S) Failure Done
  enter manager greet key = do
    on_db (Transaction.save_root_secret manager.root_secret)
    on_api greet
    obfuscation_key ← lift (ok_or key io)
    on_db (Transaction.save_obfuscation_key obfuscation_key)
    on_db Transaction.set_initialized

  -- The login that shows that the server knows the keys; its token is not kept.
  unfoldable pub greet_known : Signer → Exec (Api S) Failure Done
  greet_known keys = do
    challenge_nonce ← login_begin post keys.pubkey
    login_complete post keys.pubkey (keys.sign challenge_nonce)
    pure tt

  unfoldable pub greet_new : Signer → Exec (Api S) Failure Done
  greet_new keys = do
    challenge_nonce ← register_begin post keys.pubkey
    register_complete post keys.pubkey (keys.sign challenge_nonce)

  unfoldable pub existing_secret_setup :
      Option KeyManager → Option ℕ → Exec (Process S) Failure Done
  existing_secret_setup from_secret key = do
    manager ← lift (ok_or from_secret io)
    in_transaction (enter manager (greet_known manager.signer) key)
    set_keys manager

  unfoldable pub new_secret_setup : Option KeyManager → Option ℕ → Exec (Process S) Failure Done
  new_secret_setup generated key = do
    manager ← lift (ok_or generated io)
    in_transaction (enter manager (greet_new manager.signer) key)
    set_keys manager
