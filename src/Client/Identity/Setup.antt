-- ===== src/Client/Identity/Setup.antt =====
-- Both setups of client/src/identity.rs happen whole or not at all.
use backuwup.Prelude.{
  ℕ, ◌≡◌, ◌≢◌, ◌⊎◌, subst, inl, inr, refl, Option, none, some, Result, ok, Exec, Done, arith,
  Result-cases, Option-cases, ◌>>◌,
}
use backuwup.Shared.{Reply}
use backuwup.Server.Connections.{Wire}
use backuwup.Server.Handlers.{Call}
use backuwup.Client.Config.{Failure, Config, Settings, call, rolled_back}
use backuwup.Client.Tables.Settings.Transaction
use backuwup.Client.Tables.Laws.{call-settings}
use backuwup.Client.Api.{Signer, Api}
use backuwup.Client.Identity.Greetings.{
  IsAway, Registers, LogsIn, greet_known-IsAway, greet_new-IsAway, greet_new-Registers,
  greet_known-LogsIn,
}
use backuwup.Client.Identity.{
  KeyManager, Process, in_transaction, set_keys, enter, greet_known, greet_new,
  existing_secret_setup, new_secret_setup,
}

root_secret-saved :
    (secret : ℕ) (c : Config)
    → (Transaction.save_root_secret secret c).0 ≡ ok tt
    → (Transaction.save_root_secret secret c).1.settings
      ≡ record c.settings { root_secret = some secret }
unfolding Transaction.save_root_secret
root_secret-saved secret c e = ground (arith, call-settings c)

obfuscation_key-saved :
    (key : ℕ) (c : Config)
    → (Transaction.save_obfuscation_key key c).0 ≡ ok tt
    → (Transaction.save_obfuscation_key key c).1.settings
      ≡ record c.settings { obfuscation_key = some key }
unfolding Transaction.save_obfuscation_key
obfuscation_key-saved key c e = ground (arith, call-settings c)

initialized-saved :
    (c : Config)
    → (Transaction.set_initialized c).0 ≡ ok tt
    → (Transaction.set_initialized c).1.settings ≡ record c.settings { initialized = some tt }
unfolding Transaction.set_initialized
initialized-saved c e = ground (arith, call-settings c)

abbrev pub settings_of : {S : Type 0} → Process S → Settings
settings_of p = p.api.config.settings

-- The settings of a client that was set up.
abbrev pub set_up : KeyManager → ℕ → Settings → Settings
set_up manager key settings = record settings {
  initialized = some tt;
  root_secret = some manager.root_secret;
  obfuscation_key = some key;
}

-- Either everything that was given was stored, the server was greeted, and the keys are in place; or
-- nothing of it. `Greeted` says what the server was asked, from one state of it to another.
pub data SetsUp {S : Type 0} (Greeted : Signer → Api S → S → Type 0) (secret : Option KeyManager)
    (drawn : Option ℕ) (p : Process S) (out : Result Failure Done × Process S) : Type 0 where
  whole :
      (manager : KeyManager) (key : ℕ) (c : Config)
      → secret ≡ some manager
      → drawn ≡ some key
      → Greeted manager.signer (record p.api { config = c }) out.1.api.server
      → out.0 ≡ ok tt
      → settings_of out.1 ≡ set_up manager key (settings_of p)
      → out.1.keys ≡ some manager
      → SetsUp Greeted secret drawn p out
  nothing :
      out.0 ≢ ok tt
      → settings_of out.1 ≡ settings_of p
      → out.1.keys ≡ none
      → SetsUp Greeted secret drawn p out

module _ {W : Wire} {S : Type 0} (post : Call W → S → Result Failure Reply × S) where
  -- The server was greeted with success, at some state of the tables.
  abbrev Greets : Exec (Api S) Failure Done → Process S → S → Type 0
  Greets greet p server =
      (c : Config) × ((greet (record p.api { config = c })).0 ≡ ok tt)
      × ((greet (record p.api { config = c })).1.server ≡ server)

  abbrev Entered :
      KeyManager
      → Exec (Api S) Failure Done
      → Option ℕ
      → Process S
      → Result Failure Done × Process S
      → Type 0
  Entered manager greet key p out =
      (out.1.keys ≡ p.keys)
      × (out.0 ≡ ok tt
          → (k : ℕ) × (key ≡ some k)
            × (settings_of out.1 ≡ set_up manager k (settings_of p))
            × Greets greet p out.1.api.server)

  enter-Entered :
      (manager : KeyManager) (greet : Exec (Api S) Failure Done) (key : Option ℕ) (p : Process S)
      → IsAway post greet
      → Entered manager greet key p (enter post manager greet key p)
  unfolding enter
  enter-Entered manager greet key p away =
      let c1 : Config = (Transaction.save_root_secret manager.root_secret p.api.config).1 in
      let a1 : Api S = record p.api { config = c1 } in
      let root = root_secret-saved manager.root_secret p.api.config in
      let far = away a1 in
      elim (Result-cases (Transaction.save_root_secret manager.root_secret p.api.config).0) [
        | inr (f, e) ↦ (ground arith, λ x. absurd (ground arith))
        | inl (tt, e) ↦ elim (Result-cases (greet a1).0) [
          | inr (f, g) ↦ (ground arith, λ x. absurd (ground arith))
          | inl (u, g) ↦ elim (Option-cases key) [
            | inl n ↦ (ground arith, λ x. absurd (ground arith))
            | inr (k, n) ↦
                let c2 : Config = (greet a1).1.config in
                let c3 : Config = (Transaction.save_obfuscation_key k c2).1 in
                elim (Result-cases (Transaction.save_obfuscation_key k c2).0) [
                  | inr (f, q) ↦ (ground arith, λ x. absurd (ground arith))
                  | inl (tt, q) ↦
                      let hidden = obfuscation_key-saved k c2 q in
                      let marked = initialized-saved c3 in
                      (
                        ground arith,
                        λ x. (
                          k,
                          n,
                          ground (arith, root, far, hidden, marked),
                          (c1, ground arith, ground arith),
                        ),
                      )
                ]
          ]
        ]
      ]

  in_transaction-Entered :
      (manager : KeyManager) (greet : Exec (Api S) Failure Done) (key : Option ℕ) (p : Process S)
      → IsAway post greet
      → (((in_transaction (enter post manager greet key) p).0 ≢ ok tt)
          × (settings_of (in_transaction (enter post manager greet key) p).1 ≡ settings_of p)
          × ((in_transaction (enter post manager greet key) p).1.keys ≡ p.keys))
        ⊎ (((in_transaction (enter post manager greet key) p).0 ≡ ok tt)
            × Entered manager greet key p (in_transaction (enter post manager greet key) p))
  unfolding in_transaction rolled_back
  in_transaction-Entered manager greet key p away =
      let c : Config = (call p.api.config).1 in
      let q : Process S = record p { api = record p.api { config = c } } in
      let first = call-settings p.api.config in
      let entered = enter post manager greet key q in
      let (kept, stores) = enter-Entered manager greet key q away in
      let last = call-settings entered.1.api.config in
      elim (Result-cases (call p.api.config).0) [
        | inr (f, e) ↦ inl (λ x. ground arith, ground arith, ground arith)
        | inl (u, e) ↦ elim (Result-cases entered.0) [
          | inr (f, g) ↦ inl (λ x. ground arith, ground arith, ground (arith, kept))
          | inl (tt, g) ↦ elim (Result-cases (call entered.1.api.config).0) [
            | inr (f, h) ↦ inl (λ x. ground arith, ground arith, ground (arith, kept))
            | inl (v, h) ↦
                let (k, given, stored, greeted) = stores g in
                inr (
                  ground arith,
                  (
                    ground (arith, kept),
                    λ x. (
                      k,
                      given,
                      ground (arith, first, last, stored),
                      (greeted.0, greeted.1, ground (arith, greeted.2)),
                    ),
                  ),
                )
          ]
        ]
      ]

  abbrev finished_setup :
      KeyManager → Exec (Api S) Failure Done → Option ℕ → Exec (Process S) Failure Done
  finished_setup manager greet key = do
    in_transaction (enter post manager greet key)
    set_keys manager

  module _ (Greeted : Signer → Api S → S → Type 0) where
    finished_setup-SetsUp :
        (manager : KeyManager) (greet : Exec (Api S) Failure Done) (key : Option ℕ) (p : Process S)
        → IsAway post greet
        → ((a : Api S) → (greet a).0 ≡ ok tt → Greeted manager.signer a (greet a).1.server)
        → p.keys ≡ none
        → SetsUp Greeted (some manager) key p (finished_setup manager greet key p)
    unfolding set_keys
    finished_setup-SetsUp manager greet key p away does fresh =
        elim (in_transaction-Entered manager greet key p away) [
          | inl (bad, same, kept) ↦
              elim (Result-cases (in_transaction (enter post manager greet key) p).0) [
                | inl (tt, e) ↦ absurd (bad e)
                | inr (f, e) ↦ nothing (λ x. ground arith) (ground arith) (ground arith)
              ]
          | inr (fine, (kept, stored)) ↦
              let (k, given, is, greeted) = stored fine in
              let (c, well, after) = greeted in
              let a : Api S = record p.api { config = c } in
              whole manager k c refl given
                (subst (Greeted manager.signer a) (ground arith) (does a well)) (ground arith)
                (ground (arith, is)) (ground arith)
        ]

  -- Setting up with an existing secret, in a process whose keys are not set: either that secret, the
  -- obfuscation key that was drawn and the mark of the initialization are all stored, the keys of the
  -- secret are in place, and the client has logged in with them; or the call fails and none of these
  -- settings has changed, wherever it failed: at the database, the server, the random numbers or the
  -- commit. Other settings stay.
  pub existing_secret_setup-SetsUp :
      (from_secret : Option KeyManager) (key : Option ℕ) (p : Process S)
      → p.keys ≡ none
      → SetsUp (LogsIn post) from_secret key p (existing_secret_setup post from_secret key p)
  unfolding existing_secret_setup
  existing_secret_setup-SetsUp none key p fresh = nothing (λ x. cc) refl fresh
  existing_secret_setup-SetsUp (some manager) key p fresh =
      finished_setup-SetsUp (LogsIn post) manager (greet_known post manager.signer) key p
        (greet_known-IsAway post manager.signer) (greet_known-LogsIn post manager.signer) fresh

  -- The same of a setup with a new secret, where the server has registered the client: either the secret
  -- that was generated, the obfuscation key that was drawn and the mark of the initialization are all
  -- stored, and the keys are in place; or the call fails and none of these settings has changed.
  pub new_secret_setup-SetsUp :
      (generated : Option KeyManager) (key : Option ℕ) (p : Process S)
      → p.keys ≡ none
      → SetsUp (Registers post) generated key p (new_secret_setup post generated key p)
  unfolding new_secret_setup
  new_secret_setup-SetsUp none key p fresh = nothing (λ x. cc) refl fresh
  new_secret_setup-SetsUp (some manager) key p fresh =
      finished_setup-SetsUp (Registers post) manager (greet_new post manager.signer) key p
        (greet_new-IsAway post manager.signer) (greet_new-Registers post manager.signer) fresh
