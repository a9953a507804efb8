-- ===== src/Client/Tables/Laws.antt =====
-- What the calls of the local database leave alone, and what they read and write.
use backuwup.Prelude.{
  ℕ, ◌+◌, ◌≡◌, refl, Bool, true, false, List, [], ◌∷◌, Option, none, some, ok, arith, Result-cases,
  inl, inr,
}
use backuwup.Shared.{ClientId, SessionToken}
use backuwup.Client.Config.{PeerInfo, Config, call, transaction, committing}
use backuwup.Client.Peers.{update_peer, peer_increment_transmitted, peer_add_transmitted}
use backuwup.Client.Tables.Settings.{
  get_highest_sent_index_number, save_highest_sent_index_number, load_auth_token, save_auth_token,
}
use backuwup.Client.Tables.Settings.Transaction

-- A call uses up its fault, and changes no table.
pub call-faults : (c : Config) → (fs : List Bool) × ((call c).1 ≡ record c { faults = fs })
unfolding call
call-faults c = go c.faults
  where
    go :
        (gs : List Bool)
        → (fs : List Bool) × ((call (record c { faults = gs })).1 ≡ record c { faults = fs })
    go [] = ([], refl)
    go (true ∷ gs) = (gs, refl)
    go (false ∷ gs) = (gs, refl)

pub call-settings : (c : Config) → (call c).1.settings ≡ c.settings
call-settings c = let (fs, same) = call-faults c in ground arith

pub peer_increment_transmitted-settings :
    (peer : ClientId) (amount : ℕ) (c : Config)
    → (peer_increment_transmitted peer amount c).1.settings ≡ c.settings
unfolding peer_increment_transmitted transaction peer_add_transmitted
peer_increment_transmitted-settings peer amount c =
    let a = call-settings c in
    let b = call-settings (call c).1 in
    let c2 : Config = (call (call c).1).1 in
    let added = λ (p : PeerInfo). record p {
      bytes_transmitted = p.bytes_transmitted + amount;
      last_seen = c2.now;
    } in
    let d = call-settings (record c2 { peers = update_peer peer added c2.peers }) in
    elim (Result-cases (call c).0) [
      | inr (f, e) ↦ ground (arith, a)
      | inl (u, e) ↦ elim (Result-cases (call (call c).1).0) [
        | inr (f, g) ↦ ground (arith, a, b)
        | inl (v, g) ↦ ground (arith, a, b, d)
      ]
    ]

pub get_highest-found :
    (c : Config)
    → ((get_highest_sent_index_number c).1.settings ≡ c.settings)
      × ((h : Option ℕ)
          → (get_highest_sent_index_number c).0 ≡ ok h
          → h ≡ c.settings.highest_sent_index)
unfolding get_highest_sent_index_number Transaction.get_highest_sent_index_number committing
get_highest-found c =
    let a = call-settings c in
    let b = call-settings (call c).1 in
    let d = call-settings (call (call c).1).1 in
    (ground (arith, a, b, d), λ h e. ground (arith, a, b, d))

pub save_highest-saved :
    (n : ℕ) (c : Config)
    → (save_highest_sent_index_number n c).0 ≡ ok tt
    → (save_highest_sent_index_number n c).1.settings.highest_sent_index ≡ some n
unfolding save_highest_sent_index_number Transaction.save_highest_sent_index_number committing
save_highest-saved n c e =
    let c2 : Config = (call (call c).1).1 in
    let written : Config = record c2 {
      settings = record c2.settings { highest_sent_index = some n };
    } in
    let d = call-settings written in ground (arith, d)

pub load_auth_token-found :
    (c : Config)
    → ((load_auth_token c).1.settings ≡ c.settings)
      × ((o : Option SessionToken) → (load_auth_token c).0 ≡ ok o → o ≡ c.settings.auth_token)
unfolding load_auth_token Transaction.load_auth_token committing
load_auth_token-found c =
    let a = call-settings c in
    let b = call-settings (call c).1 in
    let d = call-settings (call (call c).1).1 in
    (ground (arith, a, b, d), λ h e. ground (arith, a, b, d))

pub save_auth_token-wiped :
    (c : Config)
    → (save_auth_token none c).0 ≡ ok tt
    → (save_auth_token none c).1.settings.auth_token ≡ none
unfolding save_auth_token Transaction.save_auth_token committing
save_auth_token-wiped c e =
    let c2 : Config = (call (call c).1).1 in
    let d = call-settings (record c2 { settings = record c2.settings { auth_token = none } }) in
    ground (arith, d)

-- While the database works.
pub call-works : (c : Config) → c.faults ≡ [] → call c ≡ (ok tt, c)
unfolding call
call-works c e = rw e refl

pub load_auth_token-works :
    (c : Config) → c.faults ≡ [] → load_auth_token c ≡ (ok c.settings.auth_token, c)
unfolding load_auth_token Transaction.load_auth_token committing
load_auth_token-works c e = ground (arith, call-works c e)

abbrev pub with_token : Option SessionToken → Config → Config
with_token token c = record c { settings = record c.settings { auth_token = token } }

pub save_auth_token-works :
    (token : SessionToken) (c : Config)
    → c.faults ≡ []
    → save_auth_token (some token) c ≡ (ok tt, with_token (some token) c)
unfolding save_auth_token Transaction.save_auth_token committing
save_auth_token-works token c e =
    let d = call-works (with_token (some token) c) e in ground (arith, call-works c e, d)

pub wipe_auth_token-works :
    (c : Config) → c.faults ≡ [] → save_auth_token none c ≡ (ok tt, with_token none c)
unfolding save_auth_token Transaction.save_auth_token committing
wipe_auth_token-works c e =
    let d = call-works (with_token none c) e in ground (arith, call-works c e, d)
