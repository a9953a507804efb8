-- ===== src/Client/Tables/LogLaws.antt =====
-- The log while the database works (client/src/config/log.rs), and the newest of its rows.
use backuwup.Prelude.{
  ℕ, ◌≡◌, ◌≤◌, refl, Bool, true, List, [], ◌∷◌, ◌++◌, Option, none, some, ok, arith, Bool-cases,
  Option-cases, inl, inr, ltb, ==_refl,
}
use backuwup.Shared.{ClientId}
use backuwup.Client.Config.{Config, Event, restore_request, LogRow, committing}
use backuwup.Client.Tables.Laws.{call-works}
use backuwup.Client.Tables.Log.{get_last_peer_restore_request, log_peer_restore_request}
use backuwup.Client.Tables.Log.Transaction
use backuwup.Client.Tables.Log.Transaction.{is_restore_request, newest}
use backuwup.Client.Tables.Settings.{get_obfuscation_key}
use backuwup.Client.Tables.Settings.Transaction as Settings

-- A row that matches has a newest one that is not older.
newest-head :
    (matches : Event → Bool) (row : LogRow) (rows : List LogRow)
    → matches row.event ≡ true
    → (found : LogRow) × (newest matches (row ∷ rows) ≡ some found)
      × (row.timestamp ≤ found.timestamp)
unfolding newest
newest-head matches row rows e = elim (Option-cases (newest matches rows)) [
  | inl p ↦ (row, rw e (rw p refl), omega arith)
  | inr (other, p) ↦ elim (Bool-cases (ltb row.timestamp other.timestamp)) [
    | inl q ↦ (other, rw e (rw p (rw q refl)), ground arith)
    | inr q ↦ (row, rw e (rw p (rw q refl)), omega arith)
  ]
]

pub newest-later :
    (matches : Event → Bool) (more : List LogRow) (row : LogRow) (rows : List LogRow)
    → matches row.event ≡ true
    → (found : LogRow) × (newest matches (more ++ row ∷ rows) ≡ some found)
      × (row.timestamp ≤ found.timestamp)
unfolding newest
newest-later matches [] row rows e = newest-head matches row rows e
newest-later matches (r ∷ more) row rows e =
    let (found, p, le) = newest-later matches more row rows e in
    elim (Bool-cases (matches r.event)) [
      | inr q ↦ (found, rw q p, le)
      | inl q ↦ elim (Bool-cases (ltb r.timestamp found.timestamp)) [
        | inl s ↦ (found, rw q (rw p (rw s refl)), le)
        | inr s ↦ (r, rw q (rw p (rw s refl)), ground arith)
      ]
    ]

abbrev pub stamp : Option LogRow → Option ℕ
stamp none = none
stamp (some row) = some row.timestamp

pub get_last-works :
    (peer : ClientId) (c : Config)
    → c.faults ≡ []
    → get_last_peer_restore_request peer c
      ≡ (ok (stamp (newest (is_restore_request peer) c.log)), c)
unfolding get_last_peer_restore_request Transaction.get_last_peer_restore_request committing
get_last-works peer c e = elim (Option-cases (newest (is_restore_request peer) c.log)) [
  | inl p ↦ ground (arith, call-works c e)
  | inr (row, p) ↦ ground (arith, call-works c e)
]

abbrev pub logged : ClientId → Config → Config
logged peer c = record c {
  log = record { timestamp = c.now; event = restore_request peer } ∷ c.log;
}

pub log_request-works :
    (peer : ClientId) (c : Config)
    → c.faults ≡ []
    → log_peer_restore_request peer c ≡ (ok tt, logged peer c)
unfolding log_peer_restore_request Transaction.log_peer_restore_request committing
log_request-works peer c e =
    let d = call-works (logged peer c) e in ground (arith, call-works c e, d)

pub get_obfuscation_key-works :
    (key : ℕ) (c : Config)
    → c.faults ≡ []
    → c.settings.obfuscation_key ≡ some key
    → get_obfuscation_key c ≡ (ok key, c)
unfolding get_obfuscation_key Settings.get_obfuscation_key committing
get_obfuscation_key-works key c e k = ground (arith, call-works c e)

pub is_restore_request_refl :
    (peer : ClientId) → is_restore_request peer (restore_request peer) ≡ true
unfolding is_restore_request
is_restore_request_refl peer = ==_refl peer
