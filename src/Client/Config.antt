-- ===== src/Client/Config.antt =====
-- client/src/config/mod.rs: the local database, with the three tables that it creates, and the two
-- ways in which its methods run their statements.
use backuwup.Prelude.{
  ℕ, Bool, true, false, List, [], ◌∷◌, Option, none, Result, ok, err, Exec, Done, pure, ◌>>=◌, ◌>>◌,
}
use backuwup.Prelude.Dict.{Dict}
use backuwup.Shared.{ClientId, SessionToken}

-- `anyhow::Error`, by what raised it.
pub data Failure : Type 0 where
  sql io refused unknown_peer invalid_message panicked : Failure

pub record PeerInfo : Type 0 where
  pub bytes_transmitted : ℕ
  pub bytes_received : ℕ
  pub bytes_negotiated : ℕ
  pub first_seen : ℕ
  pub last_seen : ℕ

-- The rows of the table `config`, a field for each key that the program uses. A value is read as the
-- type that was written; arrays of bytes of a fixed size are numbers.
pub record Settings : Type 0 where
  pub initialized : Option Done
  pub root_secret : Option ℕ
  pub auth_token : Option SessionToken
  pub obfuscation_key : Option ℕ
  pub backup_path : Option ℕ
  pub highest_sent_index : Option ℕ

-- The tables of `create_db_structure` have no rows.
abbrev pub no_settings : Settings
no_settings = record {
  initialized = none;
  root_secret = none;
  auth_token = none;
  obfuscation_key = none;
  backup_path = none;
  highest_sent_index = none;
}

-- log.rs: what the column `event_data` holds, in place of `event_type` and the JSON.
pub data Event : Type 0 where
  restore_request : ClientId → Event
  backup : (size path : ℕ) → Event

pub record LogRow : Type 0 where
  pub timestamp : ℕ
  pub event : Event

-- The tables, the clock, and whether the coming calls of the database fail (past the end of `faults`,
-- they work).
pub record Config : Type 0 where
  pub peers : Dict PeerInfo
  pub settings : Settings
  pub log : List LogRow
  pub now : ℕ
  pub faults : List Bool

next_call : List Bool → Config → Result Failure Done × Config
next_call [] c = (ok tt, c)
next_call (true ∷ later) c = (err sql, record c { faults = later })
next_call (false ∷ later) c = (ok tt, record c { faults = later })

-- A call of the database that may fail: a begin, a statement or a commit.
unfoldable pub call : Exec Config Failure Done
unfolding next_call
call c = next_call c.faults c

-- A transaction that is dropped without its commit leaves the tables as they were before it.
unfoldable pub rolled_back : Config → Config → Config
rolled_back before c = record c {
  peers = before.peers;
  settings = before.settings;
  log = before.log;
}

committed : {A : Type 0} → Config → Result Failure A × Config → Result Failure A × Config
committed before (err e, c) = (err e, rolled_back before c)
committed before (ok a, c) = (ok a, c)

-- `transaction().await?; …?; commit().await?`: nothing is committed behind a failure.
unfoldable pub transaction : {A : Type 0} → Exec Config Failure A → Exec Config Failure A
unfolding committed rolled_back
transaction statements c = committed c ((do call; a ← statements; call; pure a) c)

-- `let result = ….await; commit().await?; result`: the commit comes before the result is looked at.
after_commit :
    {A : Type 0}
    → Config
    → Result Failure A
    → Result Failure Done × Config
    → Result Failure A × Config
after_commit before r (err e, c) = (err e, rolled_back before c)
after_commit before r (ok _, c) = (r, c)

settle : {A : Type 0} → Config → Result Failure A × Config → Result Failure A × Config
settle before (r, c) = after_commit before r (call c)

unfoldable pub committing : {A : Type 0} → Exec Config Failure A → Exec Config Failure A
unfolding settle after_commit rolled_back
committing statements c = (do call; λ d. settle c (statements d)) c
