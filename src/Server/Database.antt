-- ===== src/Server/Database.antt =====
-- server/src/db.rs: the statements on the tables of server/src/schema/schema.sql, with the keys that
-- the schema declares. The pool answers each statement, or fails it: `faults` says which of the
-- coming statements fail for a cause outside the tables (past its end, none). `now` is the time
-- that the running statement sees.
use mathlib.Core.Option
use backuwup.Prelude.{
  ℕ, Bool, true, false, not, ◌&&◌, Option, none, some, List, [], ◌∷◌, ◌++◌, map, ◌==◌, ltb,
  if◌then◌else◌, ok, err, Exec, Done,
}
use backuwup.Shared.{ClientId, BlobHash}
use backuwup.Server.Error.{Error}

pub record ClientRow : Type 0 where
  pub pubkey : ClientId
  pub registered : ℕ
  pub last_login : Option ℕ

pub record PeerBackup : Type 0 where
  pub source : ClientId
  pub destination : ClientId
  pub size_negotiated : ℕ
  pub timestamp : ℕ

pub record Snapshot : Type 0 where
  pub client_pubkey : ClientId
  pub snapshot_hash : BlobHash
  pub timestamp : ℕ

pub record Database : Type 0 where
  pub clients : List ClientRow
  -- a new row comes last, as its `id` does
  pub peer_backups : List PeerBackup
  pub snapshots : List Snapshot
  pub now : ℕ
  pub faults : List Bool

-- One statement: the pool fails it, or it runs on the tables.
run_statement : {A : Type 0} → List Bool → Exec Database Error A → Exec Database Error A
run_statement [] statement db = statement db
run_statement (true ∷ later) statement db = (err Error.database, record db { faults = later })
run_statement (false ∷ later) statement db = statement (record db { faults = later })

unfoldable pub execute : {A : Type 0} → Exec Database Error A → Exec Database Error A
unfolding run_statement
execute statement db = run_statement db.faults statement db

unfoldable pub is_client : ClientId → List ClientRow → Bool
is_client client_id [] = false
is_client client_id (c ∷ cs) = if c.pubkey == client_id then true else is_client client_id cs

-- The primary key of `clients` refuses a second row for a client.
unfoldable pub register_client : ClientId → Exec Database Error Done
unfolding is_client
register_client client_id = execute λ db.
    if is_client client_id db.clients then (err Error.database, db) else (
      ok tt,
      record db {
        clients =
            db.clients
            ++ record { pubkey = client_id; registered = db.now; last_login = none } ∷ [];
      },
    )

unfoldable pub client_exists : ClientId → Exec Database Error Bool
client_exists client_id = execute λ db. (ok (is_client client_id db.clients), db)

unfoldable pub logged_in : ClientId → ℕ → ClientRow → ClientRow
logged_in client_id now c = if c.pubkey == client_id then record c { last_login = some now } else c

unfoldable pub client_update_logged_in : ClientId → Exec Database Error Done
client_update_logged_in client_id =
    execute λ db. (ok tt, record db { clients = map (logged_in client_id db.now) db.clients })

-- Both ends have to be rows of `clients`.
unfoldable pub save_storage_negotiated : ClientId → ClientId → ℕ → Exec Database Error Done
save_storage_negotiated source destination storage_negotiated = execute λ db.
    if is_client source db.clients && is_client destination db.clients
    then (
      ok tt,
      record db {
        peer_backups =
            db.peer_backups
            ++ record {
              source = source;
              destination = destination;
              size_negotiated = storage_negotiated;
              timestamp = db.now;
            }
              ∷ [];
      },
    )
    else (err Error.database, db)

-- `order by timestamp desc`: of equal times the earlier row stays first.
newer : Snapshot → Option Snapshot → Option Snapshot
newer a none = some a
newer a (some b) = if ltb a.timestamp b.timestamp then some b else some a

-- `where client_pubkey = $1 order by timestamp desc limit 1`
unfoldable pub latest : ClientId → List Snapshot → Option Snapshot
unfolding newer
latest client_id [] = none
latest client_id (s ∷ ss) =
    let rest = latest client_id ss in if s.client_pubkey == client_id then newer s rest else rest

-- A hash is kept as a number, so the length check of the stored bytes has nothing to refuse.
unfoldable pub get_latest_client_snapshot : ClientId → Exec Database Error (Option BlobHash)
get_latest_client_snapshot client_id =
    execute λ db. (ok (Option.map (λ s. s.snapshot_hash) (latest client_id db.snapshots)), db)

unfoldable pub save_snapshot : ClientId → BlobHash → Exec Database Error Done
save_snapshot client_id snapshot_hash = execute λ db.
    if is_client client_id db.clients
    then (
      ok tt,
      record db {
        snapshots =
            db.snapshots
            ++ record {
              client_pubkey = client_id;
              snapshot_hash = snapshot_hash;
              timestamp = db.now;
            }
              ∷ [];
      },
    )
    else (err Error.database, db)

unfoldable pub contains : ClientId → List ClientId → Bool
contains a [] = false
contains a (b ∷ bs) = if b == a then true else contains a bs

-- `select distinct destination from peer_backups where source = $1`
unfoldable pub destinations : ClientId → List PeerBackup → List ClientId
unfolding contains
destinations client_id [] = []
destinations client_id (b ∷ bs) =
    let rest = destinations client_id bs in
    if b.source == client_id && not (contains b.destination rest)
    then b.destination ∷ rest
    else rest

unfoldable pub get_client_negotiated_peers : ClientId → Exec Database Error (List ClientId)
get_client_negotiated_peers client_id =
    execute λ db. (ok (destinations client_id db.peer_backups), db)
