-- ===== src/Server/Ledger.antt =====
-- Views of the table `peer_backups` (server/src/db.rs): how much storage was negotiated, in total
-- for a client and between two clients.
use backuwup.Prelude.{
  ℕ, ◌+◌, ◌≡◌, ◌&&◌, List, [], ◌∷◌, ◌++◌, ◌==◌, if◌then◌else◌, Result, ok, err, Done, arith,
}
use backuwup.Shared.{ClientId}
use backuwup.Server.Error.{Error}
use backuwup.Server.Database.{Database, PeerBackup, execute, save_storage_negotiated}

-- What the client `c` was granted in all.
unfoldable pub granted : ClientId → List PeerBackup → ℕ
granted c [] = 0
granted c (b ∷ bs) = (if b.source == c then b.size_negotiated else 0) + granted c bs

-- What `a` was granted on the disk of `b`.
unfoldable pub between : ClientId → ClientId → List PeerBackup → ℕ
between a b [] = 0
between a b (r ∷ rs) =
    (if r.source == a && r.destination == b then r.size_negotiated else 0) + between a b rs

granted-append :
    (c : ClientId) (xs ys : List PeerBackup) → granted c (xs ++ ys) ≡ granted c xs + granted c ys
unfolding granted
granted-append c [] ys = ground arith
granted-append c (x ∷ xs) ys = ground (arith, granted-append c xs ys)

between-append :
    (a b : ClientId) (xs ys : List PeerBackup)
    → between a b (xs ++ ys) ≡ between a b xs + between a b ys
unfolding between
between-append a b [] ys = ground arith
between-append a b (x ∷ xs) ys = ground (arith, between-append a b xs ys)

-- An insert counts if it succeeded.
abbrev pub counted : Result Error Done → ℕ → ℕ
counted (ok _) n = n
counted (err _) n = 0

pub granted-save :
    (c source destination : ClientId) (n : ℕ) (db : Database)
    → granted c (save_storage_negotiated source destination n db).1.peer_backups
      ≡ granted c db.peer_backups
        + counted (save_storage_negotiated source destination n db).0 (if source == c then n else 0)
unfolding save_storage_negotiated execute granted
granted-save c source destination n db = ground (
  arith,
  granted-append c db.peer_backups (
      record { source = source; destination = destination; size_negotiated = n; timestamp = db.now }
      ∷ []),
)

pub between-save :
    (a b source destination : ClientId) (n : ℕ) (db : Database)
    → between a b (save_storage_negotiated source destination n db).1.peer_backups
      ≡ between a b db.peer_backups
        + counted
            (save_storage_negotiated source destination n db).0
            (if source == a && destination == b then n else 0)
unfolding save_storage_negotiated execute between
between-save a b source destination n db = ground (
  arith,
  between-append a b db.peer_backups (
      record { source = source; destination = destination; size_negotiated = n; timestamp = db.now }
      ∷ []),
)
