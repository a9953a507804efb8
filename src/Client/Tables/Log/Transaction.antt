-- ===== src/Client/Tables/Log/Transaction.antt =====
-- client/src/config/log.rs: the table `log`. Sizes are below 2^63.
use backuwup.Prelude.{
  ℕ, ◌-◌, Bool, true, false, List, [], ◌∷◌, Option, none, some, Result, ok, err, Exec, Done, ltb,
  ◌==◌, if◌then◌else◌, and_then, get_elem?, not, ◌>>◌,
}
use backuwup.Shared.{ClientId}
use backuwup.Client.Config.{Failure, sql, Config, Event, restore_request, backup, LogRow, call}

-- `insert into log`: the row with the time of the call
append : Event → Exec Config Failure Done
append event = do
  call
  λ c. (ok tt, record c { log = record { timestamp = c.now; event = event } ∷ c.log })

unfoldable pub is_restore_request : ClientId → Event → Bool
is_restore_request peer_id (restore_request other) = other == peer_id
is_restore_request peer_id (backup size path) = false

is_backup : Event → Bool
is_backup (restore_request peer) = false
is_backup (backup size path) = true

newer_row : LogRow → Option LogRow → LogRow
newer_row row none = row
newer_row row (some other) = if ltb row.timestamp other.timestamp then other else row

-- `where … order by timestamp desc limit 1`
unfoldable pub newest : (Event → Bool) → List LogRow → Option LogRow
unfolding newer_row
newest matches [] = none
newest matches (row ∷ rows) =
    let rest = newest matches rows in if matches row.event then some (newer_row row rest) else rest

-- A column of a row that a query answers.
pub data Column : Type 0 where
  integer : ℕ → Column
  text : ℕ → Column

-- `row.try_get(i)`: an error outside the columns of the row, and at another type
integer_at : List Column → ℕ → Result Failure ℕ
integer_at row i = elim (get_elem? row i) [
  | none ↦ err sql
  | some (integer n) ↦ ok n
  | some (text t) ↦ err sql
]

text_at : List Column → ℕ → Result Failure ℕ
text_at row i = elim (get_elem? row i) [
  | none ↦ err sql
  | some (integer n) ↦ err sql
  | some (text t) ↦ ok t
]

-- `event_data ->> 'size'`, the one column of the query
size_column : Event → List Column
size_column (restore_request peer) = []
size_column (backup size path) = integer size ∷ []

-- `size - last_size`, which may be negative
pub data Difference : Type 0 where
  bigger : ℕ → Difference
  smaller : ℕ → Difference

difference : ℕ → ℕ → Difference
difference size last_size =
    if ltb size last_size then smaller (last_size - size) else bigger (size - last_size)

compare_backups : ℕ → ℕ → Option LogRow → Result Failure (Option Difference)
unfolding integer_at text_at size_column difference
compare_backups size path none = ok none
compare_backups size path (some row) = and_then (integer_at (size_column row.event) 0) (λ last_size.
    and_then (text_at (size_column row.event) 1)
      (λ old_path. ok (if not (old_path == path) then none else some (difference size last_size))))

unfoldable pub log_peer_restore_request : ClientId → Exec Config Failure Done
unfolding append
log_peer_restore_request peer_id = append (restore_request peer_id)

unfoldable pub get_last_peer_restore_request : ClientId → Exec Config Failure (Option ℕ)
unfolding is_restore_request
get_last_peer_restore_request peer_id = do
  call
  λ c. elim (newest (is_restore_request peer_id) c.log) [
    | none ↦ (ok none, c)
    | some row ↦ (ok (some row.timestamp), c)
  ]

unfoldable pub log_backup : ℕ → ℕ → Exec Config Failure Done
unfolding append
log_backup size path = append (backup size path)

unfoldable pub get_backup_size_difference : ℕ → ℕ → Exec Config Failure (Option Difference)
unfolding compare_backups is_backup
get_backup_size_difference size path = do
  call
  λ c. (compare_backups size path (newest is_backup c.log), c)
