-- ===== src/Server/Matching.antt =====
-- server/src/backup_request.rs: storage requests are matched with those that wait in the queue.
-- One call of `fulfill` runs here with no other handler between its steps.
pub mod Loop
pub mod Sizes
pub mod Grants
pub mod Exact
mod Examples
use backuwup.Prelude.{
  ℕ, zero, suc, ◌-◌, min, ◌==◌, ltb, Option, none, some, if◌then◌else◌, Result, ok, err, Exec, Done,
  length, pure, lift, ◌>>=◌, ◌>>◌,
}
use Prim.Native.Nat.{compare, Ordering}
use backuwup.Shared.{ClientId, ServerMessageWs, backup_matched, max_backup_storage_request_size}
use backuwup.Server.Error.{Error, Stop, error, cast_i64}
use backuwup.Server.SumQueue.{SumQueue}
use backuwup.Server.Connections.{Wire, ClientConnections, notify_client}
use backuwup.Server.Database.{Database, save_storage_negotiated}

pub record Request : Type 0 where
  pub storage_required : ℕ
  pub client_id : ClientId

-- The globals `BACKUP_REQUESTS`, `CONNECTIONS` and `DB` of server/src/main.rs.
pub record Globals (W : Wire) (Q : SumQueue Request) : Type 0 where
  pub queue : Q.Queue
  pub connections : ClientConnections W
  pub db : Database

-- `m?` of a method that answers with a handler error
abbrev pub or_stop : {A : Type 0} → Result Error A → Result Stop A
or_stop (ok a) = ok a
or_stop (err e) = err (error e)

-- `none` is no result within the fuel.
abbrev pub Outcome : (W : Wire) → SumQueue Request → Type 0
Outcome W Q = Option (Result Stop Done × Globals W Q)

module _ {W : Wire} {Q : SumQueue Request} where
  -- A call whose result the caller matches on itself.
  pub attempt_notify : ClientId → ServerMessageWs → Exec (Globals W Q) Stop (Result Error Done)
  attempt_notify client_id message g =
      let (r, c) = notify_client W client_id message g.connections in
      (ok r, record g { connections = c })

  pub notify : ClientId → ServerMessageWs → Exec (Globals W Q) Stop Done
  notify client_id message g =
      let (r, c) = notify_client W client_id message g.connections in
      (or_stop r, record g { connections = c })

  pub save : ClientId → ClientId → ℕ → Exec (Globals W Q) Stop Done
  save source destination size g =
      let (r, db) = save_storage_negotiated source destination size g.db in
      (or_stop r, record g { db = db })

  pub push : Request → Exec (Globals W Q) Stop Done
  push request g = (ok tt, record g { queue = Q.push g.queue request })

  -- `i64(n).unwrap()`
  pub cast : ℕ → Exec (Globals W Q) Stop ℕ
  cast n = lift (cast_i64 n)

  -- The comparison at the end of a match: `none` returns from `fulfill`, and `some n` goes on with
  -- `n` bytes to fulfill.
  pub compare_sizes : Request → ℕ → ℕ → ℕ → Exec (Globals W Q) Stop (Option ℕ)
  compare_sizes destination matched storage_to_fulfill required =
      elim (compare storage_to_fulfill required) [
        | Ordering.lt ↦ do
          push (record {
            client_id = destination.client_id;
            storage_required = destination.storage_required - matched;
          })
          pure none
        | Ordering.gt ↦ pure (some (storage_to_fulfill - required))
        | Ordering.eq ↦ pure none
      ]

  -- What follows the notification of the client whose request was queued.
  pub settle : Request → ℕ → Request → ℕ → Result Error Done → Exec (Globals W Q) Stop (Option ℕ)
  settle request storage_to_fulfill destination matched (err e) = pure (some storage_to_fulfill)
  settle request storage_to_fulfill destination matched (ok _) = do
    notify request.client_id (
        backup_matched
          (record { storage_available = matched; destination_id = destination.client_id }))
    first ← cast matched
    save request.client_id destination.client_id first
    second ← cast matched
    save destination.client_id request.client_id second
    required ← cast destination.storage_required
    compare_sizes destination matched storage_to_fulfill required

  -- The loop's body, for a request that was popped. `storage_to_fulfill` is an `i64` in the source,
  -- and is never negative: only a smaller amount is taken from it.
  pub visit : Request → ℕ → Request → Exec (Globals W Q) Stop (Option ℕ)
  visit request storage_to_fulfill destination =
      if destination.client_id == request.client_id then pure (some storage_to_fulfill) else do
        let matched = min storage_to_fulfill destination.storage_required
        notified ← attempt_notify destination.client_id (
            backup_matched
              (record { storage_available = matched; destination_id = request.client_id }))
        settle request storage_to_fulfill destination matched notified

  -- What the loop does after its body.
  pub after_visit :
      (ℕ → Globals W Q → Outcome W Q) → Result Stop (Option ℕ) × Globals W Q → Outcome W Q
  after_visit again (ok none, g) = some (ok tt, g)
  after_visit again (ok (some n), g) = again n g
  after_visit again (err e, g) = some (err e, g)

  -- `while let Some(destination) = self.pop()` and the push behind it.
  pub fulfill_loop : ℕ → Request → ℕ → Globals W Q → Outcome W Q
  fulfill_loop zero request storage_to_fulfill g = none
  fulfill_loop (suc fuel) request storage_to_fulfill g =
      let popped = Q.pop g.queue in
      elim popped.0 [
        | none ↦ some (
            push (record { client_id = request.client_id; storage_required = storage_to_fulfill })
              (record g { queue = popped.1 }))
        | some destination ↦
            after_visit (fulfill_loop fuel request)
              (visit request storage_to_fulfill destination (record g { queue = popped.1 }))
      ]

  pub start_loop : Request → Result Stop ℕ → Globals W Q → Outcome W Q
  start_loop request (err e) g = some (err e, g)
  start_loop request (ok n) g = fulfill_loop (suc (length (Q.items g.queue))) request n g

  -- Each turn takes an entry off the queue, and the last one finds it empty.
  pub fulfill : Request → Globals W Q → Outcome W Q
  unfolding start_loop
  fulfill request g =
      if request.storage_required == 0
      then some (ok tt, g)
      else if ltb max_backup_storage_request_size request.storage_required
      then some (err (error Error.bad_request), g)
      else start_loop request (cast_i64 request.storage_required) g
