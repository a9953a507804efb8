-- ===== src/Server/Matching/Sizes.antt =====
-- The sizes that `fulfill` handles stay within the limit of a request, so no cast fails.
use backuwup.Prelude.{ℕ, suc, ◌-◌, ◌≤◌, ◌<◌, ◌≢◌, min, Result, err, Done, length, arith, All}
use backuwup.Shared.{max_backup_storage_request_size}
use backuwup.Server.Error.{Stop, panic, cast_i64}
use backuwup.Server.SumQueue.{SumQueue, IsFifo, All-push, All-pop, head-pop}
use backuwup.Server.Connections.{Wire}
use backuwup.Server.Matching.{
  Request, Globals, visit, settle, compare_sizes, push, notify, attempt_notify, save, cast, fulfill,
  fulfill_loop, start_loop,
}
use backuwup.Server.Matching.Loop.{Returns, Turn, popped, remainder, fulfill_loop_rule}

-- A request that may wait in the queue: some bytes, and at most the limit.
pub record IsWaiting (r : Request) : Type 0 where
  pub positive : 0 < r.storage_required
  pub bounded : r.storage_required ≤ max_backup_storage_request_size

module _ {W : Wire} {Q : SumQueue Request} where
  abbrev pub QueueIsValid : Globals W Q → Type 0
  QueueIsValid g = All IsWaiting (Q.items g.queue)

  abbrev pub Going : Request → ℕ → Globals W Q → Type 0
  Going r n g = IsWaiting (remainder r n) × QueueIsValid g

  -- No cast panics, and the queue holds valid requests only.
  abbrev pub Safe : Result Stop Done → Globals W Q → Type 0
  Safe out g = (out ≢ err panic) × QueueIsValid g

  Turn-Safe :
      (r : Request) (n : ℕ) (g : Globals W Q) (d : Request)
      → IsWaiting (remainder r n)
      → IsWaiting d
      → QueueIsValid g
      → ((a : Request) → IsWaiting a → All IsWaiting (Q.items (Q.push g.queue a)))
      → Turn (Going r) Safe (visit r n d g)
  unfolding visit settle compare_sizes push notify attempt_notify save cast cast_i64
  Turn-Safe r n g d hn hd v pushed =
      ground (arith, pushed (remainder d (d.storage_required - min n d.storage_required)))

  module _ (fifo : IsFifo Q) where
    loop-Safe :
        (r : Request) (n : ℕ) (g : Globals W Q)
        → Going r n g
        → Returns Safe (fulfill_loop (suc (length (Q.items g.queue))) r n g)
    unfolding push
    loop-Safe r n g =
        fulfill_loop_rule fifo r (Going r) Safe
          (λ m k i _.
            (λ e. cc, All-push fifo IsWaiting _ _ (All-pop fifo IsWaiting k.queue i.1) i.0))
          (λ m k d i e.
            Turn-Safe r m (popped k) d i.0 (head-pop fifo IsWaiting k.queue d e i.1)
              (All-pop fifo IsWaiting k.queue i.1)
              λ a ha. All-push fifo IsWaiting _ a (All-pop fifo IsWaiting k.queue i.1) ha)
          (suc (length (Q.items g.queue))) n g (omega arith)

    -- From a queue of requests of 1 to 16 GiB, `fulfill` returns on every request, whatever the
    -- sockets and the database answer; it never panics in a cast, and the queue stays such a queue.
    pub fulfill-Safe : (r : Request) (g : Globals W Q) → QueueIsValid g → Returns Safe (fulfill r g)
    unfolding fulfill start_loop cast_i64
    fulfill-Safe r g v = ground (arith, loop-Safe r r.storage_required g)
