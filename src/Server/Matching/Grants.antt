-- ===== src/Server/Matching/Grants.antt =====
-- What `fulfill` grants against what was asked for.
use backuwup.Prelude.{
  ℕ, suc, ◌+◌, ◌-◌, ◌≤◌, ◌≡◌, ◌==◌, ap, min, Option, none, some, Result, Done, List, [], ◌∷◌, ◌++◌,
  length, arith, if◌then◌else◌,
}
use backuwup.Shared.{ClientId}
use backuwup.Server.Error.{Stop, cast_i64}
use backuwup.Server.SumQueue.{SumQueue, IsFifo, Expires, expired, Popped, empty, front}
use backuwup.Server.Connections.{Wire}
use backuwup.Server.Database.{save_storage_negotiated}
use backuwup.Server.Ledger.{granted, granted-save}
use backuwup.Server.Matching.{
  Request, Globals, visit, settle, compare_sizes, push, notify, attempt_notify, save, cast, fulfill,
  fulfill_loop, start_loop,
}
use backuwup.Server.Matching.Loop.{Returns, Turn, popped, remainder, fulfill_loop_rule}

-- What the request `r` asks for the client `c`.
abbrev pub asked : ClientId → Request → ℕ
asked c r = if r.client_id == c then r.storage_required else 0

-- What the entries of a queue ask for it.
pub queued : ClientId → List Request → ℕ
queued c [] = 0
queued c (r ∷ rs) = asked c r + queued c rs

queued-append :
    (c : ClientId) (xs ys : List Request) → queued c (xs ++ ys) ≡ queued c xs + queued c ys
unfolding queued
queued-append c [] ys = ground arith
queued-append c (x ∷ xs) ys = ground (arith, queued-append c xs ys)

module _ {Q : SumQueue Request} (fifo : IsFifo Q) (c : ClientId) where
  queued-live : (before live : List Request) → Expires before live → queued c live ≤ queued c before
  queued-live before live (expired old e) = omega (arith, ap (queued c) e, queued-append c old live)

  queued-push :
      (q : Q.Queue) (a : Request)
      → queued c (Q.items (Q.push q a)) ≤ queued c (Q.items q) + asked c a
  unfolding queued
  queued-push q a =
      let (live, gone, e) = fifo.push_lem q a in
      omega
        (arith, ap (queued c) e, queued-append c live (a ∷ []), queued-live (Q.items q) live gone)

  -- What the popped entry asks is no longer queued.
  abbrev taken : Option Request → ℕ
  taken none = 0
  taken (some a) = asked c a

  queued-pop :
      (q : Q.Queue) → queued c (Q.items (Q.pop q).1) + taken (Q.pop q).0 ≤ queued c (Q.items q)
  unfolding queued
  queued-pop q =
      let (live, gone, p) = fifo.pop_lem q in go live p (queued-live (Q.items q) live gone)
    where
      go :
          (live : List Request)
          → Popped live (Q.pop q).0 (Q.items (Q.pop q).1)
          → queued c live ≤ queued c (Q.items q)
          → queued c (Q.items (Q.pop q).1) + taken (Q.pop q).0 ≤ queued c (Q.items q)
      go live (empty l n r) k = rw (n, r) (omega arith)
      go live (front b l s) k = rw s (omega (arith, ap (queued c) l))

module _ {W : Wire} {Q : SumQueue Request} (c : ClientId) (total : ℕ) where
  -- What the client was granted and what is still asked for it.
  abbrev pub Within : Request → ℕ → Globals W Q → Type 0
  Within r n g =
      granted c g.db.peer_backups + queued c (Q.items g.queue) + asked c (remainder r n) ≤ total

  abbrev pub Granted : Result Stop Done → Globals W Q → Type 0
  Granted _ g = granted c g.db.peer_backups + queued c (Q.items g.queue) ≤ total

  Turn-Within :
      (r : Request) (n : ℕ) (g : Globals W Q) (d : Request)
      → granted c g.db.peer_backups
          + queued c (Q.items g.queue)
          + asked c (remainder r n)
          + asked c d
        ≤ total
      → ((a : Request)
          → queued c (Q.items (Q.push g.queue a)) ≤ queued c (Q.items g.queue) + asked c a)
      → Turn (Within r) Granted (visit r n d g)
  unfolding visit settle compare_sizes push notify attempt_notify save cast cast_i64
  Turn-Within r n g d h pushed =
      let m : ℕ = min n d.storage_required in
      ground (
        arith,
        pushed (remainder d (d.storage_required - m)),
        granted-save c r.client_id d.client_id m g.db,
        granted-save c d.client_id r.client_id m
            (save_storage_negotiated r.client_id d.client_id m g.db).1,
      )

module _ {W : Wire} {Q : SumQueue Request} (fifo : IsFifo Q) (c : ClientId) where
  popped-Within :
      (total : ℕ) (r : Request) (n : ℕ) (g : Globals W Q) (d : Request)
      → Within c total r n g
      → (Q.pop g.queue).0 ≡ some d
      → granted c g.db.peer_backups
          + queued c (Q.items (Q.pop g.queue).1)
          + asked c (remainder r n)
          + asked c d
        ≤ total
  popped-Within total r n g d h e =
      let k : queued c (Q.items (Q.pop g.queue).1) + asked c d ≤ queued c (Q.items g.queue) =
        rw e at (queued-pop fifo c g.queue) in
      omega arith

  end-Granted :
      (total : ℕ) (r : Request) (n : ℕ) (g : Globals W Q)
      → Within c total r n g
      → Granted c total (push (remainder r n) (popped g)).0 (push (remainder r n) (popped g)).1
  unfolding push
  end-Granted total r n g h =
      omega (arith, queued-pop fifo c g.queue, queued-push fifo c (Q.pop g.queue).1 (remainder r n))

  loop-Granted :
      (total : ℕ) (r : Request) (n : ℕ) (g : Globals W Q)
      → Within c total r n g
      → Returns (Granted c total) (fulfill_loop (suc (length (Q.items g.queue))) r n g)
  loop-Granted total r n g =
      fulfill_loop_rule fifo r (Within c total r) (Granted c total)
        (λ m k i _. end-Granted total r m k i)
        (λ m k d i e.
          Turn-Within c total r m (popped k) d (popped-Within total r m k d i e)
            (queued-push fifo c (Q.pop k.queue).1))
        (suc (length (Q.items g.queue))) n g (omega arith)

  -- However a call of `fulfill` ends, with errors too, no client has been granted more than it asked
  -- for: what a client was granted and still waits for grows by at most the new request, and by
  -- nothing for any client but the one that makes it.
  pub fulfill-Granted :
      (r : Request) (g : Globals W Q)
      → Returns
          (Granted c (granted c g.db.peer_backups + queued c (Q.items g.queue) + asked c r))
          (fulfill r g)
  unfolding fulfill start_loop cast_i64
  fulfill-Granted r g = ground (
    arith,
    loop-Granted (granted c g.db.peer_backups + queued c (Q.items g.queue) + asked c r) r
        r.storage_required g,
  )
