-- ===== src/Server/Matching/Exact.antt =====
-- A call of `fulfill` that succeeds: the new request is split exactly, and both sides of each match
-- are recorded alike.
use backuwup.Prelude.{
  ℕ, suc, ◌+◌, ◌≡◌, refl, subst, ◌⊎◌, some, inl, inr, min, Result, ok, Done, List, [], ◌∷◌, ◌++◌,
  length, arith,
}
use backuwup.Shared.{ClientId}
use backuwup.Server.Error.{Stop, cast_i64}
use backuwup.Server.SumQueue.{SumQueue, IsFifo}
use backuwup.Server.Connections.{Wire}
use backuwup.Server.Database.{Database, save_storage_negotiated}
use backuwup.Server.Ledger.{granted, granted-save, between, between-save}
use backuwup.Server.Matching.{
  Request, Globals, visit, settle, compare_sizes, push, notify, attempt_notify, save, cast, fulfill,
  fulfill_loop, start_loop,
}
use backuwup.Server.Matching.Loop.{Returns, Turn, Turn-map, popped, remainder, fulfill_loop_rule}

-- The last entry of the list is `a`.
pub data EndsWith (xs : List Request) (a : Request) : Type 0 where
  ends : (front : List Request) → xs ≡ front ++ a ∷ [] → EndsWith xs a

module _ {W : Wire} {Q : SumQueue Request} (r : Request) (total : ℕ) where
  abbrev Owed : ℕ → Globals W Q → Type 0
  Owed n g = granted r.client_id g.db.peer_backups + n ≡ total

  abbrev Paid : Result Stop Done → Globals W Q → Type 0
  Paid out g = out ≡ ok tt → granted r.client_id g.db.peer_backups ≡ total

  -- `rest` bytes are left of the request, and wait at the end of the queue.
  abbrev pub Waits : Globals W Q → Type 0
  Waits g =
      (rest : ℕ) × (granted r.client_id g.db.peer_backups + rest ≡ total)
      × EndsWith (Q.items g.queue) (remainder r rest)

  abbrev pub Exact : Result Stop Done → Globals W Q → Type 0
  Exact out g = out ≡ ok tt → (granted r.client_id g.db.peer_backups ≡ total) ⊎ Waits g

  Turn-Owed : (n : ℕ) (g : Globals W Q) (d : Request) → Owed n g → Turn Owed Paid (visit r n d g)
  unfolding visit settle compare_sizes push notify attempt_notify save cast cast_i64
  Turn-Owed n g d h =
      let m : ℕ = min n d.storage_required in
      ground (
        arith,
        granted-save r.client_id r.client_id d.client_id m g.db,
        granted-save r.client_id d.client_id r.client_id m
            (save_storage_negotiated r.client_id d.client_id m g.db).1,
      )

  module _ (fifo : IsFifo Q) where
    end-Exact :
        (n : ℕ) (g : Globals W Q)
        → Owed n g
        → Exact (push (remainder r n) (popped g)).0 (push (remainder r n) (popped g)).1
    unfolding push
    end-Exact n g h _ =
        let (live, gone, e) = fifo.push_lem (Q.pop g.queue).1 (remainder r n) in
        inr (n, h, ends live e)

    loop-Exact :
        (n : ℕ) (g : Globals W Q)
        → Owed n g
        → Returns Exact (fulfill_loop (suc (length (Q.items g.queue))) r n g)
    loop-Exact n g =
        fulfill_loop_rule fifo r Owed Exact (λ m k i _. end-Exact m k i)
          (λ m k d i e.
            Turn-map Owed Paid Exact (λ out l p e'. inl (p e')) _ (Turn-Owed m (popped k) d i))
          (suc (length (Q.items g.queue))) n g (omega arith)

module _ {W : Wire} {Q : SumQueue Request} (fifo : IsFifo Q) where
  Returns-Exact :
      (r : Request) (g : Globals W Q)
      → Returns (Exact r (granted r.client_id g.db.peer_backups + r.storage_required)) (fulfill r g)
  unfolding fulfill start_loop cast_i64
  Returns-Exact r g = ground (
    arith,
    loop-Exact r (granted r.client_id g.db.peer_backups + r.storage_required) fifo
        r.storage_required g,
  )

  -- When `fulfill` succeeds, the new request is accounted for exactly: its client has been granted
  -- all of it, or all but a rest, and a request for just that rest is the last entry of the queue.
  pub fulfill-Exact :
      (r : Request) (g g' : Globals W Q)
      → fulfill r g ≡ some (ok tt, g')
      → (granted r.client_id g'.db.peer_backups
          ≡ granted r.client_id g.db.peer_backups + r.storage_required)
        ⊎ Waits r (granted r.client_id g.db.peer_backups + r.storage_required) g'
  fulfill-Exact r g g' e = subst (Returns (Exact r _)) e (Returns-Exact r g) refl

module _ {W : Wire} {Q : SumQueue Request} (a b : ClientId) where
  -- Each of two clients was granted as much by the other.
  abbrev pub Balanced : Globals W Q → Type 0
  Balanced g = between a b g.db.peer_backups ≡ between b a g.db.peer_backups

  abbrev BalancedTurn : ℕ → Globals W Q → Type 0
  BalancedTurn _ g = Balanced g

  abbrev pub BalancedIfOk : Result Stop Done → Globals W Q → Type 0
  BalancedIfOk out g = out ≡ ok tt → Balanced g

  Turn-Balanced :
      (r : Request) (n : ℕ) (g : Globals W Q) (d : Request)
      → Balanced g
      → Turn BalancedTurn BalancedIfOk (visit r n d g)
  unfolding visit settle compare_sizes push notify attempt_notify save cast cast_i64
  Turn-Balanced r n g d h =
      let m : ℕ = min n d.storage_required in
      let db : Database = (save_storage_negotiated r.client_id d.client_id m g.db).1 in
      ground (
        arith,
        between-save a b r.client_id d.client_id m g.db,
        between-save a b d.client_id r.client_id m db,
        between-save b a r.client_id d.client_id m g.db,
        between-save b a d.client_id r.client_id m db,
      )

  module _ (fifo : IsFifo Q) where
    loop-Balanced :
        (r : Request) (n : ℕ) (g : Globals W Q)
        → Balanced g
        → Returns BalancedIfOk (fulfill_loop (suc (length (Q.items g.queue))) r n g)
    unfolding push
    loop-Balanced r n g =
        fulfill_loop_rule fifo r BalancedTurn BalancedIfOk (λ m k i _ _. i)
          (λ m k d i e. Turn-Balanced r m (popped k) d i) (suc (length (Q.items g.queue))) n g
          (omega arith)

    Returns-Balanced :
        (r : Request) (g : Globals W Q) → Balanced g → Returns BalancedIfOk (fulfill r g)
    unfolding fulfill start_loop cast_i64
    Returns-Balanced r g h = ground (arith, loop-Balanced r r.storage_required g)

    -- Storage is exchanged one to one: if two clients were granted the same by each other, then they
    -- still are after a call of `fulfill` that succeeds.
    pub fulfill-Balanced :
        (r : Request) (g g' : Globals W Q)
        → fulfill r g ≡ some (ok tt, g')
        → Balanced g
        → Balanced g'
    fulfill-Balanced r g g' e h = subst (Returns BalancedIfOk) e (Returns-Balanced r g h) refl
