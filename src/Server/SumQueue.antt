-- ===== src/Server/SumQueue.antt =====
-- The crate `sum_queue`, as server/src/backup_request.rs uses it: a first-in first-out queue whose
-- entries expire. A queue's value knows the time that its next calls will see, so a call may first
-- drop entries that have become too old; those are the oldest ones, since all live equally long.
use backuwup.Prelude.{
  suc, ◌≡◌, ap, ◌<◌, arith, Option, none, some, List, [], ◌∷◌, ◌++◌, length, length-append, All,
  All-append, All-drop_prefix, subst,
}

pub record SumQueue (A : Type 0) : Type 1 where
  pub Queue : Type 0
  -- what `iter` goes through, the oldest entry first
  pub items : Queue → List A
  pub push : Queue → A → Queue
  pub pop : Queue → Option A × Queue

-- What a call leaves of the entries `before`, once the expired ones are gone.
pub data Expires {A : Type 0} (before live : List A) : Type 0 where
  expired : (old : List A) → before ≡ old ++ live → Expires before live

pub data Popped {A : Type 0} (live : List A) (head : Option A) (rest : List A) : Type 0 where
  empty : live ≡ [] → head ≡ none → rest ≡ [] → Popped live head rest
  front : (a : A) → live ≡ a ∷ rest → head ≡ some a → Popped live head rest

-- The documented behaviour of the crate.
pub record IsFifo {A : Type 0} (Q : SumQueue A) : Type 0 where
  pub push_lem :
      (q : Q.Queue) (a : A)
      → (live : List A) × (Expires (Q.items q) live) × (Q.items (Q.push q a) ≡ live ++ a ∷ [])
  pub pop_lem :
      (q : Q.Queue)
      → (live : List A) × (Expires (Q.items q) live)
        × (Popped live (Q.pop q).0 (Q.items (Q.pop q).1))

module _ {A : Type 0} {Q : SumQueue A} (fifo : IsFifo Q) where
  length-live : (before live : List A) → Expires before live → length live < suc (length before)
  length-live before live (expired old e) = omega (arith, ap length e, length-append old live)

  -- A pop that finds an entry leaves fewer.
  pub length-pop :
      (q : Q.Queue) (a : A)
      → (Q.pop q).0 ≡ some a
      → length (Q.items (Q.pop q).1) < length (Q.items q)
  length-pop q a h = let (live, gone, popped) = fifo.pop_lem q in shorter live gone popped
    where
      shorter :
          (live : List A)
          → Expires (Q.items q) live
          → Popped live (Q.pop q).0 (Q.items (Q.pop q).1)
          → length (Q.items (Q.pop q).1) < length (Q.items q)
      shorter live gone (empty _ e _) = cc
      shorter live gone (front b e _) =
          omega (arith, ap length e, length-live (Q.items q) live gone)

  -- What holds of every entry holds of those that expiry leaves, and after a push and a pop.
  module _ (P : A → Type 0) where
    All-live : (before live : List A) → Expires before live → All P before → All P live
    All-live before live (expired old e) h = All-drop_prefix P old live (subst (All P) e h)

    pub All-push : (q : Q.Queue) (a : A) → All P (Q.items q) → P a → All P (Q.items (Q.push q a))
    All-push q a h pa =
        let (live, gone, e) = fifo.push_lem q a in
        rw e (All-append P live (a ∷ []) (All-live (Q.items q) live gone h) (pa, tt))

    pub All-pop : (q : Q.Queue) → All P (Q.items q) → All P (Q.items (Q.pop q).1)
    All-pop q h =
        let (live, gone, p) = fifo.pop_lem q in go live p (All-live (Q.items q) live gone h)
      where
        go :
            (live : List A)
            → Popped live (Q.pop q).0 (Q.items (Q.pop q).1)
            → All P live
            → All P (Q.items (Q.pop q).1)
        go live (empty _ _ e) k = rw e tt
        go live (front b e _) k = (subst (All P) e k).1

    pub head-pop : (q : Q.Queue) (a : A) → (Q.pop q).0 ≡ some a → All P (Q.items q) → P a
    head-pop q a e h =
        let (live, gone, p) = fifo.pop_lem q in go live p (All-live (Q.items q) live gone h)
      where
        go : (live : List A) → Popped live (Q.pop q).0 (Q.items (Q.pop q).1) → All P live → P a
        go live (empty _ n _) k = cc
        go live (front b le s) k = subst P (cc) ((subst (All P) le k).0)
