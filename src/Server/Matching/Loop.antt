-- ===== src/Server/Matching/Loop.antt =====
-- The loop of `fulfill`: one rule that gives a result within the fuel and what holds of it.
use backuwup.Prelude.{
  ℕ, zero, suc, ◌<◌, ◌≡◌, refl, Option, none, some, Result, ok, err, Done, length, arith,
  Option-cases, inl, inr,
}
use backuwup.Server.Error.{Stop}
use backuwup.Server.SumQueue.{SumQueue, IsFifo, length-pop}
use backuwup.Server.Connections.{Wire}
use backuwup.Server.Matching.{
  Request, Globals, Outcome, visit, settle, compare_sizes, push, notify, attempt_notify, save, cast,
  after_visit, fulfill_loop,
}

-- There is a result, and `R` holds of it.
abbrev pub Returns :
    {W : Wire} {Q : SumQueue Request}
    → (Result Stop Done → Globals W Q → Type 0)
    → Outcome W Q
    → Type 0
Returns R none = ⊥
Returns R (some (r, g)) = R r g

-- What a turn has to establish: `R` where it ends the loop, and `I` where it goes on.
abbrev pub Turn :
    {W : Wire} {Q : SumQueue Request}
    → (ℕ → Globals W Q → Type 0)
    → (Result Stop Done → Globals W Q → Type 0)
    → Result Stop (Option ℕ) × Globals W Q
    → Type 0
Turn I R (ok none, g) = R (ok tt) g
Turn I R (ok (some n), g) = I n g
Turn I R (err e, g) = R (err e) g

pub Turn-map :
    {W : Wire} {Q : SumQueue Request} (I : ℕ → Globals W Q → Type 0)
    (R R' : Result Stop Done → Globals W Q → Type 0)
    → ((out : Result Stop Done) (g : Globals W Q) → R out g → R' out g)
    → (x : Result Stop (Option ℕ) × Globals W Q) → Turn I R x
    → Turn I R' x
Turn-map I R R' f (ok none, g) t = f (ok tt) g t
Turn-map I R R' f (ok (some n), g) t = t
Turn-map I R R' f (err e, g) t = f (err e) g t

-- What goes back on the queue for a request of which `n` bytes are unfulfilled.
abbrev pub remainder : Request → ℕ → Request
remainder r n = record { client_id = r.client_id; storage_required = n }

module _ {W : Wire} {Q : SumQueue Request} where
  -- A turn that goes on has left the queue alone.
  queue-visit :
      (r : Request) (n : ℕ) (d : Request) (g : Globals W Q) (m : ℕ)
      → (visit r n d g).0 ≡ ok (some m)
      → (visit r n d g).1.queue ≡ g.queue
  unfolding visit settle compare_sizes push notify attempt_notify save cast
  queue-visit r n d g m h = ground arith

  abbrev pub popped : Globals W Q → Globals W Q
  popped g = record g { queue = (Q.pop g.queue).1 }

  module _ (fifo : IsFifo Q) (r : Request) (I : ℕ → Globals W Q → Type 0)
      (R : Result Stop Done → Globals W Q → Type 0)
      (at_end : (n : ℕ) (g : Globals W Q)
        → I n g
        → (Q.pop g.queue).0 ≡ none
        → R (push (remainder r n) (popped g)).0 (push (remainder r n) (popped g)).1)
      (turn : (n : ℕ) (g : Globals W Q) (d : Request)
        → I n g
        → (Q.pop g.queue).0 ≡ some d
        → Turn I R (visit r n d (popped g))) where
    continue-Turn :
        (again : ℕ → Globals W Q → Outcome W Q) (out : Result Stop (Option ℕ) × Globals W Q)
        → Turn I R out
        → ((m : ℕ) → out.0 ≡ ok (some m) → I m out.1 → Returns R (again m out.1))
        → Returns R (after_visit again out)
    unfolding after_visit
    continue-Turn again (ok none, g) t rest = t
    continue-Turn again (ok (some n), g) t rest = rest n refl t
    continue-Turn again (err e, g) t rest = t

    -- Fuel for one turn more than there are entries gives a result.
    pub fulfill_loop_rule :
        (fuel n : ℕ) (g : Globals W Q)
        → length (Q.items g.queue) < fuel
        → I n g
        → Returns R (fulfill_loop fuel r n g)
    unfolding fulfill_loop
    fulfill_loop_rule zero n g h i = elim h [ ]
    fulfill_loop_rule (suc fuel) n g h i = elim (Option-cases (Q.pop g.queue).0) [
      | inl e ↦ rw (e, fulfill_loop) (at_end n g i e)
      | inr (d, e) ↦
          rw (e, fulfill_loop)
            (continue-Turn (fulfill_loop fuel r) (visit r n d (popped g)) (turn n g d i e)
              λ m went j.
                fulfill_loop_rule fuel m (visit r n d (popped g)).1
                  (rw (queue-visit r n d (popped g) m went)
                    (omega (arith, length-pop fifo g.queue d e)))
                  j)
    ]
