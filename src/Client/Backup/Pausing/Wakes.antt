-- ===== src/Client/Backup/Pausing/Wakes.antt =====
-- What holds of the waiting packing tasks, in every interleaving.
use backuwup.Prelude.{ℕ, ◌≡◌, ◌≢◌, true, List, [], ◌∷◌, ◌++◌, arith, ==_refl}
use backuwup.Client.Backup.Orchestrator.{
  Listener, packing, sending, subscribe, set_paused, drain, update_packfile_bytes_written,
  increment_packfile_bytes_sent,
}
use backuwup.Client.Backup.Pausing.{
  working, waiting, System, moved, hears, wake, Step, write, rest, block, listen, send, pause_store,
  pause_subscribe, resume_store, resume_drain, Reach, here, next,
}

hears-append :
    (task : ℕ) (tx : Listener) (ls : List Listener)
    → hears task ls ≡ true
    → hears task (ls ++ tx ∷ []) ≡ true
unfolding hears
hears-append task tx [] h = cc
hears-append task tx (packing other ∷ ls) h = ground (arith, hears-append task tx ls)
hears-append task tx (sending ∷ ls) h = hears-append task tx ls h

hears-subscribed : (task : ℕ) (ls : List Listener) → hears task (ls ++ packing task ∷ []) ≡ true
unfolding hears
hears-subscribed task [] = ground (arith, ==_refl task)
hears-subscribed task (packing other ∷ ls) = ground (arith, hears-subscribed task ls)
hears-subscribed task (sending ∷ ls) = hears-subscribed task ls

-- Whoever waits is on the list.
abbrev pub IsHeard : ℕ → System → Type 0
IsHeard task s = s.packers task ≡ waiting → hears task s.orchestrator.listeners ≡ true

Step-IsHeard : (task : ℕ) {s t : System} → Step s t → IsHeard task s → IsHeard task t
unfolding subscribe set_paused drain wake moved update_packfile_bytes_written
    increment_packfile_bytes_sent
Step-IsHeard task (write other bytes p) h e = h e
Step-IsHeard task (rest other p) h e = ground (arith, h)
Step-IsHeard task (block other p c) h e = ground (arith, h)
Step-IsHeard task {s} (listen other p) h e =
    let old = hears-append task (packing other) s.orchestrator.listeners in
    let new = hears-subscribed task s.orchestrator.listeners in ground (arith, h, old, new)
Step-IsHeard task (send bytes n p) h e = h e
Step-IsHeard task (pause_store p f) h e = h e
Step-IsHeard task {s} (pause_subscribe p) h e =
    hears-append task sending s.orchestrator.listeners (h e)
Step-IsHeard task (resume_store p g c) h e = h e
Step-IsHeard task {s} (resume_drain p) h e = ground (arith, h)

pub Reach-IsHeard : (task : ℕ) {s t : System} → IsHeard task s → Reach s t → IsHeard task t
Reach-IsHeard task h here = h
Reach-IsHeard task h (next r st) = Step-IsHeard task st (Reach-IsHeard task h r)

-- No waiting task is forgotten: whatever the tasks did since a moment at which a task did not wait, if
-- it waits now, the next resume of the sending task makes it work again.
pub Reach-wake :
    (task : ℕ) {s t : System}
    → s.packers task ≢ waiting
    → Reach s t
    → t.packers task ≡ waiting
    → wake (drain t.orchestrator).0 t.packers task ≡ working
unfolding wake drain
Reach-wake task {s} {t} w r e =
    let heard = Reach-IsHeard task {s = s} {t = t} (λ x. absurd (w x)) r e in ground (arith, heard)
