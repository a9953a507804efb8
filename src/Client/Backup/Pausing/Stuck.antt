-- ===== src/Client/Backup/Pausing/Stuck.antt =====
-- A resume between the two halves of `block_if_paused`.
use backuwup.Prelude.{
  Bool-cases, ◌⊎◌, inl, inr, subst, ℕ, ◌≡◌, ◌≢◌, refl, sym, ◌≤◌, true, false, ◌==◌, ==_refl, ==_iff,
  arith,
}
use backuwup.Client.Defaults.{max_packfile_local_buffer_size}
use backuwup.Client.Backup.Loop.{has_room}
use backuwup.Client.Backup.Orchestrator.{
  packing, should_continue, subscribe, set_paused, drain, increment_packfile_bytes_sent,
  available_packfile_bytes,
}
use backuwup.Client.Backup.Pausing.{
  blocked, waiting, idle, elsewhere, System, moved, wake, Step, write, rest, block, listen, send,
  pause_store, pause_subscribe, resume_store, resume_drain, Reach, here, next,
}

-- One task waits, the others have ended or await it, and nothing says that it should wait.
pub record IsStuck (task : ℕ) (s : System) : Type 0 where
  pub waits : s.packers task ≡ waiting
  pub others : (other : ℕ) → other ≢ task → s.packers other ≡ idle
  pub continues : should_continue s.orchestrator ≡ true
  pub small : available_packfile_bytes s.orchestrator ≤ max_packfile_local_buffer_size
  pub away : s.sender ≡ elsewhere

-- No task is working or blocked.
IsStuck-rests :
    (task other : ℕ) {s : System}
    → IsStuck task s
    → (s.packers other ≡ waiting) ⊎ (s.packers other ≡ idle)
IsStuck-rests task other {s} k = elim (Bool-cases (other == task)) [
  | inl e ↦ inl (subst (λ i. s.packers i ≡ waiting) (sym ((==_iff other task).0 e)) k.waits)
  | inr e ↦ inr (k.others other (λ p. ground (arith, ==_iff other task)))
]

Step-IsStuck : (task : ℕ) {s t : System} → Step s t → IsStuck task s → IsStuck task t
unfolding should_continue available_packfile_bytes increment_packfile_bytes_sent
Step-IsStuck task {s} (write other bytes p) k = absurd (ground (arith, IsStuck-rests task other k))
Step-IsStuck task {s} (rest other p) k = absurd (ground (arith, IsStuck-rests task other k))
Step-IsStuck task {s} (block other p c) k = absurd (ground (arith, k.continues))
Step-IsStuck task {s} (listen other p) k = absurd (ground (arith, IsStuck-rests task other k))
Step-IsStuck task {s} (send bytes n p) k = record {
  waits = k.waits;
  others = k.others;
  continues = k.continues;
  small = omega (arith, k.small);
  away = k.away;
}
Step-IsStuck task {s} (pause_store p f) k = absurd (omega (arith, k.small))
Step-IsStuck task {s} (pause_subscribe p) k = absurd (ground (arith, k.away))
Step-IsStuck task {s} (resume_store p g c) k = absurd (ground (arith, k.continues))
Step-IsStuck task {s} (resume_drain p) k = absurd (ground (arith, k.away))

pub Reach-IsStuck : (task : ℕ) {s t : System} → Reach s t → IsStuck task s → IsStuck task t
Reach-IsStuck task here k = k
Reach-IsStuck task (next r st) k = Step-IsStuck task st (Reach-IsStuck task r k)

module _ (task : ℕ) (s : System) (between : s.packers task ≡ blocked) where
  abbrev after_resume : System
  after_resume = record s {
    orchestrator = (drain (set_paused false s.orchestrator)).1;
    packers = wake s.orchestrator.listeners s.packers;
    sender = elsewhere;
  }

  abbrev stuck : System
  stuck = record after_resume {
    orchestrator = subscribe (packing task) after_resume.orchestrator;
    packers = moved task waiting after_resume.packers;
  }

  still_blocked : wake s.orchestrator.listeners s.packers task ≡ blocked
  unfolding wake
  still_blocked = ground arith

  others_idle :
      ((other : ℕ) → other ≢ task → s.packers other ≡ idle)
      → (other : ℕ) → other ≢ task
      → stuck.packers other ≡ idle
  unfolding wake moved
  others_idle alone other ne = ground (arith, alone other, ==_iff other task)

  task_waits : stuck.packers task ≡ waiting
  unfolding moved
  task_waits = ground (arith, ==_refl task)

  -- A lost wakeup: while a task stands between the test of `block_if_paused` and its subscription, the
  -- other tasks have ended or await it, and the sending task is between its steps, finds the backup
  -- paused and room in the buffer, which is not over its limit, and so resumes, there is an order of steps behind which that task waits for ever, whatever comes.
  pub blocked-waits :
      ((other : ℕ) → other ≢ task → s.packers other ≡ idle)
      → should_continue s.orchestrator ≡ false
      → has_room s.orchestrator ≡ true
      → available_packfile_bytes s.orchestrator ≤ max_packfile_local_buffer_size
      → s.sender ≡ elsewhere
      → (t : System) × Reach s t × ((u : System) → Reach t u → u.packers task ≡ waiting)
  unfolding set_paused drain subscribe should_continue available_packfile_bytes
  blocked-waits alone paused room small away =
      let told = next (next here (resume_store away room paused)) (resume_drain refl) in
      let k : IsStuck task stuck = record {
        waits = task_waits;
        others = others_idle alone;
        continues = refl;
        small = small;
        away = refl;
      } in
      (stuck, next told (listen task still_blocked), λ u r. (Reach-IsStuck task r k).waits)
