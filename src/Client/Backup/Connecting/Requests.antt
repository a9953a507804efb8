-- ===== src/Client/Backup/Connecting/Requests.antt =====
-- The storage requests of client/src/backup/send.rs: their sizes, and how often they are sent.
use backuwup.Prelude.{
  ℕ, ◌+◌, ◌-◌, ◌%◌, ◌≡◌, ◌≢◌, ◌≤◌, ◌<◌, ◌∷◌, ok, arith, ltb, min, Result, Done, Bool-cases,
  Result-cases, inl, inr, List, [], refl,
}
use backuwup.Shared.{u64_mod}
use backuwup.DelayMap.{DelayMap}
use backuwup.Client.Config.{Failure}
use backuwup.Client.Defaults.{
  storage_request_cap, storage_request_retry_delay, storage_request_step,
}
use backuwup.Client.Net.Requests.{P2PConnectionRequest}
use backuwup.Client.Backup.Orchestrator.{BackupOrchestrator, update_storage_request_last_sent}
use backuwup.Client.Backup.Connecting.{
  Desk, estimate_storage_request_size, backup_storage_request, send_storage_request_if_needed,
}

-- The size that is asked for: what is missing of the estimate, up to the cap; the step, if nothing is
-- missing; and the cap, if more was fulfilled than estimated, since the difference wraps around. The
-- sizes are below 2^63.
pub estimate_storage_request_size-Sizes :
    (o : BackupOrchestrator)
    → o.size_estimate < 0x8000_0000_0000_0000
    → o.storage_requests_fulfilled_size < 0x8000_0000_0000_0000
    → (o.storage_requests_fulfilled_size < o.size_estimate
        → estimate_storage_request_size o
          ≡ min (o.size_estimate - o.storage_requests_fulfilled_size) storage_request_cap)
      × (o.storage_requests_fulfilled_size ≡ o.size_estimate
          → estimate_storage_request_size o ≡ storage_request_step)
      × (o.size_estimate < o.storage_requests_fulfilled_size
          → estimate_storage_request_size o ≡ storage_request_cap)
unfolding estimate_storage_request_size
estimate_storage_request_size-Sizes o p q =
    (λ h. ground arith, λ h. ground arith, λ h. ground arith)

module _ {D : DelayMap P2PConnectionRequest} where
  backup_storage_request-same :
      (size : ℕ) (d : Desk D)
      → ((backup_storage_request size d).1.shared ≡ d.shared)
        × ((backup_storage_request size d).1.requested ≡ size ∷ d.requested)
  unfolding backup_storage_request
  backup_storage_request-same size d = go d.accepted
    where
      go :
          (rs : List (Result Failure Done))
          → ((backup_storage_request size (record d { accepted = rs })).1.shared ≡ d.shared)
            × ((backup_storage_request size (record d { accepted = rs })).1.requested
                ≡ size ∷ d.requested)
      go [] = (refl, refl)
      go (r ∷ rs) = (refl, refl)

  -- A call that sends a request and succeeds notes the time.
  send_storage_request-noted :
      (d : Desk D)
      → (send_storage_request_if_needed d).0 ≡ ok tt
      → (send_storage_request_if_needed d).1.requested ≢ d.requested
      → (send_storage_request_if_needed d).1.shared.orchestrator.storage_request_last_sent
        ≡ d.shared.clock
  unfolding send_storage_request_if_needed update_storage_request_last_sent
  send_storage_request-noted d e new =
      let size = estimate_storage_request_size d.shared.orchestrator in
      let since =
        (d.shared.clock + u64_mod - d.shared.orchestrator.storage_request_last_sent) % u64_mod in
      elim (Bool-cases (ltb storage_request_retry_delay since)) [
        | inr early ↦ absurd (new (ground arith))
        | inl due ↦ elim (Result-cases (backup_storage_request size d).0) [
          | inr (f, p) ↦ absurd (ground arith)
          | inl (u, p) ↦ ground (arith, backup_storage_request-same size d)
        ]
      ]

  -- At most one storage request in ten seconds: if a call of `send_storage_request_if_needed` has sent a
  -- request and succeeded, a call up to ten seconds later, in a state `e` that still has the time noted
  -- by the first, does nothing and succeeds.
  pub send_storage_request_if_needed-again :
      (d e : Desk D)
      → (send_storage_request_if_needed d).0 ≡ ok tt
      → (send_storage_request_if_needed d).1.requested ≢ d.requested
      → e.shared.orchestrator.storage_request_last_sent
        ≡ (send_storage_request_if_needed d).1.shared.orchestrator.storage_request_last_sent
      → d.shared.clock ≤ e.shared.clock
      → e.shared.clock ≤ d.shared.clock + storage_request_retry_delay
      → send_storage_request_if_needed e ≡ (ok tt, e)
  unfolding send_storage_request_if_needed
  send_storage_request_if_needed-again d e fine new same later soon =
      let noted = send_storage_request-noted d fine new in
      let last : e.shared.orchestrator.storage_request_last_sent ≡ d.shared.clock = cc in
      let early : (e.shared.clock + u64_mod - e.shared.orchestrator.storage_request_last_sent)
            % u64_mod
          ≤ storage_request_retry_delay =
        omega arith in
      ground arith
