-- ===== src/Client/Backup/Connecting.antt =====
-- client/src/backup/send.rs: how a connection to a peer with storage is found, and storage requested.
pub mod Requests
pub mod Sessions
mod Examples
use backuwup.Prelude.{
  ℕ, ◌+◌, ◌-◌, ◌%◌, Bool, true, false, List, [], ◌∷◌, Option, none, some, Result, ok, err, Exec,
  Done, ltb, leb, ◌==◌, if◌then◌else◌, pure, raise, ◌>>=◌, ◌>>◌,
}
use backuwup.Prelude.Dict.{Dict, lookup, erase, insert}
use backuwup.Shared.{ClientId, TransportSessionNonce, BackupMatched, u64_mod}
use backuwup.DelayMap.{DelayMap}
use backuwup.Client.Config.{Failure, io, refused, Config}
use backuwup.Client.Defaults.{
  storage_request_cap, storage_request_retry_delay, storage_request_step,
}
use backuwup.Client.Peers.{add_or_increment_peer_storage, peer_update_last_seen}
use backuwup.Client.Tables.Listing.{find_peers_with_storage}
use backuwup.Client.Net.Transport.{transport}
use backuwup.Client.Net.Stream.{Delivery, BackupTransportManager, new_transport}
use backuwup.Client.Net.Requests.{P2PConnectionRequest, P2PConnectionManager, add_request}
use backuwup.Client.Backup.Orchestrator.{
  BackupOrchestrator, update_storage_request_last_sent, update_storage_request_last_matched,
  increment_storage_request_fulfilled_size,
}

-- What the tasks share; the clock in whole seconds.
pub record Shared (D : DelayMap P2PConnectionRequest) : Type 0 where
  pub orchestrator : BackupOrchestrator
  pub config : Config
  pub requests : P2PConnectionManager D
  pub clock : ℕ

-- With it: the answers to the coming calls of the server, what the other tasks do during the coming
-- waits, and the sizes of the storage requests that were sent, the last one first.
pub record Desk (D : DelayMap P2PConnectionRequest) : Type 0 where
  pub shared : Shared D
  pub begun : List (Result Failure Bool)
  pub accepted : List (Result Failure Done)
  pub meanwhile : List (Shared D → Shared D)
  pub requested : List ℕ

-- `match difference`: the difference is a `u64`, which wraps.
unfoldable pub estimate_storage_request_size : BackupOrchestrator → ℕ
estimate_storage_request_size o =
    let difference = (o.size_estimate + u64_mod - o.storage_requests_fulfilled_size) % u64_mod in
    if difference == 0
    then storage_request_step
    else if leb difference storage_request_cap
    then difference
    else storage_request_cap

module _ {D : DelayMap P2PConnectionRequest} where
  abbrev pub on_config : {A : Type 0} → Exec Config Failure A → Exec (Desk D) Failure A
  on_config op d =
      let (r, c) = op d.shared.config in (r, record d { shared = record d.shared { config = c } })

  abbrev pub on_requests :
      {A : Type 0} → Exec (P2PConnectionManager D) Failure A → Exec (Desk D) Failure A
  on_requests op d =
      let (r, m) = op d.shared.requests in
      (r, record d { shared = record d.shared { requests = m } })

  abbrev pub with_orchestrator : (BackupOrchestrator → BackupOrchestrator) → Shared D → Shared D
  with_orchestrator op s = record s { orchestrator = op s.orchestrator }

  begin_answer : List (Result Failure Bool) → Exec (Desk D) Failure Bool
  begin_answer [] d = (err io, d)
  begin_answer (r ∷ later) d = (r, record d { begun = later })

  -- requests.rs; which peer and which nonce the server is told does not change the answer here
  unfoldable pub p2p_connection_begin :
      ClientId → TransportSessionNonce → Exec (Desk D) Failure Bool
  unfolding begin_answer
  p2p_connection_begin peer_id nonce d = begin_answer d.begun d

  request_answer : List (Result Failure Done) → Exec (Desk D) Failure Done
  request_answer [] d = (err io, d)
  request_answer (r ∷ later) d = (r, record d { accepted = later })

  unfoldable pub backup_storage_request : ℕ → Exec (Desk D) Failure Done
  unfolding request_answer
  backup_storage_request size d =
      request_answer d.accepted (record d { requested = size ∷ d.requested })

  pass : List (Shared D → Shared D) → Desk D → Desk D
  pass [] d = d
  pass (step ∷ later) d = record d { shared = step d.shared; meanwhile = later }

  -- `tokio::time::sleep`: the other tasks run
  unfoldable pub sleep : Exec (Desk D) Failure Done
  unfolding pass
  sleep d = (ok tt, pass d.meanwhile d)

  -- The time since the last request is a `u64` too.
  unfoldable pub send_storage_request_if_needed : Exec (Desk D) Failure Done
  send_storage_request_if_needed d =
      let since =
        (d.shared.clock + u64_mod - d.shared.orchestrator.storage_request_last_sent) % u64_mod in
      if ltb storage_request_retry_delay since
      then (do
        backup_storage_request (estimate_storage_request_size d.shared.orchestrator)
        λ e. (
          ok tt,
          record e {
            shared = with_orchestrator (update_storage_request_last_sent e.shared.clock) e.shared;
          },
        ))
          d
      else (ok tt, d)

  taken :
      ClientId
      → Option BackupTransportManager
      → Exec (Desk D) Failure (Option (ClientId × BackupTransportManager))
  taken peer none d = (ok none, d)
  taken peer (some t) d = (
    ok (some (peer, t)),
    record d {
      shared =
          with_orchestrator
            (λ o. record o { active_transport_sessions = erase peer o.active_transport_sessions })
            d.shared;
    },
  )

  -- `active_transport_sessions.lock().await.remove(peer)`
  unfoldable pub take_session :
      ClientId → Exec (Desk D) Failure (Option (ClientId × BackupTransportManager))
  unfolding taken
  take_session peer d = taken peer (lookup peer d.shared.orchestrator.active_transport_sessions) d

  -- The first of the peers that is connected.
  unfoldable pub take_any_session :
      List ClientId → Exec (Desk D) Failure (Option (ClientId × BackupTransportManager))
  take_any_session [] d = (ok none, d)
  take_any_session (peer ∷ peers) d =
      (do
        session ← take_session peer
        λ e. elim session [ some found ↦ (ok (some found), e) | none ↦ take_any_session peers e ])
        d

  unfoldable pub wait_for_session :
      ClientId → Bool → Exec (Desk D) Failure (Option (ClientId × BackupTransportManager))
  wait_for_session peer false d = (ok none, d)
  wait_for_session peer true d = (do sleep; take_session peer) d

  -- Each peer in turn is asked to connect, and waited for.
  unfoldable pub connect_any :
      List ClientId → Exec (Desk D) Failure (Option (ClientId × BackupTransportManager))
  connect_any [] d = (ok none, d)
  connect_any (peer ∷ peers) d =
      (do
        nonce ← on_requests (add_request peer transport)
        begun ← p2p_connection_begin peer nonce
        session ← wait_for_session peer begun
        λ e. elim session [ some found ↦ (ok (some found), e) | none ↦ connect_any peers e ])
        d

  -- The last part of `get_peer_connection`, behind the peers that are known.
  unfoldable pub request_and_wait : Exec (Desk D) Failure (ClientId × BackupTransportManager)
  request_and_wait = do
    send_storage_request_if_needed
    sleep
    peers ← on_config find_peers_with_storage
    session ← take_any_session peers
    λ d. elim session [ some found ↦ (ok found, d) | none ↦ (err refused, d) ]

  unfoldable pub get_peer_connection : Exec (Desk D) Failure (ClientId × BackupTransportManager)
  get_peer_connection = do
    peers_with_storage ← on_config find_peers_with_storage
    active ← take_any_session peers_with_storage
    λ d. elim active [
      | some found ↦ (ok found, d)
      | none ↦
          (do
            connected ← connect_any peers_with_storage
            λ e. elim connected [ some found ↦ (ok found, e) | none ↦ request_and_wait e ])
            d
    ]

  -- `initialized` says whether the orchestrator is: the request is noted in any case.
  unfoldable pub handle_storage_request_matched : Bool → BackupMatched → Exec (Desk D) Failure Done
  handle_storage_request_matched initialized matched = do
    nonce ← on_requests (add_request matched.destination_id transport)
    λ d.
        if initialized
        then (do
          λ e. (
            ok tt,
            record e {
              shared =
                  with_orchestrator
                    (λ o.
                      increment_storage_request_fulfilled_size matched.storage_available
                        (update_storage_request_last_matched e.shared.clock o))
                    e.shared;
            },
          )
          on_config (add_or_increment_peer_storage matched.destination_id matched.storage_available)
          p2p_connection_begin matched.destination_id nonce
          pure tt)
            d
        else (err refused, d)

  unfoldable pub connection_established :
      Bool → ClientId → TransportSessionNonce → List Delivery → Exec (Desk D) Failure Done
  connection_established initialized client_id nonce socket d =
      if initialized
      then (do
        λ e. (
          ok tt,
          record e {
            shared =
                with_orchestrator
                  (λ o. record o {
                    active_transport_sessions =
                        insert client_id (new_transport nonce socket) o.active_transport_sessions;
                  })
                  e.shared;
          },
        )
        on_config (peer_update_last_seen client_id))
          d
      else (err refused, d)
