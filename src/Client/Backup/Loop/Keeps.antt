-- ===== src/Client/Backup/Loop/Keeps.antt =====
-- Looking for a connection (client/src/backup/send.rs) does not undo that packing is completed.
use backuwup.Prelude.{
  ℕ, ◌≡◌, true, false, Bool, List, [], ◌∷◌, Option, none, some, Result, ok, err, Exec, Done, All,
  Result-cases, Option-cases, Bool-cases, inl, inr, ◌>>=◌, ltb, ◌+◌, ◌-◌, ◌%◌,
}
use backuwup.Prelude.Dict.{lookup}
use backuwup.Shared.{ClientId, u64_mod}
use backuwup.Client.Defaults.{storage_request_retry_delay}
use backuwup.DelayMap.{DelayMap}
use backuwup.Client.Config.{Failure, refused, Config}
use backuwup.Client.Tables.Listing.{find_peers_with_storage}
use backuwup.Client.Net.Transport.{transport}
use backuwup.Client.Net.Stream.{BackupTransportManager}
use backuwup.Client.Net.Requests.{P2PConnectionRequest, P2PConnectionManager, add_request}
use backuwup.Client.Backup.Orchestrator.{update_storage_request_last_sent}
use backuwup.Client.Backup.Connecting.{
  Shared, Desk, on_config, on_requests, p2p_connection_begin, backup_storage_request, sleep,
  send_storage_request_if_needed, take_session, take_any_session, connect_any, request_and_wait,
  get_peer_connection, wait_for_session, estimate_storage_request_size,
}

abbrev Session : Type 0
Session = ClientId × BackupTransportManager

module _ {D : DelayMap P2PConnectionRequest} where
  abbrev pub Completed : Shared D → Type 0
  Completed s = s.orchestrator.packing_completed ≡ true

  -- What the other tasks do leaves packing completed.
  abbrev pub AreCalm : List (Shared D → Shared D) → Type 0
  AreCalm steps = All (λ f. (s : Shared D) → Completed s → Completed (f s)) steps

  -- A call uses up some of those steps, and leaves packing completed itself.
  abbrev pub Keeps : {A : Type 0} → Exec (Desk D) Failure A → Type 0
  Keeps m =
      (d : Desk D)
      → AreCalm d.meanwhile
      → AreCalm (m d).1.meanwhile × (Completed d.shared → Completed (m d).1.shared)

  Keeps->>= :
      {A B : Type 0} (m : Exec (Desk D) Failure A) (f : A → Exec (Desk D) Failure B)
      → Keeps m
      → ((a : A) → Keeps (f a))
      → Keeps (m >>= f)
  Keeps->>= m f k l d calm =
      let (rest, still) = k d calm in
      elim (Result-cases (m d).0) [
        | inr (e, p) ↦ rw p (rest, still)
        | inl (a, p) ↦ let (rest', still') = l a (m d).1 rest in rw p (rest', λ c. still' (still c))
      ]

  Keeps-on_config : {A : Type 0} (op : Exec Config Failure A) → Keeps (on_config {D = D} op)
  Keeps-on_config op d calm = (calm, λ c. c)

  Keeps-on_requests :
      {A : Type 0} (op : Exec (P2PConnectionManager D) Failure A) → Keeps (on_requests op)
  Keeps-on_requests op d calm = (calm, λ c. c)

  Keeps-begin : (peer nonce : ℕ) → Keeps (p2p_connection_begin {D = D} peer nonce)
  unfolding p2p_connection_begin
  Keeps-begin peer nonce d calm = go d.begun
    where
      go :
          (rs : List (Result Failure Bool))
          → AreCalm (p2p_connection_begin peer nonce (record d { begun = rs })).1.meanwhile
            × (Completed d.shared
                → Completed (p2p_connection_begin peer nonce (record d { begun = rs })).1.shared)
      go [] = (calm, λ c. c)
      go (r ∷ rs) = (calm, λ c. c)

  Keeps-request : (size : ℕ) → Keeps (backup_storage_request {D = D} size)
  unfolding backup_storage_request
  Keeps-request size d calm = go d.accepted
    where
      go :
          (rs : List (Result Failure Done))
          → AreCalm (backup_storage_request size (record d { accepted = rs })).1.meanwhile
            × (Completed d.shared
                → Completed (backup_storage_request size (record d { accepted = rs })).1.shared)
      go [] = (calm, λ c. c)
      go (r ∷ rs) = (calm, λ c. c)

  Keeps-sleep : Keeps (sleep {D = D})
  unfolding sleep
  Keeps-sleep d calm = go d.meanwhile calm
    where
      go :
          (fs : List (Shared D → Shared D))
          → AreCalm fs
          → AreCalm (sleep (record d { meanwhile = fs })).1.meanwhile
            × (Completed d.shared → Completed (sleep (record d { meanwhile = fs })).1.shared)
      go [] k = (tt, λ c. c)
      go (f ∷ fs) (k, ks) = (ks, λ c. k d.shared c)

  Keeps-take_session : (peer : ClientId) → Keeps (take_session {D = D} peer)
  unfolding take_session
  Keeps-take_session peer d calm =
      elim (Option-cases (lookup peer d.shared.orchestrator.active_transport_sessions)) [
        | inl p ↦ rw p (calm, λ c. c)
        | inr (t, p) ↦ rw p (calm, λ c. c)
      ]

  -- What was found, or the rest.
  Keeps-or_else :
      {A : Type 0} (found : Option Session) (give : Session → Exec (Desk D) Failure A)
      (rest : Exec (Desk D) Failure A)
      → ((s : Session) → Keeps (give s))
      → Keeps rest
      → Keeps {A = A} (λ d. elim found [ some s ↦ give s d | none ↦ rest d ])
  Keeps-or_else none give rest k l = l
  Keeps-or_else (some s) give rest k l = k s

  Keeps-answer : {A : Type 0} (r : Result Failure A) → Keeps (λ d. (r, d))
  Keeps-answer r d calm = (calm, λ c. c)

  Keeps-take_any : (peers : List ClientId) → Keeps (take_any_session {D = D} peers)
  unfolding take_any_session
  Keeps-take_any [] = Keeps-answer {A = Option Session} (ok none)
  Keeps-take_any (peer ∷ peers) =
      Keeps->>= (take_session peer) _ (Keeps-take_session peer) (λ found.
        Keeps-or_else found (λ s d. (ok (some s), d)) (take_any_session peers)
          (λ s. Keeps-answer (ok (some s))) (Keeps-take_any peers))

  Keeps-wait : (peer : ClientId) (begun : Bool) → Keeps (wait_for_session {D = D} peer begun)
  unfolding wait_for_session
  Keeps-wait peer false = Keeps-answer {A = Option Session} (ok none)
  Keeps-wait peer true = Keeps->>= sleep _ Keeps-sleep (λ u. Keeps-take_session peer)

  Keeps-note : Keeps {A = Done} (λ d. (
    ok tt,
    record d {
      shared = record d.shared {
        orchestrator = update_storage_request_last_sent d.shared.clock d.shared.orchestrator;
      };
    },
  ))
  unfolding update_storage_request_last_sent
  Keeps-note d calm = (calm, λ c. c)

  Keeps-storage_request : Keeps (send_storage_request_if_needed {D = D})
  unfolding send_storage_request_if_needed
  Keeps-storage_request d calm =
      let size = estimate_storage_request_size d.shared.orchestrator in
      let since =
        (d.shared.clock + u64_mod - d.shared.orchestrator.storage_request_last_sent) % u64_mod in
      elim (Bool-cases (ltb storage_request_retry_delay since)) [
        | inr early ↦ rw early (calm, λ c. c)
        | inl due ↦ rw due (
            Keeps->>= (backup_storage_request size) _ (Keeps-request size) (λ u. Keeps-note) d calm)
      ]

  Keeps-connect_any : (peers : List ClientId) → Keeps (connect_any {D = D} peers)
  unfolding connect_any
  Keeps-connect_any [] = Keeps-answer {A = Option Session} (ok none)
  Keeps-connect_any (peer ∷ peers) =
      Keeps->>= (on_requests (add_request peer transport)) _
        (Keeps-on_requests (add_request peer transport))
        (λ nonce. Keeps->>= (p2p_connection_begin peer nonce) _ (Keeps-begin peer nonce) (λ begun.
          Keeps->>= (wait_for_session peer begun) _ (Keeps-wait peer begun) (λ found.
            Keeps-or_else found (λ s d. (ok (some s), d)) (connect_any peers)
              (λ s. Keeps-answer (ok (some s))) (Keeps-connect_any peers))))

  Keeps-request_and_wait : Keeps (request_and_wait {D = D})
  unfolding request_and_wait
  Keeps-request_and_wait = Keeps->>= send_storage_request_if_needed _ Keeps-storage_request (λ u.
      Keeps->>= sleep _ Keeps-sleep (λ v.
        Keeps->>= (on_config find_peers_with_storage) _ (Keeps-on_config find_peers_with_storage)
          (λ peers. Keeps->>= (take_any_session peers) _ (Keeps-take_any peers) (λ found.
            Keeps-or_else found (λ s d. (ok s, d)) (λ d. (err refused, d))
              (λ s. Keeps-answer (ok s)) (Keeps-answer {A = Session} (err refused))))))

  pub Keeps-get_peer_connection : Keeps (get_peer_connection {D = D})
  unfolding get_peer_connection
  Keeps-get_peer_connection =
      Keeps->>= (on_config find_peers_with_storage) _ (Keeps-on_config find_peers_with_storage)
        (λ peers. Keeps->>= (take_any_session peers) _ (Keeps-take_any peers) (λ active.
          Keeps-or_else active (λ s d. (ok s, d)) _ (λ s. Keeps-answer (ok s))
            (Keeps->>= (connect_any peers) _ (Keeps-connect_any peers) (λ connected.
              Keeps-or_else connected (λ s d. (ok s, d)) request_and_wait (λ s. Keeps-answer (ok s))
                Keeps-request_and_wait))))
