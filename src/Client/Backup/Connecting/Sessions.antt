-- ===== src/Client/Backup/Connecting/Sessions.antt =====
-- Which of the peers that are connected a backup is sent to (client/src/backup/send.rs).
use backuwup.Prelude.{
  ◌≡◌, inl, inr, refl, sym, true, List, [], ◌∷◌, Option, some, ok, arith, map, Option-cases, All,
  subst,
}
use backuwup.Prelude.Dict.{lookup}
use backuwup.Shared.{ClientId}
use backuwup.DelayMap.{DelayMap}
use backuwup.Client.Config.{Config}
use backuwup.Client.Tables.Listing.{has_storage, has_more_storage, find_peers_with_storage}
use backuwup.Client.Tables.Listing.Order.{
  Row, IsAmong, IsSorted, IsSorted-ordered, IsAmong-ordered, IsAmong-filter, IsAmong-listed,
  IsAmong-wanted, has_more_refl, listed, find_peers-listed,
}
use backuwup.Client.Net.Stream.{BackupTransportManager}
use backuwup.Client.Net.Requests.{P2PConnectionRequest}
use backuwup.Client.Backup.Connecting.{Desk, take_session, take_any_session, get_peer_connection}

All-IsAmong : (P : Row → Type 0) (rows : List Row) (a : Row) → All P rows → IsAmong a rows → P a
All-IsAmong P [] a k m = absurd m
All-IsAmong P (b ∷ rows) a (p, k) (inl e) = subst P (sym e) p
All-IsAmong P (b ∷ rows) a (p, k) (inr m) = All-IsAmong P rows a k m

module _ {D : DelayMap P2PConnectionRequest} where
  abbrev pub session_of : ClientId → Desk D → Option BackupTransportManager
  session_of peer d = lookup peer d.shared.orchestrator.active_transport_sessions

  -- The outcome is a connected peer, with as much free storage as `other`.
  pub record Takes (other : Row) (rows : List Row) (peers : List ClientId) (d : Desk D)
      : Type 0 where
    pub best : Row
    pub session : BackupTransportManager
    pub taken : (take_any_session peers d).0 ≡ ok (some (best.0, session))
    pub connected : session_of best.0 d ≡ some session
    pub more : has_more_storage best other ≡ true
    pub quiet : (take_any_session peers d).1.requested ≡ d.requested
    pub among : IsAmong best rows

  take_any_session-Takes :
      (other : Row) (s : BackupTransportManager) (rows : List Row) (d : Desk D)
      → IsSorted rows
      → IsAmong other rows
      → session_of other.0 d ≡ some s
      → Takes other rows (map (λ row. row.0) rows) d
  unfolding take_any_session take_session
  take_any_session-Takes other s [] d k m e = absurd m
  take_any_session-Takes other s (row ∷ rows) d (above, k) m e =
      elim (Option-cases (session_of row.0 d)) [
        | inr (t, p) ↦ record {
          best = row;
          session = t;
          taken = ground arith;
          connected = p;
          more = elim m [
            | inl same ↦ subst (λ x. has_more_storage row x ≡ true) (sym same) (has_more_refl row)
            | inr behind ↦ All-IsAmong (λ x. has_more_storage row x ≡ true) rows other above behind
          ];
          quiet = ground arith;
          among = inl refl;
        }
        | inl p ↦ elim m [
          | inl same ↦ absurd (ground arith)
          | inr behind ↦
              let rest = take_any_session-Takes other s rows d k behind e in
              record {
                best = rest.best;
                session = rest.session;
                taken = ground (arith, rest.taken);
                connected = rest.connected;
                more = rest.more;
                quiet = ground (arith, rest.quiet);
                among = inr rest.among;
              }
        ]
      ]

  -- When the table can be read and a peer with storage is connected, `get_peer_connection` succeeds: it
  -- gives the open connection of a peer of the table with storage, which has at least as much free
  -- storage as any connected peer with storage, and sends no storage request.
  pub get_peer_connection-best :
      (d : Desk D) (peers : List ClientId) (other : Row) (s : BackupTransportManager)
      → (find_peers_with_storage d.shared.config).0 ≡ ok peers
      → IsAmong other d.shared.config.peers
      → has_storage other ≡ true
      → session_of other.0 d ≡ some s
      → (best : Row) × (t : BackupTransportManager) × ((get_peer_connection d).0 ≡ ok (best.0, t))
        × (session_of best.0 d ≡ some t)
        × IsAmong best d.shared.config.peers
        × (has_storage best ≡ true)
        × (has_more_storage best other ≡ true)
        × ((get_peer_connection d).1.requested ≡ d.requested)
  unfolding get_peer_connection
  get_peer_connection-best d peers other s found m h e =
      let c : Config = d.shared.config in
      let d1 : Desk D = record d {
        shared = record d.shared { config = (find_peers_with_storage c).1 };
      } in
      let k =
        take_any_session-Takes other s (listed c) d1 (IsSorted-ordered _)
          (IsAmong-ordered other _ (IsAmong-filter other c.peers h m)) e in
      let same = find_peers-listed c peers found in
      let (there, free) = IsAmong-wanted k.best c.peers (IsAmong-listed k.best _ k.among) in
      (
        k.best,
        k.session,
        ground (arith, same, k.taken),
        k.connected,
        there,
        free,
        k.more,
        ground (arith, same, k.taken, k.quiet),
      )
