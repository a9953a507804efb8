-- ===== src/Client/Peers.antt =====
-- client/src/config/peers.rs: the table of peers, each statement of it in a transaction.
-- Amounts are below 2^63 bytes, where the casts between `u64` and `i64` change nothing.
use backuwup.Prelude.{ℕ, ◌+◌, Option, none, some, ok, Exec, Done, ◌>>◌}
use backuwup.Prelude.Dict.{Dict, lookup, insert}
use backuwup.Shared.{ClientId}
pub use backuwup.Client.Config.{
  Failure, sql, io, refused, unknown_peer, invalid_message, panicked, PeerInfo, Config,
}
unfoldable pub use backuwup.Client.Config.{call, transaction}

new_peer : ℕ → ℕ → PeerInfo
new_peer negotiated now = record {
  bytes_transmitted = 0;
  bytes_received = 0;
  bytes_negotiated = negotiated;
  first_seen = now;
  last_seen = now;
}

-- `on conflict (pubkey) do update`
upserted : ℕ → ℕ → Option PeerInfo → PeerInfo
upserted negotiated now none = new_peer negotiated now
upserted negotiated now (some p) = record p {
  bytes_negotiated = p.bytes_negotiated + negotiated;
  last_seen = now;
}

unfoldable pub add_or_increment_peer : ClientId → ℕ → Exec Config Failure Done
unfolding upserted new_peer
add_or_increment_peer peer_id negotiated = do
  call
  λ c. (
    ok tt,
    record c {
      peers = insert peer_id (upserted negotiated c.now (lookup peer_id c.peers)) c.peers;
    },
  )

unfoldable pub get_peer_row : ClientId → Exec Config Failure (Option PeerInfo)
get_peer_row peer_id = do call; λ c. (ok (lookup peer_id c.peers), c)

-- `update peers … where pubkey`: no row, no change
unfoldable pub update_peer : ClientId → (PeerInfo → PeerInfo) → Dict PeerInfo → Dict PeerInfo
update_peer peer_id f peers = elim (lookup peer_id peers) [
  | none ↦ peers
  | some p ↦ insert peer_id (f p) peers
]

unfoldable pub peer_add_transmitted : ClientId → ℕ → Exec Config Failure Done
peer_add_transmitted peer_id amount = do
  call
  λ c. (
    ok tt,
    record c {
      peers =
          update_peer peer_id
            (λ p. record p { bytes_transmitted = p.bytes_transmitted + amount; last_seen = c.now })
            c.peers;
    },
  )

unfoldable pub peer_add_received : ClientId → ℕ → Exec Config Failure Done
peer_add_received peer_id amount = do
  call
  λ c. (
    ok tt,
    record c {
      peers =
          update_peer peer_id
            (λ p. record p { bytes_received = p.bytes_received + amount; last_seen = c.now })
            c.peers;
    },
  )

unfoldable pub touch_last_seen : ClientId → Exec Config Failure Done
touch_last_seen peer_id = do
  call
  λ c. (
    ok tt,
    record c { peers = update_peer peer_id (λ p. record p { last_seen = c.now }) c.peers },
  )

-- The methods of `Config`: each a transaction of one statement.
unfoldable pub add_or_increment_peer_storage : ClientId → ℕ → Exec Config Failure Done
add_or_increment_peer_storage peer_id negotiated =
    transaction (add_or_increment_peer peer_id negotiated)

unfoldable pub get_peer_info : ClientId → Exec Config Failure (Option PeerInfo)
get_peer_info peer_id = transaction (get_peer_row peer_id)

unfoldable pub peer_increment_transmitted : ClientId → ℕ → Exec Config Failure Done
peer_increment_transmitted peer_id amount = transaction (peer_add_transmitted peer_id amount)

unfoldable pub peer_increment_received : ClientId → ℕ → Exec Config Failure Done
peer_increment_received peer_id amount = transaction (peer_add_received peer_id amount)

unfoldable pub peer_update_last_seen : ClientId → Exec Config Failure Done
peer_update_last_seen peer_id = transaction (touch_last_seen peer_id)
