-- ===== src/Client/Tables/Listing.antt =====
-- client/src/config/peers.rs: the two queries that list peers.
pub mod Order
use backuwup.Prelude.{
  ℕ, ◌+◌, ◌-◌, Bool, ◌||◌, List, [], ◌∷◌, Option, none, some, ok, Exec, ltb, leb, if◌then◌else◌,
  map, ◌>>=◌, ◌>>◌,
}
use backuwup.Prelude.Dict.{Dict}
use backuwup.Shared.{ClientId}
use backuwup.Client.Defaults.{peer_storage_usage_spread}
use backuwup.Client.Peers.{Failure, PeerInfo, Config, call, transaction}

-- `order by … desc`, as an insertion sort: `before a b` when the row `a` may stand in front of `b`.
insert_row : {A : Type 0} → (A → A → Bool) → A → List A → List A
insert_row before a [] = a ∷ []
insert_row before a (b ∷ rows) = if before a b then a ∷ b ∷ rows else b ∷ insert_row before a rows

unfoldable pub ordered : {A : Type 0} → (A → A → Bool) → List A → List A
unfolding insert_row
ordered before [] = []
ordered before (a ∷ rows) = insert_row before a (ordered before rows)

unfoldable pub filter : {A : Type 0} → (A → Bool) → List A → List A
filter wanted [] = []
filter wanted (a ∷ rows) = let rest = filter wanted rows in if wanted a then a ∷ rest else rest

-- `free_storage > 0 or abs(free_storage) < $1`, over bytes_negotiated - bytes_transmitted
unfoldable pub has_storage : ClientId × PeerInfo → Bool
has_storage (_, p) =
    ltb p.bytes_transmitted p.bytes_negotiated
    || ltb (p.bytes_transmitted - p.bytes_negotiated) peer_storage_usage_spread

-- the order of the two differences, with no negative number written
unfoldable pub has_more_storage : ClientId × PeerInfo → ClientId × PeerInfo → Bool
has_more_storage (_, p) (_, q) =
    leb (q.bytes_negotiated + p.bytes_transmitted) (p.bytes_negotiated + q.bytes_transmitted)

unfoldable pub select_peers_with_storage : Exec Config Failure (List ClientId)
select_peers_with_storage = do
  call
  λ c. (ok (map (λ row. row.0) (ordered has_more_storage (filter has_storage c.peers))), c)

-- now - seconds < last_seen, over integers; without a limit the row must be later than 0
seen_within : Option ℕ → ℕ → ClientId × PeerInfo → Bool
seen_within none now (_, p) = ltb 0 p.last_seen
seen_within (some seconds) now (_, p) = ltb now (p.last_seen + seconds)

seen_later : ClientId × PeerInfo → ClientId × PeerInfo → Bool
seen_later (_, p) (_, q) = leb q.last_seen p.last_seen

unfoldable pub select_peers : Option ℕ → Exec Config Failure (Dict PeerInfo)
unfolding seen_within seen_later
select_peers limit = do
  call
  λ c. (ok (ordered seen_later (filter (seen_within limit c.now) c.peers)), c)

unfoldable pub find_peers_with_storage : Exec Config Failure (List ClientId)
find_peers_with_storage = transaction select_peers_with_storage

unfoldable pub get_peers : Option ℕ → Exec Config Failure (Dict PeerInfo)
get_peers last_seen_limit_seconds = transaction (select_peers last_seen_limit_seconds)
