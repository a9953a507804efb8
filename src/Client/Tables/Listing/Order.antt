-- ===== src/Client/Tables/Listing/Order.antt =====
-- The order of the peers that a query lists (client/src/config/peers.rs).
use backuwup.Prelude.{
  ◌≡◌, ◌⊎◌, inl, inr, ap, ◌∙◌, true, false, List, [], ◌∷◌, ok, arith, All, map, Bool-cases,
}
use backuwup.Shared.{ClientId}
use backuwup.Client.Config.{PeerInfo, Config, call, transaction}
use backuwup.Client.Tables.Laws.{call-faults}
use backuwup.Client.Tables.Listing.{
  insert_row, ordered, filter, has_storage, has_more_storage, select_peers_with_storage,
  find_peers_with_storage,
}

abbrev pub Row : Type 0
Row = ClientId × PeerInfo

-- The row is one of the list.
abbrev pub IsAmong : Row → List Row → Type 0
IsAmong a [] = ⊥
IsAmong a (b ∷ rows) = (a ≡ b) ⊎ IsAmong a rows

-- Each row has at least as much free storage as those behind it.
abbrev pub IsSorted : List Row → Type 0
IsSorted [] = Unit {0}
IsSorted (a ∷ rows) = All (λ b. has_more_storage a b ≡ true) rows × IsSorted rows

has_more_trans :
    (a b c : Row)
    → has_more_storage a b ≡ true
    → has_more_storage b c ≡ true
    → has_more_storage a c ≡ true
unfolding has_more_storage
has_more_trans (i, a) (j, b) (k, c) p q = ground arith

has_more_total : (a b : Row) → has_more_storage a b ≡ false → has_more_storage b a ≡ true
unfolding has_more_storage
has_more_total (i, a) (j, b) p = ground arith

pub has_more_refl : (a : Row) → has_more_storage a a ≡ true
unfolding has_more_storage
has_more_refl (i, a) = ground arith

All-has_more :
    (a b : Row) (rows : List Row)
    → has_more_storage a b ≡ true
    → All (λ c. has_more_storage b c ≡ true) rows
    → All (λ c. has_more_storage a c ≡ true) rows
All-has_more a b [] p k = tt
All-has_more a b (c ∷ rows) p (q, k) = (has_more_trans a b c p q, All-has_more a b rows p k)

All-insert_row :
    (a b : Row) (rows : List Row)
    → has_more_storage b a ≡ true
    → All (λ c. has_more_storage b c ≡ true) rows
    → All (λ c. has_more_storage b c ≡ true) (insert_row has_more_storage a rows)
unfolding insert_row
All-insert_row a b [] p k = (p, tt)
All-insert_row a b (c ∷ rows) p (q, k) = elim (Bool-cases (has_more_storage a c)) [
  | inl e ↦ rw e (p, (q, k))
  | inr e ↦ rw e (q, All-insert_row a b rows p k)
]

IsSorted-insert_row :
    (a : Row) (rows : List Row) → IsSorted rows → IsSorted (insert_row has_more_storage a rows)
unfolding insert_row
IsSorted-insert_row a [] k = (tt, tt)
IsSorted-insert_row a (b ∷ rows) (above, k) = elim (Bool-cases (has_more_storage a b)) [
  | inl e ↦ rw e ((e, All-has_more a b rows e above), (above, k))
  | inr e ↦
      rw e (All-insert_row a b rows (has_more_total a b e) above, IsSorted-insert_row a rows k)
]

pub IsSorted-ordered : (rows : List Row) → IsSorted (ordered has_more_storage rows)
unfolding ordered
IsSorted-ordered [] = tt
IsSorted-ordered (a ∷ rows) =
    IsSorted-insert_row a (ordered has_more_storage rows) (IsSorted-ordered rows)

IsAmong-insert_row :
    (a b : Row) (rows : List Row)
    → (a ≡ b) ⊎ IsAmong a rows
    → IsAmong a (insert_row has_more_storage b rows)
unfolding insert_row
IsAmong-insert_row a b [] k = k
IsAmong-insert_row a b (c ∷ rows) k = elim (Bool-cases (has_more_storage b c)) [
  | inl e ↦ rw e k
  | inr e ↦ rw e (elim k [
    | inl p ↦ inr (IsAmong-insert_row a b rows (inl p))
    | inr (inl p) ↦ inl p
    | inr (inr p) ↦ inr (IsAmong-insert_row a b rows (inr p))
  ])
]

pub IsAmong-ordered :
    (a : Row) (rows : List Row) → IsAmong a rows → IsAmong a (ordered has_more_storage rows)
unfolding ordered
IsAmong-ordered a [] k = absurd k
IsAmong-ordered a (b ∷ rows) (inl p) =
    IsAmong-insert_row a b (ordered has_more_storage rows) (inl p)
IsAmong-ordered a (b ∷ rows) (inr p) =
    IsAmong-insert_row a b (ordered has_more_storage rows) (inr (IsAmong-ordered a rows p))

pub IsAmong-filter :
    (a : Row) (rows : List Row)
    → has_storage a ≡ true
    → IsAmong a rows
    → IsAmong a (filter has_storage rows)
unfolding filter
IsAmong-filter a [] h k = k
IsAmong-filter a (b ∷ rows) h k = elim (Bool-cases (has_storage b)) [
  | inl e ↦ rw e (elim k [ inl p ↦ inl p | inr p ↦ inr (IsAmong-filter a rows h p) ])
  | inr e ↦ rw e (elim k [
    | inl p ↦ absurd (ground (arith, ap has_storage p))
    | inr p ↦ IsAmong-filter a rows h p
  ])
]

IsAmong-row :
    (a b : Row) (rows : List Row)
    → IsAmong a (insert_row has_more_storage b rows)
    → (a ≡ b) ⊎ IsAmong a rows
unfolding insert_row
IsAmong-row a b [] k = k
IsAmong-row a b (c ∷ rows) k = elim (Bool-cases (has_more_storage b c)) [
  | inl e ↦ rw e at k
  | inr e ↦ elim (rw e at k) [
    | inl p ↦ inr (inl p)
    | inr m ↦ elim (IsAmong-row a b rows m) [ inl p ↦ inl p | inr q ↦ inr (inr q) ]
  ]
]

-- A listed row is a row of the table with storage.
pub IsAmong-listed :
    (a : Row) (rows : List Row) → IsAmong a (ordered has_more_storage rows) → IsAmong a rows
unfolding ordered
IsAmong-listed a [] k = k
IsAmong-listed a (b ∷ rows) k = elim (IsAmong-row a b (ordered has_more_storage rows) k) [
  | inl p ↦ inl p
  | inr m ↦ inr (IsAmong-listed a rows m)
]

pub IsAmong-wanted :
    (a : Row) (rows : List Row)
    → IsAmong a (filter has_storage rows)
    → IsAmong a rows × (has_storage a ≡ true)
unfolding filter
IsAmong-wanted a [] k = absurd k
IsAmong-wanted a (b ∷ rows) k = elim (Bool-cases (has_storage b)) [
  | inr e ↦ let (m, h) = IsAmong-wanted a rows (rw e at k) in (inr m, h)
  | inl e ↦ elim (rw e at k) [
    | inl p ↦ (inl p, ap has_storage p ∙ e)
    | inr m ↦ let (n, h) = IsAmong-wanted a rows m in (inr n, h)
  ]
]

-- The rows that the query lists.
abbrev pub listed : Config → List Row
listed c = ordered has_more_storage (filter has_storage c.peers)

pub find_peers-listed :
    (c : Config) (peers : List ClientId)
    → (find_peers_with_storage c).0 ≡ ok peers
    → peers ≡ map (λ row. row.0) (listed c)
unfolding find_peers_with_storage select_peers_with_storage transaction
find_peers-listed c peers e =
    let (fs, a) = call-faults c in
    let (gs, b) = call-faults (call c).1 in
    let (hs, d) = call-faults (call (call c).1).1 in ground (arith, a, b, d)
