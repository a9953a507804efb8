-- ===== src/Client/Packfile/Search.antt =====
-- The index's entries in memory (blob_index.rs): sorted by hash at load, and searched by halving,
-- as the standard library's `sort_unstable_by_key` and `binary_search_by_key` do.
pub mod Laws
use Prim.Native.Nat.{compare, Ordering}
use backuwup.Prelude.{
  ℕ, zero, suc, ◌+◌, ◌-◌, ◌/◌, List, [], ◌∷◌, Option, none, some, length, leb, if◌then◌else◌,
  get_elem?,
}

abbrev pub Entry : Type 0
Entry = ℕ × ℕ

insert_sorted : Entry → List Entry → List Entry
insert_sorted e [] = e ∷ []
insert_sorted e (x ∷ xs) = if leb e.0 x.0 then e ∷ x ∷ xs else x ∷ insert_sorted e xs

unfoldable pub sort_by_key : List Entry → List Entry
unfolding insert_sorted
sort_by_key [] = []
sort_by_key (x ∷ xs) = insert_sorted x (sort_by_key xs)

-- The entry with the key among those at the places from `lo` up to `hi`.
unfoldable pub search_between : ℕ → List Entry → ℕ → ℕ → ℕ → Option ℕ
search_between zero items key lo hi = none
search_between (suc fuel) items key lo hi =
    let mid : ℕ = lo + (hi - lo) / 2 in
    let left = search_between fuel items key lo mid in
    let right = search_between fuel items key (mid + 1) hi in
    if leb hi lo then none else elim (get_elem? items mid) [
      | none ↦ none
      | some e ↦ elim (compare e.0 key) [
        | Ordering.lt ↦ right
        | Ordering.gt ↦ left
        | Ordering.eq ↦ some e.1
      ]
    ]

-- Each round at least halves the range, so its length is more rounds than are made.
unfoldable pub binary_search_by_key : List Entry → ℕ → Option ℕ
unfolding search_between
binary_search_by_key items key = search_between (suc (length items)) items key 0 (length items)
