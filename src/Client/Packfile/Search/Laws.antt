-- ===== src/Client/Packfile/Search/Laws.antt =====
-- The search in the sorted entries finds an entry of the key exactly where there is one.
use backuwup.Prelude.{
  ℕ, zero, suc, ◌+◌, ◌-◌, ◌/◌, ◌≤◌, ◌<◌, ◌≡◌, ◌≢◌, refl, Bool, true, false, List, [], ◌∷◌, none,
  some, length, ◌==◌, if◌then◌else◌, arith, All, get_elem?, Option-cases, Bool-cases, inl, inr,
  subst, ◌∙◌, ==_iff,
}
use backuwup.Client.Packfile.Search.{
  Entry, insert_sorted, sort_by_key, search_between, binary_search_by_key,
}

abbrev pub IsSorted : List Entry → Type 0
IsSorted [] = Unit
IsSorted (x ∷ xs) = All (λ y. x.0 ≤ y.0) xs × IsSorted xs

-- Some entry has the key.
abbrev pub has : ℕ → List Entry → Bool
has k [] = false
has k (x ∷ xs) = if x.0 == k then true else has k xs

module _ (P : Entry → Type 0) where
  All-insert_sorted : (e : Entry) (xs : List Entry) → P e → All P xs → All P (insert_sorted e xs)
  unfolding insert_sorted
  All-insert_sorted e [] pe h = (pe, tt)
  All-insert_sorted e (x ∷ xs) pe h = ground (arith, All-insert_sorted e xs pe h.1)

  pub All-sort_by_key : (xs : List Entry) → All P xs → All P (sort_by_key xs)
  unfolding sort_by_key
  All-sort_by_key [] h = tt
  All-sort_by_key (x ∷ xs) h = All-insert_sorted x (sort_by_key xs) h.0 (All-sort_by_key xs h.1)

  All-get_elem? : (xs : List Entry) (i : ℕ) (e : Entry) → All P xs → get_elem? xs i ≡ some e → P e
  All-get_elem? [] i e h g = cc
  All-get_elem? (x ∷ xs) zero e h g = subst P (cc) h.0
  All-get_elem? (x ∷ xs) (suc i) e h g = All-get_elem? xs i e h.1 g

  -- What is found is an entry of the key.
  All-search_between :
      (fuel : ℕ) (xs : List Entry) (k lo hi p : ℕ)
      → All P xs
      → search_between fuel xs k lo hi ≡ some p
      → P (k, p)
  unfolding search_between
  All-search_between zero xs k lo hi p h s = cc
  All-search_between (suc fuel) xs k lo hi p h s =
      let mid : ℕ = lo + (hi - lo) / 2 in
      ground (
        arith,
        All-get_elem? xs mid (k, p) h,
        All-search_between fuel xs k lo mid p h,
        All-search_between fuel xs k (mid + 1) hi p h,
      )

All-le_trans : (a b : ℕ) (xs : List Entry) → a ≤ b → All (λ y. b ≤ y.0) xs → All (λ y. a ≤ y.0) xs
All-le_trans a b [] h k = tt
All-le_trans a b (x ∷ xs) h k = (omega arith, All-le_trans a b xs h k.1)

insert_sorted-IsSorted : (e : Entry) (xs : List Entry) → IsSorted xs → IsSorted (insert_sorted e xs)
unfolding insert_sorted
insert_sorted-IsSorted e [] h = (tt, tt)
insert_sorted-IsSorted e (x ∷ xs) h = ground (
  arith,
  All-le_trans e.0 x.0 xs,
  insert_sorted-IsSorted e xs h.1,
  All-insert_sorted (λ y. x.0 ≤ y.0) e xs,
)

pub sort_by_key-IsSorted : (xs : List Entry) → IsSorted (sort_by_key xs)
unfolding sort_by_key
sort_by_key-IsSorted [] = tt
sort_by_key-IsSorted (x ∷ xs) = insert_sorted-IsSorted x (sort_by_key xs) (sort_by_key-IsSorted xs)

has-insert_sorted :
    (k : ℕ) (e : Entry) (xs : List Entry) → has k (insert_sorted e xs) ≡ has k (e ∷ xs)
unfolding insert_sorted
has-insert_sorted k e [] = refl
has-insert_sorted k e (x ∷ xs) = ground (arith, has-insert_sorted k e xs)

pub has-sort_by_key : (k : ℕ) (xs : List Entry) → has k (sort_by_key xs) ≡ has k xs
unfolding sort_by_key
has-sort_by_key k [] = refl
has-sort_by_key k (x ∷ xs) =
    ground (arith, has-insert_sorted k x (sort_by_key xs), has-sort_by_key k xs)

le_of-IsSorted :
    (xs : List Entry) (i j : ℕ) (a b : Entry)
    → IsSorted xs
    → i ≤ j
    → get_elem? xs i ≡ some a
    → get_elem? xs j ≡ some b
    → a.0 ≤ b.0
le_of-IsSorted [] i j a b s h ga gb = cc
le_of-IsSorted (x ∷ xs) zero zero a b s h ga gb = ground arith
le_of-IsSorted (x ∷ xs) zero (suc j) a b s h ga gb =
    ground (arith, All-get_elem? (λ y. x.0 ≤ y.0) xs j b s.0 gb)
le_of-IsSorted (x ∷ xs) (suc i) zero a b s h ga gb = absurd (omega arith)
le_of-IsSorted (x ∷ xs) (suc i) (suc j) a b s h ga gb =
    le_of-IsSorted xs i j a b s.1 (omega arith) ga gb

get_elem?-ne-none : (xs : List Entry) (i : ℕ) → i < length xs → get_elem? xs i ≢ none
get_elem?-ne-none [] i h = elim h [ ]
get_elem?-ne-none (x ∷ xs) zero h = λ e. cc
get_elem?-ne-none (x ∷ xs) (suc i) h = get_elem?-ne-none xs i (omega arith)

-- In a sorted list an entry of the key within the range is not missed.
search_between-ne-none :
    (fuel : ℕ) (xs : List Entry) (k lo hi i : ℕ) (e : Entry)
    → IsSorted xs
    → get_elem? xs i ≡ some e
    → e.0 ≡ k
    → lo ≤ i
    → i < hi
    → hi ≤ length xs
    → hi - lo < fuel
    → search_between fuel xs k lo hi ≢ none
unfolding search_between
search_between-ne-none zero xs k lo hi i e s g ek l u b f = elim f [ ]
search_between-ne-none (suc fuel) xs k lo hi i e s g ek l u b f =
    let mid : ℕ = lo + (hi - lo) / 2 in
    elim (Option-cases (get_elem? xs mid)) [
      | inl m ↦ absurd (get_elem?-ne-none xs mid (omega arith) m)
      | inr (x, m) ↦ ground (
        arith,
        le_of-IsSorted xs i mid e x s,
        le_of-IsSorted xs mid i x e s,
        search_between-ne-none fuel xs k lo mid i e s g ek,
        search_between-ne-none fuel xs k (mid + 1) hi i e s g ek,
      )
    ]

-- The place of an entry that is there.
find_place :
    (k : ℕ) (xs : List Entry)
    → has k xs ≡ true
    → (i : ℕ) × (e : Entry) × (get_elem? xs i ≡ some e) × (e.0 ≡ k) × (i < length xs)
find_place k [] h = cc
find_place k (x ∷ xs) h = elim (Bool-cases (x.0 == k)) [
  | inl e ↦ (0, x, refl, (==_iff x.0 k).0 e, omega arith)
  | inr e ↦ let (i, y, g, ey, l) = find_place k xs (rw e at h) in (suc i, y, g, ey, omega arith)
]

-- Over the entries as they are sorted at load, whatever their order before, the binary search finds
-- a key that some entry has, and what it finds is the value of an entry with that key: what holds
-- of all entries holds of the key with that value.
pub binary_search_by_key-sorted :
    (P : Entry → Type 0) (k : ℕ) (xs : List Entry)
    → has k xs ≡ true
    → All P xs
    → (p : ℕ) × (binary_search_by_key (sort_by_key xs) k ≡ some p) × P (k, p)
unfolding binary_search_by_key
binary_search_by_key-sorted P k xs h all =
    let ys : List Entry = sort_by_key xs in
    let (i, e, g, ek, l) = find_place k ys (has-sort_by_key k xs ∙ h) in
    elim (Option-cases (binary_search_by_key ys k)) [
      | inl missed ↦ absurd (
          search_between-ne-none (suc (length ys)) ys k 0 (length ys) i e (sort_by_key-IsSorted xs)
            g ek (omega arith) l (omega arith) (omega arith) missed)
      | inr (p, found) ↦ (
        p,
        found,
        All-search_between P (suc (length ys)) ys k 0 (length ys) p (All-sort_by_key P xs all)
            found,
      )
    ]

-- It finds nothing else.
pub binary_search_by_key-only :
    (P : Entry → Type 0) (k p : ℕ) (xs : List Entry)
    → All P xs
    → binary_search_by_key (sort_by_key xs) k ≡ some p
    → P (k, p)
unfolding binary_search_by_key
binary_search_by_key-only P k p xs all found =
    let ys : List Entry = sort_by_key xs in
    All-search_between P (suc (length ys)) ys k 0 (length ys) p (All-sort_by_key P xs all) found
