-- ===== src/Client/Packfile/Index/Loaded.antt =====
-- The index that `BlobIndex::new` loads from the index files (blob_index.rs).
use backuwup.Prelude.{
  ℕ, ◌≡◌, ◌⊎◌, inl, inr, refl, sym, ap, true, List, [], ◌∷◌, ◌++◌, some, ok, err, arith, All,
  Option-cases, Result-cases, ==_refl, subst,
}
use backuwup.Prelude.Dict.{Dict}
use backuwup.Shared.{BlobHash}
use backuwup.Client.Bytes.{Bytes}
use backuwup.Client.Packfile.Types.{PackfileId, Suite, index_key, Disk}
use backuwup.Client.Packfile.Search.{Entry, sort_by_key}
use backuwup.Client.Packfile.Search.Laws.{
  has, binary_search_by_key-sorted, binary_search_by_key-only,
}
use backuwup.Client.Packfile.Index.{BlobIndex, load_files, new, find_packfile}

abbrev pub IsIn : Entry → List Entry → Type 0
IsIn e [] = ⊥
IsIn e (x ∷ xs) = (e ≡ x) ⊎ IsIn e xs

IsIn-append : (e : Entry) (xs ys : List Entry) → IsIn e xs ⊎ IsIn e ys → IsIn e (xs ++ ys)
IsIn-append e [] ys (inl k) = absurd k
IsIn-append e [] ys (inr k) = k
IsIn-append e (x ∷ xs) ys (inl (inl p)) = inl p
IsIn-append e (x ∷ xs) ys (inl (inr k)) = inr (IsIn-append e xs ys (inl k))
IsIn-append e (x ∷ xs) ys (inr k) = inr (IsIn-append e xs ys (inr k))

IsIn-parts : (e : Entry) (xs ys : List Entry) → IsIn e (xs ++ ys) → IsIn e xs ⊎ IsIn e ys
IsIn-parts e [] ys k = inr k
IsIn-parts e (x ∷ xs) ys (inl p) = inl (inl p)
IsIn-parts e (x ∷ xs) ys (inr k) = elim (IsIn-parts e xs ys k) [
  | inl l ↦ inl (inr l)
  | inr r ↦ inr r
]

IsIn-has : (h p : ℕ) (xs : List Entry) → IsIn (h, p) xs → has h xs ≡ true
IsIn-has h p [] k = absurd k
IsIn-has h p (x ∷ xs) (inl e) = ground (arith, ap (λ y. y.0) e, ==_refl h)
IsIn-has h p (x ∷ xs) (inr k) = ground (arith, IsIn-has h p xs k)

All-more :
    (P Q : Entry → Type 0) (xs : List Entry) → ((e : Entry) → P e → Q e) → All P xs → All Q xs
All-more P Q [] f k = tt
All-more P Q (x ∷ xs) f (p, k) = (f x p, All-more P Q xs f k)

All-IsIn : (xs : List Entry) → All (λ e. IsIn e xs) xs
All-IsIn [] = tt
All-IsIn (x ∷ xs) =
    (inl refl, All-more (λ e. IsIn e xs) (λ e. IsIn e (x ∷ xs)) xs (λ e k. inr k) (All-IsIn xs))

module _ (S : Suite) where
  -- An index file of the folder decrypts, with its number as the nonce, to entries that have this one.
  abbrev pub IsStored : Dict Bytes → Entry → Type 0
  IsStored [] e = ⊥
  IsStored ((n, sealed) ∷ files) e =
      ((plain : Bytes) × (entries : List Entry) × (S.decrypt (S.derive_backup_key index_key) n
            sealed
          ≡ some plain)
        × (S.deserialize_entries plain ≡ some entries)
        × IsIn e entries)
      ⊎ IsStored files e

  -- The entries that are loaded are those of the files, and those that were there before.
  abbrev Loads : Dict Bytes → List Entry → List Entry → Type 0
  Loads files items all =
      (e : Entry)
      → (IsStored files e ⊎ IsIn e items → IsIn e all)
        × (IsIn e all → IsStored files e ⊎ IsIn e items)

  load_files-err :
      (files : Dict Bytes) (f : _) (all : List Entry) → load_files S files (err f) ≡ ok all → ⊥
  unfolding load_files
  load_files-err [] f all e = cc
  load_files-err ((n, sealed) ∷ files) f all e = cc

  load_files-Loads :
      (files : Dict Bytes) (items all : List Entry)
      → load_files S files (ok items) ≡ ok all
      → Loads files items all
  unfolding load_files
  load_files-Loads [] items all e k =
      let same : items ≡ all = ground arith in
      (
        λ m. elim m [ inl x ↦ absurd x | inr x ↦ subst (IsIn k) same x ],
        λ m. inr (subst (IsIn k) (sym same) m),
      )
  load_files-Loads ((n, sealed) ∷ files) items all e k =
      elim (Option-cases (S.decrypt (S.derive_backup_key index_key) n sealed)) [
        | inl p ↦ absurd (load_files-err files _ all (rw (load_files, p) at e))
        | inr (plain, p) ↦ elim (Option-cases (S.deserialize_entries plain)) [
          | inl q ↦ absurd (load_files-err files _ all (rw (load_files, p, q) at e))
          | inr (entries, q) ↦
              let (there, back) =
                load_files-Loads files (items ++ entries) all (rw (load_files, p, q) at e) k in
              (
                λ m. there (elim m [
                  | inl (inl (b, es, d, s, i)) ↦
                      let one : b ≡ plain = ground arith in
                      let two : es ≡ entries = ground (arith, ap S.deserialize_entries one) in
                      inr (IsIn-append k items entries (inr (subst (IsIn k) two i)))
                  | inl (inr f) ↦ inl f
                  | inr i ↦ inr (IsIn-append k items entries (inl i))
                ]),
                λ m. elim (back m) [
                  | inl f ↦ inl (inr f)
                  | inr i ↦ elim (IsIn-parts k items entries i) [
                    | inl x ↦ inr x
                    | inr x ↦ inl (inl (plain, entries, p, q, x))
                  ]
                ],
              )
        ]
      ]

  -- What an index knows that was loaded from its folder: if some index file has an entry for a blob, then
  -- a packfile is found for the blob, one that some index file has an entry for with this blob; and
  -- whatever packfile is found for a blob stands so in some index file. This holds for any number of
  -- files, in any order, with entries in any order.
  pub find_packfile-new :
      (disk : Disk) (index : BlobIndex) (h : BlobHash)
      → new S disk ≡ ok index
      → ((p : PackfileId)
          → IsStored disk.indexes (h, p)
          → (q : PackfileId) × (find_packfile h index ≡ some q) × IsStored disk.indexes (h, q))
        × ((q : PackfileId) → find_packfile h index ≡ some q → IsStored disk.indexes (h, q))
  unfolding new find_packfile
  find_packfile-new disk index h e = elim (Result-cases (load_files S disk.indexes (ok []))) [
    | inr (f, l) ↦ absurd (ground arith)
    | inl (all, l) ↦
        let sorted : index.items ≡ sort_by_key all = ground arith in
        let stored : (k : Entry) → IsIn k all → IsStored disk.indexes k = λ k m.
          elim ((load_files-Loads disk.indexes [] all l k).1 m) [ inl s ↦ s | inr x ↦ absurd x ] in
        let every : All (IsStored disk.indexes) all =
          All-more (λ k. IsIn k all) (IsStored disk.indexes) all stored (All-IsIn all) in
        (
          λ p s.
              let (q, found, is) =
                binary_search_by_key-sorted (IsStored disk.indexes) h all
                  (IsIn-has h p all ((load_files-Loads disk.indexes [] all l (h, p)).0 (inl s)))
                  every in
              (q, ground (arith, sorted), is),
          λ q found.
              binary_search_by_key-only (IsStored disk.indexes) h q all every
                (ground (arith, sorted)),
        )
  ]
