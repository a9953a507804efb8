-- ===== src/Client/Trees/Laws.antt =====
-- A tree that was split into blobs is put together again (dir_packer.rs, dir_unpacker.rs).
use backuwup.Prelude.{
  ℕ, zero, suc, ◌≤◌, ◌≡◌, refl, ◌≢◌, sym, ap, ◌∙◌, List, [], ◌∷◌, ◌++◌, Option, none, some, Result,
  ok, length, drop, leb, arith, All, Option-cases, Result-cases, Bool-cases, inl, inr, and_then,
  take-append-drop, length-drop, subst,
}
use mathlib.Core.List.{append_assoc, append-nil}
use backuwup.Shared.{BlobHash}
use backuwup.Client.Bytes.{Bytes}
use backuwup.Client.Packfile.Types.{Blob, tree}
use backuwup.Client.Trees.{
  tree_blob_max_children, Tree, TreeCodec, TreeError, chunks_of, chunks, first_hash, serialize_tree,
  link, split_serialize_tree, fetch_tree, next_part, append_siblings, fetch_full_tree,
}

abbrev concat : List (List BlobHash) → List BlobHash
concat [] = []
concat (c ∷ cs) = c ++ concat cs

concat-chunks_of :
    (fuel n : ℕ) (xs : List BlobHash) → length xs ≤ fuel → concat (chunks_of fuel (suc n) xs) ≡ xs
unfolding chunks_of
concat-chunks_of zero n [] l = refl
concat-chunks_of zero n (x ∷ xs) l = absurd (omega arith)
concat-chunks_of (suc fuel) n [] l = refl
concat-chunks_of (suc fuel) n (x ∷ xs) l =
    rw (concat-chunks_of fuel n (drop n xs) (omega (arith, length-drop n xs)))
      (take-append-drop (suc n) (x ∷ xs))

module _ (C : TreeCodec) (get_blob : BlobHash → Result TreeError (Option Blob)) where
  -- The blob can be fetched by its hash.
  abbrev pub IsStored : Blob → Type 0
  IsStored b = get_blob b.hash ≡ ok (some b)

  module _
      (lawful : (t : Tree) (b : Bytes) → C.serialize t ≡ some b → C.deserialize b ≡ some t) where
    fetch_tree-serialize_tree :
        (t : Tree) (b : Blob)
        → serialize_tree C t ≡ ok b
        → IsStored b
        → fetch_tree C get_blob b.hash ≡ ok t
    unfolding serialize_tree fetch_tree
    fetch_tree-serialize_tree t b e s = elim (Option-cases (C.serialize t)) [
      | inl n ↦ absurd (ground arith)
      | inr (d, p) ↦
          let same : record { hash = C.hash d; kind = tree; bytes = d } ≡ b = ground arith in
          let kind : b.kind ≡ tree = ap (λ k. k.kind) (sym same) in
          let bytes : b.bytes ≡ d = ap (λ k. k.bytes) (sym same) in
          rw (s, kind, bytes, lawful t d p) refl
    ]

    link-cons :
        (t : Tree) (c : List BlobHash) (cs : List (List BlobHash)) (b : Blob) (bs : List Blob)
        → link C t (c ∷ cs) ≡ ok (b ∷ bs)
        → (link C t cs ≡ ok bs)
          × (serialize_tree C (record t { children = c; next_sibling = first_hash bs }) ≡ ok b)
    unfolding link
    link-cons t c cs b bs e = elim (Result-cases (link C t cs)) [
      | inr (f, p) ↦ absurd (ground arith)
      | inl (later, p) ↦
          elim (Result-cases
            (serialize_tree C (record t { children = c; next_sibling = first_hash later }))) [
              | inr (f, q) ↦ absurd (ground arith)
              | inl (blob, q) ↦
                  let rest : later ≡ bs = ground arith in
                  let one : blob ≡ b = ground arith in
                  (
                    p ∙ ap (λ k. ok k) rest,
                    subst
                        (λ k.
                          serialize_tree C (record t { children = c; next_sibling = first_hash k })
                          ≡ ok b)
                        rest (q ∙ ap (λ k. ok k) one),
                  )
            ]
    ]

    link-nil :
        (t : Tree) (c : List BlobHash) (cs : List (List BlobHash)) → link C t (c ∷ cs) ≢ ok []
    unfolding link
    link-nil t c cs e = elim (Result-cases (link C t cs)) [
      | inr (f, p) ↦ ground arith
      | inl (later, p) ↦
          elim (Result-cases
            (serialize_tree C (record t { children = c; next_sibling = first_hash later }))) [
              | inr (f, q) ↦ ground arith
              | inl (blob, q) ↦ ground arith
            ]
    ]

    link-end : (t : Tree) (b : Blob) (bs : List Blob) → link C t [] ≢ ok (b ∷ bs)
    unfolding link
    link-end t b bs e = ground arith

    append_siblings-link :
        (t root : Tree) (cs : List (List BlobHash)) (bs : List Blob) (fuel : ℕ)
        → link C t cs ≡ ok bs
        → All IsStored bs
        → length bs ≤ fuel
        → append_siblings C get_blob fuel root (first_hash bs)
          ≡ some (ok (record root { children = root.children ++ concat cs }))
    unfolding append_siblings next_part first_hash
    append_siblings-link t root [] [] zero e s l = rw append-nil refl
    append_siblings-link t root [] [] (suc fuel) e s l = rw append-nil refl
    append_siblings-link t root [] (b ∷ bs) fuel e s l = absurd (link-end t b bs e)
    append_siblings-link t root (c ∷ cs) [] fuel e s l = absurd (link-nil t c cs e)
    append_siblings-link t root (c ∷ cs) (b ∷ bs) zero e s l = absurd (omega arith)
    append_siblings-link t root (c ∷ cs) (b ∷ bs) (suc fuel) e s l =
        let (rest, one) = link-cons t c cs b bs e in
        let part : Tree = record t { children = c; next_sibling = first_hash bs } in
        rw
          (fetch_tree-serialize_tree part b one s.0, sym (append_assoc root.children c (concat cs)))
          (append_siblings-link t (record root { children = root.children ++ c }) cs bs fuel rest
            s.1 (omega arith))

    fetch_full_tree-link :
        (t : Tree) (cs : List (List BlobHash)) (b : Blob) (bs : List Blob)
        → link C t cs ≡ ok (b ∷ bs)
        → All IsStored (b ∷ bs)
        → fetch_full_tree C get_blob (length bs) b.hash
          ≡ some (ok (record t { children = concat cs; next_sibling = first_hash bs }))
    unfolding fetch_full_tree next_part
    fetch_full_tree-link t [] b bs e s = absurd (link-end t b bs e)
    fetch_full_tree-link t (c ∷ cs) b bs e s =
        let (rest, one) = link-cons t c cs b bs e in
        let part : Tree = record t { children = c; next_sibling = first_hash bs } in
        rw (fetch_tree-serialize_tree part b one s.0)
          (append_siblings-link t part cs bs (length bs) rest s.1 (omega arith))

    fetch_full_tree-single :
        (t : Tree) (b : Blob) (bs : List Blob)
        → t.next_sibling ≡ none
        → and_then (serialize_tree C t) (λ blob. ok (blob ∷ [])) ≡ ok (b ∷ bs)
        → All IsStored (b ∷ bs)
        → fetch_full_tree C get_blob (length bs) b.hash
          ≡ some (ok (record t { next_sibling = first_hash bs }))
    unfolding fetch_full_tree next_part append_siblings first_hash
    fetch_full_tree-single t b (x ∷ xs) n e s = absurd (ground arith)
    fetch_full_tree-single t b [] n e s =
        let one : serialize_tree C t ≡ ok b = ground arith in
        rw (fetch_tree-serialize_tree t b one s.0, n) refl

    -- A tree that was split can be fetched whole by the hash of its first blob, with its children in
    -- their order: when every blob of it is stored, and bincode decodes what it encoded. As many
    -- rounds as there are blobs are enough.
    pub fetch_full_tree-split_serialize_tree :
        (t : Tree) (b : Blob) (bs : List Blob)
        → t.next_sibling ≡ none
        → split_serialize_tree C t ≡ ok (b ∷ bs)
        → All IsStored (b ∷ bs)
        → fetch_full_tree C get_blob (length bs) b.hash
          ≡ some (ok (record t { next_sibling = first_hash bs }))
    unfolding split_serialize_tree chunks
    fetch_full_tree-split_serialize_tree t b bs n e s =
        elim (Bool-cases (leb (length t.children) tree_blob_max_children)) [
          | inl small ↦ fetch_full_tree-single t b bs n (rw small at e) s
          | inr large ↦
              rw (concat-chunks_of (length t.children) 9_999 t.children (omega arith)) at (
                fetch_full_tree-link t (chunks tree_blob_max_children t.children) b bs
                  (rw large at e) s)
        ]
