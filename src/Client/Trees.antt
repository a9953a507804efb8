-- ===== src/Client/Trees.antt =====
-- client/src/backup/filesystem/dir_packer.rs and dir_unpacker.rs: a directory tree is stored as one blob
-- or, with many children, as a chain of blobs, and is fetched back. bincode and BLAKE3 are `TreeCodec`;
-- `get_blob` of the packfile handler is an argument.
pub mod Laws
mod Examples
use Prim.Native.String.{String}
use backuwup.Prelude.{
  ℕ, zero, suc, List, [], ◌∷◌, ◌++◌, Option, none, some, Result, ok, err, length, take, drop, leb,
  if◌then◌else◌, ok_or, and_then,
}
use backuwup.Shared.{BlobHash}
use backuwup.Client.Bytes.{Bytes}
use backuwup.Client.Packfile.Types.{Blob, BlobKind, file_chunk, tree}

abbrev pub tree_blob_max_children : ℕ
tree_blob_max_children = 10_000

pub data TreeKind : Type 0 where
  file dir : TreeKind

pub record TreeMetadata : Type 0 where
  pub size : Option ℕ
  pub mtime : Option ℕ
  pub ctime : Option ℕ

pub record Tree : Type 0 where
  pub kind : TreeKind
  pub name : String
  pub metadata : TreeMetadata
  pub children : List BlobHash
  pub next_sibling : Option BlobHash

pub record TreeCodec : Type 0 where
  pub serialize : Tree → Option Bytes
  pub deserialize : Bytes → Option Tree
  pub hash : Bytes → BlobHash

pub data TreeError : Type 0 where
  serialization packfile not_found not_a_tree : TreeError

-- `chunks(n)`: each of `n` but the last, which may be shorter. A chunk is never empty, so the length
-- is fuel enough.
chunks_of : ℕ → ℕ → List BlobHash → List (List BlobHash)
chunks_of zero n xs = []
chunks_of (suc fuel) n [] = []
chunks_of (suc fuel) n (x ∷ xs) = take n (x ∷ xs) ∷ chunks_of fuel n (drop n (x ∷ xs))

unfoldable pub chunks : ℕ → List BlobHash → List (List BlobHash)
unfolding chunks_of
chunks n xs = chunks_of (length xs) n xs

unfoldable pub first_hash : List Blob → Option BlobHash
first_hash [] = none
first_hash (b ∷ bs) = some b.hash

module _ (C : TreeCodec) where
  unfoldable pub serialize_tree : Tree → Result TreeError Blob
  serialize_tree t =
      and_then (ok_or (C.serialize t) serialization)
        λ b. ok (record { hash = C.hash b; kind = tree; bytes = b })

  -- The loop from the last chunk to the first: each tree names the one behind it.
  unfoldable pub link : Tree → List (List BlobHash) → Result TreeError (List Blob)
  link t [] = ok []
  link t (c ∷ cs) = and_then (link t cs) λ later.
      and_then (serialize_tree (record t { children = c; next_sibling = first_hash later }))
        λ blob. ok (blob ∷ later)

  unfoldable pub split_serialize_tree : Tree → Result TreeError (List Blob)
  split_serialize_tree t =
      if leb (length t.children) tree_blob_max_children
      then and_then (serialize_tree t) (λ blob. ok (blob ∷ []))
      else link t (chunks tree_blob_max_children t.children)

  module _ (get_blob : BlobHash → Result TreeError (Option Blob)) where
    tree_of : Option Blob → Result TreeError Tree
    tree_of none = err not_found
    tree_of (some blob) = elim blob.kind [
      | file_chunk ↦ err not_a_tree
      | tree ↦ ok_or (C.deserialize blob.bytes) serialization
    ]

    unfoldable pub fetch_tree : BlobHash → Result TreeError Tree
    unfolding tree_of
    fetch_tree h = and_then (get_blob h) tree_of

    unfoldable pub next_part :
        (Tree → Option (Result TreeError Tree))
        → Result TreeError Tree
        → Option (Result TreeError Tree)
    next_part again (ok t) = again t
    next_part again (err e) = some (err e)

    -- `while let Some(hash) = &next_hash`; `none` is no result within the fuel.
    unfoldable pub append_siblings : ℕ → Tree → Option BlobHash → Option (Result TreeError Tree)
    unfolding next_part
    append_siblings fuel root none = some (ok root)
    append_siblings zero root (some h) = none
    append_siblings (suc fuel) root (some h) =
        next_part
          (λ part.
            append_siblings fuel (record root { children = root.children ++ part.children })
              part.next_sibling)
          (fetch_tree h)

    unfoldable pub fetch_full_tree : ℕ → BlobHash → Option (Result TreeError Tree)
    fetch_full_tree fuel h =
        next_part (λ root. append_siblings fuel root root.next_sibling) (fetch_tree h)
