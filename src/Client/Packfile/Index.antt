-- ===== src/Client/Packfile/Index.antt =====
-- client/src/backup/filesystem/packfile/blob_index.rs: the index from blobs to packfiles.
pub mod Loaded
use backuwup.Prelude.{
  ℕ, ◌+◌, Bool, true, false, List, [], ◌∷◌, ◌++◌, Option, none, some, Result, ok, err, Exec, Done,
  length, leb, ltb, ◌==◌, if◌then◌else◌, lift, ok_or, ◌>>=◌, ◌>>◌,
}
use backuwup.Prelude.Dict.{Dict}
use backuwup.Shared.{BlobHash, u32_mod}
use backuwup.Client.Bytes.{Bytes}
use backuwup.Client.Defaults.{max_file_entries}
use backuwup.Client.Packfile.Types.{
  PackfileId, Failure, error, panic, Suite, index_key, Disk, create_index, write_index,
  crypto_error, serialization_error, duplicate_blob,
}
use backuwup.Client.Packfile.Search.{Entry, sort_by_key, binary_search_by_key}

pub record BlobIndex : Type 0 where
  pub items : List Entry
  pub items_buf : List Entry
  -- a `HashSet`
  pub blobs_queued : List BlobHash
  pub last_file_num : ℕ
  pub dirty : Bool

-- The index with its folder, which `flush` writes to.
pub record IndexOnDisk : Type 0 where
  pub index : BlobIndex
  pub disk : Disk

unfoldable pub contains : BlobHash → List BlobHash → Bool
contains a [] = false
contains a (b ∷ bs) = if b == a then true else contains a bs

unfoldable pub find_packfile : BlobHash → BlobIndex → Option PackfileId
find_packfile blob_hash index = binary_search_by_key index.items blob_hash

is_found : Option PackfileId → Bool
is_found none = false
is_found (some id) = true

unfoldable pub is_blob_duplicate : BlobHash → BlobIndex → Bool
unfolding is_found
is_blob_duplicate blob_hash index =
    if contains blob_hash index.blobs_queued then true else is_found (find_packfile blob_hash index)

-- The handle of a packfile under construction is the list of its blobs, the first one first. The
-- blob joins it before the duplicate is noticed.
unfoldable pub add_to_packfile :
    List BlobHash → BlobHash → BlobIndex → Result Failure Done × List BlobHash × BlobIndex
add_to_packfile handle blob_hash index =
    if contains blob_hash index.blobs_queued
    then (err (error duplicate_blob), handle ++ blob_hash ∷ [], index)
    else (
      ok tt,
      handle ++ blob_hash ∷ [],
      record index { blobs_queued = blob_hash ∷ index.blobs_queued },
    )

module _ (S : Suite) where
  -- `checked_add(1).expect(…)` on a `u32`
  next_file_num : ℕ → Result Failure ℕ
  next_file_num n = if ltb (n + 1) u32_mod then ok (n + 1) else err panic

  abbrev on_disk : (Disk → Result Failure Done × Disk) → Exec IndexOnDisk Failure Done
  on_disk op s = let (r, d) = op s.disk in (r, record s { disk = d })

  -- The file's number is its nonce.
  unfoldable pub flush : Exec IndexOnDisk Failure Done
  unfolding next_file_num
  flush s =
      (do
        plain ← lift (ok_or (S.serialize_entries s.index.items_buf) (error serialization_error))
        new_file_num ← lift (next_file_num s.index.last_file_num)
        sealed ← lift (
            ok_or (S.encrypt (S.derive_backup_key index_key) new_file_num plain)
              (error crypto_error))
        on_disk (create_index new_file_num)
        on_disk (write_index new_file_num sealed)
        λ t. (
          ok tt,
          record t {
            index = record t.index { last_file_num = new_file_num; items_buf = []; dirty = false };
          },
        ))
        s

  flush_if_full : Exec IndexOnDisk Failure Done
  flush_if_full s = if leb max_file_entries (length s.index.items_buf) then flush s else (ok tt, s)

  unfoldable pub push : BlobHash → PackfileId → Exec IndexOnDisk Failure Done
  unfolding flush_if_full
  push blob_hash packfile_hash s = flush_if_full (record s {
    index = record s.index {
      items_buf = s.index.items_buf ++ (blob_hash, packfile_hash) ∷ [];
      dirty = true;
    };
  })

  unfoldable pub finalize_packfile : List BlobHash → PackfileId → Exec IndexOnDisk Failure Done
  finalize_packfile [] packfile_hash s = (ok tt, s)
  finalize_packfile (h ∷ hs) packfile_hash s =
      (do push h packfile_hash; finalize_packfile hs packfile_hash) s

  -- The entries of one index file.
  read_file : ℕ → Bytes → Result Failure (List Entry)
  read_file file_num sealed = elim (S.decrypt (S.derive_backup_key index_key) file_num sealed) [
    | none ↦ err (error crypto_error)
    | some plain ↦ ok_or (S.deserialize_entries plain) (error serialization_error)
  ]

  append_file : List Entry → Result Failure (List Entry) → Result Failure (List Entry)
  append_file items (ok more) = ok (items ++ more)
  append_file items (err e) = err e

  -- The files in the order in which the folder lists them; one that cannot be read ends the load.
  unfoldable pub load_files : Dict Bytes → Result Failure (List Entry) → Result Failure (List Entry)
  unfolding read_file append_file
  load_files files (err e) = err e
  load_files [] (ok items) = ok items
  load_files ((n, sealed) ∷ files) (ok items) =
      load_files files (append_file items (read_file n sealed))

  unfoldable pub max_file_num : Dict Bytes → ℕ
  max_file_num [] = 0
  max_file_num ((n, b) ∷ files) = let m : ℕ = max_file_num files in if leb n m then m else n

  loaded : ℕ → Result Failure (List Entry) → Result Failure BlobIndex
  loaded n (err e) = err e
  loaded n (ok items) = ok (record {
    items = sort_by_key items;
    items_buf = [];
    blobs_queued = [];
    last_file_num = n;
    dirty = false;
  })

  -- `BlobIndex::new` on a folder that holds only index files. (The code skips other names.)
  unfoldable pub new : Disk → Result Failure BlobIndex
  unfolding loaded
  new disk = loaded (max_file_num disk.indexes) (load_files disk.indexes (ok []))
