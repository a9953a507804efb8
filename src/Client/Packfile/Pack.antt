-- ===== src/Client/Packfile/Pack.antt =====
-- client/src/backup/filesystem/packfile/pack.rs: blobs are queued and written to packfiles.
use backuwup.Prelude.{
  ℕ, zero, suc, ◌+◌, ◌%◌, ◌^◌, Bool, true, false, ◌&&◌, ◌||◌, List, [], ◌∷◌, ◌++◌, Option, none,
  some, Result, ok, err, Exec, Done, length, leb, ltb, if◌then◌else◌, pure, lift, ok_or, ◌>>=◌,
  ◌>>◌,
}
use backuwup.Prelude.Dict.{Dict}
use backuwup.Shared.{BlobHash}
use backuwup.Client.Bytes.{Bytes, to_le_bytes}
use backuwup.Client.Defaults.{
  blob_max_uncompressed_size, packfile_target_size, packfile_max_size, packfile_max_blobs,
  blob_nonce_size, max_packfile_local_buffer_size,
}
use backuwup.Client.Packfile.Types.{
  PackfileId, PackfileHeaderBlob, Blob, BlobEncrypted, zstd, Failure, error, panic, Suite,
  header_key, blob_key, Disk, touch, create_new, write_packfile, blob_too_large, crypto_error,
  serialization_error, getrandom_error, io_error, exceeded_buffer_limit,
}
use backuwup.Client.Packfile.Index.{
  BlobIndex, IndexOnDisk, is_blob_duplicate, add_to_packfile, finalize_packfile,
}
use backuwup.Client.Packfile.Index

-- `PackfileHandlerInner` with the output folders, and the coming values of `getrandom`; `none` is its
-- failure.
pub record Manager : Type 0 where
  pub blobs : List BlobEncrypted
  pub dirty : Bool
  pub store : IndexOnDisk
  pub packfiles_size : ℕ
  pub entropy : List (Option ℕ)

-- Twelve random bytes, as the number that they spell.
draw : List (Option ℕ) → Exec Manager Failure ℕ
draw [] m = (err (error getrandom_error), m)
draw (none ∷ later) m = (err (error getrandom_error), record m { entropy = later })
draw (some n ∷ later) m = (ok (n % 256 ^ blob_nonce_size), record m { entropy = later })

unfoldable pub getrandom : Exec Manager Failure ℕ
unfolding draw
getrandom m = draw m.entropy m

abbrev pub on_store : {A : Type 0} → Exec IndexOnDisk Failure A → Exec Manager Failure A
on_store op m = let (r, s) = op m.store in (r, record m { store = s })

abbrev pub on_disk : (Disk → Result Failure Done × Disk) → Exec Manager Failure Done
on_disk op m = let (r, d) = op m.store.disk in (r, record m { store = record m.store { disk = d } })

-- A packfile under construction: the variables of the inner loop of `write_packfiles`.
pub record Batch : Type 0 where
  pub handle : List BlobHash
  pub bytes : Bytes
  pub header : List PackfileHeaderBlob
  pub blob_count : ℕ
  pub bytes_written : ℕ

abbrev pub empty_batch : Batch
empty_batch = record { handle = []; bytes = []; header = []; blob_count = 0; bytes_written = 0 }

-- The header entry and the data of one more blob.
unfoldable pub append_blob : BlobEncrypted → Batch → Batch
append_blob blob b = record {
  handle = b.handle ++ blob.hash ∷ [];
  header =
      b.header
      ++ record {
        hash = blob.hash;
        kind = blob.kind;
        compression = zstd;
        offset = b.bytes_written;
        length = length blob.bytes;
      }
        ∷ [];
  bytes_written = b.bytes_written + (length blob.bytes + blob_nonce_size);
  bytes = (b.bytes ++ to_le_bytes blob_nonce_size blob.nonce) ++ blob.bytes;
  blob_count = b.blob_count + 1;
}

is_full : Batch → Bool
is_full b = leb packfile_target_size b.bytes_written || leb packfile_max_blobs b.blob_count

-- What the inner loop leaves: the batch or an error, the blobs still queued, and the index.
pub record Collected : Type 0 where
  pub result : Result Failure Batch
  pub rest : List BlobEncrypted
  pub index : BlobIndex

abbrev stop_at : Result Failure Batch → List BlobEncrypted → BlobIndex → Collected
stop_at r rest index = record { result = r; rest = rest; index = index }

-- After `add_to_packfile`: its error leaves the loop, and so does a batch that is full.
go_on :
    (Batch → BlobIndex → Collected)
    → List BlobEncrypted
    → Batch
    → Result Failure Done × List BlobHash × BlobIndex
    → Collected
go_on again rest b (err e, handle, index) = stop_at (err e) rest index
go_on again rest b (ok _, handle, index) =
    if is_full b then stop_at (ok b) rest index else again b index

unfoldable pub collect : List BlobEncrypted → Batch → BlobIndex → Collected
unfolding go_on is_full
collect [] b index = stop_at (ok b) [] index
collect (blob ∷ blobs) b index =
    if is_blob_duplicate blob.hash index
    then collect blobs b index
    else go_on (collect blobs) blobs (append_blob blob b) (add_to_packfile b.handle blob.hash index)

module _ (S : Suite) where
  -- header length ‖ encrypted header ‖ data, under a random packfile ID that is the header's nonce
  unfoldable pub serialize_packfile : Batch → Exec Manager Failure (PackfileId × Bytes)
  serialize_packfile b = do
    packfile_id ← getrandom
    plain ← lift (ok_or (S.serialize_header b.header) (error serialization_error))
    header ←
        lift (
          ok_or (S.encrypt (S.derive_backup_key header_key) packfile_id plain) (error crypto_error))
    pure (packfile_id, to_le_bytes 8 (length header) ++ (header ++ b.bytes))

  -- `assert!(buffer.len() <= PACKFILE_MAX_SIZE)`
  assert_size : Bytes → Result Failure Done
  assert_size buffer = if leb (length buffer) packfile_max_size then ok tt else err panic

  -- `fetch_add`: the result is the size before, and that is compared with the limit.
  add_size : ℕ → Exec Manager Failure Bool
  add_size n m = (
    ok (ltb max_packfile_local_buffer_size m.packfiles_size),
    record m { packfiles_size = m.packfiles_size + n },
  )

  -- One packfile from a batch that holds a blob; the result is whether the buffer limit was passed.
  unfoldable pub write_batch : Batch → Exec Manager Failure Bool
  unfolding assert_size add_size
  write_batch b = do
    (packfile_id, buffer) ← serialize_packfile b
    lift (assert_size buffer)
    on_disk touch
    on_disk (create_new packfile_id)
    on_disk (write_packfile packfile_id buffer)
    on_store (finalize_packfile S b.handle packfile_id)
    add_size (length buffer)

  -- A batch that deduplication left empty is not written.
  unfoldable pub write_nonempty : Batch → Exec Manager Failure Bool
  write_nonempty b = if leb b.blob_count 0 then pure false else write_batch b

  -- A turn of the outer loop.
  unfoldable pub write_one : Exec Manager Failure Bool
  unfolding write_nonempty
  write_one m =
      let c = collect m.blobs empty_batch m.store.index in
      (do b ← lift c.result; write_nonempty b)
        (record m { blobs = c.rest; store = record m.store { index = c.index } })

  unfoldable pub report : Bool → Bool → Exec Manager Failure ℕ
  report report_buffer_limit exceeded m =
      if exceeded && report_buffer_limit
      then (err (error exceeded_buffer_limit), m)
      else (ok m.packfiles_size, m)

  unfoldable pub next_turn :
      (Bool → Manager → Option (Result Failure ℕ × Manager))
      → Bool
      → Result Failure Bool × Manager
      → Option (Result Failure ℕ × Manager)
  next_turn again exceeded (err e, m) = some (err e, m)
  next_turn again exceeded (ok passed, m) = again (passed || exceeded) m

  -- `while !blobs.is_empty()`; `none` is no result within the fuel.
  unfoldable pub write_loop : ℕ → Bool → Bool → Manager → Option (Result Failure ℕ × Manager)
  unfolding report next_turn
  write_loop zero limit exceeded m = none
  write_loop (suc fuel) limit exceeded m = elim m.blobs [
    | [] ↦ some (report limit exceeded m)
    | blob ∷ blobs ↦ next_turn (write_loop fuel limit) exceeded (write_one m)
  ]

  -- Each turn takes a blob off the queue.
  unfoldable pub write_packfiles : Bool → Manager → Option (Result Failure ℕ × Manager)
  write_packfiles limit m = write_loop (suc (length m.blobs)) limit false m

  -- The size and the number of the queued blobs that the index does not know yet.
  unfoldable pub candidates : BlobIndex → List BlobEncrypted → ℕ × ℕ
  candidates index [] = (0, 0)
  candidates index (blob ∷ blobs) =
      let (size, count) = candidates index blobs in
      if is_blob_duplicate blob.hash index
      then (size, count)
      else (length blob.bytes + size, suc count)

  abbrev pub reported :
      Option (Result Failure ℕ × Manager) → Option (Result Failure (Option ℕ) × Manager)
  reported none = none
  reported (some (ok n, m)) = some (ok (some n), m)
  reported (some (err e, m)) = some (err e, m)

  unfoldable pub trigger_write_if_desired : Manager → Option (Result Failure (Option ℕ) × Manager)
  trigger_write_if_desired m =
      let (size, count) = candidates m.store.index m.blobs in
      if leb packfile_target_size size || leb packfile_max_blobs count
      then reported (write_packfiles true m)
      else some (ok none, m)

  -- A blob's own key comes from its hash; zstd's errors are I/O errors.
  unfoldable pub compress_encrypt_blob : Blob → Exec Manager Failure (Bytes × ℕ)
  compress_encrypt_blob blob = do
    packed ← lift (ok_or (S.compress blob.bytes) (error io_error))
    nonce ← getrandom
    sealed ← lift (
        ok_or (S.encrypt (S.derive_backup_key (blob_key blob.hash)) nonce packed)
          (error crypto_error))
    pure (sealed, nonce)

  unfoldable pub enqueue :
      Blob → Result Failure (Bytes × ℕ) × Manager → Option (Result Failure (Option ℕ) × Manager)
  enqueue blob (err e, m) = some (err e, m)
  enqueue blob (ok (sealed, nonce), m) = trigger_write_if_desired (record m {
    blobs =
        m.blobs
        ++ record { hash = blob.hash; kind = blob.kind; bytes = sealed; nonce = nonce } ∷ [];
    dirty = true;
  })

  -- The result is the size of the packfiles on disk, if some were written.
  unfoldable pub add_blob : Blob → Manager → Option (Result Failure (Option ℕ) × Manager)
  unfolding enqueue
  add_blob blob m =
      if ltb blob_max_uncompressed_size (length blob.bytes)
      then some (err (error blob_too_large), m)
      else if is_blob_duplicate blob.hash m.store.index
      then some (ok none, m)
      else enqueue blob (compress_encrypt_blob blob m)

  unfoldable pub flush_index :
      Option (Result Failure ℕ × Manager) → Option (Result Failure Done × Manager)
  flush_index none = none
  flush_index (some (err e, m)) = some (err e, m)
  flush_index (some (ok n, m)) =
      some ((do on_store (Index.flush S); λ w. (ok tt, record w { dirty = false })) m)

  unfoldable pub flush : Manager → Option (Result Failure Done × Manager)
  unfolding flush_index
  flush m = flush_index (write_packfiles false m)

  unfoldable pub total_size : Dict Bytes → ℕ
  total_size [] = 0
  total_size ((id, b) ∷ files) = length b + total_size files

  opened : Disk → List (Option ℕ) → Result Failure BlobIndex → Result Failure Manager
  opened disk entropy (err e) = err e
  opened disk entropy (ok index) = ok (record {
    blobs = [];
    dirty = false;
    store = record { index = index; disk = disk };
    packfiles_size = total_size disk.packs;
    entropy = entropy;
  })

  -- `Manager::new` of packfile/mod.rs
  unfoldable pub new : Disk → List (Option ℕ) → Result Failure Manager
  unfolding opened
  new disk entropy = opened disk entropy (Index.new S disk)
