-- ===== src/Client/Packfile/Examples.antt =====
-- The theorems on the packfile handler (client/src/backup/filesystem/packfile) at a concrete input: one
-- blob on an empty disk, with a cipher that only puts a tag of sixteen zeros in front.
use backuwup.Prelude.{
  ℕ, zero, suc, ◌≡◌, ◌≢◌, refl, inl, List, [], ◌∷◌, ◌++◌, Option, none, some, Result, ok, drop,
  false, arith,
}
use backuwup.Prelude.Dict.{lookup, insert}
use backuwup.Shared.{BlobHash}
use backuwup.Client.Bytes.{Bytes, to_le_bytes}
use backuwup.Client.Packfile.Types.{
  PackfileHeaderBlob, Blob, BlobKind, file_chunk, tree, CompressionKind, uncompressed, zstd, Suite,
  IsLawful, Disk, Failure, fault, after_fault, touch, create_new, write_packfile, create_index,
  write_index,
}
use backuwup.Client.Packfile.Search.{Entry, binary_search_by_key, sort_by_key}
use backuwup.Client.Packfile.Index.{
  BlobIndex, load_files, max_file_num, is_blob_duplicate, find_packfile, contains, add_to_packfile,
  finalize_packfile, push,
}
use backuwup.Client.Packfile.Index
use backuwup.Client.Packfile.Pack.{
  Manager, getrandom, collect, append_blob, serialize_packfile, write_batch, write_nonempty,
  write_one, next_turn, report, write_loop, write_packfiles, candidates, trigger_write_if_desired,
  compress_encrypt_blob, enqueue, add_blob, flush_index, flush,
}
use backuwup.Client.Packfile.Kept.{OnDisk}
use backuwup.Client.Packfile.Flushes.{flush-returns}
use backuwup.Client.Packfile.Index.Loaded.{IsStored, find_packfile-new}
use backuwup.Client.Packfile.Adds.{IsSound, IsKnown, add_blob-IsSound, flush-add_blob}

abbrev kind_code : BlobKind → ℕ
kind_code file_chunk = 0
kind_code tree = 1

abbrev code_kind : ℕ → BlobKind
code_kind zero = file_chunk
code_kind (suc n) = tree

abbrev compression_code : CompressionKind → ℕ
compression_code uncompressed = 0
compression_code zstd = 1

abbrev code_compression : ℕ → CompressionKind
code_compression zero = uncompressed
code_compression (suc n) = zstd

abbrev header_bytes : List PackfileHeaderBlob → Bytes
header_bytes [] = []
header_bytes (md ∷ header) =
    md.hash
    ∷ kind_code md.kind
    ∷ compression_code md.compression
    ∷ md.length
    ∷ md.offset
    ∷ header_bytes header

abbrev bytes_header : Bytes → List PackfileHeaderBlob
bytes_header (h ∷ k ∷ c ∷ l ∷ o ∷ rest) =
    record {
      hash = h;
      kind = code_kind k;
      compression = code_compression c;
      length = l;
      offset = o;
    }
    ∷ bytes_header rest
bytes_header _ = []

abbrev entry_bytes : List Entry → Bytes
entry_bytes [] = []
entry_bytes ((h, id) ∷ es) = h ∷ id ∷ entry_bytes es

abbrev bytes_entry : Bytes → List Entry
bytes_entry (h ∷ id ∷ rest) = (h, id) ∷ bytes_entry rest
bytes_entry _ = []

abbrev tag : Bytes
tag = 0 ∷ 0 ∷ 0 ∷ 0 ∷ 0 ∷ 0 ∷ 0 ∷ 0 ∷ 0 ∷ 0 ∷ 0 ∷ 0 ∷ 0 ∷ 0 ∷ 0 ∷ 0 ∷ []

abbrev toy : Suite
toy = record {
  Key = Unit;
  derive_backup_key = λ i. tt;
  encrypt = λ k nonce plain. some (tag ++ plain);
  decrypt = λ k nonce sealed. some (drop 16 sealed);
  compress = λ b. some b;
  decompress = λ b limit. some b;
  serialize_header = λ h. some (header_bytes h);
  deserialize_header = λ b. some (bytes_header b);
  serialize_entries = λ es. some (entry_bytes es);
  deserialize_entries = λ b. some (bytes_entry b);
}

code_kind-kind_code : (k : BlobKind) → code_kind (kind_code k) ≡ k
code_kind-kind_code file_chunk = refl
code_kind-kind_code tree = refl

code_compression-compression_code :
    (c : CompressionKind) → code_compression (compression_code c) ≡ c
code_compression-compression_code uncompressed = refl
code_compression-compression_code zstd = refl

bytes_header-header_bytes : (h : List PackfileHeaderBlob) → bytes_header (header_bytes h) ≡ h
bytes_header-header_bytes [] = refl
bytes_header-header_bytes (md ∷ h) = ground (
  arith,
  bytes_header-header_bytes h,
  code_kind-kind_code md.kind,
  code_compression-compression_code md.compression,
)

bytes_entry-entry_bytes : (es : List Entry) → bytes_entry (entry_bytes es) ≡ es
bytes_entry-entry_bytes [] = refl
bytes_entry-entry_bytes ((h, id) ∷ es) = rw (bytes_entry-entry_bytes es)

toy-IsLawful : IsLawful toy
toy-IsLawful = record {
  decrypt-encrypt = λ k n plain sealed e. ground arith;
  length-encrypt = λ k n plain sealed e. ground arith;
  decompress-compress = λ plain packed limit e l. ground arith;
  deserialize-serialize_header = λ h b e. ground (arith, bytes_header-header_bytes h);
  deserialize-serialize_entries = λ es b e. ground (arith, bytes_entry-entry_bytes es);
}

abbrev blob : Blob
blob = record { hash = 42; kind = file_chunk; bytes = 1 ∷ 2 ∷ 3 ∷ [] }

abbrev start : Manager
start = record {
  blobs = [];
  dirty = false;
  store = record {
    index = record {
      items = [];
      items_buf = [];
      blobs_queued = [];
      last_file_num = 0;
      dirty = false;
    };
    disk = record { packs = []; indexes = []; faults = [] };
  };
  packfiles_size = 0;
  entropy = some 5 ∷ some 6 ∷ [];
}

start-IsSound : (h : BlobHash) → IsSound toy toy-IsLawful (λ k. blob) h start
unfolding is_blob_duplicate find_packfile contains binary_search_by_key
start-IsSound h = record { sealed = tt; backed = λ d. cc }

abbrev after {ℓ} : {A : Type ℓ} → Option (Result Failure A × Manager) → Manager
after none = start
after (some (r, m)) = m

adds : add_blob toy blob start ≡ some (ok none, after (add_blob toy blob start))
unfolding add_blob enqueue compress_encrypt_blob getrandom trigger_write_if_desired candidates
    is_blob_duplicate find_packfile contains binary_search_by_key
adds = refl

flushes :
    flush toy (after (add_blob toy blob start))
    ≡ some (ok tt, after (flush toy (after (add_blob toy blob start))))
unfolding add_blob enqueue compress_encrypt_blob getrandom trigger_write_if_desired candidates
    is_blob_duplicate find_packfile contains binary_search_by_key flush flush_index write_packfiles
    write_loop next_turn report write_one write_nonempty write_batch serialize_packfile collect
    append_blob add_to_packfile to_le_bytes touch create_new write_packfile create_index write_index
    fault after_fault lookup insert finalize_packfile push Index.flush
flushes = refl

add_blob-IsSound_example :
    IsSound toy toy-IsLawful (λ k. blob) 42 (after (add_blob toy blob start))
    × IsKnown toy toy-IsLawful (λ k. blob) 42 (after (add_blob toy blob start))
add_blob-IsSound_example =
    add_blob-IsSound toy toy-IsLawful (λ k. blob) 42 blob start (after (add_blob toy blob start))
      none refl adds (start-IsSound 42) (inl refl)

flush-add_blob_example :
    OnDisk toy (λ k. blob) 42 (after (flush toy (after (add_blob toy blob start)))).store.disk.packs
flush-add_blob_example =
    flush-add_blob toy toy-IsLawful (λ k. blob) blob start (after (add_blob toy blob start))
      (after (flush toy (after (add_blob toy blob start)))) none refl (start-IsSound 42) adds
      flushes

flush-returns_example : flush toy start ≢ none
flush-returns_example = flush-returns toy start

-- Two index files, with the entries of both out of order.
abbrev two_files : Disk
two_files = record {
  packs = [];
  indexes =
      (1, tag ++ entry_bytes ((9, 1) ∷ (4, 2) ∷ [])) ∷ (2, tag ++ entry_bytes ((7, 3) ∷ [])) ∷ [];
  faults = [];
}

abbrev reloaded : BlobIndex
reloaded = record {
  items = (4, 2) ∷ (7, 3) ∷ (9, 1) ∷ [];
  items_buf = [];
  blobs_queued = [];
  last_file_num = 2;
  dirty = false;
}

reloads : Index.new toy two_files ≡ ok reloaded
unfolding Index.new load_files max_file_num sort_by_key
reloads = refl

find_packfile-new_example :
    ((p : ℕ)
      → IsStored toy two_files.indexes (4, p)
      → (q : ℕ) × (find_packfile 4 reloaded ≡ some q) × IsStored toy two_files.indexes (4, q))
    × ((q : ℕ) → find_packfile 4 reloaded ≡ some q → IsStored toy two_files.indexes (4, q))
find_packfile-new_example = find_packfile-new toy two_files reloaded 4 reloads
