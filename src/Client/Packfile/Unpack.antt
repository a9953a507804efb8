-- ===== src/Client/Packfile/Unpack.antt =====
-- client/src/backup/filesystem/packfile/unpack.rs: a blob is read back from its packfile.
use backuwup.Prelude.{
  ℕ, ◌||◌, List, [], ◌∷◌, Option, none, some, Result, ok, err, length, drop, ltb, ◌==◌,
  if◌then◌else◌, ok_or, and_then,
}
use backuwup.Prelude.Dict.{lookup}
use backuwup.Shared.{BlobHash}
use backuwup.Client.Bytes.{Bytes, from_le_bytes, read_exact}
use backuwup.Client.Defaults.{blob_max_uncompressed_size, packfile_max_size, blob_nonce_size}
use backuwup.Client.Packfile.Types.{
  PackfileId, PackfileHeaderBlob, Blob, Failure, error, Suite, header_key, blob_key, io_error,
  crypto_error, serialization_error, packfile_too_large, invalid_header_size, index_header_mismatch,
}
use backuwup.Client.Packfile.Index.{IndexOnDisk, find_packfile}

-- `read_exact` on an open file, with what is left of it.
abbrev pub read : ℕ → Bytes → Result Failure (Bytes × Bytes)
read n file = ok_or (read_exact n file) (error io_error)

module _ (S : Suite) where
  -- Reading, decrypting and decompressing the data behind a header entry. `file` begins where the
  -- blob section begins; a seek past its end is an error only for the read that follows.
  unfoldable pub read_blob : PackfileHeaderBlob → Bytes → Result Failure Blob
  read_blob metadata file =
      and_then (read blob_nonce_size (drop metadata.offset file)) λ (nonce, at_data).
        and_then (read metadata.length at_data) λ (sealed, _).
          and_then
            (ok_or
              (S.decrypt (S.derive_backup_key (blob_key metadata.hash)) (from_le_bytes nonce)
                sealed)
              (error crypto_error))
            λ packed.
              and_then (ok_or (S.decompress packed blob_max_uncompressed_size) (error io_error))
                λ bytes. ok (record { hash = metadata.hash; kind = metadata.kind; bytes = bytes })

  -- The first header entry of the blob; an index that names the wrong packfile is an error.
  unfoldable pub find_in_header : BlobHash → List PackfileHeaderBlob → Bytes → Result Failure Blob
  find_in_header blob_hash [] file = err (error index_header_mismatch)
  find_in_header blob_hash (metadata ∷ header) file =
      if metadata.hash == blob_hash
      then read_blob metadata file
      else find_in_header blob_hash header file

  unfoldable pub open_header : PackfileId → Bytes → Result Failure (List PackfileHeaderBlob)
  open_header packfile_id sealed =
      and_then
        (ok_or (S.decrypt (S.derive_backup_key header_key) packfile_id sealed) (error crypto_error))
        λ plain. ok_or (S.deserialize_header plain) (error serialization_error)

  -- The blob in the bytes of a packfile.
  unfoldable pub read_packfile : PackfileId → BlobHash → Bytes → Result Failure Blob
  read_packfile packfile_id blob_hash packfile =
      if ltb packfile_max_size (length packfile)
      then err (error packfile_too_large)
      else and_then (read 8 packfile) λ (size_bytes, at_header).
        if ltb (length packfile) (from_le_bytes size_bytes) || from_le_bytes size_bytes == 0
        then err (error invalid_header_size)
        else and_then (read (from_le_bytes size_bytes) at_header) λ (sealed, at_blobs).
          and_then (open_header packfile_id sealed)
            λ header. find_in_header blob_hash header at_blobs

  found_blob : Result Failure Blob → Result Failure (Option Blob)
  found_blob (ok blob) = ok (some blob)
  found_blob (err e) = err e

  unfoldable pub get_blob : BlobHash → IndexOnDisk → Result Failure (Option Blob)
  unfolding found_blob
  get_blob blob_hash s = elim (find_packfile blob_hash s.index) [
    | none ↦ ok none
    | some packfile_id ↦ found_blob (
        and_then (ok_or (lookup packfile_id s.disk.packs) (error io_error))
          λ packfile. read_packfile packfile_id blob_hash packfile)
  ]
