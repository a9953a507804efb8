-- ===== src/Client/Packfile/Types.antt =====
-- client/src/backup/filesystem/mod.rs: blobs, packfile headers and errors; and what the packfile code
-- takes from other crates: AES-GCM, key derivation, zstd and bincode (the parameter `Suite`).
use backuwup.Prelude.{
  ℕ, ◌+◌, ◌≤◌, ◌≡◌, List, [], ◌∷◌, Option, none, some, Result, ok, err, Done, length, take,
}
use backuwup.Prelude.Dict.{Dict, lookup, insert}
use backuwup.Shared.{BlobHash}
use backuwup.Client.Bytes.{Bytes}

abbrev pub PackfileId : Type 0
PackfileId = ℕ

pub data BlobKind : Type 0 where
  file_chunk tree : BlobKind

pub data CompressionKind : Type 0 where
  uncompressed zstd : CompressionKind

pub record PackfileHeaderBlob : Type 0 where
  pub hash : BlobHash
  pub kind : BlobKind
  pub compression : CompressionKind
  pub length : ℕ
  pub offset : ℕ

pub record Blob : Type 0 where
  pub hash : BlobHash
  pub kind : BlobKind
  pub bytes : Bytes

-- The 12 bytes of the nonce are the number that they spell.
pub record BlobEncrypted : Type 0 where
  pub hash : BlobHash
  pub kind : BlobKind
  pub bytes : Bytes
  pub nonce : ℕ

pub data PackfileError : Type 0 where
  exceeded_buffer_limit invalid_header_size packfile_too_large index_header_mismatch : PackfileError
  blob_too_large duplicate_blob io_error crypto_error serialization_error : PackfileError
  getrandom_error : PackfileError

-- A call that does not return a value: by an error, or by a panic (`expect`, `assert!`).
pub data Failure : Type 0 where
  error : PackfileError → Failure
  panic : Failure

-- What a key is derived from: the constants of the headers and of the index, or a blob's hash.
pub data KeyInfo : Type 0 where
  header_key index_key : KeyInfo
  blob_key : BlobHash → KeyInfo

pub record Suite : Type 1 where
  pub Key : Type 0
  pub derive_backup_key : KeyInfo → Key
  -- `encrypt_in_place` and `decrypt_in_place` by key and nonce; `none` is an error
  pub encrypt : Key → ℕ → Bytes → Option Bytes
  pub decrypt : Key → ℕ → Bytes → Option Bytes
  -- zstd at the level and with the options of the code, and its decompression up to a size
  pub compress : Bytes → Option Bytes
  pub decompress : Bytes → ℕ → Option Bytes
  -- bincode of a header and of an index file
  pub serialize_header : List PackfileHeaderBlob → Option Bytes
  pub deserialize_header : Bytes → Option (List PackfileHeaderBlob)
  pub serialize_entries : List (BlobHash × PackfileId) → Option Bytes
  pub deserialize_entries : Bytes → Option (List (BlobHash × PackfileId))

-- Each of them undoes the other, as documented.
pub record IsLawful (S : Suite) : Type 0 where
  pub decrypt-encrypt :
      (k : S.Key) (nonce : ℕ) (plain sealed : Bytes)
      → S.encrypt k nonce plain ≡ some sealed
      → S.decrypt k nonce sealed ≡ some plain
  -- the tag of 16 bytes
  pub length-encrypt :
      (k : S.Key) (nonce : ℕ) (plain sealed : Bytes)
      → S.encrypt k nonce plain ≡ some sealed
      → length sealed ≡ length plain + 16
  pub decompress-compress :
      (plain packed : Bytes) (limit : ℕ)
      → S.compress plain ≡ some packed
      → length plain ≤ limit
      → S.decompress packed limit ≡ some plain
  pub deserialize-serialize_header :
      (h : List PackfileHeaderBlob) (b : Bytes)
      → S.serialize_header h ≡ some b
      → S.deserialize_header b ≡ some h
  pub deserialize-serialize_entries :
      (es : List (BlobHash × PackfileId)) (b : Bytes)
      → S.serialize_entries es ≡ some b
      → S.deserialize_entries b ≡ some es

-- A file operation works, or fails; a write that fails has written so many bytes.
pub data Fault : Type 0 where
  works : Fault
  fails : ℕ → Fault

-- The two folders of the output, each file by the number that its name spells, and what the coming
-- operations on them do (past the end of `faults`, they work).
pub record Disk : Type 0 where
  pub packs : Dict Bytes
  pub indexes : Dict Bytes
  pub faults : List Fault

next_fault : List Fault → Fault
next_fault [] = works
next_fault (f ∷ fs) = f

later_faults : List Fault → List Fault
later_faults [] = []
later_faults (f ∷ fs) = fs

unfoldable pub fault : Disk → Fault
unfolding next_fault
fault d = next_fault d.faults

unfoldable pub after_fault : Disk → Disk
unfolding later_faults
after_fault d = record d { faults = later_faults d.faults }

abbrev pub io {ℓ} : {A : Type ℓ} → Result Failure A
io = err (error io_error)

-- An operation that only fails or works, such as `create_dir_all`.
unfoldable pub touch : Disk → Result Failure Done × Disk
unfolding fault after_fault
touch d = elim (fault d) [ works ↦ (ok tt, after_fault d) | fails n ↦ (io, after_fault d) ]

-- `OpenOptions::new().write(true).create_new(true).open(…)` of a packfile
unfoldable pub create_new : PackfileId → Disk → Result Failure Done × Disk
unfolding fault after_fault
create_new id d = elim (fault d) [
  | fails n ↦ (io, after_fault d)
  | works ↦ elim (lookup id d.packs) [
    | some file ↦ (io, after_fault d)
    | none ↦ (ok tt, record d { packs = insert id [] d.packs; faults = (after_fault d).faults })
  ]
]

unfoldable pub write_packfile : PackfileId → Bytes → Disk → Result Failure Done × Disk
unfolding fault after_fault
write_packfile id b d = elim (fault d) [
  | works ↦ (ok tt, record d { packs = insert id b d.packs; faults = (after_fault d).faults })
  | fails n ↦
      (io, record d { packs = insert id (take n b) d.packs; faults = (after_fault d).faults })
]

-- `File::create` of an index file, which empties an old one, and the write to it
unfoldable pub create_index : ℕ → Disk → Result Failure Done × Disk
unfolding fault after_fault
create_index n d = elim (fault d) [
  | works ↦ (ok tt, record d { indexes = insert n [] d.indexes; faults = (after_fault d).faults })
  | fails _ ↦ (io, after_fault d)
]

unfoldable pub write_index : ℕ → Bytes → Disk → Result Failure Done × Disk
unfolding fault after_fault
write_index n b d = elim (fault d) [
  | works ↦ (ok tt, record d { indexes = insert n b d.indexes; faults = (after_fault d).faults })
  | fails m ↦
      (io, record d { indexes = insert n (take m b) d.indexes; faults = (after_fault d).faults })
]
