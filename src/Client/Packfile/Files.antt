-- ===== src/Client/Packfile/Files.antt =====
-- What one packfile's writing changes (pack.rs, blob_index.rs): a new file beside the old ones, and
-- entries of the index; the searched entries and the known hashes stay.
use backuwup.Prelude.{
  ℕ, ◌≤◌, ◌≡◌, refl, inl, inr, Bool, true, false, List, [], ◌∷◌, ◌++◌, Option, none, some, Result,
  ok, err, length, ◌==◌, arith, Bool-cases, ==_iff, ==_refl, take, Option-cases, Result-cases,
}
use backuwup.Prelude.Dict.{lookup, lookup-insert}
use backuwup.Shared.{BlobHash}
use backuwup.Client.Bytes.{Bytes, to_le_bytes}
use backuwup.Client.Defaults.{packfile_max_size}
use backuwup.Client.Packfile.Types.{
  PackfileId, Failure, Suite, header_key, Disk, Fault, works, fails, fault, touch, create_new,
  write_packfile, create_index, write_index,
}
use backuwup.Client.Packfile.Index.{BlobIndex, IndexOnDisk, push, finalize_packfile}
use backuwup.Client.Packfile.Index
use backuwup.Client.Packfile.Pack.{Manager, Batch, getrandom, serialize_packfile, write_batch}

-- The packfiles, the entries that are searched and the known hashes are as before.
abbrev pub IsSame : IndexOnDisk → IndexOnDisk → Type 0
IsSame s t =
    (t.disk.packs ≡ s.disk.packs)
    × (t.index.items ≡ s.index.items)
    × (t.index.blobs_queued ≡ s.index.blobs_queued)

module _ (S : Suite) where
  pub flush-IsSame : (s : IndexOnDisk) → IsSame s (Index.flush S s).1
  unfolding Index.flush create_index write_index
  flush-IsSame s = ground arith

  push-IsSame : (h : BlobHash) (id : PackfileId) (s : IndexOnDisk) → IsSame s (push S h id s).1
  unfolding push
  push-IsSame h id s = ground (
    arith,
    flush-IsSame (record s {
      index = record s.index { items_buf = s.index.items_buf ++ (h, id) ∷ []; dirty = true };
    }),
  )

  finalize_packfile-IsSame :
      (hs : List BlobHash) (id : PackfileId) (s : IndexOnDisk)
      → IsSame s (finalize_packfile S hs id s).1
  unfolding finalize_packfile
  finalize_packfile-IsSame [] id s = (refl, refl, refl)
  finalize_packfile-IsSame (h ∷ hs) id s =
      ground (arith, push-IsSame h id s, finalize_packfile-IsSame hs id (push S h id s).1)

  -- Only the random numbers are read.
  pub getrandom-same :
      (m : Manager) → ((getrandom m).1.store ≡ m.store) × ((getrandom m).1.blobs ≡ m.blobs)
  unfolding getrandom
  getrandom-same m = go m.entropy
    where
      go :
          (es : List (Option ℕ))
          → ((getrandom (record m { entropy = es })).1.store ≡ m.store)
            × ((getrandom (record m { entropy = es })).1.blobs ≡ m.blobs)
      go [] = (refl, refl)
      go (none ∷ es) = (refl, refl)
      go (some n ∷ es) = (refl, refl)

  abbrev pub layout : Bytes → Batch → Bytes
  layout sealed b = to_le_bytes 8 (length sealed) ++ (sealed ++ b.bytes)

  -- What `serialize_packfile` returns is such a layout.
  abbrev pub IsPackfile : Batch → PackfileId → Bytes → Type 0
  IsPackfile b id file =
      (plain : Bytes) × (sealed : Bytes) × (S.serialize_header b.header ≡ some plain)
      × (S.encrypt (S.derive_backup_key header_key) id plain ≡ some sealed)
      × (file ≡ layout sealed b)

  serialize_packfile-IsPackfile :
      (b : Batch) (m : Manager) (id : PackfileId) (file : Bytes)
      → (serialize_packfile S b m).0 ≡ ok (id, file)
      → IsPackfile b id file
  unfolding serialize_packfile
  serialize_packfile-IsPackfile b m id file e = elim (Result-cases (getrandom m).0) [
    | inr (_, g) ↦ absurd (ground arith)
    | inl (n, g) ↦ elim (Option-cases (S.serialize_header b.header)) [
      | inl p ↦ absurd (ground arith)
      | inr (plain, p) ↦ elim (Option-cases (S.encrypt (S.derive_backup_key header_key) n plain)) [
        | inl q ↦ absurd (ground arith)
        | inr (sealed, q) ↦ (plain, sealed, p, ground arith, ground arith)
      ]
    ]
  ]

  serialize_packfile-same :
      (b : Batch) (m : Manager)
      → ((serialize_packfile S b m).1.store ≡ m.store)
        × ((serialize_packfile S b m).1.blobs ≡ m.blobs)
  unfolding serialize_packfile
  serialize_packfile-same b m = ground (arith, getrandom-same m)

  create_new-keeps :
      (id j : PackfileId) (file : Bytes) (d : Disk)
      → lookup j d.packs ≡ some file
      → lookup j (create_new id d).1.packs ≡ some file
  unfolding create_new
  create_new-keeps id j file d h = ground (arith, lookup-insert id j [] d.packs)

  -- After `create_new` succeeded, the name is new.
  create_new-new :
      (id j : PackfileId) (file : Bytes) (d : Disk)
      → lookup j d.packs ≡ some file
      → (create_new id d).0 ≡ ok tt
      → (id == j) ≡ false
  unfolding create_new
  create_new-new id j file d h e = elim (Bool-cases (id == j)) [
    | inr n ↦ n
    | inl same ↦ let p : id ≡ j = (==_iff id j).0 same in absurd (ground arith)
  ]

  write_packfile-keeps :
      (id j : PackfileId) (b file : Bytes) (d : Disk)
      → lookup j d.packs ≡ some file
      → (id == j) ≡ false
      → lookup j (write_packfile id b d).1.packs ≡ some file
  unfolding write_packfile
  write_packfile-keeps id j b file d h n = go (fault d) refl
    where
      go : (f : Fault) → fault d ≡ f → lookup j (write_packfile id b d).1.packs ≡ some file
      go works e = ground (arith, lookup-insert id j b d.packs)
      go (fails k) e = ground (arith, lookup-insert id j (take k b) d.packs)

  write_packfile-written :
      (id : PackfileId) (b : Bytes) (d : Disk)
      → (write_packfile id b d).0 ≡ ok tt
      → lookup id (write_packfile id b d).1.packs ≡ some b
  unfolding write_packfile
  write_packfile-written id b d e = ground (arith, lookup-insert id id b d.packs, ==_refl id)

  -- What writing a batch changes.
  pub record Writes (b : Batch) (m : Manager) (out : Result Failure Bool × Manager) : Type 0 where
    pub same_blobs : out.1.blobs ≡ m.blobs
    pub same_items : out.1.store.index.items ≡ m.store.index.items
    pub same_known : out.1.store.index.blobs_queued ≡ m.store.index.blobs_queued
    pub keeps :
        (j : PackfileId) (file : Bytes)
        → lookup j m.store.disk.packs ≡ some file
        → lookup j out.1.store.disk.packs ≡ some file
    pub written :
        (passed : Bool)
        → out.0 ≡ ok passed
        → (id : PackfileId) × (file : Bytes) × IsPackfile b id file
          × (length file ≤ packfile_max_size)
          × (lookup id out.1.store.disk.packs ≡ some file)

  touch-same : (d : Disk) → (touch d).1.packs ≡ d.packs
  unfolding touch
  touch-same d = ground arith

  module _ (b : Batch) (m : Manager) where
    abbrev after_header : Manager
    after_header = (serialize_packfile S b m).1

    -- The store behind the write of the file.
    abbrev with_file : PackfileId → Bytes → IndexOnDisk
    with_file id file = record after_header.store {
      disk = (write_packfile id file (create_new id (touch after_header.store.disk).1).1).1;
    }

    write_batch-keeps :
        (id : PackfileId) (file : Bytes)
        → (serialize_packfile S b m).0 ≡ ok (id, file)
        → (j : PackfileId) (other : Bytes) → lookup j m.store.disk.packs ≡ some other
        → lookup j (write_batch S b m).1.store.disk.packs ≡ some other
    unfolding write_batch
    write_batch-keeps id file e j other h =
        let touched : Disk = (touch after_header.store.disk).1 in
        let t : lookup j touched.packs ≡ some other =
          rw (touch-same after_header.store.disk, (serialize_packfile-same b m).0) h in
        let c : lookup j (create_new id touched).1.packs ≡ some other =
          create_new-keeps id j other touched t in
        ground (
          arith,
          touch-same after_header.store.disk,
          serialize_packfile-same b m,
          create_new-new id j other touched t,
          write_packfile-keeps id j file other (create_new id touched).1 c,
          finalize_packfile-IsSame b.handle id (with_file id file),
        )

    write_batch-written :
        (id : PackfileId) (file : Bytes)
        → (serialize_packfile S b m).0 ≡ ok (id, file)
        → (passed : Bool) → (write_batch S b m).0 ≡ ok passed
        → (length file ≤ packfile_max_size)
          × (lookup id (write_batch S b m).1.store.disk.packs ≡ some file)
    unfolding write_batch
    write_batch-written id file e passed h = ground (
      arith,
      write_packfile-written id file (create_new id (touch after_header.store.disk).1).1,
      finalize_packfile-IsSame b.handle id (with_file id file),
    )

    write_batch-same :
        (id : PackfileId) (file : Bytes)
        → (serialize_packfile S b m).0 ≡ ok (id, file)
        → ((write_batch S b m).1.blobs ≡ m.blobs)
          × ((write_batch S b m).1.store.index.items ≡ m.store.index.items)
          × ((write_batch S b m).1.store.index.blobs_queued ≡ m.store.index.blobs_queued)
    unfolding write_batch
    write_batch-same id file e = ground (
      arith,
      serialize_packfile-same b m,
      finalize_packfile-IsSame b.handle id (with_file id file),
    )

    write_batch-failed :
        (failure : Failure)
        → (serialize_packfile S b m).0 ≡ err failure
        → Writes b m (write_batch S b m)
    unfolding write_batch
    write_batch-failed failure e = record {
      same_blobs = ground (arith, serialize_packfile-same b m);
      same_items = ground (arith, serialize_packfile-same b m);
      same_known = ground (arith, serialize_packfile-same b m);
      keeps = λ j file h. ground (arith, serialize_packfile-same b m);
      written = λ passed w. absurd (ground arith);
    }

    pub write_batch-Writes : Writes b m (write_batch S b m)
    write_batch-Writes = elim (Result-cases (serialize_packfile S b m).0) [
      | inl ((id, file), e) ↦
          let (blobs, items, known) = write_batch-same id file e in
          record {
            same_blobs = blobs;
            same_items = items;
            same_known = known;
            keeps = write_batch-keeps id file e;
            written = λ passed w.
                let (fits, there) = write_batch-written id file e passed w in
                (id, file, serialize_packfile-IsPackfile b m id file e, fits, there);
          }
      | inr (failure, e) ↦ write_batch-failed failure e
    ]
