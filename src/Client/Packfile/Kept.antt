-- ===== src/Client/Packfile/Kept.antt =====
-- The packfile handler keeps what it was given: after `flush` (pack.rs) every queued blob can be read
-- back from a packfile on disk (unpack.rs).
use backuwup.Prelude.{
  ◌≤◌, ◌≡◌, refl, ◌⊎◌, inl, inr, Bool, true, false, List, [], ◌∷◌, some, ok, length, leb, arith,
  All,
}
use backuwup.Prelude.Dict.{Dict, lookup}
use backuwup.Shared.{BlobHash}
use backuwup.Client.Bytes.{Bytes}
use backuwup.Client.Packfile.Types.{PackfileId, PackfileHeaderBlob, Blob, Suite, IsLawful}
use backuwup.Client.Packfile.Index.{BlobIndex, find_packfile, is_blob_duplicate}
use backuwup.Client.Packfile.Pack.{
  Manager, Batch, empty_batch, collect, write_batch, write_nonempty, write_one,
}
use backuwup.Client.Packfile.Unpack.{read_packfile}
use backuwup.Client.Packfile.Format.{
  Seals, IsReadable, names, empty_batch-IsReadable, read_packfile-layout,
}
use backuwup.Client.Packfile.Files.{Writes, write_batch-Writes}
use backuwup.Client.Packfile.Written.{queued, IsCounted, Gathers, collect-Gathers}

module _ (S : Suite) (content : BlobHash → Blob) (h : BlobHash) where
  -- Some packfile opens to the blob of the hash.
  abbrev pub OnDisk : Dict Bytes → Type 0
  OnDisk packs =
      (id : PackfileId) × (file : Bytes) × (lookup id packs ≡ some file)
      × (read_packfile S id h file ≡ ok (content h))

  -- What the index takes for a duplicate is on disk.
  abbrev pub IsBacked : Manager → Type 0
  IsBacked m = is_blob_duplicate h m.store.index ≡ true → OnDisk m.store.disk.packs

  pub is_blob_duplicate-same :
      (i j : BlobIndex)
      → j.items ≡ i.items
      → j.blobs_queued ≡ i.blobs_queued
      → is_blob_duplicate h j ≡ is_blob_duplicate h i
  unfolding is_blob_duplicate find_packfile
  is_blob_duplicate-same i j e f = ground (arith, e, f)

  module _ (lawful : IsLawful S) where
    -- A turn that succeeds: what was known or in the batch is on disk.
    write_batch-OnDisk :
        (b : Batch) (m : Manager) (passed : Bool)
        → IsReadable S content b
        → (write_batch S b m).0 ≡ ok passed
        → names h b.header ≡ true
        → OnDisk (write_batch S b m).1.store.disk.packs
    write_batch-OnDisk b m passed r e n =
        let w : Writes S b m (write_batch S b m) = write_batch-Writes S b m in
        let (id, file, (plain, sealed, p, q, l), fits, there) = w.written passed e in
        (
          id,
          file,
          there,
          rw l (read_packfile-layout S content lawful b id plain sealed h r n p q (rw l at fits)),
        )

    names-empty : (b : Batch) → IsCounted b → leb b.blob_count 0 ≡ true → names h b.header ≡ false
    names-empty b c e = go b.header (ground (arith, c))
      where
        go : (header : List PackfileHeaderBlob) → length header ≤ 0 → names h header ≡ false
        go [] l = refl
        go (x ∷ header) l = absurd (omega arith)

    -- What a successful turn behind the inner loop leaves.
    pub record Turns (m n : Manager) : Type 0 where
      pub backed : IsBacked n
      pub sealed : All (λ e. Seals S e (content e.hash)) n.blobs
      pub known :
          is_blob_duplicate h m.store.index ≡ true → is_blob_duplicate h n.store.index ≡ true
      pub taken :
          queued h m.blobs ≡ true
          → (is_blob_duplicate h n.store.index ≡ true) ⊎ (queued h n.blobs ≡ true)

    -- The manager behind the inner loop.
    abbrev gathered : Manager → Manager
    gathered m =
        let c = collect m.blobs empty_batch m.store.index in
        record m { blobs = c.rest; store = record m.store { index = c.index } }

    OnDisk-keeps :
        (b : Batch) (m : Manager)
        → OnDisk m.store.disk.packs
        → OnDisk (write_batch S b m).1.store.disk.packs
    OnDisk-keeps b m (id, file, there, reads) =
        let w : Writes S b m (write_batch S b m) = write_batch-Writes S b m in
        (id, file, w.keeps id file there, reads)

    skip-Turns :
        (m : Manager)
        (g : Gathers h S content m.blobs empty_batch m.store.index
          (collect m.blobs empty_batch m.store.index))
        → leb g.batch.blob_count 0 ≡ true
        → IsBacked m
        → Turns m (gathered m)
    skip-Turns m g z i = record {
      backed = λ d. elim (g.known_after d) [
        | inl old ↦ i old
        | inr n ↦ absurd (cc (n, names-empty g.batch g.counted z))
      ];
      sealed = g.rest_sealed;
      known = g.known_before;
      taken = g.taken;
    }

    write-Turns :
        (m : Manager) (passed : Bool)
        (g : Gathers h S content m.blobs empty_batch m.store.index
          (collect m.blobs empty_batch m.store.index))
        → (write_batch S g.batch (gathered m)).0 ≡ ok passed
        → IsBacked m
        → Turns m (write_batch S g.batch (gathered m)).1
    write-Turns m passed g e i =
        let w : Writes S g.batch (gathered m) (write_batch S g.batch (gathered m)) =
          write_batch-Writes S g.batch (gathered m) in
        let same =
          is_blob_duplicate-same (gathered m).store.index
            (write_batch S g.batch (gathered m)).1.store.index w.same_items w.same_known in
        record {
          backed = λ d. elim (g.known_after (rw same at d)) [
            | inl old ↦ OnDisk-keeps g.batch (gathered m) (i old)
            | inr n ↦ write_batch-OnDisk g.batch (gathered m) passed g.readable e n
          ];
          sealed = rw w.same_blobs g.rest_sealed;
          known = λ d. rw same (g.known_before d);
          taken = λ q. rw (same, w.same_blobs) (g.taken q);
        }

    pub write_one-Turns :
        (m : Manager) (passed : Bool)
        → (write_one S m).0 ≡ ok passed
        → All (λ e. Seals S e (content e.hash)) m.blobs
        → IsBacked m
        → Turns m (write_one S m).1
    unfolding write_one write_nonempty
    write_one-Turns m passed e s i =
        let g =
          collect-Gathers h S content m.blobs empty_batch m.store.index
            (empty_batch-IsReadable S content) refl s in
        ground (arith, g.succeeds, skip-Turns m g, write-Turns m passed g)

    pub Turns-trans : (m n o : Manager) → Turns m n → Turns n o → Turns m o
    Turns-trans m n o s t = record {
      backed = t.backed;
      sealed = t.sealed;
      known = λ d. t.known (s.known d);
      taken = λ q. elim (s.taken q) [ inl d ↦ inl (t.known d) | inr r ↦ t.taken r ];
    }
