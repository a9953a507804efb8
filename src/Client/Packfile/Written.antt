-- ===== src/Client/Packfile/Written.antt =====
-- What pack.rs leaves on disk: every blob that was queued can be read back from some packfile.
use backuwup.Prelude.{
  ◌≤◌, ◌≡◌, refl, ◌⊎◌, inl, inr, Bool, true, false, ◌||◌, List, [], ◌∷◌, ◌++◌, ok, length, ◌==◌,
  if◌then◌else◌, arith, All, Bool-cases, ==_iff, length-append,
}
use backuwup.Shared.{BlobHash}
use backuwup.Client.Packfile.Types.{Blob, BlobEncrypted, PackfileHeaderBlob, Suite}
use backuwup.Client.Packfile.Index.{
  BlobIndex, contains, find_packfile, is_blob_duplicate, add_to_packfile,
}
use backuwup.Client.Packfile.Pack.{Collected, Batch, append_blob, collect}
use backuwup.Client.Packfile.Format.{Seals, IsReadable, names, append_blob-IsReadable}

-- Some blob of the queue has the hash.
abbrev pub queued : BlobHash → List BlobEncrypted → Bool
queued h [] = false
queued h (e ∷ es) = if e.hash == h then true else queued h es

names-append :
    (h : BlobHash) (header : List PackfileHeaderBlob) (md : PackfileHeaderBlob)
    → names h (header ++ md ∷ []) ≡ names h header || md.hash == h
names-append h [] md = ground arith
names-append h (x ∷ header) md = ground (arith, names-append h header md)

-- The header of an empty batch is empty.
abbrev pub IsCounted : Batch → Type 0
IsCounted b = b.blob_count ≡ length b.header

module _ (h : BlobHash) where
  -- One step of the inner loop, for a blob that is no duplicate.
  dup-add :
      (e : BlobEncrypted) (handle : List BlobHash) (index : BlobIndex)
      → is_blob_duplicate e.hash index ≡ false
      → ((add_to_packfile handle e.hash index).0 ≡ ok tt)
        × (is_blob_duplicate h (add_to_packfile handle e.hash index).2
            ≡ (e.hash == h || is_blob_duplicate h index))
  unfolding add_to_packfile is_blob_duplicate contains find_packfile
  dup-add e handle index n = ground arith

  module _ (S : Suite) (content : BlobHash → Blob) where
    -- What a run of the inner loop promises of the hash, the batch and the queue.
    pub record Gathers (blobs : List BlobEncrypted) (b : Batch) (index : BlobIndex)
        (out : Collected) : Type 0 where
      pub batch : Batch
      pub succeeds : out.result ≡ ok batch
      pub readable : IsReadable S content batch
      pub counted : IsCounted batch
      pub rest_sealed : All (λ e. Seals S e (content e.hash)) out.rest
      pub shorter : length out.rest ≤ length blobs
      pub known_before : is_blob_duplicate h index ≡ true → is_blob_duplicate h out.index ≡ true
      pub known_after :
          is_blob_duplicate h out.index ≡ true
          → (is_blob_duplicate h index ≡ true) ⊎ (names h batch.header ≡ true)
      pub in_batch : names h b.header ≡ true → names h batch.header ≡ true
      pub taken :
          queued h blobs ≡ true
          → (is_blob_duplicate h out.index ≡ true) ⊎ (queued h out.rest ≡ true)

    append_blob-IsCounted :
        (e : BlobEncrypted) (b : Batch) → IsCounted b → IsCounted (append_blob e b)
    unfolding append_blob
    append_blob-IsCounted e b c = omega (arith, length-append b.header (_ ∷ []))

    -- A duplicate is dropped.
    Gathers-skip :
        (e : BlobEncrypted) (blobs : List BlobEncrypted) (b : Batch) (index : BlobIndex)
        (out : Collected)
        → is_blob_duplicate e.hash index ≡ true
        → Gathers blobs b index out
        → Gathers (e ∷ blobs) b index out
    Gathers-skip e blobs b index out d g = record {
      batch = g.batch;
      succeeds = g.succeeds;
      readable = g.readable;
      counted = g.counted;
      rest_sealed = g.rest_sealed;
      shorter = omega (arith, g.shorter);
      known_before = g.known_before;
      known_after = g.known_after;
      in_batch = g.in_batch;
      taken = λ q. elim (Bool-cases (e.hash == h)) [
        | inl same ↦ inl (g.known_before (rw ((==_iff e.hash h).0 same) at d))
        | inr other ↦ g.taken (rw other at q)
      ];
    }

    names-append_blob :
        (e : BlobEncrypted) (b : Batch)
        → names h (append_blob e b).header ≡ names h b.header || e.hash == h
    unfolding append_blob
    names-append_blob e b = names-append h b.header _

    -- A blob that joins the batch, and what comes after it.
    Gathers-add :
        (e : BlobEncrypted) (blobs : List BlobEncrypted) (b : Batch) (index index' : BlobIndex)
        (out : Collected)
        → is_blob_duplicate h index' ≡ (e.hash == h || is_blob_duplicate h index)
        → Gathers blobs (append_blob e b) index' out
        → Gathers (e ∷ blobs) b index out
    Gathers-add e blobs b index index' out known g = record {
      batch = g.batch;
      succeeds = g.succeeds;
      readable = g.readable;
      counted = g.counted;
      rest_sealed = g.rest_sealed;
      shorter = omega (arith, g.shorter);
      known_before = λ d. g.known_before (ground (arith, known));
      known_after = λ d. elim (g.known_after d) [
        | inl k ↦ ground (arith, known, names-append_blob e b, g.in_batch)
        | inr n ↦ inr n
      ];
      in_batch = λ n. g.in_batch (ground (arith, names-append_blob e b));
      taken = λ q. ground (arith, known, g.known_before, g.taken);
    }

    -- The batch is full.
    Gathers-full :
        (blobs : List BlobEncrypted) (b : Batch) (index : BlobIndex)
        → IsReadable S content b
        → IsCounted b
        → All (λ e. Seals S e (content e.hash)) blobs
        → Gathers blobs b index (record { result = ok b; rest = blobs; index = index })
    Gathers-full blobs b index r c s = record {
      batch = b;
      succeeds = refl;
      readable = r;
      counted = c;
      rest_sealed = s;
      shorter = omega arith;
      known_before = λ d. d;
      known_after = λ d. inl d;
      in_batch = λ n. n;
      taken = λ q. inr q;
    }

    pub collect-Gathers :
        (blobs : List BlobEncrypted) (b : Batch) (index : BlobIndex)
        → IsReadable S content b
        → IsCounted b
        → All (λ e. Seals S e (content e.hash)) blobs
        → Gathers blobs b index (collect blobs b index)
    unfolding collect
    collect-Gathers [] b index r c s = Gathers-full [] b index r c s
    collect-Gathers (e ∷ blobs) b index r c s = elim (Bool-cases (is_blob_duplicate e.hash index)) [
      | inl d ↦ rw d (Gathers-skip e blobs b index _ d (collect-Gathers blobs b index r c s.1))
      | inr d ↦
          let (added, known) = dup-add e b.handle index d in
          let index' : BlobIndex = (add_to_packfile b.handle e.hash index).2 in
          let r' : IsReadable S content (append_blob e b) =
            append_blob-IsReadable S content e b s.0 r in
          let c' : IsCounted (append_blob e b) = append_blob-IsCounted e b c in
          rw (d, added)
            (ground (
              arith,
              Gathers-add e blobs b index index' _ known
                  (Gathers-full blobs (append_blob e b) index' r' c' s.1),
              Gathers-add e blobs b index index' _ known
                  (collect-Gathers blobs (append_blob e b) index' r' c' s.1),
            ))
    ]
