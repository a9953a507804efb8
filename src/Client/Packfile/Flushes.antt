-- ===== src/Client/Packfile/Flushes.antt =====
-- `flush` of the packfile handler (pack.rs): it returns, and what was queued is on disk.
use backuwup.Prelude.{
  ℕ, zero, suc, ◌≤◌, ◌<◌, ◌≡◌, refl, ◌∙◌, ◌≢◌, ◌⊎◌, inl, inr, Bool, true, false, ◌||◌, List, [],
  ◌∷◌, Option, none, some, Result, ok, err, length, arith, All, Result-cases, subst,
}
use backuwup.Shared.{BlobHash}
use backuwup.Client.Packfile.Types.{Failure, Blob, BlobEncrypted, Suite, IsLawful}
use backuwup.Client.Packfile.Index.{BlobIndex, is_blob_duplicate, add_to_packfile}
use backuwup.Client.Packfile.Pack.{
  Manager, Collected, Batch, empty_batch, append_blob, collect, write_nonempty, write_one,
  next_turn, report, write_loop, write_packfiles, flush_index, flush,
}
use backuwup.Client.Packfile.Format.{Seals}
use backuwup.Client.Packfile.Files.{write_batch-Writes, flush-IsSame}
use backuwup.Client.Packfile.Written.{queued}
use backuwup.Client.Packfile.Kept.{
  OnDisk, IsBacked, is_blob_duplicate-same, Turns, write_one-Turns, Turns-trans,
}

List-cases {ℓ} : {A : Type ℓ} (xs : List A) → (xs ≡ []) ⊎ ((x : A) × (ys : List A) × (xs ≡ x ∷ ys))
List-cases [] = inl refl
List-cases (x ∷ xs) = inr (x, xs, refl)

collect-shorter :
    (blobs : List BlobEncrypted) (b : Batch) (index : BlobIndex)
    → length (collect blobs b index).rest ≤ length blobs
unfolding collect
collect-shorter [] b index = omega arith
collect-shorter (e ∷ blobs) b index = ground (
  arith,
  collect-shorter blobs b index,
  collect-shorter blobs (append_blob e b) (add_to_packfile b.handle e.hash index).2,
)

-- The first blob is taken off in any case.
collect-tail :
    (e : BlobEncrypted) (blobs : List BlobEncrypted) (b : Batch) (index : BlobIndex)
    → length (collect (e ∷ blobs) b index).rest ≤ length blobs
unfolding collect
collect-tail e blobs b index = ground (
  arith,
  collect-shorter blobs b index,
  collect-shorter blobs (append_blob e b) (add_to_packfile b.handle e.hash index).2,
)

module _ (S : Suite) where
  write_one-shorter :
      (m : Manager) (e : BlobEncrypted) (es : List BlobEncrypted)
      → m.blobs ≡ e ∷ es
      → length (write_one S m).1.blobs ≤ length es
  unfolding write_one write_nonempty
  write_one-shorter m e es q =
      let c : Collected = collect m.blobs empty_batch m.store.index in
      let short : length c.rest ≤ length es = rw q (collect-tail e es empty_batch m.store.index) in
      elim (Result-cases c.result) [
        | inr (f, r) ↦ ground arith
        | inl (b, r) ↦ ground (
          arith,
          (write_batch-Writes S b
              (record m { blobs = c.rest; store = record m.store { index = c.index } })).same_blobs,
        )
      ]

  write_loop-returns :
      (fuel : ℕ) (limit exceeded : Bool) (m : Manager)
      → length m.blobs < fuel
      → write_loop S fuel limit exceeded m ≢ none
  unfolding write_loop next_turn
  write_loop-returns zero limit exceeded m l = elim l [ ]
  write_loop-returns (suc fuel) limit exceeded m l = elim (List-cases m.blobs) [
    | inl e ↦ λ n. ground arith
    | inr (e, es, q) ↦ λ n.
        let short = write_one-shorter m e es q in
        elim (Result-cases (write_one S m).0) [
          | inr (f, r) ↦ ground arith
          | inl (p, r) ↦
              let again =
                write_loop-returns fuel limit (p || exceeded) (write_one S m).1 (ground arith) in
              ground (arith, again)
        ]
  ]

  -- `flush` returns: the loop ends, whatever the disk does, as each turn takes a blob off the queue.
  pub flush-returns : (m : Manager) → flush S m ≢ none
  unfolding flush write_packfiles flush_index
  flush-returns m e =
      ground (arith, write_loop-returns (suc (length m.blobs)) false false m (omega arith))

  module _ (lawful : IsLawful S) (content : BlobHash → Blob) (h : BlobHash) where
    pub write_loop-Turns :
        (fuel : ℕ) (limit exceeded : Bool) (m m' : Manager) (n : ℕ)
        → write_loop S fuel limit exceeded m ≡ some (ok n, m')
        → All (λ e. Seals S e (content e.hash)) m.blobs
        → IsBacked S content h m
        → Turns S content h lawful m m' × (m'.blobs ≡ [])
    unfolding write_loop next_turn report
    write_loop-Turns zero limit exceeded m m' n e s i = cc
    write_loop-Turns (suc fuel) limit exceeded m m' n e s i = elim (List-cases m.blobs) [
      | inl q ↦
          let same : m ≡ m' = ground arith in
          subst (λ k. Turns S content h lawful m k × (k.blobs ≡ [])) same
            (record { backed = i; sealed = s; known = λ d. d; taken = λ k. inr k }, q)
      | inr (x, xs, q) ↦ elim (Result-cases (write_one S m).0) [
        | inr (f, r) ↦ absurd (ground arith)
        | inl (p, r) ↦
            let t = write_one-Turns S content h lawful m p r s i in
            let (u, z) =
              write_loop-Turns fuel limit (p || exceeded) (write_one S m).1 m' n (ground arith)
                t.sealed t.backed in
            (Turns-trans S content h lawful m (write_one S m).1 m' t u, z)
      ]
    ]

    -- The flush of the index behind the loop changes neither packfiles nor what is known.
    flush_index-Turns :
        (m m' : Manager) (out : Option (Result Failure ℕ × Manager))
        → flush_index S out ≡ some (ok tt, m')
        → ((n : ℕ) (k : Manager)
            → out ≡ some (ok n, k)
            → Turns S content h lawful m k × (k.blobs ≡ []))
        → Turns S content h lawful m m' × (m'.blobs ≡ [])
    unfolding flush_index
    flush_index-Turns m m' none e t = cc
    flush_index-Turns m m' (some (err f, k)) e t = cc
    flush_index-Turns m m' (some (ok n, k)) e t =
        let (turns, empty) = t n k refl in
        let (packs, items, hashes) = flush-IsSame S k.store in
        let packs' : m'.store.disk.packs ≡ k.store.disk.packs = ground arith in
        let items' : m'.store.index.items ≡ k.store.index.items = ground arith in
        let hashes' : m'.store.index.blobs_queued ≡ k.store.index.blobs_queued = ground arith in
        let blobs : m'.blobs ≡ k.blobs = ground arith in
        let same = is_blob_duplicate-same S content h k.store.index m'.store.index items' hashes' in
        (
          record {
            backed = λ d. rw packs' (turns.backed (rw same at d));
            sealed = rw blobs turns.sealed;
            known = λ d. rw same (turns.known d);
            taken = λ q. rw (same, blobs) (turns.taken q);
          },
          blobs ∙ empty,
        )

    pub flush-Turns :
        (m m' : Manager)
        → flush S m ≡ some (ok tt, m')
        → All (λ e. Seals S e (content e.hash)) m.blobs
        → IsBacked S content h m
        → Turns S content h lawful m m' × (m'.blobs ≡ [])
    unfolding flush write_packfiles
    flush-Turns m m' e s i =
        flush_index-Turns m m' (write_packfiles S false m) e
          λ n k w. write_loop-Turns (suc (length m.blobs)) false false m k n w s i

    -- After a `flush` that succeeds, every blob that was queued, and every blob that the index took
    -- for known, opens from some packfile on disk; given that the queued bytes open to their blobs,
    -- and that what the index knew before was on disk.
    pub flush-OnDisk :
        (m m' : Manager)
        → flush S m ≡ some (ok tt, m')
        → All (λ e. Seals S e (content e.hash)) m.blobs
        → IsBacked S content h m
        → (is_blob_duplicate h m.store.index ≡ true) ⊎ (queued h m.blobs ≡ true)
        → OnDisk S content h m'.store.disk.packs
    flush-OnDisk m m' e s i known =
        let (t, empty) = flush-Turns m m' e s i in
        elim known [
          | inl d ↦ t.backed (t.known d)
          | inr q ↦ elim (t.taken q) [ inl d ↦ t.backed d | inr left ↦ absurd (ground arith) ]
        ]
