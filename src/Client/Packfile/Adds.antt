-- ===== src/Client/Packfile/Adds.antt =====
-- `add_blob` of the packfile handler (pack.rs): the blob it accepts is known or queued, and sealed.
use native.Mathlib.Nat.{mod-lt}
use backuwup.Prelude.{
  ℕ, suc, ◌≤◌, ◌<◌, ◌^◌, ◌≡◌, refl, ◌≢◌, ◌⊎◌, inl, inr, true, false, ◌||◌, List, [], ◌∷◌, ◌++◌,
  Option, none, some, Result, ok, err, length, ◌==◌, arith, All, All-append, Option-cases,
  Result-cases, subst,
}
use backuwup.Shared.{BlobHash}
use backuwup.Client.Bytes.{Bytes}
use backuwup.Client.Defaults.{blob_nonce_size, blob_max_uncompressed_size}
use backuwup.Client.Packfile.Types.{Failure, Blob, BlobEncrypted, Suite, IsLawful, blob_key}
use backuwup.Client.Packfile.Index.{is_blob_duplicate}
use backuwup.Client.Packfile.Pack.{
  Manager, getrandom, compress_encrypt_blob, enqueue, reported, trigger_write_if_desired, add_blob,
  write_packfiles, flush,
}
use backuwup.Client.Packfile.Format.{Seals}
use backuwup.Client.Packfile.Files.{getrandom-same}
use backuwup.Client.Packfile.Written.{queued}
use backuwup.Client.Packfile.Kept.{OnDisk, IsBacked, Turns}
use backuwup.Client.Packfile.Flushes.{write_loop-Turns, flush-OnDisk}

getrandom-nonce : (m : Manager) (n : ℕ) → (getrandom m).0 ≡ ok n → n < 256 ^ blob_nonce_size
unfolding getrandom
getrandom-nonce m n = go m.entropy
  where
    go :
        (es : List (Option ℕ))
        → (getrandom (record m { entropy = es })).0 ≡ ok n
        → n < 256 ^ blob_nonce_size
    go [] e = cc
    go (none ∷ es) e = cc
    go (some k ∷ es) e = ground (arith, mod-lt k {m = 256 ^ blob_nonce_size} (omega arith))

queued-append :
    (h : BlobHash) (es : List BlobEncrypted) (e : BlobEncrypted)
    → queued h (es ++ e ∷ []) ≡ queued h es || e.hash == h
queued-append h [] e = ground arith
queued-append h (x ∷ es) e = ground (arith, queued-append h es e)

module _ (S : Suite) where
  abbrev sealed_blob : Blob → Bytes × ℕ → BlobEncrypted
  sealed_blob blob (bytes, nonce) = record {
    hash = blob.hash;
    kind = blob.kind;
    bytes = bytes;
    nonce = nonce;
  }

  compress_encrypt_blob-Seals :
      (lawful : IsLawful S) (blob : Blob) (m : Manager) (out : Bytes × ℕ)
      → (compress_encrypt_blob S blob m).0 ≡ ok out
      → length blob.bytes ≤ blob_max_uncompressed_size
      → Seals S (sealed_blob blob out) blob
  unfolding compress_encrypt_blob
  compress_encrypt_blob-Seals lawful blob m (bytes, nonce) e fits =
      elim (Option-cases (S.compress blob.bytes)) [
        | inl p ↦ absurd (ground arith)
        | inr (packed, p) ↦ elim (Result-cases (getrandom m).0) [
          | inr (f, g) ↦ absurd (ground arith)
          | inl (n, g) ↦
              elim (Option-cases (S.encrypt (S.derive_backup_key (blob_key blob.hash)) n packed)) [
                | inl q ↦ absurd (ground arith)
                | inr (sealed, q) ↦ record {
                  packed = packed;
                  same_hash = refl;
                  same_kind = refl;
                  nonce_fits = ground (arith, getrandom-nonce m n g);
                  opens = ground (
                    arith,
                    lawful.decrypt-encrypt (S.derive_backup_key (blob_key blob.hash)) n packed
                        sealed q,
                  );
                  unpacks =
                      lawful.decompress-compress blob.bytes packed blob_max_uncompressed_size p
                        fits;
                }
              ]
        ]
      ]

  compress_encrypt_blob-same :
      (blob : Blob) (m : Manager)
      → ((compress_encrypt_blob S blob m).1.store ≡ m.store)
        × ((compress_encrypt_blob S blob m).1.blobs ≡ m.blobs)
  unfolding compress_encrypt_blob
  compress_encrypt_blob-same blob m = ground (arith, getrandom-same S m)

  module _ (lawful : IsLawful S) (content : BlobHash → Blob) (h : BlobHash) where
    abbrev pub IsKnown : Manager → Type 0
    IsKnown m = (is_blob_duplicate h m.store.index ≡ true) ⊎ (queued h m.blobs ≡ true)

    -- The queue holds sealed blobs, and what the index knows is on disk.
    pub record IsSound (m : Manager) : Type 0 where
      pub sealed : All (λ e. Seals S e (content e.hash)) m.blobs
      pub backed : IsBacked S content h m

    -- The manager with one more blob in its queue.
    abbrev with_blob : BlobEncrypted → Manager → Manager
    with_blob e m = record m { blobs = m.blobs ++ e ∷ []; dirty = true }

    with_blob-IsSound :
        (e : BlobEncrypted) (m : Manager)
        → Seals S e (content e.hash)
        → IsSound m
        → IsSound (with_blob e m)
    with_blob-IsSound e m s i = record {
      sealed = All-append (λ x. Seals S x (content x.hash)) m.blobs (e ∷ []) i.sealed (s, tt);
      backed = i.backed;
    }

    with_blob-IsKnown :
        (e : BlobEncrypted) (m : Manager) → (e.hash ≡ h) ⊎ IsKnown m → IsKnown (with_blob e m)
    with_blob-IsKnown e m (inl same) = inr (ground (arith, queued-append h m.blobs e))
    with_blob-IsKnown e m (inr (inl d)) = inl d
    with_blob-IsKnown e m (inr (inr q)) = inr (ground (arith, queued-append h m.blobs e))

    Turns-IsSound :
        (m m' : Manager) → Turns S content h lawful m m' → IsKnown m → IsSound m' × IsKnown m'
    Turns-IsSound m m' t k = (
      record { sealed = t.sealed; backed = t.backed },
      elim k [ inl d ↦ inl (t.known d) | inr q ↦ t.taken q ],
    )

    reported-IsSound :
        (m m' : Manager) (r : Option ℕ) (out : Option (Result Failure ℕ × Manager))
        → reported S out ≡ some (ok r, m')
        → ((n : ℕ) (k : Manager) → out ≡ some (ok n, k) → Turns S content h lawful m k)
        → IsKnown m
        → IsSound m' × IsKnown m'
    reported-IsSound m m' r none e t k = cc
    reported-IsSound m m' r (some (err f, n)) e t k = cc
    reported-IsSound m m' r (some (ok n, o)) e t k =
        let same : o ≡ m' = ground arith in
        Turns-IsSound m m' (subst (Turns S content h lawful m) same (t n o refl)) k

    -- `trigger_write_if_desired` keeps both, whether it writes or not.
    trigger-IsSound :
        (m m' : Manager) (r : Option ℕ)
        → trigger_write_if_desired S m ≡ some (ok r, m')
        → IsSound m
        → IsKnown m
        → IsSound m' × IsKnown m'
    unfolding trigger_write_if_desired write_packfiles
    trigger-IsSound m m' r e i k =
        let writes : reported S (write_packfiles S true m) ≡ some (ok r, m')
            → IsSound m' × IsKnown m' =
          λ w.
            reported-IsSound m m' r (write_packfiles S true m) w
              (λ n o u.
                (write_loop-Turns S lawful content h (suc (length m.blobs)) true false m o n u
                  i.sealed i.backed).0)
              k in
        let stays : m ≡ m' → IsSound m' × IsKnown m' =
          λ same. subst (λ o. IsSound o × IsKnown o) same (i, k) in
        ground (arith, writes, stays)

    enqueue-IsSound :
        (blob : Blob) (m m' : Manager) (out : Bytes × ℕ) (r : Option ℕ)
        → enqueue S blob (ok out, m) ≡ some (ok r, m')
        → Seals S (sealed_blob blob out) (content blob.hash)
        → IsSound m
        → (blob.hash ≡ h) ⊎ IsKnown m
        → IsSound m' × IsKnown m'
    unfolding enqueue
    enqueue-IsSound blob m m' (bytes, nonce) r e s i k =
        let sealed = sealed_blob blob (bytes, nonce) in
        trigger-IsSound (with_blob sealed m) m' r e (with_blob-IsSound sealed m s i)
          (with_blob-IsKnown sealed m k)

    enqueue-err :
        (blob : Blob) (out : Result Failure (Bytes × ℕ) × Manager) (f : Failure) (m' : Manager)
        (r : Option ℕ)
        → out.0 ≡ err f
        → enqueue S blob out ≢ some (ok r, m')
    unfolding enqueue
    enqueue-err blob (ok (bytes, nonce), m) f m' r x = cc
    enqueue-err blob (err g, m) f m' r x = λ e. cc

    compressed-IsSound :
        (blob : Blob) (m m' : Manager) (r : Option ℕ)
        → content blob.hash ≡ blob
        → length blob.bytes ≤ blob_max_uncompressed_size
        → enqueue S blob (compress_encrypt_blob S blob m) ≡ some (ok r, m')
        → IsSound m
        → (blob.hash ≡ h) ⊎ IsKnown m
        → IsSound m' × IsKnown m'
    compressed-IsSound blob m m' r c fits e i k =
        elim (Result-cases (compress_encrypt_blob S blob m).0) [
          | inr (f, x) ↦ absurd (enqueue-err blob (compress_encrypt_blob S blob m) f m' r x e)
          | inl (out, x) ↦
              let same = compress_encrypt_blob-same blob m in
              let n : Manager = (compress_encrypt_blob S blob m).1 in
              enqueue-IsSound blob n m' out r (rw x at e)
                (rw c (compress_encrypt_blob-Seals lawful blob m out x fits))
                (record { sealed = rw same.1 i.sealed; backed = rw same.0 i.backed })
                (rw (same.0, same.1) k)
        ]

    -- An `add_blob` that succeeds keeps the queue sealed and what is known on disk, forgets no blob,
    -- and knows the blob it was given from then on; for any two blobs of one hash being the same.
    pub add_blob-IsSound :
        (blob : Blob) (m m' : Manager) (r : Option ℕ)
        → content blob.hash ≡ blob
        → add_blob S blob m ≡ some (ok r, m')
        → IsSound m
        → (blob.hash ≡ h) ⊎ IsKnown m
        → IsSound m' × IsKnown m'
    unfolding add_blob
    add_blob-IsSound blob m m' r c e i k =
        let dup : is_blob_duplicate blob.hash m.store.index ≡ true
            → m ≡ m'
            → IsSound m' × IsKnown m' =
          λ d same.
            subst (λ o. IsSound o × IsKnown o) same
              (
                i,
                elim k [
                  | inl p ↦ inl (subst (λ j. is_blob_duplicate j m.store.index ≡ true) p d)
                  | inr q ↦ q
                ],
              ) in
        let new : length blob.bytes ≤ blob_max_uncompressed_size
            → enqueue S blob (compress_encrypt_blob S blob m) ≡ some (ok r, m')
            → IsSound m' × IsKnown m' =
          λ fits q. compressed-IsSound blob m m' r c fits q i k in
        ground (arith, dup, new)

  module _ (lawful : IsLawful S) (content : BlobHash → Blob) where
    -- A blob that `add_blob` accepted can be read back from a packfile on disk after the next `flush`
    -- that succeeds: for a handler whose queue is sealed and whose index knows only of blobs on disk,
    -- where any two blobs of one hash are the same.
    pub flush-add_blob :
        (blob : Blob) (m m' m'' : Manager) (r : Option ℕ)
        → content blob.hash ≡ blob
        → IsSound lawful content blob.hash m
        → add_blob S blob m ≡ some (ok r, m')
        → flush S m' ≡ some (ok tt, m'')
        → OnDisk S content blob.hash m''.store.disk.packs
    flush-add_blob blob m m' m'' r c i a f =
        let (sound, known) =
          add_blob-IsSound lawful content blob.hash blob m m' r c a i (inl refl) in
        flush-OnDisk S lawful content blob.hash m' m'' f sound.sealed sound.backed known
