-- ===== src/Client/Packfile/Format.antt =====
-- The packfile format: what pack.rs writes, unpack.rs reads back.
use backuwup.Prelude.{
  ◌+◌, ◌^◌, ◌≤◌, ◌<◌, ◌≡◌, refl, ap, ◌∙◌, Bool, true, false, ◌||◌, List, [], ◌∷◌, ◌++◌, some, ok,
  length, ltb, ◌==◌, if◌then◌else◌, arith, All, All-append, length-append, drop-append_length,
  ==_iff, Bool-cases, inl, inr,
}
use mathlib.Core.List.{append_assoc, append-nil}
use backuwup.Shared.{BlobHash}
use backuwup.Client.Bytes.{
  Bytes, to_le_bytes, length-to_le_bytes, from_le_bytes-to_le_bytes, read_exact-append,
}
use backuwup.Client.Defaults.{blob_max_uncompressed_size, packfile_max_size, blob_nonce_size}
use backuwup.Client.Packfile.Types.{
  PackfileId, PackfileHeaderBlob, Blob, BlobEncrypted, Suite, IsLawful, header_key, blob_key, zstd,
}
use backuwup.Client.Packfile.Pack.{Batch, empty_batch, append_blob}
use backuwup.Client.Packfile.Unpack.{read_blob, find_in_header, open_header, read_packfile}

-- The queued blob opens to `blob`.
pub record Seals (S : Suite) (e : BlobEncrypted) (blob : Blob) : Type 0 where
  pub packed : Bytes
  pub same_hash : blob.hash ≡ e.hash
  pub same_kind : blob.kind ≡ e.kind
  pub nonce_fits : e.nonce < 256 ^ blob_nonce_size
  pub opens : S.decrypt (S.derive_backup_key (blob_key e.hash)) e.nonce e.bytes ≡ some packed
  pub unpacks : S.decompress packed blob_max_uncompressed_size ≡ some blob.bytes

-- Some header entry is that of the blob.
abbrev pub names : BlobHash → List PackfileHeaderBlob → Bool
names h [] = false
names h (md ∷ header) = if md.hash == h then true else names h header

module _ (S : Suite) (content : BlobHash → Blob) where
  -- Whatever follows the blob section, each header entry leads to its blob.
  abbrev pub Reads : Bytes → PackfileHeaderBlob → Type 0
  Reads bytes md = (after : Bytes) → read_blob S md (bytes ++ after) ≡ ok (content md.hash)

  pub record IsReadable (b : Batch) : Type 0 where
    pub counted : b.bytes_written ≡ length b.bytes
    pub reads : All (Reads b.bytes) b.header

  Reads-append :
      (bytes more : Bytes) (md : PackfileHeaderBlob) → Reads bytes md → Reads (bytes ++ more) md
  Reads-append bytes more md r after = rw (append_assoc bytes more after) (r (more ++ after))

  All-Reads-append :
      (bytes more : Bytes) (header : List PackfileHeaderBlob)
      → All (Reads bytes) header
      → All (Reads (bytes ++ more)) header
  All-Reads-append bytes more [] h = tt
  All-Reads-append bytes more (md ∷ header) h =
      (Reads-append bytes more md h.0, All-Reads-append bytes more header h.1)

  -- A header entry, its nonce and its data, after `n` bytes of other blobs.
  read_blob-sealed :
      (e : BlobEncrypted) (before after : Bytes)
      → Seals S e (content e.hash)
      → read_blob S
          (record {
            hash = e.hash;
            kind = e.kind;
            compression = zstd;
            offset = length before;
            length = length e.bytes;
          })
          (((before ++ to_le_bytes blob_nonce_size e.nonce) ++ e.bytes) ++ after)
        ≡ ok (content e.hash)
  unfolding read_blob
  read_blob-sealed e before after s =
      let nonce : Bytes = to_le_bytes blob_nonce_size e.nonce in
      rw
        (
          append_assoc (before ++ nonce) e.bytes after,
          append_assoc before nonce (e.bytes ++ after),
          drop-append_length (length before) before (nonce ++ (e.bytes ++ after)) refl,
          read_exact-append blob_nonce_size nonce (e.bytes ++ after)
              (length-to_le_bytes blob_nonce_size e.nonce),
          read_exact-append (length e.bytes) e.bytes after refl,
          from_le_bytes-to_le_bytes blob_nonce_size e.nonce s.nonce_fits,
          s.opens,
          s.unpacks,
        )
        (ground (arith, s.same_hash, s.same_kind))

  pub append_blob-IsReadable :
      (e : BlobEncrypted) (b : Batch)
      → Seals S e (content e.hash)
      → IsReadable b
      → IsReadable (append_blob e b)
  unfolding append_blob
  append_blob-IsReadable e b s r =
      let nonce : Bytes = to_le_bytes blob_nonce_size e.nonce in
      record {
        counted = omega (
          arith,
          r.counted,
          length-append (b.bytes ++ nonce) e.bytes,
          length-append b.bytes nonce,
          length-to_le_bytes blob_nonce_size e.nonce,
        );
        reads =
            All-append (Reads ((b.bytes ++ nonce) ++ e.bytes)) b.header _
              (All-Reads-append (b.bytes ++ nonce) e.bytes b.header
                (All-Reads-append b.bytes nonce b.header r.reads))
              (λ after. rw r.counted (read_blob-sealed e b.bytes after s), tt);
      }

  pub empty_batch-IsReadable : IsReadable empty_batch
  empty_batch-IsReadable = record { counted = refl; reads = tt }

  find_in_header-names :
      (h : BlobHash) (header : List PackfileHeaderBlob) (bytes : Bytes)
      → names h header ≡ true
      → All (Reads bytes) header
      → find_in_header S h header bytes ≡ ok (content h)
  unfolding find_in_header
  find_in_header-names h [] bytes n r = cc
  find_in_header-names h (md ∷ header) bytes n r = elim (Bool-cases (md.hash == h)) [
    | inl e ↦ rw e (rw append-nil at (r.0 []) ∙ ap (λ k. ok (content k)) ((==_iff md.hash h).0 e))
    | inr e ↦ rw e (find_in_header-names h header bytes (rw e at n) r.1)
  ]

  module _ (lawful : IsLawful S) where
    -- What `serialize_packfile` lays out, opened again at any of its blobs.
    pub read_packfile-layout :
        (b : Batch) (id : PackfileId) (plain sealed : Bytes) (h : BlobHash)
        → IsReadable b
        → names h b.header ≡ true
        → S.serialize_header b.header ≡ some plain
        → S.encrypt (S.derive_backup_key header_key) id plain ≡ some sealed
        → length (to_le_bytes 8 (length sealed) ++ (sealed ++ b.bytes)) ≤ packfile_max_size
        → read_packfile S id h (to_le_bytes 8 (length sealed) ++ (sealed ++ b.bytes))
          ≡ ok (content h)
    unfolding read_packfile open_header
    read_packfile-layout b id plain sealed h r n e1 e2 fits =
        let size : Bytes = to_le_bytes 8 (length sealed) in
        let file : Bytes = size ++ (sealed ++ b.bytes) in
        let at_least : length sealed + 8 ≤ length file = omega (
          arith,
          length-append size (sealed ++ b.bytes),
          length-append sealed b.bytes,
          length-to_le_bytes 8 (length sealed),
        ) in
        let small : ltb packfile_max_size (length file) ≡ false = ground arith in
        let sound : (ltb (length file) (length sealed) || length sealed == 0) ≡ false =
          ground (arith, lawful.length-encrypt (S.derive_backup_key header_key) id plain sealed) in
        rw
          (
            small,
            read_exact-append 8 size (sealed ++ b.bytes) (length-to_le_bytes 8 (length sealed)),
            from_le_bytes-to_le_bytes 8 (length sealed) (omega arith),
            sound,
            read_exact-append (length sealed) sealed b.bytes refl,
            lawful.decrypt-encrypt (S.derive_backup_key header_key) id plain sealed e2,
            lawful.deserialize-serialize_header b.header plain e1,
          )
          (find_in_header-names h b.header b.bytes n r.reads)
