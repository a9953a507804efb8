-- ===== src/Client/Net/Quota.antt =====
-- The quota of a peer (client/src/net_p2p/received_files_writer.rs with client/src/config/peers.rs).
use backuwup.Prelude.{
  ℕ, ◌+◌, ◌≤◌, ◌<◌, ◌≡◌, refl, sym, ◌≢◌, ◌⊎◌, inl, inr, true, false, List, [], ◌∷◌, Option, none,
  some, Result, ok, length, arith, Result-cases, Bool-cases, subst, Done,
}
use backuwup.Prelude.Dict.{Dict, lookup, lookup-insert}
use backuwup.Shared.{ClientId}
use backuwup.Client.Bytes.{Bytes}
use backuwup.Client.Defaults.{peer_storage_usage_spread}
use backuwup.Client.Peers.{
  Failure, PeerInfo, Config, call, transaction, get_peer_row, get_peer_info, update_peer,
  peer_add_received, peer_increment_received,
}
use backuwup.Client.Net.Obfuscation.{obfuscate_data_impl}
use backuwup.Client.Net.Received.{
  FileInfo, Write, works, fails, Storage, PeerDataReceiver, exists, is_peer_allowed_to_send_data,
  write, save_file,
}

call-same : (c : Config) → ((call c).1.peers ≡ c.peers) × ((call c).1.now ≡ c.now)
unfolding call
call-same c = go c.faults
  where
    go :
        (fs : List _)
        → ((call (record c { faults = fs })).1.peers ≡ c.peers)
          × ((call (record c { faults = fs })).1.now ≡ c.now)
    go [] = (refl, refl)
    go (true ∷ fs) = (refl, refl)
    go (false ∷ fs) = (refl, refl)

-- Reading a peer changes no row, and what it finds is the row.
get_peer_info-row :
    (p : ClientId) (c : Config)
    → ((get_peer_info p c).1.peers ≡ c.peers)
      × ((o : Option PeerInfo) → (get_peer_info p c).0 ≡ ok o → o ≡ lookup p c.peers)
unfolding get_peer_info transaction get_peer_row
get_peer_info-row p c =
    let a = call-same c in
    let b = call-same (call c).1 in
    let d = call-same (call (call c).1).1 in
    (ground (arith, a, b, d), λ o e. ground (arith, a, b, d))

abbrev pub received_more : ℕ → ℕ → PeerInfo → PeerInfo
received_more n t r = record r { bytes_received = r.bytes_received + n; last_seen = t }

-- The count of received bytes goes up by the amount, or the table stays as it was.
peer_increment_received-rows :
    (p : ClientId) (n : ℕ) (c : Config)
    → (((peer_increment_received p n c).0 ≡ ok tt)
        × (t : ℕ) × ((peer_increment_received p n c).1.peers
            ≡ update_peer p (received_more n t) c.peers))
      ⊎ (((peer_increment_received p n c).0 ≢ ok tt)
          × ((peer_increment_received p n c).1.peers ≡ c.peers))
unfolding peer_increment_received transaction peer_add_received
peer_increment_received-rows p n c =
    let c1 : Config = (call c).1 in
    let c2 : Config = (call c1).1 in
    let c3 : Config = record c2 { peers = update_peer p (received_more n c2.now) c2.peers } in
    elim (Result-cases (call c).0) [
      | inr (f, e) ↦ inr (λ x. ground arith, ground (arith, call-same c))
      | inl (u, e) ↦ elim (Result-cases (call c1).0) [
        | inr (f, g) ↦ inr (λ x. ground arith, ground (arith, call-same c, call-same c1))
        | inl (v, g) ↦ elim (Result-cases (call c3).0) [
          | inr (f, k) ↦
              inr (λ x. ground arith, ground (arith, call-same c, call-same c1, call-same c3))
          | inl (w, k) ↦
              inl (ground arith, c2.now, ground (arith, call-same c, call-same c1, call-same c3))
        ]
      ]
    ]

-- A write adds a file in front, whole when it succeeds.
write-files :
    (p : ClientId) (i : FileInfo) (b : Bytes) (s : Storage)
    → ((write p i b s).1.config ≡ s.config)
      × ((write p i b s).0 ≡ ok tt
          → (write p i b s).1.files ≡ record { owner = p; info = i; bytes = b } ∷ s.files)
unfolding write
write-files p i b s = go s.writes
  where
    go :
        (ws : List Write)
        → ((write p i b (record s { writes = ws })).1.config ≡ s.config)
          × ((write p i b (record s { writes = ws })).0 ≡ ok tt
              → (write p i b (record s { writes = ws })).1.files
                ≡ record { owner = p; info = i; bytes = b } ∷ s.files)
    go [] = (refl, λ e. refl)
    go (works ∷ later) = (refl, λ e. refl)
    go (fails n ∷ later) = (refl, λ e. cc)

-- The outcome of a save: it fails and counts nothing, or the file is there and counted.
pub data Saves (r : PeerDataReceiver) (info : FileInfo) (b : Bytes) (s : Storage)
    (out : Result Failure Done × Storage) : Type 0 where
  not_saved : out.0 ≢ ok tt → out.1.config.peers ≡ s.config.peers → Saves r info b s out
  saved :
      (row : PeerInfo) (t : ℕ)
      → out.0 ≡ ok tt
      → exists r.peer_id info s.files ≡ false
      → lookup r.peer_id s.config.peers ≡ some row
      → is_peer_allowed_to_send_data row ≡ true
      → out.1.config.peers ≡ update_peer r.peer_id (received_more (length b) t) s.config.peers
      → out.1.files
        ≡ record { owner = r.peer_id; info = info; bytes = obfuscate_data_impl b r.obfuscation_key }
          ∷ s.files
      → Saves r info b s out

module _ (r : PeerDataReceiver) (info : FileInfo) (b : Bytes) (s : Storage) where
  abbrev found : Storage
  found = record s { config = (get_peer_info r.peer_id s.config).1 }

  abbrev written : Result Failure Done × Storage
  written = write r.peer_id info (obfuscate_data_impl b r.obfuscation_key) found

  save_file-written :
      (row : PeerInfo)
      → exists r.peer_id info s.files ≡ false
      → (get_peer_info r.peer_id s.config).0 ≡ ok (some row)
      → is_peer_allowed_to_send_data row ≡ true
      → written.0 ≡ ok tt
      → Saves r info b s (save_file r info b s)
  unfolding save_file
  save_file-written row e g a w =
      let (rows, reads) = get_peer_info-row r.peer_id s.config in
      let (config, files) =
        write-files r.peer_id info (obfuscate_data_impl b r.obfuscation_key) found in
      elim (peer_increment_received-rows r.peer_id (length b) written.1.config) [
        | inl (i, t, p) ↦
            saved row t (ground arith) e (sym (reads (some row) g)) a (ground arith) (ground arith)
        | inr (i, p) ↦ not_saved (λ x. ground arith) (ground arith)
      ]

  -- Whatever happens, `save_file` either fails and counts nothing; or the peer was known and within
  -- its quota, no file of the name was there, and now the obfuscated file is, and its bytes count.
  pub save_file-Saves : Saves r info b s (save_file r info b s)
  unfolding save_file
  save_file-Saves =
      let (rows, reads) = get_peer_info-row r.peer_id s.config in
      elim (Bool-cases (exists r.peer_id info s.files)) [
        | inl e ↦ not_saved (λ x. ground arith) (ground arith)
        | inr e ↦ elim (Result-cases (get_peer_info r.peer_id s.config).0) [
          | inr (f, g) ↦ not_saved (λ x. ground arith) (ground arith)
          | inl (none, g) ↦ not_saved (λ x. ground arith) (ground arith)
          | inl (some row, g) ↦ elim (Bool-cases (is_peer_allowed_to_send_data row)) [
            | inr a ↦ not_saved (λ x. ground arith) (ground arith)
            | inl a ↦ elim (Result-cases written.0) [
              | inl (tt, w) ↦ save_file-written row e g a w
              | inr (f, w) ↦
                  not_saved (λ x. ground arith)
                    (ground (
                      arith,
                      write-files r.peer_id info (obfuscate_data_impl b r.obfuscation_key) found,
                    ))
            ]
          ]
        ]
      ]

module _ (limit : ℕ) where
  -- What is counted as received from every peer stays below what was negotiated, the spread and one more file.
  abbrev pub IsWithin : Dict PeerInfo → Type 0
  IsWithin peers =
      (p : ClientId) (row : PeerInfo)
      → lookup p peers ≡ some row
      → row.bytes_received < row.bytes_negotiated + peer_storage_usage_spread + limit

  update-IsWithin :
      (p : ClientId) (row : PeerInfo) (n t : ℕ) (peers : Dict PeerInfo)
      → lookup p peers ≡ some row
      → is_peer_allowed_to_send_data row ≡ true
      → n ≤ limit
      → IsWithin peers
      → IsWithin (update_peer p (received_more n t) peers)
  unfolding update_peer is_peer_allowed_to_send_data
  update-IsWithin p row n t peers e a l w q other f =
      ground (arith, lookup-insert p q (received_more n t row) peers, w q other)

  -- Whatever `save_file` answers, and whichever peer sends, the bytes that the table counts as received
  -- from each peer stay less than what was negotiated, the spread of 16 MiB and `limit` together, if
  -- they were before and the file is not larger than `limit`.
  pub save_file-IsWithin :
      (r : PeerDataReceiver) (info : FileInfo) (data_given : Bytes) (s : Storage)
      → length data_given ≤ limit
      → IsWithin s.config.peers
      → IsWithin (save_file r info data_given s).1.config.peers
  save_file-IsWithin r info data_given s l w = elim (save_file-Saves r info data_given s) [
    | not_saved _ same ↦ subst IsWithin (sym same) w
    | saved row t _ _ known allowed same _ ↦
        subst IsWithin (sym same)
          (update-IsWithin r.peer_id row (length data_given) t s.config.peers known allowed l w)
  ]
