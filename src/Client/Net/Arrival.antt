-- ===== src/Client/Net/Arrival.antt =====
-- Both ends together (client/src/net_p2p/transport.rs and receive.rs): files arrive as they were sent.
use backuwup.Prelude.{
  ℕ, suc, ◌≡◌, refl, sym, ap, ◌∙◌, true, false, List, [], ◌∷◌, ◌++◌, some, ok, Exec, Done, arith,
  map, pure, ◌>>◌, inl, inr, Option-cases, Result-cases,
}
use mathlib.Core.List.{append_assoc, append-nil}
use backuwup.Shared.{ClientId, TransportSessionNonce}
use backuwup.Client.Bytes.{Bytes}
use backuwup.Client.Peers.{Failure}
use backuwup.Client.Net.Received.{FileInfo}
use backuwup.Client.Net.Transport.{
  Codec, EncapsulatedMsg, EncapsulatedFileBody, open_message, header_matches,
  validate_encapsulated_signature, validate_incoming_message, ack_msg, seal,
}
use backuwup.Client.Net.Stream.{
  binary, Receiving, send, receive_file, handle_stream, file_message, Delivery,
  BackupTransportManager, new_transport, deliver, acknowledged, send_timeout, ack_timeout,
  send_data, send_files,
}

-- bincode decodes what it encoded, and a signature is accepted by the key it was made with.
pub record IsLawful (C : Codec) : Type 0 where
  pub deserialize-serialize_msg :
      (m : EncapsulatedMsg) (b : Bytes) → C.serialize_msg m ≡ some b → C.deserialize_msg b ≡ some m
  pub deserialize-serialize_file :
      (f : EncapsulatedFileBody) (b : Bytes)
      → C.serialize_file f ≡ some b
      → C.deserialize_file b ≡ some f
  pub verify-sign : (c : ClientId) (b : Bytes) → C.verify c b (C.sign c b) ≡ true

module _ (C : Codec) (lawful : IsLawful C) (nonce : TransportSessionNonce) (source : ClientId) where
  validate_incoming_message-file_message :
      (count : ℕ) (info : FileInfo) (b message : Bytes)
      → file_message C source nonce count info b ≡ ok message
      → validate_incoming_message C nonce source message count ≡ (ok (count, info, b), suc count)
  unfolding file_message validate_incoming_message header_matches open_message
      validate_encapsulated_signature
  validate_incoming_message-file_message count info b message e =
      let file : EncapsulatedFileBody = record {
        header = record { sequence_number = count; session_nonce = nonce };
        file_info = info;
        file_bytes = b;
      } in
      elim (Option-cases (C.serialize_file file)) [
        | inl p ↦ absurd (ground arith)
        | inr (body, p) ↦ elim (Option-cases (seal C source body)) [
          | inl q ↦ absurd (ground arith)
          | inr (sealed, q) ↦
              let msg : EncapsulatedMsg = record { body = body; signature = C.sign source body } in
              let same : sealed ≡ message = ground arith in
              ground (
                arith,
                same,
                lawful.deserialize-serialize_msg msg sealed q,
                lawful.deserialize-serialize_file file body p,
                lawful.verify-sign source body,
              )
        ]
      ]

  -- The messages of the files, numbered from `count` on.
  abbrev IsSent : ℕ → List (FileInfo × Bytes) → List Bytes → Type 0
  IsSent count [] [] = Unit
  IsSent count [] (m ∷ ms) = ⊥
  IsSent count (f ∷ fs) [] = ⊥
  IsSent count ((info, b) ∷ fs) (m ∷ ms) =
      (file_message C source nonce count info b ≡ ok m) × IsSent (suc count) fs ms

  deliver-sent :
      (m : Bytes) (ds : List Delivery) (t t' : BackupTransportManager)
      → deliver m ds t ≡ (ok tt, t')
      → (t'.sent ≡ t.sent ++ m ∷ [])
        × (t'.msg_counter ≡ suc t.msg_counter)
        × (t'.session_nonce ≡ t.session_nonce)
  unfolding deliver
  deliver-sent m [] t t' e = ground arith
  deliver-sent m (acknowledged ∷ ds) t t' e = ground arith
  deliver-sent m (send_timeout ∷ ds) t t' e = absurd (ground arith)
  deliver-sent m (ack_timeout ∷ ds) t t' e = absurd (ground arith)

  send_data-sent :
      (info : FileInfo) (b : Bytes) (t t' : BackupTransportManager)
      → t.session_nonce ≡ nonce
      → send_data C source b info t ≡ (ok tt, t')
      → (m : Bytes) × (file_message C source nonce t.msg_counter info b ≡ ok m)
        × (t'.sent ≡ t.sent ++ m ∷ [])
        × (t'.msg_counter ≡ suc t.msg_counter)
        × (t'.session_nonce ≡ nonce)
  unfolding send_data
  send_data-sent info b t t' n e =
      elim (Result-cases (file_message C source t.session_nonce t.msg_counter info b)) [
        | inr (f, p) ↦ absurd (ground arith)
        | inl (m, p) ↦
            let (sent, count, same) = deliver-sent m t.deliveries t t' (ground arith) in
            (m, rw n at p, sent, count, same ∙ n)
      ]

  send_files-sent :
      (files : List (FileInfo × Bytes)) (t t' : BackupTransportManager)
      → t.session_nonce ≡ nonce
      → send_files C source files t ≡ (ok tt, t')
      → (ms : List Bytes) × (t'.sent ≡ t.sent ++ ms) × IsSent t.msg_counter files ms
  unfolding send_files
  send_files-sent [] t t' n e =
      let same : t ≡ t' = ground arith in
      ([], ap (λ k. k.sent) (sym same) ∙ sym (append-nil t.sent), tt)
  send_files-sent ((info, b) ∷ fs) t t' n e = elim (Result-cases (send_data C source b info t).0) [
    | inr (f, p) ↦ absurd (ground arith)
    | inl (u, p) ↦
        let t1 : BackupTransportManager = (send_data C source b info t).1 in
        let (m, made, sent, count, same) = send_data-sent info b t t1 n (ground arith) in
        let (ms, more, rest) = send_files-sent fs t1 t' same (ground arith) in
        (
          m ∷ ms,
          more ∙ (ap (λ k. k ++ ms) sent ∙ append_assoc t.sent (m ∷ []) ms),
          (made, rw count at rest),
        )
  ]

  module _ {T : Type 0} (save : FileInfo → Bytes → Exec T Failure Done) (me : ClientId) where
    send-same :
        (m : Bytes) (s : Receiving T)
        → ((send m s).1.stored ≡ s.stored) × ((send m s).1.data_msg_counter ≡ s.data_msg_counter)
    unfolding send
    send-same m s = go s.send_faults
      where
        go :
            (fs : List _)
            → ((send m (record s { send_faults = fs })).1.stored ≡ s.stored)
              × ((send m (record s { send_faults = fs })).1.data_msg_counter ≡ s.data_msg_counter)
        go [] = (refl, refl)
        go (true ∷ fs) = (refl, refl)
        go (false ∷ fs) = (refl, refl)

    receive_file-sent :
        (info : FileInfo) (b m : Bytes) (s s' : Receiving T)
        → file_message C source nonce s.data_msg_counter info b ≡ ok m
        → receive_file C save me nonce source m s ≡ (ok tt, s')
        → (save info b s.stored ≡ (ok tt, s'.stored))
          × (s'.data_msg_counter ≡ suc s.data_msg_counter)
    unfolding receive_file
    receive_file-sent info b m s s' e r =
        let v = validate_incoming_message-file_message s.data_msg_counter info b m e in
        let counted : Receiving T = record s { data_msg_counter = suc s.data_msg_counter } in
        let stored : Receiving T = record counted { stored = (save info b s.stored).1 } in
        let acked = ack_msg C me nonce s.data_msg_counter s.ack_msg_counter in
        elim (Result-cases (save info b s.stored).0) [
          | inr (f, p) ↦ absurd (ground (arith, v))
          | inl (u, p) ↦ elim (Result-cases acked.0) [
            | inr (f, q) ↦ absurd (ground (arith, v))
            | inl (a, q) ↦
                let same = send-same a (record stored { ack_msg_counter = acked.1 }) in
                (ground (arith, v, same), ground (arith, v, same))
          ]
        ]

    -- The files saved one after the other.
    abbrev pub saves : List (FileInfo × Bytes) → Exec T Failure Done
    saves [] = pure tt
    saves ((info, b) ∷ files) = do save info b; saves files

    handle_stream-sent :
        (files : List (FileInfo × Bytes)) (ms : List Bytes) (s s' : Receiving T)
        → IsSent s.data_msg_counter files ms
        → handle_stream C save me nonce source (map binary ms) s ≡ (ok tt, s')
        → saves files s.stored ≡ (ok tt, s'.stored)
    unfolding handle_stream
    handle_stream-sent [] [] s s' i e = ground arith
    handle_stream-sent [] (m ∷ ms) s s' i e = absurd i
    handle_stream-sent (f ∷ fs) [] s s' i e = absurd i
    handle_stream-sent ((info, b) ∷ fs) (m ∷ ms) s s' i e =
        elim (Result-cases (receive_file C save me nonce source m s).0) [
          | inr (f, p) ↦ absurd (ground arith)
          | inl (u, p) ↦
              let s1 : Receiving T = (receive_file C save me nonce source m s).1 in
              let (one, count) = receive_file-sent info b m s s1 i.0 (ground arith) in
              let rest = handle_stream-sent fs ms s1 s' (rw count i.1) (ground arith) in rw one rest
        ]

    -- If every file of a list was sent over a new connection, and the receiving end handles the
    -- messages that were sent without an error, then it has saved those files and no others, unchanged
    -- and in their order. The receiving end expects the sender's key and nonce.
    pub handle_stream-send_files :
        (files : List (FileInfo × Bytes)) (ds : List Delivery) (t' : BackupTransportManager)
        (s s' : Receiving T)
        → send_files C source files (new_transport nonce ds) ≡ (ok tt, t')
        → s.data_msg_counter ≡ 1
        → handle_stream C save me nonce source (map binary t'.sent) s ≡ (ok tt, s')
        → saves files s.stored ≡ (ok tt, s'.stored)
    handle_stream-send_files files ds t' s s' e c h =
        let (ms, sent, numbered) = send_files-sent files (new_transport nonce ds) t' refl e in
        handle_stream-sent files ms s s' (rw c numbered) (rw sent at h)
