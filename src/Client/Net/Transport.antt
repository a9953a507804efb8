-- ===== src/Client/Net/Transport.antt =====
-- client/src/net_p2p/transport.rs, receive.rs and handle_connections.rs: signed messages that carry files,
-- their acknowledgements, and the numbers that protect them from replay. bincode and Ed25519 are the
-- parameter `Codec`.
use backuwup.Prelude.{
  ℕ, suc, Bool, false, Option, Result, ok, err, Exec, Done, ◌==◌, if◌then◌else◌, ok_or, and_then,
  ◌>>=◌,
}
use backuwup.Shared.{ClientId, TransportSessionNonce}
use backuwup.Client.Bytes.{Bytes}
use backuwup.Client.Peers.{Failure, invalid_message, panicked}
use backuwup.Client.Net.Received.{FileInfo}

-- shared/src/p2p_message.rs
pub record EncapsulatedMsg : Type 0 where
  pub body : Bytes
  pub signature : Bytes

pub record Header : Type 0 where
  pub sequence_number : ℕ
  pub session_nonce : TransportSessionNonce

pub data RequestType : Type 0 where
  transport restore_all : RequestType

pub record EncapsulateRequestBody : Type 0 where
  pub header : Header
  pub request : RequestType

pub record EncapsulatedFileBody : Type 0 where
  pub header : Header
  pub file_info : FileInfo
  pub file_bytes : Bytes

pub record AckBody : Type 0 where
  pub header : Header
  pub acknowledged_sequence_number : ℕ

pub record Codec : Type 0 where
  pub serialize_msg : EncapsulatedMsg → Option Bytes
  pub deserialize_msg : Bytes → Option EncapsulatedMsg
  pub serialize_request : EncapsulateRequestBody → Option Bytes
  pub deserialize_request : Bytes → Option EncapsulateRequestBody
  pub serialize_file : EncapsulatedFileBody → Option Bytes
  pub deserialize_file : Bytes → Option EncapsulatedFileBody
  pub serialize_ack : AckBody → Option Bytes
  pub deserialize_ack : Bytes → Option AckBody
  -- `KEYS.sign` of the client
  pub sign : ClientId → Bytes → Bytes
  -- the key and the signature can be read, and the signature is that of the body
  pub verify : ClientId → Bytes → Bytes → Bool

module _ (C : Codec) where
  abbrev decoded : {A : Type 0} → Option A → Result Failure A
  decoded o = ok_or o invalid_message

  -- The signature of a message, and its body.
  unfoldable pub validate_encapsulated_signature : ClientId → EncapsulatedMsg → Result Failure Done
  validate_encapsulated_signature source msg =
      if C.verify source msg.body msg.signature then ok tt else err invalid_message

  unfoldable pub header_matches : TransportSessionNonce → ℕ → Header → Bool
  header_matches nonce counter header =
      if header.session_nonce == nonce then header.sequence_number == counter else false

  -- The message's body, once its signature is checked.
  unfoldable pub open_message : ClientId → Bytes → Result Failure Bytes
  open_message source message =
      and_then (decoded (C.deserialize_msg message))
        λ msg. and_then (validate_encapsulated_signature source msg) λ _. ok msg.body

  accept_file :
      TransportSessionNonce
      → Result Failure EncapsulatedFileBody
      → Exec ℕ Failure (ℕ × FileInfo × Bytes)
  accept_file nonce (err e) counter = (err e, counter)
  accept_file nonce (ok body) counter =
      if header_matches nonce counter body.header
      then (ok (body.header.sequence_number, body.file_info, body.file_bytes), suc counter)
      else (err invalid_message, counter)

  -- The state is `msg_counter`.
  unfoldable pub validate_incoming_message :
      TransportSessionNonce → ClientId → Bytes → Exec ℕ Failure (ℕ × FileInfo × Bytes)
  unfolding accept_file
  validate_incoming_message nonce source message counter =
      accept_file nonce
        (and_then (open_message source message) λ body. decoded (C.deserialize_file body)) counter

  -- The first message of a connection; `stream.next` gave it.
  unfoldable pub receive_request :
      TransportSessionNonce → ClientId → Bytes → Result Failure RequestType
  receive_request nonce client message = and_then (open_message client message) λ body.
      and_then (decoded (C.deserialize_request body)) λ request.
        if header_matches nonce 0 request.header then ok request.request else err invalid_message

  accept_ack : TransportSessionNonce → Result Failure AckBody → Exec ℕ Failure ℕ
  accept_ack nonce (err e) received = (err e, received)
  accept_ack nonce (ok body) received =
      if header_matches nonce received body.header
      then (ok body.acknowledged_sequence_number, suc received)
      else (err invalid_message, received)

  -- The state is `messages_received`; a body that does not decode is a panic.
  unfoldable pub parse_incoming_ack : TransportSessionNonce → ClientId → Bytes → Exec ℕ Failure ℕ
  unfolding accept_ack
  parse_incoming_ack nonce sender message received =
      accept_ack nonce
        (and_then (open_message sender message) λ body. ok_or (C.deserialize_ack body) panicked)
        received

  abbrev pub seal : ClientId → Bytes → Option Bytes
  seal me body = C.serialize_msg (record { body = body; signature = C.sign me body })

  -- `ack_msg`; the state is `ack_msg_counter`.
  unfoldable pub ack_msg : ClientId → TransportSessionNonce → ℕ → Exec ℕ Failure Bytes
  ack_msg me nonce acknowledged = do
    body ← λ seq. (
      decoded (
          C.serialize_ack (record {
            header = record { sequence_number = seq; session_nonce = nonce };
            acknowledged_sequence_number = acknowledged;
          })),
      seq,
    )
    λ seq. (decoded (seal me body), suc seq)
