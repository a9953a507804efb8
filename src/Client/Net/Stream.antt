-- ===== src/Client/Net/Stream.antt =====
-- The two ends of a connection: `handle_stream` of client/src/net_p2p/receive.rs, and `send_data` of
-- client/src/net_p2p/transport.rs.
use backuwup.Prelude.{
  ℕ, suc, Bool, true, false, List, [], ◌∷◌, ◌++◌, none, some, Result, ok, err, Exec, Done, ok_or,
  ◌>>=◌, ◌>>◌,
}
use backuwup.Shared.{ClientId, TransportSessionNonce}
use backuwup.Client.Bytes.{Bytes}
use backuwup.Client.Peers.{Failure, io, invalid_message}
use backuwup.Client.Net.Received.{FileInfo}
use backuwup.Client.Net.Transport.{Codec, validate_incoming_message, ack_msg, seal}

-- What `stream.next` gives: the end of the list of them is the end of the stream.
pub data Incoming : Type 0 where
  binary : Bytes → Incoming
  close other socket_error : Incoming

-- The counters, what the receiver has stored, the messages sent, and whether the coming sends fail.
pub record Receiving (T : Type 0) : Type 0 where
  pub data_msg_counter : ℕ
  pub ack_msg_counter : ℕ
  pub stored : T
  pub outgoing : List Bytes
  pub send_faults : List Bool

module _ {T : Type 0} where
  try_send : Bytes → List Bool → Receiving T → Result Failure Done × Receiving T
  try_send message [] s = (ok tt, record s { outgoing = s.outgoing ++ message ∷ [] })
  try_send message (true ∷ later) s = (err io, record s { send_faults = later })
  try_send message (false ∷ later) s =
      (ok tt, record s { outgoing = s.outgoing ++ message ∷ []; send_faults = later })

  unfoldable pub send : Bytes → Exec (Receiving T) Failure Done
  unfolding try_send
  send message s = try_send message s.send_faults s

  module _ (C : Codec) (save : FileInfo → Bytes → Exec T Failure Done) (me : ClientId)
      (nonce : TransportSessionNonce) (source : ClientId) where
    -- One binary message: it is checked, its file saved by the `Receiver`, and acknowledged.
    unfoldable pub receive_file : Bytes → Exec (Receiving T) Failure Done
    receive_file message = do
      (msg_num, info, file_bytes) ← λ s.
          let (r, n) = validate_incoming_message C nonce source message s.data_msg_counter in
          (r, record s { data_msg_counter = n })
      λ s. let (r, t) = save info file_bytes s.stored in (r, record s { stored = t })
      ack ← λ s.
          let (r, n) = ack_msg C me nonce msg_num s.ack_msg_counter in
          (r, record s { ack_msg_counter = n })
      send ack

    continue_stream :
        Exec (Receiving T) Failure Done
        → Result Failure Done × Receiving T
        → Result Failure Done × Receiving T
    continue_stream again (ok _, s) = again s
    continue_stream again (err e, s) = (err e, s)

    unfoldable pub handle_stream : List Incoming → Exec (Receiving T) Failure Done
    unfolding continue_stream
    handle_stream [] s = (ok tt, s)
    handle_stream (close ∷ more) s = (ok tt, s)
    handle_stream (other ∷ more) s = (err invalid_message, s)
    handle_stream (socket_error ∷ more) s = (err io, s)
    handle_stream (binary message ∷ more) s =
        continue_stream (handle_stream more) (receive_file message s)

-- How the socket and the acknowledgement of one file turn out.
pub data Delivery : Type 0 where
  acknowledged : Delivery
  send_timeout : Delivery
  ack_timeout : Delivery

pub record BackupTransportManager : Type 0 where
  pub msg_counter : ℕ
  pub session_nonce : TransportSessionNonce
  pub sent : List Bytes
  -- of the coming files; past its end, each is acknowledged
  pub deliveries : List Delivery

abbrev pub new_transport : TransportSessionNonce → List Delivery → BackupTransportManager
new_transport nonce deliveries = record {
  msg_counter = 1;
  session_nonce = nonce;
  sent = [];
  deliveries = deliveries;
}

-- The number goes up only behind the acknowledgement.
unfoldable pub deliver :
    Bytes → List Delivery → BackupTransportManager → Result Failure Done × BackupTransportManager
deliver message [] t =
    (ok tt, record t { sent = t.sent ++ message ∷ []; msg_counter = suc t.msg_counter })
deliver message (acknowledged ∷ later) t = (
  ok tt,
  record t { sent = t.sent ++ message ∷ []; msg_counter = suc t.msg_counter; deliveries = later },
)
deliver message (send_timeout ∷ later) t = (err io, record t { deliveries = later })
deliver message (ack_timeout ∷ later) t =
    (err io, record t { sent = t.sent ++ message ∷ []; deliveries = later })

module _ (C : Codec) (me : ClientId) where
  unfoldable pub file_message : TransportSessionNonce → ℕ → FileInfo → Bytes → Result Failure Bytes
  file_message nonce counter info file_bytes =
      elim (C.serialize_file (record {
        header = record { sequence_number = counter; session_nonce = nonce };
        file_info = info;
        file_bytes = file_bytes;
      })) [ none ↦ err invalid_message | some body ↦ ok_or (seal C me body) invalid_message ]

  unfoldable pub send_data : Bytes → FileInfo → Exec BackupTransportManager Failure Done
  unfolding deliver
  send_data file_bytes info = do
    message ← λ t. (file_message t.session_nonce t.msg_counter info file_bytes, t)
    λ t. deliver message t.deliveries t

  -- The files that a backup sends over one connection, up to the first that fails.
  unfoldable pub send_files : List (FileInfo × Bytes) → Exec BackupTransportManager Failure Done
  send_files [] t = (ok tt, t)
  send_files ((info, b) ∷ files) t = (do send_data b info; send_files files) t
