-- ===== src/Client/Net/Connections.antt =====
-- client/src/net_p2p/handle_connections.rs: a connection is made between two clients. The sockets are
-- given by how their operations turn out; the stream is handed on to the function for its purpose.
pub mod Handshake
mod Examples
use backuwup.Prelude.{
  ℕ, zero, suc, Bool, true, false, List, [], ◌∷◌, ◌++◌, Option, none, some, Result, ok, err, Exec,
  Done, ok_or, and_then, lift, pure, ◌>>=◌, ◌>>◌,
}
use backuwup.Shared.{ClientId, TransportSessionNonce, IncomingP2PConnection}
use backuwup.DelayMap.{DelayMap}
use backuwup.Client.Bytes.{Bytes}
use backuwup.Client.Config.{Failure, io, invalid_message, Config}
use backuwup.Client.Peers.{PeerInfo, get_peer_info}
use backuwup.Client.Net.Transport.{
  Codec, RequestType, EncapsulateRequestBody, receive_request, seal,
}
use backuwup.Client.Net.Stream.{Incoming, binary, close, other, socket_error}
use backuwup.Client.Net.Requests.{P2PConnectionRequest, P2PConnectionManager, finalize_request}

-- The client who waits for a connection: its tables, the peers whose requests it has confirmed at the
-- server, how the local address and the listening socket, the confirmation, and the connection with its
-- upgrade turn out, and what the stream gives first.
pub record Listening : Type 0 where
  pub config : Config
  pub confirmed : List ClientId
  pub listen : Result Failure Done
  pub confirm : Result Failure Done
  pub accept : Result Failure Done
  pub first : Option Incoming

-- The match on `stream.next` in `receive_request`.
unfoldable pub first_message : Option Incoming → Result Failure Bytes
first_message none = err io
first_message (some (binary message)) = ok message
first_message (some close) = err invalid_message
first_message (some other) = err invalid_message
first_message (some socket_error) = err io

p2p_connection_confirm : ClientId → Result Failure Done → Exec Listening Failure Done
p2p_connection_confirm source (ok u) l =
    (ok tt, record l { confirmed = l.confirmed ++ source ∷ [] })
p2p_connection_confirm source (err e) l = (err e, l)

abbrev on_config : {A : Type 0} → Exec Config Failure A → Exec Listening Failure A
on_config op l = let (x, c) = op l.config in (x, record l { config = c })

module _ (C : Codec) where
  listen_for : IncomingP2PConnection → Option PeerInfo → Exec Listening Failure (Option RequestType)
  unfolding p2p_connection_confirm
  listen_for req none = pure none
  listen_for req (some peer) = do
    λ l. (l.listen, l)
    λ l. p2p_connection_confirm req.source_client_id l.confirm l
    λ l. (l.accept, l)
    message ← λ l. (first_message l.first, l)
    purpose ← lift (receive_request C req.session_nonce req.source_client_id message)
    pure (some purpose)

  -- The purpose for which the stream is handed on; `none` when the peer is unknown.
  unfoldable pub accept_and_listen :
      IncomingP2PConnection → Exec Listening Failure (Option RequestType)
  unfolding listen_for
  accept_and_listen req = do
    peer ← on_config (get_peer_info req.source_client_id)
    listen_for req peer

-- How the coming attempts to connect turn out; past the end of a list of them, they work.
pub data Attempt : Type 0 where
  connects io_error other_error : Attempt

-- The state of the loop is the number of attempts that are left behind this one.
unfoldable pub sock_conn_loop : ℕ → List Attempt → Result Failure Done
sock_conn_loop attempts [] = ok tt
sock_conn_loop attempts (connects ∷ later) = ok tt
sock_conn_loop zero (io_error ∷ later) = err io
sock_conn_loop (suc attempts) (io_error ∷ later) = sock_conn_loop attempts later
sock_conn_loop attempts (other_error ∷ later) = err io

unfoldable pub sock_conn : List Attempt → Result Failure Done
unfolding sock_conn_loop
sock_conn tries = sock_conn_loop 3 tries

-- The client who connects: its open requests, and the messages that it has sent.
pub record Dialing (D : DelayMap P2PConnectionRequest) : Type 0 where
  pub manager : P2PConnectionManager D
  pub attempts : List Attempt
  pub sending : Result Failure Done
  pub sent : List Bytes

module _ (C : Codec) (me : ClientId) where
  unfoldable pub request_message : P2PConnectionRequest → Result Failure Bytes
  request_message request =
      and_then
        (ok_or
          (C.serialize_request (record {
            header = record { sequence_number = 0; session_nonce = request.session_nonce };
            request = request.purpose;
          }))
          invalid_message)
        λ body. ok_or (seal C me body) invalid_message

  module _ {D : DelayMap P2PConnectionRequest} where
    send_message : Bytes → Result Failure Done → Exec (Dialing D) Failure Done
    send_message message (ok u) d = (ok tt, record d { sent = d.sent ++ message ∷ [] })
    send_message message (err e) d = (err e, d)

    abbrev on_manager :
        {A : Type 0} → Exec (P2PConnectionManager D) Failure A → Exec (Dialing D) Failure A
    on_manager op d = let (x, m) = op d.manager in (x, record d { manager = m })

    -- The request whose purpose and nonce the stream is handed on with.
    unfoldable pub accept_and_connect : ClientId → Exec (Dialing D) Failure P2PConnectionRequest
    unfolding send_message
    accept_and_connect destination = do
      λ d. (sock_conn d.attempts, d)
      request ← on_manager (finalize_request destination)
      message ← lift (request_message request)
      λ d. send_message message d.sending d
      pure request
