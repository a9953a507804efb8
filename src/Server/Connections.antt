-- ===== src/Server/Connections.antt =====
-- server/src/ws.rs: the map of live WebSocket connections. The socket's sending half and the JSON
-- serializer are the parameter `Wire`.
use backuwup.Prelude.{Bool, true, false, Option, none, some, [], Result, ok, err, Exec, Done}
use backuwup.Prelude.Dict.{Dict, lookup, insert, erase}
use backuwup.Shared.{ClientId, ServerMessageWs}
use backuwup.Server.Error.{Error}

pub record Wire : Type 1 where
  -- `SplitSink<WebSocketStream, Message>`
  pub Sink : Type 0
  pub Json : Type 0
  -- `serde_json::to_string`; `none` is a serialization error
  pub to_string : ServerMessageWs → Option Json
  -- whether the send succeeded, and the sink after it
  pub send : Sink → Json → Bool × Sink

pub record ClientConnections (W : Wire) : Type 0 where
  pub connections : Dict W.Sink

module _ (W : Wire) where
  pub new : ClientConnections W
  new = record { connections = [] }

  pub new_connection : ClientId → W.Sink → ClientConnections W → ClientConnections W
  new_connection client_id connection c = record {
    connections = insert client_id connection c.connections;
  }

  pub remove_connection : ClientId → ClientConnections W → ClientConnections W
  remove_connection client_id c = record { connections = erase client_id c.connections }

  sent_result : Bool → Result Error Done
  sent_result true = ok tt
  sent_result false = err Error.io

  -- `get_mut` hands out the entry itself, so the sink after the send is the one in the map.
  send_to : ClientId → W.Sink → Option W.Json → Exec (ClientConnections W) Error Done
  unfolding sent_result
  send_to client_id connection none c = (err Error.serialization, c)
  send_to client_id connection (some text) c =
      let (sent, connection') = W.send connection text in
      (sent_result sent, record { connections = insert client_id connection' c.connections })

  find_and_send : ClientId → ServerMessageWs → Option W.Sink → Exec (ClientConnections W) Error Done
  find_and_send client_id message none c = (err (Error.client_not_connected client_id), c)
  find_and_send client_id message (some connection) c =
      send_to client_id connection (W.to_string message) c

  unfoldable pub notify_client : ClientId → ServerMessageWs → Exec (ClientConnections W) Error Done
  unfolding find_and_send send_to
  notify_client client_id message c =
      find_and_send client_id message (lookup client_id c.connections) c
