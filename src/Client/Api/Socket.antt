-- ===== src/Client/Api/Socket.antt =====
-- client/src/net_server/mod.rs: `websocket_connect`, by which a client gets its WebSocket to the server. How
-- an upgrade turns out is the parameter `dial`.
pub mod Reconnects
mod Examples
use backuwup.Prelude.{ℕ, zero, suc, Option, none, some, Result, ok, err, Done}
use backuwup.Shared.{SessionToken, Reply}
use backuwup.Server.Connections.{Wire}
use backuwup.Server.Handlers.{Call}
use backuwup.Client.Config.{Failure}
use backuwup.Client.Tables.Settings.{load_auth_token, save_auth_token}
use backuwup.Client.Api.{Signer, Api, login, on_config}

-- What `connect_async` gives: the stream, the status UNAUTHORIZED, another status, or no answer.
pub data Upgrade : Type 0 where
  accepted unauthorized_status other_status no_answer : Upgrade

-- The stream, with the token that it was opened with; a panic; or a loop that still goes on.
pub data Connecting : Type 0 where
  opened : SessionToken → Connecting
  panicked : Connecting
  going_on : Connecting

module _ {W : Wire} {S : Type 0} (post : Call W → S → Result Failure Reply × S)
    (dial : SessionToken → S → Upgrade × S) (keys : Signer) where
  wiped : (Api S → Connecting × Api S) → Result Failure Done × Api S → Connecting × Api S
  wiped again (ok u, a) = again a
  wiped again (err e, a) = (panicked, a)

  dialed : (Api S → Connecting × Api S) → SessionToken → Api S → Upgrade × S → Connecting × Api S
  unfolding wiped
  dialed again token a (accepted, s) = (opened token, record a { server = s })
  dialed again token a (unauthorized_status, s) =
      wiped again (on_config post (save_auth_token none) (record a { server = s }))
  dialed again token a (other_status, s) = again (record a { server = s })
  dialed again token a (no_answer, s) = again (record a { server = s })

  loaded :
      (Api S → Connecting × Api S)
      → Result Failure (Option SessionToken) × Api S
      → Connecting × Api S
  unfolding dialed
  loaded again (ok (some token), a) = dialed again token a (dial token a.server)
  loaded again (ok none, a) = again (login post keys a).1
  loaded again (err e, a) = (panicked, a)

  -- The rounds of the loop; it sleeps between some of them.
  unfoldable pub websocket_connect : ℕ → Api S → Connecting × Api S
  unfolding loaded
  websocket_connect zero a = (going_on, a)
  websocket_connect (suc rounds) a =
      loaded (websocket_connect rounds) (on_config post load_auth_token a)
