-- ===== src/Client/Api/Socket/Reconnects.antt =====
-- A client whose session has ended gets its WebSocket again (client/src/net_server/mod.rs).
use backuwup.Prelude.{ℕ, suc, ◌≡◌, [], none, some, Result, ok, arith}
use backuwup.Shared.{SessionToken, Reply}
use backuwup.Server.Connections.{Wire}
use backuwup.Server.Handlers.{Call}
use backuwup.Client.Config.{Failure}
use backuwup.Client.Tables.Laws.{load_auth_token-works, wipe_auth_token-works, with_token}
use backuwup.Client.Api.{Signer, Api, login}
use backuwup.Client.Api.Socket.{Upgrade, accepted, unauthorized_status, opened, websocket_connect}

module _ {W : Wire} {S : Type 0} (post : Call W → S → Result Failure Reply × S)
    (dial : SessionToken → S → Upgrade × S) (keys : Signer) where
  -- A token that the server rejects does not keep a client away: with working databases and a server
  -- that lets it log in, three rounds suffice to wipe the token, to log in and to open the stream
  -- with the new token, and more rounds change nothing.
  pub websocket_connect-expired :
      (n : ℕ) (a c : Api S) (s t : S) (token fresh : SessionToken)
      → a.config.faults ≡ []
      → a.config.settings.auth_token ≡ some token
      → dial token a.server ≡ (unauthorized_status, s)
      → login post keys (record a { config = with_token none a.config; server = s }) ≡ (ok tt, c)
      → c.config.faults ≡ []
      → c.config.settings.auth_token ≡ some fresh
      → dial fresh c.server ≡ (accepted, t)
      → websocket_connect post dial keys (suc (suc (suc n))) a
        ≡ (opened fresh, record c { server = t })
  unfolding websocket_connect
  websocket_connect-expired n a c s t token fresh sound stored rejected logged_in steady kept
        taken =
      let first = load_auth_token-works a.config sound in
      let saved = wipe_auth_token-works a.config sound in
      let second = load_auth_token-works (with_token none a.config) sound in
      let third = load_auth_token-works c.config steady in
      ground (arith, first, saved, second, third)
