-- ===== src/Client/Identity/Examples.antt =====
-- Both setups of a client, at a server that answers every call alike.
use backuwup.Prelude.{refl, [], ◌∷◌, ◌++◌, true, none, some, List, Result, ok}
use backuwup.Shared.{
  ServerMessageWs, client_registration_challenge, client_login_challenge, client_login_token, done,
  Reply, message,
}
use backuwup.Server.Connections.{Wire}
use backuwup.Server.Handlers.{Call}
use backuwup.Client.Config.{Failure, no_settings}
use backuwup.Client.Identity.{KeyManager, Process, existing_secret_setup, new_secret_setup}
use backuwup.Client.Identity.Greetings.{LogsIn, Registers}
use backuwup.Client.Identity.Setup.{SetsUp, existing_secret_setup-SetsUp, new_secret_setup-SetsUp}

abbrev socket : Wire
socket = record {
  Sink = List ServerMessageWs;
  Json = ServerMessageWs;
  to_string = λ m. some m;
  send = λ s m. (true, s ++ m ∷ []);
}

-- The coming replies.
abbrev Replies : Type 0
Replies = List Reply

abbrev post : Call socket → Replies → Result Failure Reply × Replies
post call [] = (ok (message (client_login_challenge 9)), [])
post call (r ∷ rs) = (ok r, rs)

abbrev manager : KeyManager
manager = record { root_secret = 41; signer = record { pubkey = 5; sign = λ n. n ∷ [] } }

abbrev process : Replies → Process Replies
process replies = record {
  api = record {
    config = record { peers = []; settings = no_settings; log = []; now = 9; faults = [] };
    server = replies;
  };
  keys = none;
}

abbrev known : Replies
known = message (client_login_challenge 9) ∷ message (client_login_token 77) ∷ []

existing_secret_setup-SetsUp_example :
    SetsUp
      (LogsIn post)
      (some manager)
      (some 4)
      (process known)
      (existing_secret_setup post (some manager) (some 4) (process known))
existing_secret_setup-SetsUp_example =
    existing_secret_setup-SetsUp post (some manager) (some 4) (process known) refl

abbrev unknown : Replies
unknown = message (client_registration_challenge 9) ∷ message done ∷ []

new_secret_setup-SetsUp_example :
    SetsUp
      (Registers post)
      (some manager)
      (some 4)
      (process unknown)
      (new_secret_setup post (some manager) (some 4) (process unknown))
new_secret_setup-SetsUp_example =
    new_secret_setup-SetsUp post (some manager) (some 4) (process unknown) refl
