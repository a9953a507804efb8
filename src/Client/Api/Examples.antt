-- ===== src/Client/Api/Examples.antt =====
-- The theorems about the server's endpoints, as a client calls them, at a server with one client.
use backuwup.Prelude.{
  ℕ, zero, suc, ◌+◌, ◌≡◌, ◌≢◌, refl, true, none, some, List, [], ◌∷◌, ◌++◌, ok, err, inr, ◌==◌,
  get_elem?,
}
use backuwup.Prelude.Dict.{Dict, lookup, insert, erase, lookup-insert, lookup-erase}
use backuwup.Shared.{ServerMessageWs, ChallengeResponse}
use backuwup.DelayMap.{DelayMap, IsDelayMap}
use backuwup.Server.SumQueue.{SumQueue}
use backuwup.Server.Connections.{Wire}
use backuwup.Server.Database.{
  client_exists, client_update_logged_in, save_snapshot, execute, is_client, logged_in,
}
use backuwup.Server.Auth.{
  Crypto, check_signature, challenge_begin, challenge_verify, session_start, get_session,
}
use backuwup.Server.Error.{as_response}
use backuwup.Server.Matching.{Request}
use backuwup.Server.Handlers
use backuwup.Server.Handlers.{Server, reports_backup, handle}
use backuwup.Client.Config.{Config, no_settings}
use backuwup.Client.Tables.Laws.{with_token}
use backuwup.Client.Api.{
  unauthorized_error, Signer, Api, expect_ok, send, login_begin, login_complete, login,
  send_with_session, retry_with_login,
}
use backuwup.Client.Api.Retries.{retry_with_login-expired, retry_with_login-fresh}
use backuwup.Client.Api.Served.{serve, login-served}

abbrev socket : Wire
socket = record {
  Sink = List ServerMessageWs;
  Json = ServerMessageWs;
  to_string = λ m. some m;
  send = λ s m. (true, s ++ m ∷ []);
}

abbrev queue : SumQueue Request
queue = record { Queue = List Request; items = λ q. q; push = λ q r. r ∷ q; pop = λ q. (none, q) }

abbrev lasting : DelayMap ℕ
lasting = record {
  Map = Dict ℕ;
  new = [];
  get = λ m k. lookup k m;
  insert = λ m k v. insert k v m;
  remove = λ m k. erase k m;
  elapse = λ m. m;
}

lasting-IsDelayMap : IsDelayMap lasting
unfolding lookup
lasting-IsDelayMap = record {
  get-new = λ k. refl;
  get-insert = λ m k j v. lookup-insert k j v m;
  get-remove = λ m k j. lookup-erase k j m;
  get-elapse = λ m k. inr refl;
}

-- A signature of a nonce is the sum of the key and the nonce, 64 times.
abbrev sums : Crypto
sums = record {
  PublicKey = ℕ;
  Signature = ℕ;
  key_from_bytes = λ c. some c;
  signature_from_bytes = λ r. get_elem? r 0;
  verify_strict = λ key nonce signature. signature == key + nonce;
}

abbrev repeated : ℕ → ℕ → ChallengeResponse
repeated n zero = []
repeated n (suc k) = n ∷ repeated n k

abbrev keys : Signer
keys = record { pubkey = 5; sign = λ nonce. repeated (5 + nonce) 64 }

abbrev server : Server socket queue lasting
server = record {
  globals = record {
    queue = [];
    connections = record { connections = [] };
    db = record {
      clients = record { pubkey = 5; registered = 0; last_login = none } ∷ [];
      peer_backups = [];
      snapshots = [];
      now = 7;
      faults = [];
    };
  };
  auth = record { challenges = []; sessions = []; entropy = some 9 ∷ some 77 ∷ [] };
}

abbrev config : Config
config = record { peers = []; settings = no_settings; log = []; now = 9; faults = [] }

abbrev new_client : Api (Server socket queue lasting)
new_client = record { config = config; server = server }

abbrev old_client : Api (Server socket queue lasting)
old_client = record { config = with_token (some 66) config; server = server }

login-served_example :
    ((login (serve sums) keys new_client).0 ≡ ok tt)
    × ((login (serve sums) keys new_client).1.config.settings.auth_token ≡ some 77)
    × (get_session 77 (login (serve sums) keys new_client).1.server.auth ≡ some 5)
unfolding is_client check_signature
login-served_example =
    login-served sums lasting-IsDelayMap keys new_client 9 77 [] refl refl refl refl refl refl

rejected :
    (send_with_session (serve sums) expect_ok (reports_backup 66 3) old_client).0
    ≡ err unauthorized_error
unfolding send_with_session serve handle Handlers.backup_done get_session lookup as_response
    expect_ok
rejected = refl

retry_with_login-expired_example :
    (retry_with_login
      (serve sums)
      keys
      (λ t. send_with_session (serve sums) expect_ok (reports_backup t 3))
      old_client).0
    ≢ ok tt
retry_with_login-expired_example =
    retry_with_login-expired (serve sums) keys expect_ok (λ t. reports_backup t 3) old_client 66 tt
      refl rejected

abbrev begun : Api (Server socket queue lasting)
begun = (login_begin (serve sums) 5 new_client).1

abbrev completed : Api (Server socket queue lasting)
completed = (login_complete (serve sums) 5 (keys.sign 9) begun).1

begins : login_begin (serve sums) 5 new_client ≡ (ok 9, begun)
unfolding login_begin send serve handle Handlers.login_begin client_exists execute is_client
    challenge_begin
begins = refl

completes : login_complete (serve sums) 5 (keys.sign 9) begun ≡ (ok 77, completed)
unfolding login_begin send serve handle Handlers.login_begin client_exists execute is_client
    challenge_begin login_complete Handlers.login_complete challenge_verify check_signature
    session_start client_update_logged_in insert lookup
completes = refl

abbrev stored : Api (Server socket queue lasting)
stored = record completed { config = with_token (some 77) config }

abbrev reported : Api (Server socket queue lasting)
reported = (send_with_session (serve sums) expect_ok (reports_backup 77 3) stored).1

reports : send_with_session (serve sums) expect_ok (reports_backup 77 3) stored ≡ (ok tt, reported)
unfolding login_begin send serve handle Handlers.login_begin client_exists execute is_client
    challenge_begin login_complete Handlers.login_complete challenge_verify check_signature
    session_start client_update_logged_in insert lookup erase send_with_session Handlers.backup_done
    get_session save_snapshot logged_in expect_ok
reports = refl

retry_with_login-fresh_example :
    retry_with_login
      (serve sums)
      keys
      (λ t. send_with_session (serve sums) expect_ok (reports_backup t 3))
      new_client
    ≡ (ok tt, reported)
retry_with_login-fresh_example =
    retry_with_login-fresh (serve sums) keys expect_ok (λ t. reports_backup t 3) new_client begun
      completed reported 9 77 tt refl refl begins completes reports
