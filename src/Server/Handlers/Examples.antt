-- ===== src/Server/Handlers/Examples.antt =====
-- The theorems on the endpoints (server/src/handlers) at concrete inputs: one client, whose signature of
-- a nonce is the sum of its key and the nonce, and tokens that never expire.
use backuwup.Prelude.{
  ℕ, zero, suc, ◌+◌, ◌≡◌, ◌≢◌, length, refl, ◌⊎◌, inr, none, some, List, [], ◌∷◌, ◌++◌, ok, err,
  ◌==◌, get_elem?, true,
}
use backuwup.Prelude.Dict.{Dict, lookup, insert, erase, lookup-insert, lookup-erase}
use backuwup.Shared.{ServerMessageWs, ChallengeResponse, client_login_challenge, client_login_token}
use backuwup.DelayMap.{DelayMap, IsDelayMap}
use backuwup.Server.Error.{Error, error}
use backuwup.Server.SumQueue.{SumQueue}
use backuwup.Server.Connections.{Wire}
use backuwup.Server.Database.{client_exists, client_update_logged_in, execute, is_client, logged_in}
use backuwup.Server.Auth.{
  Crypto, check_signature, challenge_begin, challenge_verify, session_start, get_session,
}
use backuwup.Server.Matching.{Request}
use backuwup.Server.Handlers.{
  Server, logins_begin, logins_complete, asks_restore, handle, login_begin, login_complete,
}
use backuwup.Server.Handlers.Sessions.{
  Proves, Reach, here, call, Authenticated, handle-session, session-Authenticated,
}
use backuwup.Server.Handlers.Access.{restore, unknown, Quiet, handle-Needs, login_complete-again}

abbrev socket : Wire
socket = record {
  Sink = List ServerMessageWs;
  Json = ServerMessageWs;
  to_string = λ m. some m;
  send = λ s m. (true, s ++ m ∷ []);
}

abbrev stack : SumQueue Request
stack = record { Queue = List Request; items = λ q. q; push = λ q r. r ∷ q; pop = λ q. (none, q) }

abbrev lasting : DelayMap ℕ
lasting = record {
  Map = Dict ℕ;
  new = [];
  get = λ m k. lookup k m;
  insert = λ m k v. insert k v m;
  remove = λ m k. erase k m;
  elapse = λ m. m;
}

lasting-IsDelayMap : IsDelayMap lasting
unfolding lookup
lasting-IsDelayMap = record {
  get-new = λ k. refl;
  get-insert = λ m k j v. lookup-insert k j v m;
  get-remove = λ m k j. lookup-erase k j m;
  get-elapse = λ m k. inr refl;
}

abbrev sums : Crypto
sums = record {
  PublicKey = ℕ;
  Signature = ℕ;
  key_from_bytes = λ c. some c;
  signature_from_bytes = λ r. get_elem? r 0;
  verify_strict = λ key nonce signature. signature == key + nonce;
}

abbrev repeated : ℕ → ℕ → ChallengeResponse
repeated n zero = []
repeated n (suc k) = n ∷ repeated n k

-- Client 5 is registered, and the next random numbers are 9 and 77.
abbrev start : Server socket stack lasting
start = record {
  globals = record {
    queue = [];
    connections = record { connections = [] };
    db = record {
      clients = record { pubkey = 5; registered = 0; last_login = none } ∷ [];
      peer_backups = [];
      snapshots = [];
      now = 7;
      faults = [];
    };
  };
  auth = record { challenges = []; sessions = []; entropy = some 9 ∷ some 77 ∷ [] };
}

abbrev challenged : Server socket stack lasting
challenged = record start {
  auth = record { challenges = (5, 9) ∷ []; sessions = []; entropy = some 77 ∷ [] };
}

abbrev signed : ChallengeResponse
signed = repeated 14 64

abbrev logged : Server socket stack lasting
logged = record start {
  globals = record start.globals {
    db = record start.globals.db {
      clients = record { pubkey = 5; registered = 0; last_login = some 7 } ∷ [];
    };
  };
  auth = record { challenges = []; sessions = (77, 5) ∷ []; entropy = [] };
}

begins : handle sums (logins_begin 5) start ≡ some (ok (client_login_challenge 9), challenged)
unfolding handle login_begin client_exists execute is_client challenge_begin insert
begins = refl

completes :
    handle sums (logins_complete 5 signed) challenged ≡ some (ok (client_login_token 77), logged)
unfolding handle login_complete challenge_verify check_signature session_start insert erase lookup
    client_update_logged_in execute logged_in
completes = refl

valid : get_session 77 logged.auth ≡ some 5
unfolding get_session lookup
valid = refl

handle-session_example :
    (get_session 77 challenged.auth ≡ some 5) ⊎ Proves sums challenged 5 (logins_complete 5 signed)
handle-session_example =
    handle-session sums lasting-IsDelayMap 77 5 (logins_complete 5 signed) challenged logged
      (ok (client_login_token 77)) completes valid

nobody : (t : ℕ) → get_session t start.auth ≡ none
unfolding get_session lookup
nobody t = refl

abbrev logs_in : Reach sums start logged
logs_in =
    call (logins_complete 5 signed) (ok (client_login_token 77))
      (call (logins_begin 5) (ok (client_login_challenge 9)) here begins) completes

session-Authenticated_example : Authenticated sums 77 5 logged logs_in
session-Authenticated_example =
    session-Authenticated sums lasting-IsDelayMap start nobody logged 77 5 logs_in valid

handle-Needs_example :
    handle sums (asks_restore 78) start ≡ some (err (error Error.unauthorized), start)
handle-Needs_example =
    handle-Needs sums (asks_restore 78) (some 78) start (restore 78) (unknown 78 (nobody 78))

answered : (login_complete sums 5 signed challenged).0 ≡ ok (client_login_token 77)
unfolding login_complete challenge_verify check_signature session_start insert erase lookup
    client_update_logged_in execute logged_in
answered = refl

-- Time passes, and the same response comes once more.
login_complete-again_example :
    (length signed ≡ 64
      → login_complete sums 5 signed (login_complete sums 5 signed challenged).1
        ≡ (err Error.challenge_not_found, (login_complete sums 5 signed challenged).1))
    × (length signed ≢ 64
        → login_complete sums 5 signed (login_complete sums 5 signed challenged).1
          ≡ (err Error.bad_request, (login_complete sums 5 signed challenged).1))
login_complete-again_example =
    login_complete-again sums lasting-IsDelayMap 5 signed signed challenged
      (login_complete sums 5 signed challenged).1 (client_login_token 77) answered
      (Quiet.time_passes Quiet.here)
