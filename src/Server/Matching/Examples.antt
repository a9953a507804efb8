-- ===== src/Server/Matching/Examples.antt =====
-- The theorems on storage matching (server/src/backup_request.rs) at concrete inputs: an in-memory queue that nothing expires from, and
-- sockets that keep what was sent.
use backuwup.Prelude.{
  ℕ, ◌+◌, ◌≡◌, refl, ◌⊎◌, true, Option, none, some, List, [], ◌∷◌, ◌++◌, ok, arith,
}
use backuwup.Shared.{ServerMessageWs, backup_matched}
use backuwup.Server.Error.{cast_i64}
use backuwup.Server.SumQueue.{SumQueue, IsFifo, expired, Popped, empty, front}
use backuwup.Server.Connections.{Wire, notify_client}
use backuwup.Server.Database.{PeerBackup, ClientRow, save_storage_negotiated, execute, is_client}
use backuwup.Server.Matching.{
  Request, Globals, fulfill, fulfill_loop, after_visit, visit, settle, compare_sizes, push, notify,
  attempt_notify, save, cast,
}
use backuwup.Server.Ledger.{granted, between}
use backuwup.Prelude.Dict.{lookup, insert}
use backuwup.Server.Matching.Loop.{Returns}
use backuwup.Server.Matching.Sizes.{Safe, fulfill-Safe}
use backuwup.Server.Matching.Grants.{asked, queued, Granted, fulfill-Granted}
use backuwup.Server.Matching.Exact.{Waits, fulfill-Exact, Balanced, fulfill-Balanced}

abbrev inbox : Wire
inbox = record {
  Sink = List ServerMessageWs;
  Json = ServerMessageWs;
  to_string = λ m. some m;
  send = λ s m. (true, s ++ m ∷ []);
}

abbrev pop_front : List Request → Option Request × List Request
pop_front [] = (none, [])
pop_front (r ∷ rs) = (some r, rs)

abbrev fifo_queue : SumQueue Request
fifo_queue = record {
  Queue = List Request;
  items = λ q. q;
  push = λ q r. q ++ r ∷ [];
  pop = pop_front;
}

pop_front-Popped : (q : List Request) → Popped q (pop_front q).0 (pop_front q).1
pop_front-Popped [] = empty refl refl refl
pop_front-Popped (r ∷ rs) = front r refl refl

fifo_queue-IsFifo : IsFifo fifo_queue
fifo_queue-IsFifo = record {
  push_lem = λ q r. (q, expired [] refl, refl);
  pop_lem = λ q. (q, expired [] refl, pop_front-Popped q);
}

abbrev request : ℕ → ℕ → Request
request client size = record { client_id = client; storage_required = size }

abbrev client_row : ℕ → ClientRow
client_row c = record { pubkey = c; registered = 0; last_login = none }

-- Clients 1, 2 and 3 are registered and connected; 2 and 3 wait with 30 and 50 bytes.
abbrev waiting : Globals inbox fifo_queue
waiting = record {
  queue = request 2 30 ∷ request 3 50 ∷ [];
  connections = record { connections = (1, []) ∷ (2, []) ∷ (3, []) ∷ [] };
  db = record {
    clients = client_row 1 ∷ client_row 2 ∷ client_row 3 ∷ [];
    peer_backups = [];
    snapshots = [];
    now = 7;
    faults = [];
  };
}

fulfill-Safe_example : Returns Safe (fulfill (request 1 60) waiting)
fulfill-Safe_example = fulfill-Safe fifo_queue-IsFifo (request 1 60) waiting (omega arith)

fulfill-Granted_example :
    Returns
      (Granted 2
        (granted 2 waiting.db.peer_backups + queued 2 waiting.queue + asked 2 (request 1 60)))
      (fulfill (request 1 60) waiting)
fulfill-Granted_example = fulfill-Granted fifo_queue-IsFifo 2 (request 1 60) waiting

abbrev matched : ℕ → ℕ → ServerMessageWs
matched peer size = backup_matched (record { storage_available = size; destination_id = peer })

abbrev backup_row : ℕ → ℕ → ℕ → PeerBackup
backup_row source destination size = record {
  source = source;
  destination = destination;
  size_negotiated = size;
  timestamp = 7;
}

-- Client 1 got 30 bytes from each of the others, and client 3 still waits for 20.
abbrev settled : Globals inbox fifo_queue
settled = record waiting {
  queue = request 3 20 ∷ [];
  connections = record {
    connections =
        (1, matched 2 30 ∷ matched 3 30 ∷ [])
        ∷ (2, matched 1 30 ∷ [])
        ∷ (3, matched 1 30 ∷ [])
        ∷ [];
  };
  db = record waiting.db {
    peer_backups =
        backup_row 1 2 30 ∷ backup_row 2 1 30 ∷ backup_row 1 3 30 ∷ backup_row 3 1 30 ∷ [];
  };
}

fulfill_runs : fulfill (request 1 60) waiting ≡ some (ok tt, settled)
unfolding fulfill fulfill_loop after_visit visit settle compare_sizes push notify attempt_notify
    save cast cast_i64 notify_client lookup insert save_storage_negotiated execute is_client
fulfill_runs = refl

fulfill-Exact_example :
    (granted 1 settled.db.peer_backups ≡ granted 1 waiting.db.peer_backups + 60)
    ⊎ Waits (request 1 60) (granted 1 waiting.db.peer_backups + 60) settled
fulfill-Exact_example = fulfill-Exact fifo_queue-IsFifo (request 1 60) waiting settled fulfill_runs

fulfill-Balanced_example : Balanced 1 3 settled
unfolding between
fulfill-Balanced_example =
    fulfill-Balanced 1 3 fifo_queue-IsFifo (request 1 60) waiting settled fulfill_runs refl
