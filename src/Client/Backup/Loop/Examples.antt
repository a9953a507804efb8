-- ===== src/Client/Backup/Loop/Examples.antt =====
-- The theorems about the loop of `send` at a backup with one packfile and one index file left.
use backuwup.Prelude.{
  ℕ, ◌+◌, ◌*◌, ◌≡◌, ◌≤◌, ◌<◌, refl, true, false, List, [], ◌∷◌, some, ok, arith, length,
}
use backuwup.Prelude.Dict.{Dict}
use backuwup.Client.Bytes.{Bytes}
use backuwup.Client.Config.{no_settings}
use backuwup.Client.Defaults.{
  max_packfile_local_buffer_size, packfile_local_buffer_resume_threshold,
}
use backuwup.Client.Tables.Settings.Transaction
use backuwup.Client.Net.LastingMap.{lasting}
use backuwup.Client.Net.Stream.{new_transport}
use backuwup.Client.Backup.Orchestrator.{BackupOrchestrator, default, available_packfile_bytes}
use backuwup.Client.Backup.Sending.{Names, Entry, file, folder}
use backuwup.Client.Backup.Loop.{Sending, Folders, resume_if_room}
use backuwup.Client.Backup.Loop.Room.{resume_if_room-paused}

abbrev names : Names
names = record { parse_packfile_path_into_id = λ p. some p; parse_index_path_into_id = λ p. some p }

abbrev paths : Dict Bytes → List Entry
paths [] = []
paths ((path, b) ∷ files) = file path ∷ paths files

abbrev bytes_in : Dict Bytes → ℕ
bytes_in [] = 0
bytes_in ((path, b) ∷ files) = length b + bytes_in files

abbrev folders : Folders
folders = record {
  packfile_slots = λ files. folder (paths files) ∷ [];
  index_entries = paths;
  get_size = λ files. ok (bytes_in files);
}

abbrev packed : BackupOrchestrator
packed = record (default 0) { packing_completed = true }

abbrev last_round : Sending lasting
last_round = record {
  desk = record {
    shared = record {
      orchestrator = packed;
      config = record { peers = []; settings = no_settings; log = []; now = 9; faults = [] };
      requests = record { requests = []; entropy = [] };
      clock = 9;
    };
    begun = [];
    accepted = [];
    meanwhile = [];
    requested = [];
  };
  packfiles = (4, 1 ∷ 2 ∷ []) ∷ [];
  indexes = (1, 3 ∷ []) ∷ [];
  disk = [];
  last_written = 0;
  last_matched = 0;
  connection = some (8, new_transport 55 []);
  packfiles_done = false;
  index_done = false;
}

abbrev filled : BackupOrchestrator
filled = record (default 0) { paused = true; packfile_bytes_written = 60 * 1024 * 1024 }

resume_if_room-paused_example :
    (available_packfile_bytes filled + packfile_local_buffer_resume_threshold
        < max_packfile_local_buffer_size
      → (resume_if_room filled).paused ≡ false)
    × (max_packfile_local_buffer_size
          ≤ available_packfile_bytes filled + packfile_local_buffer_resume_threshold
        → available_packfile_bytes filled ≤ max_packfile_local_buffer_size
        → resume_if_room filled ≡ filled)
    × (max_packfile_local_buffer_size < available_packfile_bytes filled
        → (resume_if_room filled).paused ≡ false)
unfolding available_packfile_bytes
resume_if_room-paused_example = resume_if_room-paused filled refl (omega arith)
