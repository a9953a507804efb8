-- ===== src/Client/Defaults.antt =====
-- client/src/defaults.rs and the constants of client/src/backup/filesystem/packfile.
use backuwup.Prelude.{ℕ, ◌*◌}

abbrev pub peer_storage_usage_spread : ℕ
peer_storage_usage_spread = 16 * 1024 * 1024

abbrev pub max_packfile_local_buffer_size : ℕ
max_packfile_local_buffer_size = 100 * 1024 * 1024

abbrev pub packfile_local_buffer_resume_threshold : ℕ
packfile_local_buffer_resume_threshold = 50 * 1024 * 1024

abbrev pub storage_request_retry_delay : ℕ
storage_request_retry_delay = 10

abbrev pub restore_throttle_delay : ℕ
restore_throttle_delay = 60

abbrev pub storage_request_cap : ℕ
storage_request_cap = 150_000_000

abbrev pub storage_request_step : ℕ
storage_request_step = 50_000_000

abbrev pub blob_max_uncompressed_size : ℕ
blob_max_uncompressed_size = 3 * 1024 * 1024

-- packfile/mod.rs
abbrev pub packfile_target_size : ℕ
packfile_target_size = 3 * 1024 * 1024

abbrev pub packfile_max_size : ℕ
packfile_max_size = 16 * 1024 * 1024

abbrev pub packfile_max_blobs : ℕ
packfile_max_blobs = 100_000

-- packfile/blob_index.rs
abbrev pub max_file_entries : ℕ
max_file_entries = 50_000

-- shared/src/types.rs
abbrev pub blob_nonce_size : ℕ
blob_nonce_size = 12
