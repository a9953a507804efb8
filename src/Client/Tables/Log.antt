-- ===== src/Client/Tables/Log.antt =====
-- client/src/config/log.rs: the methods of `Config`.
pub mod Transaction
use backuwup.Prelude.{ℕ, Option, Exec, Done}
use backuwup.Shared.{ClientId}
use backuwup.Client.Config.{Failure, Config, committing}
use backuwup.Client.Tables.Log.Transaction
use backuwup.Client.Tables.Log.Transaction.{Difference}

unfoldable pub log_peer_restore_request : ClientId → Exec Config Failure Done
log_peer_restore_request peer_id = committing (Transaction.log_peer_restore_request peer_id)

unfoldable pub get_last_peer_restore_request : ClientId → Exec Config Failure (Option ℕ)
get_last_peer_restore_request peer_id =
    committing (Transaction.get_last_peer_restore_request peer_id)

unfoldable pub log_backup : ℕ → ℕ → Exec Config Failure Done
log_backup size path = committing (Transaction.log_backup size path)

unfoldable pub get_backup_size_difference : ℕ → ℕ → Exec Config Failure (Option Difference)
get_backup_size_difference size path = committing (Transaction.get_backup_size_difference size path)
