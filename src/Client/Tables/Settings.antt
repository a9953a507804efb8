-- ===== src/Client/Tables/Settings.antt =====
-- client/src/config/identity.rs and client/src/config/backup.rs: the methods of `Config`.
pub mod Transaction
use backuwup.Prelude.{ℕ, Bool, Option, Exec, Done}
use backuwup.Shared.{SessionToken}
use backuwup.Client.Config.{Failure, Config, committing}
use backuwup.Client.Tables.Settings.Transaction

unfoldable pub is_initialized : Exec Config Failure Bool
is_initialized = committing Transaction.is_initialized

unfoldable pub set_initialized : Exec Config Failure Done
set_initialized = committing Transaction.set_initialized

unfoldable pub save_root_secret : ℕ → Exec Config Failure Done
save_root_secret secret = committing (Transaction.save_root_secret secret)

unfoldable pub load_root_secret : Exec Config Failure ℕ
load_root_secret = committing Transaction.load_root_secret

unfoldable pub save_auth_token : Option SessionToken → Exec Config Failure Done
save_auth_token token = committing (Transaction.save_auth_token token)

unfoldable pub load_auth_token : Exec Config Failure (Option SessionToken)
load_auth_token = committing Transaction.load_auth_token

unfoldable pub save_obfuscation_key : ℕ → Exec Config Failure Done
save_obfuscation_key key = committing (Transaction.save_obfuscation_key key)

unfoldable pub get_obfuscation_key : Exec Config Failure ℕ
get_obfuscation_key = committing Transaction.get_obfuscation_key

unfoldable pub set_backup_path : ℕ → Exec Config Failure Done
set_backup_path path = committing (Transaction.set_backup_path path)

unfoldable pub get_backup_path : Exec Config Failure (Option ℕ)
get_backup_path = committing Transaction.get_backup_path

unfoldable pub save_highest_sent_index_number : ℕ → Exec Config Failure Done
save_highest_sent_index_number index = committing (Transaction.save_highest_sent_index_number index)

unfoldable pub get_highest_sent_index_number : Exec Config Failure (Option ℕ)
get_highest_sent_index_number = committing Transaction.get_highest_sent_index_number
