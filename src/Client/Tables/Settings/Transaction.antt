-- ===== src/Client/Tables/Settings/Transaction.antt =====
-- client/src/config/identity.rs and client/src/config/backup.rs: the table `config`.
use backuwup.Prelude.{
  ℕ, Bool, true, false, Option, none, some, ok, err, Exec, Done, ok_or, ◌>>=◌, ◌>>◌,
}
use backuwup.Shared.{SessionToken}
use backuwup.Client.Config.{Failure, sql, Settings, Config, call}

is_some : {A : Type 0} → Option A → Bool
is_some none = false
is_some (some a) = true

-- `insert into config`: the key is the primary key.
insert_new :
    {A : Type 0} → (Settings → Option A) → (A → Settings → Settings) → A → Exec Config Failure Done
insert_new get put a = do
  call
  λ c. elim (get c.settings) [
    | none ↦ (ok tt, record c { settings = put a c.settings })
    | some old ↦ (err sql, c)
  ]

replace : (Settings → Settings) → Exec Config Failure Done
replace put = do call; λ c. (ok tt, record c { settings = put c.settings })

fetch_optional : {A : Type 0} → (Settings → Option A) → Exec Config Failure (Option A)
fetch_optional get = do call; λ c. (ok (get c.settings), c)

-- `fetch_one`: no row is an error.
fetch_one : {A : Type 0} → (Settings → Option A) → Exec Config Failure A
fetch_one get = do call; λ c. (ok_or (get c.settings) sql, c)

unfoldable pub is_initialized : Exec Config Failure Bool
unfolding fetch_optional is_some
is_initialized = do row ← fetch_optional (λ s. s.initialized); λ c. (ok (is_some row), c)

unfoldable pub set_initialized : Exec Config Failure Done
unfolding insert_new
set_initialized = insert_new (λ s. s.initialized) (λ a s. record s { initialized = some a }) tt

unfoldable pub save_root_secret : ℕ → Exec Config Failure Done
unfolding insert_new
save_root_secret = insert_new (λ s. s.root_secret) (λ a s. record s { root_secret = some a })

unfoldable pub load_root_secret : Exec Config Failure ℕ
unfolding fetch_one
load_root_secret = fetch_one (λ s. s.root_secret)

-- `none` deletes the row.
unfoldable pub save_auth_token : Option SessionToken → Exec Config Failure Done
unfolding replace
save_auth_token (some token) = replace (λ s. record s { auth_token = some token })
save_auth_token none = replace (λ s. record s { auth_token = none })

unfoldable pub load_auth_token : Exec Config Failure (Option SessionToken)
unfolding fetch_optional
load_auth_token = fetch_optional (λ s. s.auth_token)

unfoldable pub save_obfuscation_key : ℕ → Exec Config Failure Done
unfolding insert_new
save_obfuscation_key =
    insert_new (λ s. s.obfuscation_key) (λ a s. record s { obfuscation_key = some a })

unfoldable pub get_obfuscation_key : Exec Config Failure ℕ
unfolding fetch_one
get_obfuscation_key = fetch_one (λ s. s.obfuscation_key)

unfoldable pub set_backup_path : ℕ → Exec Config Failure Done
unfolding replace
set_backup_path path = replace (λ s. record s { backup_path = some path })

unfoldable pub get_backup_path : Exec Config Failure (Option ℕ)
unfolding fetch_optional
get_backup_path = fetch_optional (λ s. s.backup_path)

unfoldable pub save_highest_sent_index_number : ℕ → Exec Config Failure Done
unfolding replace
save_highest_sent_index_number index = replace (λ s. record s { highest_sent_index = some index })

unfoldable pub get_highest_sent_index_number : Exec Config Failure (Option ℕ)
unfolding fetch_optional
get_highest_sent_index_number = fetch_optional (λ s. s.highest_sent_index)
