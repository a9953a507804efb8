-- ===== src/Server/Error.antt =====
-- server/src/handlers/mod.rs: the handlers' error type, and a handler that stops by a panic.
-- The errors of the libraries are kept without their text.
use backuwup.Prelude.{ℕ, Result, ok, err, leb, if◌then◌else◌}
use backuwup.Shared.{ClientId, ErrorType, i64_max}

pub data Error : Type 0 where
  unauthorized bad_request challenge_not_found database database_type_mismatch : Error
  no_backups_available crypto rng serialization io : Error
  client_not_found client_not_connected client_exists : ClientId → Error

-- The status codes of `ResponseError for Error`.
pub status : Error → ℕ
status Error.unauthorized = 401
status Error.bad_request = 400
status Error.serialization = 400
status Error.crypto = 400
status Error.challenge_not_found = 404
status (Error.client_not_connected _) = 404
status (Error.client_not_found _) = 404
status Error.io = 404
status Error.no_backups_available = 404
status Error.database = 500
status Error.rng = 500
status Error.database_type_mismatch = 500
status (Error.client_exists _) = 409

-- The bodies of `ResponseError for Error`.
unfoldable pub as_response : Error → ErrorType
as_response Error.unauthorized = ErrorType.unauthorized
as_response Error.challenge_not_found = ErrorType.retry
as_response Error.database = ErrorType.server_error
as_response Error.rng = ErrorType.server_error
as_response Error.database_type_mismatch = ErrorType.server_error
as_response Error.bad_request = ErrorType.bad_request
as_response Error.crypto = ErrorType.bad_request
as_response Error.serialization = ErrorType.bad_request
as_response (Error.client_exists _) = ErrorType.bad_request
as_response (Error.client_not_connected _) = ErrorType.destination_unreachable
as_response Error.io = ErrorType.destination_unreachable
as_response (Error.client_not_found _) = ErrorType.destination_unreachable
as_response Error.no_backups_available = ErrorType.no_backups

-- How a handler stops early: with an error response, or by the panic of an `unwrap`.
pub data Stop : Type 0 where
  error : Error → Stop
  panic : Stop

-- `i64(n).unwrap()` of an unsigned number: the cast is checked, and fails above `i64::MAX`.
unfoldable pub cast_i64 : ℕ → Result Stop ℕ
cast_i64 n = if leb n i64_max then ok n else err panic
