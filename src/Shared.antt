-- ===== src/Shared.antt =====
-- shared/src: the constants, the identifier types and the messages that the server and the clients
-- exchange. An identifier of a fixed number of bytes is the number that its bytes spell.
use Prim.Native.String.{String}
use backuwup.Prelude.{ℕ, ◌^◌, List}

-- constants.rs
abbrev pub max_backup_storage_request_size : ℕ
max_backup_storage_request_size = 17_179_869_184

-- The machine widths of the integers that the code casts between.
abbrev pub i64_max : ℕ
i64_max = 0x7fff_ffff_ffff_ffff

abbrev pub u64_mod : ℕ
u64_mod = 2 ^ 64

abbrev pub u32_mod : ℕ
u32_mod = 2 ^ 32

-- types.rs
abbrev pub ClientId : Type 0
ClientId = ℕ

abbrev pub ChallengeNonce : Type 0
ChallengeNonce = ℕ

abbrev pub ChallengeResponse : Type 0
ChallengeResponse = List ℕ

abbrev pub SessionToken : Type 0
SessionToken = ℕ

abbrev pub TransportSessionNonce : Type 0
TransportSessionNonce = ℕ

abbrev pub BlobHash : Type 0
BlobHash = ℕ

abbrev pub challenge_response_length : ℕ
challenge_response_length = 64

-- server_message_ws.rs
pub record BackupMatched : Type 0 where
  pub storage_available : ℕ
  pub destination_id : ClientId

pub record IncomingP2PConnection : Type 0 where
  pub source_client_id : ClientId
  pub session_nonce : TransportSessionNonce

pub record FinalizeP2PConnection : Type 0 where
  pub destination_client_id : ClientId
  pub destination_ip_address : String

pub data ServerMessageWs : Type 0 where
  ping : ServerMessageWs
  backup_matched : BackupMatched → ServerMessageWs
  incoming_p2p_connection : IncomingP2PConnection → ServerMessageWs
  finalize_p2p_connection : FinalizeP2PConnection → ServerMessageWs

-- server_message.rs, the answers of the HTTP handlers other than errors
pub record BackupRestoreInfo : Type 0 where
  pub snapshot_hash : BlobHash
  pub peers : List ClientId

pub data ServerMessage : Type 0 where
  done : ServerMessage
  client_registration_challenge : ChallengeNonce → ServerMessage
  client_login_challenge : ChallengeNonce → ServerMessage
  client_login_token : SessionToken → ServerMessage
  backup_restore_info : BackupRestoreInfo → ServerMessage

-- The errors of the handlers' answers, without their texts.
pub data ErrorType : Type 0 where
  unauthorized client_not_found destination_unreachable no_backups retry : ErrorType
  bad_request server_error failure : ErrorType

-- The body of an answer: a message, or the message that carries an error.
pub data Reply : Type 0 where
  message : ServerMessage → Reply
  error : ErrorType → Reply
