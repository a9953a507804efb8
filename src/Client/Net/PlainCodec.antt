-- ===== src/Client/Net/PlainCodec.antt =====
-- A message format for the tests: bodies are written out, and a message is its body behind the body's
-- length. Every signature is accepted.
use backuwup.Prelude.{
  ℕ, zero, suc, ◌≡◌, refl, [], ◌∷◌, ◌++◌, Option, none, some, arith, true, length, take, drop,
  take-append_length, drop-append_length,
}
use backuwup.Client.Bytes.{Bytes}
use backuwup.Client.Net.Received.{FileInfo, packfile, index}
use backuwup.Client.Net.Transport.{
  RequestType, transport, restore_all, EncapsulateRequestBody, Codec, EncapsulatedMsg,
  EncapsulatedFileBody,
}
use backuwup.Client.Net.Arrival.{IsLawful}

abbrev info_code : FileInfo → ℕ × ℕ
info_code (packfile n) = (0, n)
info_code (index n) = (1, n)

abbrev code_info : ℕ → ℕ → FileInfo
code_info zero n = packfile n
code_info (suc k) n = index n

abbrev file_bytes_of : EncapsulatedFileBody → Bytes
file_bytes_of f =
    f.header.sequence_number
    ∷ f.header.session_nonce
    ∷ (info_code f.file_info).0
    ∷ (info_code f.file_info).1
    ∷ f.file_bytes

abbrev bytes_file_of : Bytes → Option EncapsulatedFileBody
bytes_file_of (n ∷ s ∷ k ∷ i ∷ b) = some (record {
  header = record { sequence_number = n; session_nonce = s };
  file_info = code_info k i;
  file_bytes = b;
})
bytes_file_of _ = none

abbrev bytes_msg_of : Bytes → Option EncapsulatedMsg
bytes_msg_of [] = none
bytes_msg_of (n ∷ b) = some (record { body = take n b; signature = drop n b })

abbrev request_code : RequestType → ℕ
request_code transport = 0
request_code restore_all = 1

abbrev code_request : ℕ → RequestType
code_request zero = transport
code_request (suc k) = restore_all

abbrev request_bytes_of : EncapsulateRequestBody → Bytes
request_bytes_of r = r.header.sequence_number ∷ r.header.session_nonce ∷ request_code r.request ∷ []

abbrev bytes_request_of : Bytes → Option EncapsulateRequestBody
bytes_request_of (n ∷ s ∷ k ∷ []) = some (record {
  header = record { sequence_number = n; session_nonce = s };
  request = code_request k;
})
bytes_request_of _ = none

abbrev pub plain : Codec
plain = record {
  serialize_msg = λ m. some (length m.body ∷ (m.body ++ m.signature));
  deserialize_msg = bytes_msg_of;
  serialize_request = λ r. some (request_bytes_of r);
  deserialize_request = bytes_request_of;
  serialize_file = λ f. some (file_bytes_of f);
  deserialize_file = bytes_file_of;
  serialize_ack = λ a. some (a.acknowledged_sequence_number ∷ []);
  deserialize_ack = λ b. none;
  sign = λ c b. c ∷ [];
  verify = λ c b s. true;
}

plain_msg : (m : EncapsulatedMsg) → bytes_msg_of (length m.body ∷ (m.body ++ m.signature)) ≡ some m
plain_msg m =
    rw
      (
        take-append_length (length m.body) m.body m.signature refl,
        drop-append_length (length m.body) m.body m.signature refl,
      )
      refl

code_info-info_code : (i : FileInfo) → code_info (info_code i).0 (info_code i).1 ≡ i
code_info-info_code (packfile n) = refl
code_info-info_code (index n) = refl

pub plain-IsLawful : IsLawful plain
plain-IsLawful = record {
  deserialize-serialize_msg = λ m b e. ground (arith, plain_msg m);
  deserialize-serialize_file = λ f b e. ground (arith, code_info-info_code f.file_info);
  verify-sign = λ c b. refl;
}

code_request-request_code : (r : RequestType) → code_request (request_code r) ≡ r
code_request-request_code transport = refl
code_request-request_code restore_all = refl

pub plain_request :
    (r : EncapsulateRequestBody) (b : Bytes)
    → plain.serialize_request r ≡ some b
    → plain.deserialize_request b ≡ some r
plain_request r b e = ground (arith, code_request-request_code r.request)
