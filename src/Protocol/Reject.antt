-- ===== src/Protocol/Reject.antt =====
-- `FileReject`, `encode_reject` and `decode_reject` (src/protocol/reject.rs). A message is the list of
-- its UTF-8 bytes.
pub mod RoundTrip
pub mod Canonical
use warpfile.Common.{ℕ, ◌+◌, ◌-◌, ◌^◌, ◌%◌, ◌≡◌, ◌<◌, List, ◌++◌, Bool, true, not, ltb, leb, ◌==◌}
use warpfile.Common.{length, Result, ok, err, ◌>>=◌, ◌>>◌, require, map_err, if◌then◌else◌}
use warpfile.Bytes.BigEndian.{IsBytes, to_be_bytes, from_be_bytes}
use warpfile.Bytes.Slice.{slice}
use warpfile.Bytes.Utf8.{is_utf8}

pub data RejectCode : Type 0 where
  file_exists : RejectCode
  unsafe_filename : RejectCode
  cannot_prepare_destination : RejectCode

-- `code as u16`
unfoldable pub as_u16 : RejectCode → ℕ
as_u16 file_exists = 0x0001
as_u16 unsafe_filename = 0x0002
as_u16 cannot_prepare_destination = 0x0003

-- `RejectCode::try_from`
unfoldable pub try_from : ℕ → Result RejectCode ℕ
try_from value =
    if value == 0x0001
    then ok file_exists
    else if value == 0x0002
    then ok unsafe_filename
    else if value == 0x0003
    then ok cannot_prepare_destination
    else err value

pub record FileReject : Type 0 where
  pub code : RejectCode
  pub message : List ℕ

pub data RejectError : Type 0 where
  message_too_long : ℕ → RejectError
  invalid_payload_length : RejectError
  invalid_utf8 : RejectError
  unknown_code : ℕ → RejectError

-- What the Rust type of the message says.
pub record IsFileReject (r : FileReject) : Type 0 where
  pub message : is_utf8 r.message ≡ true
  pub message_bytes : IsBytes r.message

unfoldable pub reject_bytes : FileReject → List ℕ
reject_bytes r =
    to_be_bytes 2 (as_u16 r.code) ++ (to_be_bytes 2 (length r.message % 2 ^ 16) ++ r.message)

unfoldable pub encode_reject : FileReject → Result (List ℕ) RejectError
encode_reject r = do
  require (leb (length r.message) (2 ^ 16 - 1)) (message_too_long (length r.message))
  ok (reject_bytes r)

unfoldable pub decode_reject : List ℕ → Result FileReject RejectError
decode_reject payload = do
  require (leb 4 (length payload)) invalid_payload_length
  code_bytes ← slice payload 0 2
  code ← map_err unknown_code (try_from (from_be_bytes code_bytes))
  length_bytes ← slice payload 2 4
  let expected_length = 4 + from_be_bytes length_bytes
  require (length payload == expected_length) invalid_payload_length
  message ← slice payload 4 (length payload)
  require (is_utf8 message) invalid_utf8
  ok (record { code = code; message = message })
