-- ===== src/Protocol/Decoder.antt =====
-- `validate_frame_header` and `decode_frame_for_version` (src/protocol/decoder.rs).
pub mod RoundTrip
pub mod Safety
pub mod Canonical
use warpfile.Common.{ℕ, ◌+◌, List, ◌&&◌, not, ltb, leb, ◌==◌, length}
use warpfile.Common.{Result, ok, ◌>>=◌, ◌>>◌, require, map_err}
use warpfile.Bytes.BigEndian.{from_be_bytes}
use warpfile.Bytes.Slice.{slice, index, bytes_eq}
use warpfile.Protocol.Message.{MessageType, from_wire, is_data}
use warpfile.Protocol.Frame.{Frame, is_supported_version, active_wfp_version, wfp_magic}
use warpfile.Protocol.Frame.{header_length, max_payload_length, max_data_payload_length}

pub data DecodeError : Type 0 where
  header_too_short : ℕ → DecodeError
  invalid_magic : List ℕ → DecodeError
  unsupported_version : ℕ → DecodeError
  unknown_message_type : ℕ → DecodeError
  unsupported_flags : ℕ → DecodeError
  payload_too_large : ℕ → DecodeError
  data_payload_too_large : ℕ → DecodeError
  -- expected, actual
  incomplete_frame : ℕ → ℕ → DecodeError
  trailing_bytes : ℕ → ℕ → DecodeError

pub record FrameHeader : Type 0 where
  pub version : ℕ
  pub message_type : MessageType
  pub flags : ℕ
  pub payload_length : ℕ

unfoldable pub validate_frame_header : List ℕ → ℕ → Result FrameHeader DecodeError
validate_frame_header bytes expected_version = do
  require (leb header_length (length bytes)) (header_too_short (length bytes))
  require (is_supported_version expected_version) (unsupported_version expected_version)
  magic ← slice bytes 0 4
  require (bytes_eq magic wfp_magic) (invalid_magic magic)
  version ← index bytes 4
  require (is_supported_version version && version == expected_version)
      (unsupported_version version)
  message_type_byte ← index bytes 5
  message_type ← map_err unknown_message_type (from_wire version message_type_byte)
  flag_bytes ← slice bytes 6 8
  let flags = from_be_bytes flag_bytes
  require (flags == 0) (unsupported_flags flags)
  length_bytes ← slice bytes 8 12
  let payload_length = from_be_bytes length_bytes
  require (leb payload_length max_payload_length) (payload_too_large payload_length)
  require (not (is_data message_type && ltb max_data_payload_length payload_length))
      (data_payload_too_large payload_length)
  ok (record {
    version = version;
    message_type = message_type;
    flags = flags;
    payload_length = payload_length;
  })

unfoldable pub decode_frame_for_version : List ℕ → ℕ → Result Frame DecodeError
decode_frame_for_version bytes version = do
  header ← validate_frame_header bytes version
  let expected_length = header_length + header.payload_length
  require (leb expected_length (length bytes)) (incomplete_frame expected_length (length bytes))
  require (leb (length bytes) expected_length) (trailing_bytes expected_length (length bytes))
  payload ← slice bytes header_length expected_length
  ok (record {
    version = header.version;
    message_type = header.message_type;
    flags = header.flags;
    payload = payload;
  })

unfoldable pub decode_frame : List ℕ → Result Frame DecodeError
decode_frame bytes = decode_frame_for_version bytes active_wfp_version
