-- ===== src/Protocol/Frame.antt =====
-- `Frame` (src/protocol/frame.rs): the unit of the protocol, its limits, and the test that a
-- version knows its message type.
use warpfile.Common.{ℕ, ◌*◌, List, [], ◌∷◌, Bool, ◌||◌, ◌==◌}
use warpfile.Common.{Result, ok, ◌>>◌, require}
use warpfile.Protocol.Message.{MessageType, is_allowed_in_version, wfp_version_v02, wfp_version_v03}

-- *b"WFP\0"
abbrev pub wfp_magic : List ℕ
wfp_magic = 0x57 ∷ 0x46 ∷ 0x50 ∷ 0x00 ∷ []

abbrev pub active_wfp_version : ℕ
active_wfp_version = wfp_version_v02

abbrev pub header_length : ℕ
header_length = 12

abbrev pub max_payload_length : ℕ
max_payload_length = 1024 * 1024

abbrev pub max_data_payload_length : ℕ
max_data_payload_length = 64 * 1024

pub record Frame : Type 0 where
  pub version : ℕ
  pub message_type : MessageType
  pub flags : ℕ
  pub payload : List ℕ

pub data FrameError : Type 0 where
  unsupported_version : ℕ → FrameError
  message_type_not_allowed : ℕ → MessageType → FrameError

unfoldable pub is_supported_version : ℕ → Bool
is_supported_version version = version == wfp_version_v02 || version == wfp_version_v03

unfoldable pub validate_version_and_message_type : ℕ → MessageType → Result (Unit {0}) FrameError
unfolding is_supported_version
validate_version_and_message_type version message_type = do
  require (is_supported_version version) (unsupported_version version)
  require (is_allowed_in_version message_type version)
      (message_type_not_allowed version message_type)
  ok tt

-- `Frame::new`
unfoldable pub new : MessageType → List ℕ → Frame
new message_type payload = record {
  version = active_wfp_version;
  message_type = message_type;
  flags = 0;
  payload = payload;
}

unfoldable pub new_for_version : ℕ → MessageType → List ℕ → Result Frame FrameError
new_for_version version message_type payload = do
  validate_version_and_message_type version message_type
  ok (record { version = version; message_type = message_type; flags = 0; payload = payload })
