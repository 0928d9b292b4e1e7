-- ===== src/Protocol/Encoder.antt =====
-- `encode_frame` (src/protocol/encoder.rs): the bytes of a frame.
use warpfile.Common.{ℕ, ◌-◌, ◌^◌, List, ◌∷◌, ◌++◌, ◌&&◌, not, ltb, leb, length}
use warpfile.Common.{Result, ok, ◌>>◌, require, map_err}
use warpfile.Bytes.BigEndian.{to_be_bytes}
use warpfile.Protocol.Message.{as_u8, is_data}
use warpfile.Protocol.Frame.{Frame, FrameError, validate_version_and_message_type, wfp_magic}
use warpfile.Protocol.Frame.{max_payload_length, max_data_payload_length}

pub data EncodeError : Type 0 where
  invalid_frame : FrameError → EncodeError
  payload_too_large : ℕ → EncodeError

-- The twelve bytes in front of the payload.
unfoldable pub header_bytes : Frame → List ℕ
header_bytes frame =
    wfp_magic
    ++ (frame.version
        ∷ as_u8 frame.message_type
        ∷ (to_be_bytes 2 frame.flags ++ to_be_bytes 4 (length frame.payload)))

-- The bytes that `encode_frame` writes once its tests have passed.
unfoldable pub frame_bytes : Frame → List ℕ
unfolding header_bytes
frame_bytes frame = header_bytes frame ++ frame.payload

unfoldable pub encode_frame : Frame → Result (List ℕ) EncodeError
encode_frame frame = do
  map_err invalid_frame (validate_version_and_message_type frame.version frame.message_type)
  let payload_length = length frame.payload
  require (not (is_data frame.message_type && ltb max_data_payload_length payload_length))
      (payload_too_large payload_length)
  require (leb payload_length max_payload_length) (payload_too_large payload_length)
  require (leb payload_length (2 ^ 32 - 1)) (payload_too_large payload_length)
  ok (frame_bytes frame)
