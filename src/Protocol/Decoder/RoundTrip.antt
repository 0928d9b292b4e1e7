-- ===== src/Protocol/Decoder/RoundTrip.antt =====
-- Decoding what was encoded.
use warpfile.Common.{ℕ, ◌+◌, ◌≤◌, ◌≡◌, refl, arith, List, [], ◌∷◌, ◌++◌}
use warpfile.Common.{true, false, ◌&&◌, ltb, length}
use warpfile.Common.{ok}
use warpfile.Bytes.BigEndian.{to_be_bytes, from_be_bytes-to_be_bytes}
use warpfile.Bytes.Slice.{slice, index, slice-append, slice-append_end, bytes_eq_refl}
use warpfile.Protocol.Message.{as_u8, is_data, is_allowed_in_version}
use warpfile.Protocol.Message.Codes.{from_wire-as_u8}
use warpfile.Protocol.Frame.{
  Frame, is_supported_version, validate_version_and_message_type, wfp_magic,
}
use warpfile.Protocol.Frame.{max_payload_length, max_data_payload_length, header_length}
use warpfile.Protocol.Encoder.{encode_frame, frame_bytes, header_bytes}
use warpfile.Protocol.Decoder.{
  DecodeError, FrameHeader, validate_frame_header, decode_frame_for_version,
}

-- What `encode_frame` has tested when it writes a frame.
pub record IsEncodable (f : Frame) : Type 0 where
  pub supported : is_supported_version f.version ≡ true
  pub allowed : is_allowed_in_version f.message_type f.version ≡ true
  pub data_fits : (is_data f.message_type && ltb max_data_payload_length (length f.payload)) ≡ false
  pub fits : length f.payload ≤ max_payload_length

pub encode_frame-inversion :
    (f : Frame) (bytes : List ℕ)
    → encode_frame f ≡ ok bytes
    → IsEncodable f × (bytes ≡ frame_bytes f)
unfolding encode_frame validate_version_and_message_type
encode_frame-inversion f bytes h = ground arith

pub encode_frame-eq-ok : (f : Frame) → IsEncodable f → encode_frame f ≡ ok (frame_bytes f)
unfolding encode_frame validate_version_and_message_type
encode_frame-eq-ok f e = ground arith

abbrev pub header_of : Frame → FrameHeader
header_of f = record {
  version = f.version;
  message_type = f.message_type;
  flags = f.flags;
  payload_length = length f.payload;
}

-- The header, whatever stands behind it.
module _ (f : Frame) (rest : List ℕ) where
  abbrev start : List ℕ
  start = wfp_magic ++ (f.version ∷ as_u8 f.message_type ∷ [])

  abbrev stream : List ℕ
  stream = header_bytes f ++ rest

  magic_slice : slice {E = DecodeError} stream 0 4 ≡ ok wfp_magic
  unfolding header_bytes
  magic_slice = slice-append [] wfp_magic _ 0 4 refl refl

  version_byte : index {E = DecodeError} stream 4 ≡ ok f.version
  unfolding header_bytes index
  version_byte = refl

  type_byte : index {E = DecodeError} stream 5 ≡ ok (as_u8 f.message_type)
  unfolding header_bytes index
  type_byte = refl

  flag_slice : slice {E = DecodeError} stream 6 8 ≡ ok (to_be_bytes 2 f.flags)
  unfolding header_bytes to_be_bytes
  flag_slice =
      slice-append start (to_be_bytes 2 f.flags) (to_be_bytes 4 (length f.payload) ++ rest) 6 8 refl
        refl

  length_slice : slice {E = DecodeError} stream 8 12 ≡ ok (to_be_bytes 4 (length f.payload))
  unfolding header_bytes to_be_bytes
  length_slice =
      slice-append (start ++ to_be_bytes 2 f.flags) (to_be_bytes 4 (length f.payload)) rest 8 12
        refl refl

  pub length-header_append : length stream ≡ header_length + length rest
  unfolding header_bytes to_be_bytes
  length-header_append = omega arith

  pub validate-header_bytes :
      IsEncodable f → f.flags ≡ 0 → validate_frame_header stream f.version ≡ ok (header_of f)
  unfolding validate_frame_header
  validate-header_bytes e flags = ground (
    arith,
    magic_slice,
    version_byte,
    type_byte,
    flag_slice,
    length_slice,
    length-header_append,
    bytes_eq_refl wfp_magic,
    from_wire-as_u8 f.version f.message_type,
    from_be_bytes-to_be_bytes 2 f.flags,
    from_be_bytes-to_be_bytes 4 (length f.payload),
  )

module _ (f : Frame) where
  pub length-header_bytes : length (header_bytes f) ≡ header_length
  unfolding header_bytes to_be_bytes
  length-header_bytes = refl

  payload_slice :
      slice {E = DecodeError}
        (header_bytes f ++ f.payload)
        header_length
        (header_length + length f.payload)
      ≡ ok f.payload
  unfolding header_bytes to_be_bytes
  payload_slice =
      slice-append_end (header_bytes f) f.payload header_length (header_length + length f.payload)
        refl refl

  pub decode-frame_bytes :
      IsEncodable f → f.flags ≡ 0 → decode_frame_for_version (frame_bytes f) f.version ≡ ok f
  unfolding decode_frame_for_version
  decode-frame_bytes e flags =
      unfold frame_bytes in
      ground
        (arith, validate-header_bytes f f.payload, length-header_append f f.payload, payload_slice)

-- A frame whose flags are 0, and which `encode_frame` accepts, is decoded from its encoding, when
-- its own version is expected.
pub decode_frame-encode :
    (f : Frame) (bytes : List ℕ)
    → encode_frame f ≡ ok bytes
    → f.flags ≡ 0
    → decode_frame_for_version bytes f.version ≡ ok f
decode_frame-encode f bytes h flags =
    let (e, p) = encode_frame-inversion f bytes h in rw p (decode-frame_bytes f e flags)
