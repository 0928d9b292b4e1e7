-- ===== src/Protocol/Decoder/Canonical.antt =====
-- Every frame has one encoding: what is decoded is encoded to the bytes that it came from.
use mathlib.Core.List.{append-nil}
use warpfile.Common.{ℕ, ◌+◌, ◌-◌, ◌≤◌, ◌≡◌, ap, sym, ◌∙◌, arith, List, []}
use warpfile.Common.{true, false, ◌&&◌, ltb, length, drop, take, drop-length}
use warpfile.Protocol.Decoder.RoundTrip.{header_of, encode_frame-eq-ok, IsEncodable}
use warpfile.Common.{>>=-eq-ok, ok}
use warpfile.Bytes.BigEndian.{
  IsByte, IsBytes, to_be_bytes, from_be_bytes, to_be_bytes-from_be_bytes,
}
use warpfile.Bytes.Slice.{
  slice, index, slice-eq-ok, length-slice, All-of_slice, slice-inversion, drop-index, index-eq-ok,
  bytes_eq, bytes_eq→eq,
}
use warpfile.Protocol.Message.{as_u8, is_data, is_allowed_in_version, from_wire}
use warpfile.Protocol.Message.Codes.{as_u8-from_wire}
use warpfile.Protocol.Frame.{Frame, is_supported_version, wfp_magic}
use warpfile.Protocol.Frame.{max_payload_length, max_data_payload_length, header_length}
use warpfile.Protocol.Encoder.{encode_frame, frame_bytes}
use warpfile.Protocol.Decoder.{
  DecodeError, FrameHeader, validate_frame_header, decode_frame_for_version,
}

-- What `validate_frame_header` has read and tested when it returns a header.
record HeaderParts (bytes : List ℕ) (expected_version : ℕ) (h : FrameHeader)
    (flag_bytes length_bytes : List ℕ) : Type 0 where
  long : header_length ≤ length bytes
  supported : is_supported_version expected_version ≡ true
  same_version : h.version ≡ expected_version
  magic : slice {E = DecodeError} bytes 0 4 ≡ ok wfp_magic
  version_byte : index {E = DecodeError} bytes 4 ≡ ok h.version
  type_byte : index {E = DecodeError} bytes 5 ≡ ok (as_u8 h.message_type)
  allowed : is_allowed_in_version h.message_type h.version ≡ true
  flag_slice : slice {E = DecodeError} bytes 6 8 ≡ ok flag_bytes
  flags : from_be_bytes flag_bytes ≡ h.flags
  no_flags : h.flags ≡ 0
  length_slice : slice {E = DecodeError} bytes 8 12 ≡ ok length_bytes
  payload_length : from_be_bytes length_bytes ≡ h.payload_length
  fits : h.payload_length ≤ max_payload_length
  data_fits : (is_data h.message_type && ltb max_data_payload_length h.payload_length) ≡ false

module _ (bytes : List ℕ) (v : ℕ) (h : FrameHeader) where
  abbrev part : ℕ → ℕ → List ℕ
  part lo hi = take (hi - lo) (drop lo bytes)

  header_long : validate_frame_header bytes v ≡ ok h → header_length ≤ length bytes
  unfolding validate_frame_header
  header_long e = ground arith

  magic_read : header_length ≤ length bytes → slice {E = DecodeError} bytes 0 4 ≡ ok (part 0 4)
  magic_read long = slice-eq-ok bytes 0 4 (omega arith) (omega arith)

  flags_read : header_length ≤ length bytes → slice {E = DecodeError} bytes 6 8 ≡ ok (part 6 8)
  flags_read long = slice-eq-ok bytes 6 8 (omega arith) (omega arith)

  length_read : header_length ≤ length bytes → slice {E = DecodeError} bytes 8 12 ≡ ok (part 8 12)
  length_read long = slice-eq-ok bytes 8 12 (omega arith) (omega arith)

  module _ (long : header_length ≤ length bytes) (e : validate_frame_header bytes v ≡ ok h) where
    version_parts :
        (is_supported_version v ≡ true)
        × (h.version ≡ v)
        × (index {E = DecodeError} bytes 4 ≡ ok h.version)
        × (bytes_eq (part 0 4) wfp_magic ≡ true)
    unfolding validate_frame_header
    version_parts = ground (arith, magic_read long, flags_read long, length_read long)

    type_parts :
        (b : ℕ) × (index {E = DecodeError} bytes 5 ≡ ok b)
        × (from_wire h.version b ≡ ok h.message_type)
    unfolding validate_frame_header
    type_parts =
        let (b, p) = index-eq-ok {E = DecodeError} bytes 5 (omega arith) in
        (b, p, ground (arith, magic_read long, flags_read long, length_read long))

    number_parts :
        (from_be_bytes (part 6 8) ≡ h.flags)
        × (h.flags ≡ 0)
        × (from_be_bytes (part 8 12) ≡ h.payload_length)
    unfolding validate_frame_header
    number_parts = ground (arith, magic_read long, flags_read long, length_read long)

    limit_parts :
        (h.payload_length ≤ max_payload_length)
        × ((is_data h.message_type && ltb max_data_payload_length h.payload_length) ≡ false)
    unfolding validate_frame_header
    limit_parts = ground (arith, magic_read long, flags_read long, length_read long)

  header_parts : validate_frame_header bytes v ≡ ok h → HeaderParts bytes v h (part 6 8) (part 8 12)
  header_parts e =
      let long = header_long e in
      let (supported, same, version, magic) = version_parts long e in
      let (b, read, wire) = type_parts long e in
      let (code, allowed) = as_u8-from_wire h.version b h.message_type wire in
      let (flags, none, len) = number_parts long e in
      let (fits, data_fits) = limit_parts long e in
      record {
        long = long;
        supported = supported;
        same_version = same;
        magic = magic_read long ∙ ap ok (bytes_eq→eq (part 0 4) wfp_magic magic);
        version_byte = version;
        type_byte = read ∙ ap ok (sym code);
        allowed = allowed;
        flag_slice = flags_read long;
        flags = flags;
        no_flags = none;
        length_slice = length_read long;
        payload_length = len;
        fits = fits;
        data_fits = data_fits;
      }

module _ (bytes : List ℕ) (v : ℕ) (f : Frame)
    (decoded : decode_frame_for_version bytes v ≡ ok f) where
  pub decode_parts :
      (validate_frame_header bytes v ≡ ok (header_of f))
      × (slice {E = DecodeError} bytes header_length (header_length + length f.payload)
          ≡ ok f.payload)
      × (length bytes ≡ header_length + length f.payload)
  unfolding decode_frame_for_version
  decode_parts =
      let (h, p, q) = >>=-eq-ok (validate_frame_header bytes v) _ decoded in
      ground (
        arith,
        length-slice bytes header_length (header_length + h.payload_length),
        slice-eq-ok {E = DecodeError} bytes header_length (header_length + h.payload_length),
      )

  abbrev parts :
      HeaderParts bytes v (header_of f) (take (8 - 6) (drop 6 bytes)) (take (12 - 8) (drop 8 bytes))
  parts = header_parts bytes v (header_of f) decode_parts.0

  bytes-eq-frame_bytes : IsBytes bytes → bytes ≡ frame_bytes f
  unfolding frame_bytes to_be_bytes
  bytes-eq-frame_bytes b =
      let (_, p, _, _, _) = slice-inversion bytes 0 4 _ (parts.magic) in
      let (_, q, lq, _, _) = slice-inversion bytes 6 8 _ (parts.flag_slice) in
      let (_, r, lr, _, _) = slice-inversion bytes 8 12 _ (parts.length_slice) in
      let (_, s, _, _, _) =
        slice-inversion bytes header_length (header_length + length f.payload) _ (decode_parts.1) in
      let done : drop (header_length + length f.payload) bytes ≡ [] =
        rw (← decode_parts.2) (drop-length bytes) in
      let flags =
        to_be_bytes-from_be_bytes 2 _ lq (All-of_slice bytes 6 8 _ IsByte (parts.flag_slice) b) in
      let len =
        to_be_bytes-from_be_bytes 4 _ lr
          (All-of_slice bytes 8 12 _ IsByte (parts.length_slice) b) in
      p
      ∙ cc (
        q,
        r,
        s,
        done,
        flags,
        len,
        append-nil f.payload,
        parts.flags,
        parts.payload_length,
        drop-index bytes 4 _ (parts.version_byte),
        drop-index bytes 5 _ (parts.type_byte),
      )

  pub decode-IsEncodable : IsEncodable f
  decode-IsEncodable = record {
    supported = rw (parts.same_version) (parts.supported);
    allowed = parts.allowed;
    data_fits = parts.data_fits;
    fits = parts.fits;
  }

-- A frame that was decoded from a list of bytes is encoded to these very bytes, has the expected
-- version, and has no flags.
pub encode_frame-decode :
    (bytes : List ℕ) (v : ℕ) (f : Frame)
    → IsBytes bytes
    → decode_frame_for_version bytes v ≡ ok f
    → (encode_frame f ≡ ok bytes) × (f.version ≡ v) × (f.flags ≡ 0)
encode_frame-decode bytes v f b h =
    let p = bytes-eq-frame_bytes bytes v f h b in
    let e = encode_frame-eq-ok f (decode-IsEncodable bytes v f h) in
    (e ∙ ap ok (sym p), (parts bytes v f h).same_version, (parts bytes v f h).no_flags)
