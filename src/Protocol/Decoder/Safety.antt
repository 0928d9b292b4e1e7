-- ===== src/Protocol/Decoder/Safety.antt =====
-- Decoding ends in a value or an error on every input: no index is out of bounds.
use warpfile.Common.{ℕ, ◌+◌, ◌≤◌, ◌≡◌, ◌≢◌, arith, List, length, err, panic}
use warpfile.Common.{leb, leb→le, Bool-cases, Result-cases, inl, inr}
use warpfile.Bytes.Slice.{slice-eq-ok, index-eq-ok}
use warpfile.Protocol.Message.Codes.{from_wire-ne-panic}
use warpfile.Protocol.Frame.{header_length}
use warpfile.Protocol.Decoder.{
  DecodeError, validate_frame_header, decode_frame_for_version, header_too_short,
}

module _ (bytes : List ℕ) (v : ℕ) where
  short_header :
      length bytes + 1 ≤ header_length
      → validate_frame_header bytes v ≡ err (header_too_short (length bytes))
  unfolding validate_frame_header
  short_header h = ground arith

  pub validate-ne-panic : validate_frame_header bytes v ≢ panic
  unfolding validate_frame_header
  validate-ne-panic e = elim (Bool-cases (leb header_length (length bytes))) [
    | inl long ↦
        let l : header_length ≤ length bytes = leb→le _ _ long in
        let (b4, p4) = index-eq-ok {E = DecodeError} bytes 4 (omega arith) in
        let (b5, p5) = index-eq-ok {E = DecodeError} bytes 5 (omega arith) in
        ground (
          arith,
          slice-eq-ok {E = DecodeError} bytes 0 4,
          slice-eq-ok {E = DecodeError} bytes 6 8,
          slice-eq-ok {E = DecodeError} bytes 8 12,
          from_wire-ne-panic b4 b5,
        )
    | inr short ↦ ground arith
  ]

  -- `decode_frame_for_version` never panics, whatever the bytes.
  pub decode_frame-ne-panic : decode_frame_for_version bytes v ≢ panic
  unfolding decode_frame_for_version
  decode_frame-ne-panic e = elim (Result-cases (validate_frame_header bytes v)) [
    | inl (inl (h, p)) ↦ ground (
      arith,
      slice-eq-ok {E = DecodeError} bytes header_length (header_length + h.payload_length),
    )
    | inl (inr (x, p)) ↦ cc (p)
    | inr p ↦ validate-ne-panic p
  ]
