-- ===== src/Protocol/Reject/RoundTrip.antt =====
-- Decoding an encoded rejection.
use warpfile.Common.{ℕ, ◌+◌, ◌-◌, ◌^◌, ◌%◌, ◌≡◌, ◌≤◌, refl, sym, ◌∙◌, arith, List, [], ◌++◌}
use warpfile.Common.{length, drop, ok}
use mathlib.Core.List.{append-nil}
use warpfile.Bytes.BigEndian.{to_be_bytes, length-to_be_bytes, from_be_bytes-to_be_bytes}
use warpfile.Bytes.Slice.{slice, drop-next, slice-of_drop}
use warpfile.Protocol.Reject.{
  RejectCode, FileReject, RejectError, IsFileReject, as_u16, try_from, encode_reject, decode_reject,
  reject_bytes, file_exists,
}

pub try_from-as_u16 : (c : RejectCode) → try_from (as_u16 c) ≡ ok c
unfolding try_from as_u16
try_from-as_u16 file_exists = refl
try_from-as_u16 _ = refl

pub as_u16-lt : (c : RejectCode) → as_u16 c ≤ 3
unfolding as_u16
as_u16-lt file_exists = omega arith
as_u16-lt _ = omega arith

module _ (r : FileReject) (valid : IsFileReject r) where
  abbrev n : ℕ
  n = length r.message

  abbrev payload : List ℕ
  payload = reject_bytes r

  abbrev code : List ℕ
  code = to_be_bytes 2 (as_u16 r.code)

  abbrev message_length : List ℕ
  message_length = to_be_bytes 2 (n % 2 ^ 16)

  length-reject_bytes : length payload ≡ 4 + n
  unfolding reject_bytes to_be_bytes
  length-reject_bytes = omega arith

  at_length : drop 2 payload ≡ message_length ++ r.message
  unfolding reject_bytes
  at_length = drop-next payload code _ 0 2 refl (rw length-to_be_bytes refl)

  at_message : drop 4 payload ≡ r.message ++ []
  at_message =
      drop-next payload message_length _ 2 4 at_length (rw length-to_be_bytes refl)
      ∙ sym (append-nil r.message)

  abbrev Field : ℕ → ℕ → List ℕ → Type 0
  Field lo hi field = slice {E = RejectError} payload lo hi ≡ ok field

  fields : Field 0 2 code × Field 2 4 message_length × Field 4 (length payload) r.message
  fields =
      let l = length-reject_bytes in
      (
        (unfold reject_bytes in
            slice-of_drop payload code _ 0 2 refl (rw length-to_be_bytes refl) (omega arith)),
        slice-of_drop payload message_length _ 2 4 at_length (rw length-to_be_bytes refl)
            (omega arith),
        slice-of_drop payload r.message _ 4 (length payload) at_message l (omega arith),
      )

  decode-reject_bytes : n ≤ 2 ^ 16 - 1 → decode_reject payload ≡ ok r
  unfolding decode_reject
  decode-reject_bytes short =
      let (f0, f1, f2) = fields in
      ground (
        arith,
        f0,
        f1,
        f2,
        length-reject_bytes,
        valid.message,
        try_from-as_u16 r.code,
        as_u16-lt r.code,
        from_be_bytes-to_be_bytes 2 (as_u16 r.code),
        from_be_bytes-to_be_bytes 2 (n % 2 ^ 16),
      )

  encode_parts :
      (bytes : List ℕ) → encode_reject r ≡ ok bytes → (bytes ≡ payload) × (n ≤ 2 ^ 16 - 1)
  unfolding encode_reject
  encode_parts bytes h = ground arith

  pub decode_reject-encode :
      (bytes : List ℕ) → encode_reject r ≡ ok bytes → decode_reject bytes ≡ ok r
  decode_reject-encode bytes h =
      let (e, short) = encode_parts bytes h in rw e (decode-reject_bytes short)
