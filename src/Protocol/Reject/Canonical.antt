-- ===== src/Protocol/Reject/Canonical.antt =====
-- What `decode_reject` accepts is the encoding of what it returns; it never panics.
use warpfile.Common.{ℕ, ◌+◌, ◌^◌, ◌%◌, ◌≡◌, ◌≢◌, ◌<◌, sym, arith, List, [], true}
use warpfile.Common.{length, drop, ok, panic, drop-length, ◌↔◌}
use mathlib.Core.List.{append-nil}
use warpfile.Bytes.BigEndian.{IsBytes, from_be_bytes}
use warpfile.Bytes.Parts.{
  part, slice-eq-part, part-append-drop, length-part, part-IsBytes, number-lt, write_back,
}
use warpfile.Bytes.Utf8.{is_utf8}
use warpfile.Protocol.Reject.{
  RejectCode, FileReject, RejectError, IsFileReject, as_u16, try_from, encode_reject, decode_reject,
  reject_bytes,
}
use warpfile.Protocol.Reject.RoundTrip.{decode_reject-encode}

as_u16-try_from : (v : ℕ) (c : RejectCode) → try_from v ≡ ok c → as_u16 c ≡ v
unfolding try_from as_u16
as_u16-try_from v c h = ground arith

try_from-ne-panic : (v : ℕ) → try_from v ≢ panic
unfolding try_from
try_from-ne-panic v h = ground arith

module _ (payload : List ℕ) where
  -- The declared length of the message.
  abbrev n : ℕ
  n = from_be_bytes (part payload 2 4)

  abbrev code_number : ℕ
  code_number = from_be_bytes (part payload 0 2)

  -- `decode_reject` never panics, whatever the bytes.
  pub decode_reject-ne-panic : decode_reject payload ≢ panic
  unfolding decode_reject
  decode_reject-ne-panic h =
      let cut = slice-eq-part payload {E = RejectError} in
      ground (arith, cut 0 2, cut 2 4, cut 4 (length payload), try_from-ne-panic code_number)

  record Parts (r : FileReject) : Type 0 where
    long : length payload ≡ 4 + n
    code : as_u16 r.code ≡ code_number
    message : r.message ≡ part payload 4 (4 + n)
    utf8 : is_utf8 r.message ≡ true

  parts : (r : FileReject) → decode_reject payload ≡ ok r → Parts r
  unfolding decode_reject
  parts r h =
      let cut = slice-eq-part payload {E = RejectError} in
      ground (arith, cut 0 2, cut 2 4, cut 4 (4 + n), as_u16-try_from code_number r.code)

  module _ (r : FileReject) (b : IsBytes payload) (decoded : decode_reject payload ≡ ok r) where
    abbrev got : Parts r
    got = parts r decoded

    length-message : length r.message ≡ n
    length-message =
        rw (got.message)
          (length-part payload (4 + n) (got.long) 4 (4 + n) n (omega arith) (omega arith))

    decode-IsFileReject : IsFileReject r
    decode-IsFileReject = record {
      message = got.utf8;
      message_bytes = rw (got.message) (part-IsBytes payload (4 + n) (got.long) b 4 (4 + n));
    }

    short : n < 256 ^ 2
    short = number-lt payload (4 + n) (got.long) b 2 2 4 (omega arith) (omega arith)

    payload-eq-reject_bytes : payload ≡ reject_bytes r
    unfolding reject_bytes
    payload-eq-reject_bytes =
        let done : drop (4 + n) payload ≡ [] = rw (← got.long) (drop-length payload) in
        let back = write_back payload (4 + n) (got.long) b in
        cc (
          got.message,
          done,
          append-nil (part payload 4 (4 + n)),
          part-append-drop payload 0 2 (omega arith),
          part-append-drop payload 2 4 (omega arith),
          part-append-drop payload 4 (4 + n) (omega arith),
          back 2 0 2 (as_u16 r.code) (got.code) (omega arith) (omega arith),
          back 2 2 4 (length r.message % 2 ^ 16) (omega (arith, length-message, short))
              (omega arith) (omega arith),
        )

    encode_reject-decode : encode_reject r ≡ ok payload
    unfolding encode_reject
    encode_reject-decode = ground (arith, short, length-message, sym payload-eq-reject_bytes)

-- On a list of bytes, `decode_reject` returns a rejection exactly when its message is UTF-8 and
-- `encode_reject` gives these bytes.
pub decode_reject_iff :
    (payload : List ℕ) (r : FileReject)
    → IsBytes payload
    → (decode_reject payload ≡ ok r) ↔ (IsFileReject r × (encode_reject r ≡ ok payload))
decode_reject_iff payload r b = (
  (λ h. (decode-IsFileReject payload r b h, encode_reject-decode payload r b h)),
  (λ h. decode_reject-encode r h.0 payload h.1),
)
