-- ===== src/Protocol/V03/Resume/Exact.antt =====
-- `decode_resume_v03` inverts `encode_resume_v03` exactly.
use warpfile.Common.{ℕ, ◌^◌, ◌≡◌, ◌<◌, arith, List, ok, ◌↔◌}
use warpfile.Bytes.BigEndian.{
  IsBytes, length-to_be_bytes, from_be_bytes-to_be_bytes, to_be_bytes-from_be_bytes,
  from_be_bytes-lt,
}
use warpfile.Protocol.V03.Resume.{ResumeRequestV03, encode_resume_v03, decode_resume_v03}

-- On a list of bytes, `decode_resume_v03` returns a request exactly when its count is a `u64` and
-- `encode_resume_v03` gives these bytes.
pub decode_resume_v03_iff :
    (payload : List ℕ) (r : ResumeRequestV03)
    → IsBytes payload
    → (decode_resume_v03 payload ≡ ok r)
      ↔ ((r.chunk_record_count < 256 ^ 8) × (encode_resume_v03 r ≡ payload))
unfolding encode_resume_v03 decode_resume_v03
decode_resume_v03_iff payload r b = (
  (λ h. ground (arith, from_be_bytes-lt 8 payload, b, to_be_bytes-from_be_bytes 8 payload)),
  (λ h. ground (
    arith,
    length-to_be_bytes 8 r.chunk_record_count,
    from_be_bytes-to_be_bytes 8 r.chunk_record_count,
  )),
)
