-- ===== src/Protocol/V03/Resume.antt =====
-- `ResumeRequestV03`, `encode_resume_v03` and `decode_resume_v03` (src/protocol/v03.rs).
pub mod Exact
use warpfile.Common.{ℕ, ◌^◌, ◌<◌, List, ◌==◌, length, Result, ok, ◌>>=◌, ◌>>◌, require}
use warpfile.Bytes.BigEndian.{to_be_bytes, from_be_bytes}

abbrev pub v03_resume_payload_length : ℕ
v03_resume_payload_length = 8

pub record ResumeRequestV03 : Type 0 where
  pub chunk_record_count : ℕ

pub data ResumeV03Error : Type 0 where
  invalid_payload_length : ℕ → ResumeV03Error

unfoldable pub encode_resume_v03 : ResumeRequestV03 → List ℕ
encode_resume_v03 request = to_be_bytes 8 request.chunk_record_count

unfoldable pub decode_resume_v03 : List ℕ → Result ResumeRequestV03 ResumeV03Error
decode_resume_v03 payload = do
  require (length payload == v03_resume_payload_length) (invalid_payload_length (length payload))
  ok (record { chunk_record_count = from_be_bytes payload })
