-- ===== src/Protocol/Resume.antt =====
-- `ResumeRequest`, `encode_resume` and `decode_resume` (src/protocol/resume.rs), the RESUME of
-- version 0.2.
pub mod Exact
use warpfile.Common.{ℕ, ◌^◌, ◌<◌, ◌≡◌, List, ◌++◌, ◌==◌, length, Result, ok, ◌>>=◌, ◌>>◌, require}
use warpfile.Bytes.BigEndian.{IsBytes, to_be_bytes, from_be_bytes}
use warpfile.Bytes.Slice.{slice, slice_array}

abbrev pub resume_payload_length : ℕ
resume_payload_length = 40

abbrev pub blake3_hash_length : ℕ
blake3_hash_length = 32

pub record ResumeRequest : Type 0 where
  pub offset : ℕ
  pub prefix_hash : List ℕ

pub data ResumeError : Type 0 where
  invalid_payload_length : ℕ → ResumeError

-- What the Rust types of the fields say.
pub record IsResumeRequest (r : ResumeRequest) : Type 0 where
  pub offset : r.offset < 256 ^ 8
  pub prefix_hash : (length r.prefix_hash ≡ blake3_hash_length) × IsBytes r.prefix_hash

unfoldable pub encode_resume : ResumeRequest → List ℕ
encode_resume request = to_be_bytes 8 request.offset ++ request.prefix_hash

unfoldable pub decode_resume : List ℕ → Result ResumeRequest ResumeError
decode_resume payload = do
  require (length payload == resume_payload_length) (invalid_payload_length (length payload))
  offset_bytes ← slice payload 0 8
  prefix_hash ← slice_array 32 payload 8 40
  ok (record { offset = from_be_bytes offset_bytes; prefix_hash = prefix_hash })
