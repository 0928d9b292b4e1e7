-- ===== src/Protocol/Resume/Exact.antt =====
-- `decode_resume` inverts `encode_resume` exactly.
use warpfile.Common.{ℕ, ◌≡◌, ◌≢◌, refl, sym, ◌∙◌, arith, List, [], ◌++◌}
use warpfile.Common.{length, drop, length-append, ok, panic, drop-length, ◌↔◌}
use mathlib.Core.List.{append-nil}
use warpfile.Bytes.BigEndian.{
  IsBytes, to_be_bytes, from_be_bytes, length-to_be_bytes, from_be_bytes-to_be_bytes,
}
use warpfile.Bytes.Slice.{slice, slice_array-of_slice, drop-next, slice-of_drop}
use warpfile.Bytes.Parts.{
  part, slice-eq-part, array-eq-part, part-append-drop, length-part, part-IsBytes, number-lt,
  write_back,
}
use warpfile.Protocol.Resume.{
  ResumeRequest, ResumeError, IsResumeRequest, encode_resume, decode_resume,
}

module _ (c : ResumeRequest) (valid : IsResumeRequest c) where
  abbrev number : List ℕ
  number = to_be_bytes 8 c.offset

  abbrev hash : List ℕ
  hash = c.prefix_hash

  abbrev encoded : List ℕ
  encoded = encode_resume c

  length-encode : length encoded ≡ 40
  unfolding encode_resume
  length-encode =
      omega (arith, length-append number hash, length-to_be_bytes 8 c.offset, valid.prefix_hash.0)

  at_hash : drop 8 encoded ≡ hash ++ []
  unfolding encode_resume
  at_hash =
      drop-next encoded number hash 0 8 refl (rw length-to_be_bytes refl) ∙ sym (append-nil hash)

  abbrev Field : ℕ → ℕ → List ℕ → Type 0
  Field lo hi field = slice {E = ResumeError} encoded lo hi ≡ ok field

  fields : Field 0 8 number × Field 8 40 hash
  fields =
      let l = length-encode in
      (
        (unfold encode_resume in
            slice-of_drop encoded number hash 0 8 refl (rw length-to_be_bytes refl) (omega arith)),
        slice-of_drop encoded hash [] 8 40 at_hash (omega (arith, l, valid.prefix_hash.0))
            (omega arith),
      )

  pub decode_resume-encode : decode_resume encoded ≡ ok c
  unfolding decode_resume
  decode_resume-encode =
      let (f0, f1) = fields in
      ground (
        arith,
        f0,
        slice_array-of_slice 32 encoded hash 8 40 f1 (valid.prefix_hash.0),
        length-encode,
        valid.offset,
        from_be_bytes-to_be_bytes 8 c.offset,
      )

module _ (payload : List ℕ) where
  -- `decode_resume` never panics, whatever the bytes.
  pub decode_resume-ne-panic : decode_resume payload ≢ panic
  unfolding decode_resume
  decode_resume-ne-panic h =
      let cut = slice-eq-part payload {E = ResumeError} in
      ground (arith, cut 0 8, array-eq-part payload {E = ResumeError} 32 8 40)

  record Parts (c : ResumeRequest) : Type 0 where
    long : length payload ≡ 40
    offset : c.offset ≡ from_be_bytes (part payload 0 8)
    prefix_hash : c.prefix_hash ≡ part payload 8 40

  parts : (c : ResumeRequest) → decode_resume payload ≡ ok c → Parts c
  unfolding decode_resume
  parts c h =
      let cut = slice-eq-part payload {E = ResumeError} in
      ground (arith, cut 0 8, array-eq-part payload {E = ResumeError} 32 8 40)

  module _ (c : ResumeRequest) (b : IsBytes payload) (decoded : decode_resume payload ≡ ok c) where
    abbrev got : Parts c
    got = parts c decoded

    decode-IsResumeRequest : IsResumeRequest c
    decode-IsResumeRequest = record {
      offset =
          rw (got.offset) (number-lt payload 40 (got.long) b 8 0 8 (omega arith) (omega arith));
      prefix_hash = rw (got.prefix_hash) (
        length-part payload 40 (got.long) 8 40 32 (omega arith) (omega arith),
        part-IsBytes payload 40 (got.long) b 8 40,
      );
    }

    encode_resume-decode : encode_resume c ≡ payload
    unfolding encode_resume
    encode_resume-decode =
        let done : drop 40 payload ≡ [] = rw (← got.long) (drop-length payload) in
        cc (
          got.prefix_hash,
          done,
          append-nil (part payload 8 40),
          part-append-drop payload 0 8 (omega arith),
          part-append-drop payload 8 40 (omega arith),
          write_back payload 40 (got.long) b 8 0 8 c.offset (got.offset) (omega arith)
              (omega arith),
        )

-- On a list of bytes, `decode_resume` returns a request exactly when its fields have their types
-- (a `u64` offset, a hash of 32 bytes) and `encode_resume` gives these bytes.
pub decode_resume_iff :
    (payload : List ℕ) (c : ResumeRequest)
    → IsBytes payload
    → (decode_resume payload ≡ ok c) ↔ (IsResumeRequest c × (encode_resume c ≡ payload))
decode_resume_iff payload c b = (
  (λ h. (decode-IsResumeRequest payload c b h, encode_resume-decode payload c b h)),
  (λ h. rw (← h.1) (decode_resume-encode c h.0)),
)
