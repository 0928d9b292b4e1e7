-- ===== src/Protocol/V03/ChunkStart/Exact.antt =====
-- `decode_chunk_start_v03` inverts `encode_chunk_start_v03` exactly.
use warpfile.Common.{ℕ, ◌≡◌, ◌≢◌, refl, sym, ◌∙◌, arith, List, [], ◌++◌}
use warpfile.Common.{length, drop, length-append, ok, panic, drop-length, ◌↔◌}
use mathlib.Core.List.{append-nil}
use warpfile.Bytes.BigEndian.{
  IsBytes, to_be_bytes, from_be_bytes, length-to_be_bytes, from_be_bytes-to_be_bytes,
}
use warpfile.Bytes.Slice.{slice, slice_array, slice_array-of_slice, drop-next, slice-of_drop}
use warpfile.Bytes.Parts.{
  part, array-eq-part, part-append-drop, length-part, part-IsBytes, number-lt, write_back,
}
use warpfile.Protocol.V03.ChunkStart.{
  ChunkStartV03, ChunkStartV03Error, IsChunkStartV03, encode_chunk_start_v03,
  decode_chunk_start_v03,
}

module _ (c : ChunkStartV03) (valid : IsChunkStartV03 c) where
  abbrev number : List ℕ
  number = to_be_bytes 8 c.chunk_index

  abbrev hash : List ℕ
  hash = c.expected_hash.bytes

  abbrev encoded : List ℕ
  encoded = encode_chunk_start_v03 c

  length-encode : length encoded ≡ 40
  unfolding encode_chunk_start_v03
  length-encode =
      omega (
        arith,
        length-append number hash,
        length-to_be_bytes 8 c.chunk_index,
        valid.expected_hash.0,
      )

  at_hash : drop 8 encoded ≡ hash ++ []
  unfolding encode_chunk_start_v03
  at_hash =
      drop-next encoded number hash 0 8 refl (rw length-to_be_bytes refl) ∙ sym (append-nil hash)

  abbrev Field : ℕ → ℕ → List ℕ → Type 0
  Field lo hi field = slice {E = ChunkStartV03Error} encoded lo hi ≡ ok field

  array-Field :
      (n lo hi : ℕ) (field : List ℕ)
      → Field lo hi field
      → length field ≡ n
      → slice_array {E = ChunkStartV03Error} n encoded lo hi ≡ ok field
  array-Field n lo hi field = slice_array-of_slice n encoded field lo hi

  fields : Field 0 8 number × Field 8 (length encoded) hash
  fields =
      let l = length-encode in
      (
        (unfold encode_chunk_start_v03 in
            slice-of_drop encoded number hash 0 8 refl (rw length-to_be_bytes refl) (omega arith)),
        slice-of_drop encoded hash [] 8 (length encoded) at_hash
            (omega (arith, l, valid.expected_hash.0)) (omega arith),
      )

  pub decode_chunk_start_v03-encode : decode_chunk_start_v03 encoded ≡ ok c
  unfolding decode_chunk_start_v03
  decode_chunk_start_v03-encode =
      let (f0, f1) = fields in
      ground (
        arith,
        array-Field 8 0 8 number f0 (length-to_be_bytes 8 c.chunk_index),
        array-Field 32 8 (length encoded) hash f1 (valid.expected_hash.0),
        length-encode,
        valid.chunk_index,
        from_be_bytes-to_be_bytes 8 c.chunk_index,
      )

module _ (payload : List ℕ) where
  -- `decode_chunk_start_v03` never panics, whatever the bytes.
  pub decode_chunk_start_v03-ne-panic : decode_chunk_start_v03 payload ≢ panic
  unfolding decode_chunk_start_v03
  decode_chunk_start_v03-ne-panic h =
      let array = array-eq-part payload {E = ChunkStartV03Error} in
      ground (arith, array 8 0 8, array 32 8 (length payload))

  record Parts (c : ChunkStartV03) : Type 0 where
    long : length payload ≡ 40
    chunk_index : c.chunk_index ≡ from_be_bytes (part payload 0 8)
    expected_hash : c.expected_hash.bytes ≡ part payload 8 40

  parts : (c : ChunkStartV03) → decode_chunk_start_v03 payload ≡ ok c → Parts c
  unfolding decode_chunk_start_v03
  parts c h =
      let array = array-eq-part payload {E = ChunkStartV03Error} in
      ground (arith, array 8 0 8, array 32 8 40)

  module _ (c : ChunkStartV03) (b : IsBytes payload)
      (decoded : decode_chunk_start_v03 payload ≡ ok c) where
    abbrev got : Parts c
    got = parts c decoded

    decode-IsChunkStartV03 : IsChunkStartV03 c
    decode-IsChunkStartV03 = record {
      chunk_index =
          rw (got.chunk_index)
            (number-lt payload 40 (got.long) b 8 0 8 (omega arith) (omega arith));
      expected_hash = rw (got.expected_hash) (
        length-part payload 40 (got.long) 8 40 32 (omega arith) (omega arith),
        part-IsBytes payload 40 (got.long) b 8 40,
      );
    }

    encode_chunk_start_v03-decode : encode_chunk_start_v03 c ≡ payload
    unfolding encode_chunk_start_v03
    encode_chunk_start_v03-decode =
        let done : drop 40 payload ≡ [] = rw (← got.long) (drop-length payload) in
        cc (
          got.expected_hash,
          done,
          append-nil (part payload 8 40),
          part-append-drop payload 0 8 (omega arith),
          part-append-drop payload 8 40 (omega arith),
          write_back payload 40 (got.long) b 8 0 8 c.chunk_index (got.chunk_index) (omega arith)
              (omega arith),
        )

-- On a list of bytes, `decode_chunk_start_v03` returns a value exactly when its fields have their
-- types (a `u64` index, a hash of 32 bytes) and `encode_chunk_start_v03` gives these bytes.
pub decode_chunk_start_v03_iff :
    (payload : List ℕ) (c : ChunkStartV03)
    → IsBytes payload
    → (decode_chunk_start_v03 payload ≡ ok c)
      ↔ (IsChunkStartV03 c × (encode_chunk_start_v03 c ≡ payload))
decode_chunk_start_v03_iff payload c b = (
  (λ h. (decode-IsChunkStartV03 payload c b h, encode_chunk_start_v03-decode payload c b h)),
  (λ h. rw (← h.1) (decode_chunk_start_v03-encode c h.0)),
)
