-- ===== src/Protocol/V03/ChunkHashes/Exact.antt =====
-- `decode_chunk_hashes` inverts `encode_chunk_hashes` exactly, and how many records fit.
use warpfile.Common.{ℕ, ◌+◌, ◌*◌, ◌/◌, ◌-◌, ◌^◌, ◌≡◌, ◌≢◌, ◌≤◌, ◌<◌, refl, sym, ap, ◌∙◌, arith}
use warpfile.Common.{List, ◌++◌, length, All, length-append, some, ok, panic, ◌↔◌}
use warpfile.Common.{drop-length}
use mathlib.Core.List.{append-nil}
use warpfile.Bytes.BigEndian.{
  IsBytes, to_be_bytes, from_be_bytes, length-to_be_bytes, from_be_bytes-to_be_bytes,
}
use warpfile.Bytes.Slice.{slice, slice_array-of_slice, slice-of_drop, slice-append_end}
use warpfile.Bytes.Words.{checked_add, checked_mul}
use warpfile.Bytes.Parts.{
  part, slice-eq-part, array-eq-part, part-append-drop, length-part, part-IsBytes, write_back,
}
use warpfile.Protocol.Frame.{max_payload_length}
use warpfile.Protocol.V03.ChunkHashes.{
  ChunkHashesBatch, ChunkHashesError, IsChunkHashRecord, records_bytes, pieces, as_chunks,
  decode_records, checked_length, encode_chunk_hashes, decode_chunk_hashes,
}
use warpfile.Protocol.V03.ChunkHashes.Records.{
  length-records_bytes, decode_records-records_bytes, decode_records-ne-panic, decode_records_sound,
}

-- The most records that a payload of `max_payload_length` bytes holds.
abbrev pub max_records : ℕ
max_records = (max_payload_length - 4) / 40

checked_length-small : (n : ℕ) → n < 256 ^ 4 → checked_length n ≡ some (40 * n + 4)
unfolding checked_length checked_mul checked_add
checked_length-small n h = ground arith

-- `encode_chunk_hashes` succeeds exactly on the batches of at most 26214 records, the most that
-- fit the payload limit of 1 MiB.
pub encode_chunk_hashes_fits :
    (batch : ChunkHashesBatch)
    → ((bytes : List ℕ) × (encode_chunk_hashes batch ≡ ok bytes))
      ↔ (length batch.records ≤ max_records)
unfolding encode_chunk_hashes checked_length checked_mul checked_add
encode_chunk_hashes_fits batch = (
  (λ h. ground (arith, h.1)),
  (λ h. (to_be_bytes 4 (length batch.records) ++ records_bytes batch.records, ground arith)),
)

module _ (batch : ChunkHashesBatch) (valid : All IsChunkHashRecord batch.records) where
  abbrev count : ℕ
  count = length batch.records

  abbrev area : List ℕ
  area = records_bytes batch.records

  abbrev encoded : List ℕ
  encoded = to_be_bytes 4 count ++ area

  length-encoded : length encoded ≡ 4 + 40 * count
  length-encoded = omega (
    arith,
    length-append (to_be_bytes 4 count) area,
    length-to_be_bytes 4 count,
    length-records_bytes batch.records valid,
  )

  decode-area : decode_records (as_chunks area) ≡ ok batch.records
  unfolding as_chunks
  decode-area =
      let e : length area / 40 ≡ count = omega (arith, length-records_bytes batch.records valid) in
      rw e (decode_records-records_bytes batch.records valid)

  decode-encoded : count ≤ max_records → decode_chunk_hashes encoded ≡ ok batch
  unfolding decode_chunk_hashes
  decode-encoded h =
      let n = length-to_be_bytes 4 count in
      let l = length-encoded in
      let f0 : slice {E = ChunkHashesError} encoded 0 4 ≡ ok (to_be_bytes 4 count) =
        slice-of_drop encoded (to_be_bytes 4 count) area 0 4 refl (omega (arith, n))
          (omega arith) in
      let f1 : slice {E = ChunkHashesError} encoded 4 (length encoded) ≡ ok area =
        slice-append_end (to_be_bytes 4 count) area 4 (length encoded) (omega (arith, n))
          (omega (arith, l, n, length-records_bytes batch.records valid)) in
      ground (
        arith,
        slice_array-of_slice 4 encoded (to_be_bytes 4 count) 0 4 f0 n,
        f1,
        l,
        decode-area,
        checked_length-small count,
        from_be_bytes-to_be_bytes 4 count,
      )

  pub decode_chunk_hashes-encode :
      (bytes : List ℕ) → encode_chunk_hashes batch ≡ ok bytes → decode_chunk_hashes bytes ≡ ok batch
  unfolding encode_chunk_hashes checked_length checked_mul checked_add
  decode_chunk_hashes-encode bytes h = ground (arith, decode-encoded)

module _ (payload : List ℕ) where
  abbrev n : ℕ
  n = from_be_bytes (part payload 0 4)

  abbrev rest : List ℕ
  rest = part payload 4 (length payload)

  record Parts (batch : ChunkHashesBatch) : Type 0 where
    small : length payload ≤ max_payload_length
    long : length payload ≡ 4 + 40 * n
    records : decode_records (as_chunks rest) ≡ ok batch.records

  length-rest : length payload ≡ 4 + 40 * n → length rest ≡ 40 * n
  length-rest l = length-part payload (4 + 40 * n) l 4 (length payload) (40 * n) l (omega arith)

  decode-rest :
      length payload ≡ 4 + 40 * n
      → decode_records (as_chunks rest) ≡ decode_records (pieces n 40 rest)
  unfolding as_chunks
  decode-rest l =
      let e : length rest / 40 ≡ n = omega (arith, length-rest l) in
      ap (λ k. decode_records (pieces k 40 rest)) e

  -- `decode_chunk_hashes` never panics, whatever the bytes.
  pub decode_chunk_hashes-ne-panic : decode_chunk_hashes payload ≢ panic
  unfolding decode_chunk_hashes checked_length checked_mul checked_add
  decode_chunk_hashes-ne-panic h =
      let cut = slice-eq-part payload {E = ChunkHashesError} in
      let array = array-eq-part payload {E = ChunkHashesError} in
      ground (
        arith,
        array 4 0 4,
        cut 4 (length payload),
        decode-rest,
        length-rest,
        decode_records-ne-panic n rest,
      )

  parts : (batch : ChunkHashesBatch) → decode_chunk_hashes payload ≡ ok batch → Parts batch
  unfolding decode_chunk_hashes checked_length checked_mul checked_add
  parts batch h =
      let cut = slice-eq-part payload {E = ChunkHashesError} in
      let array = array-eq-part payload {E = ChunkHashesError} in
      ground (arith, array 4 0 4, cut 4 (length payload))

  module _ (batch : ChunkHashesBatch) (b : IsBytes payload)
      (decoded : decode_chunk_hashes payload ≡ ok batch) where
    abbrev got : Parts batch
    got = parts batch decoded

    sound :
        All IsChunkHashRecord batch.records
        × (records_bytes batch.records ≡ rest)
        × (length batch.records ≡ n)
    sound =
        decode_records_sound n rest batch.records (length-rest (got.long))
          (part-IsBytes payload (4 + 40 * n) (got.long) b 4 (length payload))
          (sym (decode-rest (got.long)) ∙ got.records)

    payload-eq-encoded :
        payload ≡ to_be_bytes 4 (length batch.records) ++ records_bytes batch.records
    payload-eq-encoded =
        let (_, e, k) = sound in
        let l = got.long in
        cc (
          e,
          drop-length payload,
          append-nil rest,
          part-append-drop payload 0 4 (omega arith),
          part-append-drop payload 4 (length payload) (omega arith),
          write_back payload (4 + 40 * n) l b 4 0 4 (length batch.records) k (omega arith)
              (omega arith),
        )

    encode_chunk_hashes-decode : encode_chunk_hashes batch ≡ ok payload
    unfolding encode_chunk_hashes checked_length checked_mul checked_add
    encode_chunk_hashes-decode =
        let (_, e, k) = sound in ground (arith, k, got.long, got.small, sym payload-eq-encoded)

-- On a list of bytes, `decode_chunk_hashes` returns a batch exactly when the fields of its
-- records have their types (a `u64` index, a hash of 32 bytes) and `encode_chunk_hashes` gives
-- these bytes.
pub decode_chunk_hashes_iff :
    (payload : List ℕ) (batch : ChunkHashesBatch)
    → IsBytes payload
    → (decode_chunk_hashes payload ≡ ok batch)
      ↔ (All IsChunkHashRecord batch.records × (encode_chunk_hashes batch ≡ ok payload))
decode_chunk_hashes_iff payload batch b = (
  (λ h. ((sound payload batch b h).0, encode_chunk_hashes-decode payload batch b h)),
  (λ h. decode_chunk_hashes-encode batch h.0 payload h.1),
)
