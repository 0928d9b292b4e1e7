-- ===== src/Protocol/V03/ChunkHashes/Records.antt =====
-- The records of a batch: forty bytes each, read back one by one.
use warpfile.Common.{ℕ, zero, suc, ◌*◌, ◌≡◌, ◌≢◌, refl, sym, ap, ◌∙◌, arith}
use warpfile.Common.{
  List, [], ◌∷◌, ◌++◌, length, take, drop, length-append, length-drop, length-take,
}
use warpfile.Common.{
  All, All-take, All-drop, take-append, drop-append, take-append-drop, drop-length, length-zero,
}
use warpfile.Common.{ok, panic, >>=-eq-ok}
use mathlib.Core.List.{append-nil}
use warpfile.Bytes.BigEndian.{
  IsByte, IsBytes, to_be_bytes, from_be_bytes, length-to_be_bytes, from_be_bytes-to_be_bytes,
}
use warpfile.Bytes.Slice.{slice, slice_array-of_slice, slice-of_drop, slice-append_end}
use warpfile.Bytes.Parts.{
  part, array-eq-part, part-append-drop, length-part, part-IsBytes, number-lt, write_back,
}
use warpfile.Protocol.V03.ChunkHashes.{
  ChunkHashRecord, ChunkHashesError, IsChunkHashRecord, record_bytes, records_bytes, pieces,
  decode_record, decode_records,
}

module _ (r : ChunkHashRecord) (valid : IsChunkHashRecord r) where
  pub length-record_bytes : length (record_bytes r) ≡ 40
  unfolding record_bytes
  length-record_bytes = omega (
    arith,
    length-append (to_be_bytes 8 r.chunk_index) r.hash.bytes,
    length-to_be_bytes 8 r.chunk_index,
    valid.hash.0,
  )

  decode_record-record_bytes : decode_record (record_bytes r) ≡ ok r
  unfolding decode_record record_bytes
  decode_record-record_bytes =
      let number = to_be_bytes 8 r.chunk_index in
      let n = length-to_be_bytes 8 r.chunk_index in
      let l : length (number ++ r.hash.bytes) ≡ 40 = length-record_bytes in
      let all = number ++ r.hash.bytes in
      let f0 : slice {E = ChunkHashesError} all 0 8 ≡ ok number =
        slice-of_drop all number r.hash.bytes 0 8 refl (omega (arith, n)) (omega arith) in
      let f1 : slice {E = ChunkHashesError} all 8 (length all) ≡ ok r.hash.bytes =
        slice-append_end number r.hash.bytes 8 (length all) (omega (arith, n))
          (omega (arith, l, n, valid.hash.0)) in
      ground (
        arith,
        slice_array-of_slice 8 all number 0 8 f0 n,
        slice_array-of_slice 32 all r.hash.bytes 8 (length all) f1 (valid.hash.0),
        from_be_bytes-to_be_bytes 8 r.chunk_index,
        valid.chunk_index,
      )

pub length-records_bytes :
    (rs : List ChunkHashRecord)
    → All IsChunkHashRecord rs
    → length (records_bytes rs) ≡ 40 * length rs
unfolding records_bytes
length-records_bytes [] v = omega arith
length-records_bytes (r ∷ rs) v = omega (
  arith,
  length-append (record_bytes r) (records_bytes rs),
  length-record_bytes r v.0,
  length-records_bytes rs v.1,
)

pub decode_records-records_bytes :
    (rs : List ChunkHashRecord)
    → All IsChunkHashRecord rs
    → decode_records (pieces (length rs) 40 (records_bytes rs)) ≡ ok rs
unfolding decode_records pieces records_bytes
decode_records-records_bytes [] v = refl
decode_records-records_bytes (r ∷ rs) v =
    let l = length-record_bytes r v.0 in
    let t : take 40 (record_bytes r ++ records_bytes rs) ≡ record_bytes r =
      ap (λ n. take n (record_bytes r ++ records_bytes rs)) (sym l)
      ∙ take-append (record_bytes r) (records_bytes rs) in
    let d : drop 40 (record_bytes r ++ records_bytes rs) ≡ records_bytes rs =
      ap (λ n. drop n (record_bytes r ++ records_bytes rs)) (sym l)
      ∙ drop-append (record_bytes r) (records_bytes rs) in
    rw (t, d, decode_record-record_bytes r v.0, decode_records-records_bytes rs v.1)

module _ (bytes : List ℕ) (long : length bytes ≡ 40) where
  pub decode_record-ne-panic : decode_record bytes ≢ panic
  unfolding decode_record
  decode_record-ne-panic h =
      let array = array-eq-part bytes {E = ChunkHashesError} in
      ground (arith, array 8 0 8, array 32 8 (length bytes))

  record_parts :
      (r : ChunkHashRecord)
      → decode_record bytes ≡ ok r
      → (r.chunk_index ≡ from_be_bytes (part bytes 0 8)) × (r.hash.bytes ≡ part bytes 8 40)
  unfolding decode_record
  record_parts r h =
      let array = array-eq-part bytes {E = ChunkHashesError} in
      ground (arith, array 8 0 8, array 32 8 40)

  pub decode_record_sound :
      (r : ChunkHashRecord)
      → IsBytes bytes
      → decode_record bytes ≡ ok r
      → IsChunkHashRecord r × (record_bytes r ≡ bytes)
  unfolding record_bytes
  decode_record_sound r b h =
      let (i, hash) = record_parts r h in
      let done : drop 40 bytes ≡ [] = rw (← long) (drop-length bytes) in
      (
        record {
          chunk_index = rw i (number-lt bytes 40 long b 8 0 8 (omega arith) (omega arith));
          hash = rw hash (
            length-part bytes 40 long 8 40 32 (omega arith) (omega arith),
            part-IsBytes bytes 40 long b 8 40,
          );
        },
        cc (
          hash,
          done,
          append-nil (part bytes 8 40),
          part-append-drop bytes 0 8 (omega arith),
          part-append-drop bytes 8 40 (omega arith),
          write_back bytes 40 long b 8 0 8 r.chunk_index i (omega arith) (omega arith),
        ),
      )

-- Reading the pieces of `40 * k` bytes does not panic.
pub decode_records-ne-panic :
    (k : ℕ) (bytes : List ℕ) → length bytes ≡ 40 * k → decode_records (pieces k 40 bytes) ≢ panic
unfolding decode_records pieces
decode_records-ne-panic zero bytes l h = cc
decode_records-ne-panic (suc k) bytes l h = ground (
  arith,
  decode_record-ne-panic (take 40 bytes) (length-take 40 bytes (omega arith)),
  decode_records-ne-panic k (drop 40 bytes) (omega (arith, length-drop 40 bytes)),
)

-- What was read from `40 * k` bytes are `k` records with these bytes.
pub decode_records_sound :
    (k : ℕ) (bytes : List ℕ) (rs : List ChunkHashRecord)
    → length bytes ≡ 40 * k
    → IsBytes bytes
    → decode_records (pieces k 40 bytes) ≡ ok rs
    → All IsChunkHashRecord rs × (records_bytes rs ≡ bytes) × (length rs ≡ k)
unfolding decode_records pieces records_bytes
decode_records_sound zero bytes rs l b h =
    let e : [] ≡ rs = cc (h) in rw (← e) (tt, sym (length-zero bytes (omega arith)), refl)
decode_records_sound (suc k) bytes rs l b h =
    let (r, p, h1) = >>=-eq-ok (decode_record (take 40 bytes)) _ h in
    let (rest, q, h2) = >>=-eq-ok (decode_records (pieces k 40 (drop 40 bytes))) _ h1 in
    let (vr, er) =
      decode_record_sound (take 40 bytes) (length-take 40 bytes (omega arith)) r
        (All-take IsByte 40 bytes b) p in
    let (vs, es, n) =
      decode_records_sound k (drop 40 bytes) rest (omega (arith, length-drop 40 bytes))
        (All-drop IsByte 40 bytes b) q in
    let e : r ∷ rest ≡ rs = cc (h2) in
    rw (← e) ((vr, vs), rw (er, es) (take-append-drop 40 bytes), ap suc n)
