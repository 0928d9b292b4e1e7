-- ===== src/Protocol/V03/DataFrame/Exact.antt =====
-- `decode_data_v03` inverts `encode_data_v03` exactly.
use warpfile.Common.{ℕ, ◌+◌, ◌-◌, ◌≡◌, ◌≢◌, ◌≤◌, ◌<◌, refl, sym, arith, List, ◌++◌}
use warpfile.Common.{length, length-append, ok, panic, drop-length, ◌↔◌}
use mathlib.Core.List.{append-nil}
use warpfile.Bytes.BigEndian.{
  IsBytes, to_be_bytes, from_be_bytes, length-to_be_bytes, from_be_bytes-to_be_bytes,
}
use warpfile.Bytes.Slice.{slice, slice_array-of_slice, slice-of_drop, slice-append_end}
use warpfile.Bytes.Parts.{
  part, slice-eq-part, array-eq-part, part-append-drop, length-part, part-IsBytes, number-lt,
  write_back,
}
use warpfile.Protocol.V03.DataFrame.{
  DataV03, DataV03Error, IsDataV03, encode_data_v03, decode_data_v03, v03_max_data_bytes,
}

module _ (d : DataV03) (valid : IsDataV03 d) where
  abbrev number : List ℕ
  number = to_be_bytes 8 d.absolute_offset

  abbrev encoded : List ℕ
  encoded = number ++ d.bytes

  length-encoded : length encoded ≡ 8 + length d.bytes
  length-encoded =
      omega (arith, length-append number d.bytes, length-to_be_bytes 8 d.absolute_offset)

  abbrev Field : ℕ → ℕ → List ℕ → Type 0
  Field lo hi field = slice {E = DataV03Error} encoded lo hi ≡ ok field

  fields : Field 0 8 number × Field 8 (length encoded) d.bytes
  fields =
      let l = length-encoded in
      let n = length-to_be_bytes 8 d.absolute_offset in
      (
        slice-of_drop encoded number d.bytes 0 8 refl (omega (arith, n)) (omega arith),
        slice-append_end number d.bytes 8 (length encoded) (omega (arith, n)) (omega (arith, l, n)),
      )

  decode-encoded :
      0 < length d.bytes → length d.bytes ≤ v03_max_data_bytes → decode_data_v03 encoded ≡ ok d
  unfolding decode_data_v03
  decode-encoded pos fits =
      let (f0, f1) = fields in
      ground (
        arith,
        slice_array-of_slice 8 encoded number 0 8 f0 (length-to_be_bytes 8 d.absolute_offset),
        f1,
        length-encoded,
        valid.absolute_offset,
        from_be_bytes-to_be_bytes 8 d.absolute_offset,
      )

  decode_data_v03-encode :
      (bytes : List ℕ) → encode_data_v03 d ≡ ok bytes → decode_data_v03 bytes ≡ ok d
  unfolding encode_data_v03
  decode_data_v03-encode bytes h = ground (arith, decode-encoded)

module _ (payload : List ℕ) where
  -- `decode_data_v03` never panics, whatever the bytes.
  pub decode_data_v03-ne-panic : decode_data_v03 payload ≢ panic
  unfolding decode_data_v03
  decode_data_v03-ne-panic h =
      let cut = slice-eq-part payload {E = DataV03Error} in
      let array = array-eq-part payload {E = DataV03Error} in
      ground (arith, array 8 0 8, cut 8 (length payload))

  record Parts (d : DataV03) : Type 0 where
    long : 8 < length payload
    short : length payload ≤ 8 + v03_max_data_bytes
    absolute_offset : d.absolute_offset ≡ from_be_bytes (part payload 0 8)
    bytes : d.bytes ≡ part payload 8 (length payload)

  parts : (d : DataV03) → decode_data_v03 payload ≡ ok d → Parts d
  unfolding decode_data_v03
  parts d h =
      let cut = slice-eq-part payload {E = DataV03Error} in
      let array = array-eq-part payload {E = DataV03Error} in
      ground (arith, array 8 0 8, cut 8 (length payload))

  module _ (d : DataV03) (b : IsBytes payload) (decoded : decode_data_v03 payload ≡ ok d) where
    abbrev got : Parts d
    got = parts d decoded

    decode-IsDataV03 : IsDataV03 d
    decode-IsDataV03 =
        let l = got.long in
        record {
          absolute_offset =
              rw (got.absolute_offset)
                (number-lt payload (length payload) refl b 8 0 8 (omega arith) (omega arith));
          bytes = rw (got.bytes) (part-IsBytes payload (length payload) refl b 8 (length payload));
        }

    payload-eq-encoded : payload ≡ to_be_bytes 8 d.absolute_offset ++ d.bytes
    payload-eq-encoded =
        let l = got.long in
        cc (
          got.bytes,
          drop-length payload,
          append-nil (part payload 8 (length payload)),
          part-append-drop payload 0 8 (omega arith),
          part-append-drop payload 8 (length payload) (omega arith),
          write_back payload (length payload) refl b 8 0 8 d.absolute_offset (got.absolute_offset)
              (omega arith) (omega arith),
        )

    length-bytes : length payload ≡ 8 + length d.bytes
    length-bytes =
        let l = got.long in
        let e : 8 + length (part payload 8 (length payload)) ≡ length payload = omega (
          arith,
          length-part payload (length payload) refl 8 (length payload) (length payload - 8)
              (omega arith) (omega arith),
        ) in
        sym (rw (got.bytes) e)

    encode_data_v03-decode : encode_data_v03 d ≡ ok payload
    unfolding encode_data_v03
    encode_data_v03-decode =
        ground (arith, length-bytes, got.long, got.short, sym payload-eq-encoded)

-- On a list of bytes, `decode_data_v03` returns a value exactly when its fields have their types
-- (a `u64` offset, bytes) and `encode_data_v03` gives these bytes.
pub decode_data_v03_iff :
    (payload : List ℕ) (d : DataV03)
    → IsBytes payload
    → (decode_data_v03 payload ≡ ok d) ↔ (IsDataV03 d × (encode_data_v03 d ≡ ok payload))
decode_data_v03_iff payload d b = (
  (λ h. (decode-IsDataV03 payload d b h, encode_data_v03-decode payload d b h)),
  (λ h. decode_data_v03-encode d h.0 payload h.1),
)
