-- ===== src/Protocol/V03/Offer/RoundTrip.antt =====
-- `decode_offer_v03` is the inverse of `encode_offer_v03`.
use warpfile.Common.{ℕ, ◌+◌, ◌-◌, ◌^◌, ◌≡◌, ◌≤◌, ◌<◌, refl, sym, ◌∙◌, arith, List, [], ◌++◌}
use warpfile.Common.{length, drop, length-append, ok}
use mathlib.Core.List.{append-nil}
use warpfile.Bytes.BigEndian.{to_be_bytes, length-to_be_bytes, from_be_bytes-to_be_bytes}
use warpfile.Bytes.Slice.{slice, slice_array, slice_array-of_slice, drop-next, slice-of_drop}
use warpfile.Bytes.Words.{checked_add}
use warpfile.Protocol.V03.Offer.{
  FileOfferV03, OfferV03Error, IsFileOfferV03, encode_offer_v03, decode_offer_v03, offer_bytes,
}

module _ (o : FileOfferV03) (valid : IsFileOfferV03 o) where
  abbrev n : ℕ
  n = length o.filename

  abbrev payload : List ℕ
  payload = offer_bytes o

  abbrev name_length : List ℕ
  name_length = to_be_bytes 2 n

  abbrev size : List ℕ
  size = to_be_bytes 8 o.file_size

  abbrev chunk : List ℕ
  chunk = to_be_bytes 8 o.chunk_size

  length-offer_bytes : length payload ≡ 34 + n
  unfolding offer_bytes
  length-offer_bytes = omega (
    arith,
    valid.transfer_id.0,
    length-append o.transfer_id.bytes (name_length ++ (o.filename ++ (size ++ chunk))),
    length-append name_length (o.filename ++ (size ++ chunk)),
    length-append o.filename (size ++ chunk),
    length-append size chunk,
    length-to_be_bytes 2 n,
    length-to_be_bytes 8 o.file_size,
    length-to_be_bytes 8 o.chunk_size,
  )

  at_length : drop 16 payload ≡ name_length ++ (o.filename ++ (size ++ chunk))
  unfolding offer_bytes
  at_length = drop-next payload o.transfer_id.bytes _ 0 16 refl (omega (arith, valid.transfer_id.0))

  at_filename : drop 18 payload ≡ o.filename ++ (size ++ chunk)
  at_filename = drop-next payload name_length _ 16 18 at_length (rw length-to_be_bytes refl)

  at_size : drop (18 + n) payload ≡ size ++ chunk
  at_size = drop-next payload o.filename _ 18 (18 + n) at_filename refl

  at_chunk : drop (18 + n + 8) payload ≡ chunk ++ []
  at_chunk =
      drop-next payload size _ (18 + n) (18 + n + 8) at_size (rw length-to_be_bytes refl)
      ∙ sym (append-nil chunk)

  abbrev Field : ℕ → ℕ → List ℕ → Type 0
  Field lo hi field = slice {E = OfferV03Error} payload lo hi ≡ ok field

  array-Field :
      (n lo hi : ℕ) (field : List ℕ)
      → Field lo hi field
      → length field ≡ n
      → slice_array {E = OfferV03Error} n payload lo hi ≡ ok field
  array-Field n lo hi field = slice_array-of_slice n payload field lo hi

  fields :
      Field 0 16 o.transfer_id.bytes
      × Field 16 18 name_length
      × Field 18 (18 + n) o.filename
      × Field (18 + n) (18 + n + 8) size
      × Field (18 + n + 8) (length payload) chunk
  fields =
      let l = length-offer_bytes in
      (
        (unfold offer_bytes in
            slice-of_drop payload o.transfer_id.bytes _ 0 16 refl
              (omega (arith, valid.transfer_id.0)) (omega arith)),
        slice-of_drop payload name_length _ 16 18 at_length (rw length-to_be_bytes refl)
            (omega arith),
        slice-of_drop payload o.filename _ 18 (18 + n) at_filename refl (omega arith),
        slice-of_drop payload size _ (18 + n) (18 + n + 8) at_size (rw length-to_be_bytes refl)
            (omega arith),
        slice-of_drop payload chunk _ (18 + n + 8) (length payload) at_chunk
            (rw (l, length-to_be_bytes) (omega arith)) (omega arith),
      )

  decode-offer_bytes : 0 < n → n ≤ 2 ^ 16 - 1 → 0 < o.chunk_size → decode_offer_v03 payload ≡ ok o
  unfolding decode_offer_v03 checked_add
  decode-offer_bytes pos short chunky =
      let (f0, f1, f2, f3, f4) = fields in
      ground (
        arith,
        array-Field 16 0 16 o.transfer_id.bytes f0 (valid.transfer_id.0),
        f1,
        f2,
        array-Field 8 (18 + n) (18 + n + 8) size f3 (length-to_be_bytes 8 o.file_size),
        array-Field 8 (18 + n + 8) (length payload) chunk f4 (length-to_be_bytes 8 o.chunk_size),
        length-offer_bytes,
        valid.filename,
        valid.file_size,
        valid.chunk_size,
        from_be_bytes-to_be_bytes 2 n,
        from_be_bytes-to_be_bytes 8 o.file_size,
        from_be_bytes-to_be_bytes 8 o.chunk_size,
      )

  encode_parts :
      (bytes : List ℕ)
      → encode_offer_v03 o ≡ ok bytes
      → (bytes ≡ payload) × (0 < n) × (n ≤ 2 ^ 16 - 1) × (0 < o.chunk_size)
  unfolding encode_offer_v03
  encode_parts bytes h = ground arith

  pub decode_offer_v03-encode :
      (bytes : List ℕ) → encode_offer_v03 o ≡ ok bytes → decode_offer_v03 bytes ≡ ok o
  decode_offer_v03-encode bytes h =
      let (e, pos, short, chunky) = encode_parts bytes h in
      rw e (decode-offer_bytes pos short chunky)
