-- ===== src/Protocol/Offer/RoundTrip.antt =====
-- `decode_offer` is the inverse of `encode_offer`.
use warpfile.Common.{ℕ, ◌+◌, ◌-◌, ◌^◌, ◌≡◌, ◌≤◌, ◌<◌, refl, sym, ◌∙◌, arith, List, [], ◌++◌}
use warpfile.Common.{length, drop, length-append, ok}
use mathlib.Core.List.{append-nil}
use warpfile.Bytes.BigEndian.{to_be_bytes, length-to_be_bytes, from_be_bytes-to_be_bytes}
use warpfile.Bytes.Slice.{slice, slice_array-of_slice, drop-next, slice-of_drop}
use warpfile.Protocol.Offer.{
  FileOffer, OfferError, IsFileOffer, encode_offer, decode_offer, offer_bytes,
}

module _ (o : FileOffer) (valid : IsFileOffer o) where
  abbrev n : ℕ
  n = length o.filename

  abbrev payload : List ℕ
  payload = offer_bytes o

  abbrev name_length : List ℕ
  name_length = to_be_bytes 2 n

  abbrev size : List ℕ
  size = to_be_bytes 8 o.file_size

  length-offer_bytes : length payload ≡ 26 + n
  unfolding offer_bytes
  length-offer_bytes = omega (
    arith,
    valid.transfer_id.0,
    length-append o.transfer_id.bytes (name_length ++ (o.filename ++ size)),
    length-append name_length (o.filename ++ size),
    length-append o.filename size,
    length-to_be_bytes 2 n,
    length-to_be_bytes 8 o.file_size,
  )

  at_length : drop 16 payload ≡ name_length ++ (o.filename ++ size)
  unfolding offer_bytes
  at_length = drop-next payload o.transfer_id.bytes _ 0 16 refl (omega (arith, valid.transfer_id.0))

  at_filename : drop 18 payload ≡ o.filename ++ size
  at_filename = drop-next payload name_length _ 16 18 at_length (rw length-to_be_bytes refl)

  at_size : drop (18 + n) payload ≡ size ++ []
  at_size = drop-next payload o.filename _ 18 (18 + n) at_filename refl ∙ sym (append-nil size)

  abbrev Field : ℕ → ℕ → List ℕ → Type 0
  Field lo hi field = slice {E = OfferError} payload lo hi ≡ ok field

  fields :
      Field 0 16 o.transfer_id.bytes
      × Field 16 18 name_length
      × Field 18 (18 + n) o.filename
      × Field (18 + n) (18 + n + 8) size
  fields =
      let l = length-offer_bytes in
      (
        (unfold offer_bytes in
            slice-of_drop payload o.transfer_id.bytes _ 0 16 refl
              (omega (arith, valid.transfer_id.0)) (omega arith)),
        slice-of_drop payload name_length _ 16 18 at_length (rw length-to_be_bytes refl)
            (omega arith),
        slice-of_drop payload o.filename _ 18 (18 + n) at_filename refl (omega arith),
        slice-of_drop payload size _ (18 + n) (18 + n + 8) at_size (rw length-to_be_bytes refl)
            (omega arith),
      )

  decode-offer_bytes : 0 < n → n ≤ 2 ^ 16 - 1 → decode_offer payload ≡ ok o
  unfolding decode_offer
  decode-offer_bytes pos short =
      let (f0, f1, f2, f3) = fields in
      ground (
        arith,
        slice_array-of_slice 16 payload o.transfer_id.bytes 0 16 f0 (valid.transfer_id.0),
        f1,
        f2,
        f3,
        length-offer_bytes,
        valid.filename,
        valid.file_size,
        from_be_bytes-to_be_bytes 2 n,
        from_be_bytes-to_be_bytes 8 o.file_size,
      )

  encode_parts :
      (bytes : List ℕ) → encode_offer o ≡ ok bytes → (bytes ≡ payload) × (0 < n) × (n ≤ 2 ^ 16 - 1)
  unfolding encode_offer
  encode_parts bytes h = ground arith

  pub decode_offer-encode : (bytes : List ℕ) → encode_offer o ≡ ok bytes → decode_offer bytes ≡ ok o
  decode_offer-encode bytes h =
      let (e, pos, short) = encode_parts bytes h in rw e (decode-offer_bytes pos short)
