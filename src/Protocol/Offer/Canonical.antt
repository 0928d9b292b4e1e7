-- ===== src/Protocol/Offer/Canonical.antt =====
-- What `decode_offer` accepts is the encoding of what it returns; it never panics.
use warpfile.Common.{ℕ, ◌+◌, ◌≡◌, ◌≢◌, ◌<◌, sym, arith, List, [], true}
use warpfile.Common.{length, drop, ok, panic, drop-length, ◌↔◌}
use mathlib.Core.List.{append-nil}
use warpfile.Bytes.BigEndian.{IsBytes, from_be_bytes}
use warpfile.Bytes.Parts.{
  part, slice-eq-part, array-eq-part, part-append-drop, length-part, part-IsBytes, number-lt,
  write_back,
}
use warpfile.Bytes.Utf8.{is_utf8}
use warpfile.Protocol.Offer.{
  FileOffer, OfferError, IsFileOffer, encode_offer, decode_offer, offer_bytes,
}
use warpfile.Protocol.Offer.RoundTrip.{decode_offer-encode}

module _ (payload : List ℕ) where
  -- The declared length of the file name.
  abbrev n : ℕ
  n = from_be_bytes (part payload 16 18)

  -- `decode_offer` never panics, whatever the bytes.
  pub decode_offer-ne-panic : decode_offer payload ≢ panic
  unfolding decode_offer
  decode_offer-ne-panic h =
      let cut = slice-eq-part payload {E = OfferError} in
      let id = array-eq-part payload {E = OfferError} 16 0 16 (omega arith) in
      ground (arith, id, cut 16 18, cut 18 (18 + n), cut (18 + n) (18 + n + 8))

  record Parts (o : FileOffer) : Type 0 where
    long : length payload ≡ 26 + n
    transfer_id : o.transfer_id.bytes ≡ part payload 0 16
    filename : o.filename ≡ part payload 18 (18 + n)
    utf8 : is_utf8 o.filename ≡ true
    named : 0 < n
    file_size : o.file_size ≡ from_be_bytes (part payload (18 + n) (18 + n + 8))

  parts : (o : FileOffer) → decode_offer payload ≡ ok o → Parts o
  unfolding decode_offer
  parts o h =
      let cut = slice-eq-part payload {E = OfferError} in
      let id = array-eq-part payload {E = OfferError} 16 0 16 (omega arith) in
      ground (arith, id, cut 16 18, cut 18 (18 + n), cut (18 + n) (18 + n + 8))

  module _ (o : FileOffer) (b : IsBytes payload) (decoded : decode_offer payload ≡ ok o) where
    abbrev got : Parts o
    got = parts o decoded

    length-filename : length o.filename ≡ n
    length-filename =
        rw (got.filename)
          (length-part payload (26 + n) (got.long) 18 (18 + n) n (omega arith) (omega arith))

    decode-IsFileOffer : IsFileOffer o
    decode-IsFileOffer = record {
      transfer_id = rw (got.transfer_id) (
        length-part payload (26 + n) (got.long) 0 16 16 (omega arith) (omega arith),
        part-IsBytes payload (26 + n) (got.long) b 0 16,
      );
      filename = got.utf8;
      filename_bytes = rw (got.filename) (part-IsBytes payload (26 + n) (got.long) b 18 (18 + n));
      file_size = rw (got.file_size) (
          number-lt payload (26 + n) (got.long) b 8 (18 + n) (18 + n + 8) (omega arith)
            (omega arith));
    }

    ended : drop (18 + n + 8) payload ≡ []
    ended =
        let e : 18 + n + 8 ≡ length payload = omega (arith, got.long) in rw e (drop-length payload)

    payload-eq-offer_bytes : payload ≡ offer_bytes o
    unfolding offer_bytes
    payload-eq-offer_bytes =
        let back = write_back payload (26 + n) (got.long) b in
        cc (
          got.transfer_id,
          got.filename,
          ended,
          append-nil (part payload (18 + n) (18 + n + 8)),
          part-append-drop payload 0 16 (omega arith),
          part-append-drop payload 16 18 (omega arith),
          part-append-drop payload 18 (18 + n) (omega arith),
          part-append-drop payload (18 + n) (18 + n + 8) (omega arith),
          back 2 16 18 (length o.filename) length-filename (omega arith) (omega arith),
          back 8 (18 + n) (18 + n + 8) o.file_size (got.file_size) (omega arith) (omega arith),
        )

    encode_offer-decode : encode_offer o ≡ ok payload
    unfolding encode_offer
    encode_offer-decode =
        let short = number-lt payload (26 + n) (got.long) b 2 16 18 (omega arith) (omega arith) in
        ground (arith, length-filename, got.named, sym payload-eq-offer_bytes)

-- On a list of bytes, `decode_offer` returns an offer exactly when its fields have their types
-- (an id of 16 bytes, a UTF-8 name, a `u64` size) and `encode_offer` gives these bytes.
pub decode_offer_iff :
    (payload : List ℕ) (o : FileOffer)
    → IsBytes payload
    → (decode_offer payload ≡ ok o) ↔ (IsFileOffer o × (encode_offer o ≡ ok payload))
decode_offer_iff payload o b = (
  (λ h. (decode-IsFileOffer payload o b h, encode_offer-decode payload o b h)),
  (λ h. decode_offer-encode o h.0 payload h.1),
)
