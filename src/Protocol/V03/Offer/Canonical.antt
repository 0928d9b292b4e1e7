-- ===== src/Protocol/V03/Offer/Canonical.antt =====
-- What `decode_offer_v03` accepts is the encoding of what it returns; it never panics.
use warpfile.Common.{ℕ, ◌+◌, ◌≡◌, ◌≢◌, ◌<◌, sym, arith, List, [], true}
use warpfile.Common.{length, drop, ok, panic, drop-length, ◌↔◌}
use mathlib.Core.List.{append-nil}
use warpfile.Bytes.BigEndian.{IsBytes, from_be_bytes}
use warpfile.Bytes.Parts.{
  part, slice-eq-part, array-eq-part, part-append-drop, length-part, part-IsBytes, number-lt,
  write_back,
}
use warpfile.Bytes.Words.{checked_add}
use warpfile.Bytes.Utf8.{is_utf8}
use warpfile.Protocol.V03.Offer.{
  FileOfferV03, OfferV03Error, IsFileOfferV03, encode_offer_v03, decode_offer_v03, offer_bytes,
}
use warpfile.Protocol.V03.Offer.RoundTrip.{decode_offer_v03-encode}

module _ (payload : List ℕ) where
  -- The declared length of the file name.
  abbrev n : ℕ
  n = from_be_bytes (part payload 16 18)

  -- `decode_offer_v03` never panics, whatever the bytes.
  pub decode_offer_v03-ne-panic : decode_offer_v03 payload ≢ panic
  unfolding decode_offer_v03 checked_add
  decode_offer_v03-ne-panic h =
      let cut = slice-eq-part payload {E = OfferV03Error} in
      let array = array-eq-part payload {E = OfferV03Error} in
      ground (
        arith,
        array 16 0 16,
        cut 16 18,
        cut 18 (18 + n),
        array 8 (18 + n) (18 + n + 8),
        array 8 (18 + n + 8) (length payload),
      )

  record Parts (o : FileOfferV03) : Type 0 where
    long : length payload ≡ 34 + n
    transfer_id : o.transfer_id.bytes ≡ part payload 0 16
    filename : o.filename ≡ part payload 18 (18 + n)
    utf8 : is_utf8 o.filename ≡ true
    named : 0 < n
    file_size : o.file_size ≡ from_be_bytes (part payload (18 + n) (18 + n + 8))
    chunk_size : o.chunk_size ≡ from_be_bytes (part payload (18 + n + 8) (34 + n))
    chunked : 0 < o.chunk_size

  parts : (o : FileOfferV03) → decode_offer_v03 payload ≡ ok o → Parts o
  unfolding decode_offer_v03 checked_add
  parts o h =
      let cut = slice-eq-part payload {E = OfferV03Error} in
      let array = array-eq-part payload {E = OfferV03Error} in
      ground (
        arith,
        array 16 0 16,
        cut 16 18,
        cut 18 (18 + n),
        array 8 (18 + n) (18 + n + 8),
        array 8 (18 + n + 8) (34 + n),
      )

  module _ (o : FileOfferV03) (b : IsBytes payload)
      (decoded : decode_offer_v03 payload ≡ ok o) where
    abbrev got : Parts o
    got = parts o decoded

    length-filename : length o.filename ≡ n
    length-filename =
        rw (got.filename)
          (length-part payload (34 + n) (got.long) 18 (18 + n) n (omega arith) (omega arith))

    decode-IsFileOfferV03 : IsFileOfferV03 o
    decode-IsFileOfferV03 = record {
      transfer_id = rw (got.transfer_id) (
        length-part payload (34 + n) (got.long) 0 16 16 (omega arith) (omega arith),
        part-IsBytes payload (34 + n) (got.long) b 0 16,
      );
      filename = got.utf8;
      filename_bytes = rw (got.filename) (part-IsBytes payload (34 + n) (got.long) b 18 (18 + n));
      file_size = rw (got.file_size) (
          number-lt payload (34 + n) (got.long) b 8 (18 + n) (18 + n + 8) (omega arith)
            (omega arith));
      chunk_size = rw (got.chunk_size) (
          number-lt payload (34 + n) (got.long) b 8 (18 + n + 8) (34 + n) (omega arith)
            (omega arith));
    }

    payload-eq-offer_bytes : payload ≡ offer_bytes o
    unfolding offer_bytes
    payload-eq-offer_bytes =
        let done : drop (34 + n) payload ≡ [] = rw (← got.long) (drop-length payload) in
        let back = write_back payload (34 + n) (got.long) b in
        cc (
          got.transfer_id,
          got.filename,
          done,
          append-nil (part payload (18 + n + 8) (34 + n)),
          part-append-drop payload 0 16 (omega arith),
          part-append-drop payload 16 18 (omega arith),
          part-append-drop payload 18 (18 + n) (omega arith),
          part-append-drop payload (18 + n) (18 + n + 8) (omega arith),
          part-append-drop payload (18 + n + 8) (34 + n) (omega arith),
          back 2 16 18 (length o.filename) length-filename (omega arith) (omega arith),
          back 8 (18 + n) (18 + n + 8) o.file_size (got.file_size) (omega arith) (omega arith),
          back 8 (18 + n + 8) (34 + n) o.chunk_size (got.chunk_size) (omega arith) (omega arith),
        )

    encode_offer_v03-decode : encode_offer_v03 o ≡ ok payload
    unfolding encode_offer_v03
    encode_offer_v03-decode =
        let short = number-lt payload (34 + n) (got.long) b 2 16 18 (omega arith) (omega arith) in
        ground (arith, length-filename, got.named, got.chunked, sym payload-eq-offer_bytes)

-- On a list of bytes, `decode_offer_v03` returns an offer exactly when its fields have their
-- types (an id of 16 bytes, a UTF-8 name, two `u64` sizes) and `encode_offer_v03` gives these
-- bytes.
pub decode_offer_v03_iff :
    (payload : List ℕ) (o : FileOfferV03)
    → IsBytes payload
    → (decode_offer_v03 payload ≡ ok o) ↔ (IsFileOfferV03 o × (encode_offer_v03 o ≡ ok payload))
decode_offer_v03_iff payload o b = (
  (λ h. (decode-IsFileOfferV03 payload o b h, encode_offer_v03-decode payload o b h)),
  (λ h. decode_offer_v03-encode o h.0 payload h.1),
)
