-- ===== src/Protocol/Offer.antt =====
-- `FileOffer`, `encode_offer` and `decode_offer` (src/protocol/offer.rs), the OFFER of version 0.2.
-- A file name is the list of its UTF-8 bytes.
pub mod RoundTrip
pub mod Canonical
use warpfile.Common.{ℕ, ◌+◌, ◌-◌, ◌^◌, ◌≡◌, ◌<◌, List, ◌++◌, Bool, true, not, ltb, leb, ◌==◌}
use warpfile.Common.{length, Result, ok, ◌>>=◌, ◌>>◌, require}
use warpfile.Bytes.BigEndian.{IsBytes, to_be_bytes, from_be_bytes}
use warpfile.Bytes.Slice.{slice, slice_array}
use warpfile.Bytes.Utf8.{is_utf8}
use warpfile.Protocol.TransferId.{TransferId, IsTransferId, transfer_id_length}

pub record FileOffer : Type 0 where
  pub transfer_id : TransferId
  pub filename : List ℕ
  pub file_size : ℕ

pub data OfferError : Type 0 where
  filename_empty : OfferError
  filename_too_long : ℕ → OfferError
  invalid_utf8 : OfferError
  invalid_payload_length : OfferError

-- What the Rust types of the fields say.
pub record IsFileOffer (o : FileOffer) : Type 0 where
  pub transfer_id : IsTransferId o.transfer_id
  pub filename : is_utf8 o.filename ≡ true
  pub filename_bytes : IsBytes o.filename
  pub file_size : o.file_size < 256 ^ 8

unfoldable pub offer_bytes : FileOffer → List ℕ
offer_bytes offer =
    offer.transfer_id.bytes
    ++ (to_be_bytes 2 (length offer.filename) ++ (offer.filename ++ to_be_bytes 8 offer.file_size))

unfoldable pub encode_offer : FileOffer → Result (List ℕ) OfferError
encode_offer offer = do
  require (ltb 0 (length offer.filename)) filename_empty
  require (leb (length offer.filename) (2 ^ 16 - 1)) (filename_too_long (length offer.filename))
  ok (offer_bytes offer)

unfoldable pub decode_offer : List ℕ → Result FileOffer OfferError
decode_offer payload = do
  require (leb (transfer_id_length + 2 + 8) (length payload)) invalid_payload_length
  transfer_id_bytes ← slice_array transfer_id_length payload 0 transfer_id_length
  length_bytes ← slice payload transfer_id_length (transfer_id_length + 2)
  let filename_length = from_be_bytes length_bytes
  require (not (filename_length == 0)) filename_empty
  let filename_start = transfer_id_length + 2
  let filename_end = filename_start + filename_length
  let expected_length = filename_end + 8
  require (length payload == expected_length) invalid_payload_length
  filename ← slice payload filename_start filename_end
  require (is_utf8 filename) invalid_utf8
  file_size_bytes ← slice payload filename_end (filename_end + 8)
  ok (record {
    transfer_id = record { bytes = transfer_id_bytes };
    filename = filename;
    file_size = from_be_bytes file_size_bytes;
  })
