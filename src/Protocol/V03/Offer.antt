-- ===== src/Protocol/V03/Offer.antt =====
-- `FileOfferV03`, `encode_offer_v03` and `decode_offer_v03` (src/protocol/v03.rs). A file name is
-- the list of its UTF-8 bytes.
pub mod RoundTrip
pub mod Canonical
use warpfile.Common.{ℕ, ◌+◌, ◌-◌, ◌^◌, ◌≡◌, ◌<◌, List, ◌++◌, Bool, true, not, ltb, leb, ◌==◌}
use warpfile.Common.{length, Option, Result, ok, ◌>>=◌, ◌>>◌, require, ok_or}
use warpfile.Bytes.BigEndian.{IsBytes, to_be_bytes, from_be_bytes}
use warpfile.Bytes.Slice.{slice, slice_array}
use warpfile.Bytes.Utf8.{is_utf8}
use warpfile.Bytes.Words.{checked_add}
use warpfile.Protocol.TransferId.{TransferId, IsTransferId, transfer_id_length}

pub record FileOfferV03 : Type 0 where
  pub transfer_id : TransferId
  pub filename : List ℕ
  pub file_size : ℕ
  pub chunk_size : ℕ

pub data OfferV03Error : Type 0 where
  filename_empty : OfferV03Error
  filename_too_long : ℕ → OfferV03Error
  invalid_utf8 : OfferV03Error
  invalid_payload_length : OfferV03Error
  zero_chunk_size : OfferV03Error

-- What the Rust types of the fields say.
pub record IsFileOfferV03 (o : FileOfferV03) : Type 0 where
  pub transfer_id : IsTransferId o.transfer_id
  pub filename : is_utf8 o.filename ≡ true
  pub filename_bytes : IsBytes o.filename
  pub file_size : o.file_size < 256 ^ 8
  pub chunk_size : o.chunk_size < 256 ^ 8

unfoldable pub offer_bytes : FileOfferV03 → List ℕ
offer_bytes offer =
    offer.transfer_id.bytes
    ++ (to_be_bytes 2 (length offer.filename)
        ++ (offer.filename ++ (to_be_bytes 8 offer.file_size ++ to_be_bytes 8 offer.chunk_size)))

unfoldable pub encode_offer_v03 : FileOfferV03 → Result (List ℕ) OfferV03Error
encode_offer_v03 offer = do
  require (ltb 0 (length offer.filename)) filename_empty
  require (leb (length offer.filename) (2 ^ 16 - 1)) (filename_too_long (length offer.filename))
  require (not (offer.chunk_size == 0)) zero_chunk_size
  ok (offer_bytes offer)

unfoldable pub decode_offer_v03 : List ℕ → Result FileOfferV03 OfferV03Error
decode_offer_v03 payload = do
  require (leb (transfer_id_length + 2 + 16) (length payload)) invalid_payload_length
  transfer_id_bytes ← slice_array transfer_id_length payload 0 transfer_id_length
  length_bytes ← slice payload transfer_id_length (transfer_id_length + 2)
  let filename_length = from_be_bytes length_bytes
  require (not (filename_length == 0)) filename_empty
  let filename_start = transfer_id_length + 2
  filename_end ← ok_or (checked_add filename_start filename_length) invalid_payload_length
  expected_length ← ok_or (checked_add filename_end 16) invalid_payload_length
  require (length payload == expected_length) invalid_payload_length
  filename ← slice payload filename_start filename_end
  require (is_utf8 filename) invalid_utf8
  let chunk_size_start = filename_end + 8
  file_size_bytes ← slice_array 8 payload filename_end chunk_size_start
  chunk_size_bytes ← slice_array 8 payload chunk_size_start (length payload)
  let chunk_size = from_be_bytes chunk_size_bytes
  require (not (chunk_size == 0)) zero_chunk_size
  ok (record {
    transfer_id = record { bytes = transfer_id_bytes };
    filename = filename;
    file_size = from_be_bytes file_size_bytes;
    chunk_size = chunk_size;
  })
