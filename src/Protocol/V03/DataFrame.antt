-- ===== src/Protocol/V03/DataFrame.antt =====
-- `DataV03`, `encode_data_v03` and `decode_data_v03` (src/protocol/v03.rs).
pub mod Exact
use warpfile.Common.{ℕ, ◌+◌, ◌-◌, ◌^◌, ◌<◌, List, ◌++◌, ◌==◌, ltb, leb, not, length}
use warpfile.Common.{Result, ok, ◌>>=◌, ◌>>◌, require}
use warpfile.Bytes.BigEndian.{IsBytes, to_be_bytes, from_be_bytes}
use warpfile.Bytes.Slice.{slice, slice_array}
use warpfile.Protocol.Frame.{max_data_payload_length}

abbrev pub v03_data_offset_length : ℕ
v03_data_offset_length = 8

abbrev pub v03_max_data_bytes : ℕ
v03_max_data_bytes = max_data_payload_length - v03_data_offset_length

-- `bytes` is the source's field `data`.
pub record DataV03 : Type 0 where
  pub absolute_offset : ℕ
  pub bytes : List ℕ

pub data DataV03Error : Type 0 where
  empty_data : DataV03Error
  invalid_payload_length : DataV03Error
  payload_too_large : ℕ → DataV03Error

-- What the Rust types of the fields say.
pub record IsDataV03 (d : DataV03) : Type 0 where
  pub absolute_offset : d.absolute_offset < 256 ^ 8
  pub bytes : IsBytes d.bytes

unfoldable pub encode_data_v03 : DataV03 → Result (List ℕ) DataV03Error
encode_data_v03 d = do
  require (ltb 0 (length d.bytes)) empty_data
  require (leb (length d.bytes) v03_max_data_bytes)
      (payload_too_large (v03_data_offset_length + length d.bytes))
  ok (to_be_bytes 8 d.absolute_offset ++ d.bytes)

unfoldable pub decode_data_v03 : List ℕ → Result DataV03 DataV03Error
decode_data_v03 payload = do
  require (leb (length payload) max_data_payload_length) (payload_too_large (length payload))
  require (leb v03_data_offset_length (length payload)) invalid_payload_length
  require (not (length payload == v03_data_offset_length)) empty_data
  offset_bytes ← slice_array v03_data_offset_length payload 0 v03_data_offset_length
  bytes ← slice payload v03_data_offset_length (length payload)
  ok (record { absolute_offset = from_be_bytes offset_bytes; bytes = bytes })
