-- ===== src/Protocol/TransferId.antt =====
-- `TransferId` (src/protocol/transfer_id.rs): sixteen bytes that name one send job.
use warpfile.Hex.{encode_hex}
use warpfile.Common.{ℕ, ◌≡◌, List, length}
use warpfile.Bytes.BigEndian.{IsBytes}

abbrev pub transfer_id_length : ℕ
transfer_id_length = 16

pub record TransferId : Type 0 where
  pub bytes : List ℕ

-- What the Rust type says: an array of sixteen `u8`.
abbrev pub IsTransferId : TransferId → Type 0
IsTransferId id = (length id.bytes ≡ transfer_id_length) × IsBytes id.bytes

-- `Display`: each byte as `{byte:02x}`.
unfoldable pub display : TransferId → List ℕ
display id = encode_hex id.bytes
