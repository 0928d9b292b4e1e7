-- ===== src/Metadata.antt =====
-- The record that stands beside a partial file (src/transfer_metadata.rs): its data, and the text
-- of the transfer id in it.
pub mod Exact
use warpfile.Common.{ℕ, ◌*◌, List, ◌==◌, length, Result, ok, ◌>>=◌, ◌>>◌, require, ok_or}
use Prim.Native.String.{String}
use warpfile.Io.{ErrorKind}
use warpfile.Hex.{parse_pairs}
use warpfile.Protocol.TransferId.{TransferId, transfer_id_length}

pub data TransferState : Type 0 where
  partial : TransferState

pub record TransferMetadata : Type 0 where
  pub transfer_id : TransferId
  pub filename : List ℕ
  pub file_size : ℕ
  pub state : TransferState

-- An I/O error is its kind, and the text of a JSON error is left out.
pub data TransferMetadataError : Type 0 where
  io : ErrorKind → TransferMetadataError
  json : TransferMetadataError
  root_not_object : TransferMetadataError
  missing_field : String → TransferMetadataError
  invalid_field : String → TransferMetadataError
  unsupported_format_version : ℕ → TransferMetadataError
  unsupported_state : List ℕ → TransferMetadataError
  invalid_transfer_id : TransferMetadataError

unfoldable pub parse_transfer_id : List ℕ → Result TransferId TransferMetadataError
parse_transfer_id text = do
  require (length text == transfer_id_length * 2) invalid_transfer_id
  bytes ← ok_or (parse_pairs text) invalid_transfer_id
  ok (record { bytes = bytes })
