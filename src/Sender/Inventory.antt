-- ===== src/Sender/Inventory.antt =====
-- `receive_inventory_and_accept` (src/sender_v03.rs): the records of the chunks that the receiver has.
use warpfile.Common.{
  ℕ, zero, suc, List, [], ◌∷◌, ◌++◌, Option, none, some, Bool, true, false, not, leb, ltb,
  if◌then◌else◌,
}
use warpfile.Common.{length, Result, ok, panic, ◌>>=◌, ◌>>◌, require, ok_or, map_err}
use warpfile.Bytes.Words.{checked_add}
use warpfile.Io.{ErrorKind}
use warpfile.Chunk.Layout.{ChunkLayout, chunk_count}
use warpfile.Chunk.State.{in_range}
use warpfile.Protocol.Message.{MessageType, wfp_version_v03, resume, chunk_hashes, accept}
use warpfile.Protocol.Frame.{Frame, FrameError, new_for_version}
use warpfile.Protocol.Stream.{
  AsyncRead, AsyncWrite, ProtocolIoError, write_frame, read_frame_for_version,
}
use warpfile.Protocol.V03.Resume.{ResumeV03Error, decode_resume_v03}
use warpfile.Protocol.V03.ChunkHashes.{ChunkHashRecord, ChunkHashesError, decode_chunk_hashes}
use warpfile.Sender.Scan.{ReceiverInventoryV03}

pub data SenderV03NegotiationError : Type 0 where
  frame_error : FrameError → SenderV03NegotiationError
  protocol : ProtocolIoError ErrorKind → SenderV03NegotiationError
  resume_error : ResumeV03Error → SenderV03NegotiationError
  chunk_hashes_error : ChunkHashesError → SenderV03NegotiationError
  unexpected_message_type : MessageType → SenderV03NegotiationError
  -- declared, chunk count
  record_count_exceeds_layout : ℕ → ℕ → SenderV03NegotiationError
  empty_chunk_hashes : SenderV03NegotiationError
  record_count_overflow : SenderV03NegotiationError
  -- declared, attempted
  record_count_overrun : ℕ → ℕ → SenderV03NegotiationError
  chunk_index_out_of_range : ℕ → SenderV03NegotiationError
  -- previous, current
  non_increasing_chunk_index : ℕ → ℕ → SenderV03NegotiationError

abbrev pub is_resume : MessageType → Bool
is_resume resume = true
is_resume _ = false

abbrev pub is_chunk_hashes : MessageType → Bool
is_chunk_hashes chunk_hashes = true
is_chunk_hashes _ = false

unfoldable pub check_increasing : Option ℕ → ℕ → Result (Unit {0}) SenderV03NegotiationError
check_increasing none current = ok tt
check_increasing (some previous) current =
    require (not (leb current previous)) (non_increasing_chunk_index previous current)

-- The loop over the records of a batch: those that were there with the new ones, and the last index.
unfoldable pub take_records :
    ChunkLayout
    → List ChunkHashRecord
    → Option ℕ
    → List ChunkHashRecord
    → Result (List ChunkHashRecord × Option ℕ) SenderV03NegotiationError
take_records layout records previous [] = ok (records, previous)
take_records layout records previous (r ∷ rs) = do
  require (in_range layout r.chunk_index) (chunk_index_out_of_range r.chunk_index)
  check_increasing previous r.chunk_index
  take_records layout (records ++ r ∷ []) (some r.chunk_index) rs

-- The payload of a CHUNK_HASHES frame, when `received` of `declared` records have come.
unfoldable pub take_batch :
    ChunkLayout
    → ℕ
    → ℕ
    → List ChunkHashRecord
    → Option ℕ
    → Frame
    → Result (ℕ × List ChunkHashRecord × Option ℕ) SenderV03NegotiationError
take_batch layout declared received records previous frame = do
  require (is_chunk_hashes frame.message_type) (unexpected_message_type frame.message_type)
  batch ← map_err chunk_hashes_error (decode_chunk_hashes frame.payload)
  require (ltb 0 (length batch.records)) empty_chunk_hashes
  total ← ok_or (checked_add received (length batch.records)) record_count_overflow
  require (leb total declared) (record_count_overrun declared total)
  (records', previous') ← take_records layout records previous batch.records
  ok (total, records', previous')

-- The records that have come, and the reader behind them.
unfoldable pub next_frame :
    (A : AsyncRead ErrorKind)
    → (ℕ
        → List ChunkHashRecord
        → Option ℕ
        → A.Reader
        → Result (List ChunkHashRecord × A.Reader) SenderV03NegotiationError)
    → ChunkLayout
    → ℕ
    → ℕ
    → List ChunkHashRecord
    → Option ℕ
    → A.Reader
    → Result (List ChunkHashRecord × A.Reader) SenderV03NegotiationError
next_frame A again layout declared received records previous reader = do
  (frame, reader') ← map_err protocol (read_frame_for_version A reader wfp_version_v03)
  (total, records', previous') ← take_batch layout declared received records previous frame
  again total records' previous' reader'

module _ (A : AsyncRead ErrorKind) where
  open A use {Reader}

  -- `while received < resume.chunk_record_count`, on fuel; each round receives a record.
  unfoldable pub receive_batches :
      ℕ
      → ChunkLayout
      → ℕ
      → ℕ
      → List ChunkHashRecord
      → Option ℕ
      → Reader
      → Result (List ChunkHashRecord × Reader) SenderV03NegotiationError
  receive_batches zero layout declared received records previous reader =
      if ltb received declared then panic else ok (records, reader)
  receive_batches (suc fuel) layout declared received records previous reader =
      if ltb received declared
      then next_frame A (receive_batches fuel layout declared) layout declared received records
          previous reader
      else ok (records, reader)

module _ (A : AsyncRead ErrorKind) (W : AsyncWrite ErrorKind) where
  unfoldable pub receive_inventory_and_accept_after_resume :
      A.Reader
      → W.Writer
      → ChunkLayout
      → Frame
      → Result (A.Reader × W.Writer × ReceiverInventoryV03) SenderV03NegotiationError
  receive_inventory_and_accept_after_resume reader writer layout resume_frame = do
    require (is_resume resume_frame.message_type)
        (unexpected_message_type resume_frame.message_type)
    request ← map_err resume_error (decode_resume_v03 resume_frame.payload)
    let declared = request.chunk_record_count
    require (leb declared (chunk_count layout))
        (record_count_exceeds_layout declared (chunk_count layout))
    (records, reader') ← receive_batches A declared layout declared 0 [] none reader
    answer ← map_err frame_error (new_for_version wfp_version_v03 accept [])
    writer' ← map_err protocol (write_frame W writer answer)
    ok (reader', writer', record { layout = layout; records = records })

  unfoldable pub receive_inventory_and_accept :
      A.Reader
      → W.Writer
      → ChunkLayout
      → Result (A.Reader × W.Writer × ReceiverInventoryV03) SenderV03NegotiationError
  receive_inventory_and_accept reader writer layout = do
    (resume_frame, reader') ← map_err protocol (read_frame_for_version A reader wfp_version_v03)
    receive_inventory_and_accept_after_resume reader' writer layout resume_frame
