-- ===== src/Receiver/Transfer.antt =====
-- `AcceptedReceiverV03::receive_transfer` (src/receiver_v03.rs): the frames of a transfer, up to
-- COMPLETE. What it prints for the user is left out.
pub mod Verified
pub mod Ends
pub mod Rounds
use warpfile.Common.{ℕ, zero, suc, List, Option, none, some, Bool, true, false, ◌==◌, length}
use warpfile.Common.{Result, ok, err, panic, ◌>>=◌, ◌>>◌, require, map_err}
use warpfile.Io.{ErrorKind}
use warpfile.Io.File.{RandomFile}
use warpfile.Chunk.Hash.{ChunkHash}
use warpfile.Chunk.Layout.{chunk_count}
use warpfile.Chunk.Manifest.{Hasher}
use warpfile.Protocol.Message.{MessageType, chunk_start, data_frame, complete}
use warpfile.Protocol.Message.{wfp_version_v03}
use warpfile.Protocol.Frame.{Frame}
use warpfile.Protocol.Stream.{AsyncRead, ProtocolIoError, read_frame_for_version}
use warpfile.Protocol.V03.ChunkStart.{ChunkStartV03Error, decode_chunk_start_v03}
use warpfile.Protocol.V03.DataFrame.{DataV03, DataV03Error, decode_data_v03}
use warpfile.Receiver.Chunks.{
  VerifiedChunk, ReceiverV03Error, ChunkStore, ChunkReceiverV03, require_none, begin_chunk,
  write_data, persist_verified_chunk,
}

pub data ReceiverV03TransferError : Type 0 where
  protocol : ProtocolIoError ErrorKind → ReceiverV03TransferError
  chunk_start_error : ChunkStartV03Error → ReceiverV03TransferError
  data_error : DataV03Error → ReceiverV03TransferError
  receiver : ReceiverV03Error → ReceiverV03TransferError
  unexpected_message_type : MessageType → ReceiverV03TransferError
  invalid_complete_payload : ℕ → ReceiverV03TransferError
  complete_while_chunk_active : ℕ → ReceiverV03TransferError
  complete_while_chunk_pending_persistence : ℕ → ReceiverV03TransferError
  verified_chunk_count_overflow : ℕ → ReceiverV03TransferError
  -- expected, actual
  incomplete_verified_coverage : ℕ → ℕ → ReceiverV03TransferError

-- Whether the loop goes on, or the hash that COMPLETE has brought.
pub data Progress : Type 0 where
  running : Progress
  completed : ChunkHash → Progress

module _ (H : Hasher) where
  unfoldable pub handle_chunk_start :
      ChunkReceiverV03 H → List ℕ → Result (ChunkReceiverV03 H) ReceiverV03TransferError
  handle_chunk_start r payload = do
    start ← map_err chunk_start_error (decode_chunk_start_v03 payload)
    map_err receiver (begin_chunk H r start)

  unfoldable pub handle_complete :
      ChunkReceiverV03 H → List ℕ → Result Progress ReceiverV03TransferError
  handle_complete r payload = do
    require_none r.active (λ active. complete_while_chunk_active active.range.index)
    require_none r.pending_verified
        (λ pending. complete_while_chunk_pending_persistence pending.index)
    require (length payload == 32) (invalid_complete_payload (length payload))
    let expected = chunk_count r.chunk_state.layout
    let actual = length r.chunk_state.chunks
    require (actual == expected) (incomplete_verified_coverage expected actual)
    ok (completed (record { bytes = payload }))

module _ (H : Hasher) (F : RandomFile) (S : ChunkStore) where
  open F use {File}
  open S use {Disk}

  abbrev pub Session : Type 0
  Session = ChunkReceiverV03 H × File × Disk

  -- A verified chunk is persisted at once.
  unfoldable pub persist_if_verified :
      Session → Option VerifiedChunk → Session × Result Progress ReceiverV03TransferError
  persist_if_verified s none = (s, ok running)
  persist_if_verified (r, file, disk) (some v) =
      let (s', result) = persist_verified_chunk H F S r file disk in
      (s', map_err receiver result >>= λ _. ok running)

  abbrev pub after_write :
      Disk
      → (ChunkReceiverV03 H × File) × Result (Option VerifiedChunk) ReceiverV03Error
      → Session × Result Progress ReceiverV03TransferError
  after_write disk ((r, file), ok v) = persist_if_verified (r, file, disk) v
  after_write disk ((r, file), err e) = ((r, file, disk), err (receiver e))
  after_write disk ((r, file), panic) = ((r, file, disk), panic)

  unfoldable pub handle_data : Session → List ℕ → Session × Result Progress ReceiverV03TransferError
  handle_data (r, file, disk) payload = elim (decode_data_v03 payload) [
    | ok d ↦ after_write disk (write_data H F r file d)
    | err e ↦ ((r, file, disk), err (data_error e))
    | panic ↦ ((r, file, disk), panic)
  ]

  abbrev pub started :
      Session
      → Result (ChunkReceiverV03 H) ReceiverV03TransferError
      → Session × Result Progress ReceiverV03TransferError
  started (r, file, disk) (ok r') = ((r', file, disk), ok running)
  started s (err e) = (s, err e)
  started s panic = (s, panic)

  -- The `match` on the message type.
  unfoldable pub handle_message :
      Session → List ℕ → MessageType → Session × Result Progress ReceiverV03TransferError
  handle_message s payload chunk_start = started s (handle_chunk_start H s.0 payload)
  handle_message s payload data_frame = handle_data s payload
  handle_message s payload complete = (s, handle_complete H s.0 payload)
  handle_message s payload other = (s, err (unexpected_message_type other))

  unfoldable pub handle_frame : Session → Frame → Session × Result Progress ReceiverV03TransferError
  handle_frame s frame = handle_message s frame.payload frame.message_type

module _ (H : Hasher) (F : RandomFile) (S : ChunkStore) (A : AsyncRead ErrorKind) where
  open A use {Reader}

  -- The end of a round, with the rounds that follow.
  abbrev pub next_round :
      (Session H F S
        → Reader
        → Session H F S × Result (ChunkHash × Reader) ReceiverV03TransferError)
      → Reader
      → Session H F S × Result Progress ReceiverV03TransferError
      → Session H F S × Result (ChunkHash × Reader) ReceiverV03TransferError
  next_round again reader (s, ok running) = again s reader
  next_round again reader (s, ok (completed hash)) = (s, ok (hash, reader))
  next_round again reader (s, err e) = (s, err e)
  next_round again reader (s, panic) = (s, panic)

  abbrev pub with_frame :
      (Session H F S
        → Reader
        → Session H F S × Result (ChunkHash × Reader) ReceiverV03TransferError)
      → Session H F S
      → Result (Frame × Reader) (ProtocolIoError ErrorKind)
      → Session H F S × Result (ChunkHash × Reader) ReceiverV03TransferError
  with_frame again s (ok (frame, reader)) = next_round again reader (handle_frame H F S s frame)
  with_frame again s (err e) = (s, err (protocol e))
  with_frame again s panic = (s, panic)

  -- The loop, on fuel: one unit for each frame. Without fuel it panics.
  unfoldable pub receive_transfer :
      ℕ
      → Session H F S
      → Reader
      → Session H F S × Result (ChunkHash × Reader) ReceiverV03TransferError
  receive_transfer zero s reader = (s, panic)
  receive_transfer (suc fuel) s reader =
      with_frame (receive_transfer fuel) s (read_frame_for_version A reader wfp_version_v03)
