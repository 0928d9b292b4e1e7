-- ===== src/Sender/Transfer.antt =====
-- `send_transmit_chunk_v03`, `send_source_chunks_v03`, `send_complete_v03` and
-- `send_source_chunks_complete_and_verify_v03` (src/sender_v03.rs). What they print is left out.
use warpfile.Common.{ℕ, zero, suc, List, [], ◌∷◌, Option, none, some, Bool, true, false, ◌==◌}
use warpfile.Common.{length, take, drop, Result, ok, panic, ◌>>=◌, ◌>>◌, require, ok_or, map_err}
use warpfile.Bytes.Words.{checked_add}
use warpfile.Io.{ErrorKind}
use warpfile.Io.Source.{Source}
use warpfile.Chunk.Hash.{ChunkHash}
use warpfile.Chunk.Layout.{chunk_count}
use warpfile.Chunk.Manifest.{Hasher}
use warpfile.Protocol.Message.{
  MessageType, wfp_version_v03, chunk_start, data_frame, complete, verified,
}
use warpfile.Protocol.Frame.{FrameError, new_for_version}
use warpfile.Protocol.Stream.{
  AsyncRead, AsyncWrite, ProtocolIoError, write_frame, read_frame_for_version,
}
use warpfile.Protocol.V03.ChunkStart.{encode_chunk_start_v03}
use warpfile.Protocol.V03.DataFrame.{DataV03Error, encode_data_v03, v03_max_data_bytes}
use warpfile.Sender.Scan.{
  SourceScanV03Error, SourceChunkV03, SourceScannerV03, SourceChunkDispositionV03, reuse, transmit,
  next_chunk, finish,
}

pub data SenderV03TransferError : Type 0 where
  source_scan : SourceScanV03Error → SenderV03TransferError
  frame_error : FrameError → SenderV03TransferError
  protocol : ProtocolIoError ErrorKind → SenderV03TransferError
  data_error : DataV03Error → SenderV03TransferError
  data_length_too_large : ℕ → SenderV03TransferError
  data_offset_overflow : SenderV03TransferError
  unexpected_message_type : MessageType → SenderV03TransferError
  invalid_verified_payload : ℕ → SenderV03TransferError

module _ (W : AsyncWrite ErrorKind) where
  open W use {Writer}

  -- `Frame::new_for_version`, then `write_frame`.
  unfoldable pub send_frame : Writer → MessageType → List ℕ → Result Writer SenderV03TransferError
  send_frame w message_type payload = do
    frame ← map_err frame_error (new_for_version wfp_version_v03 message_type payload)
    map_err protocol (write_frame W w frame)

  -- One round of the loop over `chunks(V03_MAX_DATA_BYTES)`: the stream, and the next offset.
  unfoldable pub send_fragment : Writer → ℕ → List ℕ → Result (Writer × ℕ) SenderV03TransferError
  send_fragment w absolute_offset fragment = do
    payload ←
        map_err data_error
          (encode_data_v03 (record { absolute_offset = absolute_offset; bytes = fragment }))
    w' ← send_frame w data_frame payload
    next ← ok_or (checked_add absolute_offset (length fragment)) data_offset_overflow
    ok (w', next)

  -- The loop, on fuel; each round takes at least one byte.
  unfoldable pub send_fragments : ℕ → Writer → ℕ → List ℕ → Result Writer SenderV03TransferError
  send_fragments fuel w absolute_offset [] = ok w
  send_fragments zero w absolute_offset (b ∷ bs) = panic
  send_fragments (suc fuel) w absolute_offset (b ∷ bs) = do
    (w', next) ← send_fragment w absolute_offset (take v03_max_data_bytes (b ∷ bs))
    send_fragments fuel w' next (drop v03_max_data_bytes (b ∷ bs))

  unfoldable pub send_transmit_chunk_v03 :
      Writer → SourceChunkV03 → Result Writer SenderV03TransferError
  send_transmit_chunk_v03 w chunk = do
    w' ←
        send_frame w chunk_start (
          encode_chunk_start_v03 (record { chunk_index = chunk.index; expected_hash = chunk.hash }))
    send_fragments (length chunk.bytes) w' chunk.offset chunk.bytes

  -- `if chunk.disposition() == Transmit`
  abbrev pub send_if_needed :
      Writer → SourceChunkV03 → SourceChunkDispositionV03 → Result Writer SenderV03TransferError
  send_if_needed w chunk reuse = ok w
  send_if_needed w chunk transmit = send_transmit_chunk_v03 w chunk

  unfoldable pub send_complete_v03 : Writer → ChunkHash → Result Writer SenderV03TransferError
  send_complete_v03 w file_hash = send_frame w complete file_hash.bytes

-- `message_type == MessageType::Verified`
abbrev pub is_verified : MessageType → Bool
is_verified verified = true
is_verified _ = false

module _ (H : Hasher) (R : Source) (W : AsyncWrite ErrorKind) where
  open W use {Writer}

  -- What follows a call of `next_chunk` in the loop.
  abbrev pub after_chunk :
      (Writer
        → SourceScannerV03 H R
        → Result (Writer × SourceScannerV03 H R) SenderV03TransferError)
      → Writer
      → SourceScannerV03 H R × Option SourceChunkV03
      → Result (Writer × SourceScannerV03 H R) SenderV03TransferError
  after_chunk again w (s, none) = ok (w, s)
  after_chunk again w (s, some chunk) = do
    w' ← send_if_needed W w chunk chunk.disposition
    again w' s

  -- `while let Some(chunk) = scanner.next_chunk()`, on fuel: a unit for each call.
  unfoldable pub send_chunks :
      ℕ
      → Writer
      → SourceScannerV03 H R
      → Result (Writer × SourceScannerV03 H R) SenderV03TransferError
  send_chunks zero w s = panic
  send_chunks (suc fuel) w s =
      map_err source_scan (next_chunk H R s) >>= after_chunk (send_chunks fuel) w

  -- There is a call for each chunk, and one that finds the end.
  unfoldable pub send_source_chunks_v03 :
      Writer → SourceScannerV03 H R → Result (Writer × ChunkHash) SenderV03TransferError
  send_source_chunks_v03 w s = do
    (w', s') ← send_chunks (suc (chunk_count s.layout)) w s
    file_hash ← map_err source_scan (finish H R s')
    ok (w', file_hash)

  unfoldable pub send_source_chunks_and_complete_v03 :
      Writer → SourceScannerV03 H R → Result (Writer × ChunkHash) SenderV03TransferError
  send_source_chunks_and_complete_v03 w s = do
    (w', file_hash) ← send_source_chunks_v03 w s
    w'' ← send_complete_v03 W w' file_hash
    ok (w'', file_hash)

  unfoldable pub send_source_chunks_complete_and_verify_v03 :
      (A : AsyncRead ErrorKind)
      → A.Reader
      → Writer
      → SourceScannerV03 H R
      → Result (A.Reader × Writer × ChunkHash) SenderV03TransferError
  send_source_chunks_complete_and_verify_v03 A reader w s = do
    (w', file_hash) ← send_source_chunks_and_complete_v03 w s
    (answer, reader') ← map_err protocol (read_frame_for_version A reader wfp_version_v03)
    require (is_verified answer.message_type) (unexpected_message_type answer.message_type)
    require (length answer.payload == 0) (invalid_verified_payload (length answer.payload))
    ok (reader', w', file_hash)
