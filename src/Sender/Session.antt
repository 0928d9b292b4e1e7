-- ===== src/Sender/Session.antt =====
-- `send_session_v03_with_stream` (src/sender_v03.rs): the handshake, the offer, the inventory and the
-- transfer. The metadata and the name of the source file, and opening it, are arguments.
use warpfile.Common.{ℕ, List, [], ◌∷◌, Option, Bool, true, false, if◌then◌else◌, ◌==◌, length}
use warpfile.Common.{Result, ok, err, panic, ◌>>=◌, ◌>>◌, require, ok_or, map_err}
use warpfile.Bytes.Slice.{bytes_eq}
use warpfile.Io.{ErrorKind}
use warpfile.Io.Source.{Source}
use warpfile.Chunk.Layout.{ChunkLayout, ChunkLayoutError}
use warpfile.Chunk.Layout
use warpfile.Chunk.Manifest.{Hasher}
use warpfile.Protocol.Message.{MessageType, wfp_version_v03, hello, hello_ack, offer}
use warpfile.Protocol.Frame.{Frame, FrameError, new_for_version}
use warpfile.Protocol.Stream.{
  AsyncRead, AsyncWrite, ProtocolIoError, write_frame, read_frame_for_version,
}
use warpfile.Protocol.TransferId.{TransferId}
use warpfile.Protocol.V03.Offer.{OfferV03Error, encode_offer_v03}
use warpfile.Sender.Inventory.{SenderV03NegotiationError, receive_inventory_and_accept_after_resume}
use warpfile.Sender.Scan
use warpfile.Sender.Transfer.{
  SenderV03TransferError, invalid_verified_payload, is_verified,
  send_source_chunks_complete_and_verify_v03,
}

pub data SenderV03SessionError : Type 0 where
  connect : ErrorKind → SenderV03SessionError
  source_error : ErrorKind → SenderV03SessionError
  not_a_regular_file : SenderV03SessionError
  invalid_filename : SenderV03SessionError
  frame_error : FrameError → SenderV03SessionError
  protocol : ProtocolIoError ErrorKind → SenderV03SessionError
  offer_error : OfferV03Error → SenderV03SessionError
  negotiation : SenderV03NegotiationError → SenderV03SessionError
  transfer : SenderV03TransferError → SenderV03SessionError
  unexpected_message_type : MessageType → SenderV03SessionError
  invalid_hello_ack_payload : ℕ → SenderV03SessionError
  verified_chunk_count_overflow : ℕ → SenderV03SessionError

abbrev pub is_hello_ack : MessageType → Bool
is_hello_ack hello_ack = true
is_hello_ack _ = false

-- `expect`
abbrev pub expect_layout :
    Result ChunkLayout ChunkLayoutError → Result ChunkLayout SenderV03SessionError
expect_layout (ok layout) = ok layout
expect_layout (err e) = panic
expect_layout panic = panic

module _ (A : AsyncRead ErrorKind) (W : AsyncWrite ErrorKind) where
  -- `Frame::new_for_version`, then `write_frame`.
  unfoldable pub send_message :
      W.Writer → MessageType → List ℕ → Result W.Writer SenderV03SessionError
  send_message w message_type payload = do
    frame ← map_err frame_error (new_for_version wfp_version_v03 message_type payload)
    map_err protocol (write_frame W w frame)

  -- HELLO and HELLO_ACK.
  unfoldable pub greet : A.Reader → W.Writer → Result (A.Reader × W.Writer) SenderV03SessionError
  greet reader writer = do
    writer' ← send_message writer hello (wfp_version_v03 ∷ [])
    (answer, reader') ← map_err protocol (read_frame_for_version A reader wfp_version_v03)
    require (is_hello_ack answer.message_type) (unexpected_message_type answer.message_type)
    require (bytes_eq answer.payload (wfp_version_v03 ∷ []))
        (invalid_hello_ack_payload (length answer.payload))
    ok (reader', writer')

  -- The rest of the session, once the offer has its answer; VERIFIED says that the receiver has the
  -- whole file. (`usize` is 64 bits wide, so the count of the records fits.)
  unfoldable pub after_offer :
      (H : Hasher) (R : Source)
      → Result R.Reader ErrorKind
      → ChunkLayout
      → A.Reader
      → W.Writer
      → Frame
      → Result (A.Reader × W.Writer) SenderV03SessionError
  after_offer H R opened layout reader writer answer =
      if is_verified answer.message_type
      then (require (length answer.payload == 0)
            (transfer (invalid_verified_payload (length answer.payload)))
          >> ok (reader, writer))
      else (do
        (reader', writer', inventory) ←
            map_err negotiation
              (receive_inventory_and_accept_after_resume A W reader writer layout answer)
        file ← map_err source_error opened
        (reader'', writer'', file_hash) ← map_err transfer (
            send_source_chunks_complete_and_verify_v03 H R W A reader' writer'
              (Scan.new H R file inventory))
        ok (reader'', writer''))

  unfoldable pub send_session_v03_with_stream :
      (H : Hasher) (R : Source)
      → Result (Bool × ℕ) ErrorKind
      → Option (List ℕ)
      → Result R.Reader ErrorKind
      → TransferId
      → ℕ
      → A.Reader
      → W.Writer
      → Result (A.Reader × W.Writer) SenderV03SessionError
  send_session_v03_with_stream H R metadata name opened transfer_id chunk_size reader writer = do
    (is_file, file_size) ← map_err source_error metadata
    require is_file not_a_regular_file
    filename ← ok_or name invalid_filename
    (reader', writer') ← greet reader writer
    payload ← map_err offer_error (
        encode_offer_v03 (record {
          transfer_id = transfer_id;
          filename = filename;
          file_size = file_size;
          chunk_size = chunk_size;
        }))
    writer'' ← send_message writer' offer payload
    layout ← expect_layout (Layout.new file_size chunk_size)
    (answer, reader'') ← map_err protocol (read_frame_for_version A reader' wfp_version_v03)
    after_offer H R opened layout reader'' writer'' answer
