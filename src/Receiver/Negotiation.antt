-- ===== src/Receiver/Negotiation.antt =====
-- `PreparedReceiverV03::negotiate_inventory` (src/receiver_v03.rs): RESUME with the count of the
-- recorded chunks, the batches of their hashes, and the sender's ACCEPT.
pub mod Exchange
pub mod Wire
pub mod Batches
pub mod Agreed
use warpfile.Common.{ℕ, List, [], ◌∷◌, Bool, true, false, ◌==◌, length}
use warpfile.Common.{Result, ok, ◌>>=◌, ◌>>◌, require, map_err}
use warpfile.Io.{ErrorKind}
use warpfile.Io.File.{RandomFile}
use warpfile.Chunk.Manifest.{Hasher}
use warpfile.Protocol.Message.{MessageType, wfp_version_v03, resume, chunk_hashes, accept}
use warpfile.Protocol.Frame.{FrameError, new_for_version}
use warpfile.Protocol.Stream.{
  AsyncRead, AsyncWrite, ProtocolIoError, write_frame, read_frame_for_version,
}
use warpfile.Protocol.V03.Resume.{ResumeRequestV03, encode_resume_v03}
use warpfile.Protocol.V03.ChunkHashes.{ChunkHashesBatch, ChunkHashesError, encode_chunk_hashes}
use warpfile.Receiver.Prepare.{PreparedReceiverV03, TransferIdentity}
use warpfile.Receiver.Chunks.{ChunkReceiverV03}

pub data ReceiverV03NegotiationError : Type 0 where
  frame_error : FrameError → ReceiverV03NegotiationError
  chunk_hashes_error : ChunkHashesError → ReceiverV03NegotiationError
  protocol : ProtocolIoError ErrorKind → ReceiverV03NegotiationError
  invalid_accept_payload : ℕ → ReceiverV03NegotiationError
  unexpected_message_type : MessageType → ReceiverV03NegotiationError

-- (Its path is not looked at.)
pub record AcceptedReceiverV03 (H : Hasher) (F : RandomFile) : Type 0 where
  pub file : F.File
  pub receiver : ChunkReceiverV03 H
  pub identity : TransferIdentity

abbrev pub is_accept : MessageType → Bool
is_accept accept = true
is_accept _ = false

module _ (W : AsyncWrite ErrorKind) where
  open W use {Writer}

  unfoldable pub write_message :
      Writer → MessageType → List ℕ → Result Writer ReceiverV03NegotiationError
  write_message w message_type payload = do
    frame ← map_err frame_error (new_for_version wfp_version_v03 message_type payload)
    map_err protocol (write_frame W w frame)

  -- `for batch in &self.chunk_hash_batches`
  unfoldable pub write_batches :
      Writer → List ChunkHashesBatch → Result Writer ReceiverV03NegotiationError
  write_batches w [] = ok w
  write_batches w (batch ∷ rest) = do
    payload ← map_err chunk_hashes_error (encode_chunk_hashes batch)
    w' ← write_message w chunk_hashes payload
    write_batches w' rest

  -- What is written before the answer is awaited.
  unfoldable pub announce_inventory :
      Writer → ResumeRequestV03 → List ChunkHashesBatch → Result Writer ReceiverV03NegotiationError
  announce_inventory w request batches = do
    w' ← write_message w resume (encode_resume_v03 request)
    write_batches w' batches

unfoldable pub negotiate_inventory :
    {H : Hasher} {F : RandomFile} (A : AsyncRead ErrorKind) (W : AsyncWrite ErrorKind)
    → PreparedReceiverV03 H F
    → A.Reader
    → W.Writer
    → Result (A.Reader × W.Writer × AcceptedReceiverV03 H F) ReceiverV03NegotiationError
negotiate_inventory A W p reader writer = do
  writer' ← announce_inventory W writer p.resume p.chunk_hash_batches
  (response, reader') ← map_err protocol (read_frame_for_version A reader wfp_version_v03)
  require (is_accept response.message_type) (unexpected_message_type response.message_type)
  require (length response.payload == 0) (invalid_accept_payload (length response.payload))
  ok (reader', writer', record { file = p.file; receiver = p.receiver; identity = p.identity })
