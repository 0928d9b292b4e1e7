-- ===== src/Sender/Complete.antt =====
-- `send_source_chunks_and_complete_v03` (src/sender_v03.rs): what a sender has sent at the end.
use warpfile.Common.{ℕ, ◌≡◌, sym, ap, ◌∙◌, List, ◌++◌, length}
use warpfile.Common.{ok_injective, ok, >>=-eq-ok, map_err, map_err-eq-ok}
use warpfile.Io.{ErrorKind}
use warpfile.Io.Source.{Source}
use warpfile.Chunk.Hash.{ChunkHash}
use warpfile.Chunk.Layout.{ChunkLayout, IsChunkLayout}
use warpfile.Chunk.Manifest.{Hasher}
use warpfile.Protocol.Message.{MessageType, complete}
use warpfile.Protocol.Frame.{new_for_version}
use warpfile.Protocol.Encoder.{frame_bytes}
use warpfile.Protocol.Stream.{AsyncWrite, write_frame}
use warpfile.Protocol.Stream.Framing.{sent-write_frame}
use warpfile.Receiver.Negotiation.Wire.{frame_v03, new_for_version-inversion}
use warpfile.Sender.Scan.{ReceiverInventoryV03}
use warpfile.Sender.Scan
use warpfile.Sender.Scan.Whole.{send_source_chunks_v03_sound}
use warpfile.Sender.Transfer.{
  frame_error, protocol, send_frame, send_complete_v03, send_source_chunks_v03,
  send_source_chunks_and_complete_v03,
}

module _ (W : AsyncWrite ErrorKind) where
  open W use {Writer, sent, flushed}

  sent-send_frame :
      (w w' : Writer) (t : MessageType) (payload : List ℕ)
      → send_frame W w t payload ≡ ok w'
      → (sent w' ≡ sent w ++ frame_bytes (frame_v03 t payload)) × (flushed w' ≡ sent w')
  unfolding send_frame
  sent-send_frame w w' t payload h =
      let (f, p, q) = >>=-eq-ok (map_err frame_error (new_for_version 3 t payload)) _ h in
      let e =
        new_for_version-inversion t payload f
          (map_err-eq-ok frame_error (new_for_version 3 t payload) p) in
      let (_, grown, all) =
        sent-write_frame W w w' f (map_err-eq-ok protocol (write_frame W w f) q) in
      (grown ∙ ap (λ z. sent w ++ frame_bytes z) e, all)

-- When `send_source_chunks_and_complete_v03` succeeds with a fresh scanner: the source has exactly as
-- many bytes as the layout says, and the last frame that was sent is a COMPLETE whose payload is the
-- digest of all of them; all that was sent is flushed.
pub send_source_chunks_and_complete_v03_sound :
    (H : Hasher) (R : Source) (l : ChunkLayout) (valid : IsChunkLayout l) (W : AsyncWrite ErrorKind)
    (w w' : W.Writer) (source : R.Reader) (inventory : ReceiverInventoryV03) (h : ChunkHash)
    → inventory.layout ≡ l
    → send_source_chunks_and_complete_v03 H R W w (Scan.new H R source inventory) ≡ ok (w', h)
    → (length (R.pending source) ≡ l.file_size)
      × (before : List ℕ) × (W.sent w'
          ≡ before ++ frame_bytes (frame_v03 complete (H.digest (R.pending source)).bytes))
      × (W.flushed w' ≡ W.sent w')
unfolding send_source_chunks_and_complete_v03 send_complete_v03
send_source_chunks_and_complete_v03_sound H R l valid W w w' source inventory h same e =
    let s = Scan.new H R source inventory in
    let (got, p, q) = >>=-eq-ok (send_source_chunks_v03 H R W w s) _ e in
    let (size, digest_of) =
      send_source_chunks_v03_sound H R l valid W w got.0 source inventory got.1 same p in
    let (w1, p2, q2) = >>=-eq-ok (send_complete_v03 W got.0 got.1) _ q in
    let here = ap (λ z. z.0) (ok_injective q2) in
    let (grown, all) = sent-send_frame W got.0 w1 complete got.1.bytes p2 in
    (
      size,
      W.sent got.0,
      ap W.sent (sym here)
          ∙ grown
          ∙ ap (λ z. W.sent got.0 ++ frame_bytes (frame_v03 complete z.bytes)) digest_of,
      rw here at all,
    )
