-- ===== src/Protocol/Stream.antt =====
-- `write_frame`, `read_frame` and `read_frame_for_version` (src/protocol/io.rs), over any reader
-- and writer. Tokio's `read_exact`, `write_all` and `flush` are parameters.
pub mod Framing
pub mod Exchange
use warpfile.Common.{
  ℕ, ◌≡◌, List, [], ◌++◌, length, Result, ok, ◌>>=◌, ◌>>◌, map_err, ltb, if◌then◌else◌,
}
use warpfile.Protocol.Frame.{Frame, active_wfp_version, header_length}
use warpfile.Protocol.Encoder.{EncodeError, encode_frame}
use warpfile.Protocol.Decoder.{DecodeError, validate_frame_header, decode_frame_for_version}

pub data ProtocolIoError (IoError : Type 0) : Type 0 where
  io : IoError → ProtocolIoError IoError
  decode : DecodeError → ProtocolIoError IoError
  encode : EncodeError → ProtocolIoError IoError

-- A reader that yields the bytes `pending`, and then the end of the stream. `read_exact` fills the
-- whole buffer or fails.
pub record AsyncRead (IoError : Type 0) : Type 1 where
  pub Reader : Type 0
  pub pending : Reader → List ℕ
  pub read_exact : Reader → ℕ → Result (List ℕ × Reader) IoError
  pub read_enough :
      (r : Reader) (front rest : List ℕ)
      → pending r ≡ front ++ rest
      → (r' : Reader) × (read_exact r (length front) ≡ ok (front, r')) × (pending r' ≡ rest)
  pub read_only :
      (r r' : Reader) (n : ℕ) (bytes : List ℕ)
      → read_exact r n ≡ ok (bytes, r')
      → (pending r ≡ bytes ++ pending r') × (length bytes ≡ n)

-- A writer: `sent` are the bytes that it has taken, in order, and `flushed` those that it has handed
-- on. `write_all` takes its argument or fails; `flush` hands on all that was taken, or fails.
pub record AsyncWrite (IoError : Type 0) : Type 1 where
  pub Writer : Type 0
  pub sent : Writer → List ℕ
  pub flushed : Writer → List ℕ
  pub write_all : Writer → List ℕ → Result Writer IoError
  pub flush : Writer → Result Writer IoError
  pub write_appends :
      (w w' : Writer) (bytes : List ℕ) → write_all w bytes ≡ ok w' → sent w' ≡ sent w ++ bytes
  pub flush_lem : (w w' : Writer) → flush w ≡ ok w' → (sent w' ≡ sent w) × (flushed w' ≡ sent w)

module _ {IoError : Type 0} (A : AsyncWrite IoError) where
  open A use {Writer, write_all, flush}

  unfoldable pub write_frame : Writer → Frame → Result Writer (ProtocolIoError IoError)
  write_frame writer frame = do
    bytes ← map_err encode (encode_frame frame)
    writer' ← map_err io (write_all writer bytes)
    map_err io (flush writer')

module _ {IoError : Type 0} (A : AsyncRead IoError) where
  open A use {Reader, read_exact}

  -- The bytes behind the header; a frame with no payload asks for none.
  unfoldable pub read_payload : Reader → ℕ → Result (List ℕ × Reader) (ProtocolIoError IoError)
  read_payload reader payload_length =
      if ltb 0 payload_length
      then map_err io (read_exact reader payload_length)
      else ok ([], reader)

  unfoldable pub read_frame_for_version :
      Reader → ℕ → Result (Frame × Reader) (ProtocolIoError IoError)
  read_frame_for_version reader version = do
    (header, reader') ← map_err io (read_exact reader header_length)
    frame_header ← map_err decode (validate_frame_header header version)
    (payload, reader'') ← read_payload reader' frame_header.payload_length
    frame ← map_err decode (decode_frame_for_version (header ++ payload) version)
    ok (frame, reader'')

  unfoldable pub read_frame : Reader → Result (Frame × Reader) (ProtocolIoError IoError)
  read_frame reader = read_frame_for_version reader active_wfp_version
