-- ===== src/Protocol/Stream/Exchange.antt =====
-- A sequence of frames from one end of a stream to the other: `write_frame` again and again, and
-- `read_frame_for_version` as often.
use mathlib.Core.List.{append_assoc, append-nil}
use warpfile.Common.{
  ℕ, zero, suc, ◌≡◌, refl, sym, ap, ◌∙◌, List, [], ◌∷◌, ◌++◌, length, All, append_cancel_left,
}
use warpfile.Common.{Result, ok, ok_injective, ◌>>=◌, >>=-eq-ok}
use warpfile.Protocol.Frame.{Frame}
use warpfile.Protocol.Encoder.{frame_bytes}
use warpfile.Protocol.Decoder.RoundTrip.{IsEncodable, encode_frame-inversion}
use warpfile.Protocol.Stream.{
  AsyncRead, AsyncWrite, ProtocolIoError, write_frame, read_frame_for_version,
}
use warpfile.Protocol.Stream.Framing.{sent-write_frame, read-frame_bytes}

unfoldable frames_bytes : List Frame → List ℕ
frames_bytes [] = []
frames_bytes (f ∷ fs) = frame_bytes f ++ frames_bytes fs

-- A frame of a version, without flags.
abbrev pub IsPlainFrame : ℕ → Frame → Type 0
IsPlainFrame version f = (f.version ≡ version) × (f.flags ≡ 0)

module _ {IoError : Type 0} (W : AsyncWrite IoError) where
  open W use {Writer, sent, flushed}

  -- One `write_frame` for each frame.
  unfoldable pub write_frames : Writer → List Frame → Result Writer (ProtocolIoError IoError)
  write_frames writer [] = ok writer
  write_frames writer (f ∷ fs) = do writer' ← write_frame W writer f; write_frames writer' fs

  sent-write_frames :
      (w w' : Writer) (fs : List Frame)
      → write_frames w fs ≡ ok w'
      → flushed w ≡ sent w
      → All IsEncodable fs × (sent w' ≡ sent w ++ frames_bytes fs) × (flushed w' ≡ sent w')
  unfolding write_frames frames_bytes
  sent-write_frames w w' [] h f =
      let e : w ≡ w' = ok_injective h in rw (← e) (tt, sym (append-nil (sent w)), f)
  sent-write_frames w w' (f ∷ fs) h _ =
      let (w1, p, q) = >>=-eq-ok (write_frame W w f) _ h in
      let (e, grown, all) = sent-write_frame W w w1 f p in
      let (encodable, more, done) = sent-write_frames w1 w' fs q all in
      (
        ((encode_frame-inversion f (frame_bytes f) e).0, encodable),
        more
            ∙ ap (λ t. t ++ frames_bytes fs) grown
            ∙ append_assoc (sent w) (frame_bytes f) (frames_bytes fs),
        done,
      )

module _ {IoError : Type 0} (A : AsyncRead IoError) where
  open A use {Reader, pending}

  -- As many calls of `read_frame_for_version`.
  unfoldable pub read_frames :
      ℕ → Reader → ℕ → Result (List Frame × Reader) (ProtocolIoError IoError)
  read_frames zero reader version = ok ([], reader)
  read_frames (suc n) reader version = do
    (f, reader') ← read_frame_for_version A reader version
    (fs, reader'') ← read_frames n reader' version
    ok (f ∷ fs, reader'')

  read-frames_bytes :
      (r : Reader) (version : ℕ) (fs : List Frame) (rest : List ℕ)
      → All IsEncodable fs
      → All (IsPlainFrame version) fs
      → pending r ≡ frames_bytes fs ++ rest
      → (r' : Reader) × (read_frames (length fs) r version ≡ ok (fs, r')) × (pending r' ≡ rest)
  unfolding read_frames frames_bytes
  read-frames_bytes r version [] rest e v h = (r, refl, h)
  read-frames_bytes r version (f ∷ fs) rest e v h =
      let (r1, p, q) =
        read-frame_bytes A r f (frames_bytes fs ++ rest) e.0 (v.0.1)
          (h ∙ append_assoc (frame_bytes f) (frames_bytes fs) rest) in
      let here : read_frame_for_version A r version ≡ ok (f, r1) =
        ap (read_frame_for_version A r) (sym (v.0.0)) ∙ p in
      let (r2, again, left) = read-frames_bytes r1 version fs rest e.1 v.1 q in
      (r2, rw (here, again) refl, left)

-- When `write_frame` succeeds for each frame of a list, on a writer where nothing waits for a flush,
-- then a reader that has what was flushed since in front reads back exactly these frames, in order,
-- with as many calls of `read_frame_for_version`, and is left with what stood behind. (The frames
-- have the version that is read, and no flags.)
pub read_frames-write_frames :
    {IoError : Type 0} (W : AsyncWrite IoError) (A : AsyncRead IoError) (w w' : W.Writer)
    (r : A.Reader) (version : ℕ) (fs : List Frame) (bytes rest : List ℕ)
    → All (IsPlainFrame version) fs
    → W.flushed w ≡ W.sent w
    → write_frames W w fs ≡ ok w'
    → W.flushed w' ≡ W.flushed w ++ bytes
    → A.pending r ≡ bytes ++ rest
    → (r' : A.Reader) × (read_frames A (length fs) r version ≡ ok (fs, r')) × (A.pending r' ≡ rest)
read_frames-write_frames W A w w' r version fs bytes rest plain clean written grown front =
    let (encodable, sent, all) = sent-write_frames W w w' fs written clean in
    let same : bytes ≡ frames_bytes fs =
      append_cancel_left (W.sent w) (sym (ap (λ t. t ++ bytes) clean) ∙ sym grown ∙ all ∙ sent) in
    read-frames_bytes A r version fs rest encodable plain (front ∙ ap (λ t. t ++ rest) same)
