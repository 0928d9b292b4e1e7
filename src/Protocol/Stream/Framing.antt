-- ===== src/Protocol/Stream/Framing.antt =====
-- Frames on a stream: what is written is read back, one frame at a time, and what is read is the
-- encoding of the frame that it gave.
use warpfile.Common.{
  ℕ, zero, suc, ◌≡◌, refl, sym, ap, ◌∙◌, arith, List, [], ◌∷◌, ◌++◌, length, All-of_append,
}
use warpfile.Common.{ok, map_err, map_err-eq-ok, >>=-eq-ok}
use mathlib.Core.List.{append_assoc, append-nil}
use warpfile.Bytes.BigEndian.{IsByte, IsBytes}
use warpfile.Protocol.Frame.{Frame, header_length}
use warpfile.Protocol.Encoder.{encode_frame, header_bytes, frame_bytes}
use warpfile.Protocol.Decoder.{validate_frame_header, decode_frame_for_version}
use warpfile.Protocol.Decoder.RoundTrip.{
  IsEncodable, encode_frame-inversion, length-header_bytes, validate-header_bytes,
  decode-frame_bytes, header_of,
}
use warpfile.Protocol.Decoder.Canonical.{encode_frame-decode}
use warpfile.Protocol.Stream.{
  AsyncRead, AsyncWrite, io, encode, decode, write_frame, read_payload, read_frame_for_version,
}

module _ {IoError : Type 0} (A : AsyncWrite IoError) where
  open A use {Writer, write_all, flush, sent, flushed, write_appends, flush_lem}

  -- When `write_frame` succeeds, `encode_frame` accepts the frame, and what the writer has sent
  -- has grown by exactly the encoding, all of it flushed.
  pub sent-write_frame :
      (w w' : Writer) (f : Frame)
      → write_frame A w f ≡ ok w'
      → (encode_frame f ≡ ok (frame_bytes f))
        × (sent w' ≡ sent w ++ frame_bytes f)
        × (flushed w' ≡ sent w')
  unfolding write_frame
  sent-write_frame w w' f h =
      let (bytes, p, q) = >>=-eq-ok (map_err encode (encode_frame f)) _ h in
      let e = map_err-eq-ok encode (encode_frame f) p in
      let b = (encode_frame-inversion f bytes e).1 in
      let (w1, q1, q2) = >>=-eq-ok (map_err io (write_all w bytes)) _ q in
      let a = write_appends w w1 bytes (map_err-eq-ok io (write_all w bytes) q1) in
      let (same, all) = flush_lem w1 w' (map_err-eq-ok io (flush w1) q2) in
      (e ∙ ap ok b, same ∙ a ∙ ap (λ t. sent w ++ t) b, all ∙ sym same)

module _ {IoError : Type 0} (A : AsyncRead IoError) where
  open A use {Reader, read_exact, pending, read_enough, read_only}

  read_payload_enough :
      (r : Reader) (payload rest : List ℕ)
      → pending r ≡ payload ++ rest
      → (r' : Reader) × (read_payload A r (length payload) ≡ ok (payload, r')) × (pending r' ≡ rest)
  unfolding read_payload
  read_payload_enough r [] rest h = (r, refl, h)
  read_payload_enough r (b ∷ bs) rest h =
      let (r', p, q) = read_enough r (b ∷ bs) rest h in (r', ground arith, q)

  pub read_payload_only :
      (r r' : Reader) (n : ℕ) (payload : List ℕ)
      → read_payload A r n ≡ ok (payload, r')
      → pending r ≡ payload ++ pending r'
  unfolding read_payload
  read_payload_only r r' zero payload h = ground arith
  read_payload_only r r' (suc n) payload h = ground (arith, read_only r r' (suc n) payload)

  -- When a reader has the encoding of an encodable frame without flags in front,
  -- `read_frame_for_version` with the version of the frame returns that frame, and leaves exactly
  -- what stood behind its encoding.
  pub read-frame_bytes :
      (r : Reader) (f : Frame) (rest : List ℕ)
      → IsEncodable f
      → f.flags ≡ 0
      → pending r ≡ frame_bytes f ++ rest
      → (r' : Reader) × (read_frame_for_version A r f.version ≡ ok (f, r')) × (pending r' ≡ rest)
  unfolding read_frame_for_version
  read-frame_bytes r f rest e flags h =
      let (r1, p1, q1) =
        read_enough r (header_bytes f) (f.payload ++ rest)
          (h ∙ unfold frame_bytes in append_assoc (header_bytes f) f.payload rest) in
      let valid : validate_frame_header (header_bytes f) f.version ≡ ok (header_of f) =
        rw append-nil at (validate-header_bytes f [] e flags) in
      let whole : decode_frame_for_version (header_bytes f ++ f.payload) f.version ≡ ok f =
        unfold frame_bytes in decode-frame_bytes f e flags in
      let (r2, p2, q2) = read_payload_enough r1 f.payload rest q1 in
      (r2, ground (arith, p1, p2, valid, length-header_bytes f, whole), q2)

  -- The calls that a successful read has made.
  pub read_parts :
      (r r' : Reader) (v : ℕ) (f : Frame)
      → read_frame_for_version A r v ≡ ok (f, r')
      → (header : List ℕ) × (payload : List ℕ) × (r1 : Reader) × (n : ℕ) × (read_exact r
            header_length
          ≡ ok (header, r1))
        × (read_payload A r1 n ≡ ok (payload, r'))
        × (decode_frame_for_version (header ++ payload) v ≡ ok f)
  unfolding read_frame_for_version
  read_parts r r' v f h =
      let (a, p, h1) = >>=-eq-ok (map_err io (read_exact r header_length)) _ h in
      let (fh, _, h2) = >>=-eq-ok (map_err decode (validate_frame_header a.0 v)) _ h1 in
      let (c, q, h3) = >>=-eq-ok (read_payload A a.1 fh.payload_length) _ h2 in
      let (g, d, h4) = >>=-eq-ok (map_err decode (decode_frame_for_version (a.0 ++ c.0) v)) _ h3 in
      (
        a.0,
        c.0,
        a.1,
        fh.payload_length,
        map_err-eq-ok io (read_exact r header_length) p,
        cc (q, h4),
        map_err-eq-ok decode (decode_frame_for_version (a.0 ++ c.0) v) d ∙ cc (h4),
      )

  -- On a reader of bytes, when `read_frame_for_version` succeeds, the frame has the expected
  -- version and no flags, `encode_frame` accepts it, and its encoding is exactly what was taken
  -- from the reader.
  pub read_sound :
      (r r' : Reader) (v : ℕ) (f : Frame)
      → IsBytes (pending r)
      → read_frame_for_version A r v ≡ ok (f, r')
      → (encode_frame f ≡ ok (frame_bytes f))
        × (pending r ≡ frame_bytes f ++ pending r')
        × (f.version ≡ v)
        × (f.flags ≡ 0)
  read_sound r r' v f b h =
      let (header, payload, r1, n, p, q, d) = read_parts r r' v f h in
      let whole : pending r ≡ (header ++ payload) ++ pending r' =
        (read_only r r1 header_length header p).0
        ∙ ap (λ t. header ++ t) (read_payload_only r1 r' n payload q)
        ∙ sym (append_assoc header payload (pending r')) in
      let all : IsBytes (header ++ payload) =
        (All-of_append IsByte (header ++ payload) (pending r') (rw whole at b)).0 in
      let (e, ver, flags) = encode_frame-decode (header ++ payload) v f all d in
      let same : header ++ payload ≡ frame_bytes f = (encode_frame-inversion f _ e).1 in
      (e ∙ ap ok same, whole ∙ ap (λ t. t ++ pending r') same, ver, flags)
