-- ===== src/Examples/Streams.antt =====
-- A stream held in memory, as reader and as writer, and the framing theorems on it.
use warpfile.Common.{ℕ, ◌≤◌, ◌≡◌, refl, arith, List, [], ◌∷◌, ◌++◌, if◌then◌else◌}
use warpfile.Common.{length, take, drop, leb, le→leb}
use warpfile.Common.{
  take-append, drop-append, take-append-drop, length-take, length-append, Result, ok, err,
  ok_injective, sym, ap,
}
use warpfile.Io.{ErrorKind, other}
use warpfile.Bytes.BigEndian.{to_be_bytes, from_be_bytes}
use warpfile.Bytes.Slice.{slice, index, bytes_eq}
use warpfile.Protocol.Message.{
  as_u8, is_data, is_allowed_in_version, from_wire, of_byte, hello, complete,
}
use warpfile.Protocol.Frame.{Frame, validate_version_and_message_type, is_supported_version}
use warpfile.Protocol.Encoder.{encode_frame, frame_bytes}
use warpfile.Protocol.Decoder.{decode_frame_for_version, validate_frame_header}
use warpfile.Protocol.Decoder.RoundTrip.{IsEncodable}
use warpfile.Protocol.Stream.{
  AsyncRead, AsyncWrite, write_frame, read_payload, read_frame_for_version,
}
use warpfile.Protocol.Stream.Exchange.{write_frames, read_frames, read_frames-write_frames}
use warpfile.Protocol.Stream.Framing.{read-frame_bytes, read_sound}

abbrev pub read_list : List ℕ → ℕ → Result (List ℕ × List ℕ) ErrorKind
read_list r n = if leb n (length r) then ok (take n r, drop n r) else err other

pub read_list_enough :
    (r front rest : List ℕ)
    → r ≡ front ++ rest
    → (r' : List ℕ) × (read_list r (length front) ≡ ok (front, r')) × (r' ≡ rest)
read_list_enough r front rest h =
    let long : length front ≤ length (front ++ rest) = omega (arith, length-append front rest) in
    (rest, rw (h, le→leb _ _ long, take-append, drop-append) refl, refl)

pub read_list_only :
    (r r' : List ℕ) (n : ℕ) (bytes : List ℕ)
    → read_list r n ≡ ok (bytes, r')
    → (r ≡ bytes ++ r') × (length bytes ≡ n)
read_list_only r r' n bytes h = ground (arith, take-append-drop n r, length-take n r)

abbrev pub reader : AsyncRead ErrorKind
reader = record {
  Reader = List ℕ;
  pending = λ r. r;
  read_exact = read_list;
  read_enough = read_list_enough;
  read_only = read_list_only;
}

abbrev pub write_list : List ℕ → List ℕ → Result (List ℕ) ErrorKind
write_list w bytes = ok (w ++ bytes)

pub write_list_appends : (w w' bytes : List ℕ) → write_list w bytes ≡ ok w' → w' ≡ w ++ bytes
write_list_appends w w' bytes h = cc

abbrev pub writer : AsyncWrite ErrorKind
writer = record {
  Writer = List ℕ;
  sent = λ w. w;
  flushed = λ w. w;
  write_all = write_list;
  flush = λ w. ok w;
  write_appends = write_list_appends;
  flush_lem = λ w w' h. (sym (ok_injective h), sym (ok_injective h));
}

-- A writer with a buffer: what was taken, and what was flushed of it.
abbrev buffered : AsyncWrite ErrorKind
buffered = record {
  Writer = List ℕ × List ℕ;
  sent = λ w. w.0;
  flushed = λ w. w.1;
  write_all = λ w bytes. ok (w.0 ++ bytes, w.1);
  flush = λ w. ok (w.0, w.0);
  write_appends = λ w w' bytes h. sym (ap (λ p. p.0) (ok_injective h));
  flush_lem =
      λ w w' h. (sym (ap (λ p. p.0) (ok_injective h)), sym (ap (λ p. p.1) (ok_injective h)));
}

abbrev greeting : Frame
greeting = record { version = 2; message_type = hello; flags = 0; payload = 2 ∷ [] }

abbrev greeting_bytes : List ℕ
greeting_bytes = 0x57 ∷ 0x46 ∷ 0x50 ∷ 0 ∷ 2 ∷ 1 ∷ 0 ∷ 0 ∷ 0 ∷ 0 ∷ 0 ∷ 1 ∷ 2 ∷ []

greeting_written : write_frame writer (9 ∷ []) greeting ≡ ok (9 ∷ greeting_bytes)
unfolding write_frame encode_frame frame_bytes validate_version_and_message_type
    is_allowed_in_version as_u8 is_data to_be_bytes
greeting_written = refl

abbrev farewell : Frame
farewell = record { version = 2; message_type = complete; flags = 0; payload = 7 ∷ 8 ∷ [] }

abbrev farewell_bytes : List ℕ
farewell_bytes = 0x57 ∷ 0x46 ∷ 0x50 ∷ 0 ∷ 2 ∷ 48 ∷ 0 ∷ 0 ∷ 0 ∷ 0 ∷ 0 ∷ 2 ∷ 7 ∷ 8 ∷ []

abbrev both_bytes : List ℕ
both_bytes = greeting_bytes ++ farewell_bytes

both_written :
    write_frames buffered (9 ∷ [], 9 ∷ []) (greeting ∷ farewell ∷ [])
    ≡ ok (9 ∷ both_bytes, 9 ∷ both_bytes)
unfolding write_frames write_frame encode_frame frame_bytes validate_version_and_message_type
    is_allowed_in_version as_u8 is_data to_be_bytes
both_written = refl

read_frames-write_frames_example :
    (r' : List ℕ) × (read_frames reader 2 (both_bytes ++ (3 ∷ [])) 2
      ≡ ok (greeting ∷ farewell ∷ [], r'))
    × (r' ≡ 3 ∷ [])
read_frames-write_frames_example =
    read_frames-write_frames buffered reader (9 ∷ [], 9 ∷ []) (9 ∷ both_bytes, 9 ∷ both_bytes)
      (both_bytes ++ (3 ∷ [])) 2 (greeting ∷ farewell ∷ []) both_bytes (3 ∷ [])
      ((refl, refl), ((refl, refl), tt)) refl both_written refl refl

greeting-IsEncodable : IsEncodable greeting
unfolding is_supported_version is_allowed_in_version is_data
greeting-IsEncodable = record {
  supported = refl;
  allowed = refl;
  data_fits = refl;
  fits = omega arith;
}

greeting_pending : greeting_bytes ++ greeting_bytes ≡ frame_bytes greeting ++ greeting_bytes
unfolding frame_bytes as_u8 to_be_bytes
greeting_pending = refl

-- Two frames stay separate.
read-frame_bytes_example :
    (r' : List ℕ) × (read_frame_for_version reader (greeting_bytes ++ greeting_bytes) 2
      ≡ ok (greeting, r'))
    × (r' ≡ greeting_bytes)
read-frame_bytes_example =
    read-frame_bytes reader (greeting_bytes ++ greeting_bytes) greeting greeting_bytes
      greeting-IsEncodable refl greeting_pending

greeting_read : read_frame_for_version reader greeting_bytes 2 ≡ ok (greeting, [])
unfolding read_frame_for_version read_payload decode_frame_for_version validate_frame_header slice
    index bytes_eq from_be_bytes from_wire of_byte is_allowed_in_version is_supported_version
    is_data
greeting_read = refl

read_sound_example :
    (encode_frame greeting ≡ ok (frame_bytes greeting))
    × (greeting_bytes ≡ frame_bytes greeting ++ [])
    × (greeting.version ≡ 2)
    × (greeting.flags ≡ 0)
read_sound_example = read_sound reader greeting_bytes [] 2 greeting (omega arith) greeting_read
