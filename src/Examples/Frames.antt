-- ===== src/Examples/Frames.antt =====
-- A CHUNK_HASHES frame of version 0.3.
use warpfile.Common.{ℕ, ◌≡◌, ◌≢◌, refl, arith, List, [], ◌∷◌, ok, panic}
use warpfile.Bytes.BigEndian.{to_be_bytes, from_be_bytes}
use warpfile.Bytes.Slice.{slice, index, bytes_eq}
use warpfile.Protocol.Message.{
  as_u8, is_data, is_allowed_in_version, from_wire, of_byte, chunk_hashes,
}
use warpfile.Protocol.Frame.{Frame, validate_version_and_message_type, is_supported_version}
use warpfile.Protocol.Encoder.{encode_frame, frame_bytes}
use warpfile.Protocol.Decoder.{decode_frame_for_version, validate_frame_header}
use warpfile.Protocol.Decoder.RoundTrip.{decode_frame-encode}
use warpfile.Protocol.Decoder.Canonical.{encode_frame-decode}
use warpfile.Protocol.Totality.{decoders-ne-panic}
use warpfile.Protocol.Offer.{decode_offer}
use warpfile.Protocol.Reject.{decode_reject}
use warpfile.Protocol.Announcement.{decode_announcement}
use warpfile.Protocol.Resume.{decode_resume}
use warpfile.Protocol.V03.Offer.{decode_offer_v03}
use warpfile.Protocol.V03.ChunkStart.{decode_chunk_start_v03}
use warpfile.Protocol.V03.ChunkHashes.{decode_chunk_hashes}
use warpfile.Protocol.V03.DataFrame.{decode_data_v03}

abbrev frame : Frame
frame = record { version = 3; message_type = chunk_hashes; flags = 0; payload = 7 ∷ [] }

abbrev frame_encoded : List ℕ
frame_encoded = 0x57 ∷ 0x46 ∷ 0x50 ∷ 0 ∷ 3 ∷ 0x15 ∷ 0 ∷ 0 ∷ 0 ∷ 0 ∷ 0 ∷ 1 ∷ 7 ∷ []

frame_encoded_lem : encode_frame frame ≡ ok frame_encoded
unfolding encode_frame frame_bytes validate_version_and_message_type is_allowed_in_version as_u8
    is_data to_be_bytes
frame_encoded_lem = refl

frame_decoded : decode_frame_for_version frame_encoded 3 ≡ ok frame
unfolding decode_frame_for_version validate_frame_header slice index bytes_eq from_be_bytes
    from_wire of_byte is_allowed_in_version is_supported_version is_data
frame_decoded = refl

decode_frame-encode_example : decode_frame_for_version frame_encoded 3 ≡ ok frame
decode_frame-encode_example = decode_frame-encode frame frame_encoded frame_encoded_lem refl

encode_frame-decode_example :
    (encode_frame frame ≡ ok frame_encoded) × (frame.version ≡ 3) × (frame.flags ≡ 0)
encode_frame-decode_example = encode_frame-decode frame_encoded 3 frame (omega arith) frame_decoded

decoders-ne-panic_example :
    (decode_frame_for_version [] 3 ≢ panic)
    × (decode_offer [] ≢ panic)
    × (decode_reject [] ≢ panic)
    × (decode_announcement [] ≢ panic)
    × (decode_resume [] ≢ panic)
    × (decode_offer_v03 [] ≢ panic)
    × (decode_chunk_start_v03 [] ≢ panic)
    × (decode_chunk_hashes [] ≢ panic)
    × (decode_data_v03 [] ≢ panic)
decoders-ne-panic_example = decoders-ne-panic [] 3
