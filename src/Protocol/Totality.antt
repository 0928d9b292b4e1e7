-- ===== src/Protocol/Totality.antt =====
-- The decoders of the protocol, together: none panics, whatever it is given.
use warpfile.Common.{ℕ, List, ◌≢◌, panic}
use warpfile.Protocol.Decoder.{decode_frame_for_version}
use warpfile.Protocol.Decoder.Safety.{decode_frame-ne-panic}
use warpfile.Protocol.Offer.{decode_offer}
use warpfile.Protocol.Offer.Canonical.{decode_offer-ne-panic}
use warpfile.Protocol.Reject.{decode_reject}
use warpfile.Protocol.Reject.Canonical.{decode_reject-ne-panic}
use warpfile.Protocol.Announcement.{decode_announcement}
use warpfile.Protocol.Announcement.Canonical.{decode_announcement-ne-panic}
use warpfile.Protocol.Resume.{decode_resume}
use warpfile.Protocol.Resume.Exact.{decode_resume-ne-panic}
use warpfile.Protocol.V03.Offer.{decode_offer_v03}
use warpfile.Protocol.V03.Offer.Canonical.{decode_offer_v03-ne-panic}
use warpfile.Protocol.V03.ChunkStart.{decode_chunk_start_v03}
use warpfile.Protocol.V03.ChunkStart.Exact.{decode_chunk_start_v03-ne-panic}
use warpfile.Protocol.V03.ChunkHashes.{decode_chunk_hashes}
use warpfile.Protocol.V03.ChunkHashes.Exact.{decode_chunk_hashes-ne-panic}
use warpfile.Protocol.V03.DataFrame.{decode_data_v03}
use warpfile.Protocol.V03.DataFrame.Exact.{decode_data_v03-ne-panic}

-- On any list of numbers, the frame decoder (for any expected version) and the payload decoders of
-- both versions that cut their input into slices (offers, rejections, announcements, resume
-- requests, chunk starts, chunk hashes, data) return a value or an error: no index or slice that
-- they take is out of bounds, and no slice that they convert or copy to an array has another length.
pub decoders-ne-panic :
    (bytes : List ℕ) (version : ℕ)
    → (decode_frame_for_version bytes version ≢ panic)
      × (decode_offer bytes ≢ panic)
      × (decode_reject bytes ≢ panic)
      × (decode_announcement bytes ≢ panic)
      × (decode_resume bytes ≢ panic)
      × (decode_offer_v03 bytes ≢ panic)
      × (decode_chunk_start_v03 bytes ≢ panic)
      × (decode_chunk_hashes bytes ≢ panic)
      × (decode_data_v03 bytes ≢ panic)
decoders-ne-panic bytes version = (
  decode_frame-ne-panic bytes version,
  decode_offer-ne-panic bytes,
  decode_reject-ne-panic bytes,
  decode_announcement-ne-panic bytes,
  decode_resume-ne-panic bytes,
  decode_offer_v03-ne-panic bytes,
  decode_chunk_start_v03-ne-panic bytes,
  decode_chunk_hashes-ne-panic bytes,
  decode_data_v03-ne-panic bytes,
)
