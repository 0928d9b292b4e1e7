-- ===== src/Protocol/Payloads.antt =====
-- The payloads of both versions at once (src/protocol/).
use warpfile.Common.{ℕ, ◌^◌, ◌<◌, ◌≡◌, ◌↔◌, List, All, ok}
use warpfile.Bytes.BigEndian.{IsBytes}
use warpfile.Protocol.Offer.{FileOffer, IsFileOffer, decode_offer, encode_offer}
use warpfile.Protocol.Offer.Canonical.{decode_offer_iff}
use warpfile.Protocol.Reject.{FileReject, IsFileReject, decode_reject, encode_reject}
use warpfile.Protocol.Reject.Canonical.{decode_reject_iff}
use warpfile.Protocol.Announcement.{
  DeviceAnnouncement, IsDeviceAnnouncement, decode_announcement, encode_announcement,
}
use warpfile.Protocol.Announcement.Canonical.{decode_announcement_iff}
use warpfile.Protocol.Resume.{ResumeRequest, IsResumeRequest, decode_resume, encode_resume}
use warpfile.Protocol.Resume.Exact.{decode_resume_iff}
use warpfile.Protocol.V03.Offer.{FileOfferV03, IsFileOfferV03, decode_offer_v03, encode_offer_v03}
use warpfile.Protocol.V03.Offer.Canonical.{decode_offer_v03_iff}
use warpfile.Protocol.V03.Resume.{ResumeRequestV03, decode_resume_v03, encode_resume_v03}
use warpfile.Protocol.V03.Resume.Exact.{decode_resume_v03_iff}
use warpfile.Protocol.V03.ChunkStart.{
  ChunkStartV03, IsChunkStartV03, decode_chunk_start_v03, encode_chunk_start_v03,
}
use warpfile.Protocol.V03.ChunkStart.Exact.{decode_chunk_start_v03_iff}
use warpfile.Protocol.V03.ChunkHashes.{
  ChunkHashesBatch, IsChunkHashRecord, decode_chunk_hashes, encode_chunk_hashes,
}
use warpfile.Protocol.V03.ChunkHashes.Exact.{decode_chunk_hashes_iff}
use warpfile.Protocol.V03.DataFrame.{DataV03, IsDataV03, decode_data_v03, encode_data_v03}
use warpfile.Protocol.V03.DataFrame.Exact.{decode_data_v03_iff}

-- On a list of bytes, the decoders of the version 0.2 payloads (`decode_offer`, `decode_reject`,
-- `decode_announcement`, `decode_resume`) each return a value exactly when the fields of the value
-- have their Rust types (identifiers and hashes of their lengths, UTF-8 texts, integers of their
-- widths) and its encoder gives these bytes.
pub payloads_v02_exact :
    (payload : List ℕ) (o : FileOffer) (r : FileReject) (a : DeviceAnnouncement) (q : ResumeRequest)
    → IsBytes payload
    → ((decode_offer payload ≡ ok o) ↔ (IsFileOffer o × (encode_offer o ≡ ok payload)))
      × ((decode_reject payload ≡ ok r) ↔ (IsFileReject r × (encode_reject r ≡ ok payload)))
      × ((decode_announcement payload ≡ ok a)
          ↔ (IsDeviceAnnouncement a × (encode_announcement a ≡ ok payload)))
      × ((decode_resume payload ≡ ok q) ↔ (IsResumeRequest q × (encode_resume q ≡ payload)))
payloads_v02_exact payload o r a q b = (
  decode_offer_iff payload o b,
  decode_reject_iff payload r b,
  decode_announcement_iff payload a b,
  decode_resume_iff payload q b,
)

-- On a list of bytes, the decoders of the version 0.3 payloads (`decode_offer_v03`,
-- `decode_resume_v03`, `decode_chunk_hashes`, `decode_chunk_start_v03`, `decode_data_v03`) each
-- return a value exactly when the fields of the value have their Rust types and its encoder gives
-- these bytes.
pub payloads_v03_exact :
    (payload : List ℕ) (o : FileOfferV03) (q : ResumeRequestV03) (h : ChunkHashesBatch)
    (s : ChunkStartV03) (d : DataV03)
    → IsBytes payload
    → ((decode_offer_v03 payload ≡ ok o) ↔ (IsFileOfferV03 o × (encode_offer_v03 o ≡ ok payload)))
      × ((decode_resume_v03 payload ≡ ok q)
          ↔ ((q.chunk_record_count < 256 ^ 8) × (encode_resume_v03 q ≡ payload)))
      × ((decode_chunk_hashes payload ≡ ok h)
          ↔ (All IsChunkHashRecord h.records × (encode_chunk_hashes h ≡ ok payload)))
      × ((decode_chunk_start_v03 payload ≡ ok s)
          ↔ (IsChunkStartV03 s × (encode_chunk_start_v03 s ≡ payload)))
      × ((decode_data_v03 payload ≡ ok d) ↔ (IsDataV03 d × (encode_data_v03 d ≡ ok payload)))
payloads_v03_exact payload o q h s d b = (
  decode_offer_v03_iff payload o b,
  decode_resume_v03_iff payload q b,
  decode_chunk_hashes_iff payload h b,
  decode_chunk_start_v03_iff payload s b,
  decode_data_v03_iff payload d b,
)
