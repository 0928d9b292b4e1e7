-- ===== src/Examples/Payloads.antt =====
-- The payloads of the protocol at concrete values.
use warpfile.Common.{ℕ, ◌^◌, ◌≤◌, ◌<◌, ◌≡◌, ◌↔◌, arith, List, [], ◌∷◌, ◌++◌, All, length, ok}
use warpfile.Chunk.Hash.{ChunkHash}
use warpfile.Protocol.TransferId.{TransferId}
use warpfile.Protocol.Offer.{FileOffer, IsFileOffer, decode_offer, encode_offer}
use warpfile.Protocol.Reject.{
  FileReject, IsFileReject, unsafe_filename, decode_reject, encode_reject,
}
use warpfile.Protocol.Announcement.{
  DeviceAnnouncement, IsDeviceAnnouncement, decode_announcement, encode_announcement,
}
use warpfile.Protocol.Resume.{ResumeRequest, IsResumeRequest, decode_resume, encode_resume}
use warpfile.Protocol.V03.Offer.{FileOfferV03, IsFileOfferV03, decode_offer_v03, encode_offer_v03}
use warpfile.Protocol.V03.Resume.{ResumeRequestV03, decode_resume_v03, encode_resume_v03}
use warpfile.Protocol.V03.ChunkStart.{
  ChunkStartV03, IsChunkStartV03, decode_chunk_start_v03, encode_chunk_start_v03,
}
use warpfile.Protocol.V03.ChunkHashes.{
  ChunkHashesBatch, IsChunkHashRecord, decode_chunk_hashes, encode_chunk_hashes,
}
use warpfile.Protocol.V03.ChunkHashes.Exact.{max_records, encode_chunk_hashes_fits}
use warpfile.Protocol.V03.DataFrame.{DataV03, IsDataV03, decode_data_v03, encode_data_v03}
use warpfile.Protocol.Payloads.{payloads_v02_exact, payloads_v03_exact}

abbrev eight : ℕ → List ℕ → List ℕ
eight b rest = b ∷ b ∷ b ∷ b ∷ b ∷ b ∷ b ∷ b ∷ rest

abbrev id : TransferId
id = record { bytes = eight 0x10 (eight 0x11 []) }

abbrev digest : List ℕ
digest = eight 1 (eight 2 (eight 3 (eight 4 [])))

abbrev chunk_digest : ChunkHash
chunk_digest = record { bytes = digest }

abbrev number_six : List ℕ
number_six = 0 ∷ 0 ∷ 0 ∷ 0 ∷ 0 ∷ 0 ∷ 0 ∷ 6 ∷ []

abbrev offer_payload : List ℕ
offer_payload = eight 0x10 (eight 0x11 (0 ∷ 1 ∷ 0x61 ∷ number_six))

abbrev one_offer : FileOffer
one_offer = record { transfer_id = id; filename = 0x61 ∷ []; file_size = 6 }

abbrev reject_payload : List ℕ
reject_payload = 0 ∷ 2 ∷ 0 ∷ 1 ∷ 0x61 ∷ []

abbrev one_reject : FileReject
one_reject = record { code = unsafe_filename; message = 0x61 ∷ [] }

abbrev announcement_payload : List ℕ
announcement_payload = 0 ∷ 1 ∷ 0x61 ∷ 0xA4 ∷ 0x55 ∷ []

abbrev one_announcement : DeviceAnnouncement
one_announcement = record { device_name = 0x61 ∷ []; tcp_port = 42069 }

abbrev one_resume : ResumeRequest
one_resume = record { offset = 6; prefix_hash = digest }

abbrev offer_v03_payload : List ℕ
offer_v03_payload = eight 0x10 (eight 0x11 (0 ∷ 1 ∷ 0x61 ∷ (number_six ++ number_six)))

abbrev one_offer_v03 : FileOfferV03
one_offer_v03 = record { transfer_id = id; filename = 0x61 ∷ []; file_size = 6; chunk_size = 6 }

abbrev one_resume_v03 : ResumeRequestV03
one_resume_v03 = record { chunk_record_count = 6 }

abbrev one_chunk_start : ChunkStartV03
one_chunk_start = record { chunk_index = 6; expected_hash = chunk_digest }

abbrev one_batch : ChunkHashesBatch
one_batch = record { records = record { chunk_index = 6; hash = chunk_digest } ∷ [] }

abbrev batch_payload : List ℕ
batch_payload = 0 ∷ 0 ∷ 0 ∷ 1 ∷ (number_six ++ digest)

encode_chunk_hashes_fits_example :
    ((bytes : List ℕ) × (encode_chunk_hashes one_batch ≡ ok bytes))
    ↔ (length one_batch.records ≤ max_records)
encode_chunk_hashes_fits_example = encode_chunk_hashes_fits one_batch

abbrev one_data : DataV03
one_data = record { absolute_offset = 6; bytes = digest }

payloads_v02_exact_example :
    ((decode_offer offer_payload ≡ ok one_offer)
      ↔ (IsFileOffer one_offer × (encode_offer one_offer ≡ ok offer_payload)))
    × ((decode_reject offer_payload ≡ ok one_reject)
        ↔ (IsFileReject one_reject × (encode_reject one_reject ≡ ok offer_payload)))
    × ((decode_announcement offer_payload ≡ ok one_announcement) ↔ (
        IsDeviceAnnouncement one_announcement
        × (encode_announcement one_announcement ≡ ok offer_payload)))
    × ((decode_resume offer_payload ≡ ok one_resume)
        ↔ (IsResumeRequest one_resume × (encode_resume one_resume ≡ offer_payload)))
payloads_v02_exact_example =
    payloads_v02_exact offer_payload one_offer one_reject one_announcement one_resume (omega arith)

payloads_v03_exact_example :
    ((decode_offer_v03 batch_payload ≡ ok one_offer_v03)
      ↔ (IsFileOfferV03 one_offer_v03 × (encode_offer_v03 one_offer_v03 ≡ ok batch_payload)))
    × ((decode_resume_v03 batch_payload ≡ ok one_resume_v03)
        ↔ ((6 < 256 ^ 8) × (encode_resume_v03 one_resume_v03 ≡ batch_payload)))
    × ((decode_chunk_hashes batch_payload ≡ ok one_batch) ↔ (
        All IsChunkHashRecord one_batch.records
        × (encode_chunk_hashes one_batch ≡ ok batch_payload)))
    × ((decode_chunk_start_v03 batch_payload ≡ ok one_chunk_start) ↔ (
        IsChunkStartV03 one_chunk_start × (encode_chunk_start_v03 one_chunk_start ≡ batch_payload)))
    × ((decode_data_v03 batch_payload ≡ ok one_data)
        ↔ (IsDataV03 one_data × (encode_data_v03 one_data ≡ ok batch_payload)))
payloads_v03_exact_example =
    payloads_v03_exact batch_payload one_offer_v03 one_resume_v03 one_batch one_chunk_start one_data
      (omega arith)
