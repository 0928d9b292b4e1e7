-- ===== src/Examples/Scans.antt =====
-- The source of six bytes in chunks of four is scanned; the receiver has neither chunk.
use warpfile.Common.{ℕ, ◌≡◌, refl, arith, List, [], ◌∷◌, ◌++◌, Option, some, false, length}
use warpfile.Common.{ok}
use warpfile.Io.Source.{read_full}
use warpfile.Bytes.BigEndian.{to_be_bytes}
use warpfile.Bytes.Words.{checked_mul, checked_sub, checked_add}
use warpfile.Chunk.Hash.{ChunkHash}
use warpfile.Chunk.Layout.{ChunkLayout, IsChunkLayout, range, chunk_count}
use warpfile.Protocol.Message.{as_u8, is_allowed_in_version, is_data, chunk_start, data_frame}
use warpfile.Protocol.Frame.{new_for_version, validate_version_and_message_type}
use warpfile.Protocol.Encoder.{encode_frame, frame_bytes}
use warpfile.Protocol.Stream.{write_frame}
use warpfile.Protocol.V03.ChunkStart.{encode_chunk_start_v03}
use warpfile.Protocol.V03.DataFrame.{encode_data_v03}
use warpfile.Sender.Scan.{
  ReceiverInventoryV03, SourceScannerV03, SourceChunkV03, transmit, compare_record,
  confirm_source_end, read_chunk, scan_chunk, next_chunk, finish,
}
use warpfile.Sender.Scan
use warpfile.Sender.Scan.Sound.{IsScanning, new-IsScanning}
use warpfile.Sender.Scan.Whole.{IsNext, next_chunk-IsNext}
use warpfile.Sender.Complete.{send_source_chunks_and_complete_v03_sound}
use warpfile.Receiver.Negotiation.Wire.{frame_v03}
use warpfile.Sender.Transfer.{send_complete_v03, send_source_chunks_and_complete_v03}
use warpfile.Protocol.Message.{complete}
use warpfile.Sender.Transfer.{
  send_frame, send_fragment, send_fragments, send_transmit_chunk_v03, send_chunks,
  send_source_chunks_v03,
}
use warpfile.Examples.Manifests.{keeper}
use warpfile.Examples.Memory.{bytes_source}
use warpfile.Examples.Streams.{writer}

abbrev two_chunks : ChunkLayout
two_chunks = record { file_size = 6; chunk_size = 4 }

two_chunks-IsChunkLayout : IsChunkLayout two_chunks
two_chunks-IsChunkLayout = omega arith

abbrev six_bytes : List ℕ
six_bytes = 1 ∷ 2 ∷ 3 ∷ 4 ∷ 5 ∷ 6 ∷ []

abbrev nothing_there : ReceiverInventoryV03
nothing_there = record { layout = two_chunks; records = [] }

abbrev scanner : SourceScannerV03 keeper bytes_source
scanner = record {
  source = six_bytes;
  layout = two_chunks;
  inventory = nothing_there;
  inventory_cursor = 0;
  next_chunk_index = 0;
  full_file_hasher = [];
  source_length_confirmed = false;
}

abbrev after_first : SourceScannerV03 keeper bytes_source × Option SourceChunkV03
after_first = (
  record scanner {
    source = 5 ∷ 6 ∷ [];
    next_chunk_index = 1;
    full_file_hasher = 1 ∷ 2 ∷ 3 ∷ 4 ∷ [];
  },
  some (record {
    index = 0;
    offset = 0;
    hash = record { bytes = 1 ∷ 2 ∷ 3 ∷ 4 ∷ [] };
    disposition = transmit;
    bytes = 1 ∷ 2 ∷ 3 ∷ 4 ∷ [];
  }),
)

first_run : next_chunk keeper bytes_source scanner ≡ ok after_first
unfolding next_chunk scan_chunk read_chunk read_full compare_record range chunk_count checked_mul
    checked_sub checked_add
first_run = refl

scanner-IsScanning :
    IsScanning keeper bytes_source two_chunks two_chunks-IsChunkLayout scanner six_bytes []
unfolding Scan.new
scanner-IsScanning =
    new-IsScanning keeper bytes_source two_chunks two_chunks-IsChunkLayout six_bytes nothing_there
      refl

next_chunk-IsNext_example :
    IsNext keeper bytes_source two_chunks two_chunks-IsChunkLayout scanner six_bytes [] after_first
next_chunk-IsNext_example =
    next_chunk-IsNext keeper bytes_source two_chunks two_chunks-IsChunkLayout scanner six_bytes []
      after_first scanner-IsScanning refl first_run

abbrev sent_all : List ℕ × ChunkHash
sent_all = (
  frame_bytes (record {
    version = 3;
    message_type = chunk_start;
    flags = 0;
    payload = 0 ∷ 0 ∷ 0 ∷ 0 ∷ 0 ∷ 0 ∷ 0 ∷ 0 ∷ 1 ∷ 2 ∷ 3 ∷ 4 ∷ [];
  })
      ++ (frame_bytes (record {
        version = 3;
        message_type = data_frame;
        flags = 0;
        payload = 0 ∷ 0 ∷ 0 ∷ 0 ∷ 0 ∷ 0 ∷ 0 ∷ 0 ∷ 1 ∷ 2 ∷ 3 ∷ 4 ∷ [];
      })
          ++ (frame_bytes (record {
            version = 3;
            message_type = chunk_start;
            flags = 0;
            payload = 0 ∷ 0 ∷ 0 ∷ 0 ∷ 0 ∷ 0 ∷ 0 ∷ 1 ∷ 5 ∷ 6 ∷ [];
          })
              ++ frame_bytes (record {
                version = 3;
                message_type = data_frame;
                flags = 0;
                payload = 0 ∷ 0 ∷ 0 ∷ 0 ∷ 0 ∷ 0 ∷ 0 ∷ 4 ∷ 5 ∷ 6 ∷ [];
              }))),
  record { bytes = six_bytes },
)

complete_run :
    send_source_chunks_and_complete_v03 keeper bytes_source writer []
      (Scan.new keeper bytes_source six_bytes nothing_there)
    ≡ ok (sent_all.0 ++ frame_bytes (frame_v03 complete six_bytes), record { bytes = six_bytes })
unfolding send_source_chunks_and_complete_v03 send_complete_v03 send_source_chunks_v03 send_chunks
    send_transmit_chunk_v03 send_fragments send_fragment send_frame new_for_version
    validate_version_and_message_type is_allowed_in_version as_u8 is_data write_frame encode_frame
    frame_bytes to_be_bytes encode_chunk_start_v03 encode_data_v03 next_chunk scan_chunk read_chunk
    read_full compare_record confirm_source_end finish range chunk_count checked_mul checked_sub
    checked_add Scan.new
complete_run = refl

send_source_chunks_and_complete_v03_sound_example :
    (length six_bytes ≡ 6)
    × (before : List ℕ) × (sent_all.0 ++ frame_bytes (frame_v03 complete six_bytes)
        ≡ before ++ frame_bytes (frame_v03 complete six_bytes))
    × (sent_all.0 ++ frame_bytes (frame_v03 complete six_bytes)
        ≡ sent_all.0 ++ frame_bytes (frame_v03 complete six_bytes))
send_source_chunks_and_complete_v03_sound_example =
    send_source_chunks_and_complete_v03_sound keeper bytes_source two_chunks
      two_chunks-IsChunkLayout writer [] (sent_all.0 ++ frame_bytes (frame_v03 complete six_bytes))
      six_bytes nothing_there (record { bytes = six_bytes }) refl complete_run
