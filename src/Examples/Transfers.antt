-- ===== src/Examples/Transfers.antt =====
-- A file of one chunk of 32 bytes arrives, with a digest that keeps the bytes.
use warpfile.Common.{ℕ, zero, suc, ◌≡◌, inl, refl, arith, List, [], ◌∷◌, ◌++◌, none, some}
use warpfile.Common.{ok}
use warpfile.Chunk.Hash.{ChunkHash}
use warpfile.Chunk.Layout.{ChunkLayout, IsChunkLayout, range, chunk_count}
use warpfile.Bytes.BigEndian.{to_be_bytes, from_be_bytes}
use warpfile.Bytes.Slice.{slice, slice_array, index, bytes_eq}
use warpfile.Bytes.Words.{checked_mul, checked_sub, checked_add}
use warpfile.Chunk.State.{
  hash, hash_at, record_verified_chunk, record_at, store, insert_at, in_range,
}
use warpfile.Chunk.Search.{binary_search}
use warpfile.Protocol.Message.{
  MessageType, chunk_start, data_frame, complete, as_u8, from_wire, of_byte, is_allowed_in_version,
  is_data,
}
use warpfile.Protocol.Decoder.{validate_frame_header, decode_frame_for_version}
use warpfile.Protocol.Stream.{read_frame_for_version, read_payload}
use warpfile.Protocol.V03.ChunkStart.{ChunkStartV03, decode_chunk_start_v03}
use warpfile.Protocol.V03.DataFrame.{DataV03, decode_data_v03}
use warpfile.Protocol.Frame.{validate_version_and_message_type}
use warpfile.Protocol.Encoder.{frame_bytes}
use warpfile.Receiver.Chunks.{
  ChunkReceiverV03, begin_chunk, check_data, absorb_data, write_data, candidate,
  persist_verified_chunk, require_after,
}
use warpfile.Receiver.Sound.{IsReceiving}
use warpfile.Receiver.Steps.{begin_chunk-IsReceiving, write_data-IsReceiving}
use warpfile.Receiver.Persist.{persist-IsReceiving}
use warpfile.Receiver.Transfer.{
  Session, receive_transfer, handle_frame, handle_message, handle_chunk_start, handle_data,
  handle_complete, persist_if_verified,
}
use warpfile.Receiver.Complete.{IsComplete, receive_transfer-IsComplete}
use warpfile.Examples.Manifests.{keeper}
use warpfile.Examples.Memory.{memory_file, memory_store}
use warpfile.Examples.Streams.{reader, read_list}
use warpfile.Receiver.Transfer.Ends.{receive_transfer-ne-panic}
use warpfile.Common.{◌≢◌, ◌<◌, length, panic, arith}

abbrev pub single : ChunkLayout
single = record { file_size = 32; chunk_size = 32 }

pub single-IsChunkLayout : IsChunkLayout single
single-IsChunkLayout = omega arith

abbrev pub filled : ℕ → ℕ → List ℕ
filled zero b = []
filled (suc n) b = b ∷ filled n b

abbrev pub letters : List ℕ
letters = filled 32 7

abbrev pub letters_hash : ChunkHash
letters_hash = record { bytes = letters }

abbrev pub fresh : ChunkReceiverV03 keeper
fresh = record {
  chunk_state = record { layout = single; chunks = [] };
  last_chunk_index = none;
  active = none;
  pending_verified = none;
}

empty-unrecorded : (i : ℕ) → hash (record { layout = single; chunks = [] }) i ≡ none
unfolding hash hash_at binary_search
empty-unrecorded i = refl

fresh-IsReceiving : IsReceiving keeper single single-IsChunkLayout fresh (filled 32 0)
fresh-IsReceiving = record {
  layout = refl;
  well_formed = record { sorted = tt; ranged = tt };
  size = refl;
  recorded = λ i h known _ _. cc (known, empty-unrecorded i);
  active = tt;
  pending = tt;
  exclusive = inl refl;
}

abbrev message : MessageType → List ℕ → List ℕ
message t payload =
    frame_bytes (record { version = 3; message_type = t; flags = 0; payload = payload })

abbrev conversation : List ℕ
conversation =
    message chunk_start (filled 8 0 ++ letters)
    ++ (message data_frame (filled 8 0 ++ letters) ++ message complete letters)

abbrev ended : Session keeper memory_file memory_store
ended = (
  record {
    chunk_state = record {
      layout = single;
      chunks = record { index = 0; hash = letters_hash } ∷ [];
    };
    last_chunk_index = some 0;
    active = none;
    pending_verified = none;
  },
  letters,
  some (record { layout = single; chunks = record { index = 0; hash = letters_hash } ∷ [] }),
)

conversation_run :
    receive_transfer keeper memory_file memory_store reader 3
      (fresh, filled 32 0, none)
      conversation
    ≡ (ended, ok (letters_hash, []))
unfolding receive_transfer handle_frame handle_message handle_chunk_start handle_data
    handle_complete persist_if_verified read_frame_for_version read_payload validate_frame_header
    decode_frame_for_version frame_bytes as_u8 from_wire of_byte is_allowed_in_version is_data
    validate_version_and_message_type slice slice_array index bytes_eq to_be_bytes from_be_bytes
    decode_chunk_start_v03 decode_data_v03 begin_chunk check_data absorb_data write_data candidate
    persist_verified_chunk range chunk_count checked_mul checked_sub checked_add hash hash_at
    binary_search record_verified_chunk record_at store insert_at in_range require_after
conversation_run = refl

receive_transfer-IsComplete_example : IsComplete keeper single single-IsChunkLayout ended.0 letters
receive_transfer-IsComplete_example =
    receive_transfer-IsComplete keeper single single-IsChunkLayout memory_file memory_store reader 3
      (fresh, filled 32 0, none) ended conversation [] letters_hash fresh-IsReceiving
      conversation_run

-- The same transfer, step by step.
abbrev start : ChunkStartV03
start = record { chunk_index = 0; expected_hash = letters_hash }

abbrev part : DataV03
part = record { absolute_offset = 0; bytes = letters }

abbrev began : ChunkReceiverV03 keeper
began = record {
  chunk_state = record { layout = single; chunks = [] };
  last_chunk_index = some 0;
  active = some (record {
    range = record { index = 0; offset = 0; length = 32 };
    expected_hash = letters_hash;
    next_offset = 0;
    hasher = [];
  });
  pending_verified = none;
}

abbrev written : ChunkReceiverV03 keeper
written = record {
  chunk_state = record { layout = single; chunks = [] };
  last_chunk_index = some 0;
  active = none;
  pending_verified = some (record { index = 0; hash = letters_hash });
}

start_run : begin_chunk keeper fresh start ≡ ok began
unfolding begin_chunk range chunk_count checked_mul checked_sub hash hash_at binary_search
    require_after
start_run = refl

write_run :
    write_data keeper memory_file began (filled 32 0) part
    ≡ ((written, letters), ok (some (record { index = 0; hash = letters_hash })))
unfolding write_data check_data absorb_data checked_add bytes_eq
write_run = refl

persist_run :
    persist_verified_chunk keeper memory_file memory_store written letters none ≡ (ended, ok tt)
unfolding persist_verified_chunk candidate record_verified_chunk record_at insert_at store in_range
    range chunk_count checked_mul checked_sub binary_search
persist_run = refl

begin_chunk-IsReceiving_example : IsReceiving keeper single single-IsChunkLayout began (filled 32 0)
begin_chunk-IsReceiving_example =
    begin_chunk-IsReceiving keeper single single-IsChunkLayout fresh began start (filled 32 0)
      start_run fresh-IsReceiving

began-IsReceiving : IsReceiving keeper single single-IsChunkLayout began (filled 32 0)
began-IsReceiving =
    begin_chunk-IsReceiving keeper single single-IsChunkLayout fresh began start (filled 32 0)
      start_run fresh-IsReceiving

write_data-IsReceiving_example : IsReceiving keeper single single-IsChunkLayout written letters
write_data-IsReceiving_example =
    write_data-IsReceiving keeper single single-IsChunkLayout memory_file began written
      (filled 32 0) letters part (some (record { index = 0; hash = letters_hash })) write_run
      began-IsReceiving

written-IsReceiving : IsReceiving keeper single single-IsChunkLayout written letters
written-IsReceiving =
    write_data-IsReceiving keeper single single-IsChunkLayout memory_file began written
      (filled 32 0) letters part (some (record { index = 0; hash = letters_hash })) write_run
      began-IsReceiving

persist-IsReceiving_example :
    IsReceiving keeper single single-IsChunkLayout ended.0 letters
    × (ended.2 ≡ some (ended.0).chunk_state)
persist-IsReceiving_example =
    persist-IsReceiving keeper single single-IsChunkLayout memory_file memory_store written ended.0
      letters letters none ended.2 persist_run written-IsReceiving

read_list-ne-panic : (r : List ℕ) (n : ℕ) → read_list r n ≢ panic
read_list-ne-panic r n h = ground arith

conversation_short : length conversation < 200
unfolding frame_bytes as_u8 to_be_bytes
conversation_short = omega arith

receive_transfer-ne-panic_example :
    (receive_transfer keeper memory_file memory_store reader 200
      (fresh, filled 32 0, none)
      conversation).1
    ≢ panic
receive_transfer-ne-panic_example =
    receive_transfer-ne-panic keeper single single-IsChunkLayout memory_file memory_store reader 200
      (fresh, filled 32 0, none) conversation read_list-ne-panic fresh-IsReceiving
      conversation_short
