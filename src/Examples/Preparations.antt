-- ===== src/Examples/Preparations.antt =====
-- A partial file that holds its one chunk, before and after a session.
use warpfile.Common.{ℕ, ◌≡◌, ◌≢◌, refl, arith, List, [], ◌∷◌, none, length}
use warpfile.Common.{Result, ok, err, panic}
use warpfile.Io.{ErrorKind, not_found}
use warpfile.Bytes.Slice.{bytes_eq}
use warpfile.Bytes.Words.{checked_mul, checked_sub, checked_add}
use warpfile.Chunk.Layout.{IsChunkLayout, range, chunk_count}
use warpfile.Chunk.Reading.{hash_chunk, hash_rest}
use warpfile.Chunk.State.{
  ChunkState, ChunkStateError, validate_recorded_chunks, validate_from, check_order, in_range,
}
use warpfile.Chunk.State
use warpfile.Chunk.State.Invariant.{IsWellFormed}
use warpfile.Chunk.State.Revalidate.{
  check_chunk, verified_chunks, revalidate_chunk_state, prepare_chunk_inventory,
}
use warpfile.Chunk.State.Revalidate.Sound.{IsBorneOut, prepare_chunk_inventory-IsBorneOut}
use warpfile.Protocol.V03.Offer.{FileOfferV03}
use warpfile.Receiver.Chunks.{ChunkReceiverV03}
use warpfile.Receiver.Chunks
use warpfile.Receiver.Sound.{IsReceiving}
use warpfile.Receiver.Final.{
  ReceivedCompleteV03, hash_physical_file_v03, hash_physical_file_v03-ne-panic,
  verify_complete_file, verify_complete_file_sound,
}
use warpfile.Receiver.Prepare.{
  PreparedReceiverV03, chunks_loop, chunk_hash_batches, prepare_v03_partial_file,
  prepare_receiver_v03,
}
use warpfile.Receiver.Prepare.Sound.{prepare_receiver_v03-IsReceiving}
use warpfile.Examples.Manifests.{keeper}
use warpfile.Examples.Memory.{bytes_source, memory_file, memory_readable, memory_resizable}
use warpfile.Examples.Transfers.{single, single-IsChunkLayout, letters, letters_hash, fresh, filled}
use warpfile.Chunk.Layout

abbrev known : ChunkState
known = record { layout = single; chunks = record { index = 0; hash = letters_hash } ∷ [] }

known-IsWellFormed : IsWellFormed known
unfolding in_range range chunk_count checked_mul checked_sub
known-IsWellFormed = record { sorted = (omega arith, tt); ranged = (refl, tt) }

abbrev stored : Result ChunkState ChunkStateError
stored = ok known

stored-IsWellFormed : (s : ChunkState) → stored ≡ ok s → IsWellFormed s
stored-IsWellFormed s h = let e : known ≡ s = cc h in rw (← e) known-IsWellFormed

abbrev opened : Result (List ℕ) ErrorKind
opened = ok letters

same_letters : (g : List ℕ) → opened ≡ ok g → g ≡ letters
same_letters g h = cc h

inventory_run : prepare_chunk_inventory keeper memory_readable stored opened single ≡ ok known
unfolding prepare_chunk_inventory revalidate_chunk_state verified_chunks check_chunk hash_chunk
    range chunk_count checked_mul checked_sub bytes_eq State.new validate_recorded_chunks
    validate_from check_order in_range
inventory_run = refl

prepare_chunk_inventory-IsBorneOut_example :
    IsBorneOut keeper single single-IsChunkLayout memory_readable letters known
prepare_chunk_inventory-IsBorneOut_example =
    prepare_chunk_inventory-IsBorneOut keeper single single-IsChunkLayout memory_readable letters
      stored opened known same_letters stored-IsWellFormed inventory_run

abbrev proposal : FileOfferV03
proposal = record {
  transfer_id = record { bytes = filled 16 1 };
  filename = 97 ∷ [];
  file_size = 32;
  chunk_size = 32;
}

abbrev prepared : PreparedReceiverV03 keeper memory_file
prepared = record {
  file = letters;
  receiver = record {
    chunk_state = known;
    last_chunk_index = none;
    active = none;
    pending_verified = none;
  };
  resume = record { chunk_record_count = 1 };
  chunk_hash_batches =
      record { records = record { chunk_index = 0; hash = letters_hash } ∷ [] } ∷ [];
  identity = record { transfer_id = record { bytes = filled 16 1 }; filename = 97 ∷ [] };
}

prepare_run :
    prepare_receiver_v03 keeper memory_readable memory_resizable stored opened opened
      (err not_found)
      proposal
    ≡ ok prepared
unfolding prepare_receiver_v03 prepare_v03_partial_file chunk_hash_batches chunks_loop
    prepare_chunk_inventory revalidate_chunk_state verified_chunks check_chunk hash_chunk range
    chunk_count checked_mul checked_sub bytes_eq State.new validate_recorded_chunks validate_from
    check_order in_range Layout.new Chunks.new
prepare_run = refl

opened_existing : (g : List ℕ) → opened ≡ ok g → (f : List ℕ) × (opened ≡ ok f) × (g ≡ f)
opened_existing g h = (g, h, refl)

prepare_receiver_v03-IsReceiving_example :
    (valid : IsChunkLayout single) × IsReceiving keeper single valid prepared.receiver letters
prepare_receiver_v03-IsReceiving_example =
    prepare_receiver_v03-IsReceiving keeper memory_readable memory_resizable stored opened opened
      (err not_found) proposal prepared (omega arith) (omega arith) stored-IsWellFormed
      opened_existing prepare_run

abbrev received : ReceivedCompleteV03 keeper memory_file
received = record { file = letters; receiver = fresh; sender_file_hash = letters_hash }

verify_run : verify_complete_file memory_readable received ≡ ok received
unfolding verify_complete_file hash_physical_file_v03 hash_rest checked_add bytes_eq
verify_run = refl

verify_complete_file_sound_example :
    (received ≡ received) × (length letters ≡ 32) × (letters_hash ≡ letters_hash)
verify_complete_file_sound_example =
    verify_complete_file_sound memory_readable received received verify_run

hash_physical_file_v03-ne-panic_example :
    hash_physical_file_v03 keeper bytes_source letters 32 letters_hash ≢ panic
hash_physical_file_v03-ne-panic_example =
    hash_physical_file_v03-ne-panic keeper bytes_source letters 32 letters_hash (omega arith)
