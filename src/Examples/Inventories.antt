-- ===== src/Examples/Inventories.antt =====
-- A receiver that has recorded the one chunk of a file announces it to the sender.
use warpfile.Common.{ℕ, ◌≡◌, refl, arith, List, [], ◌∷◌, ◌++◌, All, ok}
use warpfile.Bytes.BigEndian.{to_be_bytes}
use warpfile.Bytes.Words.{checked_mul, checked_sub, checked_add}
use warpfile.Chunk.Layout.{range, chunk_count}
use warpfile.Chunk.State.{ChunkState, in_range}
use warpfile.Chunk.State.Invariant.{IsWellFormed}
use warpfile.Protocol.Message.{as_u8, is_allowed_in_version, is_data, resume, chunk_hashes}
use warpfile.Protocol.Frame.{new_for_version, validate_version_and_message_type}
use warpfile.Protocol.Encoder.{encode_frame, frame_bytes}
use warpfile.Protocol.Stream.{write_frame}
use warpfile.Protocol.V03.Resume.{encode_resume_v03}
use warpfile.Protocol.V03.ChunkHashes.{
  encode_chunk_hashes, checked_length, records_bytes, record_bytes,
}
use warpfile.Receiver.Prepare.{chunks_loop, chunk_hash_batches}
use warpfile.Receiver.Negotiation.{write_message, write_batches, announce_inventory}
use warpfile.Receiver.Negotiation.Wire.{frame_v03}
use warpfile.Receiver.Negotiation.Batches.{IsTyped}
use warpfile.Receiver.Negotiation.Agreed.{accept_bytes, announce-receive_inventory}
use warpfile.Sender.Inventory.{receive_inventory_and_accept}
use warpfile.Examples.Streams.{reader, writer}
use warpfile.Examples.Transfers.{single, single-IsChunkLayout, letters, letters_hash, filled}

abbrev loaded : ChunkState
loaded = record { layout = single; chunks = record { index = 0; hash = letters_hash } ∷ [] }

loaded-IsWellFormed : IsWellFormed loaded
unfolding in_range range chunk_count checked_mul checked_sub
loaded-IsWellFormed = record { sorted = (omega arith, tt); ranged = (refl, tt) }

loaded-All-IsTyped : All IsTyped loaded.chunks
loaded-All-IsTyped = (omega arith, tt)

abbrev announced : List ℕ
announced =
    frame_bytes (frame_v03 resume (0 ∷ 0 ∷ 0 ∷ 0 ∷ 0 ∷ 0 ∷ 0 ∷ 1 ∷ []))
    ++ frame_bytes (frame_v03 chunk_hashes (0 ∷ 0 ∷ 0 ∷ 1 ∷ (filled 8 0 ++ letters)))

announce_run :
    announce_inventory writer [] (record { chunk_record_count = 1 }) (chunk_hash_batches loaded)
    ≡ ok announced
unfolding announce_inventory write_message write_batches chunk_hash_batches chunks_loop
    new_for_version validate_version_and_message_type is_allowed_in_version as_u8 is_data
    write_frame encode_frame frame_bytes to_be_bytes encode_resume_v03 encode_chunk_hashes
    checked_length checked_mul checked_add records_bytes record_bytes
announce_run = refl

announce-receive_inventory_example :
    (r' : List ℕ) × (receive_inventory_and_accept reader writer (announced ++ (5 ∷ [])) [] single
      ≡ ok (
        r',
        accept_bytes,
        record { layout = single; records = record { chunk_index = 0; hash = letters_hash } ∷ [] },
      ))
    × (r' ≡ 5 ∷ [])
announce-receive_inventory_example =
    announce-receive_inventory single single-IsChunkLayout loaded writer writer reader [] announced
      [] accept_bytes accept_bytes (announced ++ (5 ∷ [])) announced (5 ∷ []) refl
      loaded-IsWellFormed loaded-All-IsTyped announce_run refl refl refl refl
