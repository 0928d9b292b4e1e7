-- ===== src/Receiver/Prepare.antt =====
-- `prepare_v03_partial_file`, `prepare_receiver_v03` and `chunk_hash_batches`
-- (src/receiver_v03.rs): the receiver at the start of a session. Opening a file is a parameter.
pub mod Sound
use warpfile.Common.{
  ℕ, zero, suc, ◌-◌, ◌/◌, List, [], ◌∷◌, map, Option, none, some, Bool, true, false, not, ◌||◌,
  ◌==◌, if◌then◌else◌,
}
use warpfile.Common.{length, take, drop, Result, ok, err, panic, ◌>>=◌, ◌>>◌, require, map_err}
use warpfile.Io.{ErrorKind, is_not_found}
use warpfile.Io.File.{RandomFile, Readable, Resizable}
use warpfile.Chunk.Layout.{ChunkLayout, ChunkLayoutError}
use warpfile.Chunk.Manifest.{Hasher}
use warpfile.Chunk.Search.{RecordedChunk}
use warpfile.Chunk.State.{ChunkState, ChunkStateError}
use warpfile.Chunk.State.Revalidate.{prepare_chunk_inventory}
use warpfile.Protocol.Frame.{max_payload_length}
use warpfile.Protocol.TransferId.{TransferId}
use warpfile.Protocol.V03.Offer.{FileOfferV03}
use warpfile.Protocol.V03.Resume.{ResumeRequestV03}
use warpfile.Protocol.V03.ChunkHashes.{ChunkHashRecord, ChunkHashesBatch, chunk_hash_record_length}
use warpfile.Receiver.Chunks.{ChunkReceiverV03, ReceiverV03Error, io, partial_not_regular_file}
use warpfile.Chunk.Layout
use warpfile.Receiver.Chunks

pub data ReceiverV03PreparationError : Type 0 where
  chunk_layout : ChunkLayoutError → ReceiverV03PreparationError
  chunk_state_error : ChunkStateError → ReceiverV03PreparationError
  receiver : ReceiverV03Error → ReceiverV03PreparationError
  chunk_record_count_overflow : ℕ → ReceiverV03PreparationError

pub record TransferIdentity : Type 0 where
  pub transfer_id : TransferId
  pub filename : List ℕ

-- (Its path is not looked at.)
pub record PreparedReceiverV03 (H : Hasher) (F : RandomFile) : Type 0 where
  pub file : F.File
  pub receiver : ChunkReceiverV03 H
  pub resume : ResumeRequestV03
  pub chunk_hash_batches : List ChunkHashesBatch
  pub identity : TransferIdentity

-- `[T]::chunks`, on fuel: each round takes an entry, since the size is positive.
unfoldable pub chunks_loop {ℓ} : {A : Type ℓ} → ℕ → ℕ → List A → List (List A)
chunks_loop fuel size [] = []
chunks_loop zero size (x ∷ xs) = []
chunks_loop (suc fuel) size (x ∷ xs) =
    take size (x ∷ xs) ∷ chunks_loop fuel size (drop size (x ∷ xs))

-- `MAX_PAYLOAD_LENGTH` is larger than the 4 bytes of the count.
abbrev pub maximum_chunk_hash_records_per_batch : ℕ
maximum_chunk_hash_records_per_batch = (max_payload_length - 4) / chunk_hash_record_length

abbrev pub as_record : RecordedChunk → ChunkHashRecord
as_record c = record { chunk_index = c.index; hash = c.hash }

abbrev pub as_batch : List RecordedChunk → ChunkHashesBatch
as_batch cs = record { records = map as_record cs }

unfoldable pub chunk_hash_batches : ChunkState → List ChunkHashesBatch
chunk_hash_batches state =
    map as_batch
      (chunks_loop (length state.chunks) maximum_chunk_hash_records_per_batch state.chunks)

module _ {F : RandomFile} (Z : Resizable F) where
  -- The partial file with whether it was there; one that was not is created.
  abbrev pub open_or_create :
      Result F.File ErrorKind → Result F.File ErrorKind → Result (F.File × Bool) ReceiverV03Error
  open_or_create (ok f) created = ok (f, true)
  open_or_create (err e) created =
      if is_not_found e then (map_err io created >>= λ f. ok (f, false)) else err (io e)
  open_or_create panic created = panic

  abbrev pub resized : F.File × Option ErrorKind → Result F.File ReceiverV03Error
  resized (f, none) = ok f
  resized (f, some e) = err (io e)

  abbrev pub resize_if : Bool → F.File → ℕ → Result F.File ReceiverV03Error
  resize_if true f file_size = resized (Z.set_len f file_size)
  resize_if false f file_size = ok f

  unfoldable pub prepare_v03_partial_file :
      Result F.File ErrorKind → Result F.File ErrorKind → ℕ → Result F.File ReceiverV03Error
  prepare_v03_partial_file existing created file_size = do
    (f, existed) ← open_or_create existing created
    (is_file, size) ← map_err io (Z.metadata f)
    require is_file partial_not_regular_file
    resize_if (not existed || not (size == file_size)) f file_size

-- `stored` is what `read_chunk_state` gave, and `opened`, `existing` and `created` are what opening
-- the partial file gave: for reading, for writing, and for writing with creation. (`usize` is 64 bits
-- wide, so the count of the records fits.)
unfoldable pub prepare_receiver_v03 :
    (H : Hasher) {F : RandomFile} (O : Readable F) (Z : Resizable F)
    → Result ChunkState ChunkStateError
    → Result F.File ErrorKind
    → Result F.File ErrorKind
    → Result F.File ErrorKind
    → FileOfferV03
    → Result (PreparedReceiverV03 H F) ReceiverV03PreparationError
prepare_receiver_v03 H O Z stored opened existing created offer = do
  layout ← map_err chunk_layout (Layout.new offer.file_size offer.chunk_size)
  state ← map_err chunk_state_error (prepare_chunk_inventory H O stored opened layout)
  file ← map_err receiver (prepare_v03_partial_file Z existing created offer.file_size)
  let r = Chunks.new H state
  ok (record {
    file = file;
    receiver = r;
    resume = record { chunk_record_count = length r.chunk_state.chunks };
    chunk_hash_batches = chunk_hash_batches r.chunk_state;
    identity = record { transfer_id = offer.transfer_id; filename = offer.filename };
  })
