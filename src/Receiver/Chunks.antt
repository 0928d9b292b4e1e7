-- ===== src/Receiver/Chunks.antt =====
-- `ChunkReceiverV03` (src/receiver_v03.rs): the chunk that arrives, and the chunks that are
-- verified. The file, the hasher and the store of the chunk state are parameters.
use warpfile.Common.{ℕ, ◌≡◌, List, Option, none, some, Bool, false, not, leb, ◌==◌}
use warpfile.Common.{
  if◌then◌else◌, length, Result, ok, err, panic, ◌>>=◌, ◌>>◌, require, ok_or, map_err,
}
use warpfile.Bytes.Slice.{bytes_eq}
use warpfile.Bytes.Words.{checked_add}
use warpfile.Io.{ErrorKind}
use warpfile.Io.File.{RandomFile}
use warpfile.Chunk.Hash.{ChunkHash}
use warpfile.Chunk.Layout.{ChunkRange, range}
use warpfile.Chunk.Manifest.{Hasher}
use warpfile.Chunk.State.{ChunkState, ChunkStateError, hash, record_verified_chunk}
use warpfile.Protocol.V03.ChunkStart.{ChunkStartV03}
use warpfile.Protocol.V03.DataFrame.{DataV03}

pub record VerifiedChunk : Type 0 where
  pub index : ℕ
  pub hash : ChunkHash

pub data ReceiverV03Error : Type 0 where
  io : ErrorKind → ReceiverV03Error
  partial_not_regular_file : ReceiverV03Error
  chunk_index_out_of_range : ℕ → ReceiverV03Error
  chunk_already_active : ReceiverV03Error
  chunk_pending_persistence : ℕ → ReceiverV03Error
  -- previous, current
  non_increasing_chunk_index : ℕ → ℕ → ReceiverV03Error
  already_verified_chunk : ℕ → ReceiverV03Error
  no_pending_verified_chunk : ReceiverV03Error
  data_without_active_chunk : ReceiverV03Error
  -- expected, actual
  unexpected_data_offset : ℕ → ℕ → ReceiverV03Error
  data_length_overflow : ReceiverV03Error
  data_range_overflow : ReceiverV03Error
  -- end, file size
  data_exceeds_file_size : ℕ → ℕ → ReceiverV03Error
  -- end, end of the chunk
  data_crosses_chunk_boundary : ℕ → ℕ → ReceiverV03Error
  chunk_hash_mismatch : ℕ → ReceiverV03Error
  chunk_state : ChunkStateError → ReceiverV03Error

-- `write_chunk_state` at the path of one partial file. `saved` is what a later read finds.
pub record ChunkStore : Type 1 where
  pub Disk : Type 0
  pub saved : Disk → Option ChunkState
  pub write_chunk_state : Disk → ChunkState → Disk × Option ChunkStateError
  pub write_chunk_state_lem :
      (d : Disk) (s : ChunkState)
      → (write_chunk_state d s).1 ≡ none
      → saved (write_chunk_state d s).0 ≡ some s

pub record IncomingChunk (H : Hasher) : Type 0 where
  pub range : ChunkRange
  pub expected_hash : ChunkHash
  pub next_offset : ℕ
  pub hasher : H.State

pub record ChunkReceiverV03 (H : Hasher) : Type 0 where
  pub chunk_state : ChunkState
  pub last_chunk_index : Option ℕ
  pub active : Option (IncomingChunk H)
  pub pending_verified : Option VerifiedChunk

-- `==` on hashes, and on optional ones.
abbrev pub hash_eq : ChunkHash → ChunkHash → Bool
hash_eq a b = bytes_eq a.bytes b.bytes

abbrev pub is_hash : Option ChunkHash → ChunkHash → Bool
is_hash none b = false
is_hash (some a) b = hash_eq a b

abbrev pub require_none {ℓ μ} : {A : Type ℓ} {E : Type μ} → Option A → (A → E) → Result (Unit {0}) E
require_none none f = ok tt
require_none (some a) f = err (f a)

unfoldable pub require_after : Option ℕ → ℕ → Result (Unit {0}) ReceiverV03Error
require_after none current = ok tt
require_after (some previous) current =
    require (not (leb current previous)) (non_increasing_chunk_index previous current)

module _ (H : Hasher) where
  open H use {init, feed, finalize}

  -- `ChunkReceiverV03::new`
  unfoldable pub new : ChunkState → ChunkReceiverV03 H
  new state = record {
    chunk_state = state;
    last_chunk_index = none;
    active = none;
    pending_verified = none;
  }

  -- The receiver after the call; an error leaves it as it was.
  unfoldable pub begin_chunk :
      ChunkReceiverV03 H → ChunkStartV03 → Result (ChunkReceiverV03 H) ReceiverV03Error
  begin_chunk r chunk_start = do
    let index = chunk_start.chunk_index
    require_none r.pending_verified (λ pending. chunk_pending_persistence pending.index)
    require_none r.active (λ active. chunk_already_active)
    found ← ok_or (range r.chunk_state.layout index) (chunk_index_out_of_range index)
    require_after r.last_chunk_index index
    require (not (is_hash (hash r.chunk_state index) chunk_start.expected_hash))
        (already_verified_chunk index)
    ok (record r {
      last_chunk_index = some index;
      active = some (record {
        range = found;
        expected_hash = chunk_start.expected_hash;
        next_offset = found.offset;
        hasher = init;
      });
    })

  -- The tests of `write_data`: the active chunk, the end of the data, and the end of the chunk.
  unfoldable pub check_data :
      ChunkReceiverV03 H → DataV03 → Result (IncomingChunk H × ℕ × ℕ) ReceiverV03Error
  check_data r d = do
    active ← ok_or r.active data_without_active_chunk
    require (d.absolute_offset == active.next_offset)
        (unexpected_data_offset active.next_offset d.absolute_offset)
    end ← ok_or (checked_add d.absolute_offset (length d.bytes)) data_range_overflow
    chunk_end ← ok_or (checked_add active.range.offset active.range.length) data_range_overflow
    let file_size = r.chunk_state.layout.file_size
    require (leb end file_size) (data_exceeds_file_size end file_size)
    require (leb end chunk_end) (data_crosses_chunk_boundary end chunk_end)
    ok (active, end, chunk_end)

  -- What follows the write: the hasher takes the data, and a full chunk is compared.
  unfoldable pub absorb_data :
      ChunkReceiverV03 H
      → IncomingChunk H
      → ℕ
      → ℕ
      → List ℕ
      → ChunkReceiverV03 H × Result (Option VerifiedChunk) ReceiverV03Error
  absorb_data r active end chunk_end bytes =
      let active' : IncomingChunk H = record active {
        hasher = feed active.hasher bytes;
        next_offset = end;
      } in
      let h = finalize active'.hasher in
      let verified : VerifiedChunk = record { index = active.range.index; hash = h } in
      if not (end == chunk_end)
      then (record r { active = some active' }, ok none)
      else if not (hash_eq h active.expected_hash)
      then (record r { active = some active' }, err (chunk_hash_mismatch active.range.index))
      else (record r { active = none; pending_verified = some verified }, ok (some verified))

module _ (H : Hasher) (F : RandomFile) where
  open F use {File, write_at}

  abbrev pub store_data :
      ChunkReceiverV03 H
      → File
      → DataV03
      → IncomingChunk H × ℕ × ℕ
      → (ChunkReceiverV03 H × File) × Result (Option VerifiedChunk) ReceiverV03Error
  store_data r file d (active, end, chunk_end) =
      let (file', failed) = write_at file d.absolute_offset d.bytes in
      elim failed [
        | some e ↦ ((r, file'), err (io e))
        | none ↦
            let (r', result) = absorb_data H r active end chunk_end d.bytes in ((r', file'), result)
      ]

  -- The receiver and the file after the call, and its result.
  unfoldable pub write_data :
      ChunkReceiverV03 H
      → File
      → DataV03
      → (ChunkReceiverV03 H × File) × Result (Option VerifiedChunk) ReceiverV03Error
  write_data r file d = elim (check_data H r d) [
    | ok found ↦ store_data r file d found
    | err e ↦ ((r, file), err e)
    | panic ↦ ((r, file), panic)
  ]

module _ (H : Hasher) (F : RandomFile) (S : ChunkStore) where
  open F use {File, sync}
  open S use {Disk, write_chunk_state}

  -- The state with the chunk recorded, and the chunk.
  unfoldable pub candidate : ChunkReceiverV03 H → Result ChunkState ReceiverV03Error
  candidate r = do
    verified ← ok_or r.pending_verified no_pending_verified_chunk
    let recorded = record_verified_chunk r.chunk_state verified.index verified.hash
    map_err chunk_state recorded.1
    ok recorded.0

  abbrev pub save_candidate :
      ChunkReceiverV03 H
      → File
      → Disk
      → ChunkState
      → (ChunkReceiverV03 H × File × Disk) × Result (Unit {0}) ReceiverV03Error
  save_candidate r file disk next =
      let (file', failed) = sync file in
      elim failed [
        | some e ↦ ((r, file', disk), err (io e))
        | none ↦
            let (disk', refused) = write_chunk_state disk next in
            elim refused [
              | some e ↦ ((r, file', disk'), err (chunk_state e))
              | none ↦
                  ((record r { chunk_state = next; pending_verified = none }, file', disk'), ok tt)
            ]
      ]

  unfoldable pub persist_verified_chunk :
      ChunkReceiverV03 H
      → File
      → Disk
      → (ChunkReceiverV03 H × File × Disk) × Result (Unit {0}) ReceiverV03Error
  persist_verified_chunk r file disk = elim (candidate r) [
    | ok next ↦ save_candidate r file disk next
    | err e ↦ ((r, file, disk), err e)
    | panic ↦ ((r, file, disk), panic)
  ]
