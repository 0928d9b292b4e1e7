-- ===== src/Receiver/Complete.antt =====
-- `receive_transfer` (src/receiver_v03.rs): the file at COMPLETE.
use warpfile.Common.{ℕ, ◌<◌, ◌≡◌, refl, List, none, some, length, ok}
use warpfile.Io.{ErrorKind}
use warpfile.Io.File.{RandomFile}
use warpfile.Chunk.Hash.{ChunkHash}
use warpfile.Chunk.Layout.{ChunkLayout, IsChunkLayout, chunk_count}
use warpfile.Chunk.Manifest.{Hasher}
use warpfile.Chunk.Manifest.Building.{chunk_bytes}
use warpfile.Chunk.State.{hash}
use warpfile.Protocol.Stream.{AsyncRead}
use warpfile.Receiver.Chunks.{ChunkStore, ChunkReceiverV03}
use warpfile.Receiver.Sound.{IsReceiving}
use warpfile.Receiver.Transfer.{Session, receive_transfer}
use warpfile.Receiver.Transfer.Verified.{AllRecorded, receive_transfer-Holds}
use warpfile.Receiver.Coverage.{hash-full}

module _ (H : Hasher) (l : ChunkLayout) (valid : IsChunkLayout l) where
  -- Every chunk of the layout is recorded, with the digest of its bytes in these contents.
  pub record IsComplete (r : ChunkReceiverV03 H) (contents : List ℕ) : Type 0 where
    pub size : length contents ≡ l.file_size
    pub active : r.active ≡ none
    pub pending : r.pending_verified ≡ none
    pub chunks :
        (i : ℕ)
        → i < chunk_count l
        → (h : ChunkHash) × (hash r.chunk_state i ≡ some h)
          × (H.digest (chunk_bytes l valid i contents) ≡ h)

  complete :
      (r : ChunkReceiverV03 H) (contents : List ℕ)
      → IsReceiving H l valid r contents
      → AllRecorded H r
      → IsComplete r contents
  complete r contents inv (a, p, full) = record {
    size = inv.size;
    active = a;
    pending = p;
    chunks = λ i below.
        let on = inv.layout in
        let (h, known) =
          hash-full r.chunk_state (rw on valid) inv.well_formed full i (rw on below) in
        (h, known, inv.recorded i h known (rw a refl) (rw p refl));
  }

  -- When `receive_transfer` succeeds from a state that satisfies the invariant: the file has the
  -- layout's size, no chunk is on its way, and every chunk of the layout is recorded, with the digest
  -- of the chunk's bytes in the file.
  pub receive_transfer-IsComplete :
      (F : RandomFile) (S : ChunkStore) (A : AsyncRead ErrorKind) (fuel : ℕ) (s s' : Session H F S)
      (reader reader' : A.Reader) (h : ChunkHash)
      → IsReceiving H l valid s.0 (F.contents s.1)
      → receive_transfer H F S A fuel s reader ≡ (s', ok (h, reader'))
      → IsComplete s'.0 (F.contents s'.1)
  receive_transfer-IsComplete F S A fuel s s' reader reader' h inv e =
      let (k, all) = receive_transfer-Holds H l valid F S A fuel s s' reader reader' h e inv in
      complete s'.0 (F.contents s'.1) k all
