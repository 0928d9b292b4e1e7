-- ===== src/Receiver/Persist.antt =====
-- `persist_verified_chunk` (src/receiver_v03.rs), the invariant of a transfer, and the saved state.
use warpfile.Common.{ℕ, ◌<◌, ◌≡◌, refl, sym, ap, ◌∙◌, arith, subst, List, none, some, true, ◌==◌}
use warpfile.Common.{==→eq, if◌then◌else◌, ok, inl, inr, Bool-cases, Option-cases, Result-cases}
use warpfile.Io.File.{RandomFile}
use warpfile.Chunk.Layout.{ChunkLayout, IsChunkLayout, chunk_count}
use warpfile.Chunk.Layout.Ranges.{range-eq-some}
use warpfile.Chunk.Manifest.{Hasher}
use warpfile.Chunk.Manifest.Building.{chunk_bytes}
use warpfile.Chunk.State.{ChunkState, hash, in_range, record_verified_chunk}
use warpfile.Chunk.State.Invariant.{record-eq-upsert, record-IsWellFormed}
use warpfile.Chunk.State.Lookup.{hash-record}
use warpfile.Receiver.Chunks.{
  VerifiedChunk, ChunkReceiverV03, ChunkStore, candidate, save_candidate, persist_verified_chunk,
}
use warpfile.Receiver.Sound.{IsReceiving, IsPending}

module _ (H : Hasher) (l : ChunkLayout) (valid : IsChunkLayout l) (F : RandomFile)
    (S : ChunkStore) where
  open H use {digest}

  candidate-inversion :
      (r : ChunkReceiverV03 H) (next : ChunkState)
      → candidate H F S r ≡ ok next
      → (p : VerifiedChunk) × (r.pending_verified ≡ some p)
        × (next ≡ (record_verified_chunk r.chunk_state p.index p.hash).0)
  unfolding candidate
  candidate-inversion r next h = ground arith

  save_candidate-inversion :
      (r r' : ChunkReceiverV03 H) (f f' : F.File) (d d' : S.Disk) (next : ChunkState)
      → save_candidate H F S r f d next ≡ ((r', f', d'), ok tt)
      → (f' ≡ (F.sync f).0)
        × ((S.write_chunk_state d next).1 ≡ none)
        × (d' ≡ (S.write_chunk_state d next).0)
        × (r' ≡ record r { chunk_state = next; pending_verified = none })
  save_candidate-inversion r r' f f' d d' next h = elim (Option-cases (F.sync f).1) [
    | inr (x, e) ↦ let y = rw (save_candidate, e) at h in cc y
    | inl e ↦ elim (Option-cases (S.write_chunk_state d next).1) [
      | inr (x, e') ↦ let y = rw (save_candidate, e, e') at h in cc y
      | inl e' ↦ let y = rw (save_candidate, e, e') at h in (cc y, e', cc y, cc y)
    ]
  ]

  persist-inversion :
      (r r' : ChunkReceiverV03 H) (f f' : F.File) (d d' : S.Disk)
      → persist_verified_chunk H F S r f d ≡ ((r', f', d'), ok tt)
      → (next : ChunkState) × (candidate H F S r ≡ ok next)
        × (save_candidate H F S r f d next ≡ ((r', f', d'), ok tt))
  unfolding persist_verified_chunk
  persist-inversion r r' f f' d d' h = elim (Result-cases (candidate H F S r)) [
    | inl (inl (next, e)) ↦ (next, e, rw (persist_verified_chunk, e) at h)
    | inl (inr (x, e)) ↦ let y = rw (persist_verified_chunk, e) at h in cc y
    | inr e ↦ let y = rw (persist_verified_chunk, e) at h in cc y
  ]

  below-in_range : (i : ℕ) → i < chunk_count l → in_range l i ≡ true
  unfolding in_range
  below-in_range i h = let e = range-eq-some l valid i h in ground arith

  -- A pending chunk becomes a recorded one.
  record-IsReceiving :
      (r : ChunkReceiverV03 H) (c : List ℕ) (p : VerifiedChunk)
      → r.pending_verified ≡ some p
      → IsReceiving H l valid r c
      → IsReceiving H l valid
          (record r {
            chunk_state = (record_verified_chunk r.chunk_state p.index p.hash).0;
            pending_verified = none;
          })
          c
  record-IsReceiving r c p e inv =
      let (below, good) = subst (λ o. IsPending H l valid o c) e inv.pending in
      let na : r.active ≡ none = elim (inv.exclusive) [ inl k ↦ k | inr k ↦ cc (k, e) ] in
      let s = r.chunk_state in
      let inside : in_range s.layout p.index ≡ true =
        ap (λ k. in_range k p.index) inv.layout ∙ below-in_range p.index below in
      let u = record-eq-upsert s p.index p.hash inv.well_formed inside in
      record {
        layout = rw u (inv.layout);
        well_formed = (record-IsWellFormed s p.index p.hash inv.well_formed).0;
        size = inv.size;
        recorded = λ i h q x y.
            let look = hash-record s p.index i p.hash inv.well_formed in
            let look' : hash (record_verified_chunk s p.index p.hash).0 i
                ≡ (if p.index == i then some p.hash else hash s i) =
              look ∙ rw inside refl in
            elim (Bool-cases (p.index == i)) [
              | inl k ↦
                  let z : p.hash ≡ h = let y' = rw k at look' in cc (y', q) in
                  ap (λ j. digest (chunk_bytes l valid j c)) (sym (==→eq _ _ k)) ∙ good ∙ z
              | inr k ↦
                  let z : hash s i ≡ some h = let y' = rw k at look' in cc (y', q) in
                  inv.recorded i h z x (rw (e, k) refl)
            ];
        active = inv.active;
        pending = tt;
        exclusive = inr refl;
      }

  -- When `persist_verified_chunk` succeeds on a receiver and a file that satisfy the invariant of a
  -- transfer, the receiver and the file after it satisfy it too, and the state that was saved is the
  -- receiver's chunk state.
  pub persist-IsReceiving :
      (r r' : ChunkReceiverV03 H) (f f' : F.File) (d d' : S.Disk)
      → persist_verified_chunk H F S r f d ≡ ((r', f', d'), ok tt)
      → IsReceiving H l valid r (F.contents f)
      → IsReceiving H l valid r' (F.contents f') × (S.saved d' ≡ some r'.chunk_state)
  persist-IsReceiving r r' f f' d d' h inv =
      let (next, e, s) = persist-inversion r r' f f' d d' h in
      let (p, pe, n) = candidate-inversion r next e in
      let (fe, we, de, re) = save_candidate-inversion r r' f f' d d' next s in
      let same = ap F.contents fe ∙ F.sync_lem f in
      let k = record-IsReceiving r (F.contents f) p pe inv in
      (
        rw (same, re, n) k,
        ap S.saved de
            ∙ S.write_chunk_state_lem d next we
            ∙ ap some (sym (ap (λ q. q.chunk_state) re)),
      )
