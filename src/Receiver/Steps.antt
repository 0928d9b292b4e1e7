-- ===== src/Receiver/Steps.antt =====
-- `begin_chunk` and `write_data` (src/receiver_v03.rs) and the invariant of a transfer.
use warpfile.Common.{
  ℕ, suc, ◌+◌, ◌-◌, ◌*◌, ◌≤◌, ◌≡◌, ◌≢◌, refl, sym, ap, ◌∙◌, arith, subst, List, [], ◌++◌,
}
use warpfile.Common.{Option, none, some, false, ltb, ◌==◌, ==→eq, eq→==, length, take, drop}
use warpfile.Common.{ok, inl, inr, Bool-cases, Option-cases, Result-cases, ltb→lt, min}
use native.Mathlib.Nat.{mul-le-mul_right}
use warpfile.Io.File.{RandomFile, splice}
use warpfile.Io.File.Splice.{drop-take, length-splice, splice_before, splice_behind, splice_written}
use warpfile.Chunk.Hash.{ChunkHash}
use warpfile.Chunk.Layout.{ChunkLayout, IsChunkLayout, range}
use warpfile.Chunk.Layout.Ranges.{nth_range, range-some, offset-lt}
use warpfile.Chunk.Manifest.{Hasher}
use warpfile.Chunk.Manifest.Building.{chunk_bytes}
use warpfile.Chunk.State.{hash}
use warpfile.Protocol.V03.ChunkStart.{ChunkStartV03}
use warpfile.Protocol.V03.DataFrame.{DataV03}
use warpfile.Receiver.Chunks.{
  VerifiedChunk, IncomingChunk, ChunkReceiverV03, hash_eq, begin_chunk, check_data, absorb_data,
  store_data, write_data,
}
use warpfile.Receiver.Sound.{
  IsIncoming, IsActive, IsReceiving, begin_chunk-inversion, check_data-inversion,
}

module _ (H : Hasher) (l : ChunkLayout) (valid : IsChunkLayout l) where
  open H use {digest, Absorbed, init-Absorbed, feed-Absorbed, finalize_lem, feed, finalize, init}

  drop_taken : (a : ℕ) (c : List ℕ) → drop a (take a c) ≡ []
  drop_taken a c =
      let e : a ≡ a + 0 = omega arith in ap (λ n. drop a (take n c)) e ∙ drop-take a 0 c

  -- The part of the file that a chunk covers is not touched by a write into another chunk.
  chunk_outside :
      (a : IncomingChunk H) (c bytes : List ℕ) (i : ℕ)
      → IsIncoming H l valid a c
      → length c ≡ l.file_size
      → a.range.index ≢ i
      → a.next_offset + length bytes ≤ a.range.offset + a.range.length
      → chunk_bytes l valid i (splice c a.next_offset bytes) ≡ chunk_bytes l valid i c
  chunk_outside a c bytes i inc size differ fits =
      let j = a.range.index in
      let e = inc.range in
      let eo : a.range.offset ≡ j * l.chunk_size = ap (λ q. q.offset) e in
      let el : a.range.length ≡ min l.chunk_size (l.file_size - j * l.chunk_size) =
        ap (λ q. q.length) e in
      let o = offset-lt l valid j inc.below in
      let st = inc.started in
      elim (Bool-cases (ltb i j)) [
        | inl h ↦
            let m = mul-le-mul_right l.chunk_size (ltb→lt _ _ h) in
            let p : suc i * l.chunk_size ≡ i * l.chunk_size + l.chunk_size = omega arith in
            splice_before c a.next_offset bytes (omega arith) (i * l.chunk_size)
              (nth_range l valid i).length (omega arith)
        | inr h ↦
            let after : suc j ≤ i = ground arith in
            let m = mul-le-mul_right l.chunk_size after in
            let p : suc j * l.chunk_size ≡ j * l.chunk_size + l.chunk_size = omega arith in
            ap (take (nth_range l valid i).length)
              (splice_behind c a.next_offset bytes (omega arith) (i * l.chunk_size) (omega arith))
      ]

  -- When `begin_chunk` succeeds on a receiver that satisfies the invariant of a transfer, the receiver
  -- after it satisfies it too: a chunk whose new bytes are awaited no longer counts as verified.
  pub begin_chunk-IsReceiving :
      (r r' : ChunkReceiverV03 H) (s : ChunkStartV03) (c : List ℕ)
      → begin_chunk H r s ≡ ok r'
      → IsReceiving H l valid r c
      → IsReceiving H l valid r' c
  begin_chunk-IsReceiving r r' s c h inv =
      let (np, na, found, at, e) = begin_chunk-inversion H l valid r r' s h in
      let at' : range l s.chunk_index ≡ some found =
        ap (λ k. range k s.chunk_index) (sym inv.layout) ∙ at in
      let (below, geometry) = range-some l valid s.chunk_index found at' in
      rw e (record {
        layout = inv.layout;
        well_formed = inv.well_formed;
        size = inv.size;
        recorded = λ i k q x y. inv.recorded i k q (rw na refl) y;
        active = record {
          range = geometry ∙ ap (nth_range l valid) (sym (ap (λ q. q.index) geometry));
          below = rw (ap (λ q. q.index) geometry) below;
          started = omega arith;
          bounded = omega arith;
          absorbed = subst (Absorbed init) (sym (drop_taken found.offset c)) init-Absorbed;
        };
        pending = rw np tt;
        exclusive = inr np;
      })

  store_data-inversion :
      (F : RandomFile) (r r' : ChunkReceiverV03 H) (f f' : F.File) (d : DataV03)
      (found : IncomingChunk H × ℕ × ℕ) (v : Option VerifiedChunk)
      → store_data H F r f d found ≡ ((r', f'), ok v)
      → ((F.write_at f d.absolute_offset d.bytes).1 ≡ none)
        × (f' ≡ (F.write_at f d.absolute_offset d.bytes).0)
        × (absorb_data H r found.0 found.1 found.2 d.bytes ≡ (r', ok v))
  store_data-inversion F r r' f f' d found v h =
      elim (Option-cases (F.write_at f d.absolute_offset d.bytes).1) [
        | inl e ↦ let y = rw (store_data, e) at h in (e, cc y, cc y)
        | inr (x, e) ↦ let y = rw (store_data, e) at h in cc y
      ]

  -- What `write_data` has done when it succeeds: the write, and what follows it.
  pub write_data-inversion :
      (F : RandomFile) (r r' : ChunkReceiverV03 H) (f f' : F.File) (d : DataV03)
      (v : Option VerifiedChunk)
      → write_data H F r f d ≡ ((r', f'), ok v)
      → (a : IncomingChunk H) × (end : ℕ) × (chunk_end : ℕ) × (check_data H r d
          ≡ ok (a, end, chunk_end))
        × ((F.write_at f d.absolute_offset d.bytes).1 ≡ none)
        × (f' ≡ (F.write_at f d.absolute_offset d.bytes).0)
        × (absorb_data H r a end chunk_end d.bytes ≡ (r', ok v))
  unfolding write_data
  write_data-inversion F r r' f f' d v h = elim (Result-cases (check_data H r d)) [
    | inl (inl (found, e)) ↦
        let (p, q, s) = store_data-inversion F r r' f f' d found v (rw (write_data, e) at h) in
        (found.0, found.1, found.2, e, p, q, s)
    | inl (inr (x, e)) ↦ let y = rw (write_data, e) at h in cc y
    | inr e ↦ let y = rw (write_data, e) at h in cc y
  ]

  module _ (r : ChunkReceiverV03 H) (c : List ℕ) (inv : IsReceiving H l valid r c) (d : DataV03)
      (a : IncomingChunk H) (end chunk_end : ℕ)
      (tested : check_data H r d ≡ ok (a, end, chunk_end)) where
    abbrev c' : List ℕ
    c' = splice c d.absolute_offset d.bytes

    incoming : (r.active ≡ some a) × IsIncoming H l valid a c
    incoming =
        let (p, _, _, _, _, _) = check_data-inversion H l valid r d a end chunk_end tested in
        (p, subst (λ o. IsActive H l valid o c) p inv.active)

    data_bounds :
        (d.absolute_offset ≡ a.next_offset)
        × (end ≡ a.next_offset + length d.bytes)
        × (chunk_end ≡ a.range.offset + a.range.length)
        × (end ≤ chunk_end)
        × (end ≤ length c)
    data_bounds =
        let (_, p, q, s, t, u) = check_data-inversion H l valid r d a end chunk_end tested in
        let layout = ap (λ k. k.file_size) inv.layout in
        let size = inv.size in (p, omega arith, s, u, omega arith)

    -- The hasher and the file take the same bytes.
    fed-Absorbed : Absorbed (feed a.hasher d.bytes) (drop a.range.offset (take end c'))
    fed-Absorbed =
        let (p, q, s, u, v) = data_bounds in
        let inc = incoming.1 in
        let at : end ≡ d.absolute_offset + length d.bytes = omega arith in
        subst (Absorbed (feed a.hasher d.bytes))
          (sym (
            ap (λ n. drop a.range.offset (take n c')) at
            ∙ splice_written c d.absolute_offset d.bytes (omega arith) a.range.offset
                (let st = inc.started in omega arith)
            ∙ ap (λ n. drop a.range.offset (take n c) ++ d.bytes) p))
          (feed-Absorbed a.hasher _ d.bytes inc.absorbed)

    others_kept :
        (i : ℕ) (h : ChunkHash)
        → hash r.chunk_state i ≡ some h
        → (a.range.index == i) ≡ false
        → digest (chunk_bytes l valid i c') ≡ h
    others_kept i h q x =
        let (p, n, s, u, v) = data_bounds in
        let (e, inc) = incoming in
        let free : r.pending_verified ≡ none = elim (inv.exclusive) [
          | inl k ↦ cc (k, e)
          | inr k ↦ k
        ] in
        ap digest (
          ap (λ o. chunk_bytes l valid i (splice c o d.bytes)) p
          ∙ chunk_outside a c d.bytes i inc inv.size (λ k. let y = eq→== _ _ k in cc (x, y))
              (omega arith))
        ∙ inv.recorded i h q (rw e x) (rw free refl)

    abbrev a' : IncomingChunk H
    a' = record a { hasher = feed a.hasher d.bytes; next_offset = end }

    -- The chunk is not full yet.
    partial-IsReceiving : IsReceiving H l valid (record r { active = some a' }) c'
    partial-IsReceiving =
        let (p, n, s, u, v) = data_bounds in
        let (e, inc) = incoming in
        let st = inc.started in
        record {
          layout = inv.layout;
          well_formed = inv.well_formed;
          size = length-splice c d.absolute_offset d.bytes (omega arith) ∙ inv.size;
          recorded = λ i h q x y. others_kept i h q x;
          active = record {
            range = inc.range;
            below = inc.below;
            started = omega arith;
            bounded = omega arith;
            absorbed = fed-Absorbed;
          };
          pending = elim (inv.exclusive) [ inl k ↦ cc (k, e) | inr k ↦ rw k tt ];
          exclusive = elim (inv.exclusive) [ inl k ↦ cc (k, e) | inr k ↦ inr k ];
        }

    -- The chunk is full, and its hash is the digest of its bytes in the file.
    full-IsReceiving :
        end ≡ chunk_end
        → IsReceiving H l valid
            (record r {
              active = none;
              pending_verified = some (record { index = a.range.index; hash = finalize a'.hasher });
            })
            c'
    full-IsReceiving full =
        let (p, n, s, u, v) = data_bounds in
        let (e, inc) = incoming in
        let st = inc.started in
        let at = inc.range in
        let taken : drop a.range.offset (take end c') ≡ chunk_bytes l valid a.range.index c' =
          ap (λ k. drop a.range.offset (take k c')) (full ∙ s)
          ∙ drop-take a.range.offset a.range.length c'
          ∙ ap (λ q. take q.length (drop q.offset c')) at in
        record {
          layout = inv.layout;
          well_formed = inv.well_formed;
          size = length-splice c d.absolute_offset d.bytes (omega arith) ∙ inv.size;
          recorded = λ i h q x y. others_kept i h q y;
          active = tt;
          pending = (inc.below, sym (finalize_lem a'.hasher _ fed-Absorbed ∙ ap digest taken));
          exclusive = inl refl;
        }

    absorb_data-IsReceiving :
        (r' : ChunkReceiverV03 H) (v : Option VerifiedChunk)
        → absorb_data H r a end chunk_end d.bytes ≡ (r', ok v)
        → IsReceiving H l valid r' c'
    unfolding absorb_data
    absorb_data-IsReceiving r' v h = elim (Bool-cases (end == chunk_end)) [
      | inr e ↦
          let y = rw e at h in subst (λ k. IsReceiving H l valid k c') (cc y) partial-IsReceiving
      | inl e ↦ elim (Bool-cases (hash_eq (finalize a'.hasher) a.expected_hash)) [
        | inl m ↦
            let y = rw (e, m) at h in
            subst (λ k. IsReceiving H l valid k c') (cc y) (full-IsReceiving (==→eq _ _ e))
        | inr m ↦ let y = rw (e, m) at h in cc y
      ]
    ]

  -- When `write_data` succeeds on a receiver and a file that satisfy the invariant of a transfer, the
  -- receiver and the file after it satisfy it too: the chunks that are recorded, but for one that is
  -- on its way, still stand in the file, the active chunk's hasher has absorbed what was written of
  -- it, and a chunk that is pending stands in the file with its hash.
  pub write_data-IsReceiving :
      (F : RandomFile) (r r' : ChunkReceiverV03 H) (f f' : F.File) (d : DataV03)
      (v : Option VerifiedChunk)
      → write_data H F r f d ≡ ((r', f'), ok v)
      → IsReceiving H l valid r (F.contents f)
      → IsReceiving H l valid r' (F.contents f')
  write_data-IsReceiving F r r' f f' d v h inv =
      let (a, end, chunk_end, t, w, e, q) = write_data-inversion F r r' f f' d v h in
      let (p, n, s, u, b) = data_bounds r (F.contents f) inv d a end chunk_end t in
      let k = F.write_at_lem f d.absolute_offset d.bytes (omega arith) w in
      subst (IsReceiving H l valid r') (sym (ap F.contents e ∙ k))
        (absorb_data-IsReceiving r (F.contents f) inv d a end chunk_end t r' v q)
