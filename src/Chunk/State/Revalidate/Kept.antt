-- ===== src/Chunk/State/Revalidate/Kept.antt =====
-- The records that `revalidate_chunk_state` (src/chunk_state.rs) keeps.
use warpfile.Common.{
  ℕ, suc, ◌+◌, ◌-◌, ◌*◌, ◌≤◌, ◌<◌, ◌≡◌, refl, sym, ap, ◌∙◌, arith, List, [], ◌∷◌, ◌++◌, All,
}
use warpfile.Common.{
  some, Bool, true, false, ◌==◌, ==→eq, ◌&&◌, length, length-drop, length-append, min, Bool-cases,
  inl, inr, Option-cases,
}
use warpfile.Common.{ok, >>=-eq-ok, map_err, map_err-eq-ok}
use warpfile.Bytes.Slice.{bytes_eq→eq}
use warpfile.Io.File.{RandomFile, Readable}
use warpfile.Chunk.Hash.{ChunkHash}
use warpfile.Chunk.Layout.{ChunkLayout, ChunkRange, IsChunkLayout, range, chunk_count}
use warpfile.Chunk.Layout.Ranges.{nth_range, range-some, range_front, offset-lt}
use warpfile.Chunk.Manifest.{Hasher}
use warpfile.Chunk.Manifest.Building.{chunk_bytes}
use warpfile.Chunk.Reading.{hash_chunk, hash_chunk_lem}
use warpfile.Chunk.Search.{RecordedChunk}
use warpfile.Chunk.State.{io, in_range}
use warpfile.Chunk.State.Invariant.{InRange, in_range-lt}
use warpfile.Chunk.State.Lookup.{lookup}
use warpfile.Chunk.Search.Order.{SortedFrom, SortedFrom-mono}
use warpfile.Chunk.State.Revalidate.{is_borne_out, check_chunk, verified_chunks}

module _ (H : Hasher) (l : ChunkLayout) (valid : IsChunkLayout l) where
  open H use {digest}

  -- The whole chunk with an index stands in these contents, and has this hash.
  abbrev pub StandsAt : List ℕ → ℕ → ChunkHash → Type 0
  StandsAt contents i h =
      (digest (chunk_bytes l valid i contents) ≡ h)
      × ((nth_range l valid i).offset + (nth_range l valid i).length ≤ length contents)

module _ (H : Hasher) (l : ChunkLayout) (valid : IsChunkLayout l) {F : RandomFile}
    (O : Readable F) where
  open H use {State, init, finalize, digest, init-Absorbed, finalize_lem}

  abbrev pub Stands : F.File → RecordedChunk → Type 0
  Stands f c = StandsAt H l valid (F.contents f) c.index c.hash

  check_chunk_sound :
      (f : F.File) (c : RecordedChunk) (r : ChunkRange)
      → range l c.index ≡ some r
      → check_chunk H O f c r ≡ ok true
      → Stands f c
  unfolding check_chunk
  check_chunk_sound f c r known e =
      let (reader, p, q) = >>=-eq-ok (map_err _ (O.seek f r.offset)) _ e in
      let (got, p2, q2) =
        >>=-eq-ok (map_err _ (hash_chunk H O.source r.length reader init r.length)) _ q in
      let behind = O.seek_lem f r.offset reader (map_err-eq-ok io (O.seek f r.offset) p) in
      let (front, (a, rest, whole), len) =
        hash_chunk_lem H O.source r.length reader init got.0 r.length got.1 []
          (map_err-eq-ok io (hash_chunk H O.source r.length reader init r.length) p2)
          init-Absorbed in
      let passed : is_borne_out H O c got ≡ true = cc q2 in
      let (all, same) = both (got.1 == 0) _ passed in
      let (below, at) = range-some l valid c.index r known in
      let none_left : got.1 ≡ 0 = ground arith in
      let exact : length front ≡ r.length = omega arith in
      let taken : chunk_bytes l valid c.index (F.contents f) ≡ front =
        range_front r (nth_range l valid c.index) (F.contents f) front rest at (sym behind ∙ whole)
          exact in
      let start = offset-lt l valid c.index below in
      let positive = valid.positive in
      let behind_length : length (F.contents f) - r.offset ≡ length (front ++ rest) =
        sym (length-drop r.offset (F.contents f)) ∙ ap length (sym behind ∙ whole) in
      let sum = length-append front rest in
      let r_offset : r.offset ≡ c.index * l.chunk_size = ap (λ z. z.offset) at in
      let r_length : r.length ≡ min l.chunk_size (l.file_size - c.index * l.chunk_size) =
        ap (λ z. z.length) at in
      (
        ap digest taken
            ∙ sym (finalize_lem got.0 front a)
            ∙ ap (λ b. record { bytes = b }) (bytes_eq→eq _ _ same),
        omega arith,
      )
    where
      both : (a b : Bool) → a && b ≡ true → (a ≡ true) × (b ≡ true)
      both true b h = (refl, h)
      both false b h = cc

  -- The records that are kept: those of the list, in their order, that stand.
  pub verified_chunks_sound :
      (f : F.File) (lo : ℕ) (cs kept : List RecordedChunk)
      → SortedFrom lo cs
      → verified_chunks H O l f cs ≡ ok kept
      → SortedFrom lo kept × All (InRange l) kept × All (Stands f) kept
  unfolding verified_chunks in_range
  verified_chunks_sound f lo [] kept s e = let k : [] ≡ kept = cc e in rw (← k) (tt, tt, tt)
  verified_chunks_sound f lo (c ∷ cs) kept s e = elim (Option-cases (range l c.index)) [
    | inl known ↦
        let y = rw (verified_chunks, known) at e in
        verified_chunks_sound f lo cs kept (SortedFrom-mono (suc c.index) lo cs (omega arith) s.1) y
    | inr (r, known) ↦
        let y = rw (verified_chunks, known) at e in
        let (keep, p, q) = >>=-eq-ok (check_chunk H O f c r) _ y in
        let (rest, p2, q2) = >>=-eq-ok (verified_chunks H O l f cs) _ q in
        let (a, b, d) = verified_chunks_sound f (suc c.index) cs rest s.1 p2 in
        let inside : in_range l c.index ≡ true = rw (in_range, known) refl in
        elim (Bool-cases keep) [
          | inl kept_it ↦
              let e' : c ∷ rest ≡ kept = cc (rw kept_it at q2) in
              rw (← e')
                ((s.0, a), (inside, b), (check_chunk_sound f c r known (p ∙ ap ok kept_it), d))
          | inr left_out ↦
              let e' : rest ≡ kept = cc (rw left_out at q2) in
              rw (← e') (SortedFrom-mono (suc c.index) lo rest (omega arith) a, b, d)
        ]
  ]

  pub stands_at :
      (f : F.File) (i : ℕ) (h : ChunkHash) (cs : List RecordedChunk)
      → All (Stands f) cs
      → lookup i cs ≡ some h
      → StandsAt H l valid (F.contents f) i h
  unfolding lookup
  stands_at f i h [] a e = cc
  stands_at f i h (c ∷ cs) a e = elim (Bool-cases (c.index == i)) [
    | inl same ↦
        let y : some c.hash ≡ some h = rw (lookup, same) at e in
        let k : c.hash ≡ h = cc y in let j = ==→eq c.index i same in rw (← j, ← k) (a.0)
    | inr differ ↦ let y = rw (lookup, differ) at e in stands_at f i h cs a.1 y
  ]

  pub lookup-below_count :
      (i : ℕ) (h : ChunkHash) (cs : List RecordedChunk)
      → All (InRange l) cs
      → lookup i cs ≡ some h
      → i < chunk_count l
  unfolding lookup
  lookup-below_count i h [] a e = cc
  lookup-below_count i h (c ∷ cs) a e = elim (Bool-cases (c.index == i)) [
    | inl same ↦ let j = ==→eq c.index i same in rw (← j) (in_range-lt l valid c.index a.0)
    | inr differ ↦ let y = rw (lookup, differ) at e in lookup-below_count i h cs a.1 y
  ]
