-- ===== src/Chunk/Layout/Cover.antt =====
-- The ranges of a layout cut the file: each lies inside it, each starts where the one before ends,
-- the last ends with the file, and every byte lies in exactly one.
use warpfile.Common.{ℕ, suc, ◌+◌, ◌*◌, ◌/◌, ◌≤◌, ◌<◌, ◌≡◌, refl, sym, ◌∙◌, arith, ltb}
use warpfile.Common.{none, some, ◌⊎◌, inl, inr, Bool-cases, ltb→lt, ltb_false→le}
use native.Mathlib.Nat.{div-add-mod', mod-lt, div-lt_iff_lt-mul, div-eq_of_lt-le}
use warpfile.Chunk.Layout.{ChunkLayout, ChunkRange, IsChunkLayout, chunk_count, range}
use warpfile.Chunk.Layout.Ranges.{
  nth_range, range-some, range-eq-some, range-eq-none, offset-lt, offset-ge, chunk_count_bounds,
}

-- The byte at offset `b` lies in the range.
pub record Holds (r : ChunkRange) (b : ℕ) : Type 0 where
  pub start : r.offset ≤ b
  pub before_end : b < r.offset + r.length

module _ (l : ChunkLayout) (valid : IsChunkLayout l) where
  abbrev at_step : (i : ℕ) → suc i * l.chunk_size ≡ i * l.chunk_size + l.chunk_size
  at_step i = omega arith

  nth_range_inside :
      (i : ℕ)
      → i < chunk_count l
      → (0 < (nth_range l valid i).length)
        × ((nth_range l valid i).length ≤ l.chunk_size)
        × (i * l.chunk_size + (nth_range l valid i).length ≤ l.file_size)
  nth_range_inside i h =
      let o = offset-lt l valid i h in
      let p = valid.positive in (omega arith, omega arith, omega arith)

  -- For a layout whose fields are `u64` and whose chunk size is positive: the range that `range`
  -- returns for an index has that index, is not empty, is no longer than a chunk, and ends inside
  -- the file.
  pub range_inside :
      (i : ℕ) (r : ChunkRange)
      → range l i ≡ some r
      → (r.index ≡ i)
        × (0 < r.length)
        × (r.length ≤ l.chunk_size)
        × (r.offset + r.length ≤ l.file_size)
  range_inside i r h =
      let (b, e) = range-some l valid i r h in
      let (p, q, s) = nth_range_inside i b in rw e (refl, p, q, s)

  -- For a layout whose fields are `u64` and whose chunk size is positive: a range that `range`
  -- returns ends where the range of the next index starts or, where the next index has none, with
  -- the file.
  pub range_contiguous :
      (i : ℕ) (r : ChunkRange)
      → range l i ≡ some r
      → ((q : ChunkRange) × (range l (suc i) ≡ some q) × (q.offset ≡ r.offset + r.length))
        ⊎ ((range l (suc i) ≡ none) × (r.offset + r.length ≡ l.file_size))
  range_contiguous i r h =
      let (b, e) = range-some l valid i r h in
      let o = offset-lt l valid i b in
      elim (Bool-cases (ltb (suc i) (chunk_count l))) [
        | inl more ↦
            let m = ltb→lt _ _ more in
            let o' = offset-lt l valid (suc i) m in
            inl
              (nth_range l valid (suc i), range-eq-some l valid (suc i) m, rw e (omega (arith, o')))
        | inr last ↦
            let m = ltb_false→le _ _ last in
            let o' = offset-ge l valid (suc i) m in
            inr (range-eq-none l valid (suc i) m, rw e (omega (arith, o')))
      ]

  -- For a layout whose fields are `u64` and whose chunk size is positive: for every byte offset
  -- below the file size there is an index whose range holds it.
  pub range_covers :
      (b : ℕ) → b < l.file_size → (i : ℕ) × (r : ChunkRange) × (range l i ≡ some r) × Holds r b
  range_covers b h =
      let i = b / l.chunk_size in
      let d = div-add-mod' b l.chunk_size in
      let m = mod-lt b (valid.positive) in
      let below : i < chunk_count l =
        (div-lt_iff_lt-mul (valid.positive)).1 (omega (arith, (chunk_count_bounds l valid).0)) in
      (
        i,
        nth_range l valid i,
        range-eq-some l valid i below,
        record { start = omega arith; before_end = omega arith },
      )

  index-eq-div : (i b : ℕ) (r : ChunkRange) → range l i ≡ some r → Holds r b → i ≡ b / l.chunk_size
  index-eq-div i b r h k =
      let (below, e) = range-some l valid i r h in
      let k' : Holds (nth_range l valid i) b = rw (← e) k in
      sym (div-eq_of_lt-le l.chunk_size (k'.start) (omega arith))

  -- For a layout whose fields are `u64` and whose chunk size is positive: two indices whose
  -- ranges hold one byte are equal.
  pub ranges_disjoint :
      (i j b : ℕ) (r q : ChunkRange)
      → range l i ≡ some r
      → range l j ≡ some q
      → Holds r b
      → Holds q b
      → i ≡ j
  ranges_disjoint i j b r q h k x y = index-eq-div i b r h x ∙ sym (index-eq-div j b q k y)
