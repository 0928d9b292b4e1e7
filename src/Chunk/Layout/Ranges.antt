-- ===== src/Chunk/Layout/Ranges.antt =====
-- The ranges of a layout: which exist, where they lie, and that they cut the file without a gap or
-- an overlap.
use warpfile.Common.{ℕ, ◌+◌, ◌*◌, ◌-◌, ◌/◌, ◌%◌, ◌≤◌, ◌<◌, ◌≡◌, refl, arith, min, ◌==◌, ltb}
use warpfile.Common.{none, some, ◌⊎◌, inl, inr, ==→eq, ltb→lt, ltb_false→le, Bool-cases}
use warpfile.Common.{List, ◌++◌, length, take, drop, take-append}
use native.Mathlib.Nat.{div-add-mod', mod-lt, mul-le-mul_right}
use warpfile.Bytes.Words.{checked_mul, checked_sub}
use warpfile.Chunk.Layout.{ChunkLayout, ChunkRange, IsChunkLayout, chunk_count, range}

-- A range whose bytes stand in front of what is behind its offset.
pub range_front :
    (r s : ChunkRange) (contents front rest : List ℕ)
    → r ≡ s
    → drop r.offset contents ≡ front ++ rest
    → length front ≡ r.length
    → take s.length (drop s.offset contents) ≡ front
range_front r s contents front rest e whole exact =
    rw (← e, whole, ← exact) (take-append front rest)

module _ (l : ChunkLayout) (valid : IsChunkLayout l) where
  chunk_count_cases :
      (chunk_count l ≡ l.file_size / l.chunk_size) × (l.file_size % l.chunk_size ≡ 0)
      ⊎ (chunk_count l ≡ l.file_size / l.chunk_size + 1) × (0 < l.file_size % l.chunk_size)
  unfolding chunk_count
  chunk_count_cases = elim (Bool-cases (l.file_size % l.chunk_size == 0)) [
    | inl e ↦ inl (rw e refl, ==→eq _ _ e)
    | inr e ↦ inr (rw e refl, ground arith)
  ]

  -- The count is the file size over the chunk size, rounded up.
  pub chunk_count_bounds :
      (l.file_size ≤ chunk_count l * l.chunk_size)
      × (chunk_count l * l.chunk_size < l.file_size + l.chunk_size)
  chunk_count_bounds =
      let d = div-add-mod' l.file_size l.chunk_size in
      let m = mod-lt l.file_size (valid.positive) in
      let p = valid.positive in
      elim chunk_count_cases [
        | inl (e, z) ↦ rw e (omega arith, omega arith)
        | inr (e, z) ↦ rw e (omega arith, omega arith)
      ]

  pub offset-lt : (i : ℕ) → i < chunk_count l → i * l.chunk_size < l.file_size
  offset-lt i h = omega (arith, chunk_count_bounds.1, mul-le-mul_right l.chunk_size h)

  pub offset-ge : (i : ℕ) → chunk_count l ≤ i → l.file_size ≤ i * l.chunk_size
  offset-ge i h = omega (arith, chunk_count_bounds.0, mul-le-mul_right l.chunk_size h)

  -- The range that an index below the count has.
  abbrev pub nth_range : ℕ → ChunkRange
  nth_range i = record {
    index = i;
    offset = i * l.chunk_size;
    length = min l.chunk_size (l.file_size - i * l.chunk_size);
  }

  pub range-eq-some : (i : ℕ) → i < chunk_count l → range l i ≡ some (nth_range i)
  unfolding range checked_mul checked_sub
  range-eq-some i h = ground (arith, offset-lt i h, valid.file_size)

  pub range-eq-none : (i : ℕ) → chunk_count l ≤ i → range l i ≡ none
  unfolding range
  range-eq-none i h = ground arith

  pub range-some :
      (i : ℕ) (r : ChunkRange) → range l i ≡ some r → (i < chunk_count l) × (r ≡ nth_range i)
  range-some i r h = elim (Bool-cases (ltb i (chunk_count l))) [
    | inl below ↦ let b = ltb→lt _ _ below in (b, cc (h, range-eq-some i b))
    | inr above ↦ cc (h, range-eq-none i (ltb_false→le _ _ above))
  ]
