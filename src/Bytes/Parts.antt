-- ===== src/Bytes/Parts.antt =====
-- A payload cut at fixed bounds: what a decoder knows of the fields that it has read.
use warpfile.Common.{
  ℕ, ◌+◌, ◌-◌, ◌^◌, ◌≡◌, ◌≤◌, ◌<◌, ◌∙◌, arith, List, ◌++◌, length, take, drop, ok,
}
use warpfile.Bytes.BigEndian.{
  IsByte, IsBytes, to_be_bytes, from_be_bytes, to_be_bytes-from_be_bytes, from_be_bytes-lt,
}
use warpfile.Bytes.Slice.{
  slice, slice_array, slice_array-of_slice, slice-eq-ok, length-slice, All-slice, slice-append-drop,
}

module _ (payload : List ℕ) where
  -- `payload[lo..hi]`, where that is in bounds.
  abbrev pub part : ℕ → ℕ → List ℕ
  part lo hi = take (hi - lo) (drop lo payload)

  pub slice-eq-part :
      {E : Type 0} (lo hi : ℕ)
      → lo ≤ hi
      → hi ≤ length payload
      → slice {E = E} payload lo hi ≡ ok (part lo hi)
  slice-eq-part lo hi h k = slice-eq-ok payload lo hi h k

  pub array-eq-part :
      {E : Type 0} (n lo hi : ℕ)
      → hi ≡ lo + n
      → hi ≤ length payload
      → slice_array {E = E} n payload lo hi ≡ ok (part lo hi)
  array-eq-part n lo hi h k =
      slice_array-of_slice n payload (part lo hi) lo hi (slice-eq-part lo hi (omega arith) k)
        (length-slice payload lo hi (omega arith) k ∙ omega arith)

  -- A field, and what stands behind it.
  pub part-append-drop : (lo hi : ℕ) → lo ≤ hi → part lo hi ++ drop hi payload ≡ drop lo payload
  part-append-drop lo hi h = slice-append-drop payload lo hi h

  module _ (size : ℕ) (long : length payload ≡ size) where
    -- A field is as long as its bounds say.
    pub length-part : (lo hi w : ℕ) → hi ≡ lo + w → hi ≤ size → length (part lo hi) ≡ w
    length-part lo hi w e h = length-slice payload lo hi (omega arith) (omega arith) ∙ omega arith

    module _ (b : IsBytes payload) where
      pub part-IsBytes : (lo hi : ℕ) → IsBytes (part lo hi)
      part-IsBytes lo hi = All-slice IsByte payload lo hi b

      -- A number field fits its width.
      pub number-lt : (w lo hi : ℕ) → hi ≡ lo + w → hi ≤ size → from_be_bytes (part lo hi) < 256 ^ w
      number-lt w lo hi e h =
          from_be_bytes-lt w (part lo hi) (length-part lo hi w e h) (part-IsBytes lo hi)

      -- A number that was read from a field is written back to it.
      pub write_back :
          (w lo hi k : ℕ)
          → k ≡ from_be_bytes (part lo hi)
          → hi ≡ lo + w
          → hi ≤ size
          → to_be_bytes w k ≡ part lo hi
      write_back w lo hi k r e h =
          rw r (
            to_be_bytes-from_be_bytes w (part lo hi) (length-part lo hi w e h) (part-IsBytes lo hi))
