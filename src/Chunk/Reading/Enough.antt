-- ===== src/Chunk/Reading/Enough.antt =====
-- The fuel of the loops over a reader: each read takes a byte, or finds the end.
use warpfile.Common.{ℕ, zero, suc, ◌+◌, ◌≤◌, ◌<◌, ◌≡◌, ◌≢◌, refl, arith, List, [], ◌∷◌, ◌++◌, min}
use warpfile.Common.{length, length-append, Result, ok, panic, inl, inr, Result-cases}
use warpfile.Bytes.Words.{u64_mod, checked_add}
use warpfile.Io.{ErrorKind}
use warpfile.Io.Source.{Source}
use warpfile.Chunk.Manifest.{Hasher, expect}
use warpfile.Chunk.Reading.{buffer_size, hash_chunk, hash_more, hash_rest, rest_more}

no_overflow :
    (a b : ℕ) → a + b < u64_mod → expect {A = ℕ} {E = ErrorKind} (checked_add a b) ≡ ok (a + b)
unfolding checked_add
no_overflow a b h = ground arith

module _ (H : Hasher) (R : Source) where
  open H use {State, feed}
  open R use {Reader, read, pending, read_lem, read-ne-panic}

  hash_more-ne-panic :
      (again : Reader → State → ℕ → Result (State × ℕ) ErrorKind) (h : State) (n : ℕ)
      (got : List ℕ × Reader)
      → ((r : Reader) (h : State) (k : ℕ) → k ≤ n → again r h k ≢ panic)
      → hash_more H R again h (suc n) got ≢ panic
  hash_more-ne-panic again h n ([], r) ih e = cc e
  hash_more-ne-panic again h n (b ∷ bs, r) ih e = ih r _ _ (omega arith) e

  pub hash_chunk-ne-panic :
      (fuel : ℕ) (r : Reader) (h : State) (n : ℕ) → n ≤ fuel → hash_chunk H R fuel r h n ≢ panic
  unfolding hash_chunk
  hash_chunk-ne-panic fuel r h zero le e = cc e
  hash_chunk-ne-panic zero r h (suc n) le e = absurd (omega arith)
  hash_chunk-ne-panic (suc fuel) r h (suc n) le e =
      let want = min (suc n) buffer_size in
      elim (Result-cases (read r want)) [
        | inl (inl (got, p)) ↦
            hash_more-ne-panic (hash_chunk H R fuel) h n got
              (λ r h k le'. hash_chunk-ne-panic fuel r h k (omega arith)) (rw (hash_chunk, p) at e)
        | inl (inr (x, p)) ↦ let y = rw (hash_chunk, p) at e in cc y
        | inr p ↦ read-ne-panic r want p
      ]

  rest_more-ne-panic :
      (again : Reader → State → ℕ → Result (State × ℕ) ErrorKind) (r : Reader) (h : State)
      (total : ℕ) (got : List ℕ × Reader)
      → read r buffer_size ≡ ok got
      → total + length (pending r) < u64_mod
      → ((r' : Reader) (h : State) (t : ℕ)
          → suc (length (pending r')) ≤ length (pending r)
          → t + length (pending r') < u64_mod
          → again r' h t ≢ panic)
      → rest_more H R again h total got ≢ panic
  rest_more-ne-panic again r h total ([], r1) p small ih e = cc e
  rest_more-ne-panic again r h total (b ∷ bs, r1) p small ih e =
      let (x, _, _) = read_lem r r1 buffer_size (b ∷ bs) p in
      let split : length (pending r) ≡ length ((b ∷ bs) ++ pending r1) = rw x refl in
      let len = length-append (b ∷ bs) (pending r1) in
      let sum = no_overflow total (length (b ∷ bs)) (omega arith) in
      ih r1 _ _ (omega arith) (omega arith) (rw sum at e)

  pub hash_rest-ne-panic :
      (fuel : ℕ) (r : Reader) (h : State) (total : ℕ)
      → length (pending r) < fuel
      → total + length (pending r) < u64_mod
      → hash_rest H R fuel r h total ≢ panic
  unfolding hash_rest
  hash_rest-ne-panic zero r h total le small e = absurd (omega arith)
  hash_rest-ne-panic (suc fuel) r h total le small e = elim (Result-cases (read r buffer_size)) [
    | inl (inl (got, p)) ↦
        rest_more-ne-panic (hash_rest H R fuel) r h total got p small
          (λ r' h t k small'. hash_rest-ne-panic fuel r' h t (omega arith) small')
          (rw (hash_rest, p) at e)
    | inl (inr (x, p)) ↦ let y = rw (hash_rest, p) at e in cc y
    | inr p ↦ read-ne-panic r buffer_size p
  ]
