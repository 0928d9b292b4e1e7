-- ===== src/Chunk/Reading.antt =====
-- Hashing what a reader yields, through a buffer of 64 KiB: the loops of `revalidate_chunk_state`
-- (src/chunk_state.rs) and of `hash_physical_file_v03` (src/receiver_v03.rs).
pub mod Enough
use mathlib.Core.List.{append_assoc, append-nil}
use warpfile.Common.{
  ℕ, zero, suc, ◌+◌, ◌-◌, ◌*◌, ◌≤◌, ◌<◌, ◌≡◌, ◌≢◌, ◌⊎◌, inl, inr, refl, ap, sym, ◌∙◌, subst, arith,
  List, [], ◌∷◌, ◌++◌, min,
}
use warpfile.Common.{
  length, length-append, Result, ok, err, panic, ◌>>=◌, >>=-eq-ok, Result-cases, Option, some, none,
  if◌then◌else◌, ltb,
}
use warpfile.Bytes.Words.{u64_mod, checked_add}
use warpfile.Io.{ErrorKind}
use warpfile.Io.Source.{Source}
use warpfile.Chunk.Manifest.{Hasher, expect}

-- `REVALIDATION_BUFFER_SIZE` and `FINAL_VERIFICATION_BUFFER_SIZE`
abbrev pub buffer_size : ℕ
buffer_size = 64 * 1024

pub checked_sum : (a b c : ℕ) → expect {A = ℕ} {E = ErrorKind} (checked_add a b) ≡ ok c → c ≡ a + b
unfolding checked_add
checked_sum a b c h = ground arith

module _ (H : Hasher) (R : Source) where
  open H use {State, feed, Absorbed, feed-Absorbed}
  open R use {Reader, read, pending, read_lem, read-ne-panic}

  abbrev pub hash_more :
      (Reader → State → ℕ → Result (State × ℕ) ErrorKind)
      → State
      → ℕ
      → List ℕ × Reader
      → Result (State × ℕ) ErrorKind
  hash_more again h n ([], r) = ok (h, n)
  hash_more again h n (b ∷ bs, r) = again r (feed h (b ∷ bs)) (n - length (b ∷ bs))

  -- `while remaining > 0`: the hasher, and what remained at the end of the file. A unit of fuel for
  -- each read, of which each takes a byte.
  unfoldable pub hash_chunk : ℕ → Reader → State → ℕ → Result (State × ℕ) ErrorKind
  hash_chunk fuel r h zero = ok (h, 0)
  hash_chunk zero r h (suc n) = panic
  hash_chunk (suc fuel) r h (suc n) =
      read r (min (suc n) buffer_size) >>= hash_more (hash_chunk fuel) h (suc n)

  abbrev pub rest_more :
      (Reader → State → ℕ → Result (State × ℕ) ErrorKind)
      → State
      → ℕ
      → List ℕ × Reader
      → Result (State × ℕ) ErrorKind
  rest_more again h total ([], r) = ok (h, total)
  rest_more again h total (b ∷ bs, r) =
      expect (checked_add total (length (b ∷ bs))) >>= λ t. again r (feed h (b ∷ bs)) t

  -- The loop up to the end of the file, with the count of the bytes; an overflow of the count is a
  -- panic. Fuel as above, and a unit for the read that finds the end.
  unfoldable pub hash_rest : ℕ → Reader → State → ℕ → Result (State × ℕ) ErrorKind
  hash_rest zero r h total = panic
  hash_rest (suc fuel) r h total = read r buffer_size >>= rest_more (hash_rest fuel) h total

  -- The hasher has taken the front of what was pending.
  abbrev pub Took : Reader → List ℕ → State → List ℕ → Type 0
  Took r xs h' front = Absorbed h' (xs ++ front) × (rest : List ℕ) × (pending r ≡ front ++ rest)

  nothing_taken :
      (r : Reader) (h h' : State) (xs : List ℕ) → h ≡ h' → Absorbed h xs → Took r xs h' []
  nothing_taken r h h' xs e a = (
    subst (λ z. Absorbed z (xs ++ [])) e (subst (Absorbed h) (sym (append-nil xs)) a),
    pending r,
    refl,
  )

  more_taken :
      (r r' : Reader) (h' : State) (xs got front : List ℕ)
      → pending r ≡ got ++ pending r'
      → Took r' (xs ++ got) h' front
      → Took r xs h' (got ++ front)
  more_taken r r' h' xs got front p (a, rest, q) = (
    subst (Absorbed h') (append_assoc xs got front) a,
    rest,
    p ∙ ap (λ t. got ++ t) q ∙ sym (append_assoc got front rest),
  )

  pub hash_chunk_lem :
      (fuel : ℕ) (r : Reader) (h h' : State) (n m : ℕ) (xs : List ℕ)
      → hash_chunk fuel r h n ≡ ok (h', m)
      → Absorbed h xs
      → (front : List ℕ) × Took r xs h' front × (length front + m ≡ n)
  unfolding hash_chunk
  hash_chunk_lem fuel r h h' zero m xs e a =
      let e1 : h ≡ h' = cc e in
      let e2 : 0 ≡ m = cc e in ([], nothing_taken r h h' xs e1 a, omega arith)
  hash_chunk_lem zero r h h' (suc n) m xs e a = cc
  hash_chunk_lem (suc fuel) r h h' (suc n) m xs e a =
      let (got, p, q) = >>=-eq-ok (read r (min (suc n) buffer_size)) _ e in
      step fuel r h h' n m xs got p q a
        (λ r1 h1 k ys e1 a1. hash_chunk_lem fuel r1 h1 h' k m ys e1 a1)
    where
      step :
          (fuel : ℕ) (r : Reader) (h h' : State) (n m : ℕ) (xs : List ℕ) (got : List ℕ × Reader)
          → read r (min (suc n) buffer_size) ≡ ok got
          → hash_more (hash_chunk fuel) h (suc n) got ≡ ok (h', m)
          → Absorbed h xs
          → ((r1 : Reader) (h1 : State) (k : ℕ) (ys : List ℕ)
              → hash_chunk fuel r1 h1 k ≡ ok (h', m)
              → Absorbed h1 ys
              → (front : List ℕ) × Took r1 ys h' front × (length front + m ≡ k))
          → (front : List ℕ) × Took r xs h' front × (length front + m ≡ suc n)
      step fuel r h h' n m xs ([], r1) p q a ih =
          let e1 : h ≡ h' = cc q in
          let e2 : suc n ≡ m = cc q in ([], nothing_taken r h h' xs e1 a, omega arith)
      step fuel r h h' n m xs (b ∷ bs, r1) p q a ih =
          let (x, k, _) = read_lem r r1 (min (suc n) buffer_size) (b ∷ bs) p in
          let (front, t, len) = ih r1 (feed h (b ∷ bs)) _ _ q (feed-Absorbed h xs (b ∷ bs) a) in
          let le : length (b ∷ bs) ≤ suc n = omega arith in
          let sum = length-append (b ∷ bs) front in
          ((b ∷ bs) ++ front, more_taken r r1 h' xs (b ∷ bs) front x t, omega arith)

  pub hash_rest_lem :
      (fuel : ℕ) (r : Reader) (h h' : State) (total t : ℕ) (xs : List ℕ)
      → hash_rest fuel r h total ≡ ok (h', t)
      → Absorbed h xs
      → Absorbed h' (xs ++ pending r) × (t ≡ total + length (pending r))
  unfolding hash_rest
  hash_rest_lem zero r h h' total t xs e a = cc
  hash_rest_lem (suc fuel) r h h' total t xs e a =
      let (got, p, q) = >>=-eq-ok (read r buffer_size) _ e in
      step (hash_rest fuel) r h h' total t xs got p q a
        (λ r1 h1 k ys e1 a1. hash_rest_lem fuel r1 h1 h' k t ys e1 a1)
    where
      step :
          (again : Reader → State → ℕ → Result (State × ℕ) ErrorKind) (r : Reader) (h h' : State)
          (total t : ℕ) (xs : List ℕ) (got : List ℕ × Reader)
          → read r buffer_size ≡ ok got
          → rest_more again h total got ≡ ok (h', t)
          → Absorbed h xs
          → ((r1 : Reader) (h1 : State) (k : ℕ) (ys : List ℕ)
              → again r1 h1 k ≡ ok (h', t)
              → Absorbed h1 ys
              → Absorbed h' (ys ++ pending r1) × (t ≡ k + length (pending r1)))
          → Absorbed h' (xs ++ pending r) × (t ≡ total + length (pending r))
      step again r h h' total t xs ([], r1) p q a ih =
          let (_, _, z) = read_lem r r1 buffer_size [] p in
          let end : pending r ≡ [] = elim z [
            | inl k ↦ absurd (k refl)
            | inr k ↦ elim k [ inl z ↦ absurd (omega arith) | inr z ↦ z ]
          ] in
          let e1 : h ≡ h' = cc q in
          let e2 : total ≡ t = cc q in
          rw end (
            subst (λ z. Absorbed z (xs ++ [])) e1 (subst (Absorbed h) (sym (append-nil xs)) a),
            omega arith,
          )
      step again r h h' total t xs (b ∷ bs, r1) p q a ih =
          let (x, _, _) = read_lem r r1 buffer_size (b ∷ bs) p in
          let (k, e1, e2) = >>=-eq-ok (expect (checked_add total (length (b ∷ bs)))) _ q in
          let sum = checked_sum total (length (b ∷ bs)) k e1 in
          let (u, v) = ih r1 (feed h (b ∷ bs)) k _ e2 (feed-Absorbed h xs (b ∷ bs) a) in
          let len = length-append (b ∷ bs) (pending r1) in
          rw x (subst (Absorbed h') (append_assoc xs (b ∷ bs) (pending r1)) u, omega arith)
