-- ===== src/Io/Source.antt =====
-- Reading a stream or a file from front to back, in pieces of any size: `AsyncReadExt::read`.
use mathlib.Core.List.{append_assoc}
use warpfile.Common.{
  ℕ, zero, suc, ◌-◌, ◌≤◌, ◌≡◌, ◌≢◌, ◌⊎◌, inl, inr, refl, ap, sym, ◌∙◌, arith, List, [], ◌∷◌, ◌++◌,
}
use warpfile.Common.{length, length-append, Result, ok, panic, ◌>>=◌, >>=-eq-ok, Result-cases}
use warpfile.Io.{ErrorKind}

-- `pending` are the bytes that a reader still yields. A read of `n` bytes gives at most as many, and
-- none only at the end or when `n` is 0.
pub record Source : Type 1 where
  pub Reader : Type 0
  pub pending : Reader → List ℕ
  pub read : Reader → ℕ → Result (List ℕ × Reader) ErrorKind
  pub read-ne-panic : (r : Reader) (n : ℕ) → read r n ≢ panic
  pub read_lem :
      (r r' : Reader) (n : ℕ) (bytes : List ℕ)
      → read r n ≡ ok (bytes, r')
      → (pending r ≡ bytes ++ pending r')
        × (length bytes ≤ n)
        × ((bytes ≢ []) ⊎ ((n ≡ 0) ⊎ (pending r ≡ [])))

module _ (R : Source) where
  open R use {Reader, read, pending, read_lem, read-ne-panic}

  -- What follows a read: 0 bytes are the end.
  abbrev pub read_more :
      (Reader → ℕ → Result (List ℕ × Reader) ErrorKind)
      → ℕ
      → List ℕ × Reader
      → Result (List ℕ × Reader) ErrorKind
  read_more again n ([], r) = ok ([], r)
  read_more again n (b ∷ bs, r) = do
    (rest, r') ← again r (n - length (b ∷ bs))
    ok (b ∷ (bs ++ rest), r')

  -- `while bytes_read < n`: the bytes that were read, fewer than `n` only at the end. A unit of fuel
  -- for each read, of which each takes a byte.
  unfoldable pub read_full : ℕ → Reader → ℕ → Result (List ℕ × Reader) ErrorKind
  read_full fuel r zero = ok ([], r)
  read_full zero r (suc n) = panic
  read_full (suc fuel) r (suc n) = read r (suc n) >>= read_more (read_full fuel) (suc n)

  -- The bytes stood in front, and are as many as asked for or all there were.
  abbrev pub IsFullRead : Reader → Reader → ℕ → List ℕ → Type 0
  IsFullRead r r' n bytes =
      (pending r ≡ bytes ++ pending r')
      × (length bytes ≤ n)
      × ((length bytes ≡ n) ⊎ (pending r' ≡ []))

  read_more_lem :
      (again : Reader → ℕ → Result (List ℕ × Reader) ErrorKind)
      → ((r r' : Reader) (n : ℕ) (bytes : List ℕ)
          → again r n ≡ ok (bytes, r')
          → IsFullRead r r' n bytes)
      → (r r' : Reader) (n : ℕ) (got : List ℕ × Reader) (bytes : List ℕ) → read r (suc n) ≡ ok got
      → read_more again (suc n) got ≡ ok (bytes, r')
      → IsFullRead r r' (suc n) bytes
  read_more_lem again ih r r' n ([], r1) bytes p q =
      let (x, _, y) = read_lem r r1 (suc n) [] p in
      let e : [] ≡ bytes = cc q in
      let e' : r1 ≡ r' = cc q in
      let end : pending r ≡ [] = elim y [
        | inl k ↦ absurd (k refl)
        | inr k ↦ elim k [ inl z ↦ absurd (omega arith) | inr z ↦ z ]
      ] in
      rw (← e, ← e') (x, omega arith, inr (sym x ∙ end))
  read_more_lem again ih r r' n (b ∷ bs, r1) bytes p q =
      let (x, k, _) = read_lem r r1 (suc n) (b ∷ bs) p in
      let (got, a, z) = >>=-eq-ok (again r1 (suc n - length (b ∷ bs))) _ q in
      let (u, v, w) = ih r1 got.1 _ got.0 a in
      let e : b ∷ (bs ++ got.0) ≡ bytes = cc z in
      let e' : got.1 ≡ r' = cc z in
      let len = length-append bs got.0 in
      rw (← e, ← e')
        (
          x
              ∙ ap (λ t. b ∷ (bs ++ t)) u
              ∙ ap (λ t. b ∷ t) (sym (append_assoc bs got.0 (pending got.1))),
          omega arith,
          elim w [ inl m ↦ inl (omega arith) | inr m ↦ inr m ],
        )

  pub read_full_lem :
      (fuel : ℕ) (r r' : Reader) (n : ℕ) (bytes : List ℕ)
      → read_full fuel r n ≡ ok (bytes, r')
      → IsFullRead r r' n bytes
  unfolding read_full
  read_full_lem fuel r r' zero bytes h =
      let e : [] ≡ bytes = cc h in
      let e' : r ≡ r' = cc h in rw (← e, ← e') (refl, omega arith, inl refl)
  read_full_lem zero r r' (suc n) bytes h = cc
  read_full_lem (suc fuel) r r' (suc n) bytes h =
      let (got, p, q) = >>=-eq-ok (read r (suc n)) _ h in
      read_more_lem (read_full fuel) (λ r r' n bytes. read_full_lem fuel r r' n bytes) r r' n got
        bytes p q

  read_more-ne-panic :
      (again : Reader → ℕ → Result (List ℕ × Reader) ErrorKind) (n : ℕ) (got : List ℕ × Reader)
      → ((r : Reader) (k : ℕ) → k ≤ n → again r k ≢ panic)
      → read_more again (suc n) got ≢ panic
  read_more-ne-panic again n ([], r) ih h = cc h
  read_more-ne-panic again n (b ∷ bs, r) ih h =
      elim (Result-cases (again r (suc n - length (b ∷ bs)))) [
        | inl (inl (x, e)) ↦ let y = rw e at h in cc y
        | inl (inr (x, e)) ↦ let y = rw e at h in cc y
        | inr e ↦ ih r (suc n - length (b ∷ bs)) (omega arith) e
      ]

  -- As much fuel as bytes are asked for is enough.
  pub read_full-ne-panic : (fuel : ℕ) (r : Reader) (n : ℕ) → n ≤ fuel → read_full fuel r n ≢ panic
  unfolding read_full
  read_full-ne-panic fuel r zero h e = cc e
  read_full-ne-panic zero r (suc n) h e = absurd (omega arith)
  read_full-ne-panic (suc fuel) r (suc n) h e = elim (Result-cases (read r (suc n))) [
    | inl (inl (got, p)) ↦
        read_more-ne-panic (read_full fuel) n got
          (λ r k le. read_full-ne-panic fuel r k (omega arith)) (rw (read_full, p) at e)
    | inl (inr (x, p)) ↦ let y = rw (read_full, p) at e in cc y
    | inr p ↦ read-ne-panic r (suc n) p
  ]
