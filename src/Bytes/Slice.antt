-- ===== src/Bytes/Slice.antt =====
-- `bytes[lo..hi]`, which panics unless `lo <= hi <= bytes.len()`.
use mathlib.Core.List.{append-nil}
use warpfile.Common.{
  ℕ, zero, suc, ◌+◌, ◌-◌, ◌≤◌, ◌<◌, ◌≡◌, refl, sym, ap, ◌∙◌, List, [], ◌∷◌, ◌++◌, arith, leb,
  le→leb, ◌==◌, Bool, true, false, none, some, if◌then◌else◌, ◌&&◌,
}
use warpfile.Common.{
  length, get_elem?, take, drop, Result, ok, panic, ◌>>=◌, length-append, length-take, length-drop,
}
use warpfile.Common.{take-append, drop-append, take-append-drop, drop-drop, All, All-take, All-drop}

unfoldable pub slice {ℓ κ} : {A : Type ℓ} {E : Type κ} → List A → ℕ → ℕ → Result (List A) E
slice xs lo hi = if leb lo hi && leb hi (length xs) then ok (take (hi - lo) (drop lo xs)) else panic

-- `bytes[lo..hi].try_into().expect(..)` to an array of `n`, and `array.copy_from_slice(&bytes[lo..hi])`:
-- both panic unless the slice has `n` elements.
unfoldable pub slice_array {ℓ κ} :
    {A : Type ℓ} {E : Type κ} → ℕ → List A → ℕ → ℕ → Result (List A) E
slice_array n xs lo hi = do ys ← slice xs lo hi; if length ys == n then ok ys else panic

-- `bytes[i]`, which panics unless `i < bytes.len()`.
unfoldable pub index {ℓ κ} : {A : Type ℓ} {E : Type κ} → List A → ℕ → Result A E
index xs i = elim (get_elem? xs i) [ none ↦ panic | some x ↦ ok x ]

-- `a == b` of two byte arrays.
unfoldable pub bytes_eq : List ℕ → List ℕ → Bool
bytes_eq [] [] = true
bytes_eq [] (y ∷ ys) = false
bytes_eq (x ∷ xs) [] = false
bytes_eq (x ∷ xs) (y ∷ ys) = x == y && bytes_eq xs ys

pub bytes_eq→eq : (xs ys : List ℕ) → bytes_eq xs ys ≡ true → xs ≡ ys
unfolding bytes_eq
bytes_eq→eq [] [] h = refl
bytes_eq→eq [] (y ∷ ys) h = cc
bytes_eq→eq (x ∷ xs) [] h = cc
bytes_eq→eq (x ∷ xs) (y ∷ ys) h = ground (arith, bytes_eq→eq xs ys)

pub bytes_eq_refl : (xs : List ℕ) → bytes_eq xs xs ≡ true
unfolding bytes_eq
bytes_eq_refl [] = refl
bytes_eq_refl (x ∷ xs) = ground (arith, bytes_eq_refl xs)

module _ {ℓ κ} {A : Type ℓ} {E : Type κ} where
  -- In bounds a slice is taken.
  pub slice-eq-ok :
      (xs : List A) (lo hi : ℕ)
      → lo ≤ hi
      → hi ≤ length xs
      → slice {E = E} xs lo hi ≡ ok (take (hi - lo) (drop lo xs))
  unfolding slice
  slice-eq-ok xs lo hi h k = rw (le→leb lo hi h, le→leb hi (length xs) k)

  -- A slice of the right length is an array.
  pub slice_array-of_slice :
      (n : ℕ) (xs ys : List A) (lo hi : ℕ)
      → slice {E = E} xs lo hi ≡ ok ys
      → length ys ≡ n
      → slice_array {E = E} n xs lo hi ≡ ok ys
  unfolding slice_array
  slice_array-of_slice n xs ys lo hi h e = ground (arith, h)

  -- The slice between a front and a back.
  pub slice-append :
      (front mid back : List A) (lo hi : ℕ)
      → lo ≡ length front
      → hi ≡ length front + length mid
      → slice {E = E} (front ++ (mid ++ back)) lo hi ≡ ok mid
  slice-append front mid back lo hi hlo hhi =
      let n : hi - lo ≡ length mid = omega arith in
      slice-eq-ok (front ++ (mid ++ back)) lo hi (omega arith)
        (omega (arith, length-append front (mid ++ back), length-append mid back))
      ∙ rw (n, hlo, drop-append, take-append)

  -- The slice behind a front, up to the end.
  pub slice-append_end :
      (front rest : List A) (lo hi : ℕ)
      → lo ≡ length front
      → hi ≡ length front + length rest
      → slice {E = E} (front ++ rest) lo hi ≡ ok rest
  slice-append_end front rest lo hi hlo hhi =
      ap (λ t. slice {E = E} (front ++ t) lo hi) (sym (append-nil rest))
      ∙ slice-append front rest [] lo hi hlo hhi

module _ {ℓ} {A : Type ℓ} where
  pub length-slice :
      (xs : List A) (lo hi : ℕ)
      → lo ≤ hi
      → hi ≤ length xs
      → length (take (hi - lo) (drop lo xs)) ≡ hi - lo
  length-slice xs lo hi h k = length-take (hi - lo) (drop lo xs) (omega (arith, length-drop lo xs))

  -- A list is the slice up to `hi`, and what follows.
  pub slice-append-drop :
      (xs : List A) (lo hi : ℕ) → lo ≤ hi → take (hi - lo) (drop lo xs) ++ drop hi xs ≡ drop lo xs
  slice-append-drop xs lo hi h =
      let e : lo + (hi - lo) ≡ hi = omega arith in
      ap (λ k. take (hi - lo) (drop lo xs) ++ drop k xs) (sym e)
      ∙ ap (λ t. take (hi - lo) (drop lo xs) ++ t) (sym (drop-drop (hi - lo) lo xs))
      ∙ take-append-drop (hi - lo) (drop lo xs)

  pub All-slice {κ} :
      (P : A → Type κ) (xs : List A) (lo hi : ℕ) → All P xs → All P (take (hi - lo) (drop lo xs))
  All-slice P xs lo hi h = All-take P (hi - lo) (drop lo xs) (All-drop P lo xs h)

  -- What `index` reads stands in front of what follows it.
  pub drop-index {κ} :
      {E : Type κ} (xs : List A) (i : ℕ) (x : A)
      → index {E = E} xs i ≡ ok x
      → drop i xs ≡ x ∷ drop (suc i) xs
  unfolding index
  drop-index [] i x h = cc
  drop-index (y ∷ xs) zero x h = ground arith
  drop-index (y ∷ xs) (suc i) x h = drop-index xs i x h

  pub index-eq-ok {κ} :
      {E : Type κ} (xs : List A) (i : ℕ) → i < length xs → (x : A) × (index {E = E} xs i ≡ ok x)
  unfolding index
  index-eq-ok [] i h = absurd (omega arith)
  index-eq-ok (x ∷ xs) zero h = (x, refl)
  index-eq-ok (x ∷ xs) (suc i) h = index-eq-ok xs i (omega arith)

-- Reading field after field: where a field stands at `lo`, its slice is the field, and what follows
-- it stands at its end.
module _ {ℓ} {A : Type ℓ} (xs field rest : List A) (lo hi : ℕ) where
  pub drop-next : drop lo xs ≡ field ++ rest → hi ≡ lo + length field → drop hi xs ≡ rest
  drop-next h e =
      ap (λ k. drop k xs) e
      ∙ sym (drop-drop (length field) lo xs)
      ∙ ap (drop (length field)) h
      ∙ drop-append field rest

  pub slice-of_drop {κ} :
      {E : Type κ}
      → drop lo xs ≡ field ++ rest
      → hi ≡ lo + length field
      → lo ≤ length xs
      → slice {E = E} xs lo hi ≡ ok field
  slice-of_drop h e k =
      let n : hi - lo ≡ length field = omega arith in
      slice-eq-ok xs lo hi (omega arith)
        (omega (arith, length-drop lo xs, ap length h, length-append field rest))
      ∙ rw (n, h) (ap ok (take-append field rest))

module _ {κ} {A : Type 0} {E : Type κ} (xs : List A) (lo hi : ℕ) (ys : List A) where
  -- What a slice returned stands in the list between its bounds.
  pub slice-inversion :
      slice {E = E} xs lo hi ≡ ok ys
      → (ys ≡ take (hi - lo) (drop lo xs))
        × (drop lo xs ≡ ys ++ drop hi xs)
        × (length ys ≡ hi - lo)
        × (lo ≤ hi)
        × (hi ≤ length xs)
  unfolding slice
  slice-inversion h = ground (arith, length-slice xs lo hi, slice-append-drop xs lo hi)

  pub All-of_slice {μ} : (P : A → Type μ) → slice {E = E} xs lo hi ≡ ok ys → All P xs → All P ys
  All-of_slice P h k = rw ((slice-inversion h).0) (All-slice P xs lo hi k)
