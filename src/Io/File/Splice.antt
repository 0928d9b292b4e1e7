-- ===== src/Io/File/Splice.antt =====
-- What a write changes of the contents of a file, and what it leaves.
use mathlib.Core.List.{append_assoc}
use warpfile.Common.{ℕ, zero, suc, ◌+◌, ◌-◌, ◌≤◌, ◌≡◌, sym, ap, ◌∙◌, arith, List, [], ◌∷◌, ◌++◌}
use warpfile.Common.{
  length, take, drop, length-append, length-take, length-drop, take-append, drop-append,
  take-append-drop,
}
use warpfile.Common.{take_inside, drop_inside, drop-drop}
use warpfile.Io.File.{splice}

module _ {ℓ} {A : Type ℓ} where
  pub drop-take : (a k : ℕ) (xs : List A) → drop a (take (a + k) xs) ≡ take k (drop a xs)
  drop-take zero k xs = let e : 0 + k ≡ k = omega arith in ap (λ n. take n xs) e
  drop-take (suc a) zero [] =
      let e : suc a + 0 ≡ suc a = omega arith in ap (λ n. drop (suc a) (take n [])) e
  drop-take (suc a) (suc k) [] =
      let e : suc a + suc k ≡ suc (a + suc k) = omega arith in ap (λ n. drop (suc a) (take n [])) e
  drop-take (suc a) k (x ∷ xs) =
      let e : suc a + k ≡ suc (a + k) = omega arith in
      ap (λ n. drop (suc a) (take n (x ∷ xs))) e ∙ drop-take a k xs

  -- A part of the front.
  part-front :
      (a k : ℕ) (xs ys : List A)
      → a + k ≤ length xs
      → take k (drop a (xs ++ ys)) ≡ take k (drop a xs)
  part-front a k xs ys h =
      ap (take k) (drop_inside a xs ys (omega arith))
      ∙ take_inside k (drop a xs) ys (omega (arith, length-drop a xs))

  drop-back : (a : ℕ) (xs ys : List A) → length xs ≤ a → drop a (xs ++ ys) ≡ drop (a - length xs) ys
  drop-back a xs ys h =
      let e : length xs + (a - length xs) ≡ a = omega arith in
      ap (λ n. drop n (xs ++ ys)) (sym e)
      ∙ sym (drop-drop (a - length xs) (length xs) (xs ++ ys))
      ∙ ap (drop (a - length xs)) (drop-append xs ys)

module _ (c : List ℕ) (o : ℕ) (bytes : List ℕ) (fits : o + length bytes ≤ length c) where
  length-front : length (take o c) ≡ o
  length-front = length-take o c (omega arith)

  pub length-splice : length (splice c o bytes) ≡ length c
  length-splice = omega (
    arith,
    length-append (take o c) (bytes ++ drop (o + length bytes) c),
    length-append bytes (drop (o + length bytes) c),
    length-drop (o + length bytes) c,
    length-front,
  )

  -- What stands in front of the write stays.
  pub splice_before : (a k : ℕ) → a + k ≤ o → take k (drop a (splice c o bytes)) ≡ take k (drop a c)
  splice_before a k h =
      let n = length-front in
      part-front a k (take o c) (bytes ++ drop (o + length bytes) c) (omega arith)
      ∙ sym (part-front a k (take o c) (drop o c) (omega arith))
      ∙ ap (λ t. take k (drop a t)) (take-append-drop o c)

  -- What stands behind it stays.
  pub splice_behind : (a : ℕ) → o + length bytes ≤ a → drop a (splice c o bytes) ≡ drop a c
  splice_behind a h =
      let n = length-append (take o c) bytes in
      let f = length-front in
      let e : o + length bytes + (a - length (take o c ++ bytes)) ≡ a = omega arith in
      ap (drop a) (sym (append_assoc (take o c) bytes (drop (o + length bytes) c)))
      ∙ drop-back a (take o c ++ bytes) (drop (o + length bytes) c) (omega arith)
      ∙ drop-drop (a - length (take o c ++ bytes)) (o + length bytes) c
      ∙ ap (λ n. drop n c) e

  -- What was written follows what stands in front of it.
  pub splice_written :
      (a : ℕ)
      → a ≤ o
      → drop a (take (o + length bytes) (splice c o bytes)) ≡ drop a (take o c) ++ bytes
  splice_written a h =
      let n = length-append (take o c) bytes in
      let f = length-front in
      let e : length (take o c ++ bytes) ≡ o + length bytes = omega arith in
      ap (λ k. drop a (take k (splice c o bytes))) (sym e)
      ∙ ap (λ t. drop a (take (length (take o c ++ bytes)) t))
          (sym (append_assoc (take o c) bytes (drop (o + length bytes) c)))
      ∙ ap (drop a) (take-append (take o c ++ bytes) (drop (o + length bytes) c))
      ∙ drop_inside a (take o c) bytes (omega arith)
