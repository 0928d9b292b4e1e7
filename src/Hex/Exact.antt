-- ===== src/Hex/Exact.antt =====
-- The parser of hexadecimal text accepts exactly the encodings, in either case of the letters.
use warpfile.Common.{ℕ, ◌+◌, ◌*◌, ◌/◌, ◌%◌, ◌<◌, ◌≡◌, refl, arith, ◌↔◌}
use warpfile.Common.{
  Option, List, [], ◌∷◌, some, none, ◌&&◌, leb, ◌==◌, ==→eq, eq→==, if◌then◌else◌, length, map,
  Bool-cases, inl, inr,
}
use native.Mathlib.Nat.{div-add-mod'}
use warpfile.Bytes.BigEndian.{IsByte, IsBytes}
use warpfile.Chunk.Hash.{ChunkHash, IsChunkHash, chunk_hash_length}
use warpfile.Hex.{
  hex_digit, encode_hex, decode_hex_digit, push_byte, parse_pairs, parse_hex, encode_chunk_hash,
  parse_chunk_hash,
}

-- `u8::to_ascii_lowercase`, on the letters that are digits.
abbrev pub lower : ℕ → ℕ
lower byte = if leb 0x41 byte && leb byte 0x46 then byte + 0x20 else byte

decode_hex_digit_lem : (c v : ℕ) → decode_hex_digit c ≡ some v → (v < 16) × (lower c ≡ hex_digit v)
unfolding decode_hex_digit hex_digit
decode_hex_digit_lem c v h = ground arith

decode_hex_digit-lower : (c v : ℕ) → v < 16 → lower c ≡ hex_digit v → decode_hex_digit c ≡ some v
unfolding decode_hex_digit hex_digit
decode_hex_digit-lower c v b h = ground arith

push_byte-eq-some :
    (a b : Option ℕ) (r : Option (List ℕ)) (bytes : List ℕ)
    → push_byte a b r ≡ some bytes
    → (high : ℕ) × (low : ℕ) × (rest : List ℕ) × (a ≡ some high)
      × (b ≡ some low)
      × (r ≡ some rest)
      × (bytes ≡ (16 * high + low) ∷ rest)
unfolding push_byte
push_byte-eq-some (some high) (some low) (some rest) bytes h =
    (high, low, rest, refl, refl, refl, cc)
push_byte-eq-some (some high) (some low) none bytes h = cc
push_byte-eq-some (some high) none r bytes h = cc
push_byte-eq-some none b r bytes h = cc

-- The digits of a byte are its halves.
halves :
    (high low : ℕ)
    → high < 16
    → low < 16
    → ((16 * high + low) / 16 ≡ high) × ((16 * high + low) % 16 ≡ low) × IsByte (16 * high + low)
halves high low h k = (omega arith, omega arith, omega arith)

pub parse_pairs_sound :
    (text bytes : List ℕ)
    → parse_pairs text ≡ some bytes
    → (length text ≡ length bytes * 2) × IsBytes bytes × (map lower text ≡ encode_hex bytes)
unfolding parse_pairs encode_hex
parse_pairs_sound [] [] h = (refl, tt, refl)
parse_pairs_sound [] (x ∷ bytes) h = cc
parse_pairs_sound (c ∷ []) bytes h = cc
parse_pairs_sound (c ∷ d ∷ text) bytes h =
    let (high, low, rest, p, q, r, s) =
      push_byte-eq-some (decode_hex_digit c) (decode_hex_digit d) (parse_pairs text) bytes h in
    let (bh, eh) = decode_hex_digit_lem c high p in
    let (bl, el) = decode_hex_digit_lem d low q in
    let (n, b, e) = parse_pairs_sound text rest r in
    let (x, y, z) = halves high low bh bl in rw s (omega arith, (z, b), rw (x, y, eh, el, e) refl)

pub parse_pairs_complete :
    (text bytes : List ℕ)
    → IsBytes bytes
    → map lower text ≡ encode_hex bytes
    → parse_pairs text ≡ some bytes
unfolding parse_pairs encode_hex push_byte
parse_pairs_complete [] [] b e = refl
parse_pairs_complete [] (x ∷ bytes) b e = cc
parse_pairs_complete (c ∷ text) [] b e = cc
parse_pairs_complete (c ∷ []) (x ∷ bytes) b e = cc
parse_pairs_complete (c ∷ d ∷ text) (x ∷ bytes) b e =
    let dm = div-add-mod' x 16 in
    let p = decode_hex_digit-lower c (x / 16) (omega (arith, b.0)) cc in
    let q = decode_hex_digit-lower d (x % 16) (omega arith) cc in
    let r = parse_pairs_complete text bytes b.1 cc in
    let m : 16 * (x / 16) + x % 16 ≡ x = omega arith in rw (p, q, r, m) refl

-- `parse_hex` returns bytes exactly when they have the asked number, each is a byte, and the text
-- with its letters in lower case is what `encode_hex` writes for them.
pub parse_hex_iff :
    (size : ℕ) (text bytes : List ℕ)
    → (parse_hex size text ≡ some bytes)
      ↔ ((length bytes ≡ size) × IsBytes bytes × (map lower text ≡ encode_hex bytes))
unfolding parse_hex
parse_hex_iff size text bytes = (
  λ h. elim (Bool-cases (length text == size * 2)) [
    | inl e ↦
        let (n, b, q) = parse_pairs_sound text bytes (cc (h, e)) in
        let m = ==→eq _ _ e in (omega arith, b, q)
    | inr e ↦ cc (h, e)
  ],
  λ (n, b, q).
      let p = parse_pairs_complete text bytes b q in
      let (m, _, _) = parse_pairs_sound text bytes p in
      rw (eq→== (length text) (size * 2) (omega arith), p) refl,
)

lower-hex_digit : (k : ℕ) → k < 16 → lower (hex_digit k) ≡ hex_digit k
unfolding hex_digit
lower-hex_digit k h = ground arith

-- What is encoded has no letter in upper case.
lower-encode_hex :
    (bytes : List ℕ) → IsBytes bytes → map lower (encode_hex bytes) ≡ encode_hex bytes
unfolding encode_hex
lower-encode_hex [] b = refl
lower-encode_hex (x ∷ bytes) b =
    let high = lower-hex_digit (x / 16) (omega (arith, div-add-mod' x 16, b.0)) in
    let low = lower-hex_digit (x % 16) (omega arith) in
    rw (high, low, lower-encode_hex bytes b.1) refl

-- `parse_chunk_hash` is `parse_hex` on the bytes of the hash.
parse_chunk_hash_lem :
    (text : List ℕ) (hash : ChunkHash)
    → (parse_chunk_hash text ≡ some hash) ↔ (parse_hex chunk_hash_length text ≡ some hash.bytes)
unfolding parse_chunk_hash
parse_chunk_hash_lem text hash =
    (λ h. of_bytes (parse_hex chunk_hash_length text) h, λ h. rw (parse_chunk_hash, h) refl)
  where
    of_bytes :
        (r : Option (List ℕ))
        → elim r [ none ↦ none | some bytes ↦ some (record { bytes = bytes }) ] ≡ some hash
        → r ≡ some hash.bytes
    of_bytes none h = cc
    of_bytes (some bytes) h = ground arith

-- A chunk hash of 32 bytes is read back from the text that `encode_chunk_hash` writes for it.
pub parse_chunk_hash-encode :
    (hash : ChunkHash) → IsChunkHash hash → parse_chunk_hash (encode_chunk_hash hash) ≡ some hash
unfolding encode_chunk_hash
parse_chunk_hash-encode hash (n, b) = (parse_chunk_hash_lem (encode_hex hash.bytes) hash).1 (
    (parse_hex_iff chunk_hash_length (encode_hex hash.bytes) hash.bytes).1
      (n, b, lower-encode_hex hash.bytes b))
