-- ===== src/Receiver/Final.antt =====
-- `ReceivedCompleteV03::verify_complete_file` and `hash_physical_file_v03` (src/receiver_v03.rs):
-- the whole file is read again and hashed.
use warpfile.Common.{ℕ, suc, ◌≡◌, ◌≢◌, ◌<◌, sym, ap, ◌∙◌, arith, [], ◌==◌, true}
use warpfile.Common.{
  length, Result, ok, panic, ◌>>=◌, ◌>>◌, require, map_err, map_err-eq-ok, >>=-eq-ok, Result-cases,
  inl, inr,
}
use warpfile.Bytes.Slice.{bytes_eq, bytes_eq→eq}
use warpfile.Bytes.Words.{u64_mod}
use warpfile.Io.{ErrorKind}
use warpfile.Io.Source.{Source}
use warpfile.Io.File.{RandomFile, Readable}
use warpfile.Chunk.Hash.{ChunkHash}
use warpfile.Chunk.Manifest.{Hasher}
use warpfile.Chunk.Reading.{hash_rest, hash_rest_lem}
use warpfile.Chunk.Reading.Enough.{hash_rest-ne-panic}
use warpfile.Receiver.Chunks.{ChunkReceiverV03, hash_eq}

pub data ReceiverV03VerificationError : Type 0 where
  io : ErrorKind → ReceiverV03VerificationError
  -- expected, actual
  file_size_mismatch : ℕ → ℕ → ReceiverV03VerificationError
  file_hash_mismatch : ReceiverV03VerificationError

same_hash : {a b : ChunkHash} → a.bytes ≡ b.bytes → a ≡ b
same_hash e = ap (λ x. record { bytes = x }) e

module _ (H : Hasher) (R : Source) where
  open H use {State, init, finalize, digest, Absorbed, init-Absorbed, finalize_lem}
  open R use {Reader, pending}

  -- The fuel is one more than the number of the bytes; the loop takes one in each round.
  unfoldable pub hash_physical_file_v03 :
      Reader → ℕ → ChunkHash → Result (Unit {0}) ReceiverV03VerificationError
  hash_physical_file_v03 r expected_size expected_hash = do
    (hasher, bytes_read_total) ← map_err io (hash_rest H R (suc (length (pending r))) r init 0)
    require (bytes_read_total == expected_size) (file_size_mismatch expected_size bytes_read_total)
    require (hash_eq (finalize hasher) expected_hash) file_hash_mismatch
    ok tt

  -- When `hash_physical_file_v03` succeeds, the bytes of the file are as many as expected, and their
  -- digest is the expected hash.
  pub hash_physical_file_v03_sound :
      (r : Reader) (expected_size : ℕ) (expected_hash : ChunkHash)
      → hash_physical_file_v03 r expected_size expected_hash ≡ ok tt
      → (length (pending r) ≡ expected_size) × (digest (pending r) ≡ expected_hash)
  unfolding hash_physical_file_v03
  hash_physical_file_v03_sound r expected_size expected_hash e =
      let (got, p, q) = >>=-eq-ok (map_err io (hash_rest H R _ r init 0)) _ e in
      let (a, total) =
        hash_rest_lem H R _ r init got.0 0 got.1 [] (map_err-eq-ok io (hash_rest H R _ r init 0) p)
          init-Absorbed in
      let (_, size, q') = >>=-eq-ok (require (got.1 == expected_size) _) _ q in
      let (_, same, _) = >>=-eq-ok (require (hash_eq (finalize got.0) expected_hash) _) _ q' in
      let final = finalize_lem got.0 (pending r) a in
      let k : got.1 ≡ expected_size = ground arith in
      let eq : bytes_eq (finalize got.0).bytes expected_hash.bytes ≡ true = ground arith in
      (omega arith, sym final ∙ same_hash (bytes_eq→eq _ _ eq))

  -- `hash_physical_file_v03` never panics, whatever size and hash are expected, on a
  -- file shorter than 2^64 bytes.
  pub hash_physical_file_v03-ne-panic :
      (r : Reader) (expected_size : ℕ) (expected_hash : ChunkHash)
      → length (pending r) < u64_mod
      → hash_physical_file_v03 r expected_size expected_hash ≢ panic
  unfolding hash_physical_file_v03
  hash_physical_file_v03-ne-panic r expected_size expected_hash small e =
      elim (Result-cases (hash_rest H R (suc (length (pending r))) r init 0)) [
        | inl (inl (got, p)) ↦ let y = rw p at e in ground arith
        | inl (inr (x, p)) ↦ let y = rw p at e in cc y
        | inr p ↦ hash_rest-ne-panic H R _ r init 0 (omega arith) (omega arith) p
      ]

-- A file whose COMPLETE has arrived. (Its path and the transfer's identity are not looked at.)
pub record ReceivedCompleteV03 (H : Hasher) (F : RandomFile) : Type 0 where
  pub file : F.File
  pub receiver : ChunkReceiverV03 H
  pub sender_file_hash : ChunkHash

-- The source writes the loop of `hash_physical_file_v03` a second time.
unfoldable pub verify_complete_file :
    {H : Hasher} {F : RandomFile} (O : Readable F)
    → ReceivedCompleteV03 H F
    → Result (ReceivedCompleteV03 H F) ReceiverV03VerificationError
verify_complete_file {H} {F} O c = do
  r ← map_err io (O.seek c.file 0)
  hash_physical_file_v03 H O.source r c.receiver.chunk_state.layout.file_size c.sender_file_hash
  ok c

-- When `verify_complete_file` succeeds, the file has the size of the layout, and the digest of its
-- contents is the hash that the sender gave.
pub verify_complete_file_sound :
    {H : Hasher} {F : RandomFile} (O : Readable F) (c c' : ReceivedCompleteV03 H F)
    → verify_complete_file O c ≡ ok c'
    → (c' ≡ c)
      × (length (F.contents c.file) ≡ c.receiver.chunk_state.layout.file_size)
      × (H.digest (F.contents c.file) ≡ c.sender_file_hash)
unfolding verify_complete_file
verify_complete_file_sound {H} {F} O c c' e =
    let (r, p, q) = >>=-eq-ok (map_err io (O.seek c.file 0)) _ e in
    let (u, s, t) = >>=-eq-ok (hash_physical_file_v03 H O.source r _ c.sender_file_hash) _ q in
    let at_start = O.seek_lem c.file 0 r (map_err-eq-ok io (O.seek c.file 0) p) in
    let k = rw at_start at (hash_physical_file_v03_sound H O.source r _ c.sender_file_hash s) in
    (cc t, k.0, k.1)
