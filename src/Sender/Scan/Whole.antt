-- ===== src/Sender/Scan/Whole.antt =====
-- `SourceScannerV03` and `send_source_chunks_v03` (src/sender_v03.rs) over the whole source.
use mathlib.Core.List.{append-nil}
use warpfile.Common.{ℕ, zero, suc, ◌≡◌, refl, sym, ap, ◌∙◌, arith, subst, List, [], ◌++◌}
use warpfile.Common.{
  Option, none, some, Bool, true, false, ◌==◌, ==→eq, if◌then◌else◌, length, length-zero,
}
use warpfile.Common.{
  Result, ok_injective, ok, inl, inr, Bool-cases, >>=-eq-ok, map_err, map_err-eq-ok, require,
}
use warpfile.Io.{ErrorKind}
use warpfile.Io.Source.{Source}
use warpfile.Chunk.Hash.{ChunkHash}
use warpfile.Chunk.Layout.{ChunkLayout, IsChunkLayout, chunk_count}
use warpfile.Chunk.Layout.Ranges.{offset-ge}
use warpfile.Chunk.Manifest.{Hasher}
use warpfile.Protocol.Stream.{AsyncWrite}
use warpfile.Sender.Scan.{
  ReceiverInventoryV03, SourceChunkV03, io, SourceScannerV03, new, confirm_source_end, scan_chunk,
  next_chunk, finish,
}
use warpfile.Sender.Scan.Sound.{IsScanning, IsSourceChunk, new-IsScanning, scan_chunk-IsScanning}
use warpfile.Sender.Transfer.{
  SenderV03TransferError, source_scan, send_if_needed, after_chunk, send_chunks,
  send_source_chunks_v03,
}

-- The other branch of a test that fails.
else_of :
    {A E : Type 0} (b : Bool) (x y : Result A E) (a : A)
    → b ≡ false
    → (if b then x else y) ≡ ok a
    → y ≡ ok a
else_of true x y a off h = cc
else_of false x y a off h = h

module _ (H : Hasher) (R : Source) (l : ChunkLayout) (valid : IsChunkLayout l) where
  open H use {digest, Absorbed, finalize, finalize_lem}
  open R use {Reader, pending, read, read_lem, read-ne-panic}

  confirm_source_end-IsScanning :
      (s : SourceScannerV03 H R) (r : Reader) (file xs : List ℕ)
      → confirm_source_end H R s ≡ ok r
      → IsScanning H R l valid s file xs
      → s.next_chunk_index ≡ chunk_count l
      → IsScanning H R l valid (record s { source = r; source_length_confirmed = true }) file xs
  unfolding confirm_source_end
  confirm_source_end-IsScanning s r file xs e inv last =
      let (got, p, q) = >>=-eq-ok (map_err io (read s.source 1)) _ e in
      let (_, empty, z) = >>=-eq-ok (require (length got.0 == 0) _) _ q in
      let none_read : length got.0 ≡ 0 = ground arith in
      let nil = length-zero got.0 none_read in
      let (x, _, y) = read_lem s.source got.1 1 got.0 (map_err-eq-ok io (read s.source 1) p) in
      let end : pending s.source ≡ [] = elim y [
        | inl k ↦ absurd (k nil)
        | inr k ↦ elim k [ inl o ↦ absurd (omega arith) | inr o ↦ o ]
      ] in
      let same : got.1 ≡ r = cc z in
      let rest : pending s.source ≡ pending r = rw (nil, same) at x in
      let taken = inv.taken in
      let all = offset-ge l valid s.next_chunk_index (omega arith) in
      record {
        layout = inv.layout;
        whole = inv.whole ∙ ap (λ t. xs ++ t) rest;
        taken = taken;
        count = inv.count;
        absorbed = inv.absorbed;
        confirmed = λ h. (sym rest ∙ end, omega arith);
      }

  -- Where the scanner stands after a call of `next_chunk` that succeeds.
  abbrev pub IsNext :
      SourceScannerV03 H R → List ℕ → List ℕ → SourceScannerV03 H R × Option SourceChunkV03 → Type 0
  IsNext s file xs (s', none) =
      IsScanning H R l valid s' file xs
      × (s'.source_length_confirmed ≡ true)
      × (s'.inventory ≡ s.inventory)
  IsNext s file xs (s', some c) =
      IsScanning H R l valid s' file (xs ++ c.bytes)
      × IsSourceChunk H R l valid s.next_chunk_index file c
      × (s'.next_chunk_index ≡ suc s.next_chunk_index)
      × (s'.source_length_confirmed ≡ false)
      × (s'.inventory ≡ s.inventory)

  -- When `next_chunk` succeeds on a scanner that has taken the bytes `xs` of the file and has not
  -- found its end: either it returns the file's next chunk, with its index, offset, bytes and hash,
  -- and has taken its bytes; or it returns none, and the file has ended at its declared size.
  pub next_chunk-IsNext :
      (s : SourceScannerV03 H R) (file xs : List ℕ)
      (next : SourceScannerV03 H R × Option SourceChunkV03)
      → IsScanning H R l valid s file xs
      → s.source_length_confirmed ≡ false
      → next_chunk H R s ≡ ok next
      → IsNext s file xs next
  unfolding next_chunk
  next_chunk-IsNext s file xs next inv fresh e =
      let y = else_of s.source_length_confirmed _ _ next fresh e in
      elim (Bool-cases (s.next_chunk_index == chunk_count s.layout)) [
        | inl last ↦
            let y' = rw last at y in
            let (r, p, q) = >>=-eq-ok (confirm_source_end H R s) _ y' in
            let at_last = ==→eq _ _ last ∙ ap chunk_count inv.layout in
            subst (IsNext s file xs) (ok_injective q)
              (confirm_source_end-IsScanning s r file xs p inv at_last, refl, refl)
        | inr more ↦
            let y' = rw more at y in
            let (got, p, q) = >>=-eq-ok (scan_chunk H R s) _ y' in
            let (a, b, c, d, f, _) =
              scan_chunk-IsScanning H R l valid s got.0 got.1 file xs p inv fresh in
            subst (IsNext s file xs) (ok_injective q) (a, b, c, d, f)
      ]

  -- The loop of `send_source_chunks_v03`.
  send_chunks-IsScanning :
      (W : AsyncWrite ErrorKind) (fuel : ℕ) (w w' : W.Writer) (s s' : SourceScannerV03 H R)
      (file xs : List ℕ)
      → send_chunks H R W fuel w s ≡ ok (w', s')
      → IsScanning H R l valid s file xs
      → s.source_length_confirmed ≡ false
      → IsScanning H R l valid s' file file
        × (s'.source_length_confirmed ≡ true)
        × (length file ≡ l.file_size)
  unfolding send_chunks
  send_chunks-IsScanning W zero w w' s s' file xs e inv fresh = cc e
  send_chunks-IsScanning W (suc fuel) w w' s s' file xs e inv fresh =
      let (next, p, q) = >>=-eq-ok (map_err source_scan (next_chunk H R s)) _ e in
      let k =
        next_chunk-IsNext s file xs next inv fresh
          (map_err-eq-ok source_scan (next_chunk H R s) p) in
      step W (send_chunks H R W fuel) w w' s s' file xs next q k
        (λ v t ys e1 i f. send_chunks-IsScanning W fuel v w' t s' file ys e1 i f)
    where
      step :
          (W : AsyncWrite ErrorKind)
          (again : W.Writer
            → SourceScannerV03 H R
            → Result (W.Writer × SourceScannerV03 H R) SenderV03TransferError)
          (w w' : W.Writer) (s s' : SourceScannerV03 H R) (file xs : List ℕ)
          (next : SourceScannerV03 H R × Option SourceChunkV03)
          → after_chunk H R W again w next ≡ ok (w', s')
          → IsNext s file xs next
          → ((v : W.Writer) (t : SourceScannerV03 H R) (ys : List ℕ)
              → again v t ≡ ok (w', s')
              → IsScanning H R l valid t file ys
              → t.source_length_confirmed ≡ false
              → IsScanning H R l valid s' file file
                × (s'.source_length_confirmed ≡ true)
                × (length file ≡ l.file_size))
          → IsScanning H R l valid s' file file
            × (s'.source_length_confirmed ≡ true)
            × (length file ≡ l.file_size)
      step W again w w' s s' file xs (t, none) e (inv, done, _) ih =
          let same : t ≡ s' = cc e in
          let (end, size) = inv.confirmed done in
          let all : xs ≡ file = sym (inv.whole ∙ ap (λ z. xs ++ z) end ∙ append-nil xs) in
          let inv' = subst (λ z. IsScanning H R l valid t file z) all inv in
          rw (← same) (inv', done, ap length (sym all) ∙ size)
      step W again w w' s s' file xs (t, some c) e (inv, _, _, fresh, _) ih =
          let (v, _, q) = >>=-eq-ok (send_if_needed W w c c.disposition) _ e in
          ih v t (xs ++ c.bytes) q inv fresh

  -- When `send_source_chunks_v03` succeeds with a fresh scanner: the source has exactly as many bytes
  -- as the layout says, and the hash returned is the digest of all of them.
  pub send_source_chunks_v03_sound :
      (W : AsyncWrite ErrorKind) (w w' : W.Writer) (source : Reader)
      (inventory : ReceiverInventoryV03) (h : ChunkHash)
      → inventory.layout ≡ l
      → send_source_chunks_v03 H R W w (new H R source inventory) ≡ ok (w', h)
      → (length (pending source) ≡ l.file_size) × (h ≡ digest (pending source))
  unfolding send_source_chunks_v03 finish new
  send_source_chunks_v03_sound W w w' source inventory h same e =
      let s = new H R source inventory in
      let (got, p, q) = >>=-eq-ok (send_chunks H R W (suc (chunk_count s.layout)) w s) _ e in
      let (a, _, size) =
        send_chunks-IsScanning W _ w got.0 s got.1 (pending source) [] p
          (new-IsScanning H R l valid source inventory same) refl in
      let (k, p2, q2) = >>=-eq-ok (map_err source_scan (finish H R got.1)) _ q in
      let final : finalize got.1.full_file_hasher ≡ k = ground (arith, p2) in
      let eq : k ≡ h = cc q2 in
      (size, sym eq ∙ sym final ∙ finalize_lem got.1.full_file_hasher (pending source) a.absorbed)
