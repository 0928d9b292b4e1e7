-- ===== src/Sender/Scan/Sound.antt =====
-- `SourceScannerV03` (src/sender_v03.rs): the invariant of a scan, and its step.
use mathlib.Core.List.{append_assoc}
use warpfile.Common.{
  ℕ, suc, ◌-◌, ◌*◌, ◌≤◌, ◌<◌, ◌≡◌, refl, sym, ap, ◌∙◌, arith, subst, List, [], ◌++◌, min,
}
use warpfile.Common.{
  Option, none, some, true, false, ◌==◌, ==→eq, length, length-append, drop, drop-append, get_elem?,
}
use warpfile.Common.{
  ok_injective, ok, inl, inr, Bool-cases, >>=-eq-ok, map_err, map_err-eq-ok, ok_or,
}
use warpfile.Bytes.Words.{checked_add}
use warpfile.Io.Source.{Source, read_full, read_full_lem}
use warpfile.Chunk.Layout.{ChunkLayout, ChunkRange, IsChunkLayout, range, chunk_count}
use warpfile.Chunk.Layout.Ranges.{nth_range, range-some, range_front, offset-lt}
use warpfile.Chunk.Manifest.{Hasher}
use warpfile.Chunk.Manifest.Building.{chunk_bytes, chunk_start, at_step}
use warpfile.Sender.Scan.{
  ReceiverInventoryV03, SourceChunkV03, io, SourceScannerV03, compare_record, new, check_length,
  read_chunk, scan_chunk,
}

next_index : {E : Type 0} (n m : ℕ) (e : E) → ok_or (checked_add n 1) e ≡ ok m → m ≡ suc n
unfolding checked_add
next_index n m e h = ground arith

module _ (H : Hasher) (R : Source) (l : ChunkLayout) (valid : IsChunkLayout l) where
  open H use {digest, Absorbed, init-Absorbed, feed-Absorbed, finalize_lem}
  open R use {Reader, pending, read_lem}

  -- The scanner `s` of a source with the bytes `file` has taken the bytes `xs` of the chunks before
  -- the next one.
  pub record IsScanning (s : SourceScannerV03 H R) (file xs : List ℕ) : Type 0 where
    pub layout : s.layout ≡ l
    pub whole : file ≡ xs ++ pending s.source
    pub taken : length xs ≡ chunk_start l valid s.next_chunk_index
    pub count : s.next_chunk_index ≤ chunk_count l
    pub absorbed : Absorbed s.full_file_hasher xs
    pub confirmed :
        s.source_length_confirmed ≡ true → (pending s.source ≡ []) × (length xs ≡ l.file_size)

  -- The chunk with an index, as the file has it.
  pub record IsSourceChunk (n : ℕ) (file : List ℕ) (c : SourceChunkV03) : Type 0 where
    pub index : c.index ≡ n
    pub below : n < chunk_count l
    pub offset : c.offset ≡ n * l.chunk_size
    pub bytes : c.bytes ≡ chunk_bytes l valid n file
    pub hash : c.hash ≡ digest (chunk_bytes l valid n file)

  pub new-IsScanning :
      (source : Reader) (inventory : ReceiverInventoryV03)
      → inventory.layout ≡ l
      → IsScanning (new H R source inventory) (pending source) []
  unfolding new
  new-IsScanning source inventory e = record {
    layout = e;
    whole = refl;
    taken = omega arith;
    count = omega arith;
    absorbed = init-Absorbed;
    confirmed = λ h. cc h;
  }

  read_chunk_lem :
      (s : SourceScannerV03 H R) (r : ChunkRange) (bytes : List ℕ) (source : Reader)
      → read_chunk H R s r ≡ ok (bytes, source)
      → (pending s.source ≡ bytes ++ pending source) × (length bytes ≡ r.length)
  unfolding read_chunk
  read_chunk_lem s r bytes source e =
      let (got, p, q) = >>=-eq-ok (map_err io (read_full R r.length s.source r.length)) _ e in
      let (x, _, _) =
        read_full_lem R r.length s.source got.1 r.length got.0
          (map_err-eq-ok io (read_full R r.length s.source r.length) p) in
      checked s r got bytes source x q
    where
      checked :
          (s : SourceScannerV03 H R) (r : ChunkRange) (got : List ℕ × Reader) (bytes : List ℕ)
          (source : Reader)
          → pending s.source ≡ got.0 ++ pending got.1
          → check_length H R s r got ≡ ok (bytes, source)
          → (pending s.source ≡ bytes ++ pending source) × (length bytes ≡ r.length)
      checked s r (b, t) bytes source x q = elim (Bool-cases (length b == r.length)) [
        | inl same ↦
            let y = rw same at q in
            let e1 : b ≡ bytes = cc y in
            let e2 : t ≡ source = cc y in let n = ==→eq _ _ same in rw (← e1, ← e2) (x, n)
        | inr short ↦
            let y = rw short at q in
            let (_, _, z) = >>=-eq-ok (ok_or (checked_add r.offset (length b)) _) _ y in cc z
      ]

  -- What a step from `s` says of the scanner behind it and of its chunk.
  abbrev pub IsScanned :
      SourceScannerV03 H R → List ℕ → List ℕ → SourceScannerV03 H R × SourceChunkV03 → Type 0
  IsScanned s file xs (s', c) =
      IsScanning s' file (xs ++ c.bytes)
      × IsSourceChunk s.next_chunk_index file c
      × (s'.next_chunk_index ≡ suc s.next_chunk_index)
      × (s'.source_length_confirmed ≡ false)
      × (s'.inventory ≡ s.inventory)
      × ((c.disposition, s'.inventory_cursor)
          ≡ compare_record (get_elem? s.inventory.records s.inventory_cursor) c.index c.hash
              s.inventory_cursor)

  -- One chunk.
  pub scan_chunk-IsScanning :
      (s s' : SourceScannerV03 H R) (c : SourceChunkV03) (file xs : List ℕ)
      → scan_chunk H R s ≡ ok (s', c)
      → IsScanning s file xs
      → s.source_length_confirmed ≡ false
      → IsScanned s file xs (s', c)
  unfolding scan_chunk
  scan_chunk-IsScanning s s' c file xs e inv fresh =
      let n = s.next_chunk_index in
      let (r, p1, q1) = >>=-eq-ok (ok_or (range s.layout n) _) _ e in
      let (got, p2, q2) = >>=-eq-ok (read_chunk H R s r) _ q1 in
      let (next, p3, q3) = >>=-eq-ok (ok_or (checked_add n 1) _) _ q2 in
      let found : range l n ≡ some r = rw (← inv.layout) (known (range s.layout n) _ r p1) in
      let (below, at) = range-some l valid n r found in
      let up = next_index n next _ p3 in
      let (front, full) = read_chunk_lem s r got.0 got.1 p2 in
      let start = offset-lt l valid n below in
      let step = at_step l valid n in
      let r_offset : r.offset ≡ n * l.chunk_size = ap (λ z. z.offset) at in
      let r_length : r.length ≡ min l.chunk_size (l.file_size - n * l.chunk_size) =
        ap (λ z. z.length) at in
      let taken = inv.taken in
      let behind : drop r.offset file ≡ got.0 ++ pending got.1 =
        drop_at r.offset file xs (pending s.source) inv.whole (omega arith) ∙ front in
      let chunk = range_front r (nth_range l valid n) file got.0 (pending got.1) at behind full in
      let sum = length-append xs got.0 in
      let goal : IsScanning
          (record s {
            source = got.1;
            inventory_cursor =
                (compare_record (get_elem? s.inventory.records s.inventory_cursor) r.index
                  (digest got.0) s.inventory_cursor).1;
            next_chunk_index = next;
            full_file_hasher = H.feed s.full_file_hasher got.0;
          })
          file (xs ++ got.0) =
        record {
          layout = inv.layout;
          whole = inv.whole ∙ ap (λ t. xs ++ t) front ∙ sym (append_assoc xs got.0 (pending got.1));
          taken = rw up (omega arith);
          count = omega arith;
          absorbed = feed-Absorbed s.full_file_hasher xs got.0 inv.absorbed;
          confirmed = λ h. cc (h, fresh);
        } in
      subst (IsScanned s file xs) (ok_injective q3) (
        goal,
        record {
          index = ap (λ z. z.index) at;
          below = below;
          offset = r_offset;
          bytes = sym chunk;
          hash = ap digest (sym chunk);
        },
        up,
        fresh,
        refl,
        refl,
      )
    where
      known : {A E : Type 0} (o : Option A) (e : E) (a : A) → ok_or o e ≡ ok a → o ≡ some a
      known none e a h = cc
      known (some b) e a h = cc h

      drop_at : (n : ℕ) (file xs ys : List ℕ) → file ≡ xs ++ ys → length xs ≡ n → drop n file ≡ ys
      drop_at n file xs ys e k = rw (e, ← k) (drop-append xs ys)
