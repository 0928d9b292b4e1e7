-- ===== src/Chunk/Manifest/Rounds.antt =====
-- The rounds of `update`.
use warpfile.Common.{
  ℕ, suc, ◌+◌, ◌-◌, ◌*◌, ◌≤◌, ◌<◌, ◌≡◌, refl, sym, ap, ◌∙◌, arith, min, subst, ◌≢◌,
}
use warpfile.Common.{List, [], ◌∷◌, ◌++◌, some, inl, inr, Bool-cases, ◌==◌, ==→eq}
use warpfile.Common.{length, take, drop, get_elem?, length-append, drop-length}
use warpfile.Common.{
  drop_inside, get_elem?-append, get_elem?-last, take-length, length-drop, length-take, ok, ltb,
  ltb→lt, ltb_false→le, take-append-drop,
}
use native.Mathlib.Nat.{mul-le-mul_right}
use warpfile.Bytes.Words.{checked_add, checked_sub}
use warpfile.Chunk.Layout.{ChunkLayout, ChunkRange, IsChunkLayout, range, chunk_count}
use warpfile.Chunk.Layout.Ranges.{nth_range, range-eq-some, offset-lt, offset-ge}
use warpfile.Chunk.Manifest.{Hasher, ChunkManifestBuilder, round, close_chunk}
use warpfile.Chunk.Manifest.Building.{
  chunk_bytes, chunk_start, at_step, IsBuilding, chunk_bytes-append,
}

module _ (H : Hasher) (l : ChunkLayout) (valid : IsChunkLayout l) where
  open H use {
    State, init, feed, finalize, digest, Absorbed, init-Absorbed, feed-Absorbed, finalize_lem,
  }

  module _ (b : ChunkManifestBuilder H) (xs : List ℕ) (inv : IsBuilding H l valid b xs) where
    -- While bytes are missing, the next chunk exists, and it is not full.
    in_chunk :
        length xs < l.file_size
        → (length b.hashes < chunk_count l)
          × (chunk_start l valid (length b.hashes) ≡ length b.hashes * l.chunk_size)
          × (length xs < chunk_start l valid (suc (length b.hashes)))
    in_chunk h =
        let s = inv.started in
        let below : length b.hashes < chunk_count l =
          elim (Bool-cases (ltb (length b.hashes) (chunk_count l))) [
            | inl e ↦ ltb→lt _ _ e
            | inr e ↦
                absurd (omega (arith, offset-ge l valid (length b.hashes) (ltb_false→le _ _ e)))
          ] in
        (
          below,
          omega (arith, offset-lt l valid (length b.hashes) below),
          elim (inv.unfinished) [ inl u ↦ u | inr u ↦ absurd (omega arith) ],
        )

    module _ (bytes : List ℕ) (some_bytes : 0 < length bytes)
        (fits : length xs + length bytes ≤ l.file_size) where
      abbrev r : ChunkRange
      r = nth_range l valid (length b.hashes)

      abbrev taken : ℕ
      taken = min (r.length - b.current_chunk_length) (length bytes)

      abbrev fed : ChunkManifestBuilder H
      fed = record b {
        current_hasher = feed b.current_hasher (take taken bytes);
        current_chunk_length = b.current_chunk_length + taken;
        bytes_received = b.bytes_received + taken;
      }

      next_range : range b.layout (length b.hashes) ≡ some r
      next_range =
          ap (λ k. range k (length b.hashes)) (inv.layout)
          ∙ range-eq-some l valid (length b.hashes) (in_chunk (omega arith)).0

      -- What is taken, and where the chunk stands after it.
      taken_bounds :
          (0 < taken)
          × (taken ≤ length bytes)
          × (b.current_chunk_length + taken ≤ r.length)
          × (r.offset + r.length ≡ chunk_start l valid (suc (length b.hashes)))
          × (r.offset ≡ chunk_start l valid (length b.hashes))
          × (length (xs ++ take taken bytes) ≡ length xs + taken)
      taken_bounds =
          let (c, s, u) = in_chunk (omega arith) in
          let st = inv.started in
          let o = offset-lt l valid (length b.hashes) c in
          let p = at_step l valid (length b.hashes) in
          (
            omega arith,
            omega arith,
            omega arith,
            omega arith,
            omega arith,
            length-append xs (take taken bytes)
                ∙ ap (λ k. length xs + k) (length-take taken bytes (omega arith)),
          )

      round-eq-ok : round H b bytes ≡ ok (close_chunk H fed r, drop taken bytes)
      unfolding round checked_sub checked_add
      round-eq-ok =
          let t = taken_bounds in
          let a = inv.received in
          let st = inv.started in let big = valid.file_size in ground (arith, next_range)

      abbrev xs' : List ℕ
      xs' = xs ++ take taken bytes

      hashed_before :
          (i : ℕ)
          → i < length b.hashes
          → get_elem? b.hashes i ≡ some (digest (chunk_bytes l valid i xs'))
      hashed_before i h =
          let m = mul-le-mul_right l.chunk_size h in
          let p = at_step l valid i in
          let s = inv.started in
          inv.hashed i h
          ∙ ap (λ t. some (digest t))
              (sym (chunk_bytes-append l valid i xs (take taken bytes) (omega arith)))

      fed-Absorbed : Absorbed fed.current_hasher (drop (chunk_start l valid (length b.hashes)) xs')
      fed-Absorbed =
          let s = inv.started in
          subst (Absorbed fed.current_hasher)
            (sym (
              drop_inside (chunk_start l valid (length b.hashes)) xs (take taken bytes)
                (omega arith)))
            (feed-Absorbed b.current_hasher _ (take taken bytes) inv.absorbed)

      open-IsBuilding : b.current_chunk_length + taken ≢ r.length → IsBuilding H l valid fed xs'
      open-IsBuilding short =
          let (c, s, u) = in_chunk (omega arith) in
          let t = taken_bounds in
          let st = inv.started in
          let a = inv.received in
          record {
            layout = inv.layout;
            received = omega arith;
            inside = omega arith;
            count = inv.count;
            started = omega arith;
            unfinished = inl (omega arith);
            absorbed = fed-Absorbed;
            hashed = hashed_before;
          }

      abbrev closed : ChunkManifestBuilder H
      closed = record fed {
        hashes = b.hashes ++ finalize fed.current_hasher ∷ [];
        current_hasher = init;
        current_chunk_length = 0;
      }

      -- The digest of a full chunk.
      full_digest :
          b.current_chunk_length + taken ≡ r.length
          → finalize fed.current_hasher ≡ digest (chunk_bytes l valid (length b.hashes) xs')
      full_digest full =
          let (_, _, _, _, at, grown) = taken_bounds in
          let st = inv.started in
          let n : length (drop r.offset xs') ≡ r.length = length-drop r.offset xs' ∙ omega arith in
          finalize_lem fed.current_hasher _ fed-Absorbed
          ∙ ap digest (
              ap (λ k. drop k xs') (sym at)
              ∙ sym (take-length (drop r.offset xs'))
              ∙ ap (λ k. take k (drop r.offset xs')) n)

      closed-IsBuilding :
          b.current_chunk_length + taken ≡ r.length → IsBuilding H l valid closed xs'
      closed-IsBuilding full =
          let (c, s, u) = in_chunk (omega arith) in
          let t = taken_bounds in
          let st = inv.started in
          let a = inv.received in
          let n : length closed.hashes ≡ suc (length b.hashes) =
            length-append b.hashes (finalize fed.current_hasher ∷ []) ∙ omega arith in
          let p = at_step l valid (length b.hashes) in
          let p' = at_step l valid (suc (length b.hashes)) in
          let z = valid.positive in
          let at_end : chunk_start l valid (suc (length b.hashes)) ≡ length xs' = omega arith in
          record {
            layout = inv.layout;
            received = omega arith;
            inside = omega arith;
            count = omega arith;
            started = rw n (omega arith);
            unfinished = rw n (elim (Bool-cases (ltb (length xs') l.file_size)) [
              | inl e ↦ let e' = ltb→lt _ _ e in inl (omega arith)
              | inr e ↦ let e' = ltb_false→le _ _ e in inr (omega arith)
            ]);
            absorbed = rw (n, at_end, drop-length xs') init-Absorbed;
            hashed = λ i h. elim (Bool-cases (ltb i (length b.hashes))) [
              | inl e ↦
                  let e' = ltb→lt _ _ e in get_elem?-append b.hashes _ i e' ∙ hashed_before i e'
              | inr e ↦
                  let e' : i ≡ length b.hashes = omega (arith, ltb_false→le _ _ e) in
                  rw e' (get_elem?-last b.hashes _ ∙ ap some (full_digest full))
            ];
          }

      -- A round takes at least one byte, and keeps the invariant.
      pub round_step :
          (b' : ChunkManifestBuilder H) × (front : List ℕ) × (rest : List ℕ) × (round H b bytes
            ≡ ok (b', rest))
          × (bytes ≡ front ++ rest)
          × (length rest < length bytes)
          × IsBuilding H l valid b' (xs ++ front)
      unfolding close_chunk
      round_step =
          let t = taken_bounds in
          let shorter : length (drop taken bytes) < length bytes =
            omega (arith, length-drop taken bytes) in
          let cut = sym (take-append-drop taken bytes) in
          elim (Bool-cases (b.current_chunk_length + taken == r.length)) [
            | inl e ↦
                let same : close_chunk H fed r ≡ closed = rw e refl in
                (
                  closed,
                  take taken bytes,
                  drop taken bytes,
                  round-eq-ok ∙ ap (λ k. ok (k, drop taken bytes)) same,
                  cut,
                  shorter,
                  closed-IsBuilding (==→eq _ _ e),
                )
            | inr e ↦
                let same : close_chunk H fed r ≡ fed = rw e refl in
                (
                  fed,
                  take taken bytes,
                  drop taken bytes,
                  round-eq-ok ∙ ap (λ k. ok (k, drop taken bytes)) same,
                  cut,
                  shorter,
                  open-IsBuilding (λ h. ground arith),
                )
          ]
