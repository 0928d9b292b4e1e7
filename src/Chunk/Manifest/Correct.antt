-- ===== src/Chunk/Manifest/Correct.antt =====
-- What the builder of a manifest promises: `update` and `finish` on every branch, and the manifest
-- of a file that arrives in pieces.
use mathlib.Core.List.{append-nil, append_assoc}
use warpfile.Common.{ℕ, zero, suc, ◌+◌, ◌≤◌, ◌<◌, ◌≡◌, refl, sym, ap, ◌∙◌, arith, subst}
use warpfile.Common.{
  List, [], ◌∷◌, ◌++◌, some, ◌⊎◌, inl, inr, Bool-cases, ltb, ltb→lt, ltb_false→le,
}
use warpfile.Common.{length, take, drop, length-append, ok, err, ◌>>=◌}
use warpfile.Bytes.Words.{checked_sub, saturating_add}
use warpfile.Chunk.Layout.{ChunkLayout, ChunkRange, IsChunkLayout, range, chunk_count}
use warpfile.Chunk.Layout.Ranges.{range-some, offset-lt}
use warpfile.Chunk.Manifest.{
  Hasher, ChunkManifest, ChunkManifestBuilder, incomplete_data, too_much_data, new, try_update,
  update, update_loop, update_all, finish, manifest_hash,
}
use warpfile.Chunk.Manifest.Building.{chunk_start, IsBuilding}
use warpfile.Chunk.Manifest.Rounds.{round_step}

-- The pieces, one behind the other.
abbrev pub joined : List (List ℕ) → List ℕ
joined [] = []
joined (piece ∷ pieces) = piece ++ joined pieces

module _ (H : Hasher) (l : ChunkLayout) (valid : IsChunkLayout l) where
  open H use {digest, init, Absorbed, init-Absorbed}

  -- A new builder has received nothing.
  pub new-IsBuilding : IsBuilding H l valid (new H l) []
  unfolding new
  new-IsBuilding = record {
    layout = refl;
    received = refl;
    inside = omega arith;
    count = omega arith;
    started = omega arith;
    unfinished =
        let p = valid.positive in
        elim (Bool-cases (ltb 0 l.file_size)) [
          | inl e ↦ let e' = ltb→lt _ _ e in inl (omega arith)
          | inr e ↦ let e' = ltb_false→le _ _ e in inr (omega arith)
        ];
    absorbed =
        let z : 0 ≡ chunk_start l valid 0 = omega arith in
        subst (λ k. Absorbed init (drop k [])) z init-Absorbed;
    hashed = λ i h. absurd (omega arith);
  }

  update_loop_lem :
      (fuel : ℕ) (b : ChunkManifestBuilder H) (xs bytes : List ℕ)
      → IsBuilding H l valid b xs
      → length bytes ≤ fuel
      → length xs + length bytes ≤ l.file_size
      → (b' : ChunkManifestBuilder H) × (update_loop H fuel b bytes ≡ ok b')
        × IsBuilding H l valid b' (xs ++ bytes)
  unfolding update_loop
  update_loop_lem fuel b xs [] inv f h = (b, refl, rw append-nil inv)
  update_loop_lem zero b xs (x ∷ bytes) inv f h = absurd (omega arith)
  update_loop_lem (suc fuel) b xs (x ∷ bytes) inv f h =
      let (b1, front, rest, p, cut, shorter, inv1) =
        round_step H l valid b xs inv (x ∷ bytes) (omega arith) h in
      let n = ap length cut ∙ length-append front rest in
      let (b2, q, inv2) =
        update_loop_lem fuel b1 (xs ++ front) rest inv1 (omega arith)
          (omega (arith, length-append xs front)) in
      (
        b2,
        rw p q,
        subst (IsBuilding H l valid b2) (append_assoc xs front rest ∙ ap (λ t. xs ++ t) (sym cut))
            inv2,
      )

  -- For a layout whose fields are `u64` and whose chunk size is positive and a builder that has
  -- received the bytes `xs`: `update` succeeds when the data still fits the file, and the builder
  -- has then received the data behind `xs`; otherwise it returns `TooMuchData` with the size of
  -- the file and the saturated sum of the lengths, and leaves the builder as it was.
  pub update_cases :
      (b : ChunkManifestBuilder H) (xs bytes : List ℕ)
      → IsBuilding H l valid b xs
      → ((b' : ChunkManifestBuilder H) × (update H b bytes ≡ (b', ok tt))
          × (length xs + length bytes ≤ l.file_size)
          × IsBuilding H l valid b' (xs ++ bytes))
        ⊎ ((l.file_size < length xs + length bytes)
            × (update H b bytes
                ≡ (b, err (too_much_data l.file_size (saturating_add (length xs) (length bytes))))))
  unfolding update try_update checked_sub
  update_cases b xs bytes inv =
      let same = inv.layout in
      let r = inv.received in
      let i = inv.inside in
      elim (Bool-cases (ltb l.file_size (length xs + length bytes))) [
        | inl e ↦ let e' = ltb→lt _ _ e in inr (e', rw (same, r) (ground arith))
        | inr e ↦
            let e' = ltb_false→le _ _ e in
            let (b', p, inv') = update_loop_lem (length bytes) b xs bytes inv (omega arith) e' in
            inl (b', rw (same, r) (ground (arith, p)), e', inv')
      ]

  -- A complete builder has the hash of every chunk.
  all_hashed :
      (b : ChunkManifestBuilder H) (xs : List ℕ)
      → IsBuilding H l valid b xs
      → length xs ≡ l.file_size
      → length b.hashes ≡ chunk_count l
  all_hashed b xs inv full =
      let c = inv.count in
      let ended : chunk_start l valid (length b.hashes) ≡ l.file_size = elim (inv.unfinished) [
        | inl u ↦ absurd (omega arith)
        | inr u ↦ u
      ] in
      elim (Bool-cases (ltb (length b.hashes) (chunk_count l))) [
        | inl e ↦ absurd (omega (arith, offset-lt l valid (length b.hashes) (ltb→lt _ _ e)))
        | inr e ↦ omega (arith, ltb_false→le _ _ e)
      ]

  -- A manifest has the layout `l` and, for each of its ranges and no more, the digest of the bytes
  -- of the file there.
  pub record IsManifest (m : ChunkManifest) (file : List ℕ) : Type 0 where
    pub layout : m.layout ≡ l
    pub count : length m.hashes ≡ chunk_count l
    pub hashed :
        (i : ℕ) (r : ChunkRange)
        → range l i ≡ some r
        → manifest_hash m i ≡ some (digest (take r.length (drop r.offset file)))

  finished-IsManifest :
      (b : ChunkManifestBuilder H) (xs : List ℕ)
      → IsBuilding H l valid b xs
      → length xs ≡ l.file_size
      → IsManifest (record { layout = b.layout; hashes = b.hashes }) xs
  unfolding manifest_hash
  finished-IsManifest b xs inv full = record {
    layout = inv.layout;
    count = all_hashed b xs inv full;
    hashed = λ i r h.
        let (below, e) = range-some l valid i r h in
        inv.hashed i (omega (arith, all_hashed b xs inv full))
        ∙ ap (λ q. some (digest (take q.length (drop q.offset xs)))) (sym e);
  }

  -- For a layout whose fields are `u64` and whose chunk size is positive, and a builder that has
  -- received the bytes `xs`: `finish` returns a manifest of `xs` (the layout, and the digest of
  -- each range and no more) when they are as many as the layout says, and `IncompleteData` with
  -- both numbers when they are fewer; one of the two is the case.
  pub finish_cases :
      (b : ChunkManifestBuilder H) (xs : List ℕ)
      → IsBuilding H l valid b xs
      → ((length xs ≡ l.file_size) × (m : ChunkManifest) × (finish H b ≡ ok m) × IsManifest m xs)
        ⊎ ((length xs < l.file_size) × (finish H b ≡ err (incomplete_data l.file_size (length xs))))
  unfolding finish
  finish_cases b xs inv =
      let same = inv.layout in
      let r = inv.received in
      let i = inv.inside in
      elim (Bool-cases (ltb (length xs) l.file_size)) [
        | inl e ↦ let e' = ltb→lt _ _ e in inr (e', rw (same, r) (ground arith))
        | inr e ↦
            let full : length xs ≡ l.file_size = omega (arith, ltb_false→le _ _ e) in
            inl (
              full,
              record { layout = b.layout; hashes = b.hashes },
              rw (same, r) (ground arith),
              finished-IsManifest b xs inv full,
            )
      ]

  update_all_lem :
      (b : ChunkManifestBuilder H) (xs : List ℕ) (pieces : List (List ℕ))
      → IsBuilding H l valid b xs
      → length xs + length (joined pieces) ≤ l.file_size
      → (b' : ChunkManifestBuilder H) × (update_all H b pieces ≡ ok b')
        × IsBuilding H l valid b' (xs ++ joined pieces)
  unfolding update_all
  update_all_lem b xs [] inv h = (b, refl, rw append-nil inv)
  update_all_lem b xs (piece ∷ pieces) inv h =
      let n = length-append piece (joined pieces) in
      elim (update_cases b xs piece inv) [
        | inr (long, _) ↦ absurd (omega arith)
        | inl (b1, p, _, inv1) ↦
            let (b2, q, inv2) =
              update_all_lem b1 (xs ++ piece) pieces inv1 (omega (arith, length-append xs piece)) in
            (
              b2,
              rw p q,
              subst (IsBuilding H l valid b2) (append_assoc xs piece (joined pieces)) inv2,
            )
      ]

  -- For a layout whose fields are `u64` and whose chunk size is positive, and however a file of
  -- its size is cut into pieces: `new`, one `update` for each piece and `finish` all succeed, and
  -- give a manifest with that layout, as many hashes as it has chunks and, for each of its
  -- ranges, the digest of the bytes of the file in that range.
  pub finish-IsManifest :
      (pieces : List (List ℕ))
      → length (joined pieces) ≡ l.file_size
      → (m : ChunkManifest) × (update_all H (new H l) pieces >>= finish H ≡ ok m)
        × IsManifest m (joined pieces)
  finish-IsManifest pieces h =
      let (b, p, inv) = update_all_lem (new H l) [] pieces new-IsBuilding (omega arith) in
      elim (finish_cases b (joined pieces) inv) [
        | inl (_, m, q, k) ↦ (m, rw p q, k)
        | inr (short, _) ↦ absurd (omega arith)
      ]
