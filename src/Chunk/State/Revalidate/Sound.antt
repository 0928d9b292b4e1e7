-- ===== src/Chunk/State/Revalidate/Sound.antt =====
-- `prepare_chunk_inventory` (src/chunk_state.rs) against the contents of the partial file.
use warpfile.Common.{ℕ, ◌<◌, ◌≡◌, refl, sym, ap, ◌∙◌, arith, subst, List, [], ◌∷◌, All}
use warpfile.Common.{some, true, Bool-cases, inl, inr}
use warpfile.Common.{Result, ok, err, panic, >>=-eq-ok}
use warpfile.Io.{ErrorKind, is_not_found}
use warpfile.Io.File.{RandomFile, Readable}
use warpfile.Chunk.Hash.{ChunkHash}
use warpfile.Chunk.Layout.{ChunkLayout, IsChunkLayout, chunk_count}
use warpfile.Chunk.Manifest.{Hasher}
use warpfile.Chunk.Search.{RecordedChunk}
use warpfile.Chunk.State.{
  ChunkState, ChunkStateError, io, json, root_not_object, missing_field, invalid_field,
  unsupported_format_version, invalid_chunk_hash, chunk_index_out_of_range, duplicate_chunk_index,
  unordered_chunk_indices, new, hash,
}
use warpfile.Chunk.State.Invariant.{IsWellFormed, InRange, new_iff}
use warpfile.Chunk.State.Lookup.{hash-eq-lookup}
use warpfile.Chunk.State.Revalidate.{
  verified_chunks, revalidate_chunks, revalidate_opened, revalidate_chunk_state,
  prepare_chunk_inventory, layout_eq,
}
use warpfile.Chunk.State.Revalidate.Kept.{
  StandsAt, Stands, verified_chunks_sound, stands_at, lookup-below_count,
}

module _ (H : Hasher) (l : ChunkLayout) (valid : IsChunkLayout l) {F : RandomFile}
    (O : Readable F) where
  -- What a state that has been revalidated says.
  pub record IsBorneOut (f : F.File) (s : ChunkState) : Type 0 where
    pub layout : s.layout ≡ l
    pub well_formed : IsWellFormed s
    pub stands :
        (i : ℕ) (h : ChunkHash)
        → hash s i ≡ some h
        → (i < chunk_count l) × StandsAt H l valid (F.contents f) i h

  new-IsBorneOut :
      (f : F.File) (cs : List RecordedChunk) (s : ChunkState)
      → new l cs ≡ ok s
      → All (Stands H l valid O f) cs
      → IsBorneOut f s
  new-IsBorneOut f cs s e a =
      let (k, w) = (new_iff l cs s).0 e in
      record {
        layout = ap (λ z. z.layout) k;
        well_formed = w;
        stands = λ i h known.
            let at = sym (hash-eq-lookup s i w) ∙ known in
            let on : s.layout ≡ l = ap (λ z. z.layout) k in
            (
              lookup-below_count H l valid O i h s.chunks
                  (subst (λ z. All (InRange z) s.chunks) on w.ranged) at,
              stands_at H l valid O f i h s.chunks (rw k a) at,
            );
      }

  empty-IsBorneOut : (f : F.File) (s : ChunkState) → new l [] ≡ ok s → IsBorneOut f s
  empty-IsBorneOut f s e = new-IsBorneOut f [] s e tt

  revalidate_opened-IsBorneOut :
      (f : F.File) (s s' : ChunkState) (opened : Result F.File ErrorKind)
      → ((g : F.File) → opened ≡ ok g → F.contents g ≡ F.contents f)
      → s.layout ≡ l
      → IsWellFormed s
      → revalidate_opened H O s opened ≡ ok s'
      → IsBorneOut f s'
  revalidate_opened-IsBorneOut f s s' (ok g) same k w e =
      let (kept, p, q) = >>=-eq-ok (verified_chunks H O s.layout g s.chunks) _ e in
      let (_, _, a) = verified_chunks_sound H l valid O g 0 s.chunks kept w.sorted (rw k at p) in
      let b = new-IsBorneOut g kept s' (rw k at q) a in
      record {
        layout = b.layout;
        well_formed = b.well_formed;
        stands = λ i h known. rw (← same g refl) (b.stands i h known);
      }
  revalidate_opened-IsBorneOut f s s' (err x) same k w e = elim (Bool-cases (is_not_found x)) [
    | inl absent ↦ let y = rw absent at e in empty-IsBorneOut f s' (rw k at y)
    | inr there ↦ let y = rw there at e in cc y
  ]
  revalidate_opened-IsBorneOut f s s' panic same k w e = cc e

  revalidate_chunks-IsBorneOut :
      (f : F.File) (s s' : ChunkState) (opened : Result F.File ErrorKind) (cs : List RecordedChunk)
      → ((g : F.File) → opened ≡ ok g → F.contents g ≡ F.contents f)
      → s.layout ≡ l
      → IsWellFormed s
      → revalidate_chunks H O opened s cs ≡ ok s'
      → IsBorneOut f s'
  revalidate_chunks-IsBorneOut f s s' opened [] same k w e = empty-IsBorneOut f s' (rw k at e)
  revalidate_chunks-IsBorneOut f s s' opened (c ∷ cs) same k w e =
      revalidate_opened-IsBorneOut f s s' opened same k w e

  layout_eq→eq : (a b : ChunkLayout) → layout_eq a b ≡ true → a ≡ b
  layout_eq→eq a b h =
      let e1 : a.file_size ≡ b.file_size = ground arith in
      let e2 : a.chunk_size ≡ b.chunk_size = ground arith in cc (e1, e2)

  -- Whatever was stored, when `prepare_chunk_inventory` returns a state for a layout: the state has
  -- that layout and is well-formed, and each chunk that it records stands in the partial file with
  -- the recorded hash. The state that was stored is one that `ChunkState::new` made.
  pub prepare_chunk_inventory-IsBorneOut :
      (f : F.File) (stored : Result ChunkState ChunkStateError) (opened : Result F.File ErrorKind)
      (s : ChunkState)
      → ((g : F.File) → opened ≡ ok g → F.contents g ≡ F.contents f)
      → ((s0 : ChunkState) → stored ≡ ok s0 → IsWellFormed s0)
      → prepare_chunk_inventory H O stored opened l ≡ ok s
      → IsBorneOut f s
  unfolding prepare_chunk_inventory revalidate_chunk_state
  prepare_chunk_inventory-IsBorneOut f (ok s0) opened s same wf e =
      elim (Bool-cases (layout_eq s0.layout l)) [
        | inl t ↦
            let y = rw t at e in
            revalidate_chunks-IsBorneOut f s0 s opened s0.chunks same (layout_eq→eq s0.layout l t)
              (wf s0 refl) y
        | inr t ↦ let y = rw t at e in empty-IsBorneOut f s y
      ]
  prepare_chunk_inventory-IsBorneOut f (err (io x)) opened s same wf e =
      elim (Bool-cases (is_not_found x)) [
        | inl absent ↦ let y = rw absent at e in empty-IsBorneOut f s y
        | inr there ↦ let y = rw there at e in cc y
      ]
  prepare_chunk_inventory-IsBorneOut f (err json) opened s same wf e = empty-IsBorneOut f s e
  prepare_chunk_inventory-IsBorneOut f (err root_not_object) opened s same wf e =
      empty-IsBorneOut f s e
  prepare_chunk_inventory-IsBorneOut f (err (missing_field x)) opened s same wf e =
      empty-IsBorneOut f s e
  prepare_chunk_inventory-IsBorneOut f (err (invalid_field x)) opened s same wf e =
      empty-IsBorneOut f s e
  prepare_chunk_inventory-IsBorneOut f (err (unsupported_format_version x)) opened s same wf e =
      empty-IsBorneOut f s e
  prepare_chunk_inventory-IsBorneOut f (err (invalid_chunk_hash x)) opened s same wf e =
      empty-IsBorneOut f s e
  prepare_chunk_inventory-IsBorneOut f (err (chunk_index_out_of_range x)) opened s same wf e =
      empty-IsBorneOut f s e
  prepare_chunk_inventory-IsBorneOut f (err (duplicate_chunk_index x)) opened s same wf e =
      empty-IsBorneOut f s e
  prepare_chunk_inventory-IsBorneOut f (err (unordered_chunk_indices x y)) opened s same wf e =
      empty-IsBorneOut f s e
  prepare_chunk_inventory-IsBorneOut f panic opened s same wf e = cc e
