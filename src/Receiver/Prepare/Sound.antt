-- ===== src/Receiver/Prepare/Sound.antt =====
-- `prepare_receiver_v03` (src/receiver_v03.rs) and the invariant of a transfer.
use warpfile.Common.{ℕ, zero, suc, ◌-◌, ◌≤◌, ◌<◌, ◌≡◌, refl, sym, ap, ◌∙◌, arith, subst, List, leb}
use warpfile.Common.{
  Option, none, some, Bool, true, false, not, ◌||◌, ◌==◌, length, length-take, length-append, take,
  drop, take-length, take-append-drop,
}
use warpfile.Common.{
  Result, ok_injective, ok, inl, inr, Bool-cases, Option-cases, >>=-eq-ok, map_err, map_err-eq-ok,
  require,
}
use warpfile.Bytes.Words.{IsU64}
use warpfile.Io.{ErrorKind}
use warpfile.Io.File.{RandomFile, Readable, Resizable, resize, zeros}
use warpfile.Chunk.Hash.{ChunkHash}
use warpfile.Chunk.Layout.{ChunkLayout, ChunkLayoutError, IsChunkLayout, chunk_count}
use warpfile.Chunk.Layout.Ranges.{offset-lt}
use warpfile.Chunk.Layout
use warpfile.Chunk.Manifest.{Hasher}
use warpfile.Chunk.Manifest.Building.{chunk_bytes, chunk_bytes-append}
use warpfile.Chunk.State.{ChunkState, ChunkStateError}
use warpfile.Chunk.State.Invariant.{IsWellFormed}
use warpfile.Chunk.State.Revalidate.{prepare_chunk_inventory}
use warpfile.Chunk.State.Revalidate.Kept.{StandsAt}
use warpfile.Chunk.State.Revalidate.Sound.{IsBorneOut, prepare_chunk_inventory-IsBorneOut}
use warpfile.Protocol.V03.Offer.{FileOfferV03}
use warpfile.Receiver.Chunks.{ReceiverV03Error, io}
use warpfile.Receiver.Chunks
use warpfile.Receiver.Sound.{IsReceiving}
use warpfile.Receiver.Prepare.{
  PreparedReceiverV03, chunk_layout, chunk_state_error, receiver, open_or_create, resize_if,
  prepare_v03_partial_file, prepare_receiver_v03,
}

length-zeros : (n : ℕ) → length (zeros n) ≡ n
length-zeros zero = refl
length-zeros (suc n) = omega (arith, length-zeros n)

not_below : (a b : ℕ) → leb a b ≡ false → b ≤ a
not_below a b h = ground arith

length-resize : (xs : List ℕ) (n : ℕ) → length (resize xs n) ≡ n
length-resize xs n = elim (Bool-cases (leb n (length xs))) [
  | inl cut ↦ rw cut (length-take n xs (ground arith))
  | inr grow ↦
      let b = not_below n (length xs) grow in
      rw grow (length-append xs _ ∙ omega (arith, length-zeros (n - length xs)))
]

resize-length : (xs : List ℕ) → resize xs (length xs) ≡ xs
resize-length xs = elim (Bool-cases (leb (length xs) (length xs))) [
  | inl cut ↦ rw cut (take-length xs)
  | inr grow ↦ absurd (ground arith)
]

module _ {F : RandomFile} (Z : Resizable F) where
  open F use {contents}

  resize_if_lem :
      (b : Bool) (f f' : F.File) (n : ℕ)
      → (b ≡ false → length (contents f) ≡ n)
      → resize_if Z b f n ≡ ok f'
      → contents f' ≡ resize (contents f) n
  resize_if_lem false f f' n size e =
      let same : f ≡ f' = cc e in
      let k = size refl in rw (← same, ← k) (sym (resize-length (contents f)))
  resize_if_lem true f f' n size e = elim (Option-cases (Z.set_len f n).1) [
    | inl done ↦
        let y = rw (pair (Z.set_len f n) none done) at e in
        let same : (Z.set_len f n).0 ≡ f' = cc y in rw (← same) (Z.set_len_lem f n done)
    | inr (x, failed) ↦ let y = rw (pair (Z.set_len f n) (some x) failed) at e in cc y
  ]
    where
      pair : (p : F.File × Option ErrorKind) (o : Option ErrorKind) → p.1 ≡ o → p ≡ (p.0, o)
      pair p o h = ap (λ z. (p.0, z)) h

  -- The contents of the file that is opened or created are resized.
  prepare_v03_partial_file-resize :
      (existing created : Result F.File ErrorKind) (n : ℕ) (f' : F.File)
      → prepare_v03_partial_file Z existing created n ≡ ok f'
      → (f : F.File) × (existed : Bool) × (open_or_create Z existing created ≡ ok (f, existed))
        × (contents f' ≡ resize (contents f) n)
  unfolding prepare_v03_partial_file
  prepare_v03_partial_file-resize existing created n f' e =
      let (got, p, q) = >>=-eq-ok (open_or_create Z existing created) _ e in
      let (seen, p2, q2) = >>=-eq-ok (map_err io (Z.metadata got.0)) _ q in
      let (_, _, q3) = >>=-eq-ok (require seen.0 _) _ q2 in
      let size = Z.metadata_lem got.0 seen.0 seen.1 (map_err-eq-ok io (Z.metadata got.0) p2) in
      (got.0, got.1, p, resize_if_lem _ got.0 f' n (λ h. sym size ∙ unchanged got.1 seen.1 n h) q3)
    where
      unchanged : (b : Bool) (a n : ℕ) → not b || not (a == n) ≡ false → a ≡ n
      unchanged true a n h = ground arith
      unchanged false a n h = cc

module _ (H : Hasher) (l : ChunkLayout) (valid : IsChunkLayout l) where
  -- A chunk that stands in the contents stands in them after a change of their length to the file's.
  StandsAt-resize :
      (xs : List ℕ) (i : ℕ) (h : ChunkHash)
      → i < chunk_count l
      → StandsAt H l valid xs i h
      → H.digest (chunk_bytes l valid i (resize xs l.file_size)) ≡ h
  StandsAt-resize xs i h below (same, inside) = elim (Bool-cases (leb l.file_size (length xs))) [
    | inl cut ↦
        let start = offset-lt l valid i below in
        let shorter : l.file_size ≤ length xs = ground arith in
        let size = length-take l.file_size xs shorter in
        let kept =
          chunk_bytes-append l valid i (take l.file_size xs) (drop l.file_size xs) (omega arith) in
        let whole = ap (chunk_bytes l valid i) (take-append-drop l.file_size xs) in
        rw cut (ap H.digest (sym kept ∙ whole) ∙ same)
    | inr grow ↦ rw grow (ap H.digest (chunk_bytes-append l valid i xs _ inside) ∙ same)
  ]

  -- The receiver that starts from a state that is borne out.
  start-IsReceiving :
      {F : RandomFile} (O : Readable F) (f : F.File) (s : ChunkState) (xs : List ℕ)
      → IsBorneOut H l valid O f s
      → xs ≡ resize (F.contents f) l.file_size
      → IsReceiving H l valid (Chunks.new H s) xs
  unfolding Chunks.new
  start-IsReceiving {F} O f s xs b e = record {
    layout = b.layout;
    well_formed = b.well_formed;
    size = ap length e ∙ length-resize (F.contents f) l.file_size;
    recorded = λ i h known _ _.
        let (below, stands) = b.stands i h known in
        rw e (StandsAt-resize (F.contents f) i h below stands);
    active = tt;
    pending = tt;
    exclusive = inl refl;
  }

-- The layout of an offer.
abbrev pub offered : FileOfferV03 → ChunkLayout
offered o = record { file_size = o.file_size; chunk_size = o.chunk_size }

new-IsChunkLayout :
    (o : FileOfferV03) (l : ChunkLayout)
    → IsU64 o.file_size
    → IsU64 o.chunk_size
    → Layout.new o.file_size o.chunk_size ≡ ok l
    → IsChunkLayout (offered o) × (offered o ≡ l)
unfolding Layout.new
new-IsChunkLayout o l a b e =
    let (_, p, q) = >>=-eq-ok (require (not (o.chunk_size == 0)) _) _ e in
    (record { file_size = a; chunk_size = b; positive = ground arith }, cc q)

-- When `prepare_receiver_v03` succeeds: the receiver's layout is the offer's, and whatever state was
-- stored, the receiver satisfies the invariant of a transfer on the partial file: the file has the
-- offered size, and every chunk that the receiver has recorded stands in it with the recorded hash.
-- The sizes of the offer are `u64`, the stored state was made by `ChunkState::new`, and the file
-- opened for reading has the contents of the one opened for writing.
pub prepare_receiver_v03-IsReceiving :
    (H : Hasher) {F : RandomFile} (O : Readable F) (Z : Resizable F)
    (stored : Result ChunkState ChunkStateError) (opened existing created : Result F.File ErrorKind)
    (offer : FileOfferV03) (p : PreparedReceiverV03 H F)
    → IsU64 offer.file_size
    → IsU64 offer.chunk_size
    → ((s : ChunkState) → stored ≡ ok s → IsWellFormed s)
    → ((g : F.File)
        → opened ≡ ok g
        → (f : F.File) × (existing ≡ ok f) × (F.contents g ≡ F.contents f))
    → prepare_receiver_v03 H O Z stored opened existing created offer ≡ ok p
    → (valid : IsChunkLayout (offered offer)) × IsReceiving H
        (offered offer)
        valid
        p.receiver
        (F.contents p.file)
unfolding prepare_receiver_v03
prepare_receiver_v03-IsReceiving H {F} O Z stored opened existing created offer p a b wf same e =
    let (l, p1, q1) =
      >>=-eq-ok (map_err chunk_layout (Layout.new offer.file_size offer.chunk_size)) _ e in
    let (s, p2, q2) =
      >>=-eq-ok (map_err chunk_state_error (prepare_chunk_inventory H O stored opened l)) _ q1 in
    let (file, p3, q3) =
      >>=-eq-ok (map_err receiver (prepare_v03_partial_file Z existing created offer.file_size)) _
        q2 in
    let (valid, is_l) =
      new-IsChunkLayout offer l a b
        (map_err-eq-ok chunk_layout (Layout.new offer.file_size offer.chunk_size) p1) in
    let (f, existed, found, cut) =
      prepare_v03_partial_file-resize Z existing created offer.file_size file
        (map_err-eq-ok receiver (prepare_v03_partial_file Z existing created offer.file_size) p3) in
    let state =
      rw (← is_l) at
        (map_err-eq-ok chunk_state_error (prepare_chunk_inventory H O stored opened l) p2) in
    let agree : (g : F.File) → opened ≡ ok g → F.contents g ≡ F.contents f = λ g h.
      let (f0, there, k) = same g h in
      let one : f0 ≡ f = opens there found in k ∙ ap F.contents one in
    let borne =
      prepare_chunk_inventory-IsBorneOut H (offered offer) valid O f stored opened s agree wf
        state in
    let k = ok_injective q3 in
    (
      valid,
      subst (λ z. IsReceiving H (offered offer) valid z.receiver (F.contents z.file)) k
          (start-IsReceiving H (offered offer) valid O f s (F.contents file) borne cut),
    )
  where
    opens :
        {f0 f : F.File} {existed : Bool}
        → existing ≡ ok f0
        → open_or_create Z existing created ≡ ok (f, existed)
        → f0 ≡ f
    opens there found = let y = rw there at found in cc y
