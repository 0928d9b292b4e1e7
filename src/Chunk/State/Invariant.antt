-- ===== src/Chunk/State/Invariant.antt =====
-- The invariant of a chunk state: indices in range, in increasing order, none twice. `new` accepts
-- exactly such lists, and recording a chunk keeps it.
use warpfile.Common.{Option-cases, ◌<◌}
use warpfile.Chunk.Layout.{IsChunkLayout, chunk_count, range}
use warpfile.Chunk.Layout.Ranges.{range-some}
use warpfile.Common.{ℕ, suc, ◌≤◌, ◌≡◌, refl, sym, ap, ◌∙◌, arith, List, [], ◌∷◌, Option, none, some}
use warpfile.Common.{
  true, false, ltb, ltb→lt, ◌≢◌, >>=-eq-ok, if◌then◌else◌, All, ok, err, panic, ◌↔◌, Bool-cases,
  inl, inr,
}
use mathlib.Core.HLevel.{Unit-prop}
use warpfile.Chunk.Hash.{ChunkHash}
use warpfile.Chunk.Layout.{ChunkLayout}
use warpfile.Chunk.Search.{RecordedChunk, Search, found, missing, bump, binary_search}
use warpfile.Chunk.Search.Order.{SortedFrom}
use warpfile.Chunk.State.{
  ChunkState, in_range, set_hash, insert_at, check_order, validate_from, validate_recorded_chunks,
  new, store, record_at, record_verified_chunk, chunk_index_out_of_range,
}

abbrev pub InRange : ChunkLayout → RecordedChunk → Type 0
InRange layout c = in_range layout c.index ≡ true

pub in_range-lt :
    (l : ChunkLayout) (valid : IsChunkLayout l) (i : ℕ) → in_range l i ≡ true → i < chunk_count l
unfolding in_range
in_range-lt l valid i h = elim (Option-cases (range l i)) [
  | inl e ↦ absurd (ground arith)
  | inr (r, e) ↦ (range-some l valid i r e).0
]

pub record IsWellFormed (s : ChunkState) : Type 0 where
  pub sorted : SortedFrom 0 s.chunks
  pub ranged : All (InRange s.layout) s.chunks

-- One above the index before, or 0.
abbrev after : Option ℕ → ℕ
after none = 0
after (some previous) = suc previous

check_order_iff :
    (previous : Option ℕ) (i : ℕ) → (check_order previous i ≡ ok tt) ↔ (after previous ≤ i)
unfolding check_order
check_order_iff none i = ((λ h. omega arith), (λ h. refl))
check_order_iff (some p) i = ((λ h. ground arith), (λ h. ground arith))

validate_parts :
    (layout : ChunkLayout) (previous : Option ℕ) (c : RecordedChunk) (cs : List RecordedChunk)
    → validate_from layout previous (c ∷ cs) ≡ ok tt
    → InRange layout c
      × (check_order previous c.index ≡ ok tt)
      × (validate_from layout (some c.index) cs ≡ ok tt)
unfolding validate_from
validate_parts layout previous c cs h = ground arith

validate_from_iff :
    (layout : ChunkLayout) (previous : Option ℕ) (cs : List RecordedChunk)
    → (validate_from layout previous cs ≡ ok tt)
      ↔ (SortedFrom (after previous) cs × All (InRange layout) cs)
unfolding validate_from
validate_from_iff layout previous [] = ((λ h. (tt, tt)), (λ h. refl))
validate_from_iff layout previous (c ∷ cs) =
    let ih = validate_from_iff layout (some c.index) cs in
    let order = check_order_iff previous c.index in
    (
      (λ h.
          let (r, o, v) = validate_parts layout previous c cs h in
          let (sorted, ranged) = ih.0 v in ((order.0 o, sorted), (r, ranged))),
      (λ h. ground (arith, order.1 h.0.0, ih.1 (h.0.1, h.1.1))),
    )

-- The list that `record_verified_chunk` makes, on a sorted list.
unfoldable pub upsert : ℕ → ChunkHash → List RecordedChunk → List RecordedChunk
upsert i h [] = record { index = i; hash = h } ∷ []
upsert i h (c ∷ cs) =
    if ltb c.index i
    then c ∷ upsert i h cs
    else if ltb i c.index
    then record { index = i; hash = h } ∷ (c ∷ cs)
    else record c { hash = h } ∷ cs

abbrev edit : ℕ → ChunkHash → List RecordedChunk → Search → Option (List RecordedChunk)
edit i h cs (found p) = set_hash cs p h
edit i h cs (missing p) = insert_at cs p (record { index = i; hash = h })

edit-bump :
    (i : ℕ) (h : ChunkHash) (c : RecordedChunk) (cs cs' : List RecordedChunk) (r : Search)
    → edit i h cs r ≡ some cs'
    → edit i h (c ∷ cs) (bump r) ≡ some (c ∷ cs')
unfolding set_hash insert_at
edit-bump i h c cs cs' (found p) e = rw e
edit-bump i h c cs cs' (missing p) e = rw e

edit-search :
    (i : ℕ) (h : ChunkHash) (cs : List RecordedChunk)
    → edit i h cs (binary_search cs i) ≡ some (upsert i h cs)
unfolding binary_search upsert set_hash insert_at
edit-search i h [] = refl
edit-search i h (c ∷ cs) = elim (Bool-cases (ltb c.index i)) [
  | inl e ↦ rw e (edit-bump i h c cs (upsert i h cs) (binary_search cs i) (edit-search i h cs))
  | inr e ↦ elim (Bool-cases (ltb i c.index)) [ inl e' ↦ rw (e, e') | inr e' ↦ rw (e, e') ]
]

-- `ChunkState::new` returns a state exactly when that state has the given layout and chunks and
-- is well-formed: every recorded index is in the range of the layout, and the indices increase
-- strictly.
pub new_iff :
    (layout : ChunkLayout) (cs : List RecordedChunk) (s : ChunkState)
    → (new layout cs ≡ ok s) ↔ ((s ≡ record { layout = layout; chunks = cs }) × IsWellFormed s)
unfolding new validate_recorded_chunks
new_iff layout cs s =
    let iff = validate_from_iff layout none cs in
    (
      (λ h.
          let (_, v, e) = >>=-eq-ok (validate_from layout none cs) _ h in
          let (sorted, ranged) = iff.0 (v ∙ ap ok (Unit-prop _ _)) in
          let e' : record { layout = layout; chunks = cs } ≡ s = cc (e) in
          (sym e', rw (← e') (record { sorted = sorted; ranged = ranged }))),
      (λ h.
          let w : IsWellFormed (record { layout = layout; chunks = cs }) = rw (h.0) at h.1 in
          rw (iff.1 (w.sorted, w.ranged), h.0) refl),
    )

upsert-SortedFrom :
    (lo i : ℕ) (h : ChunkHash) (cs : List RecordedChunk)
    → lo ≤ i
    → SortedFrom lo cs
    → SortedFrom lo (upsert i h cs)
unfolding upsert
upsert-SortedFrom lo i h [] l s = (l, tt)
upsert-SortedFrom lo i h (c ∷ cs) l s = elim (Bool-cases (ltb c.index i)) [
  | inl e ↦ rw e (s.0, upsert-SortedFrom (suc c.index) i h cs (ltb→lt _ _ e) s.1)
  | inr e ↦ elim (Bool-cases (ltb i c.index)) [
    | inl e' ↦ rw (e, e') (l, (ltb→lt _ _ e', s.1))
    | inr e' ↦ rw (e, e') s
  ]
]

upsert-ranged :
    (layout : ChunkLayout) (i : ℕ) (h : ChunkHash) (cs : List RecordedChunk)
    → in_range layout i ≡ true
    → All (InRange layout) cs
    → All (InRange layout) (upsert i h cs)
unfolding upsert
upsert-ranged layout i h [] r s = (r, tt)
upsert-ranged layout i h (c ∷ cs) r s = elim (Bool-cases (ltb c.index i)) [
  | inl e ↦ rw e (s.0, upsert-ranged layout i h cs r s.1)
  | inr e ↦ elim (Bool-cases (ltb i c.index)) [ inl e' ↦ rw (e, e') (r, s) | inr e' ↦ rw (e, e') s ]
]

record_at-edit :
    (s : ChunkState) (i : ℕ) (h : ChunkHash) (cs : List RecordedChunk) (r : Search)
    → edit i h s.chunks r ≡ some cs
    → record_at s i h r ≡ (record s { chunks = cs }, ok tt)
unfolding record_at store
record_at-edit s i h cs (found p) e = rw e
record_at-edit s i h cs (missing p) e = rw e

-- On a well-formed state an index in range is recorded, and the list stays in order.
pub record-eq-upsert :
    (s : ChunkState) (i : ℕ) (h : ChunkHash)
    → IsWellFormed s
    → in_range s.layout i ≡ true
    → record_verified_chunk s i h ≡ (record s { chunks = upsert i h s.chunks }, ok tt)
unfolding record_verified_chunk
record-eq-upsert s i h w r =
    rw r (record_at-edit s i h (upsert i h s.chunks) _ (edit-search i h s.chunks))

pub record_out_of_range :
    (s : ChunkState) (i : ℕ) (h : ChunkHash)
    → in_range s.layout i ≡ false
    → record_verified_chunk s i h ≡ (s, err (chunk_index_out_of_range i))
unfolding record_verified_chunk
record_out_of_range s i h r = rw r

-- On a well-formed state `record_verified_chunk` leaves a well-formed state, whatever the index
-- and the hash, and does not panic: the position of the binary search is never out of bounds.
pub record-IsWellFormed :
    (s : ChunkState) (i : ℕ) (h : ChunkHash)
    → IsWellFormed s
    → IsWellFormed (record_verified_chunk s i h).0 × ((record_verified_chunk s i h).1 ≢ panic)
record-IsWellFormed s i h w = elim (Bool-cases (in_range s.layout i)) [
  | inl r ↦ rw (record-eq-upsert s i h w r) (
    record {
      sorted = upsert-SortedFrom 0 i h s.chunks (omega arith) (w.sorted);
      ranged = upsert-ranged s.layout i h s.chunks r (w.ranged);
    },
    (λ e. cc),
  )
  | inr r ↦ rw (record_out_of_range s i h r) (w, (λ e. cc))
]
