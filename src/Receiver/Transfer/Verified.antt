-- ===== src/Receiver/Transfer/Verified.antt =====
-- `receive_transfer` (src/receiver_v03.rs) and the invariant of a transfer.
use mathlib.Core.HLevel.{Unit-prop}
use warpfile.Common.{ℕ, zero, suc, ◌≡◌, ap, ◌∙◌, arith, subst, List}
use warpfile.Common.{Option, none, some, length, inl, inr}
use warpfile.Common.{ok, ◌⊎◌, Result-cases, >>=-eq-ok, map_err, map_err-eq-ok}
use warpfile.Io.{ErrorKind}
use warpfile.Io.File.{RandomFile}
use warpfile.Chunk.Hash.{ChunkHash}
use warpfile.Chunk.Layout.{ChunkLayout, IsChunkLayout, chunk_count}
use warpfile.Chunk.Manifest.{Hasher}
use warpfile.Protocol.Message.{
  wfp_version_v03, MessageType, chunk_start, data_frame, complete, hello, hello_ack, offer, accept,
  reject, resume, restart, chunk_hashes, verified, cancel, discover, announce, error,
}
use warpfile.Protocol.Stream.{AsyncRead, read_frame_for_version}
use warpfile.Protocol.V03.ChunkStart.{decode_chunk_start_v03}
use warpfile.Protocol.V03.DataFrame.{decode_data_v03}
use warpfile.Receiver.Chunks.{
  VerifiedChunk, ChunkStore, ChunkReceiverV03, begin_chunk, write_data, persist_verified_chunk,
}
use warpfile.Receiver.Sound.{IsReceiving}
use warpfile.Receiver.Steps.{begin_chunk-IsReceiving, write_data-IsReceiving}
use warpfile.Receiver.Persist.{persist-IsReceiving}
use warpfile.Receiver.Transfer.{
  Progress, running, completed, Session, handle_chunk_start, handle_data, handle_complete,
  handle_frame, persist_if_verified, started, receive_transfer, receiver, handle_message,
}

module _ (H : Hasher) where
  -- What a COMPLETE that is accepted says of the receiver.
  abbrev pub AllRecorded : ChunkReceiverV03 H → Type 0
  AllRecorded r =
      (r.active ≡ none)
      × (r.pending_verified ≡ none)
      × (length r.chunk_state.chunks ≡ chunk_count r.chunk_state.layout)

module _ (H : Hasher) (l : ChunkLayout) (valid : IsChunkLayout l) (F : RandomFile)
    (S : ChunkStore) where
  open H use {digest}

  abbrev pub Holds : Session H F S → Type 0
  Holds (r, file, disk) = IsReceiving H l valid r (F.contents file)

  moved :
      {R : Type 0} (s s' : Session H F S) (a b : R)
      → ◌≡◌ {A = Session H F S × R} (s, a) (s', b)
      → Holds s
      → Holds s'
  moved s s' a b e h = subst Holds (ap (λ z. z.0) e) h

  handle_chunk_start-Holds :
      (s s' : Session H F S) (payload : List ℕ) (p : Progress)
      → started H F S s (handle_chunk_start H s.0 payload) ≡ (s', ok p)
      → Holds s
      → Holds s' × (p ≡ running)
  unfolding handle_chunk_start
  handle_chunk_start-Holds s s' payload p h inv =
      elim (Result-cases (handle_chunk_start H s.0 payload)) [
        | inl (inl (r', e)) ↦
            let y = rw e at h in
            let (start, _, b) = >>=-eq-ok (map_err _ (decode_chunk_start_v03 payload)) _ e in
            let k =
              begin_chunk-IsReceiving H l valid s.0 r' start (F.contents s.1)
                (map_err-eq-ok receiver (begin_chunk H s.0 start) b) inv in
            (moved (r', s.1, s.2) s' _ _ y k, cc y)
        | inl (inr (x, e)) ↦ let y = rw e at h in cc y
        | inr e ↦ let y = rw e at h in cc y
      ]

  persist-Holds :
      (s s' : Session H F S) (v : Option VerifiedChunk) (p : Progress)
      → persist_if_verified H F S s v ≡ (s', ok p)
      → Holds s
      → Holds s' × (p ≡ running)
  unfolding persist_if_verified
  persist-Holds s s' none p h inv = (moved s s' _ _ h inv, cc h)
  persist-Holds s s' (some v) p h inv =
      let done = persist_verified_chunk H F S s.0 s.1 s.2 in
      elim (Result-cases done.1) [
        | inl (inl (u, e)) ↦
            let y = rw e at h in
            let q : done ≡ (done.0, ok tt) = ap (λ x. (done.0, x)) (e ∙ ap ok (Unit-prop _ _)) in
            let (k, _) =
              persist-IsReceiving H l valid F S s.0 done.0.0 s.1 done.0.1 s.2 done.0.2 q inv in
            (moved done.0 s' _ _ y k, cc y)
        | inl (inr (x, e)) ↦ let y = rw e at h in cc y
        | inr e ↦ let y = rw e at h in cc y
      ]

  handle_data-Holds :
      (s s' : Session H F S) (payload : List ℕ) (p : Progress)
      → handle_data H F S s payload ≡ (s', ok p)
      → Holds s
      → Holds s' × (p ≡ running)
  unfolding handle_data
  handle_data-Holds s s' payload p h inv = elim (Result-cases (decode_data_v03 payload)) [
    | inl (inl (d, e)) ↦
        let y = rw (handle_data, e) at h in
        let wrote = write_data H F s.0 s.1 d in
        elim (Result-cases wrote.1) [
          | inl (inl (v, e')) ↦
              let y' = rw e' at y in
              let q : wrote ≡ (wrote.0, ok v) = ap (λ x. (wrote.0, x)) e' in
              let k = write_data-IsReceiving H l valid F s.0 wrote.0.0 s.1 wrote.0.1 d v q inv in
              persist-Holds (wrote.0.0, wrote.0.1, s.2) s' v p y' k
          | inl (inr (x, e')) ↦ let y' = rw e' at y in cc y'
          | inr e' ↦ let y' = rw e' at y in cc y'
        ]
    | inl (inr (x, e)) ↦ let y = rw (handle_data, e) at h in cc y
    | inr e ↦ let y = rw (handle_data, e) at h in cc y
  ]

  handle_complete-AllRecorded :
      (r : ChunkReceiverV03 H) (payload : List ℕ) (p : Progress)
      → handle_complete H r payload ≡ ok p
      → AllRecorded H r × (p ≡ completed (record { bytes = payload })) × (length payload ≡ 32)
  unfolding handle_complete
  handle_complete-AllRecorded r payload p h = ground arith

  -- A round that succeeds keeps the invariant, and brings a hash only where every chunk is recorded.
  pub handle_message-Holds :
      (s s' : Session H F S) (payload : List ℕ) (t : MessageType) (p : Progress)
      → handle_message H F S s payload t ≡ (s', ok p)
      → Holds s
      → Holds s'
        × ((p ≡ running) ⊎ (AllRecorded H s'.0 × (p ≡ completed (record { bytes = payload }))))
  unfolding handle_message
  handle_message-Holds s s' payload chunk_start p h inv =
      let (k, e) = handle_chunk_start-Holds s s' payload p h inv in (k, inl e)
  handle_message-Holds s s' payload data_frame p h inv =
      let (k, e) = handle_data-Holds s s' payload p h inv in (k, inl e)
  handle_message-Holds s s' payload complete p h inv =
      let (k, e, _) = handle_complete-AllRecorded s.0 payload p (cc h) in
      (moved s s' _ _ h inv, inr (subst (λ z. AllRecorded H z.0) (ap (λ z. z.0) h) k, e))
  handle_message-Holds s s' payload hello p h inv = cc h
  handle_message-Holds s s' payload hello_ack p h inv = cc h
  handle_message-Holds s s' payload offer p h inv = cc h
  handle_message-Holds s s' payload accept p h inv = cc h
  handle_message-Holds s s' payload reject p h inv = cc h
  handle_message-Holds s s' payload resume p h inv = cc h
  handle_message-Holds s s' payload restart p h inv = cc h
  handle_message-Holds s s' payload chunk_hashes p h inv = cc h
  handle_message-Holds s s' payload verified p h inv = cc h
  handle_message-Holds s s' payload cancel p h inv = cc h
  handle_message-Holds s s' payload discover p h inv = cc h
  handle_message-Holds s s' payload announce p h inv = cc h
  handle_message-Holds s s' payload error p h inv = cc h

  -- When `receive_transfer` succeeds on a receiver whose recorded chunks stand in the file: the
  -- invariant holds at the end, and every chunk is recorded and none on its way.
  pub receive_transfer-Holds :
      (A : AsyncRead ErrorKind) (fuel : ℕ) (s s' : Session H F S) (reader reader' : A.Reader)
      (h : ChunkHash)
      → receive_transfer H F S A fuel s reader ≡ (s', ok (h, reader'))
      → Holds s
      → Holds s' × AllRecorded H s'.0
  unfolding receive_transfer handle_frame
  receive_transfer-Holds A zero s s' reader reader' h e inv = cc e
  receive_transfer-Holds A (suc fuel) s s' reader reader' h e inv =
      elim (Result-cases (read_frame_for_version A reader wfp_version_v03)) [
        | inl (inl (got, e1)) ↦
            let y = rw (receive_transfer, e1) at e in
            let round = handle_frame H F S s got.0 in
            elim (Result-cases round.1) [
              | inl (inl (p, e2)) ↦
                  let q : round ≡ (round.0, ok p) = ap (λ x. (round.0, x)) e2 in
                  let (k, out) =
                    handle_message-Holds s round.0 got.0.payload got.0.message_type p q inv in
                  elim out [
                    | inl go ↦
                        let y' = rw (e2, go) at y in
                        receive_transfer-Holds A fuel round.0 s' got.1 reader' h y' k
                    | inr (all, stop) ↦
                        let y' = rw (e2, stop) at y in
                        (
                          moved round.0 s' _ _ y' k,
                          subst (λ z. AllRecorded H z.0) (ap (λ z. z.0) y') all,
                        )
                  ]
              | inl (inr (x, e2)) ↦ let y' = rw e2 at y in cc y'
              | inr e2 ↦ let y' = rw e2 at y in cc y'
            ]
        | inl (inr (x, e1)) ↦ let y = rw (receive_transfer, e1) at e in cc y
        | inr e1 ↦ let y = rw (receive_transfer, e1) at e in cc y
      ]
