-- ===== src/Receiver/Transfer/Rounds.antt =====
-- The rounds of `receive_transfer` (src/receiver_v03.rs): panics, and what a frame takes from the
-- stream.
use warpfile.Common.{ℕ, ◌<◌, ◌≡◌, ◌≢◌, refl, ap, ◌∙◌, arith, List, ◌++◌, Option, none, some}
use warpfile.Common.{
  length, length-append, Result, ok, err, panic, inl, inr, Result-cases, Option-cases, >>=-ne-panic,
  map_err-ne-panic,
}
use warpfile.Bytes.Words.{checked_add}
use warpfile.Io.{ErrorKind}
use warpfile.Io.File.{RandomFile}
use warpfile.Chunk.Layout.{ChunkLayout, IsChunkLayout}
use warpfile.Chunk.Manifest.{Hasher}
use warpfile.Chunk.State.{ChunkState}
use warpfile.Chunk.State.Invariant.{IsWellFormed, record-IsWellFormed}
use warpfile.Protocol.Message.{
  MessageType, chunk_start, data_frame, complete, hello, hello_ack, offer, accept, reject, resume,
  restart, chunk_hashes, verified, cancel, discover, announce, error,
}
use warpfile.Protocol.Frame.{Frame, header_length}
use warpfile.Protocol.Decoder.Safety.{validate-ne-panic, decode_frame-ne-panic}
use warpfile.Protocol.Stream.{AsyncRead, read_payload, read_frame_for_version}
use warpfile.Protocol.Stream.Framing.{read_parts, read_payload_only}
use warpfile.Protocol.V03.ChunkStart.{ChunkStartV03}
use warpfile.Protocol.V03.ChunkStart.Exact.{decode_chunk_start_v03-ne-panic}
use warpfile.Protocol.V03.DataFrame.{DataV03, decode_data_v03}
use warpfile.Protocol.V03.DataFrame.Exact.{decode_data_v03-ne-panic}
use warpfile.Receiver.Chunks.{
  VerifiedChunk, IncomingChunk, ChunkStore, ChunkReceiverV03, require_after, begin_chunk,
  check_data, store_data, absorb_data, write_data, candidate, save_candidate,
  persist_verified_chunk,
}
use warpfile.Receiver.Steps.{write_data-IsReceiving}
use warpfile.Receiver.Transfer.{
  Session, ReceiverV03TransferError, handle_chunk_start, handle_data, handle_complete,
  persist_if_verified, started, handle_message,
}
use warpfile.Receiver.Transfer.Verified.{Holds}

module _ (A : AsyncRead ErrorKind) (calm : (r : A.Reader) (n : ℕ) → A.read_exact r n ≢ panic) where
  open A use {Reader, read_exact, pending, read_only}

  read_payload-ne-panic : (r : Reader) (n : ℕ) → read_payload A r n ≢ panic
  unfolding read_payload
  read_payload-ne-panic r n h = ground (arith, calm r n)

  pub read_frame-ne-panic : (r : Reader) (v : ℕ) → read_frame_for_version A r v ≢ panic
  unfolding read_frame_for_version
  read_frame-ne-panic r v = >>=-ne-panic _ _ (map_err-ne-panic _ _ (calm r header_length)) (λ x.
      >>=-ne-panic _ _ (map_err-ne-panic _ _ (validate-ne-panic x.0 v)) (λ y.
        >>=-ne-panic _ _ (read_payload-ne-panic x.1 y.payload_length) (λ z.
          >>=-ne-panic _ _ (map_err-ne-panic _ _ (decode_frame-ne-panic (x.0 ++ z.0) v))
            (λ f e. cc e))))

  -- A frame takes its header from the stream.
  pub read_shorter :
      (r r' : Reader) (v : ℕ) (f : Frame)
      → read_frame_for_version A r v ≡ ok (f, r')
      → length (pending r') < length (pending r)
  read_shorter r r' v f h =
      let (header, payload, r1, n, p, q, _) = read_parts A r r' v f h in
      let (x, k) = read_only r r1 header_length header p in
      let y = read_payload_only A r1 r' n payload q in
      let whole = ap length (x ∙ ap (λ t. header ++ t) y) in
      let a = length-append header (payload ++ pending r') in
      let b = length-append payload (pending r') in omega arith

module _ (H : Hasher) where
  begin_chunk-ne-panic : (r : ChunkReceiverV03 H) (s : ChunkStartV03) → begin_chunk H r s ≢ panic
  unfolding begin_chunk require_after
  begin_chunk-ne-panic r s h = ground arith

  handle_chunk_start-ne-panic :
      (r : ChunkReceiverV03 H) (payload : List ℕ) → handle_chunk_start H r payload ≢ panic
  unfolding handle_chunk_start
  handle_chunk_start-ne-panic r payload =
      >>=-ne-panic _ _ (map_err-ne-panic _ _ (decode_chunk_start_v03-ne-panic payload))
        (λ s. map_err-ne-panic _ _ (begin_chunk-ne-panic r s))

  handle_complete-ne-panic :
      (r : ChunkReceiverV03 H) (payload : List ℕ) → handle_complete H r payload ≢ panic
  unfolding handle_complete
  handle_complete-ne-panic r payload h = ground arith

  check_data-ne-panic : (r : ChunkReceiverV03 H) (d : DataV03) → check_data H r d ≢ panic
  unfolding check_data checked_add
  check_data-ne-panic r d h = ground arith

module _ (H : Hasher) (l : ChunkLayout) (valid : IsChunkLayout l) (F : RandomFile)
    (S : ChunkStore) where
  absorb_data-ne-panic :
      (r : ChunkReceiverV03 H) (a : IncomingChunk H) (end chunk_end : ℕ) (bytes : List ℕ)
      → (absorb_data H r a end chunk_end bytes).1 ≢ panic
  unfolding absorb_data
  absorb_data-ne-panic r a end chunk_end bytes h = ground arith

  store_data-ne-panic :
      (r : ChunkReceiverV03 H) (f : F.File) (d : DataV03) (found : IncomingChunk H × ℕ × ℕ)
      → (store_data H F r f d found).1 ≢ panic
  store_data-ne-panic r f d found h =
      elim (Option-cases (F.write_at f d.absolute_offset d.bytes).1) [
        | inl e ↦ absorb_data-ne-panic r found.0 found.1 found.2 d.bytes (rw (store_data, e) at h)
        | inr (x, e) ↦ let y = rw (store_data, e) at h in cc y
      ]

  write_data-ne-panic :
      (r : ChunkReceiverV03 H) (f : F.File) (d : DataV03) → (write_data H F r f d).1 ≢ panic
  unfolding write_data
  write_data-ne-panic r f d h = elim (Result-cases (check_data H r d)) [
    | inl (inl (found, e)) ↦ store_data-ne-panic r f d found (rw (write_data, e) at h)
    | inl (inr (x, e)) ↦ let y = rw (write_data, e) at h in cc y
    | inr e ↦ check_data-ne-panic H r d e
  ]

  candidate-ne-panic :
      (r : ChunkReceiverV03 H) → IsWellFormed r.chunk_state → candidate H F S r ≢ panic
  unfolding candidate
  candidate-ne-panic r w h = elim (Option-cases r.pending_verified) [
    | inl e ↦ let y = rw e at h in cc y
    | inr (p, e) ↦
        let y = rw e at h in
        >>=-ne-panic _ _
          (map_err-ne-panic _ _ (record-IsWellFormed r.chunk_state p.index p.hash w).1)
          (λ u x. cc x) y
  ]

  save_candidate-ne-panic :
      (r : ChunkReceiverV03 H) (f : F.File) (d : S.Disk) (next : ChunkState)
      → (save_candidate H F S r f d next).1 ≢ panic
  save_candidate-ne-panic r f d next h = elim (Option-cases (F.sync f).1) [
    | inr (x, e) ↦ let y = rw (save_candidate, e) at h in cc y
    | inl e ↦ elim (Option-cases (S.write_chunk_state d next).1) [
      | inr (x, e') ↦ let y = rw (save_candidate, e, e') at h in cc y
      | inl e' ↦ let y = rw (save_candidate, e, e') at h in cc y
    ]
  ]

  persist-ne-panic :
      (r : ChunkReceiverV03 H) (f : F.File) (d : S.Disk)
      → IsWellFormed r.chunk_state
      → (persist_verified_chunk H F S r f d).1 ≢ panic
  unfolding persist_verified_chunk
  persist-ne-panic r f d w h = elim (Result-cases (candidate H F S r)) [
    | inl (inl (next, e)) ↦ save_candidate-ne-panic r f d next (rw (persist_verified_chunk, e) at h)
    | inl (inr (x, e)) ↦ let y = rw (persist_verified_chunk, e) at h in cc y
    | inr e ↦ candidate-ne-panic r w e
  ]

  persist_if_verified-ne-panic :
      (s : Session H F S) (v : Option VerifiedChunk)
      → IsWellFormed (s.0).chunk_state
      → (persist_if_verified H F S s v).1 ≢ panic
  unfolding persist_if_verified
  persist_if_verified-ne-panic s none w = λ h. cc h
  persist_if_verified-ne-panic s (some v) w =
      >>=-ne-panic _ _ (map_err-ne-panic _ _ (persist-ne-panic s.0 s.1 s.2 w)) (λ u x. cc x)

  handle_data-ne-panic :
      (s : Session H F S) (payload : List ℕ)
      → Holds H l valid F S s
      → (handle_data H F S s payload).1 ≢ panic
  unfolding handle_data
  handle_data-ne-panic s payload inv h = elim (Result-cases (decode_data_v03 payload)) [
    | inl (inl (d, e)) ↦
        let y = rw (handle_data, e) at h in
        let wrote = write_data H F s.0 s.1 d in
        elim (Result-cases wrote.1) [
          | inl (inl (v, e')) ↦
              let y' = rw e' at y in
              let q : wrote ≡ (wrote.0, ok v) = ap (λ x. (wrote.0, x)) e' in
              let k = write_data-IsReceiving H l valid F s.0 wrote.0.0 s.1 wrote.0.1 d v q inv in
              persist_if_verified-ne-panic (wrote.0.0, wrote.0.1, s.2) v k.well_formed y'
          | inl (inr (x, e')) ↦ let y' = rw e' at y in cc y'
          | inr e' ↦ write_data-ne-panic s.0 s.1 d e'
        ]
    | inl (inr (x, e)) ↦ let y = rw (handle_data, e) at h in cc y
    | inr e ↦ decode_data_v03-ne-panic payload e
  ]

  started-ne-panic :
      (s : Session H F S) (r : Result (ChunkReceiverV03 H) ReceiverV03TransferError)
      → r ≢ panic
      → (started H F S s r).1 ≢ panic
  started-ne-panic s (ok r) k h = cc h
  started-ne-panic s (err e) k h = cc h
  started-ne-panic s panic k h = k refl

  -- No round panics.
  pub handle_message-ne-panic :
      (s : Session H F S) (payload : List ℕ) (t : MessageType)
      → Holds H l valid F S s
      → (handle_message H F S s payload t).1 ≢ panic
  unfolding handle_message
  handle_message-ne-panic s payload chunk_start inv =
      started-ne-panic s _ (handle_chunk_start-ne-panic H s.0 payload)
  handle_message-ne-panic s payload data_frame inv = handle_data-ne-panic s payload inv
  handle_message-ne-panic s payload complete inv = handle_complete-ne-panic H s.0 payload
  handle_message-ne-panic s payload hello inv = λ h. cc h
  handle_message-ne-panic s payload hello_ack inv = λ h. cc h
  handle_message-ne-panic s payload offer inv = λ h. cc h
  handle_message-ne-panic s payload accept inv = λ h. cc h
  handle_message-ne-panic s payload reject inv = λ h. cc h
  handle_message-ne-panic s payload resume inv = λ h. cc h
  handle_message-ne-panic s payload restart inv = λ h. cc h
  handle_message-ne-panic s payload chunk_hashes inv = λ h. cc h
  handle_message-ne-panic s payload verified inv = λ h. cc h
  handle_message-ne-panic s payload cancel inv = λ h. cc h
  handle_message-ne-panic s payload discover inv = λ h. cc h
  handle_message-ne-panic s payload announce inv = λ h. cc h
  handle_message-ne-panic s payload error inv = λ h. cc h
