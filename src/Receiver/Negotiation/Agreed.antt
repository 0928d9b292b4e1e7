-- ===== src/Receiver/Negotiation/Agreed.antt =====
-- `negotiate_inventory` (src/receiver_v03.rs) and `receive_inventory_and_accept`
-- (src/sender_v03.rs), the two sides of the negotiation, together.
use mathlib.Core.List.{append_assoc}
use warpfile.Common.{
  ℕ, zero, suc, ◌≤◌, ◌<◌, ◌≡◌, refl, sym, ap, ◌∙◌, arith, List, [], ◌++◌, map, All, leb,
}
use warpfile.Common.{none, true, length, append_cancel_left}
use warpfile.Common.{ok, >>=-eq-ok}
use warpfile.Bytes.Words.{u64_mod}
use warpfile.Bytes.BigEndian.{length-to_be_bytes, from_be_bytes-to_be_bytes}
use warpfile.Io.{ErrorKind}
use warpfile.Chunk.Layout.{ChunkLayout, IsChunkLayout, chunk_count}
use warpfile.Chunk.State.{ChunkState}
use warpfile.Chunk.State.Invariant.{IsWellFormed}
use warpfile.Protocol.Message.{resume, accept, is_allowed_in_version}
use warpfile.Protocol.Frame.{
  new_for_version, validate_version_and_message_type, is_supported_version,
}
use warpfile.Protocol.Encoder.{frame_bytes, encode_frame}
use warpfile.Protocol.Message.{is_data}
use warpfile.Protocol.Decoder.RoundTrip.{IsEncodable, encode_frame-eq-ok}
use warpfile.Chunk.Layout.Ranges.{offset-lt}
use warpfile.Receiver.Coverage.{recorded_le}
use native.Mathlib.Nat.{le-mul_of_pos_right}
use warpfile.Protocol.Stream.{AsyncRead, AsyncWrite, write_frame}
use warpfile.Protocol.Stream.Framing.{read-frame_bytes}
use warpfile.Protocol.V03.Resume.{encode_resume_v03, decode_resume_v03}
use warpfile.Protocol.V03.ChunkHashes.{ChunkHashesBatch}
use warpfile.Receiver.Prepare.{as_record, chunk_hash_batches}
use warpfile.Receiver.Negotiation.{write_message, announce_inventory}
use warpfile.Receiver.Negotiation.Exchange.{all_records, IsInventory}
use warpfile.Receiver.Negotiation.Wire.{
  frame_v03, Carries, IsBatch, sent-write_message, sent-write_batches, receive_batches_lem,
}
use warpfile.Sender.Inventory.{
  receive_inventory_and_accept_after_resume, receive_inventory_and_accept,
}
use warpfile.Receiver.Negotiation.Batches.{IsTyped, length-map, batches_lem}

-- The answer of the sender.
abbrev pub accept_bytes : List ℕ
accept_bytes = frame_bytes (frame_v03 accept [])

accept-IsEncodable : IsEncodable (frame_v03 accept [])
unfolding is_supported_version is_allowed_in_version is_data
accept-IsEncodable = record {
  supported = refl;
  allowed = refl;
  data_fits = refl;
  fits = omega arith;
}

accept_written :
    (W : AsyncWrite ErrorKind) (v v1 v' : W.Writer)
    → W.write_all v accept_bytes ≡ ok v1
    → W.flush v1 ≡ ok v'
    → write_frame W v (frame_v03 accept []) ≡ ok v'
unfolding write_frame
accept_written W v v1 v' h k =
    let e : encode_frame (frame_v03 accept []) ≡ ok accept_bytes =
      encode_frame-eq-ok (frame_v03 accept []) accept-IsEncodable in
    rw (e, h, k) refl

module _ (l : ChunkLayout) (valid : IsChunkLayout l) where
  count_small : (n : ℕ) → n ≤ chunk_count l → n < u64_mod
  count_small zero h = omega arith
  count_small (suc n) h =
      let start = offset-lt l valid n (omega arith) in
      let size = valid.file_size in
      let positive = valid.positive in let grown = le-mul_of_pos_right n positive in omega arith

  resume_read :
      (n : ℕ)
      → n < u64_mod
      → decode_resume_v03 (encode_resume_v03 (record { chunk_record_count = n }))
        ≡ ok (record { chunk_record_count = n })
  unfolding decode_resume_v03 encode_resume_v03
  resume_read n h =
      let width = length-to_be_bytes 8 n in
      let value = from_be_bytes-to_be_bytes 8 n h in ground arith

  -- What the sender makes of an announced inventory that stands in front of its reader.
  answered :
      (A : AsyncRead ErrorKind) (V : AsyncWrite ErrorKind) (v v1 v' : V.Writer) (r : A.Reader)
      (bs : List ChunkHashesBatch) (n : ℕ) (more rest : List ℕ)
      → IsEncodable (frame_v03 resume (encode_resume_v03 (record { chunk_record_count = n })))
      → A.pending r
        ≡ frame_bytes (frame_v03 resume (encode_resume_v03 (record { chunk_record_count = n })))
          ++ (more ++ rest)
      → Carries more bs
      → All IsBatch bs
      → IsInventory l none (all_records bs)
      → length (all_records bs) ≡ n
      → n ≤ chunk_count l
      → V.write_all v accept_bytes ≡ ok v1
      → V.flush v1 ≡ ok v'
      → (r' : A.Reader) × (receive_inventory_and_accept A V r v l
          ≡ ok (r', v', record { layout = l; records = all_records bs }))
        × (A.pending r' ≡ rest)
  unfolding receive_inventory_and_accept receive_inventory_and_accept_after_resume new_for_version
      validate_version_and_message_type is_supported_version is_allowed_in_version
  answered A V v v1 v' r bs n more rest encodable p c batches inv count fits written flushed =
      let small = count_small n fits in
      let (r1, q, behind) =
        read-frame_bytes A r
          (frame_v03 resume (encode_resume_v03 (record { chunk_record_count = n }))) (more ++ rest)
          encodable refl p in
      let (r2, taken, left) =
        receive_batches_lem A l n small n 0 [] none r1 bs more rest behind c batches inv
          (omega arith) (omega arith) in
      let request = resume_read n small in
      let fine : leb n (chunk_count l) ≡ true = ground arith in
      let sent = accept_written V v v1 v' written flushed in
      (r2, rw (q, request, fine, taken, sent) refl, left)

-- A receiver with a well-formed chunk state announces its inventory (RESUME and the batches), and
-- the sender, for the same layout, reads these bytes from its stream. Then
-- `receive_inventory_and_accept` succeeds, provided that its ACCEPT is written and flushed: its
-- records are exactly the receiver's recorded chunks, in order, and it leaves exactly what stood
-- behind the announcement. (The fields of the recorded chunks have their Rust types.)
pub announce-receive_inventory :
    (l : ChunkLayout) (valid : IsChunkLayout l) (s : ChunkState) (W V : AsyncWrite ErrorKind)
    (A : AsyncRead ErrorKind) (w w' : W.Writer) (v v1 v' : V.Writer) (r : A.Reader)
    (bytes rest : List ℕ)
    → s.layout ≡ l
    → IsWellFormed s
    → All IsTyped s.chunks
    → announce_inventory W w
        (record { chunk_record_count = length s.chunks })
        (chunk_hash_batches s)
      ≡ ok w'
    → W.sent w' ≡ W.sent w ++ bytes
    → A.pending r ≡ bytes ++ rest
    → V.write_all v accept_bytes ≡ ok v1
    → V.flush v1 ≡ ok v'
    → (r' : A.Reader) × (receive_inventory_and_accept A V r v l
        ≡ ok (r', v', record { layout = l; records = map as_record s.chunks }))
      × (A.pending r' ≡ rest)
unfolding announce_inventory
announce-receive_inventory l valid s W V A w w' v v1 v' r bytes rest same wf typed told grown front
      written flushed =
    let n = length s.chunks in
    let first = encode_resume_v03 (record { chunk_record_count = n }) in
    let (w1, p, q) = >>=-eq-ok (write_message W w resume first) _ told in
    let (encodable, sent_first) = sent-write_message W w w1 resume first p in
    let (more, sent_more, carries) = sent-write_batches W w1 w' (chunk_hash_batches s) q in
    let (all, batches, inv) = batches_lem s wf typed in
    let whole = append_cancel_left (W.sent w) (
      sym grown
      ∙ sent_more
      ∙ ap (λ t. t ++ more) sent_first
      ∙ append_assoc (W.sent w) (frame_bytes (frame_v03 resume first)) more) in
    let count = ap length all ∙ length-map s.chunks in
    let fits = recorded_le s (rw same valid) wf in
    let in_layout : n ≤ chunk_count l = rw (← same) fits in
    let inv' : IsInventory l none (all_records (chunk_hash_batches s)) = rw (all, ← same) inv in
    let (r', done, left) =
      answered l valid A V v v1 v' r (chunk_hash_batches s) n more rest encodable
        (front
          ∙ ap (λ t. t ++ rest) whole
          ∙ append_assoc (frame_bytes (frame_v03 resume first)) more rest)
        carries batches inv' count in_layout written flushed in
    (r', done ∙ ap (λ t. ok (r', v', record { layout = l; records = t })) all, left)
