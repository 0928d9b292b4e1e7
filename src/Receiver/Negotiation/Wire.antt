-- ===== src/Receiver/Negotiation/Wire.antt =====
-- The frames of an announced inventory on the stream (src/receiver_v03.rs, src/sender_v03.rs).
use mathlib.Core.List.{append_assoc, append-nil}
use warpfile.Common.{
  ℕ, zero, suc, ◌+◌, ◌-◌, ◌≤◌, ◌<◌, ◌≡◌, refl, sym, ap, ◌∙◌, arith, subst, List, [], ◌∷◌, ◌++◌, All,
  ltb,
}
use warpfile.Common.{Option, true, false, length, length-append}
use warpfile.Common.{ok_injective, ok, >>=-eq-ok, map_err, map_err-eq-ok}
use warpfile.Bytes.Words.{checked_add, u64_mod}
use warpfile.Io.{ErrorKind}
use warpfile.Chunk.Layout.{ChunkLayout}
use warpfile.Protocol.Message.{MessageType, chunk_hashes}
use warpfile.Protocol.Frame.{Frame, new_for_version, validate_version_and_message_type}
use warpfile.Protocol.Encoder.{frame_bytes}
use warpfile.Protocol.Decoder.RoundTrip.{IsEncodable, encode_frame-inversion}
use warpfile.Protocol.Stream.{AsyncRead, AsyncWrite, write_frame}
use warpfile.Protocol.Stream.Framing.{sent-write_frame, read-frame_bytes}
use warpfile.Protocol.V03.ChunkHashes.{
  ChunkHashRecord, ChunkHashesBatch, IsChunkHashRecord, encode_chunk_hashes,
}
use warpfile.Protocol.V03.ChunkHashes.Exact.{decode_chunk_hashes-encode}
use warpfile.Receiver.Negotiation.{
  frame_error, protocol, chunk_hashes_error, write_message, write_batches,
}
use warpfile.Receiver.Negotiation.Exchange.{
  all_records, IsInventory, last_index, IsInventory-append, take_records-eq-ok,
}
use warpfile.Sender.Inventory.{take_batch, receive_batches, next_frame}

abbrev pub frame_v03 : MessageType → List ℕ → Frame
frame_v03 t payload = record { version = 3; message_type = t; flags = 0; payload = payload }

pub new_for_version-inversion :
    (t : MessageType) (payload : List ℕ) (f : Frame)
    → new_for_version 3 t payload ≡ ok f
    → f ≡ frame_v03 t payload
unfolding new_for_version
new_for_version-inversion t payload f h =
    let (_, _, e) = >>=-eq-ok (validate_version_and_message_type 3 t) _ h in sym (ok_injective e)

-- Bytes that are the frames of batches.
abbrev pub Carries : List ℕ → List ChunkHashesBatch → Type 0
Carries bytes [] = bytes ≡ []
Carries bytes (b ∷ bs) =
    (payload : List ℕ) × (more : List ℕ) × (encode_chunk_hashes b ≡ ok payload)
    × IsEncodable (frame_v03 chunk_hashes payload)
    × (bytes ≡ frame_bytes (frame_v03 chunk_hashes payload) ++ more)
    × Carries more bs

module _ (W : AsyncWrite ErrorKind) where
  open W use {Writer, sent}

  pub sent-write_message :
      (w w' : Writer) (t : MessageType) (payload : List ℕ)
      → write_message W w t payload ≡ ok w'
      → IsEncodable (frame_v03 t payload) × (sent w' ≡ sent w ++ frame_bytes (frame_v03 t payload))
  unfolding write_message
  sent-write_message w w' t payload h =
      let (f, p, q) = >>=-eq-ok (map_err frame_error (new_for_version 3 t payload)) _ h in
      let e =
        new_for_version-inversion t payload f
          (map_err-eq-ok frame_error (new_for_version 3 t payload) p) in
      let (k, grown, _) =
        sent-write_frame W w w' f (map_err-eq-ok protocol (write_frame W w f) q) in
      let encodable = (encode_frame-inversion f (frame_bytes f) k).0 in
      (subst IsEncodable e encodable, grown ∙ ap (λ z. sent w ++ frame_bytes z) e)

  pub sent-write_batches :
      (w w' : Writer) (bs : List ChunkHashesBatch)
      → write_batches W w bs ≡ ok w'
      → (bytes : List ℕ) × (sent w' ≡ sent w ++ bytes) × Carries bytes bs
  unfolding write_batches
  sent-write_batches w w' [] h =
      let e : w ≡ w' = ok_injective h in ([], ap sent (sym e) ∙ sym (append-nil (sent w)), refl)
  sent-write_batches w w' (b ∷ bs) h =
      let (payload, p, q) = >>=-eq-ok (map_err chunk_hashes_error (encode_chunk_hashes b)) _ h in
      let (w1, p1, q1) = >>=-eq-ok (write_message W w chunk_hashes payload) _ q in
      let (encodable, grown) = sent-write_message w w1 chunk_hashes payload p1 in
      let (more, all, carries) = sent-write_batches w1 w' bs q1 in
      let front = frame_bytes (frame_v03 chunk_hashes payload) in
      (
        front ++ more,
        all ∙ ap (λ t. t ++ more) grown ∙ append_assoc (sent w) front more,
        (
          payload,
          more,
          map_err-eq-ok chunk_hashes_error (encode_chunk_hashes b) p,
          encodable,
          refl,
          carries,
        ),
      )

take_batch-eq-ok :
    (l : ChunkLayout) (declared received : ℕ) (records : List ChunkHashRecord) (previous : Option ℕ)
    (b : ChunkHashesBatch) (payload : List ℕ)
    → encode_chunk_hashes b ≡ ok payload
    → All IsChunkHashRecord b.records
    → 0 < length b.records
    → IsInventory l previous b.records
    → received + length b.records ≤ declared
    → declared < u64_mod
    → take_batch l declared received records previous (frame_v03 chunk_hashes payload)
      ≡ ok (received + length b.records, records ++ b.records, last_index previous b.records)
unfolding take_batch checked_add
take_batch-eq-ok l declared received records previous b payload enc valid some_there inv fits
      small =
    let d = decode_chunk_hashes-encode b valid payload enc in
    let t = take_records-eq-ok l records previous b.records inv in ground (arith, d, t)

-- Batches that the receiver sends: none is empty, and the fields of the records have their types.
abbrev pub IsBatch : ChunkHashesBatch → Type 0
IsBatch b = (0 < length b.records) × All IsChunkHashRecord b.records

below-ltb : (a b : ℕ) → a < b → ltb a b ≡ true
below-ltb a b h = ground arith

same-ltb : (a : ℕ) → ltb a a ≡ false
same-ltb a = ground arith

module _ (A : AsyncRead ErrorKind) (l : ChunkLayout) (declared : ℕ)
    (small : declared < u64_mod) where
  open A use {Reader, pending}

  -- The loop takes every batch, and leaves what stood behind.
  abbrev Received :
      ℕ → ℕ → List ChunkHashRecord → Option ℕ → Reader → List ChunkHashRecord → List ℕ → Type 0
  Received fuel received records previous r more rest =
      (r' : Reader) × (receive_batches A fuel l declared received records previous r
        ≡ ok (records ++ more, r'))
      × (pending r' ≡ rest)

  pub receive_batches_lem :
      (fuel received : ℕ) (records : List ChunkHashRecord) (previous : Option ℕ) (r : Reader)
      (bs : List ChunkHashesBatch) (bytes rest : List ℕ)
      → pending r ≡ bytes ++ rest
      → Carries bytes bs
      → All IsBatch bs
      → IsInventory l previous (all_records bs)
      → received + length (all_records bs) ≡ declared
      → declared - received ≤ fuel
      → Received fuel received records previous r (all_records bs) rest
  unfolding receive_batches next_frame frame_bytes
  receive_batches_lem zero received records previous r [] bytes rest p c v inv sum enough =
      let e : received ≡ declared = omega arith in
      (r, rw (e, same-ltb declared, append-nil records) refl, p ∙ ap (λ t. t ++ rest) c)
  receive_batches_lem (suc fuel) received records previous r [] bytes rest p c v inv sum enough =
      let e : received ≡ declared = omega arith in
      (r, rw (e, same-ltb declared, append-nil records) refl, p ∙ ap (λ t. t ++ rest) c)
  receive_batches_lem zero received records previous r (b ∷ bs) bytes rest p c v inv sum enough =
      let len = length-append b.records (all_records bs) in
      let some_there = v.0.0 in absurd (omega arith)
  receive_batches_lem (suc fuel) received records previous r (b ∷ bs) bytes rest p c v inv sum
        enough =
      let (payload, more, enc, encodable, whole, carries) = c in
      let frame = frame_v03 chunk_hashes payload in
      let (here, there) = IsInventory-append l previous b.records (all_records bs) inv in
      let len = length-append b.records (all_records bs) in
      let some_there = v.0.0 in
      let (r1, q, behind) =
        read-frame_bytes A r frame (more ++ rest) encodable refl
          (p ∙ ap (λ t. t ++ rest) whole ∙ append_assoc (frame_bytes frame) more rest) in
      let taken =
        take_batch-eq-ok l declared received records previous b payload enc v.0.1 some_there here
          (omega arith) small in
      let (r2, again, left) =
        receive_batches_lem fuel (received + length b.records) (records ++ b.records)
          (last_index previous b.records) r1 bs more rest behind carries v.1 there (omega arith)
          (omega arith) in
      let go = below-ltb received declared (omega arith) in
      (
        r2,
        rw (go, next_frame, q, taken)
            (again ∙ ap (λ t. ok (t, r2)) (append_assoc records b.records (all_records bs))),
        left,
      )
