-- ===== src/Receiver/Transfer/Ends.antt =====
-- `receive_transfer` (src/receiver_v03.rs) and its fuel.
use warpfile.Common.{ℕ, zero, suc, ◌<◌, ◌≡◌, ◌≢◌, ap, arith}
use warpfile.Common.{length, ok, panic, inl, inr, Result-cases}
use warpfile.Io.{ErrorKind}
use warpfile.Io.File.{RandomFile}
use warpfile.Chunk.Layout.{ChunkLayout, IsChunkLayout}
use warpfile.Chunk.Manifest.{Hasher}
use warpfile.Protocol.Message.{wfp_version_v03}
use warpfile.Protocol.Stream.{AsyncRead, read_frame_for_version}
use warpfile.Receiver.Chunks.{ChunkStore}
use warpfile.Receiver.Transfer.{Session, handle_frame, receive_transfer}
use warpfile.Receiver.Transfer.Verified.{Holds, handle_message-Holds}
use warpfile.Receiver.Transfer.Rounds.{read_frame-ne-panic, read_shorter, handle_message-ne-panic}

module _ (H : Hasher) (l : ChunkLayout) (valid : IsChunkLayout l) (F : RandomFile)
    (S : ChunkStore) where
  -- With more fuel than the stream has bytes, `receive_transfer` from a state that satisfies the
  -- invariant of a transfer ends with a result or an error: it never panics, and never runs out of
  -- fuel. The stream's own `read_exact` does not panic.
  pub receive_transfer-ne-panic :
      (A : AsyncRead ErrorKind) (fuel : ℕ) (s : Session H F S) (reader : A.Reader)
      → ((r : A.Reader) (n : ℕ) → A.read_exact r n ≢ panic)
      → Holds H l valid F S s
      → length (A.pending reader) < fuel
      → (receive_transfer H F S A fuel s reader).1 ≢ panic
  unfolding receive_transfer handle_frame
  receive_transfer-ne-panic A zero s reader calm inv enough h = absurd (omega arith)
  receive_transfer-ne-panic A (suc fuel) s reader calm inv enough h =
      elim (Result-cases (read_frame_for_version A reader wfp_version_v03)) [
        | inl (inl (got, e1)) ↦
            let y = rw (receive_transfer, e1) at h in
            let round = handle_frame H F S s got.0 in
            elim (Result-cases round.1) [
              | inl (inl (p, e2)) ↦
                  let q : round ≡ (round.0, ok p) = ap (λ x. (round.0, x)) e2 in
                  let (k, out) =
                    handle_message-Holds H l valid F S s round.0 got.0.payload got.0.message_type p
                      q inv in
                  let shorter = read_shorter A calm reader got.1 wfp_version_v03 got.0 e1 in
                  elim out [
                    | inl go ↦
                        let y' = rw (e2, go) at y in
                        receive_transfer-ne-panic A fuel round.0 got.1 calm k (omega arith) y'
                    | inr (all, stop) ↦ let y' = rw (e2, stop) at y in cc y'
                  ]
              | inl (inr (x, e2)) ↦ let y' = rw e2 at y in cc y'
              | inr e2 ↦
                  handle_message-ne-panic H l valid F S s got.0.payload got.0.message_type inv e2
            ]
        | inl (inr (x, e1)) ↦ let y = rw (receive_transfer, e1) at h in cc y
        | inr e1 ↦ read_frame-ne-panic A calm reader wfp_version_v03 e1
      ]
