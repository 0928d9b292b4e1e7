-- ===== src/Metadata/Exact.antt =====
-- The text of a transfer id.
use warpfile.Common.{ℕ, ◌*◌, ◌≡◌, ◌↔◌, refl, arith, List, some, length, map, ok, eq→==}
use warpfile.Hex.{parse_pairs}
use warpfile.Hex.Exact.{lower, parse_pairs_sound, parse_pairs_complete}
use warpfile.Protocol.TransferId.{TransferId, IsTransferId, transfer_id_length, display}
use warpfile.Metadata.{parse_transfer_id}

parse_transfer_id-pairs :
    (text : List ℕ) (id : TransferId)
    → parse_transfer_id text ≡ ok id
    → (length text ≡ transfer_id_length * 2) × (parse_pairs text ≡ some id.bytes)
unfolding parse_transfer_id
parse_transfer_id-pairs text id h = ground arith

-- `parse_transfer_id` returns an id exactly when the id is one of 16 bytes and the text, with its
-- letters in lower case, is what the id displays.
pub parse_transfer_id_iff :
    (text : List ℕ) (id : TransferId)
    → (parse_transfer_id text ≡ ok id) ↔ (IsTransferId id × (map lower text ≡ display id))
unfolding parse_transfer_id display
parse_transfer_id_iff text id = (
  λ h.
      let (n, p) = parse_transfer_id-pairs text id h in
      let (m, b, e) = parse_pairs_sound text id.bytes p in ((omega arith, b), e),
  λ ((n, b), e).
      let p = parse_pairs_complete text id.bytes b e in
      let (m, _, _) = parse_pairs_sound text id.bytes p in
      rw (eq→== (length text) (transfer_id_length * 2) (omega arith), p) refl,
)
