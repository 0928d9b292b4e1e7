-- ===== src/Receiver/Negotiation/Exchange.antt =====
-- The records of batches, and how the loop of `receive_inventory_and_accept` (src/sender_v03.rs)
-- takes them.
use mathlib.Core.List.{append_assoc, append-nil}
use warpfile.Common.{ℕ, ◌<◌, ◌≡◌, refl, sym, ap, ◌∙◌, arith, List, [], ◌∷◌, ◌++◌}
use warpfile.Common.{Option, none, some, true}
use warpfile.Common.{ok}
use warpfile.Chunk.Layout.{ChunkLayout}
use warpfile.Chunk.State.{in_range}
use warpfile.Protocol.V03.ChunkHashes.{ChunkHashRecord, ChunkHashesBatch}
use warpfile.Sender.Inventory.{check_increasing, take_records}

-- The records of batches, in order.
abbrev pub all_records : List ChunkHashesBatch → List ChunkHashRecord
all_records [] = []
all_records (b ∷ bs) = b.records ++ all_records bs

abbrev pub Follows : Option ℕ → ℕ → Type 0
Follows none i = Unit {0}
Follows (some p) i = p < i

-- Records in range, with increasing indices after `previous`.
abbrev pub IsInventory : ChunkLayout → Option ℕ → List ChunkHashRecord → Type 0
IsInventory l previous [] = Unit {0}
IsInventory l previous (r ∷ rs) =
    (in_range l r.chunk_index ≡ true)
    × Follows previous r.chunk_index
    × IsInventory l (some r.chunk_index) rs

abbrev pub last_index : Option ℕ → List ChunkHashRecord → Option ℕ
last_index previous [] = previous
last_index previous (r ∷ rs) = last_index (some r.chunk_index) rs

pub IsInventory-append :
    (l : ChunkLayout) (previous : Option ℕ) (xs ys : List ChunkHashRecord)
    → IsInventory l previous (xs ++ ys)
    → IsInventory l previous xs × IsInventory l (last_index previous xs) ys
IsInventory-append l previous [] ys h = (tt, h)
IsInventory-append l previous (x ∷ xs) ys h =
    let (a, b) = IsInventory-append l (some x.chunk_index) xs ys h.2 in ((h.0, h.1, a), b)

check_increasing-eq-ok :
    (previous : Option ℕ) (i : ℕ) → Follows previous i → check_increasing previous i ≡ ok tt
unfolding check_increasing
check_increasing-eq-ok none i h = refl
check_increasing-eq-ok (some p) i h = ground arith

pub take_records-eq-ok :
    (l : ChunkLayout) (records : List ChunkHashRecord) (previous : Option ℕ)
    (rs : List ChunkHashRecord)
    → IsInventory l previous rs
    → take_records l records previous rs ≡ ok (records ++ rs, last_index previous rs)
unfolding take_records
take_records-eq-ok l records previous [] h = ap (λ t. ok (t, previous)) (sym (append-nil records))
take_records-eq-ok l records previous (r ∷ rs) h =
    rw (h.0, check_increasing-eq-ok previous r.chunk_index h.1)
      (take_records-eq-ok l (records ++ r ∷ []) (some r.chunk_index) rs h.2
        ∙ ap (λ t. ok (t, last_index (some r.chunk_index) rs)) (append_assoc records (r ∷ []) rs))
