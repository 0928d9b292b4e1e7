-- ===== src/Chunk/Search/Order.antt =====
-- The order of the recorded chunks.
use warpfile.Common.{ℕ, suc, ◌≤◌, arith, List, [], ◌∷◌}
use warpfile.Chunk.Search.{RecordedChunk}

-- The indices increase, and the first is at least `lo`.
abbrev pub SortedFrom : ℕ → List RecordedChunk → Type 0
SortedFrom lo [] = Unit {0}
SortedFrom lo (c ∷ cs) = (lo ≤ c.index) × SortedFrom (suc c.index) cs

pub SortedFrom-mono :
    (lo lo' : ℕ) (cs : List RecordedChunk) → lo' ≤ lo → SortedFrom lo cs → SortedFrom lo' cs
SortedFrom-mono lo lo' [] h s = tt
SortedFrom-mono lo lo' (c ∷ cs) h s = (omega arith, s.1)
