-- ===== src/Examples/Manifests.antt =====
-- A manifest of six bytes in chunks of four, with a digest that keeps the bytes.
use warpfile.Common.{ℕ, ◌+◌, ◌<◌, ◌≤◌, ◌≡◌, ◌⊎◌, refl, ap, arith, List, [], ◌∷◌, ◌++◌}
use warpfile.Common.{ok, err, ◌>>=◌}
use warpfile.Bytes.Words.{saturating_add, checked_sub, checked_add, checked_mul}
use warpfile.Chunk.Hash.{ChunkHash}
use warpfile.Chunk.Layout.{ChunkLayout, IsChunkLayout, range, chunk_count}
use warpfile.Chunk.Manifest.{
  Hasher, ChunkManifest, ChunkManifestBuilder, incomplete_data, too_much_data, new, update,
  try_update, update_loop, update_all, round, close_chunk, finish,
}
use warpfile.Chunk.Manifest.Building.{IsBuilding}
use warpfile.Chunk.Manifest.Correct.{
  joined, new-IsBuilding, update_cases, IsManifest, finish_cases, finish-IsManifest,
}

abbrev keep : List ℕ → ChunkHash
keep xs = record { bytes = xs }

abbrev pub keeper : Hasher
keeper = record {
  State = List ℕ;
  init = [];
  feed = λ s bytes. s ++ bytes;
  finalize = keep;
  digest = keep;
  Absorbed = λ s xs. s ≡ xs;
  init-Absorbed = refl;
  feed-Absorbed = λ s xs bytes h. ap (λ t. t ++ bytes) h;
  finalize_lem = λ s xs h. ap keep h;
}

abbrev six : ChunkLayout
six = record { file_size = 6; chunk_size = 4 }

six-IsChunkLayout : IsChunkLayout six
six-IsChunkLayout = omega arith

abbrev three_pieces : List (List ℕ)
three_pieces = (1 ∷ 2 ∷ 3 ∷ []) ∷ [] ∷ (4 ∷ 5 ∷ 6 ∷ []) ∷ []

-- The run that the theorem is about.
six_run :
    update_all keeper (new keeper six) three_pieces >>= finish keeper
    ≡ ok (record { layout = six; hashes = keep (1 ∷ 2 ∷ 3 ∷ 4 ∷ []) ∷ keep (5 ∷ 6 ∷ []) ∷ [] })
unfolding new update_all update try_update update_loop round close_chunk finish range chunk_count
    checked_sub checked_add checked_mul saturating_add
six_run = refl

finish-IsManifest_example :
    (m : ChunkManifest) × (update_all keeper (new keeper six) three_pieces >>= finish keeper ≡ ok m)
    × IsManifest keeper six six-IsChunkLayout m (joined three_pieces)
finish-IsManifest_example = finish-IsManifest keeper six six-IsChunkLayout three_pieces refl

update_cases_example :
    ((b' : ChunkManifestBuilder keeper) × (update keeper (new keeper six) (1 ∷ 2 ∷ [])
        ≡ (b', ok tt))
      × (0 + 2 ≤ 6)
      × IsBuilding keeper six six-IsChunkLayout b' (1 ∷ 2 ∷ []))
    ⊎ ((6 < 0 + 2)
        × (update keeper (new keeper six) (1 ∷ 2 ∷ [])
            ≡ (new keeper six, err (too_much_data 6 (saturating_add 0 2)))))
update_cases_example =
    update_cases keeper six six-IsChunkLayout (new keeper six) [] (1 ∷ 2 ∷ [])
      (new-IsBuilding keeper six six-IsChunkLayout)

finish_cases_example :
    ((◌≡◌ {A = ℕ} 0 6)
      × (m : ChunkManifest) × (finish keeper (new keeper six) ≡ ok m)
      × IsManifest keeper six six-IsChunkLayout m [])
    ⊎ ((0 < 6) × (finish keeper (new keeper six) ≡ err (incomplete_data 6 0)))
finish_cases_example =
    finish_cases keeper six six-IsChunkLayout (new keeper six) []
      (new-IsBuilding keeper six six-IsChunkLayout)
