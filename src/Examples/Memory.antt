-- ===== src/Examples/Memory.antt =====
-- A disk in memory: a file is the list of its bytes, and each of its operations succeeds.
use warpfile.Common.{
  ℕ, zero, suc, ◌≤◌, ◌≡◌, ◌≢◌, ◌⊎◌, inl, inr, refl, sym, arith, List, [], ◌∷◌, ◌++◌, Option, none,
  some, Bool, true,
}
use warpfile.Common.{length, take, drop, take-append-drop, Result, ok, panic}
use warpfile.Io.{ErrorKind}
use warpfile.Io.Source.{Source}
use warpfile.Io.File.{RandomFile, Readable, Resizable, splice, resize}
use warpfile.Chunk.State.{ChunkState}
use warpfile.Receiver.Chunks.{ChunkStore}

pub ok_is_ok : {A : Type 0} (a : A) → ◌≢◌ {A = Result A ErrorKind} (ok a) panic
ok_is_ok a h = cc h

abbrev pub read_some : List ℕ → ℕ → Result (List ℕ × List ℕ) ErrorKind
read_some r n = ok (take n r, drop n r)

length_take_le : (n : ℕ) (xs : List ℕ) → length (take n xs) ≤ n
length_take_le zero xs = omega arith
length_take_le (suc n) [] = omega arith
length_take_le (suc n) (x ∷ xs) = let h = length_take_le n xs in omega arith

take_something : (n : ℕ) (xs : List ℕ) → (take n xs ≢ []) ⊎ ((n ≡ 0) ⊎ (xs ≡ []))
take_something zero xs = inr (inl refl)
take_something (suc n) [] = inr (inr refl)
take_something (suc n) (x ∷ xs) = inl (λ h. cc h)

pub read_some_lem :
    (r r' : List ℕ) (n : ℕ) (bytes : List ℕ)
    → read_some r n ≡ ok (bytes, r')
    → (r ≡ bytes ++ r') × (length bytes ≤ n) × ((bytes ≢ []) ⊎ ((n ≡ 0) ⊎ (r ≡ [])))
read_some_lem r r' n bytes h =
    let e : take n r ≡ bytes = cc h in
    let e' : drop n r ≡ r' = cc h in
    rw (← e, ← e') (sym (take-append-drop n r), length_take_le n r, take_something n r)

abbrev pub bytes_source : Source
bytes_source = record {
  Reader = List ℕ;
  pending = λ r. r;
  read = read_some;
  read-ne-panic = λ r n. ok_is_ok (take n r, drop n r);
  read_lem = read_some_lem;
}

abbrev pub memory_file : RandomFile
memory_file = record {
  File = List ℕ;
  contents = λ f. f;
  write_at = λ f offset bytes. (splice f offset bytes, none);
  sync = λ f. (f, none);
  write_at_lem = λ f offset bytes _ _. refl;
  sync_lem = λ f. refl;
}

pub seek_drop :
    (f : List ℕ) (n : ℕ) (r : List ℕ)
    → ◌≡◌ {A = Result (List ℕ) ErrorKind} (ok (drop n f)) (ok r)
    → r ≡ drop n f
seek_drop f n r h = cc h

abbrev pub memory_readable : Readable memory_file
memory_readable = record {
  source = bytes_source;
  seek = λ f offset. ok (drop offset f);
  seek-ne-panic = λ f offset. ok_is_ok (drop offset f);
  seek_lem = seek_drop;
}

pub metadata_length :
    (f : List ℕ) (b : Bool) (n : ℕ)
    → ◌≡◌ {A = Result (Bool × ℕ) ErrorKind} (ok (true, length f)) (ok (b, n))
    → n ≡ length f
metadata_length f b n h = cc h

abbrev pub memory_resizable : Resizable memory_file
memory_resizable = record {
  metadata = λ f. ok (true, length f);
  set_len = λ f n. (resize f n, none);
  metadata_lem = metadata_length;
  set_len_lem = λ f n _. refl;
}

abbrev pub memory_store : ChunkStore
memory_store = record {
  Disk = Option ChunkState;
  saved = λ d. d;
  write_chunk_state = λ d s. (some s, none);
  write_chunk_state_lem = λ d s _. refl;
}
