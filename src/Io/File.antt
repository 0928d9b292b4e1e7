-- ===== src/Io/File.antt =====
-- An open file with a cursor that is set before each write, as the receiver uses `tokio::fs::File`.
pub mod Splice
use warpfile.Common.{ℕ, ◌+◌, ◌≤◌, ◌≡◌, List, ◌++◌, length, take, drop, Option, none}
use warpfile.Common.{zero, suc, ◌-◌, [], ◌∷◌, Bool, leb, if◌then◌else◌, Result, ok, panic, ◌≢◌}
use warpfile.Io.{ErrorKind}
use warpfile.Io.Source.{Source}

-- The contents after bytes were written over those at an offset.
abbrev pub splice : List ℕ → ℕ → List ℕ → List ℕ
splice contents offset bytes =
    take offset contents ++ (bytes ++ drop (offset + length bytes) contents)

-- An operation gives the file after it, and an error where it failed. What a failed write leaves
-- behind is not said.
pub record RandomFile : Type 1 where
  pub File : Type 0
  pub contents : File → List ℕ
  -- `seek(SeekFrom::Start(offset))`, then `write_all`
  pub write_at : File → ℕ → List ℕ → File × Option ErrorKind
  -- `flush`, then `sync_data`
  pub sync : File → File × Option ErrorKind
  pub write_at_lem :
      (f : File) (offset : ℕ) (bytes : List ℕ)
      → offset + length bytes ≤ length (contents f)
      → (write_at f offset bytes).1 ≡ none
      → contents (write_at f offset bytes).0 ≡ splice (contents f) offset bytes
  pub sync_lem : (f : File) → contents (sync f).0 ≡ contents f

-- Reading an open file: `seek(SeekFrom::Start(offset))` gives a reader of what stands behind the
-- offset.
pub record Readable (F : RandomFile) : Type 1 where
  pub source : Source
  pub seek : F.File → ℕ → Result source.Reader ErrorKind
  pub seek-ne-panic : (f : F.File) (offset : ℕ) → seek f offset ≢ panic
  pub seek_lem :
      (f : F.File) (offset : ℕ) (r : source.Reader)
      → seek f offset ≡ ok r
      → source.pending r ≡ drop offset (F.contents f)

abbrev pub zeros : ℕ → List ℕ
zeros zero = []
zeros (suc n) = 0 ∷ zeros n

-- The contents cut to a length, or filled up with zeros.
abbrev pub resize : List ℕ → ℕ → List ℕ
resize contents size =
    if leb size (length contents)
    then take size contents
    else contents ++ zeros (size - length contents)

-- `metadata` gives whether it is a regular file, and its length; `set_len` changes the length.
pub record Resizable (F : RandomFile) : Type 1 where
  pub metadata : F.File → Result (Bool × ℕ) ErrorKind
  pub set_len : F.File → ℕ → F.File × Option ErrorKind
  pub metadata_lem :
      (f : F.File) (is_file : Bool) (size : ℕ)
      → metadata f ≡ ok (is_file, size)
      → size ≡ length (F.contents f)
  pub set_len_lem :
      (f : F.File) (size : ℕ)
      → (set_len f size).1 ≡ none
      → F.contents (set_len f size).0 ≡ resize (F.contents f) size
