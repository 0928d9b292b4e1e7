-- ===== src/FileName.antt =====
-- `is_safe_filename` (src/receiver_paths.rs): which names of an offer may become a file in the
-- destination directory. A name is the list of its UTF-8 bytes, and `Path::components` is that of
-- Unix.
pub mod Internal
pub mod Safe
pub mod Paths
use warpfile.Common.{ℕ, ◌+◌, List, [], ◌∷◌, Bool, true, false, not, ◌&&◌, ◌||◌}
use warpfile.Common.{leb, ◌==◌, if◌then◌else◌, map}
use warpfile.Bytes.Slice.{bytes_eq}

abbrev pub slash : ℕ
slash = 0x2F

abbrev pub backslash : ℕ
backslash = 0x5C

abbrev pub colon : ℕ
colon = 0x3A

abbrev pub dot : ℕ
dot = 0x2E

abbrev pub space : ℕ
space = 0x20

-- ".warpfile"
abbrev pub internal_directory : List ℕ
internal_directory = 0x2E ∷ 0x77 ∷ 0x61 ∷ 0x72 ∷ 0x70 ∷ 0x66 ∷ 0x69 ∷ 0x6C ∷ 0x65 ∷ []

abbrev pub is_empty : List ℕ → Bool
is_empty [] = true
is_empty (b ∷ bs) = false

-- `str::contains`, for a character of one byte.
unfoldable pub contains : ℕ → List ℕ → Bool
contains c [] = false
contains c (b ∷ bs) = b == c || contains c bs

-- `filename.split_once(':').map_or(filename, |(base, _stream)| base)`
unfoldable pub before_colon : List ℕ → List ℕ
before_colon [] = []
before_colon (b ∷ bs) = let rest = before_colon bs in if b == colon then [] else b ∷ rest

-- One byte in front of what `trim_end_matches([' ', '.'])` has kept of the bytes behind it.
abbrev pub keep_byte : ℕ → List ℕ → List ℕ
keep_byte b [] = if b == space || b == dot then [] else b ∷ []
keep_byte b (c ∷ cs) = b ∷ c ∷ cs

unfoldable pub trim_end : List ℕ → List ℕ
trim_end [] = []
trim_end (b ∷ bs) = keep_byte b (trim_end bs)

abbrev pub ascii_lowercase : ℕ → ℕ
ascii_lowercase b = if leb 0x41 b && leb b 0x5A then b + 0x20 else b

-- `eq_ignore_ascii_case`
unfoldable pub eq_ignore_ascii_case : List ℕ → List ℕ → Bool
eq_ignore_ascii_case xs ys = bytes_eq (map ascii_lowercase xs) (map ascii_lowercase ys)

unfoldable pub conflicts_with_internal_directory : List ℕ → Bool
conflicts_with_internal_directory filename =
    eq_ignore_ascii_case (trim_end (before_colon filename)) internal_directory

-- `std::path::Component` on Unix, where there is no prefix.
pub data Component : Type 0 where
  root_dir : Component
  cur_dir : Component
  parent_dir : Component
  normal : List ℕ → Component

-- The pieces between the slashes; `piece` in front of what `rest` starts with.
abbrev pub push_piece : ℕ → List (List ℕ) → List (List ℕ)
push_piece b [] = (b ∷ []) ∷ []
push_piece b (piece ∷ pieces) = (b ∷ piece) ∷ pieces

unfoldable pub split_slash : List ℕ → List (List ℕ)
split_slash [] = [] ∷ []
split_slash (b ∷ bs) =
    let rest = split_slash bs in if b == slash then [] ∷ rest else push_piece b rest

-- A piece behind the first: an empty one and "." are left out.
abbrev pub push_component : List ℕ → List Component → List Component
push_component piece rest =
    if is_empty piece || bytes_eq piece (dot ∷ [])
    then rest
    else if bytes_eq piece (dot ∷ dot ∷ [])
    then parent_dir ∷ rest
    else normal piece ∷ rest

unfoldable pub components_of : List (List ℕ) → List Component
components_of [] = []
components_of (piece ∷ pieces) = push_component piece (components_of pieces)

-- A path that starts with a slash starts at the root; a "." in front is kept.
abbrev pub first_component : List (List ℕ) → List Component
first_component [] = []
first_component (piece ∷ pieces) =
    if bytes_eq piece (dot ∷ [])
    then cur_dir ∷ components_of pieces
    else push_component piece (components_of pieces)

abbrev pub starts_with_slash : List ℕ → Bool
starts_with_slash [] = false
starts_with_slash (b ∷ bs) = b == slash

-- `Path::components`
unfoldable pub components : List ℕ → List Component
components path =
    if starts_with_slash path
    then root_dir ∷ components_of (split_slash path)
    else first_component (split_slash path)

-- `matches!((components.next(), components.next()), (Some(Component::Normal(_)), None))`
abbrev pub is_one_normal : List Component → Bool
is_one_normal (normal piece ∷ []) = true
is_one_normal _ = false

unfoldable pub is_safe_filename : List ℕ → Bool
is_safe_filename filename =
    if is_empty filename
      || contains slash filename
      || contains backslash filename
      || conflicts_with_internal_directory filename
    then false
    else is_one_normal (components filename)
