-- ===== src/FileName/Paths.antt =====
-- The paths that the receiver builds (src/receiver_paths.rs): the internal directory of a
-- destination, its partial files, and the final file. A path is the list of its bytes, and
-- `PathBuf::join` is that of Unix.
pub mod Components
pub mod Apart
pub mod Distinct
use warpfile.Common.{ℕ, List, [], ◌∷◌, ◌++◌, Bool, false, not, ◌==◌, if◌then◌else◌}
use warpfile.FileName.{slash, internal_directory, starts_with_slash}

-- Whether a path ends with anything but a slash.
unfoldable pub needs_separator : List ℕ → Bool
needs_separator [] = false
needs_separator (b ∷ []) = not (b == slash)
needs_separator (b ∷ c ∷ cs) = needs_separator (c ∷ cs)

unfoldable pub with_separator : List ℕ → List ℕ
with_separator path = if needs_separator path then path ++ slash ∷ [] else path

-- `Path::join`: an absolute name replaces the path.
unfoldable pub join : List ℕ → List ℕ → List ℕ
join path name = if starts_with_slash name then name else with_separator path ++ name

-- `internal_directory(destination_directory)`
unfoldable pub internal_path : List ℕ → List ℕ
internal_path destination_directory = join destination_directory internal_directory

-- "partials"
abbrev pub partials : List ℕ
partials = 0x70 ∷ 0x61 ∷ 0x72 ∷ 0x74 ∷ 0x69 ∷ 0x61 ∷ 0x6C ∷ 0x73 ∷ []

-- ".part"
abbrev pub part_suffix : List ℕ
part_suffix = 0x2E ∷ 0x70 ∷ 0x61 ∷ 0x72 ∷ 0x74 ∷ []

unfoldable pub partials_directory : List ℕ → List ℕ
partials_directory destination_directory = join (internal_path destination_directory) partials

unfoldable pub partial_path : List ℕ → List ℕ → List ℕ
partial_path destination_directory filename =
    join (partials_directory destination_directory) (filename ++ part_suffix)

unfoldable pub final_path : List ℕ → List ℕ → List ℕ
final_path destination_directory filename = join destination_directory filename
