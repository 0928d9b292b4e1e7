-- ===== src/Examples/Names.antt =====
-- File names and the paths built from them.
use warpfile.Common.{◌≡◌, ◌≢◌, ◌↔◌, refl, List, [], ◌∷◌, ◌++◌, true, false, ℕ}
use warpfile.Bytes.Slice.{bytes_eq}
use warpfile.FileName.{
  contains, before_colon, trim_end, eq_ignore_ascii_case, conflicts_with_internal_directory,
  split_slash, components_of, components, is_safe_filename, normal, internal_directory,
}
use warpfile.FileName.Safe.{IsSafe, is_safe_filename_iff}
use warpfile.FileName.Paths.{
  internal_path, partials_directory, partials, part_suffix, partial_path, final_path,
}
use warpfile.FileName.Paths.Apart.{final_path-outside}
use warpfile.FileName.Paths.Distinct.{components-paths, paths_distinct}

-- "a.b"
abbrev plain_name : List ℕ
plain_name = 0x61 ∷ 0x2E ∷ 0x62 ∷ []

-- "c"
abbrev other_name : List ℕ
other_name = 0x63 ∷ []

plain_name_lem : is_safe_filename plain_name ≡ true
unfolding is_safe_filename contains conflicts_with_internal_directory eq_ignore_ascii_case bytes_eq
    trim_end before_colon components split_slash components_of
plain_name_lem = refl

other_name_lem : is_safe_filename other_name ≡ true
unfolding is_safe_filename contains conflicts_with_internal_directory eq_ignore_ascii_case bytes_eq
    trim_end before_colon components split_slash components_of
other_name_lem = refl

-- ".warpfile. :a", "..", "/c" and "a/c" are refused.
refused :
    (is_safe_filename (internal_directory ++ 0x2E ∷ 0x20 ∷ 0x3A ∷ 0x61 ∷ []) ≡ false)
    × (is_safe_filename (0x2E ∷ 0x2E ∷ []) ≡ false)
    × (is_safe_filename (0x2F ∷ 0x63 ∷ []) ≡ false)
    × (is_safe_filename (0x61 ∷ 0x2F ∷ 0x63 ∷ []) ≡ false)
unfolding is_safe_filename contains conflicts_with_internal_directory eq_ignore_ascii_case bytes_eq
    trim_end before_colon components split_slash components_of
refused = (refl, refl, refl, refl)

is_safe_filename_iff_example : (is_safe_filename plain_name ≡ true) ↔ IsSafe plain_name
is_safe_filename_iff_example = is_safe_filename_iff plain_name

-- "/d"
abbrev directory : List ℕ
directory = 0x2F ∷ 0x64 ∷ []

final_path-outside_example :
    (final_path directory plain_name ≢ internal_path directory)
    × (final_path directory plain_name ≢ partials_directory directory)
    × (final_path directory plain_name ≢ partial_path directory other_name)
final_path-outside_example =
    final_path-outside directory plain_name other_name plain_name_lem other_name_lem

components-paths_example :
    (components (final_path directory plain_name)
      ≡ components directory ++ (normal plain_name ∷ []))
    × (components (partial_path directory plain_name)
        ≡ components directory
          ++ (normal internal_directory
              ∷ normal partials
              ∷ normal (plain_name ++ part_suffix)
              ∷ []))
components-paths_example = components-paths plain_name plain_name_lem directory

paths_distinct_example :
    (components (final_path directory plain_name) ≢ components (final_path directory other_name))
    × (components (partial_path directory plain_name)
        ≢ components (partial_path directory other_name))
    × (components (final_path directory plain_name)
        ≢ components (partial_path directory plain_name))
    × (components (final_path directory plain_name)
        ≢ components (partial_path directory other_name))
    × (components (final_path directory other_name)
        ≢ components (partial_path directory plain_name))
    × (components (final_path directory other_name)
        ≢ components (partial_path directory other_name))
paths_distinct_example =
    paths_distinct directory plain_name other_name plain_name_lem other_name_lem (λ h. cc h)
