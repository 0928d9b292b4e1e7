-- ===== src/FileName/Paths/Distinct.antt =====
-- Where the files of a safe name lie below the destination directory, by the components of their
-- paths.
use mathlib.Core.List.{append_assoc}
use warpfile.Common.{ℕ, ◌≡◌, ◌≢◌, refl, ap, sym, ◌∙◌, arith, List, [], ◌∷◌, ◌++◌, true, false}
use warpfile.Common.{append_cancel_left, length, length-append, take, take-append}
use warpfile.FileName.{slash, internal_directory, contains, normal, components, is_safe_filename}
use warpfile.FileName.Safe.{is_safe_filename_iff}
use warpfile.FileName.Paths.{
  internal_path, partials, part_suffix, partials_directory, partial_path, final_path,
}
use warpfile.FileName.Paths.Components.{IsPlain, components-join}

contains-append :
    (c : ℕ) (xs ys : List ℕ)
    → contains c xs ≡ false
    → contains c ys ≡ false
    → contains c (xs ++ ys) ≡ false
unfolding contains
contains-append c [] ys h k = k
contains-append c (x ∷ xs) ys h k = ground (arith, contains-append c xs ys)

internal-IsPlain : IsPlain internal_directory
unfolding contains
internal-IsPlain = record {
  not_empty = λ h. cc h;
  no_slash = refl;
  not_dot = λ h. cc h;
  not_dots = λ h. cc h;
}

partials-IsPlain : IsPlain partials
unfolding contains
partials-IsPlain = record {
  not_empty = λ h. cc h;
  no_slash = refl;
  not_dot = λ h. cc h;
  not_dots = λ h. cc h;
}

module _ (name : List ℕ) (safe : is_safe_filename name ≡ true) where
  name-IsPlain : IsPlain name
  name-IsPlain =
      let s = (is_safe_filename_iff name).0 safe in
      record {
        not_empty = s.not_empty;
        no_slash = s.no_slash;
        not_dot = s.not_dot;
        not_dots = s.not_dots;
      }

  part-IsPlain : IsPlain (name ++ part_suffix)
  part-IsPlain =
      let n = length-append name part_suffix in
      record {
        not_empty = λ h. omega (arith, n, ap length h);
        no_slash =
            contains-append slash name part_suffix (name-IsPlain.no_slash)
              (unfold contains in refl);
        not_dot = λ h. omega (arith, n, ap length h);
        not_dots = λ h. omega (arith, n, ap length h);
      }

  -- For a name that `is_safe_filename` accepts and any destination directory, component by
  -- component as `Path` reads them: the final file is the name directly below the destination
  -- directory, and the partial file is the name with ".part" behind it, below "partials", below
  -- ".warpfile", below the destination directory.
  pub components-paths :
      (directory : List ℕ)
      → (components (final_path directory name) ≡ components directory ++ (normal name ∷ []))
        × (components (partial_path directory name)
            ≡ components directory
              ++ (normal internal_directory ∷ normal partials ∷ normal (name ++ part_suffix) ∷ []))
  unfolding final_path partial_path partials_directory internal_path
  components-paths directory = (
    components-join directory name name-IsPlain,
    components-join (partials_directory directory) (name ++ part_suffix) part-IsPlain
        ∙ rw
            (
              components-join (internal_path directory) partials partials-IsPlain,
              components-join directory internal_directory internal-IsPlain,
              append_assoc (components directory),
              append_assoc (components directory),
            )
            refl,
  )

append_cancel_right : (xs ys zs : List ℕ) → xs ++ zs ≡ ys ++ zs → xs ≡ ys
append_cancel_right xs ys zs h =
    let n : length xs ≡ length ys =
      omega (arith, ap length h, length-append xs zs, length-append ys zs) in
    sym (take-append xs zs)
    ∙ ap (take (length xs)) h
    ∙ ap (λ k. take k (ys ++ zs)) n
    ∙ take-append ys zs

-- The final file of a name and the partial file of a name, the same or another.
final-ne-partial :
    (directory name other : List ℕ)
    → is_safe_filename name ≡ true
    → is_safe_filename other ≡ true
    → components (final_path directory name) ≢ components (partial_path directory other)
final-ne-partial directory name other safe other_safe h =
    let f = (components-paths name safe directory).0 in
    let p = (components-paths other other_safe directory).1 in
    let e = append_cancel_left (components directory) (sym f ∙ h ∙ p) in cc e

-- For two different names that `is_safe_filename` accepts, in any destination directory, no two of
-- their four files are the same path: the two final files, the two partial files, and the final
-- file of either and the partial file of either differ in their components, which is how `Path`
-- compares.
pub paths_distinct :
    (directory name other : List ℕ)
    → is_safe_filename name ≡ true
    → is_safe_filename other ≡ true
    → name ≢ other
    → (components (final_path directory name) ≢ components (final_path directory other))
      × (components (partial_path directory name) ≢ components (partial_path directory other))
      × (components (final_path directory name) ≢ components (partial_path directory name))
      × (components (final_path directory name) ≢ components (partial_path directory other))
      × (components (final_path directory other) ≢ components (partial_path directory name))
      × (components (final_path directory other) ≢ components (partial_path directory other))
paths_distinct directory name other safe other_safe different =
    let (f, p) = components-paths name safe directory in
    let (f', p') = components-paths other other_safe directory in
    let cs = components directory in
    (
      λ h. let e = append_cancel_left cs (sym f ∙ h ∙ f') in different (cc e),
      λ h.
          let e = append_cancel_left cs (sym p ∙ h ∙ p') in
          let k : name ++ part_suffix ≡ other ++ part_suffix = cc e in
          different (append_cancel_right name other part_suffix k),
      final-ne-partial directory name name safe safe,
      final-ne-partial directory name other safe other_safe,
      final-ne-partial directory other name other_safe safe,
      final-ne-partial directory other other other_safe other_safe,
    )
