-- ===== src/FileName/Paths/Apart.antt =====
-- The files of safe names stay apart from each other and from the internal directory.
use mathlib.Core.List.{append_assoc}
use warpfile.Common.{ℕ, ◌≡◌, ◌≢◌, refl, ap, sym, ◌∙◌, arith, List, [], ◌∷◌, ◌++◌, true, false}
use warpfile.Common.{append_cancel_left, inl}
use warpfile.FileName.{slash, internal_directory, contains, starts_with_slash, is_safe_filename}
use warpfile.FileName.Internal.{IsInternal}
use warpfile.FileName.Safe.{is_safe_filename_iff, starts-plain}
use warpfile.FileName.Paths.{
  needs_separator, with_separator, join, internal_path, partials, part_suffix, partials_directory,
  partial_path, final_path,
}

needs_separator-append :
    (xs : List ℕ) (c : ℕ) (cs : List ℕ) → needs_separator (xs ++ c ∷ cs) ≡ needs_separator (c ∷ cs)
unfolding needs_separator
needs_separator-append [] c cs = refl
needs_separator-append (x ∷ []) c cs = refl
needs_separator-append (x ∷ y ∷ xs) c cs = needs_separator-append (y ∷ xs) c cs

-- A name behind a path that does not end with a slash.
join-append :
    (xs : List ℕ) (c : ℕ) (cs name : List ℕ)
    → needs_separator (c ∷ cs) ≡ true
    → starts_with_slash name ≡ false
    → join (xs ++ c ∷ cs) name ≡ xs ++ (c ∷ cs ++ slash ∷ name)
unfolding join with_separator
join-append xs c cs name n s =
    let e : needs_separator (xs ++ c ∷ cs) ≡ true = needs_separator-append xs c cs ∙ n in
    rw (s, e)
      (append_assoc (xs ++ c ∷ cs) (slash ∷ []) name ∙ append_assoc xs (c ∷ cs) (slash ∷ name))

module _ (directory : List ℕ) where
  -- The destination directory with a slash behind it.
  abbrev front : List ℕ
  front = with_separator directory

  abbrev partials_tail : List ℕ
  partials_tail = internal_directory ++ slash ∷ partials

  internal_path_lem : internal_path directory ≡ front ++ internal_directory
  unfolding internal_path join
  internal_path_lem = refl

  partials_directory_lem : partials_directory directory ≡ front ++ partials_tail
  unfolding partials_directory needs_separator
  partials_directory_lem =
      ap (λ p. join p partials) internal_path_lem ∙ join-append front 0x2E _ partials refl refl

  partial_path_lem :
      (name : List ℕ)
      → starts_with_slash (name ++ part_suffix) ≡ false
      → partial_path directory name ≡ front ++ (partials_tail ++ slash ∷ (name ++ part_suffix))
  unfolding partial_path needs_separator
  partial_path_lem name h =
      ap (λ p. join p (name ++ part_suffix)) partials_directory_lem
      ∙ join-append front 0x2E _ (name ++ part_suffix) refl h

  final_path_lem :
      (name : List ℕ) → starts_with_slash name ≡ false → final_path directory name ≡ front ++ name
  unfolding final_path join
  final_path_lem name h = rw h refl

  starts_with_slash-suffix :
      (name : List ℕ)
      → contains slash name ≡ false
      → starts_with_slash (name ++ part_suffix) ≡ false
  unfolding contains
  starts_with_slash-suffix [] h = refl
  starts_with_slash-suffix (b ∷ bs) h = ground arith

  -- The name of the internal directory is not safe.
  name-IsInternal : IsInternal internal_directory
  name-IsInternal = record {
    base = internal_directory;
    ending = [];
    stream = [];
    parts = refl;
    base_name = refl;
    ending_trimmed = tt;
    stream_IsStream = inl refl;
  }

  slash_inside : (rest : List ℕ) → contains slash (internal_directory ++ slash ∷ rest) ≡ true
  unfolding contains
  slash_inside rest = refl

  module _ (name other : List ℕ) (safe : is_safe_filename name ≡ true)
      (other_safe : is_safe_filename other ≡ true) where
    -- For two names that `is_safe_filename` accepts, in any destination directory: the final file of
    -- the first is neither the internal directory, nor the directory of the partial files, nor the
    -- partial file of the second.
    pub final_path-outside :
        (final_path directory name ≢ internal_path directory)
        × (final_path directory name ≢ partials_directory directory)
        × (final_path directory name ≢ partial_path directory other)
    final_path-outside =
        let s = (is_safe_filename_iff name).0 safe in
        let s' = (is_safe_filename_iff other).0 other_safe in
        let no = s.no_slash in
        let f = final_path_lem name (starts-plain name no) in
        let p = partial_path_lem other (starts_with_slash-suffix other (s'.no_slash)) in
        let apart : (rest : List ℕ) → name ≢ internal_directory ++ slash ∷ rest =
          λ rest h. let y = rw h at no in let z = slash_inside rest in cc (y, z) in
        (
          λ h.
              let e = append_cancel_left front (sym f ∙ h ∙ internal_path_lem) in
              s.not_internal (rw e name-IsInternal),
          λ h. apart _ (append_cancel_left front (sym f ∙ h ∙ partials_directory_lem)),
          λ h. apart _ (append_cancel_left front (sym f ∙ h ∙ p)),
        )
