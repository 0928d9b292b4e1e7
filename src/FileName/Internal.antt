-- ===== src/FileName/Internal.antt =====
-- The spellings of the name of the internal directory that `conflicts_with_internal_directory`
-- finds.
use warpfile.Common.{ℕ, ◌≡◌, ◌⊎◌, ◌↔◌, inl, inr, refl, ap, sym, ◌∙◌, arith, List, [], ◌∷◌, ◌++◌}
use warpfile.Common.{true, false, ◌||◌, ◌==◌, map, All, Bool-cases, ==→eq}
use warpfile.Bytes.Slice.{bytes_eq→eq, bytes_eq_refl}
use warpfile.FileName.{
  colon, dot, space, internal_directory, contains, before_colon, keep_byte, trim_end,
  ascii_lowercase, eq_ignore_ascii_case, conflicts_with_internal_directory,
}

abbrev pub IsTrimmed : ℕ → Type 0
IsTrimmed b = (b ≡ space) ⊎ (b ≡ dot)

abbrev pub IsStream : List ℕ → Type 0
IsStream xs = (xs ≡ []) ⊎ ((name : List ℕ) × (xs ≡ colon ∷ name))

-- On Windows such a name means the internal directory: its name in any case, then spaces and dots,
-- then perhaps a colon and the name of a stream.
pub record IsInternal (name : List ℕ) : Type 0 where
  pub base : List ℕ
  pub ending : List ℕ
  pub stream : List ℕ
  pub parts : name ≡ (base ++ ending) ++ stream
  pub base_name : map ascii_lowercase base ≡ internal_directory
  pub ending_trimmed : All IsTrimmed ending
  pub stream_IsStream : IsStream stream

before_colon-append :
    (xs stream : List ℕ)
    → contains colon xs ≡ false
    → IsStream stream
    → before_colon (xs ++ stream) ≡ xs
unfolding before_colon contains
before_colon-append [] stream h (inl e) = rw e refl
before_colon-append [] stream h (inr (n, e)) = rw e refl
before_colon-append (x ∷ xs) stream h s = let r = before_colon-append xs stream in ground arith

before_colon-split :
    (xs : List ℕ) → (stream : List ℕ) × (xs ≡ before_colon xs ++ stream) × IsStream stream
unfolding before_colon
before_colon-split [] = ([], refl, inl refl)
before_colon-split (x ∷ xs) =
    let (stream, e, s) = before_colon-split xs in
    elim (Bool-cases (x == colon)) [
      | inl h ↦ (x ∷ xs, rw h refl, inr (xs, ap (λ c. c ∷ xs) (==→eq _ _ h)))
      | inr h ↦ (stream, rw h (ap (λ t. x ∷ t) e), s)
    ]

trim_end-IsTrimmed : (ending : List ℕ) → All IsTrimmed ending → trim_end ending ≡ []
unfolding trim_end
trim_end-IsTrimmed [] h = refl
trim_end-IsTrimmed (b ∷ bs) (inl e, h) = rw (trim_end-IsTrimmed bs h, e) refl
trim_end-IsTrimmed (b ∷ bs) (inr e, h) = rw (trim_end-IsTrimmed bs h, e) refl

trim_end-append :
    (xs ending : List ℕ) → All IsTrimmed ending → trim_end (xs ++ ending) ≡ trim_end xs
unfolding trim_end
trim_end-append [] ending h = trim_end-IsTrimmed ending h
trim_end-append (x ∷ xs) ending h = ap (keep_byte x) (trim_end-append xs ending h)

keep_byte-split :
    (x : ℕ) (kept ending : List ℕ)
    → All IsTrimmed ending
    → (ending' : List ℕ) × (x ∷ (kept ++ ending) ≡ keep_byte x kept ++ ending')
      × All IsTrimmed ending'
keep_byte-split x [] ending h = elim (Bool-cases (x == space || x == dot)) [
  | inl e ↦ (x ∷ ending, rw e refl, (ground arith, h))
  | inr e ↦ (ending, rw e refl, h)
]
keep_byte-split x (c ∷ cs) ending h = (ending, refl, h)

trim_end-split :
    (xs : List ℕ) → (ending : List ℕ) × (xs ≡ trim_end xs ++ ending) × All IsTrimmed ending
unfolding trim_end
trim_end-split [] = ([], refl, tt)
trim_end-split (x ∷ xs) =
    let (ending, e, h) = trim_end-split xs in
    let (ending', e', h') = keep_byte-split x (trim_end xs) ending h in
    (ending', ap (λ t. x ∷ t) e ∙ e', h')

-- Lower case changes neither spaces nor dots.
keep_byte-lowercase :
    (x : ℕ) (kept : List ℕ)
    → keep_byte (ascii_lowercase x) (map ascii_lowercase kept)
      ≡ map ascii_lowercase (keep_byte x kept)
keep_byte-lowercase x [] = ground arith
keep_byte-lowercase x (c ∷ cs) = refl

trim_end-lowercase :
    (xs : List ℕ) → trim_end (map ascii_lowercase xs) ≡ map ascii_lowercase (trim_end xs)
unfolding trim_end
trim_end-lowercase [] = refl
trim_end-lowercase (x ∷ xs) =
    ap (keep_byte (ascii_lowercase x)) (trim_end-lowercase xs) ∙ keep_byte-lowercase x (trim_end xs)

contains-lowercase :
    (xs : List ℕ) → contains colon (map ascii_lowercase xs) ≡ false → contains colon xs ≡ false
unfolding contains
contains-lowercase [] h = refl
contains-lowercase (x ∷ xs) h = let r = contains-lowercase xs in ground arith

contains-IsTrimmed : (ending : List ℕ) → All IsTrimmed ending → contains colon ending ≡ false
unfolding contains
contains-IsTrimmed [] h = refl
contains-IsTrimmed (b ∷ bs) (inl e, h) = rw (contains-IsTrimmed bs h, e) refl
contains-IsTrimmed (b ∷ bs) (inr e, h) = rw (contains-IsTrimmed bs h, e) refl

contains-append :
    (c : ℕ) (xs ys : List ℕ)
    → contains c xs ≡ false
    → contains c ys ≡ false
    → contains c (xs ++ ys) ≡ false
unfolding contains
contains-append c [] ys h k = k
contains-append c (x ∷ xs) ys h k = let r = contains-append c xs ys in ground arith

trimmed_name : trim_end internal_directory ≡ internal_directory
unfolding trim_end
trimmed_name = refl

name_without_colon : contains colon internal_directory ≡ false
unfolding contains
name_without_colon = refl

before_colon-name :
    (base ending stream : List ℕ)
    → map ascii_lowercase base ≡ internal_directory
    → All IsTrimmed ending
    → IsStream stream
    → map ascii_lowercase (trim_end (before_colon ((base ++ ending) ++ stream)))
      ≡ internal_directory
before_colon-name base ending stream b e s =
    let plain : contains colon (map ascii_lowercase base) ≡ false = rw b name_without_colon in
    let no_colon =
      contains-append colon base ending (contains-lowercase base plain)
        (contains-IsTrimmed ending e) in
    ap (λ t. map ascii_lowercase (trim_end t))
      (before_colon-append (base ++ ending) stream no_colon s)
    ∙ ap (map ascii_lowercase) (trim_end-append base ending e)
    ∙ sym (trim_end-lowercase base)
    ∙ ap trim_end b
    ∙ trimmed_name

-- A name conflicts with the internal directory exactly when it is another spelling of its name.
pub conflicts_iff :
    (name : List ℕ) → (conflicts_with_internal_directory name ≡ true) ↔ IsInternal name
unfolding conflicts_with_internal_directory eq_ignore_ascii_case
conflicts_iff name = (
  λ h.
      let e = bytes_eq→eq _ _ h in
      let (stream, p, s) = before_colon-split name in
      let (ending, q, t) = trim_end-split (before_colon name) in
      record {
        base = trim_end (before_colon name);
        ending = ending;
        stream = stream;
        parts = p ∙ ap (λ t. t ++ stream) q;
        base_name = e;
        ending_trimmed = t;
        stream_IsStream = s;
      },
  λ i.
      let e : map ascii_lowercase (trim_end (before_colon name)) ≡ internal_directory =
        ap (λ t. map ascii_lowercase (trim_end (before_colon t))) (i.parts)
        ∙ before_colon-name i.base i.ending i.stream (i.base_name) (i.ending_trimmed)
            (i.stream_IsStream) in
      rw e (bytes_eq_refl internal_directory),
)
