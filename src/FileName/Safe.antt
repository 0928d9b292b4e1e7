-- ===== src/FileName/Safe.antt =====
-- What a safe file name is: one component of a path, and no other spelling of the internal
-- directory.
use warpfile.Common.{ℕ, ◌≡◌, ◌≢◌, ◌⊎◌, ◌↔◌, inl, inr, refl, arith, List, [], ◌∷◌}
use warpfile.Common.{true, false, Bool-cases}
use warpfile.Bytes.Slice.{bytes_eq, bytes_eq→eq, bytes_eq_refl}
use warpfile.FileName.{
  slash, backslash, dot, contains, conflicts_with_internal_directory, split_slash, components_of,
  first_component, starts_with_slash, components, is_one_normal, is_safe_filename,
}
use warpfile.FileName.Internal.{IsInternal, conflicts_iff}

pub split_slash-plain : (name : List ℕ) → contains slash name ≡ false → split_slash name ≡ name ∷ []
unfolding split_slash contains
split_slash-plain [] h = refl
split_slash-plain (b ∷ bs) h = let r = split_slash-plain bs in ground arith

pub starts-plain : (name : List ℕ) → contains slash name ≡ false → starts_with_slash name ≡ false
unfolding contains
starts-plain [] h = refl
starts-plain (b ∷ bs) h = ground arith

pub components-plain :
    (name : List ℕ) → contains slash name ≡ false → components name ≡ first_component (name ∷ [])
unfolding components
components-plain name h = rw (starts-plain name h, split_slash-plain name h) refl

-- What a name that is taken from an offer must be: not empty, without a separator of either system,
-- neither "." nor "..", and no spelling of the internal directory.
pub record IsSafe (name : List ℕ) : Type 0 where
  pub not_empty : name ≢ []
  pub no_slash : contains slash name ≡ false
  pub no_backslash : contains backslash name ≡ false
  pub not_dot : name ≢ dot ∷ []
  pub not_dots : name ≢ dot ∷ dot ∷ []
  pub not_internal : ¬ IsInternal name

pub bytes_eq-cases :
    (xs ys : List ℕ)
    → ((bytes_eq xs ys ≡ true) × (xs ≡ ys)) ⊎ ((bytes_eq xs ys ≡ false) × (xs ≢ ys))
bytes_eq-cases xs ys = elim (Bool-cases (bytes_eq xs ys)) [
  | inl e ↦ inl (e, bytes_eq→eq xs ys e)
  | inr e ↦ inr (e, λ h. let k : bytes_eq xs ys ≡ true = rw h (bytes_eq_refl ys) in cc (e, k))
]

-- A name without a slash is one component, which is a normal one unless it is "." or "..".
one_normal :
    (b : ℕ) (bs : List ℕ)
    → contains slash (b ∷ bs) ≡ false
    → (is_one_normal (components (b ∷ bs)) ≡ true)
      ↔ ((b ∷ bs ≢ dot ∷ []) × (b ∷ bs ≢ dot ∷ dot ∷ []))
unfolding components_of
one_normal b bs h =
    let c = components-plain (b ∷ bs) h in
    elim (bytes_eq-cases (b ∷ bs) (dot ∷ [])) [
      | inl (e, k) ↦ ((λ x. let y = rw (c, e) at x in cc y), λ (n, _). absurd (n k))
      | inr (e, k) ↦ elim (bytes_eq-cases (b ∷ bs) (dot ∷ dot ∷ [])) [
        | inl (e', k') ↦ ((λ x. let y = rw (c, e, e') at x in cc y), λ (_, n). absurd (n k'))
        | inr (e', k') ↦ ((λ x. (k, k')), λ n. rw (c, e, e') refl)
      ]
    ]

-- `is_safe_filename` accepts a name exactly when it is not empty, has neither a slash nor a
-- backslash, is neither "." nor "..", and is not the name ".warpfile" in any case, followed by
-- spaces and dots and perhaps a colon with more text.
pub is_safe_filename_iff : (name : List ℕ) → (is_safe_filename name ≡ true) ↔ IsSafe name
unfolding is_safe_filename
is_safe_filename_iff [] = ((λ h. cc h), λ s. absurd (s.not_empty refl))
is_safe_filename_iff (b ∷ bs) =
    let (to, from) = conflicts_iff (b ∷ bs) in
    elim (Bool-cases (contains slash (b ∷ bs))) [
      | inl e ↦ ((λ h. let y = rw e at h in cc y), λ s. let n = s.no_slash in cc (e, n))
      | inr e ↦ elim (Bool-cases (contains backslash (b ∷ bs))) [
        | inl e' ↦
            ((λ h. let y = rw (e, e') at h in cc y), λ s. let n = s.no_backslash in cc (e', n))
        | inr e' ↦ elim (Bool-cases (conflicts_with_internal_directory (b ∷ bs))) [
          | inl k ↦ ((λ h. let y = rw (e, e', k) at h in cc y), λ s. absurd (s.not_internal (to k)))
          | inr k ↦ (
            λ h.
                let (d, dd) = (one_normal b bs e).0 (rw (e, e', k) at h) in
                record {
                  not_empty = λ z. cc z;
                  no_slash = e;
                  no_backslash = e';
                  not_dot = d;
                  not_dots = dd;
                  not_internal = λ i. let z = from i in cc (z, k);
                },
            λ s. rw (e, e', k) ((one_normal b bs e).1 (s.not_dot, s.not_dots)),
          )
        ]
      ]
    ]
