-- ===== src/FileName/Paths/Components.antt =====
-- What the paths of the receiver are as `Path` compares them, component by component.
use mathlib.Core.List.{append-nil, append_assoc}
use warpfile.Common.{ℕ, ◌≡◌, ◌≢◌, ◌⊎◌, refl, ap, sym, ◌∙◌, arith, List, [], ◌∷◌, ◌++◌}
use warpfile.Common.{true, false, ◌==◌, ==→eq, inl, inr, Bool-cases}
use warpfile.FileName.{
  slash, dot, Component, root_dir, normal, split_slash, push_component, components_of,
  first_component, components, contains,
}
use warpfile.Bytes.Slice.{bytes_eq}
use warpfile.FileName.Safe.{bytes_eq-cases, split_slash-plain, starts-plain, components-plain}
use warpfile.FileName.Paths.{needs_separator, with_separator, join}

split_slash-cons : (xs : List ℕ) → (p : List ℕ) × (ps : List (List ℕ)) × (split_slash xs ≡ p ∷ ps)
unfolding split_slash
split_slash-cons [] = ([], [], refl)
split_slash-cons (b ∷ bs) =
    let (p, ps, e) = split_slash-cons bs in
    elim (Bool-cases (b == slash)) [
      | inl s ↦ ([], split_slash bs, rw s refl)
      | inr s ↦ (b ∷ p, ps, rw (s, e) refl)
    ]

split_slash-append :
    (xs ys : List ℕ) → split_slash (xs ++ slash ∷ ys) ≡ split_slash xs ++ split_slash ys
unfolding split_slash
split_slash-append [] ys = refl
split_slash-append (b ∷ bs) ys =
    let (p, ps, e) = split_slash-cons bs in
    let h : split_slash (bs ++ slash ∷ ys) ≡ (p ∷ ps) ++ split_slash ys =
      split_slash-append bs ys ∙ ap (λ t. t ++ split_slash ys) e in
    elim (Bool-cases (b == slash)) [ inl s ↦ rw (s, h, e) refl | inr s ↦ rw (s, h, e) refl ]

push_component-append :
    (p : List ℕ) (xs ys : List Component) → push_component p (xs ++ ys) ≡ push_component p xs ++ ys
push_component-append p xs ys = ground arith

components_of-append :
    (ps qs : List (List ℕ)) → components_of (ps ++ qs) ≡ components_of ps ++ components_of qs
unfolding components_of
components_of-append [] qs = refl
components_of-append (p ∷ ps) qs =
    ap (push_component p) (components_of-append ps qs)
    ∙ push_component-append p (components_of ps) (components_of qs)

first_component-append :
    (p : List ℕ) (ps qs : List (List ℕ))
    → first_component (p ∷ (ps ++ qs)) ≡ first_component (p ∷ ps) ++ components_of qs
first_component-append p ps qs = ground (arith, components_of-append ps qs)

-- The components of a path that a slash is put behind.
abbrev base : List ℕ → List Component
base [] = root_dir ∷ []
base (b ∷ bs) = components (b ∷ bs)

components_split :
    (b : ℕ) (bs name p : List ℕ) (ps : List (List ℕ))
    → split_slash (b ∷ bs) ≡ p ∷ ps
    → split_slash (b ∷ (bs ++ slash ∷ name)) ≡ p ∷ (ps ++ split_slash name)
    → components (b ∷ (bs ++ slash ∷ name))
      ≡ components (b ∷ bs) ++ components_of (split_slash name)
unfolding components
components_split b bs name p ps h k = elim (Bool-cases (b == slash)) [
  | inl e ↦
      let absolute = components_of-append (p ∷ ps) (split_slash name) in
      rw (e, h, k) (ap (λ t. root_dir ∷ t) absolute)
  | inr e ↦ rw (e, h, k) (first_component-append p ps (split_slash name))
]

components-slash :
    (path name : List ℕ)
    → components (path ++ slash ∷ name) ≡ base path ++ components_of (split_slash name)
components-slash [] name = unfold components split_slash components_of in refl
components-slash (b ∷ bs) name =
    let (p, ps, e) = split_slash-cons (b ∷ bs) in
    components_split b bs name p ps e
      (split_slash-append (b ∷ bs) name ∙ ap (λ t. t ++ split_slash name) e)

-- A path ends with a slash, or with something else, or is empty.
needs_separator-cases :
    (path : List ℕ)
    → ((needs_separator path ≡ true) × (base path ≡ components path))
      ⊎ (path ≡ [])
      ⊎ ((needs_separator path ≡ false) × (front : List ℕ) × (path ≡ front ++ slash ∷ []))
unfolding needs_separator
needs_separator-cases [] = inr (inl refl)
needs_separator-cases (b ∷ []) = elim (Bool-cases (b == slash)) [
  | inl e ↦ inr (inr (rw e refl, [], ap (λ k. k ∷ []) (==→eq b slash e)))
  | inr e ↦ inl (rw e refl, refl)
]
needs_separator-cases (b ∷ c ∷ cs) = elim (needs_separator-cases (c ∷ cs)) [
  | inl (e, _) ↦ inl (e, refl)
  | inr (inl e) ↦ cc e
  | inr (inr (e, front, h)) ↦ inr (inr (e, b ∷ front, ap (λ t. b ∷ t) h))
]

-- A name that is one normal component.
pub record IsPlain (name : List ℕ) : Type 0 where
  pub not_empty : name ≢ []
  pub no_slash : contains slash name ≡ false
  pub not_dot : name ≢ dot ∷ []
  pub not_dots : name ≢ dot ∷ dot ∷ []

components_of-plain :
    (name : List ℕ) → IsPlain name → components_of (split_slash name) ≡ normal name ∷ []
unfolding components_of
components_of-plain [] v = absurd (v.not_empty refl)
components_of-plain (b ∷ bs) v = elim (bytes_eq-cases (b ∷ bs) (dot ∷ [])) [
  | inl (_, k) ↦ absurd (v.not_dot k)
  | inr (e, _) ↦ elim (bytes_eq-cases (b ∷ bs) (dot ∷ dot ∷ [])) [
    | inl (_, k) ↦ absurd (v.not_dots k)
    | inr (e', _) ↦ rw (split_slash-plain (b ∷ bs) (v.no_slash), e, e') refl
  ]
]

components-plain_name : (name : List ℕ) → IsPlain name → components name ≡ normal name ∷ []
unfolding components_of
components-plain_name [] v = absurd (v.not_empty refl)
components-plain_name (b ∷ bs) v = elim (bytes_eq-cases (b ∷ bs) (dot ∷ [])) [
  | inl (_, k) ↦ absurd (v.not_dot k)
  | inr (e, _) ↦ elim (bytes_eq-cases (b ∷ bs) (dot ∷ dot ∷ [])) [
    | inl (_, k) ↦ absurd (v.not_dots k)
    | inr (e', _) ↦ rw (components-plain (b ∷ bs) (v.no_slash), e, e') refl
  ]
]

components-empty : components [] ≡ []
unfolding components split_slash components_of bytes_eq
components-empty = refl

-- A slash at the end adds no component.
components-front :
    (front name : List ℕ)
    → components_of (split_slash name) ≡ normal name ∷ []
    → components (front ++ slash ∷ name) ≡ components (front ++ slash ∷ []) ++ (normal name ∷ [])
components-front front name plain =
    let none : components_of (split_slash []) ≡ [] = unfold split_slash components_of in refl in
    rw (components-slash front name, components-slash front [], plain, none)
      (ap (λ t. t ++ (normal name ∷ [])) (sym (append-nil (base front))))

-- Joining a plain name puts it behind the components of the path.
pub components-join :
    (path name : List ℕ)
    → IsPlain name
    → components (join path name) ≡ components path ++ (normal name ∷ [])
unfolding join with_separator needs_separator
components-join path name v =
    let plain = components_of-plain name v in
    let s = starts-plain name (v.no_slash) in
    elim (needs_separator-cases path) [
      | inl (n, b) ↦
          rw (s, n)
            (ap components (append_assoc path (slash ∷ []) name)
              ∙ components-slash path name
              ∙ rw (b, plain) refl)
      | inr (inl e) ↦ rw (s, e, components-empty) (components-plain_name name v)
      | inr (inr (n, front, e)) ↦
          rw (s, n)
            (rw e (
              ap components (append_assoc front (slash ∷ []) name)
              ∙ components-front front name plain))
    ]
