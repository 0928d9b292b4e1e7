-- ===== src/Common/Results.antt =====
-- Rust's `Result`, with one more outcome: `panic` stands for an index or a slice out of bounds and
-- for a failed `expect`, which end the program's task.
use mathlib.Core.Logic.{◌⊎◌, inl, inr, ◌≢◌}
use mathlib.Core.Path.{◌≡◌, refl}
use mathlib.Core.Bool.{Bool, true, false}
use mathlib.Core.Option.{Option, none, some}

pub data Result {ℓ κ} (A : Type ℓ) (E : Type κ) : Type (ℓ ⊔ κ) where
  ok : A → Result A E
  err : E → Result A E
  panic : Result A E

module _ {κ μ} {B : Type κ} {E : Type μ} where
  infixl 5 ◌>>=◌ ◌>>◌
  -- The operator `?`.
  abbrev pub ◌>>=◌ {ℓ} : {A : Type ℓ} → Result A E → (A → Result B E) → Result B E
  panic >>= next = panic
  err e >>= next = err e
  ok a >>= next = next a

  abbrev pub ◌>>◌ : Result (Unit {0}) E → Result B E → Result B E
  first >> second = first >>= λ _. second

-- `if !test { return Err(e) }`
abbrev pub require {μ} : {E : Type μ} → Bool → E → Result (Unit {0}) E
require true e = ok tt
require false e = err e

-- `ok_or`
abbrev pub ok_or {ℓ μ} : {A : Type ℓ} {E : Type μ} → Option A → E → Result A E
ok_or none e = err e
ok_or (some a) e = ok a

-- `map_err`
abbrev pub map_err {ℓ κ μ} :
    {A : Type ℓ} {E : Type κ} {F : Type μ} → (E → F) → Result A E → Result A F
map_err f (ok a) = ok a
map_err f (err e) = err (f e)
map_err f panic = panic

-- What a chain that ends in `ok` has passed through.
module _ {ℓ κ μ} {A : Type ℓ} {B : Type κ} {E : Type μ} where
  pub >>=-eq-ok :
      (r : Result A E) (next : A → Result B E) {b : B}
      → r >>= next ≡ ok b
      → (a : A) × (r ≡ ok a) × (next a ≡ ok b)
  >>=-eq-ok panic next stuck = cc
  >>=-eq-ok (err e) next stuck = cc
  >>=-eq-ok (ok a) next chain = (a, refl, chain)

-- The three outcomes, with the equation that names each.
pub Result-cases {ℓ κ} :
    {A : Type ℓ} {E : Type κ} (r : Result A E)
    → (((a : A) × (r ≡ ok a)) ⊎ ((e : E) × (r ≡ err e))) ⊎ (r ≡ panic)
Result-cases (ok a) = inl (inl (a, refl))
Result-cases (err e) = inl (inr (e, refl))
Result-cases panic = inr refl

pub ok_injective {ℓ κ} :
    {A : Type ℓ} {E : Type κ} {a b : A} → ◌≡◌ {A = Result A E} (ok a) (ok b) → a ≡ b
ok_injective h = cc h

pub map_err-eq-ok {ℓ κ μ} :
    {A : Type ℓ} {E : Type κ} {F : Type μ} (f : E → F) (r : Result A E) {a : A}
    → map_err f r ≡ ok a
    → r ≡ ok a
map_err-eq-ok f (ok b) h = cc
map_err-eq-ok f (err e) h = cc
map_err-eq-ok f panic h = cc

pub Option-cases {ℓ} : {A : Type ℓ} (o : Option A) → (o ≡ none) ⊎ ((a : A) × (o ≡ some a))
Option-cases none = inl refl
Option-cases (some a) = inr (a, refl)

-- A chain panics only where one of its steps does.
module _ {ℓ κ μ} {A : Type ℓ} {B : Type κ} {E : Type μ} where
  pub >>=-ne-panic :
      (r : Result A E) (next : A → Result B E)
      → r ≢ panic
      → ((a : A) → next a ≢ panic)
      → r >>= next ≢ panic
  >>=-ne-panic panic next h k = λ x. h refl
  >>=-ne-panic (err e) next h k = λ x. cc x
  >>=-ne-panic (ok a) next h k = k a

  pub map_err-ne-panic : (f : E → B) (r : Result A E) → r ≢ panic → map_err f r ≢ panic
  map_err-ne-panic f (ok a) h = λ x. cc x
  map_err-ne-panic f (err e) h = λ x. cc x
  map_err-ne-panic f panic h = λ x. h refl
