-- ===== src/Base/Results.antt =====
-- Rust's `Result`, with `?` as bind.
use mathlib.Core.Option.{Option, none, some}
use mathlib.Core.Path.{◌≡◌, refl}
use mathlib.Core.Logic.{◌⊎◌, inl, inr}
use native.Mathlib.Omega.{arith}

pub data Result {ℓ} (E : Type 0) (A : Type ℓ) : Type ℓ where
  ok : A → Result E A
  err : E → Result E A

infixl 5 ◌>>=◌ ◌>>◌
abbrev pub ◌>>=◌ {ℓ κ} :
    {E : Type 0} {A : Type ℓ} {B : Type κ} → Result E A → (A → Result E B) → Result E B
ok a >>= f = f a
err e >>= f = err e

abbrev pub ◌>>◌ {ℓ} : {E : Type 0} {B : Type ℓ} → Result E (Unit {0}) → Result E B → Result E B
m >> k = m >>= λ _. k

abbrev pub ok_or {ℓ} : {E : Type 0} {A : Type ℓ} → Option A → E → Result E A
ok_or none e = err e
ok_or (some a) e = ok a

abbrev pub map_err {ℓ} : {E F : Type 0} {A : Type ℓ} → (E → F) → Result E A → Result F A
map_err f (ok a) = ok a
map_err f (err e) = err (f e)

abbrev pub IsErr {ℓ} : {E : Type 0} {A : Type ℓ} → Result E A → Type 0
IsErr (ok a) = ⊥
IsErr (err e) = Unit {0}

pub bind_assoc {ℓ κ μ} :
    {E : Type 0} {A : Type ℓ} {B : Type κ} {C : Type μ} (r : Result E A) (f : A → Result E B)
    (k : B → Result E C)
    → ((r >>= f) >>= k) ≡ (r >>= λ a. f a >>= k)
bind_assoc (ok a) f k = refl
bind_assoc (err e) f k = refl

pub bind-IsErr {ℓ κ} :
    {E : Type 0} {A : Type ℓ} {B : Type κ} (r : Result E A) (f : A → Result E B)
    → ((a : A) → IsErr (f a))
    → IsErr (r >>= f)
bind-IsErr (ok a) f h = h a
bind-IsErr (err e) f h = tt

-- To split on a computed result and keep the equation.
pub Result-cases {ℓ} :
    {E : Type 0} {A : Type ℓ} (r : Result E A) → ((a : A) × (r ≡ ok a)) ⊎ ((e : E) × (r ≡ err e))
Result-cases (ok a) = inl (a, refl)
Result-cases (err e) = inr (e, refl)

pub Result-cases_option {ℓ} :
    {E : Type 0} {A : Type ℓ} (r : Result E (Option A))
    → ((a : A) × (r ≡ ok (some a))) ⊎ (r ≡ ok none) ⊎ ((e : E) × (r ≡ err e))
Result-cases_option (ok (some a)) = inl (a, refl)
Result-cases_option (ok none) = inr (inl refl)
Result-cases_option (err e) = inr (inr (e, refl))

pub map_err-ok :
    {E F A : Type 0} (f : E → F) (a : A) (r : Result E A) → map_err f r ≡ ok a → r ≡ ok a
map_err-ok f a (ok b) e = ground arith
map_err-ok f a (err x) e = absurd (cc)
