-- ===== src/Base/Outcome.antt =====
-- Rust's `Result`, with `?` as the bind of a `do` block.
use mathlib.Core.Path.{◌≡◌, refl}
use mathlib.Core.Logic.{◌⊎◌, inl, inr}
use mathlib.Core.Bool.{Bool, true, false}
use mathlib.Core.Option.{Option, none, some}

pub data Result {ℓ κ} (E : Type ℓ) (A : Type κ) : Type (ℓ ⊔ κ) where
  ok : A → Result E A
  err : E → Result E A

infixl 5 ◌>>=◌
abbrev pub ◌>>=◌ {ε α β} :
    {E : Type ε} {A : Type α} {B : Type β} (first : Result E A) (rest : A → Result E B) → Result E B
err x >>= rest = err x
ok a >>= rest = rest a

-- a check, and what follows it
infixl 5 ◌>>◌
abbrev pub ◌>>◌ {ε β} :
    {E : Type ε} {B : Type β} (check : Result E (Unit {0})) (rest : Result E B) → Result E B
err x >> rest = err x
ok done >> rest = rest

-- `if c { return Err(e) }`
abbrev pub fail_if {ℓ} : {E : Type ℓ} → Bool → E → Result E (Unit {0})
fail_if true e = err e
fail_if false e = ok tt

-- `Option::ok_or`
abbrev pub ok_or {ℓ κ} : {E : Type ℓ} {A : Type κ} → Option A → E → Result E A
ok_or none e = err e
ok_or (some a) e = ok a

abbrev pub map_err {ℓ κ μ} :
    {E : Type ℓ} {F : Type κ} {A : Type μ} → Result E A → (E → F) → Result F A
map_err (ok a) f = ok a
map_err (err e) f = err (f e)

abbrev pub is_ok {ℓ κ} : {E : Type ℓ} {A : Type κ} → Result E A → Bool
is_ok (ok a) = true
is_ok (err e) = false

pub >>=-eq-ok {ε α β} :
    {E : Type ε} {A : Type α} {B : Type β} {b : B} (first : Result E A) (rest : A → Result E B)
    (succeeds : (first >>= rest) ≡ ok b)
    → (a : A) × (first ≡ ok a) × (rest a ≡ ok b)
>>=-eq-ok (err x) rest succeeds = cc
>>=-eq-ok (ok a) rest succeeds = (a, refl, succeeds)

-- A step that only checks has succeeded before what follows it.
pub >>-eq-ok {ε β} :
    {E : Type ε} {B : Type β} {b : B} (check : Result E (Unit {0})) (rest : Result E B)
    (succeeds : (check >> rest) ≡ ok b)
    → (check ≡ ok tt) × (rest ≡ ok b)
>>-eq-ok (err x) rest succeeds = cc
>>-eq-ok (ok tt) rest succeeds = (refl, succeeds)

pub Result-cases {ℓ κ} :
    {E : Type ℓ} {A : Type κ} (r : Result E A) → ((a : A) × (r ≡ ok a)) ⊎ ((e : E) × (r ≡ err e))
Result-cases (ok a) = inl (a, refl)
Result-cases (err e) = inr (e, refl)
