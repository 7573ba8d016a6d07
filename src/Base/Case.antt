-- ===== src/Base/Case.antt =====
-- Lower case of ASCII letters, which is all that header names and methods have.
use Prim.Native.Char.{Char, code}
use Prim.Native.String.{String, [], ◌∷◌}
use mathlib.Core.Path.{◌≡◌, refl, ap, ap₂}
use mathlib.Core.Logic.{◌⊎◌, inl, inr}
use native.Mathlib.Omega.{arith}
use oxifed.Base.Tests.{eqb, if◌then◌else◌, Bool-cases}

abbrev upper : String
upper = "ABCDEFGHIJKLMNOPQRSTUVWXYZ"

abbrev lower : String
lower = "abcdefghijklmnopqrstuvwxyz"

pub lower_by : Char → String → String → Char
lower_by c [] ls = c
lower_by c (u ∷ us) [] = c
lower_by c (u ∷ us) (l ∷ ls) = if eqb (code c) (code u) then l else lower_by c us ls

-- `s.to_lowercase()` on ASCII letters; other characters stay.
unfoldable pub to_lowercase : String → String
unfolding lower_by
to_lowercase [] = ""
to_lowercase (c ∷ s) = lower_by c upper lower ∷ to_lowercase s

-- Characters that are their own lower case.
abbrev AllLower : String → Type 0
AllLower [] = Unit
AllLower (l ∷ ls) = (lower_by l upper lower ≡ l) × AllLower ls

lower-AllLower : AllLower lower
unfolding lower_by
lower-AllLower = ground arith

-- Either no pair of the table applies, or the result is one of its lower-case letters.
lower_by-cases :
    (c : Char) (us ls : String)
    → AllLower ls
    → (lower_by c us ls ≡ c) ⊎ (lower_by (lower_by c us ls) upper lower ≡ lower_by c us ls)
unfolding lower_by
lower_by-cases c [] ls h = inl refl
lower_by-cases c (u ∷ us) [] h = inl refl
lower_by-cases c (u ∷ us) (l ∷ ls) (h, hs) = elim (Bool-cases (eqb (code c) (code u))) [
  | inl same ↦ rw same (inr h)
  | inr other ↦ rw other (lower_by-cases c us ls hs)
]

lower_by_idem : (c : Char) → lower_by (lower_by c upper lower) upper lower ≡ lower_by c upper lower
lower_by_idem c = elim (lower_by-cases c upper lower lower-AllLower) [
  | inl own ↦ ap (λ (x : Char). lower_by x upper lower) own
  | inr settled ↦ settled
]

pub to_lowercase_idem : (s : String) → to_lowercase (to_lowercase s) ≡ to_lowercase s
unfolding to_lowercase
to_lowercase_idem [] = refl
to_lowercase_idem (c ∷ s) = ap₂ ◌∷◌ (lower_by_idem c) (to_lowercase_idem s)
