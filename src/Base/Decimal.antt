-- ===== src/Base/Decimal.antt =====
-- Reading the decimal print of an `i64`, of src/httpsignature.rs's `created` and `expires`.
use Prim.Native.Nat.{ℕ, zero, suc, ◌+◌, ◌*◌, ◌/◌, ◌%◌, ◌^◌, ◌<◌}
use Prim.Native.Char.{Char, code}
use Prim.Native.String.{String, [], ◌∷◌}
use mathlib.Core.Path.{◌≡◌, refl, ap, ◌∙◌}
use mathlib.Core.Logic.{◌≢◌, inl, inr}
use mathlib.Core.Option.{some}
use native.Mathlib.Omega.{arith}
use text.Mathlib.TextLemmas.{nil-append, cons-append, cons≢nil}
use oxifed.Base.Tests.{ltb, Bool-cases}
use oxifed.Base.Int.{
  ℤ, pos, negsuc, read_digits, read_unsigned, parse_i64, push_digit, show_from, show,
}

pub push_digit-cons :
    (d : ℕ) (acc : String)
    → d < 10
    → (c : Char) × (push_digit d acc ≡ c ∷ acc) × (code c ≡ b'0' + d)
push_digit-cons zero acc h = ("0", refl, refl)
push_digit-cons (suc zero) acc h = ("1", refl, refl)
push_digit-cons (suc (suc zero)) acc h = ("2", refl, refl)
push_digit-cons (suc (suc (suc zero))) acc h = ("3", refl, refl)
push_digit-cons (suc (suc (suc (suc zero)))) acc h = ("4", refl, refl)
push_digit-cons (suc (suc (suc (suc (suc zero))))) acc h = ("5", refl, refl)
push_digit-cons (suc (suc (suc (suc (suc (suc zero)))))) acc h = ("6", refl, refl)
push_digit-cons (suc (suc (suc (suc (suc (suc (suc zero))))))) acc h = ("7", refl, refl)
push_digit-cons (suc (suc (suc (suc (suc (suc (suc (suc zero)))))))) acc h = ("8", refl, refl)
push_digit-cons (suc (suc (suc (suc (suc (suc (suc (suc (suc zero))))))))) acc h = ("9", refl, refl)
push_digit-cons (suc (suc (suc (suc (suc (suc (suc (suc (suc (suc d)))))))))) acc h =
    absurd (omega arith)

-- Pushing a digit is reading one.
read_digits-push_digit :
    (m d : ℕ) (acc : String)
    → d < 10
    → read_digits m (push_digit d acc) ≡ read_digits (m * 10 + d) acc
unfolding read_digits
read_digits-push_digit m d acc h =
    let (c, shape, value) = push_digit-cons d acc h in rw (shape, value) (ground arith)

read_digits-show_from :
    (fuel n : ℕ) (acc : String)
    → n < fuel
    → read_digits 0 (show_from fuel n acc) ≡ read_digits n acc
unfolding show_from
read_digits-show_from zero n acc h = absurd (omega arith)
read_digits-show_from (suc fuel) n acc h = elim (Bool-cases (ltb n 10)) [
  | inl small ↦ rw small (
      read_digits-push_digit 0 n acc (ground arith)
      ∙ ap (λ (m : ℕ). read_digits m acc) (omega arith))
  | inr large ↦ rw large (
      read_digits-show_from fuel (n / 10) (push_digit (n % 10) acc) (ground arith)
      ∙ read_digits-push_digit (n / 10) (n % 10) acc (omega arith)
      ∙ ap (λ (m : ℕ). read_digits m acc) (omega arith))
]

push_digit-ne-nil : (d : ℕ) (acc : String) → d < 10 → push_digit d acc ≢ ""
push_digit-ne-nil d acc h = let (c, shape, value) = push_digit-cons d acc h in rw shape cons≢nil

show_from-ne-nil : (fuel n : ℕ) (acc : String) → acc ≢ "" → show_from fuel n acc ≢ ""
unfolding show_from
show_from-ne-nil zero n acc h = h
show_from-ne-nil (suc fuel) n acc h = elim (Bool-cases (ltb n 10)) [
  | inl small ↦ rw small (push_digit-ne-nil n acc (ground arith))
  | inr large ↦ rw large (
      show_from-ne-nil fuel (n / 10) (push_digit (n % 10) acc)
        (push_digit-ne-nil (n % 10) acc (omega arith)))
]

show_from_empty : (fuel n : ℕ) → show_from (suc fuel) n "" ≢ ""
unfolding show_from
show_from_empty fuel n = elim (Bool-cases (ltb n 10)) [
  | inl small ↦ rw small (push_digit-ne-nil n "" (ground arith))
  | inr large ↦ rw large (
      show_from-ne-nil fuel (n / 10) (push_digit (n % 10) "")
        (push_digit-ne-nil (n % 10) "" (omega arith)))
]

-- What only digits read as, a parse reads as well.
parse_i64-digits :
    (s : String) (n : ℕ)
    → s ≢ ""
    → read_digits 0 s ≡ some n
    → n < 2 ^ 63
    → parse_i64 s ≡ some (pos n)
unfolding parse_i64 read_unsigned read_digits
parse_i64-digits [] n h k fits = absurd (h refl)
parse_i64-digits (c ∷ s) n h k fits = ground arith

read_unsigned-digits :
    (s : String) (n : ℕ) → s ≢ "" → read_digits 0 s ≡ some n → read_unsigned s ≡ some n
unfolding read_unsigned
read_unsigned-digits [] n h k = absurd (h refl)
read_unsigned-digits (c ∷ s) n h k = k

-- The range of `i64`.
abbrev pub IsI64 : ℤ → Type 0
IsI64 (pos n) = n < 2 ^ 63
IsI64 (negsuc n) = n < 2 ^ 63

-- Every `i64` is read back from its print.
pub parse_i64-show : (z : ℤ) → IsI64 z → parse_i64 (show z) ≡ some z
unfolding show parse_i64 read_digits
parse_i64-show (pos n) h =
    parse_i64-digits (show_from (suc n) n "") n (show_from_empty n n)
      (read_digits-show_from (suc n) n "" (omega arith)) h
parse_i64-show (negsuc n) h =
    let digits = show_from (suc (suc n)) (suc n) "" in
    let read =
      read_unsigned-digits digits (suc n) (show_from_empty (suc n) (suc n))
        (read_digits-show_from (suc (suc n)) (suc n) "" (omega arith)) in
    rw (cons-append "-" "" digits, nil-append digits) (rw read (ground arith))
