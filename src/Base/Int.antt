-- ===== src/Base/Int.antt =====
-- `i64` as an integer, with `str::parse` and `Display` of the standard library.
use Prim.Native.Nat.{ℕ, zero, suc, ◌+◌, ◌-◌, ◌*◌, ◌/◌, ◌%◌, ◌^◌}
use Prim.Native.Char.{code}
use Prim.Native.String
use Prim.Native.String.{String, [], ◌∷◌}
use mathlib.Core.Bool.{Bool, ◌&&◌}
use mathlib.Core.Option.{Option, none, some}
use oxifed.Base.Tests.{ltb, leb, eqb, if◌then◌else◌, and_then}

-- `negsuc n` is -(n + 1).
pub data ℤ : Type 0 where
  pos : ℕ → ℤ
  negsuc : ℕ → ℤ

abbrev pub pos_part : ℤ → ℕ
pos_part (pos n) = n
pos_part (negsuc n) = 0

abbrev pub neg_part : ℤ → ℕ
neg_part (pos n) = 0
neg_part (negsuc n) = suc n

-- a < b
abbrev pub ltb_ℤ : ℤ → ℤ → Bool
ltb_ℤ a b = ltb (pos_part a + neg_part b) (pos_part b + neg_part a)

-- a - b, as an integer.
abbrev pub sub_ℕ : ℕ → ℕ → ℤ
sub_ℕ a b = if leb b a then pos (a - b) else negsuc (b - a - 1)

infixl 65 ◌-ℤ◌
abbrev pub ◌-ℤ◌ : ℤ → ℤ → ℤ
a -ℤ b = sub_ℕ (pos_part a + neg_part b) (neg_part a + pos_part b)

-- The value of decimal digits after a value that is read; `none` at another character.
unfoldable pub read_digits : ℕ → String → Option ℕ
read_digits n [] = some n
read_digits n (c ∷ s) =
    if leb b'0' (code c) && leb (code c) b'9'
    then read_digits (n * 10 + (code c - b'0')) s
    else none

unfoldable pub read_unsigned : String → Option ℕ
unfolding read_digits
read_unsigned [] = none
read_unsigned (c ∷ s) = read_digits 0 (c ∷ s)

abbrev below : ℕ → ℕ → Option ℤ
below limit n = if ltb n limit then some (pos n) else none

abbrev negated : ℕ → Option ℤ
negated zero = some (pos 0)
negated (suc n) = if ltb n (2 ^ 63) then some (negsuc n) else none

-- `s.parse::<i64>().ok()`
unfoldable pub parse_i64 : String → Option ℤ
unfolding read_unsigned
parse_i64 [] = none
parse_i64 (c ∷ s) =
    if eqb (code c) b'-'
    then and_then (read_unsigned s) negated
    else if eqb (code c) b'+'
    then and_then (read_unsigned s) (below (2 ^ 63))
    else and_then (read_unsigned (c ∷ s)) (below (2 ^ 63))

abbrev pub digit_at : ℕ → String → String
digit_at n [] = ""
digit_at zero (c ∷ s) = c ∷ ""
digit_at (suc n) (c ∷ s) = digit_at n s

abbrev pub push_digit : ℕ → String → String
push_digit n acc = elim (digit_at n "0123456789") [ [] ↦ acc | c ∷ _ ↦ c ∷ acc ]

-- The decimal digits of `n` before `acc`. A number below the fuel needs no more rounds than that.
unfoldable pub show_from : ℕ → ℕ → String → String
show_from zero n acc = acc
show_from (suc fuel) n acc =
    let shorter = show_from fuel (n / 10) (push_digit (n % 10) acc) in
    if ltb n 10 then push_digit n acc else shorter

unfoldable pub show : ℤ → String
unfolding show_from
show (pos n) = show_from (suc n) n ""
show (negsuc n) = String.◌++◌ "-" (show_from (suc (suc n)) (suc n) "")
