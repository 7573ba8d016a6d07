-- ===== src/Base/Text.antt =====
-- Rust's `str` methods that the program uses, over native strings, and the order of `str`.
use Prim.Native.Nat.{ℕ, zero, suc, ◌-◌}
use Prim.Native.Char.{Char, code}
use Prim.Native.String
use Prim.Native.String.{String, [], ◌∷◌}
use mathlib.Core.Path.{◌≡◌, refl, ap, ap₂}
use mathlib.Core.Logic.{◌⊎◌, inl, inr}
use mathlib.Core.Bool.{Bool, true, false, ◌&&◌, ◌||◌}
use mathlib.Core.Option.{Option, none, some}
use native.Mathlib.Omega.{arith}
use text.Mathlib.TextEquality.{Char-path}
use text.Mathlib.TextLemmas.{nil-append, cons-append}
use mathlib.Core.List.{List}
use text.Mathlib.Text.{◌==◌}
use oxifed.Base.Tests.{ltb, leb, eqb, if◌then◌else◌, Bool-cases, Option-cases}

infixr 65 ◌⧺◌
abbrev pub ◌⧺◌ : String → String → String
s ⧺ t = String.◌++◌ s t

-- `s.starts_with(t)`
unfoldable pub starts_with : String → String → Bool
starts_with s [] = true
starts_with [] (d ∷ t) = false
starts_with (c ∷ s) (d ∷ t) = eqb (code c) (code d) && starts_with s t

-- `s.contains(t)`
unfoldable pub contains : String → String → Bool
unfolding starts_with
contains [] t = starts_with [] t
contains (c ∷ s) t = starts_with (c ∷ s) t || contains s t

-- `s.split_once(c)`; also `s.splitn(2, c)`, which gives two parts in the same cases.
unfoldable pub split_once : String → ℕ → Option (String × String)
split_once [] d = none
split_once (c ∷ s) d =
    if eqb (code c) d
    then some ("", s)
    else elim (split_once s d) [ none ↦ none | some (a, b) ↦ some (c ∷ a, b) ]

-- `s.split(c).next()`, which is never `None`.
unfoldable pub first_part : String → ℕ → String
first_part [] d = ""
first_part (c ∷ s) d = if eqb (code c) d then "" else c ∷ first_part s d

-- The characters of `s`, counted.
unfoldable pub count : String → ℕ
count [] = 0
count (c ∷ s) = suc (count s)

-- `s.replace(t, u)` for `t` that is not empty: `skip` characters of a match are still to pass.
unfoldable pub replace_from : ℕ → String → String → String → String
unfolding starts_with count
replace_from skip [] t u = ""
replace_from (suc skip) (c ∷ s) t u = replace_from skip s t u
replace_from zero (c ∷ s) t u = elim (starts_with (c ∷ s) t) [
  | true ↦ u ⧺ replace_from (count t - 1) s t u
  | false ↦ c ∷ replace_from zero s t u
]

unfoldable pub replace : String → String → String → String
unfolding replace_from
replace s t u = replace_from 0 s t u

-- `a <= b` for `str`: UTF-8 bytes compare as code points do.
unfoldable pub le_text : String → String → Bool
le_text [] b = true
le_text (c ∷ a) [] = false
le_text (c ∷ a) (d ∷ b) = ltb (code c) (code d) || (eqb (code c) (code d) && le_text a b)

pub le_text_total : (a b : String) → (le_text a b ≡ true) ⊎ (le_text b a ≡ true)
unfolding le_text
le_text_total [] b = inl refl
le_text_total (c ∷ a) [] = inr refl
le_text_total (c ∷ a) (d ∷ b) = ground (arith, le_text_total a b)

pub le_text_trans : (a b c : String) → le_text a b ≡ true → le_text b c ≡ true → le_text a c ≡ true
unfolding le_text
le_text_trans [] b c p q = refl
le_text_trans (x ∷ a) [] c p q = cc
le_text_trans (x ∷ a) (y ∷ b) [] p q = cc
le_text_trans (x ∷ a) (y ∷ b) (z ∷ c) p q = ground (arith, le_text_trans a b c)

code_eq : (c d : Char) → eqb (code c) (code d) ≡ true → c ≡ d
code_eq c d h = Char-path c d (ground arith)

pub le_text_antisym : (a b : String) → le_text a b ≡ true → le_text b a ≡ true → a ≡ b
unfolding le_text
le_text_antisym [] [] p q = refl
le_text_antisym [] (d ∷ b) p q = cc
le_text_antisym (c ∷ a) [] p q = cc
le_text_antisym (c ∷ a) (d ∷ b) p q =
    let same : eqb (code c) (code d) ≡ true = ground arith in
    let rest : a ≡ b = ground (arith, le_text_antisym a b) in ap₂ ◌∷◌ (code_eq c d same) rest

pub starts_with-append : (s t : String) → starts_with (s ⧺ t) s ≡ true
unfolding starts_with
starts_with-append [] t = refl
starts_with-append (c ∷ s) t = rw cons-append (ground (arith, starts_with-append s t))

-- One step of a split that does not stop at the first character.
split_once-cons :
    (c : Char) (s : String) (d : ℕ) (a b : String)
    → eqb (code c) d ≡ false
    → split_once (c ∷ s) d ≡ some (a, b)
    → (a' : String) × (split_once s d ≡ some (a', b)) × (a ≡ c ∷ a')
unfolding split_once
split_once-cons c s d a b other h = elim (Option-cases (split_once s d)) [
  | inl missing ↦ ground arith
  | inr ((x, y), found) ↦
      let e : Path (Option (String × String)) (some (c ∷ x, y)) (some (a, b)) = ground arith in
      (x, rw found (ap (λ (t : String). some (x, t)) (cc)), cc)
]

-- A split gives the text back around the separator, which the first part does not hold.
pub split_once-join :
    (s : String) (d : Char) (a b : String)
    → split_once s (code d) ≡ some (a, b)
    → (s ≡ a ⧺ (d ∷ b)) × (split_once a (code d) ≡ none)
unfolding split_once
split_once-join [] d a b h = cc
split_once-join (c ∷ s) d a b h = elim (Bool-cases (eqb (code c) (code d))) [
  | inl same ↦
      let e : Path (Option (String × String)) (some ("", s)) (some (a, b)) = ground arith in
      let ea : a ≡ "" = cc in
      let eb : b ≡ s = cc in
      rw (ea, eb) (rw nil-append (ap (λ (x : Char). x ∷ s) (code_eq c d same)), refl)
  | inr other ↦
      let (a', found, shape) = split_once-cons c s (code d) a b other h in
      let (joined, clean) = split_once-join s d a' b found in
      rw shape (rw cons-append (ap (λ (t : String). c ∷ t) joined), ground arith)
]

-- The characters that `str::trim` removes: Unicode's White_Space.
unfoldable pub is_whitespace : ℕ → Bool
is_whitespace c =
    (leb 9 c && leb c 13)
    || eqb c 32
    || eqb c 0x85
    || eqb c 0xa0
    || eqb c 0x1680
    || (leb 0x2000 c && leb c 0x200a)
    || eqb c 0x2028
    || eqb c 0x2029
    || eqb c 0x202f
    || eqb c 0x205f
    || eqb c 0x3000

unfoldable pub trim_start : String → String
unfolding is_whitespace
trim_start [] = ""
trim_start (c ∷ s) = if is_whitespace (code c) then trim_start s else c ∷ s

unfoldable pub trim_end : String → String
unfolding is_whitespace
trim_end [] = ""
trim_end (c ∷ s) =
    let rest = trim_end s in if is_whitespace (code c) && rest == "" then "" else c ∷ rest

unfoldable pub trim : String → String
unfolding trim_start trim_end
trim s = trim_end (trim_start s)

-- `parts.join(sep)`
unfoldable pub join : String → List String → String
join sep List.[] = ""
join sep (List.◌∷◌ p List.[]) = p
join sep (List.◌∷◌ p (List.◌∷◌ q ps)) = p ⧺ sep ⧺ join sep (List.◌∷◌ q ps)

abbrev pub push_front : Char → List String → List String
push_front c List.[] = List.◌∷◌ (c ∷ "") List.[]
push_front c (List.◌∷◌ l ls) = List.◌∷◌ (c ∷ l) ls

-- `s.lines()`: lines end in "\n" or "\r\n", and an end of the text ends a line that is not empty.
unfoldable pub lines : String → List String
unfolding starts_with
lines [] = List.[]
lines (c ∷ s) =
    let rest = lines s in
    if eqb (code c) 10
    then List.◌∷◌ "" rest
    else if eqb (code c) 13 && starts_with s "\n"
    then rest
    else push_front c rest

-- `s.split(c).collect()`
unfoldable pub split : String → ℕ → List String
split [] d = List.◌∷◌ "" List.[]
split (c ∷ s) d =
    let rest = split s d in if eqb (code c) d then List.◌∷◌ "" rest else push_front c rest
