-- ===== src/Base/Pieces.antt =====
-- Texts put together of pieces, under `str::split_once` and `str::trim`.
use Prim.Native.Nat.{ℕ}
use Prim.Native.Char.{Char, code}
use Prim.Native.String.{String, [], ◌∷◌}
use mathlib.Core.Path.{◌≡◌, refl, sym}
use mathlib.Core.Logic.{◌≢◌, inl, inr}
use mathlib.Core.Bool.{Bool, true, false}
use mathlib.Core.Option.{some}
use native.Mathlib.Omega.{arith}
use text.Mathlib.TextLemmas.{nil-append, cons-append, concat-ne-nil, append_assoc}
use text.Mathlib.Text.{◌==◌}
use text.Mathlib.TextEquality.{eq_iff}
use oxifed.Base.Tests.{eqb, Bool-cases}
use oxifed.Base.Text.{◌⧺◌, split_once, is_whitespace, trim_start, trim_end, trim}

-- A text that does not hold the character.
abbrev pub Lacks : String → ℕ → Type 0
Lacks [] d = Unit
Lacks (c ∷ s) d = (eqb (code c) d ≡ false) × Lacks s d

pub Lacks-append : (s t : String) (d : ℕ) → Lacks s d → Lacks t d → Lacks (s ⧺ t) d
Lacks-append [] t d a b = rw nil-append b
Lacks-append (c ∷ s) t d (x, a) b = rw cons-append (x, Lacks-append s t d a b)

-- Every character of a text passes a test.
abbrev pub AllChars : (ℕ → Bool) → String → Type 0
AllChars p [] = Unit
AllChars p (c ∷ s) = (p (code c) ≡ true) × AllChars p s

pub AllChars-append :
    (p : ℕ → Bool) (s t : String) → AllChars p s → AllChars p t → AllChars p (s ⧺ t)
AllChars-append p [] t a b = rw nil-append b
AllChars-append p (c ∷ s) t (x, a) b = rw cons-append (x, AllChars-append p s t a b)

pub AllChars-mono :
    (p q : ℕ → Bool) (s : String)
    → ((c : ℕ) → p c ≡ true → q c ≡ true)
    → AllChars p s
    → AllChars q s
AllChars-mono p q [] f h = tt
AllChars-mono p q (c ∷ s) f (x, h) = (f (code c) x, AllChars-mono p q s f h)

pub AllChars-Lacks : (p : ℕ → Bool) (s : String) (d : ℕ) → AllChars p s → p d ≡ false → Lacks s d
AllChars-Lacks p [] d h k = tt
AllChars-Lacks p (c ∷ s) d (x, h) k = (ground arith, AllChars-Lacks p s d h k)

-- A text splits at the first separator, behind a piece that lacks it.
pub split_once-append :
    (s : String) (d : Char) (t : String)
    → Lacks s (code d)
    → split_once (s ⧺ (d ∷ t)) (code d) ≡ some (s, t)
unfolding split_once
split_once-append [] d t h = rw nil-append (ground arith)
split_once-append (c ∷ s) d t (x, h) = rw cons-append (rw (x, split_once-append s d t h) refl)

-- The same where the separator is a text of its own.
pub split_once-between :
    (s : String) (d : Char) (t : String)
    → Lacks s (code d)
    → split_once (s ⧺ (d ∷ "") ⧺ t) (code d) ≡ some (s, t)
split_once-between s d t h = rw (cons-append d "" t, nil-append t) (split_once-append s d t h)

pub ne_empty : (s : String) → s ≢ "" → (s == "") ≡ false
ne_empty s h = elim (Bool-cases (s == "")) [ inl e ↦ absurd (h ((eq_iff s "").0 e)) | inr e ↦ e ]

pub trim_end-concat :
    (s : String) (d : Char)
    → is_whitespace (code d) ≡ false
    → trim_end (s ⧺ (d ∷ "")) ≡ s ⧺ (d ∷ "")
unfolding trim_end
trim_end-concat [] d h = rw nil-append (ground (arith))
trim_end-concat (c ∷ s) d h = rw cons-append (
    rw (trim_end-concat s d h) (
      rw (ne_empty _ (concat-ne-nil d s))
        (elim (Bool-cases (is_whitespace (code c))) [ inl e ↦ rw e refl | inr e ↦ rw e refl ])))

-- A text whose last character is the given one.
abbrev pub EndsIn : Char → String → Type 0
EndsIn d s = (x : String) × (s ≡ x ⧺ (d ∷ ""))

pub EndsIn-append : (d : Char) (s t : String) → EndsIn d t → EndsIn d (s ⧺ t)
EndsIn-append d s t (x, e) = (s ⧺ x, rw e (sym (append_assoc s x (d ∷ ""))))

pub EndsIn-ne_empty : (d : Char) (s : String) → EndsIn d s → (s == "") ≡ false
EndsIn-ne_empty d s (x, e) = rw e (ne_empty _ (concat-ne-nil d x))

-- A text is not trimmed when neither its first nor its last character is white space.
pub trim_between :
    (c : Char) (s : String) (d : Char)
    → is_whitespace (code c) ≡ false
    → is_whitespace (code d) ≡ false
    → EndsIn d s
    → trim (c ∷ s) ≡ c ∷ s
unfolding trim trim_start trim_end
trim_between c s d h k (x, e) = rw e (rw (h, trim_end-concat x d k) (rw h refl))

pub trim_before :
    (c : Char) (s : String) → is_whitespace (code c) ≡ false → trim_end s ≡ s → trim (c ∷ s) ≡ c ∷ s
unfolding trim trim_start trim_end
trim_before c s h k = rw (h, k) (rw h refl)

-- A text of no white space is not trimmed.
pub trim_end-AllChars :
    (p : ℕ → Bool) (s : String)
    → ((c : ℕ) → p c ≡ true → is_whitespace c ≡ false)
    → AllChars p s
    → trim_end s ≡ s
unfolding trim_end
trim_end-AllChars p [] f h = refl
trim_end-AllChars p (c ∷ s) f (x, h) = rw (f (code c) x, trim_end-AllChars p s f h) refl
