-- ===== src/WebFinger/Names.antt =====
-- Names of the form user@domain without a colon: what the tests and the replacements of the program
-- make of them.
use Prim.Native.Char.{Char, code}
use Prim.Native.String.{String, [], ◌∷◌}
use text.Mathlib.TextLemmas.{cons-append, nil-append}
use oxifed.Base.{
  ◌≡◌, refl, ap, ℕ, true, false, none, some, inl, inr, arith, Bool-cases, Option-cases, eqb, ◌⧺◌,
  split_once, starts_with, contains, replace_from, replace, starts_with-append,
}
use oxifed.Commands.Follows.{format_subject}
use oxifed.WebFinger.Finger.{is_user_at_domain}

-- the character does not occur
abbrev pub Lacks : ℕ → String → Type 0
Lacks c s = split_once s c ≡ none

Lacks-cons :
    (c : ℕ) (d : Char) (s : String) → Lacks c (d ∷ s) → (eqb (code d) c ≡ false) × Lacks c s
unfolding split_once
Lacks-cons c d s h = elim (Option-cases (split_once s c)) [
  | inl missing ↦ (ground arith, missing)
  | inr (pair, found) ↦ absurd (ground arith)
]

starts_with-Lacks : (c : ℕ) (s t : String) → starts_with s t ≡ true → Lacks c s → Lacks c t
unfolding starts_with split_once
starts_with-Lacks c s [] h l = refl
starts_with-Lacks c [] (d ∷ t) h l = absurd (cc)
starts_with-Lacks c (e ∷ s) (d ∷ t) h l =
    let (differs, rest) = Lacks-cons c e s l in ground (arith, starts_with-Lacks c s t)

contains-Lacks : (c : ℕ) (s t : String) → contains s t ≡ true → Lacks c s → Lacks c t
unfolding contains
contains-Lacks c [] t h l = starts_with-Lacks c [] t h l
contains-Lacks c (d ∷ s) t h l = elim (Bool-cases (starts_with (d ∷ s) t)) [
  | inl here ↦ starts_with-Lacks c (d ∷ s) t here l
  | inr later ↦ contains-Lacks c s t (ground arith) (Lacks-cons c d s l).1
]

-- a text without a colon contains none that has one
without :
    (s t : String) (r : String × String)
    → split_once t 58 ≡ some r
    → Lacks 58 s
    → (contains s t ≡ false) × (starts_with s t ≡ false)
without s t r colon l = (
  elim (Bool-cases (contains s t)) [
    | inr absent ↦ absent
    | inl present ↦ let e = contains-Lacks 58 s t present l in absurd (cc)
  ],
  elim (Bool-cases (starts_with s t)) [
    | inr absent ↦ absent
    | inl present ↦ let e = starts_with-Lacks 58 s t present l in absurd (cc)
  ],
)

contains-starts : (s t : String) → starts_with s t ≡ true → contains s t ≡ true
unfolding contains
contains-starts [] t h = h
contains-starts (c ∷ s) t h = ground arith

contains_at : (s t : String) → contains (s ⧺ ("@" ⧺ t)) "@" ≡ true
unfolding contains starts_with
contains_at [] t = rw nil-append (contains-starts ("@" ⧺ t) "@" (starts_with-append "@" t))
contains_at (c ∷ s) t = rw cons-append (ground (arith, contains_at s t))

replace-Lacks : (s : String) → Lacks 58 s → replace_from 0 s "act:" "acct:" ≡ s
unfolding replace_from
replace-Lacks [] l = refl
replace-Lacks (c ∷ s) l =
    let differs = (without (c ∷ s) "act:" ("act", "") (unfold split_once in refl) l).1 in
    rw (differs, replace_from)
      (ap (λ (t : String). c ∷ t) (replace-Lacks s (Lacks-cons 58 c s l).1))

pub is_user_at_domain-name :
    (user domain : String)
    → Lacks 58 (user ⧺ ("@" ⧺ domain))
    → is_user_at_domain (user ⧺ ("@" ⧺ domain)) ≡ true
unfolding is_user_at_domain split_once
is_user_at_domain-name user domain l =
    let no_scheme = (without (user ⧺ ("@" ⧺ domain)) "://" ("", "//") refl l).0 in
    let at = contains_at user domain in rw (no_scheme, at) refl

pub format_subject-name : (s : String) → Lacks 58 s → format_subject s ≡ "acct:" ⧺ s
unfolding format_subject split_once
format_subject-name s l =
    let acct = (without s "acct:" ("acct", "") refl l).1 in
    let https = (without s "https://" ("https", "//") refl l).1 in
    let colon = (without s ":" ("", "") refl l).0 in rw (acct, https, colon) refl

-- the characters of the prefix
pub acct_cons : (s : String) → "acct:" ⧺ s ≡ "a" ∷ ("c" ∷ ("c" ∷ ("t" ∷ (":" ∷ s))))
acct_cons s = rw (cons-append, cons-append, cons-append, cons-append, cons-append, nil-append)

pub replace-name : (s : String) → Lacks 58 s → replace ("acct:" ⧺ s) "act:" "acct:" ≡ "acct:" ⧺ s
unfolding replace starts_with
replace-name s l =
    rw (acct_cons s)
      (ap (λ (t : String). "a" ∷ ("c" ∷ ("c" ∷ ("t" ∷ (":" ∷ t))))) (replace-Lacks s l))
