-- ===== src/Commands/Notes/Ids.antt =====
-- The id that a note is given is read back as the name and the domain of its author.
use Prim.Native.Char.{code}
use text.Mathlib.TextLemmas.{cons-append, nil-append, append_assoc}
use oxifed.Base.{
  Bool, leb, ◌&&◌, ◌||◌, AllChars, AllChars-append, AllChars-mono, AllChars-Lacks, Lacks, ◌≡◌, refl,
  sym, ap, ◌∙◌, ℕ, String, false, none, some, inl, inr, List, [], ◌∷◌, ok, arith, Option-cases,
  Bool-cases, eqb, ◌⧺◌, split_once, split,
}
use oxifed.Vocab.{Url, UrlLib}
use oxifed.Commands.Notes.{parse_note_id, note_id_of, name_in}

-- a first part that does not hold the separator
split-append : (s t : String) → split_once s 47 ≡ none → split (s ⧺ ("/" ⧺ t)) 47 ≡ s ∷ split t 47
unfolding split split_once
split-append String.[] t l = rw (nil-append, cons-append, nil-append) refl
split-append (String.◌∷◌ c s) t l = elim (Option-cases (split_once s 47)) [
  | inr (pair, found) ↦ absurd (ground arith)
  | inl missing ↦
      let differs : eqb (code c) 47 ≡ false = ground arith in
      let rest = split-append s t missing in rw cons-append (rw (differs, split) (rw rest refl))
]

-- there is always a part
split-cons : (s : String) (d : ℕ) → (p : String) × (ps : List String) × (split s d ≡ p ∷ ps)
unfolding split
split-cons String.[] d = ("", [], refl)
split-cons (String.◌∷◌ c s) d = elim (Bool-cases (eqb (code c) d)) [
  | inl ends ↦ ("", split s d, rw (ends, split) refl)
  | inr goes ↦ let (p, ps, e) = split-cons s d in (String.◌∷◌ c p, ps, rw (goes, split) (rw e refl))
]

-- a word between two slashes
around : (word t : String) → ("/" ⧺ (word ⧺ "/")) ⧺ t ≡ "/" ⧺ (word ⧺ ("/" ⧺ t))
around word t =
    append_assoc "/" (word ⧺ "/") t ∙ ap (λ (s : String). "/" ⧺ s) (append_assoc word "/" t)

path_parts :
    (user uuid : String)
    → split_once user 47 ≡ none
    → name_in (split ("/u/" ⧺ user ⧺ "/notes/" ⧺ uuid) 47) ≡ some user
unfolding name_in split_once
path_parts user uuid l =
    let path : "/u/" ⧺ user ⧺ "/notes/" ⧺ uuid
        ≡ "" ⧺ ("/" ⧺ ("u" ⧺ ("/" ⧺ (user ⧺ ("/" ⧺ ("notes" ⧺ ("/" ⧺ uuid))))))) =
      around "u" (user ⧺ "/notes/" ⧺ uuid)
      ∙ ap (λ (t : String). "/" ⧺ ("u" ⧺ ("/" ⧺ (user ⧺ t)))) (around "notes" uuid)
      ∙ sym (nil-append _) in
    let (b, rest, last) = split-cons uuid 47 in
    rw path (
      rw
        (
          split-append "" ("u" ⧺ ("/" ⧺ (user ⧺ ("/" ⧺ ("notes" ⧺ ("/" ⧺ uuid)))))) refl,
          split-append "u" (user ⧺ ("/" ⧺ ("notes" ⧺ ("/" ⧺ uuid)))) refl,
          split-append user ("notes" ⧺ ("/" ⧺ uuid)) l,
          split-append "notes" uuid refl,
          last,
        )
        refl)

-- letters, digits, '-' and '_', which a URL holds as they are
abbrev pub is_unreserved : ℕ → Bool
is_unreserved c =
    (leb b'a' c && leb c b'z')
    || (leb b'A' c && leb c b'Z')
    || (leb b'0' c && leb c b'9')
    || eqb c b'-'
    || eqb c b'_'

-- or a '/'
abbrev pub is_path_char : ℕ → Bool
is_path_char c = is_unreserved c || eqb c b'/'

-- A domain that the URL crate keeps as it is: behind "https://" and before a path of plain
-- characters it is the host, and the path is that path.
abbrev pub KeepsHost : UrlLib → String → Type 0
KeepsHost urls domain =
    (path : String)
    → AllChars is_path_char path
    → (u : Url) × (urls.parse ("https://" ⧺ domain ⧺ "/" ⧺ path) ≡ some u)
      × (urls.host_str u ≡ some domain)
      × (urls.path u ≡ "/" ⧺ path)

Lacks-split_once : (s : String) (d : ℕ) → Lacks s d → split_once s d ≡ none
unfolding split_once
Lacks-split_once String.[] d h = refl
Lacks-split_once (String.◌∷◌ c s) d (x, h) = rw (x, Lacks-split_once s d h) refl

plain_path :
    (user uuid : String)
    → AllChars is_unreserved user
    → AllChars is_unreserved uuid
    → AllChars is_path_char ("u/" ⧺ user ⧺ "/notes/" ⧺ uuid)
plain_path user uuid h k =
    let append = AllChars-append is_path_char in
    let plain = λ (s : String) (a : AllChars is_unreserved s).
      AllChars-mono is_unreserved is_path_char s (λ c x. ground arith) a in
    append "u/" _ (ground arith)
      (append user _ (plain user h) (append "/notes/" _ (ground arith) (plain uuid k)))

-- The id of a new note is parsed to the name and the domain that it was made of, as the update and
-- the deletion of the note do, if the name and the number of the note are letters, digits, '-' and
-- '_', and the URL crate keeps the domain as it is in a URL with a path of such characters.
pub parse_note_id-note_id_of :
    (urls : UrlLib) (user domain uuid : String)
    → KeepsHost urls domain
    → AllChars is_unreserved user
    → AllChars is_unreserved uuid
    → parse_note_id urls (note_id_of user domain uuid) ≡ ok (user, domain)
unfolding parse_note_id note_id_of
parse_note_id-note_id_of urls user domain uuid keeps h k =
    let (u, parsed, host, path) =
      keeps ("u/" ⧺ user ⧺ "/notes/" ⧺ uuid) (plain_path user uuid h k) in
    let lacks = Lacks-split_once user 47 (AllChars-Lacks is_unreserved user 47 h refl) in
    let joined : "/" ⧺ ("u/" ⧺ user ⧺ "/notes/" ⧺ uuid) ≡ "/u/" ⧺ user ⧺ "/notes/" ⧺ uuid =
      sym (append_assoc "/" "u/" (user ⧺ "/notes/" ⧺ uuid)) in
    let named : name_in (split (urls.path u) 47) ≡ some user =
      ap (λ (t : String). name_in (split t 47)) (path ∙ joined) ∙ path_parts user uuid lacks in
    let parsed' : urls.parse ("https://" ⧺ domain ⧺ "/u/" ⧺ user ⧺ "/notes/" ⧺ uuid) ≡ some u =
      ap (λ (t : String). urls.parse ("https://" ⧺ domain ⧺ t)) (sym joined) ∙ parsed in
    rw (parsed', named, host, parse_note_id) refl
