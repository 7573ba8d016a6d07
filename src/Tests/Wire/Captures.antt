-- ===== src/Tests/Wire/Captures.antt =====
-- Two scanners in place of the regular expressions of src/httpsignature.rs.
use Prim.Native.Char.{Char, code}
use text.Mathlib.TextLemmas.{nil-append, cons-append, append_assoc, append-nil}
use oxifed.Base.{
  String, AllChars, Lacks, eqb, false, if◌then◌else◌, Option, none, some, List, [], ◌∷◌, map, All,
  ◌≡◌, refl, ap, sym, ◌∙◌, arith, join, ◌⧺◌,
}
use oxifed.Signature.RoundTrip.{
  is_word, is_bare, Written, bare, in_quotes, parameter_text, IsParameter, capture, names_text,
  IsQuotable,
}

-- The names between quotes: `none` outside of them.
abbrev pub names_in : Option String → String → List String
names_in o String.[] = []
names_in none (String.◌∷◌ c s) =
    let opened = names_in (some "") s in
    let rest = names_in none s in if eqb (code c) b'"' then opened else rest
names_in (some n) (String.◌∷◌ c s) =
    let closed = names_in none s in
    let more = names_in (some (n ⧺ (String.◌∷◌ c ""))) s in
    if eqb (code c) b'"' then n ∷ closed else more

-- one character moved from a text to the one before it
shift : (a : String) (c : Char) (s : String) → (a ⧺ (String.◌∷◌ c "")) ⧺ s ≡ a ⧺ (String.◌∷◌ c s)
shift a c s =
    append_assoc a (String.◌∷◌ c "") s
    ∙ ap (λ (t : String). a ⧺ t) (rw (cons-append c "" s, nil-append s) refl)

names_in-append :
    (a n s : String)
    → Lacks n b'"'
    → names_in (some a) (n ⧺ (String.◌∷◌ "\"" s)) ≡ ((a ⧺ n) ∷ names_in none s)
names_in-append a String.[] s h = rw (nil-append, append-nil) refl
names_in-append a (String.◌∷◌ c n) s (x, h) =
    rw cons-append (rw (x, names_in-append (a ⧺ (String.◌∷◌ c "")) n s h, shift a c n) refl)

pub names_in-names_text :
    (ns : List String) → All IsQuotable ns → names_in none (names_text ns) ≡ ns
names_in-names_text [] h = refl
names_in-names_text (n ∷ ns) ((_, x), h) =
    let t = names_text ns in
    rw (cons-append "\"" " " t, cons-append " " "" t, nil-append t)
      (rw (cons-append "\"" "" _, nil-append (n ⧺ _))
        (rw (names_in-append "" n _ x, nil-append n, names_in-names_text ns h) refl))

-- Where in a parameter the text is read, with what has been read of it.
pub data Place : Type 0 where
  in_key at_value : String → Place
  in_bare in_quote behind : (key value : String) → Place

-- The parameters of a text, each up to a ';' or the end.
abbrev pub parameters_in : Place → String → List (String × String)
parameters_in (in_key k) String.[] = []
parameters_in (in_key k) (String.◌∷◌ c s) =
    let found = parameters_in (at_value k) s in
    let more = parameters_in (in_key (k ⧺ (String.◌∷◌ c ""))) s in
    if eqb (code c) b'=' then found else more
parameters_in (at_value k) String.[] = (k, "") ∷ []
parameters_in (at_value k) (String.◌∷◌ c s) =
    let quoted = parameters_in (in_quote k "") s in
    let next = parameters_in (in_key "") s in
    let more = parameters_in (in_bare k (String.◌∷◌ c "")) s in
    if eqb (code c) b'"' then quoted else if eqb (code c) b';' then (k, "") ∷ next else more
parameters_in (in_bare k v) String.[] = (k, v) ∷ []
parameters_in (in_bare k v) (String.◌∷◌ c s) =
    let next = parameters_in (in_key "") s in
    let more = parameters_in (in_bare k (v ⧺ (String.◌∷◌ c ""))) s in
    if eqb (code c) b';' then (k, v) ∷ next else more
parameters_in (in_quote k v) String.[] = []
parameters_in (in_quote k v) (String.◌∷◌ c s) =
    let closed = parameters_in (behind k v) s in
    let more = parameters_in (in_quote k (v ⧺ (String.◌∷◌ c ""))) s in
    if eqb (code c) b'"' then closed else more
parameters_in (behind k v) String.[] = (k, v) ∷ []
parameters_in (behind k v) (String.◌∷◌ c s) =
    let next = parameters_in (in_key "") s in if eqb (code c) b';' then (k, v) ∷ next else []

in_key-append :
    (k n s : String)
    → AllChars is_word n
    → parameters_in (in_key k) (n ⧺ (String.◌∷◌ "=" s)) ≡ parameters_in (at_value (k ⧺ n)) s
in_key-append k String.[] s h = rw (nil-append, append-nil) refl
in_key-append k (String.◌∷◌ c n) s (x, h) =
    let other : eqb (code c) b'=' ≡ false = ground arith in
    rw cons-append (rw (other, in_key-append (k ⧺ (String.◌∷◌ c "")) n s h, shift k c n) refl)

in_quote-append :
    (k v n s : String)
    → Lacks n b'"'
    → parameters_in (in_quote k v) (n ⧺ (String.◌∷◌ "\"" s)) ≡ parameters_in (behind k (v ⧺ n)) s
in_quote-append k v String.[] s h = rw (nil-append, append-nil) refl
in_quote-append k v (String.◌∷◌ c n) s (x, h) =
    rw cons-append (rw (x, in_quote-append k (v ⧺ (String.◌∷◌ c "")) n s h, shift v c n) refl)

-- Behind a parameter, or at the end of the text.
abbrev rest : List (String × Written) → String
rest [] = ""
rest (p ∷ ps) = ";" ⧺ join ";" (map parameter_text (p ∷ ps))

in_bare-append :
    (k v n s : String)
    → AllChars is_bare n
    → parameters_in (in_bare k v) (n ⧺ s) ≡ parameters_in (in_bare k (v ⧺ n)) s
unfolding is_bare
in_bare-append k v String.[] s h = rw (nil-append, append-nil) refl
in_bare-append k v (String.◌∷◌ c n) s (x, h) =
    let other : eqb (code c) b';' ≡ false = ground arith in
    rw cons-append (rw (other, in_bare-append k (v ⧺ (String.◌∷◌ c "")) n s h, shift v c n) refl)

-- what the texts of some parameters are read as
abbrev pub read : List (String × Written) → List (String × String)
read ps = parameters_in (in_key "") (join ";" (map parameter_text ps))

in_bare-rest :
    (k v : String) (ps : List (String × Written))
    → parameters_in (in_bare k v) (rest ps) ≡ ((k, v) ∷ read ps)
unfolding join
in_bare-rest k v [] = refl
in_bare-rest k v (p ∷ ps) = rw (cons-append ";" "" _, nil-append) refl

behind-rest :
    (k v : String) (ps : List (String × Written))
    → parameters_in (behind k v) (rest ps) ≡ ((k, v) ∷ read ps)
unfolding join
behind-rest k v [] = refl
behind-rest k v (p ∷ ps) = rw (cons-append ";" "" _, nil-append) refl

at_value-rest :
    (k : String) (ps : List (String × Written))
    → parameters_in (at_value k) (rest ps) ≡ ((k, "") ∷ read ps)
unfolding join
at_value-rest k [] = refl
at_value-rest k (p ∷ ps) = rw (cons-append ";" "" _, nil-append) refl

at_value-bare :
    (k v : String) (ps : List (String × Written))
    → AllChars is_bare v
    → parameters_in (at_value k) (v ⧺ rest ps) ≡ ((k, v) ∷ read ps)
unfolding is_bare
at_value-bare k String.[] ps h = rw nil-append (at_value-rest k ps)
at_value-bare k (String.◌∷◌ c v) ps (x, h) =
    let one = String.◌∷◌ c "" in
    let no_quote : eqb (code c) b'"' ≡ false = ground arith in
    let no_end : eqb (code c) b';' ≡ false = ground arith in
    rw (cons-append c v (rest ps)) (
      rw (no_quote, no_end, in_bare-append k one v (rest ps) h, in_bare-rest k (one ⧺ v) ps)
        (rw (cons-append c "" v, nil-append v) refl))

at_value-quoted :
    (k v : String) (ps : List (String × Written))
    → Lacks v b'"'
    → parameters_in (at_value k) ("\"" ⧺ v ⧺ "\"" ⧺ rest ps) ≡ ((k, v) ∷ read ps)
at_value-quoted k v ps h =
    rw (cons-append "\"" "" (rest ps), nil-append (rest ps))
      (rw (cons-append "\"" "" _, nil-append (v ⧺ _))
        (rw (in_quote-append k "" v (rest ps) h, nil-append v) (behind-rest k v ps)))

join-rest :
    (p : String × Written) (ps : List (String × Written))
    → join ";" (map parameter_text (p ∷ ps)) ≡ parameter_text p ⧺ rest ps
unfolding join
join-rest p [] = sym (append-nil (parameter_text p))
join-rest p (q ∷ ps) = refl

pub read-capture : (ps : List (String × Written)) → All IsParameter ps → read ps ≡ map capture ps
unfolding join
read-capture [] h = refl
read-capture ((k, bare v) ∷ ps) ((_, word, value), h) = rw (join-rest (k, bare v) ps) (
    rw (append_assoc k ("=" ⧺ v) (rest ps), append_assoc "=" v (rest ps))
      (rw (cons-append "=" "" (v ⧺ rest ps), nil-append (v ⧺ rest ps))
        (rw (in_key-append "" k _ word, nil-append k)
          (at_value-bare k v ps value ∙ ap (λ t. (k, v) ∷ t) (read-capture ps h)))))
read-capture ((k, in_quotes v) ∷ ps) ((_, word, value), h) =
    let w = v ⧺ "\"" ⧺ rest ps in
    rw (join-rest (k, in_quotes v) ps) (
      rw (append_assoc k _ (rest ps), append_assoc "=\"" _ (rest ps), append_assoc v "\"" (rest ps))
        (rw (append_assoc "=" "\"" w, cons-append "=" "" ("\"" ⧺ w), nil-append ("\"" ⧺ w))
          (rw (in_key-append "" k _ word, nil-append k)
            (at_value-quoted k v ps value ∙ ap (λ t. (k, v) ∷ t) (read-capture ps h)))))
