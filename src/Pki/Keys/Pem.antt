-- ===== src/Pki/Keys/Pem.antt =====
-- PEM: what is written for a key is read back.
use Prim.Native.Char.{Char, code}
use Prim.Native.String.{[], ◌∷◌}
use text.Mathlib.TextLemmas.{nil-append, cons-append, append-nil, append_assoc}
use oxifed.Base.{
  ℕ, zero, suc, ◌≡◌, refl, sym, ◌∙◌, ap, String, Bool, true, not, ◌&&◌, List, ok, keep, join, lines,
  push_front, starts_with, starts_with-append, ◌⧺◌, eqb, arith,
}
use oxifed.Signature.Types.{Bytes}
use oxifed.Pki.{KeyCrates}
use oxifed.Pki.Keys.{chunks, pem_body, der_to_pem, pem_to_der}

-- the lines that are not marks, joined: what is decoded
abbrev payload : String → String
payload t = join "" (keep (λ l. not (starts_with l "-----")) (lines t))

join_cons : (l : String) (ls : List String) → join "" (List.◌∷◌ l ls) ≡ l ⧺ join "" ls
unfolding join
join_cons l List.[] = sym (append-nil l)
join_cons l (List.◌∷◌ q qs) = ap (λ (x : String). l ⧺ x) (nil-append (join "" (List.◌∷◌ q qs)))

payload_break : (t : String) → payload ("\n" ⧺ t) ≡ payload t
unfolding lines starts_with
payload_break t =
    rw (cons-append, nil-append)
      (join_cons "" (keep (λ l. not (starts_with l "-----")) (lines t)) ∙ nil-append _)

-- neither a line break nor a dash
abbrev pub is_plain : Char → Bool
is_plain c = not (eqb (code c) 10) && (not (eqb (code c) 13) && not (eqb (code c) 45))

abbrev pub AllPlain : String → Type 0
AllPlain [] = Unit {0}
AllPlain (c ∷ s) = (is_plain c ≡ true) × AllPlain s

-- a text that does not begin with a dash or a carriage return
abbrev is_calm : String → Bool
is_calm [] = true
is_calm (c ∷ s) = not (eqb (code c) 13) && not (eqb (code c) 45)

-- the first line of a calm text is no mark
abbrev no_mark : List String → Bool
no_mark List.[] = true
no_mark (List.◌∷◌ l ls) = not (starts_with l "-----")

calm-no_mark : (t : String) → is_calm t ≡ true → no_mark (lines t) ≡ true
unfolding lines starts_with
calm-no_mark [] h = refl
calm-no_mark (c ∷ t) h = ground arith

joined_front :
    (c : Char) (ls : List String)
    → is_plain c ≡ true
    → no_mark ls ≡ true
    → join "" (keep (λ l. not (starts_with l "-----")) (push_front c ls))
      ≡ c ∷ join "" (keep (λ l. not (starts_with l "-----")) ls)
unfolding join starts_with
joined_front c List.[] plain h = ground arith
joined_front c (List.◌∷◌ l ls) plain h =
    let rest = keep (λ l. not (starts_with l "-----")) ls in
    let kept : not (starts_with (c ∷ l) "-----") ≡ true = ground arith in
    rw (kept, keep)
      (rw (h, keep)
        (join_cons (c ∷ l) rest
          ∙ cons-append c l (join "" rest)
          ∙ ap (λ (x : String). c ∷ x) (sym (join_cons l rest))))

lines-plain : (c : Char) (t : String) → is_plain c ≡ true → lines (c ∷ t) ≡ push_front c (lines t)
unfolding lines
lines-plain c t h = ground arith

payload_plain :
    (c : Char) (t : String) → is_plain c ≡ true → is_calm t ≡ true → payload (c ∷ t) ≡ c ∷ payload t
payload_plain c t plain calm =
    ap (λ ls. join "" (keep (λ l. not (starts_with l "-----")) ls)) (lines-plain c t plain)
    ∙ joined_front c (lines t) plain (calm-no_mark t calm)

calm_break : (t : String) → is_calm ("\n" ⧺ t) ≡ true
calm_break t = rw cons-append refl

chunks-calm : (size left : ℕ) (s t : String) → AllPlain s → is_calm (chunks size left s ⧺ t) ≡ true
unfolding chunks
chunks-calm size left [] t a = calm_break t
chunks-calm size zero (c ∷ s) t a = rw append_assoc (calm_break (c ∷ chunks size size s ⧺ t))
chunks-calm size (suc left) (c ∷ s) t (plain, a) = rw cons-append (ground arith)

-- the lines of a body, before marks that are left out, join to what was cut
payload-chunks :
    (size left : ℕ) (s t : String)
    → AllPlain s
    → payload t ≡ ""
    → payload (chunks size left s ⧺ t) ≡ s
unfolding chunks
payload-chunks size left [] t a h = payload_break t ∙ h
payload-chunks size zero (c ∷ s) t (plain, a) h =
    ap payload (append_assoc "\n" (c ∷ chunks size size s) t)
    ∙ payload_break ((c ∷ chunks size size s) ⧺ t)
    ∙ ap payload (cons-append c (chunks size size s) t)
    ∙ payload_plain c (chunks size size s ⧺ t) plain (chunks-calm size size s t a)
    ∙ ap (λ (x : String). c ∷ x) (payload-chunks size size s t a h)
payload-chunks size (suc left) (c ∷ s) t (plain, a) h =
    ap payload (cons-append c (chunks size left s) t)
    ∙ payload_plain c (chunks size left s ⧺ t) plain (chunks-calm size left s t a)
    ∙ ap (λ (x : String). c ∷ x) (payload-chunks size left s t a h)

payload-pem_body : (s t : String) → AllPlain s → payload t ≡ "" → payload (pem_body s ⧺ t) ≡ s
payload-pem_body [] t a h = ap payload (nil-append t) ∙ h
payload-pem_body (c ∷ s) t a h = payload-chunks 63 64 (c ∷ s) t a h

-- a text in one line
abbrev pub IsLine : String → Type 0
IsLine [] = Unit {0}
IsLine (c ∷ s) = ((not (eqb (code c) 10) && not (eqb (code c) 13)) ≡ true) × IsLine s

lines-front :
    (c : Char) (t : String)
    → (not (eqb (code c) 10) && not (eqb (code c) 13)) ≡ true
    → lines (c ∷ t) ≡ push_front c (lines t)
unfolding lines
lines-front c t h = ground arith

lines-append :
    (s t l : String) (ls : List String)
    → IsLine s
    → lines t ≡ List.◌∷◌ l ls
    → lines (s ⧺ t) ≡ List.◌∷◌ (s ⧺ l) ls
lines-append [] t l ls a h = rw (nil-append, nil-append) h
lines-append (c ∷ s) t l ls (one, a) h =
    ap lines (cons-append c s t)
    ∙ lines-front c (s ⧺ t) one
    ∙ ap (push_front c) (lines-append s t l ls a h)
    ∙ ap (λ (x : String). List.◌∷◌ x ls) (sym (cons-append c s l))

-- the five dashes and the line break after a label
lines-dashes : (t : String) → lines ("-----\n" ⧺ t) ≡ List.◌∷◌ "-----" (lines t)
unfolding lines
lines-dashes t =
    rw (cons-append, cons-append, cons-append, cons-append, cons-append, cons-append, nil-append)
      refl

-- what begins with five dashes is a mark, and is dropped
mark : (s t : String) → starts_with (("-----" ⧺ s) ⧺ t) "-----" ≡ true
mark s t =
    ap (λ (x : String). starts_with x "-----") (append_assoc "-----" s t)
    ∙ starts_with-append "-----" (s ⧺ t)

dropped :
    (l : String) (ls : List String)
    → starts_with l "-----" ≡ true
    → join "" (keep (λ x. not (starts_with x "-----")) (List.◌∷◌ l ls))
      ≡ join "" (keep (λ x. not (starts_with x "-----")) ls)
dropped l ls h = rw (h, keep) refl

payload-begin :
    (label t : String) → IsLine label → payload ("-----BEGIN " ⧺ label ⧺ "-----\n" ⧺ t) ≡ payload t
unfolding starts_with
payload-begin label t a =
    let begun =
      lines-append "-----BEGIN " (label ⧺ "-----\n" ⧺ t) (label ⧺ "-----") (lines t)
        (refl, (refl, (refl, (refl, (refl, (refl, (refl, (refl, (refl, (refl, (refl, tt)))))))))))
        (lines-append label ("-----\n" ⧺ t) "-----" (lines t) a (lines-dashes t)) in
    ap (λ ls. join "" (keep (λ l. not (starts_with l "-----")) ls)) begun
    ∙ dropped ("-----BEGIN " ⧺ label ⧺ "-----") (lines t) (mark "BEGIN " (label ⧺ "-----"))

lines-end : lines "-----" ≡ List.◌∷◌ "-----" List.[]
unfolding lines
lines-end = refl

payload-end : (label : String) → IsLine label → payload ("-----END " ⧺ label ⧺ "-----") ≡ ""
unfolding join
payload-end label a =
    let ended =
      lines-append "-----END " (label ⧺ "-----") (label ⧺ "-----") List.[]
        (refl, (refl, (refl, (refl, (refl, (refl, (refl, (refl, (refl, tt)))))))))
        (lines-append label "-----" "-----" List.[] a lines-end) in
    ap (λ ls. join "" (keep (λ l. not (starts_with l "-----")) ls)) ended
    ∙ dropped ("-----END " ⧺ label ⧺ "-----") List.[] (mark "END " (label ⧺ "-----"))

-- PEM is read back as the DER that it was written for, under a label of one line, if base64 reads
-- back what it writes and writes neither a line break nor a dash.
pub pem_to_der-der_to_pem :
    (crates : KeyCrates) (der : Bytes) (label : String)
    → IsLine label
    → AllPlain (crates.encode der)
    → crates.decode (crates.encode der) ≡ ok der
    → pem_to_der crates (der_to_pem crates der label) ≡ ok der
unfolding pem_to_der der_to_pem
pem_to_der-der_to_pem crates der label one plain h =
    let e : payload (der_to_pem crates der label) ≡ crates.encode der =
      payload-begin label (pem_body (crates.encode der) ⧺ "-----END " ⧺ label ⧺ "-----") one
      ∙ payload-pem_body (crates.encode der) ("-----END " ⧺ label ⧺ "-----") plain
          (payload-end label one) in
    rw (e, h) refl
