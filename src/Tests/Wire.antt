-- ===== src/Tests/Wire.antt =====
-- The crates of the signatures, as small functions that keep the laws.
mod Captures
use Prim.Native.Nat.{zero, suc, ◌/◌, ◌%◌, ◌≤◌}
use Prim.Native.Char.{Char, code}
use text.Mathlib.TextLemmas.{nil-append, cons-append, append_assoc, append-nil}
use oxifed.Base.{
  ℕ, ◌+◌, ◌*◌, pos, negsuc, String, AllChars, Lacks, count, eqb, Bool, true, false, Bool-cases, inl,
  inr, ◌&&◌, not, if◌then◌else◌, Option, none, some, List, [], ◌∷◌, map, All, ◌≡◌, refl, ap, sym,
  ◌∙◌, arith, ◌==◌, ok, join, ◌⧺◌, to_lowercase, trim_end, eq_iff, eq_refl, to_lowercase_idem,
}
use oxifed.Signature.RoundTrip.Verified.{IsKeyPair}
use oxifed.Signature.Types.{SignatureAlgorithm, Bytes, second, Crates}
use oxifed.Signature.RoundTrip.{
  Laws, is_base64, is_word, is_bare, Written, bare, in_quotes, parameter_text, IsParameter, capture,
  names_text, IsQuotable, is_token_char, IsToken,
}
use oxifed.Tests.Wire.Captures.{names_in, names_in-names_text, in_key, parameters_in, read-capture}

-- Bytes in unary, each behind its marks.
abbrev mark : ℕ → String → String
mark zero s = String.◌∷◌ "A" s
mark (suc n) s = String.◌∷◌ "I" (mark n s)

abbrev encoded : Bytes → String
encoded [] = ""
encoded (b ∷ bs) = mark b (encoded bs)

abbrev decoded_from : ℕ → String → Bytes
decoded_from k String.[] = []
decoded_from k (String.◌∷◌ c s) =
    let end = decoded_from 0 s in
    let more = decoded_from (k + 1) s in if eqb (code c) b'A' then k ∷ end else more

decoded_from-mark :
    (k n : ℕ) (s : String) → decoded_from k (mark n s) ≡ ((k + n) ∷ decoded_from 0 s)
decoded_from-mark k zero s = ap (λ (m : ℕ). m ∷ decoded_from 0 s) (omega arith)
decoded_from-mark k (suc n) s =
    decoded_from-mark (k + 1) n s ∙ ap (λ (m : ℕ). m ∷ decoded_from 0 s) (omega arith)

decoded-encoded : (bytes : Bytes) → decoded_from 0 (encoded bytes) ≡ bytes
decoded-encoded [] = refl
decoded-encoded (b ∷ bs) =
    rw (decoded_from-mark 0 b (encoded bs), decoded-encoded bs)
      (ap (λ (m : ℕ). m ∷ bs) (omega arith))

mark-is_base64 : (n : ℕ) (s : String) → AllChars is_base64 s → AllChars is_base64 (mark n s)
mark-is_base64 zero s h = (refl, h)
mark-is_base64 (suc n) s h = (refl, mark-is_base64 n s h)

encoded-is_base64 : (bytes : Bytes) → AllChars is_base64 (encoded bytes)
encoded-is_base64 [] = tt
encoded-is_base64 (b ∷ bs) = mark-is_base64 b (encoded bs) (encoded-is_base64 bs)

abbrev token_chars : String → Bool
token_chars String.[] = true
token_chars (String.◌∷◌ c s) = is_token_char (code c) && token_chars s

token_chars-AllChars : (s : String) → token_chars s ≡ true → AllChars is_token_char s
token_chars-AllChars String.[] h = tt
token_chars-AllChars (String.◌∷◌ c s) h = (ground arith, token_chars-AllChars s (ground arith))

unfoldable pub header_of : String → Option String
unfolding to_lowercase
header_of s =
    let name = to_lowercase s in if not (name == "") && token_chars name then some name else none

header_of-IsToken : (s h : String) → header_of s ≡ some h → (h ≡ to_lowercase s) × IsToken h
unfolding header_of
header_of-IsToken s h e =
    let same : h ≡ to_lowercase s = ground arith in
    (same, rw same (ground arith, token_chars-AllChars (to_lowercase s) (ground arith)))

header_of-lower : (s : String) → header_of (to_lowercase s) ≡ header_of s
unfolding header_of
header_of-lower s = rw to_lowercase_idem refl

-- the headers of a request, the newest first
abbrev find : List (String × String) → String → Option String
find [] name = none
find ((n, v) ∷ hs) name = let rest = find hs name in if n == name then some v else rest

abbrev check_byte : String → ℕ
check_byte base = count base % 256

-- A signature is one byte: the length of what is signed, modulo 256.
abbrev pub wire_crates : Crates
wire_crates = record {
  Headers = List (String × String);
  HeaderValue = String;
  get = find;
  insert = λ hs name value. (name, value) ∷ hs;
  to_str = λ v. some v;
  header_name = header_of;
  header_value = λ s. some s;
  timestamp = λ t. pos (t / second);
  from_timestamp = λ t. elim t [ pos n ↦ some (n * second) | negsuc n ↦ none ];
  parameter_captures = parameters_in (in_key "");
  component_captures = names_in none;
  KeyPair = Unit;
  from_pkcs8 = λ a key. ok tt;
  sign = λ a pair rng base. ok (check_byte base ∷ []);
  verify = λ a key base bytes. elim bytes [ [] ↦ false | b ∷ bs ↦ eqb b (check_byte base) ];
  encode = encoded;
  decode = λ s. ok (decoded_from 0 s);
}

find-other :
    (hs : List (String × String)) (n m v : String)
    → (to_lowercase m == to_lowercase n) ≡ false
    → find ((n, v) ∷ hs) m ≡ find hs m
find-other hs n m v h = elim (Bool-cases (n == m)) [
  | inl same ↦ let e = (eq_iff n m).0 same in let r = eq_refl (to_lowercase n) in absurd cc
  | inr other ↦ rw other refl
]

pub wire_laws : Laws wire_crates
unfolding header_of to_lowercase
wire_laws = record {
  get_inserted = λ hs n v. rw (eq_refl n) refl;
  get_other = find-other;
  to_str_made = λ s v h made. sym made;
  name_made = header_of-IsToken;
  name_of_lowercase = header_of-lower;
  name_digest = refl;
  last = 1000000000000 * second;
  timestamp_IsI64 = λ t h. omega (arith, h);
  whole = λ t. (t / second) * second;
  from_timestamp_whole = λ t h. refl;
  timestamp_whole = λ t. ap pos (omega arith);
  whole_le = λ t. omega arith;
  lt_whole = λ t. omega arith;
  captures_parameters = read-capture;
  captures_names = names_in-names_text;
  decode_encode = λ bytes h. ap ok (decoded-encoded bytes);
  encode_chars = encoded-is_base64;
}

pub in_range : (t : ℕ) → t ≤ 1000000000000 * second → t ≤ wire_laws.last
unfolding wire_laws
in_range t h = h

pub wire_pair : (a : SignatureAlgorithm) (key : Bytes) → IsKeyPair wire_crates a key key
wire_pair a key pair rng base bytes h k =
    let e : bytes ≡ check_byte base ∷ [] = cc in rw e ((omega arith, tt), ground arith)
