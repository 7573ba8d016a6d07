-- ===== src/Signature/RoundTrip.antt =====
-- What reading a signature back relies on of the crates `http`, `chrono`, `regex` and `base64`: the
-- behaviour that their documentation promises, at the calls of src/httpsignature.rs.
pub mod Parameters
pub mod Names
pub mod Base
pub mod Signed
pub mod Verified
use oxifed.Base.{
  ℕ, ◌+◌, ◌≤◌, ◌<◌, ℤ, pos, IsI64, String, Lacks, ◌≡◌, Bool, true, false, not, eqb, ◌&&◌, ◌||◌,
  Option, some, List, [], ◌∷◌, map, All, ◌==◌, starts_with, to_lowercase, AllChars, is_whitespace,
  ok, ◌⧺◌, join, leb,
}
use Prim.Native.Char.{code}
use Prim.Native.String
use oxifed.Signature.Types.{DateTime, second, Bytes, Crates}

abbrev is_alphanumeric : ℕ → Bool
is_alphanumeric c =
    (leb b'a' c && leb c b'z') || (leb b'A' c && leb c b'Z') || (leb b'0' c && leb c b'9')

-- visible ASCII, and the space
abbrev pub is_visible : ℕ → Bool
is_visible c = leb 32 c && leb c 126

-- the standard alphabet of base64, and its padding
abbrev pub is_base64 : ℕ → Bool
is_base64 c = is_alphanumeric c || eqb c b'+' || eqb c b'/' || eqb c b'='

-- `[a-zA-Z0-9_-]`
abbrev pub is_word : ℕ → Bool
is_word c = is_alphanumeric c || eqb c b'_' || eqb c b'-'

-- `[^;,\s]`, and no quote
unfoldable pub is_bare : ℕ → Bool
unfolding is_whitespace
is_bare c = not (eqb c b';' || eqb c b',' || eqb c b'"' || is_whitespace c)

-- A value as it is written behind `key=`: as it is, or in quotes.
pub data Written : Type 0 where
  bare in_quotes : String → Written

abbrev pub value_of : Written → String
value_of (bare v) = v
value_of (in_quotes v) = v

abbrev pub parameter_text : String × Written → String
parameter_text (key, bare v) = key ⧺ "=" ⧺ v
parameter_text (key, in_quotes v) = key ⧺ "=\"" ⧺ v ⧺ "\""

abbrev pub IsValue : Written → Type 0
IsValue (bare v) = AllChars is_bare v
IsValue (in_quotes v) = Lacks v b'"'

abbrev pub IsParameter : String × Written → Type 0
IsParameter (key, value) = ((key == "") ≡ false) × AllChars is_word key × IsValue value

abbrev pub capture : String × Written → String × String
capture (key, value) = (key, value_of value)

-- `"{name}" ` for each name
abbrev pub names_text : List String → String
names_text [] = ""
names_text (n ∷ ns) = "\"" ⧺ n ⧺ "\" " ⧺ names_text ns

abbrev pub IsQuotable : String → Type 0
IsQuotable n = ((n == "") ≡ false) × Lacks n b'"'

-- What a token of HTTP can hold, as far as it matters: visible ASCII, but neither '"' nor ';' nor '@'.
abbrev pub is_token_char : ℕ → Bool
is_token_char c = leb 33 c && leb c 126 && not (eqb c b'"' || eqb c b';' || eqb c b'@')

abbrev pub IsToken : String → Type 0
IsToken h = ((h == "") ≡ false) × AllChars is_token_char h

pub record Laws (crates : Crates) : Type 0 where
  -- HeaderMap: an insert replaces the values of its name and of no other
  pub get_inserted :
      (hs : crates.Headers) (n : String) (v : crates.HeaderValue)
      → crates.get (crates.insert hs n v) n ≡ some v
  pub get_other :
      (hs : crates.Headers) (n m : String) (v : crates.HeaderValue)
      → (to_lowercase m == to_lowercase n) ≡ false
      → crates.get (crates.insert hs n v) m ≡ crates.get hs m
  -- HeaderValue: a text of visible ASCII that is taken is read back
  pub to_str_made :
      (s : String) (v : crates.HeaderValue)
      → AllChars is_visible s
      → crates.header_value s ≡ some v
      → crates.to_str v ≡ some s
  -- HeaderName: tokens, in lower case whatever the case of the text
  pub name_made : (s h : String) → crates.header_name s ≡ some h → (h ≡ to_lowercase s) × IsToken h
  pub name_of_lowercase : (s : String) → crates.header_name (to_lowercase s) ≡ crates.header_name s
  pub name_digest : crates.header_name "digest" ≡ some "digest"
  -- DateTime: an instant up to the last one is read back as the start of its second
  pub last : DateTime
  pub timestamp_IsI64 : (t : DateTime) → t ≤ last → IsI64 (crates.timestamp t)
  pub whole : DateTime → DateTime
  pub from_timestamp_whole :
      (t : DateTime) → t ≤ last → crates.from_timestamp (crates.timestamp t) ≡ some (whole t)
  pub timestamp_whole : (t : DateTime) → crates.timestamp (whole t) ≡ crates.timestamp t
  pub whole_le : (t : DateTime) → whole t ≤ t
  pub lt_whole : (t : DateTime) → t < whole t + second
  -- the two regular expressions, on texts of their shape
  pub captures_parameters :
      (ps : List (String × Written))
      → All IsParameter ps
      → crates.parameter_captures (join ";" (map parameter_text ps)) ≡ map capture ps
  pub captures_names :
      (ns : List String) → All IsQuotable ns → crates.component_captures (names_text ns) ≡ ns
  -- base64
  pub decode_encode :
      (bytes : Bytes) → All (λ b. b < 256) bytes → crates.decode (crates.encode bytes) ≡ ok bytes
  pub encode_chars : (bytes : Bytes) → AllChars is_base64 (crates.encode bytes)
