-- ===== src/Signature/Types.antt =====
-- Algorithms, errors, components and configurations of src/httpsignature.rs, and the parts of the
-- crates `http`, `url`, `chrono`, `regex`, `ring` and `base64` that the module calls.
use oxifed.Base.{
  ℕ, ◌+◌, ◌*◌, String, ℤ, pos, Bool, Option, none, some, List, ◌==◌, if◌then◌else◌, Result, ok, err,
  starts_with, to_lowercase, ◌⧺◌,
}
use oxifed.Vocab.{Url}

pub data SignatureAlgorithm : Type 0 where
  rsa_sha256 rsa_pss_sha512 ecdsa_p256_sha256 ed25519 : SignatureAlgorithm

pub data SignatureError : Type 0 where
  invalid_parameter missing_parameter unsupported_algorithm : String → SignatureError
  invalid_key_format : String → SignatureError
  verification_failed signature_expired signature_created_in_future : SignatureError
  crypto_error base64_error invalid_header invalid_signature_input : String → SignatureError
  request_error : String → SignatureError
  signature_not_found missing_signature_components invalid_signature_format : SignatureError
  key_not_found : String → SignatureError

-- `SignatureAlgorithm::as_str`
unfoldable pub as_str : SignatureAlgorithm → String
as_str rsa_sha256 = "rsa-v1_5-sha256"
as_str rsa_pss_sha512 = "rsa-pss-sha512"
as_str ecdsa_p256_sha256 = "ecdsa-p256-sha256"
as_str ed25519 = "ed25519"

-- `SignatureAlgorithm::from_str`
unfoldable pub algorithm_from_str : String → Result SignatureError SignatureAlgorithm
algorithm_from_str s =
    if s == "ed25519"
    then ok ed25519
    else if s == "ecdsa-p256-sha256"
    then ok ecdsa_p256_sha256
    else if s == "rsa-v1_5-sha256"
    then ok rsa_sha256
    else if s == "rsa-pss-sha512"
    then ok rsa_pss_sha512
    else err (unsupported_algorithm s)

pub data ComponentIdentifier : Type 0 where
  header : String → ComponentIdentifier
  method target_uri request_target path query status digest : ComponentIdentifier

unfoldable pub canonical_name : ComponentIdentifier → String
unfolding to_lowercase
canonical_name (header name) = to_lowercase name
canonical_name method = "@method"
canonical_name target_uri = "@target-uri"
canonical_name request_target = "@request-target"
canonical_name path = "@path"
canonical_name query = "@query"
canonical_name status = "@status"
canonical_name digest = "digest"

-- `ComponentIdentifier::from_str`
unfoldable pub component_from_str : String → Result SignatureError ComponentIdentifier
unfolding starts_with to_lowercase
component_from_str s =
    if starts_with s "@"
    then if s == "@method"
      then ok method
      else if s == "@target-uri"
      then ok target_uri
      else if s == "@request-target"
      then ok request_target
      else if s == "@path"
      then ok path
      else if s == "@query"
      then ok query
      else if s == "@status"
      then ok status
      else err (invalid_parameter ("Unknown derived component: " ⧺ s))
    else ok (header (to_lowercase s))

-- `DateTime<Utc>`, by the nanoseconds since the earliest instant of `chrono`.
abbrev pub DateTime : Type 0
DateTime = ℕ

abbrev pub second : ℕ
second = 1000000000

-- Key material and signatures, as bytes.
abbrev pub Bytes : Type 0
Bytes = List ℕ

pub record SignatureParameters : Type 0 where
  pub created : Option DateTime
  pub expires : Option DateTime
  pub nonce : Option String
  pub key_id : Option String
  pub tag : Option String
  pub algorithm : Option SignatureAlgorithm

-- `SignatureParameters::default()`
abbrev pub default : SignatureParameters
default = record {
  created = none;
  expires = none;
  nonce = none;
  key_id = none;
  tag = none;
  algorithm = none;
}

-- `SignatureParameters::new()`, which reads the clock twice
unfoldable pub new_parameters : DateTime → DateTime → SignatureParameters
new_parameters now later = record default {
  created = some now;
  expires = some (later + 3600 * second);
}

pub record VerificationConfig : Type 0 where
  pub public_key : Bytes
  pub algorithm : SignatureAlgorithm
  pub max_age : Option ℤ
  pub required_components : Option (List ComponentIdentifier)
  pub expected_key_id : Option String

unfoldable pub new_config : Bytes → SignatureAlgorithm → VerificationConfig
new_config key alg = record {
  public_key = key;
  algorithm = alg;
  max_age = some (pos 300);
  required_components = none;
  expected_key_id = none;
}

pub record SignatureConfig : Type 0 where
  pub algorithm : SignatureAlgorithm
  pub parameters : SignatureParameters
  pub key_id : String
  pub components : List ComponentIdentifier
  pub private_key : Bytes

pub record Signature : Type 0 where
  pub tag : String
  pub signature : String
  pub components : List ComponentIdentifier
  pub parameters : SignatureParameters

-- What the module uses of the crates `http`, `chrono`, `regex`, `ring` and `base64`. A failing
-- call gives `none`, or the text of its error where the source prints that.
pub record Crates : Type 1 where
  -- http::HeaderMap: `get` is the first value of a name
  pub Headers : Type 0
  pub HeaderValue : Type 0
  pub get : Headers → String → Option HeaderValue
  pub insert : Headers → String → HeaderValue → Headers
  pub to_str : HeaderValue → Option String
  -- HeaderName::from_str, HeaderValue::from_str
  pub header_name : String → Option String
  pub header_value : String → Option HeaderValue
  -- DateTime::timestamp, DateTime::from_timestamp(_, 0)
  pub timestamp : DateTime → ℤ
  pub from_timestamp : ℤ → Option DateTime
  -- the captures of the two regular expressions: (key, value) pairs, and quoted names
  pub parameter_captures : String → List (String × String)
  pub component_captures : String → List String
  -- ring: reading a PKCS#8 key, signing with randomness, verifying
  pub KeyPair : Type 0
  pub from_pkcs8 : SignatureAlgorithm → Bytes → Result String KeyPair
  pub sign : SignatureAlgorithm → KeyPair → (rng : ℕ) → String → Result String Bytes
  pub verify : SignatureAlgorithm → Bytes → String → Bytes → Bool
  -- base64, the standard alphabet
  pub encode : Bytes → String
  pub decode : String → Result String Bytes

pub record Request (crates : Crates) : Type 0 where
  pub verb : String
  pub url : Url
  pub headers : crates.Headers
