-- ===== src/Signature/Parse.antt =====
-- `SignatureParameters::{from_input, format_parameters}` and `Signature::from_request`.
use oxifed.Base.{
  String, show, parse_i64, Bool, true, false, Option, none, some, List, [], ◌∷◌, ◌++◌, ◌==◌, not,
  if◌then◌else◌, Result, ok, err, ◌>>=◌, ◌>>◌, fail_if, ok_or, and_then, split_once, trim,
  starts_with, ◌⧺◌, join,
}
use oxifed.Signature.Types.{
  SignatureError, invalid_parameter, invalid_header, signature_not_found, invalid_signature_format,
  missing_signature_components, as_str, algorithm_from_str, ComponentIdentifier, component_from_str,
  DateTime, SignatureParameters, default, Signature, Crates, Request,
}

abbrev pub is_empty {ℓ} : {A : Type ℓ} → List A → Bool
is_empty [] = true
is_empty (_ ∷ _) = false

abbrev pub optional {ℓ} : {A : Type ℓ} → Option A → (A → String) → List String
optional none f = []
optional (some a) f = f a ∷ []

-- `{key}="{value}"`
abbrev pub quoted : String → String → String
quoted key value = key ⧺ "=\"" ⧺ value ⧺ "\""

-- `&sig_value[1..]` of a value that starts with ':'
abbrev pub rest_of : String → String
rest_of String.[] = ""
rest_of (String.◌∷◌ c s) = s

-- what stands before and after the first ';' of the input, if there is one
abbrev pub at_semicolon : String → String × String
at_semicolon input = elim (split_once input b';') [ none ↦ (input, "") | some (a, b) ↦ (a, b) ]

module _ (crates : Crates) where
  open crates use {get, to_str, timestamp, from_timestamp, parameter_captures, component_captures}

  -- `value.parse::<i64>()` and `DateTime::from_timestamp`, which fail with one message
  unfoldable pub parse_time : String → String → Result SignatureError DateTime
  unfolding parse_i64
  parse_time what value =
      ok_or (and_then (parse_i64 value) from_timestamp)
        (invalid_parameter ("Invalid " ⧺ what ⧺ " timestamp: " ⧺ value))

  -- one round of the loop of `from_input`
  unfoldable pub set_parameter :
      SignatureParameters → String → String → Result SignatureError SignatureParameters
  unfolding parse_time algorithm_from_str
  set_parameter params key value =
      if key == "created"
      then (do t ← parse_time "created" value; ok (record params { created = some t }))
      else if key == "expires"
      then (do t ← parse_time "expires" value; ok (record params { expires = some t }))
      else if key == "nonce"
      then ok (record params { nonce = some value })
      else if key == "keyid"
      then ok (record params { key_id = some value })
      else if key == "tag"
      then ok (record params { tag = some value })
      else if key == "alg"
      then (do a ← algorithm_from_str value; ok (record params { algorithm = some a }))
      else err (invalid_parameter ("Unknown parameter: " ⧺ key))

  unfoldable pub set_parameters :
      SignatureParameters → List (String × String) → Result SignatureError SignatureParameters
  unfolding set_parameter
  set_parameters params [] = ok params
  set_parameters params ((key, value) ∷ caps) = do
    params' ← set_parameter params key value
    set_parameters params' caps

  unfoldable pub from_input : String → Result SignatureError SignatureParameters
  unfolding set_parameters
  from_input input = set_parameters default (parameter_captures input)

  unfoldable pub format_parameters : SignatureParameters → String
  unfolding as_str show join
  format_parameters p = join ";" (
      optional p.created (λ t. "created=" ⧺ show (timestamp t))
      ++ optional p.expires (λ t. "expires=" ⧺ show (timestamp t))
      ++ optional p.nonce (quoted "nonce")
      ++ optional p.key_id (quoted "keyid")
      ++ optional p.algorithm (λ a. quoted "alg" (as_str a))
      ++ optional p.tag (quoted "tag"))

  -- `.get(name).ok_or(SignatureNotFound)?.to_str().map_err(InvalidHeader)?`
  unfoldable pub header_text : Request crates → String → Result SignatureError String
  header_text req name = do
    value ← ok_or (get req.headers name) signature_not_found
    ok_or (to_str value) (invalid_header ("Non-ASCII " ⧺ name ⧺ " header"))

  -- the loop over the quoted names
  unfoldable pub parse_components : List String → Result SignatureError (List ComponentIdentifier)
  unfolding component_from_str
  parse_components [] = ok []
  parse_components (name ∷ names) = do
    c ← component_from_str name
    cs ← parse_components names
    ok (c ∷ cs)

  -- no parameters stand for the default ones
  unfoldable pub parsed_parameters : String → Result SignatureError SignatureParameters
  unfolding from_input
  parsed_parameters params_str = if params_str == "" then ok default else from_input params_str

  unfoldable pub from_request : Request crates → Result SignatureError Signature
  unfolding header_text parse_components parsed_parameters split_once trim starts_with
  from_request req = do
    signature_input ← header_text req "signature-input"
    signature ← header_text req "signature"
    input ← ok_or (split_once signature_input b'=') invalid_signature_format
    let tag = trim input.0
    let input_value = trim input.1
    sig ← ok_or (split_once signature b'=') invalid_signature_format
    fail_if (not (trim sig.0 == tag)) invalid_signature_format
    let sig_value = trim sig.1
    fail_if (not (starts_with sig_value ":")) invalid_signature_format
    components ← parse_components (component_captures (at_semicolon input_value).0)
    fail_if (is_empty components) missing_signature_components
    parameters ← parsed_parameters (at_semicolon input_value).1
    ok (record {
      tag = tag;
      signature = rest_of sig_value;
      components = components;
      parameters = parameters;
    })
