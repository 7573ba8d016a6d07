-- ===== src/Signature/Sign.antt =====
-- `HttpSignature::{sign_request, sign_request_legacy}`. The request is changed in place, so each
-- returns it beside its result: a header that is set stays set when a later step fails.
use oxifed.Base.{
  ℕ, String, Option, none, some, List, [], ◌∷◌, Result, ok, err, ◌>>=◌, ok_or, map, ◌⧺◌, join,
  to_lowercase,
}
use oxifed.Vocab.{UrlLib}
use oxifed.Signature.Types.{
  SignatureAlgorithm, rsa_sha256, rsa_pss_sha512, ecdsa_p256_sha256, ed25519, SignatureError,
  invalid_header, ComponentIdentifier, header, request_target, digest, canonical_name, DateTime,
  SignatureParameters, new_parameters, SignatureConfig, Crates, Request,
}
use oxifed.Signature.Parse.{format_parameters}
use oxifed.Signature.SignatureBase.{path_and_query, create_signature_base}
use oxifed.Signature.Crypto.{create_signature}

-- the parameters that `sign_request` signs: new ones, with the key and algorithm of the configuration
unfoldable pub signed_parameters : DateTime → DateTime → SignatureConfig → SignatureParameters
unfolding new_parameters
signed_parameters now later config = record (new_parameters now later) {
  key_id = some config.key_id;
  algorithm = some config.algorithm;
}

-- `"{name}" ` for each component
unfoldable pub quoted_names : List ComponentIdentifier → String
unfolding canonical_name
quoted_names [] = ""
quoted_names (c ∷ cs) = "\"" ⧺ canonical_name c ⧺ "\" " ⧺ quoted_names cs

-- the name of an algorithm in the draft
unfoldable pub legacy_name : SignatureAlgorithm → String
legacy_name rsa_sha256 = "rsa-sha256"
legacy_name ed25519 = "ed25519"
legacy_name ecdsa_p256_sha256 = "ecdsa-sha256"
legacy_name rsa_pss_sha512 = "rsa-pss-sha512"

module _ (crates : Crates) (urls : UrlLib) where
  open crates use {get, insert, to_str, header_name, header_value}

  -- insert a header of the given text, or fail with the message
  unfoldable pub set_header :
      Request crates → String → String → String → Request crates × Result SignatureError (Unit {0})
  set_header req name text message = elim (header_value text) [
    | none ↦ (req, err (invalid_header message))
    | some value ↦ (record req { headers = insert req.headers name value }, ok tt)
  ]

  -- the texts of the two headers
  unfoldable pub signature_headers :
      DateTime
      → DateTime
      → ℕ
      → Request crates
      → SignatureConfig
      → Result SignatureError (String × String)
  unfolding signed_parameters quoted_names create_signature_base create_signature
  signature_headers now later rng req config = do
    let params = signed_parameters now later config
    base ← create_signature_base crates urls req config.components params
    signature ← create_signature crates base config.algorithm config.private_key rng
    ok (
      "sig1=" ⧺ quoted_names config.components ⧺ ";" ⧺ format_parameters crates params,
      "sig1=:" ⧺ signature,
    )

  abbrev and_set :
      Request crates × Result SignatureError (Unit {0})
      → String
      → Request crates × Result SignatureError (Unit {0})
  and_set (req, err e) text = (req, err e)
  and_set (req, ok _) text = set_header req "signature" text "Invalid signature header"

  unfoldable pub sign_request :
      DateTime
      → DateTime
      → ℕ
      → Request crates
      → SignatureConfig
      → Request crates × Result SignatureError (Unit {0})
  unfolding signature_headers set_header
  sign_request now later rng req config = elim (signature_headers now later rng req config) [
    | err e ↦ (req, err e)
    | ok (input, signature) ↦
        and_set (set_header req "signature-input" input "Invalid signature-input header") signature
  ]

  -- one round of the loop: the name and the line that it adds, if any
  unfoldable pub legacy_line :
      Request crates → ComponentIdentifier → Result SignatureError (Option (String × String))
  unfolding path_and_query to_lowercase
  legacy_line req request_target = ok (
      some (
        "(request-target)",
        "(request-target): " ⧺ to_lowercase req.verb ⧺ " " ⧺ path_and_query urls req.url,
      ))
  legacy_line req (header name) = do
    h ← ok_or (header_name name) (invalid_header name)
    elim (get req.headers h) [
      | none ↦ ok none
      | some value ↦ (do
        text ← ok_or (to_str value) (invalid_header ("Non-ASCII value in header: " ⧺ name))
        ok (some (to_lowercase name, to_lowercase name ⧺ ": " ⧺ text)))
    ]
  legacy_line req digest = elim (get req.headers "digest") [
    | none ↦ ok none
    | some value ↦ (do
      text ← ok_or (to_str value) (invalid_header "Non-ASCII value in Digest header")
      ok (some ("digest", "digest: " ⧺ text)))
  ]
  legacy_line req _ = ok none

  abbrev and_line : Option (String × String) → List (String × String) → List (String × String)
  and_line none lines = lines
  and_line (some l) lines = l ∷ lines

  unfoldable pub legacy_lines :
      Request crates → List ComponentIdentifier → Result SignatureError (List (String × String))
  unfolding legacy_line
  legacy_lines req [] = ok []
  legacy_lines req (c ∷ cs) = do
    line ← legacy_line req c
    lines ← legacy_lines req cs
    ok (and_line line lines)

  -- the text of the `Signature` header
  unfoldable pub legacy_header : ℕ → Request crates → SignatureConfig → Result SignatureError String
  unfolding legacy_lines create_signature legacy_name join
  legacy_header rng req config = do
    lines ← legacy_lines req config.components
    let signing_string = join "\n" (map (λ l. l.1) lines)
    signature ← create_signature crates signing_string config.algorithm config.private_key rng
    ok (
        "keyId=\""
        ⧺ config.key_id
        ⧺ "\",algorithm=\""
        ⧺ legacy_name config.algorithm
        ⧺ "\",headers=\""
        ⧺ join " " (map (λ l. l.0) lines)
        ⧺ "\",signature=\""
        ⧺ signature
        ⧺ "\"")

  unfoldable pub sign_request_legacy :
      ℕ → Request crates → SignatureConfig → Request crates × Result SignatureError (Unit {0})
  unfolding legacy_header set_header
  sign_request_legacy rng req config = elim (legacy_header rng req config) [
    | err e ↦ (req, err e)
    | ok text ↦ set_header req "signature" text "Invalid Signature header"
  ]
