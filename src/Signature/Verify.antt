-- ===== src/Signature/Verify.antt =====
-- `HttpSignature::verify_request`. The clock is read at two points: `now` for the age, `later` for
-- the expiry.
pub mod Accepts
use oxifed.Base.{
  ◌+◌, ◌*◌, String, ℤ, ltb_ℤ, ◌-ℤ◌, Bool, true, false, not, ltb, Option, none, some, List, ◌==◌,
  any, all, Result, ok, err, ◌>>=◌, ◌>>◌, fail_if,
}
use oxifed.Vocab.{UrlLib}
use oxifed.Signature.Types.{
  SignatureError, signature_created_in_future, signature_expired, missing_parameter, key_not_found,
  missing_signature_components, ComponentIdentifier, header, method, target_uri, request_target,
  path, query, status, digest, DateTime, second, VerificationConfig, Crates, Request,
}
use oxifed.Signature.Parse.{from_request}
use oxifed.Signature.SignatureBase.{create_signature_base}
use oxifed.Signature.Crypto.{verify_signature}

-- the derived equality of components
unfoldable pub same_component : ComponentIdentifier → ComponentIdentifier → Bool
same_component (header a) (header b) = a == b
same_component method method = true
same_component target_uri target_uri = true
same_component request_target request_target = true
same_component path path = true
same_component query query = true
same_component status status = true
same_component digest digest = true
same_component _ _ = false

-- `signature_components.contains(required_component)`
unfoldable pub contains_component : List ComponentIdentifier → ComponentIdentifier → Bool
unfolding same_component
contains_component cs c = any (same_component c) cs

unfoldable pub check_key_id : Option String → Option String → Result SignatureError (Unit {0})
check_key_id none given = ok tt
check_key_id (some expected) none = err (missing_parameter "keyid")
check_key_id (some expected) (some key_id) =
    fail_if (not (key_id == expected)) (key_not_found key_id)

unfoldable pub check_expires : Option DateTime → DateTime → Result SignatureError (Unit {0})
check_expires none later = ok tt
check_expires (some expires) later = fail_if (ltb expires later) signature_expired

unfoldable pub check_required :
    Option (List ComponentIdentifier) → List ComponentIdentifier → Result SignatureError (Unit {0})
unfolding contains_component
check_required none components = ok tt
check_required (some required) components =
    fail_if (not (all (contains_component components) required)) missing_signature_components

unfoldable pub check_age :
    (crates : Crates) → Option ℤ → Option DateTime → DateTime → Result SignatureError (Unit {0})
check_age crates none created now = ok tt
check_age crates (some max_age) none now = err (missing_parameter "created")
check_age crates (some max_age) (some created) now = do
  fail_if (ltb (now + 30 * second) created) signature_created_in_future
  fail_if (ltb_ℤ max_age (crates.timestamp now -ℤ crates.timestamp created)) signature_expired

module _ (crates : Crates) (urls : UrlLib) where
  unfoldable pub verify_request :
      (now later : DateTime)
      → Request crates
      → VerificationConfig
      → Result SignatureError (Unit {0})
  unfolding from_request check_age check_expires check_key_id check_required create_signature_base
      verify_signature
  verify_request now later req config = do
    signature ← from_request crates req
    check_age crates config.max_age signature.parameters.created now
    check_expires signature.parameters.expires later
    check_key_id config.expected_key_id signature.parameters.key_id
    check_required config.required_components signature.components
    base ← create_signature_base crates urls req signature.components signature.parameters
    verify_signature crates base signature.signature config.algorithm config.public_key
