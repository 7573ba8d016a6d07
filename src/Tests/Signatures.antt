-- ===== src/Tests/Signatures.antt =====
-- Signatures of a small request.
use oxifed.Base.{to_lowercase, arith, starts_with, ◌*◌, ◌≡◌, refl, pos, some, List, [], ◌∷◌, ok}
use oxifed.Vocab.{lookup}
use oxifed.Signature.Types.{
  rsa_sha256, ed25519, header, method, ComponentIdentifier, SignatureConfig, default,
  VerificationConfig, Request, second,
}
use oxifed.Signature.Verify.{contains_component, verify_request}
use oxifed.Signature.Verify.Accepts.{IsAccepted, verify_request-accepts_iff}
use oxifed.Signature.Sign.{sign_request}
use oxifed.Signature.RoundTrip.Verified.{sign_request-verify_request}
use oxifed.Tests.Wire.{wire_crates, wire_laws, wire_pair, in_range, header_of}
use oxifed.Tests.{url, test_urls, test_crates}

abbrev test_request : Request test_crates
test_request = record {
  verb = "POST";
  url = url "https://example.org/inbox";
  headers =
      ("signature-input", "sig1=(\"@method\" \"@path\");created=100;keyid=\"main-key\"")
      ∷ ("signature", "sig1=:AQID:")
      ∷ [];
}

abbrev test_config : List ComponentIdentifier → VerificationConfig
test_config required = record {
  public_key = [];
  algorithm = rsa_sha256;
  max_age = some (pos 300);
  required_components = some required;
  expected_key_id = some "main-key";
}

verify_request-accepts_iff_example :
    IsAccepted test_crates test_urls
      (200 * second)
      (200 * second)
      test_request
      (test_config (method ∷ []))
unfolding verify_request lookup starts_with
verify_request-accepts_iff_example =
    (verify_request-accepts_iff test_crates test_urls (200 * second) (200 * second) test_request
        (test_config (method ∷ []))).0
      refl

abbrev wire_request : Request wire_crates
wire_request = record {
  verb = "POST";
  url = url "https://example.org/inbox";
  headers = ("date", "today") ∷ [];
}

abbrev wire_config : SignatureConfig
wire_config = record {
  algorithm = ed25519;
  parameters = default;
  key_id = "main-key";
  components = method ∷ header "Date" ∷ [];
  private_key = [];
}

abbrev wire_reader : VerificationConfig
wire_reader = record {
  public_key = [];
  algorithm = ed25519;
  max_age = some (pos 300);
  required_components = some (header "date" ∷ []);
  expected_key_id = some "main-key";
}

abbrev wire_signed : Request wire_crates
wire_signed =
    (sign_request wire_crates test_urls (100 * second) (100 * second) 0 wire_request wire_config).0

sign_request-verify_request_example :
    verify_request wire_crates test_urls (200 * second) (201 * second) wire_signed wire_reader
    ≡ ok tt
unfolding sign_request to_lowercase header_of contains_component
sign_request-verify_request_example =
    sign_request-verify_request wire_crates wire_laws test_urls (100 * second) (100 * second)
      (200 * second) (201 * second) 0 wire_request wire_signed wire_config wire_reader refl refl
      (ground arith) (ground arith) (ground arith) (in_range _ (omega arith))
      (in_range _ (omega arith)) refl (wire_pair ed25519 []) (ground arith) (omega arith) refl
      (refl, tt)
