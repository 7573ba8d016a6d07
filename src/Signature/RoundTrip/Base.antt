-- ===== src/Signature/RoundTrip/Base.antt =====
-- The base that is signed, and the base that the verifier rebuilds from the signed request.
use oxifed.Base.{
  String, to_lowercase, to_lowercase_idem, ◌≡◌, refl, ◌∙◌, arith, false, List, [], ◌∷◌, map, All,
  some, ◌==◌, ok, ok_or, >>=-eq-ok,
}
use oxifed.Vocab.{UrlLib}
use oxifed.Signature.Types.{
  ComponentIdentifier, header, method, target_uri, request_target, path, query, status, digest,
  DateTime, SignatureConfig, Crates, Request, invalid_header,
}
use oxifed.Signature.Sign.{signed_parameters}
use oxifed.Signature.SignatureBase.{
  component_value, get_component_value, component_lines, create_signature_base,
}
use oxifed.Signature.Components.{read_back}
use oxifed.Signature.RoundTrip.{Laws}
use oxifed.Signature.RoundTrip.Names.{canonical_name-read_back}
use oxifed.Signature.RoundTrip.Parameters.{read_parameters, format_parameters-read_parameters}

-- Not one of the two headers that signing sets.
abbrev pub IsKept : ComponentIdentifier → Type 0
IsKept (header name) =
    ((to_lowercase name == "signature-input") ≡ false)
    × ((to_lowercase name == "signature") ≡ false)
IsKept _ = Unit

-- the request with its two new headers
abbrev pub with_headers :
    (crates : Crates) → Request crates → crates.HeaderValue → crates.HeaderValue → Request crates
with_headers crates req input signature = record req {
  headers = crates.insert (crates.insert req.headers "signature-input" input) "signature" signature;
}

module _ (crates : Crates) (laws : Laws crates) (urls : UrlLib) (req : Request crates)
    (input signature : crates.HeaderValue) where
  abbrev signed : Request crates
  signed = with_headers crates req input signature

  get-kept :
      (h : String)
      → (to_lowercase h == "signature-input") ≡ false
      → (to_lowercase h == "signature") ≡ false
      → crates.get signed.headers h ≡ crates.get req.headers h
  unfolding to_lowercase
  get-kept h a b =
      laws.get_other _ "signature" h signature (b) ∙ laws.get_other _ "signature-input" h input a

  component_value-read_back :
      (c : ComponentIdentifier) (v : String)
      → IsKept c
      → component_value crates urls req c ≡ ok v
      → component_value crates urls signed (read_back c) ≡ ok v
  unfolding component_value to_lowercase
  component_value-read_back (header name) v (a, b) h =
      let (n, made, h₁) = >>=-eq-ok (ok_or (crates.header_name name) (invalid_header name)) _ h in
      let found : crates.header_name name ≡ some n = ground arith in
      let lower = (laws.name_made name n found).0 in
      let same = get-kept n (rw (lower, to_lowercase_idem) a) (rw (lower, to_lowercase_idem) b) in
      rw (laws.name_of_lowercase name, found, same) (ground arith)
  component_value-read_back digest v k h =
      rw (laws.name_digest, get-kept "digest" refl refl) (ground arith)
  component_value-read_back method v k h = h
  component_value-read_back target_uri v k h = h
  component_value-read_back request_target v k h = h
  component_value-read_back path v k h = h
  component_value-read_back query v k h = h
  component_value-read_back status v k h = h

  component_lines-read_back :
      (cs : List ComponentIdentifier) (lines : List String)
      → All IsKept cs
      → component_lines crates urls req cs ≡ ok lines
      → component_lines crates urls signed (map read_back cs) ≡ ok lines
  unfolding component_lines get_component_value
  component_lines-read_back [] lines k h = h
  component_lines-read_back (c ∷ cs) lines (k, ks) h =
      let ((n, w), first, h₁) = >>=-eq-ok (get_component_value crates urls req c) _ h in
      let (v, value, _) = >>=-eq-ok (component_value crates urls req c) _ first in
      let (rest, others, h₂) = >>=-eq-ok (component_lines crates urls req cs) _ h₁ in
      rw
        (
          component_value-read_back c v k value,
          canonical_name-read_back c,
          component_lines-read_back cs rest ks others,
        )
        (ground arith)

  -- The verifier rebuilds the base that was signed.
  pub create_signature_base-read_back :
      (now later : DateTime) (config : SignatureConfig) (base : String)
      → All IsKept config.components
      → create_signature_base crates urls req config.components (signed_parameters now later config)
        ≡ ok base
      → create_signature_base crates urls
          (with_headers crates req input signature)
          (map read_back config.components)
          (read_parameters crates laws now later config)
        ≡ ok base
  unfolding create_signature_base
  create_signature_base-read_back now later config base k h =
      let (lines, made, h₁) = >>=-eq-ok (component_lines crates urls req config.components) _ h in
      rw
        (
          component_lines-read_back config.components lines k made,
          format_parameters-read_parameters crates laws now later config,
        )
        h₁
