-- ===== src/Signature/RoundTrip/Verified.antt =====
-- `HttpSignature::sign_request` against `HttpSignature::verify_request`.
use oxifed.Base.{
  ℕ, ◌+◌, ◌*◌, ◌≤◌, ◌<◌, String, Lacks, AllChars, ℤ, ◌≡◌, arith, true, false, inl, inr,
  Option-cases, Result-cases, >>=-eq-ok, Option, some, none, map, map_err, All, ok, ◌⧺◌,
}
use oxifed.Vocab.{UrlLib}
use oxifed.Signature.Types.{
  SignatureAlgorithm, DateTime, second, Bytes, SignatureConfig, VerificationConfig, Crates, Request,
}
use oxifed.Signature.Parse.{is_empty}
use oxifed.Signature.SignatureBase.{create_signature_base}
use oxifed.Signature.Crypto.{create_signature}
use oxifed.Signature.Sign.{signed_parameters, signature_headers, set_header, sign_request}
use oxifed.Signature.Verify.{verify_request}
use oxifed.Signature.Verify.Accepts.{IsFresh, HasKeyId, Covers, verify_request-accepts_iff}
use oxifed.Signature.Components.{read_back}
use oxifed.Signature.RoundTrip.{Laws, is_visible}
use oxifed.Signature.RoundTrip.Names.{create_signature_base-IsNamed}
use oxifed.Signature.RoundTrip.Parameters.{read_parameters}
use oxifed.Signature.RoundTrip.Base.{IsKept, with_headers, create_signature_base-read_back}
use oxifed.Signature.RoundTrip.Signed.{
  input_text, input_text-is_visible, signature_text-is_visible, from_request-signed,
}

module _ (crates : Crates) (urls : UrlLib) (now later : DateTime) (rng : ℕ) (req : Request crates)
    (config : SignatureConfig) where
  -- What a signing that succeeds has computed.
  record IsMade (signed : Request crates) : Type 0 where
    base : String
    built :
        create_signature_base crates urls req config.components (signed_parameters now later config)
        ≡ ok base
    pair : crates.KeyPair
    key : crates.from_pkcs8 config.algorithm config.private_key ≡ ok pair
    bytes : Bytes
    made : crates.sign config.algorithm pair rng base ≡ ok bytes
    input : crates.HeaderValue
    input_made : crates.header_value ("sig1=" ⧺ input_text crates now later config) ≡ some input
    signature : crates.HeaderValue
    signature_made : crates.header_value ("sig1=:" ⧺ crates.encode bytes) ≡ some signature
    result : signed ≡ with_headers crates req input signature

  -- Both headers are set when signing succeeds.
  sign_request-headers :
      (signed : Request crates)
      → sign_request crates urls now later rng req config ≡ (signed, ok tt)
      → (i s : String) × (signature_headers crates urls now later rng req config ≡ ok (i, s))
        × (input : crates.HeaderValue) × (crates.header_value i ≡ some input)
        × (signature : crates.HeaderValue) × (crates.header_value s ≡ some signature)
        × (signed ≡ with_headers crates req input signature)
  unfolding sign_request set_header
  sign_request-headers signed h =
      elim (Result-cases (signature_headers crates urls now later rng req config)) [
        | inr (e, failed) ↦ absurd (ground arith)
        | inl ((i, s), texts) ↦ elim (Option-cases (crates.header_value i)) [
          | inl missing ↦ absurd (ground arith)
          | inr (input, found) ↦ elim (Option-cases (crates.header_value s)) [
            | inl missing ↦ absurd (ground arith)
            | inr (signature, found') ↦ (i, s, texts, input, found, signature, found', ground arith)
          ]
        ]
      ]

  signature_headers-ok :
      (i s : String)
      → signature_headers crates urls now later rng req config ≡ ok (i, s)
      → (base : String) × (create_signature_base crates urls req config.components
            (signed_parameters now later config)
          ≡ ok base)
        × (pair : crates.KeyPair) × (crates.from_pkcs8 config.algorithm config.private_key
            ≡ ok pair)
        × (bytes : Bytes) × (crates.sign config.algorithm pair rng base ≡ ok bytes)
        × (i ≡ "sig1=" ⧺ input_text crates now later config)
        × (s ≡ "sig1=:" ⧺ crates.encode bytes)
  unfolding signature_headers create_signature
  signature_headers-ok i s h =
      let params = signed_parameters now later config in
      let (base, built, h₁) =
        >>=-eq-ok (create_signature_base crates urls req config.components params) _ h in
      let (text, made, h₂) =
        >>=-eq-ok (create_signature crates base config.algorithm config.private_key rng) _ h₁ in
      let (pair, key, h₃) =
        >>=-eq-ok (map_err (crates.from_pkcs8 config.algorithm config.private_key) _) _ made in
      let (bytes, produced, h₄) =
        >>=-eq-ok (map_err (crates.sign config.algorithm pair rng base) _) _ h₃ in
      let e : text ≡ crates.encode bytes = cc in
      (base, built, pair, ground arith, bytes, ground arith, cc, rw (← e) (cc))

  sign_request-IsMade :
      (signed : Request crates)
      → sign_request crates urls now later rng req config ≡ (signed, ok tt)
      → IsMade signed
  sign_request-IsMade signed h =
      let (i, s, texts, input, found, signature, found', result) = sign_request-headers signed h in
      let (base, built, pair, key, bytes, made, ei, es) = signature_headers-ok i s texts in
      record {
        base = base;
        built = built;
        pair = pair;
        key = key;
        bytes = bytes;
        made = made;
        input = input;
        input_made = rw (← ei) found;
        signature = signature;
        signature_made = rw (← es) found';
        result = result;
      }

-- What is signed with the private key verifies under the public key.
abbrev pub IsKeyPair : Crates → SignatureAlgorithm → (private_key public_key : Bytes) → Type 0
IsKeyPair crates alg private_key public_key =
    (pair : crates.KeyPair) (rng : ℕ) (base : String) (bytes : Bytes)
    → crates.from_pkcs8 alg private_key ≡ ok pair
    → crates.sign alg pair rng base ≡ ok bytes
    → All (λ b. b < 256) bytes × (crates.verify alg public_key base bytes ≡ true)

IsFresh-whole :
    (crates : Crates) (laws : Laws crates) (m : Option ℤ) (created now : DateTime)
    → IsFresh crates m (some created) now
    → IsFresh crates m (some (laws.whole created)) now
IsFresh-whole crates laws none created now h = tt
IsFresh-whole crates laws (some m) created now (a, b) =
    rw (laws.timestamp_whole created) (omega (arith, laws.whole_le created), b)

module _ (crates : Crates) (laws : Laws crates) (urls : UrlLib) (now later now' later' : DateTime)
    (rng : ℕ) (req signed : Request crates) (config : SignatureConfig)
    (reader : VerificationConfig) where
  open laws use {last}

  -- A request that `sign_request` has signed is accepted by `verify_request` under the public key
  -- and the algorithm that belong to the signing key. The conditions: the crates keep the laws of
  -- `Laws`; at least one component is signed, and none is one of the two headers that are set; the
  -- key id is visible ASCII without a quote; both times can be written as whole seconds; the signature is fresh for
  -- the verifier's age limit when it was made at `now`; the verifier checks the expiry at least a
  -- second before an hour has passed; it expects this key id or none; and it requires only
  -- components that were signed, as they are read back.
  pub sign_request-verify_request :
      sign_request crates urls now later rng req config ≡ (signed, ok tt)
      → is_empty config.components ≡ false
      → All IsKept config.components
      → Lacks config.key_id b'"'
      → AllChars is_visible config.key_id
      → now ≤ last
      → later + 3600 * second ≤ last
      → reader.algorithm ≡ config.algorithm
      → IsKeyPair crates config.algorithm config.private_key reader.public_key
      → IsFresh crates reader.max_age (some now) now'
      → later' + second ≤ later + 3600 * second
      → HasKeyId reader.expected_key_id (some config.key_id)
      → Covers (map read_back config.components) reader.required_components
      → verify_request crates urls now' later' signed reader ≡ ok tt
  sign_request-verify_request h some_components kept quote visible early fits alg pair fresh soon
        key covers =
      let m = sign_request-IsMade crates urls now later rng req config signed h in
      let named =
        create_signature_base-IsNamed crates laws urls req config.components _ m.base m.built in
      let (small, checked) = pair m.pair rng m.base m.bytes m.key m.made in
      (verify_request-accepts_iff crates urls now' later' signed reader).1 (record {
        signature = record {
          tag = "sig1";
          signature = crates.encode m.bytes;
          components = map read_back config.components;
          parameters = read_parameters crates laws now later config;
        };
        parsed = rw m.result (
            from_request-signed crates laws now later req config m.input m.signature m.bytes named
              some_components quote early fits
              (laws.to_str_made _ m.input
                (input_text-is_visible crates now later config laws named visible) m.input_made)
              (laws.to_str_made _ m.signature
                (signature_text-is_visible crates laws now later req config m.input m.signature
                  m.bytes)
                m.signature_made));
        fresh = IsFresh-whole crates laws reader.max_age now now' fresh;
        unexpired = omega (arith, soon, laws.lt_whole (later + 3600 * second));
        key_id = key;
        covers = covers;
        base = m.base;
        rebuilt = rw m.result (
            create_signature_base-read_back crates laws urls req m.input m.signature now later
              config m.base kept m.built);
        bytes = m.bytes;
        decoded = laws.decode_encode m.bytes small;
        verified = rw alg checked;
      })
