-- ===== src/Pki/Keys.antt =====
-- Keys: PEM, the encoding of an Ed25519 public key, generation and signing.
pub mod Spki
pub mod Pem
use oxifed.Base.{
  ℕ, zero, suc, ◌+◌, ◌%◌, String, Bool, true, false, not, Option, none, some, List, [], ◌∷◌, ◌++◌,
  Result, ok, err, map_err, length, keep, join, lines, starts_with, ◌⧺◌, ◌>>=◌,
}
use oxifed.Signature.Types.{Bytes}
use oxifed.Pki.{
  PkiError, key_generation_error, key_parse_error, signature_creation_error,
  signature_verification_error, trust_chain_error, key_not_found_error, domain_verification_error,
  serialization_error, base64_error, invalid_key_format, unsupported_algorithm, KeyAlgorithm, rsa,
  ed25519, PublicKey, PrivateKey, KeyPair, KeyCrates,
}

-- the `Display` of an error
unfoldable pub display : PkiError → String
display (key_generation_error e) = "Key generation failed: " ⧺ e
display (key_parse_error e) = "Key parsing failed: " ⧺ e
display (signature_creation_error e) = "Signature creation failed: " ⧺ e
display (signature_verification_error e) = "Signature verification failed: " ⧺ e
display (trust_chain_error e) = "Trust chain validation failed: " ⧺ e
display (key_not_found_error e) = "Key not found: " ⧺ e
display (domain_verification_error e) = "Domain verification failed: " ⧺ e
display (serialization_error e) = "Serialization error: " ⧺ e
display (base64_error e) = "Base64 encoding error: " ⧺ e
display invalid_key_format = "Invalid key format"
display (unsupported_algorithm e) = "Unsupported algorithm: " ⧺ e

-- the pieces of at most `size + 1` characters, each followed by a line break; `left` more
-- characters go in the piece that has begun
unfoldable pub chunks : (size left : ℕ) → String → String
chunks size left String.[] = "\n"
chunks size zero (String.◌∷◌ c s) = "\n" ⧺ String.◌∷◌ c (chunks size size s)
chunks size (suc left) (String.◌∷◌ c s) = String.◌∷◌ c (chunks size left s)

abbrev pub pem_body : String → String
pem_body String.[] = ""
pem_body (String.◌∷◌ c s) = chunks 63 64 (String.◌∷◌ c s)

-- the DER of an Ed25519 public key; a length is one byte
unfoldable pub encode_ed25519_spki : Bytes → Bytes
encode_ed25519_spki public_key =
    let oid : Bytes = 6 ∷ 3 ∷ 43 ∷ 101 ∷ 112 ∷ [] in
    let algo_seq : Bytes = 48 ∷ length oid % 256 ∷ oid in
    let bit_string : Bytes = 3 ∷ (length public_key + 1) % 256 ∷ 0 ∷ public_key in
    48 ∷ (length algo_seq + length bit_string) % 256 ∷ algo_seq ++ bit_string

-- the `key_id` of a public key
unfoldable pub key_id_of : String → String
key_id_of actor_id = actor_id ⧺ "#main-key"

module _ (crates : KeyCrates) where
  unfoldable pub der_to_pem : Bytes → String → String
  unfolding chunks
  der_to_pem der label =
      "-----BEGIN "
      ⧺ label
      ⧺ "-----\n"
      ⧺ pem_body (crates.encode der)
      ⧺ "-----END "
      ⧺ label
      ⧺ "-----"

  unfoldable pub pem_to_der : String → Result PkiError Bytes
  unfolding lines join starts_with
  pem_to_der pem =
      map_err (crates.decode (join "" (keep (λ l. not (starts_with l "-----")) (lines pem))))
        (λ e. key_parse_error ("Base64 decode failed: " ⧺ e))

  unfoldable pub public_from_pem : KeyAlgorithm → String → PublicKey
  public_from_pem algorithm pem = record {
    algorithm = algorithm;
    pem_data = pem;
    fingerprint = "sha256:" ⧺ crates.sha256_hex pem;
  }

  unfoldable pub private_from_pem : KeyAlgorithm → String → PrivateKey
  private_from_pem algorithm pem = record {
    algorithm = algorithm;
    encrypted_pem = pem;
    encryption_algorithm = "none";
  }

  unfoldable pub from_pem : KeyAlgorithm → String → String → KeyPair
  unfolding public_from_pem private_from_pem
  from_pem algorithm public_pem private_pem = record {
    public_key = public_from_pem algorithm public_pem;
    private_key = private_from_pem algorithm private_pem;
  }

  unfoldable pub generate_ed25519 : Result PkiError KeyPair
  unfolding der_to_pem encode_ed25519_spki from_pem
  generate_ed25519 = do
    document ←
        map_err crates.generate_pkcs8
          (λ e. key_generation_error ("Ed25519 generation failed: " ⧺ e))
    public ←
        map_err (crates.from_pkcs8 document)
          (λ e. key_generation_error ("Failed to parse generated key: " ⧺ e))
    ok (
        from_pem ed25519 (der_to_pem (encode_ed25519_spki public) "PUBLIC KEY")
          (der_to_pem document "PRIVATE KEY"))

  unfoldable pub generate : KeyAlgorithm → Result PkiError KeyPair
  unfolding generate_ed25519 from_pem
  generate (rsa key_size) = do
    pems ← map_err (crates.generate_rsa key_size) key_generation_error
    ok (from_pem (rsa key_size) pems.1 pems.0)
  generate ed25519 = generate_ed25519

  unfoldable pub sign_ed25519 : PrivateKey → String → Result PkiError String
  unfolding pem_to_der display
  sign_ed25519 key data_text = do
    der ←
        map_err (pem_to_der key.encrypted_pem)
          (λ e. signature_creation_error ("Invalid PEM: " ⧺ display e))
    pair ←
        map_err (crates.from_pkcs8 der)
          (λ e. signature_creation_error ("Invalid Ed25519 key: " ⧺ e))
    ok (crates.encode (crates.sign der data_text))

  unfoldable pub sign : KeyPair → String → Result PkiError String
  unfolding sign_ed25519
  sign pair data_text = elim pair.private_key.algorithm [
    | ed25519 ↦ sign_ed25519 pair.private_key data_text
    | rsa _ ↦
        err (
          unsupported_algorithm
            "RSA signing not supported in PKI module. Use httpsignature module.")
  ]
