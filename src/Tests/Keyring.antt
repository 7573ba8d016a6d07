-- ===== src/Tests/Keyring.antt =====
-- A user's key that a domain signs.
use oxifed.Base.{◌≡◌, refl, ◌⊎◌, none, some, List, [], ◌∷◌, ok, err, All, arith}
use oxifed.Pki.{
  PkiError, ed25519, TrustLevel, KeyPair, UserKeyInfo, DomainKeyInfo, DomainSignature, KeyCrates,
}
use oxifed.Pki.Keys.{der_to_pem, pem_to_der, encode_ed25519_spki}
use oxifed.Pki.Keys.Pem.{pem_to_der-der_to_pem}
use oxifed.Pki.Keys.Spki.{IsElement, encode_ed25519_spki-IsElement}
use oxifed.Pki.Manager.{
  PkiManager, new_manager, validate_trust_chain, verify_and_sign_user_key, KeyOperation, imported,
  signed, run_all,
}
use oxifed.Pki.Manager.Trust.{
  IsEntry, IsSigned, verify_and_sign_user_key-cases, run_all-IsEntry, validate_trust_chain-claimed,
}

abbrev test_keys : KeyCrates
test_keys = record {
  generate_rsa = λ size. err "no randomness";
  generate_pkcs8 = ok (1 ∷ 2 ∷ []);
  from_pkcs8 = λ document. ok document;
  sign = λ key text. key;
  sha256_hex = λ text. "00";
  encode = λ bytes. "AQI=";
  decode = λ text. ok (1 ∷ 2 ∷ []);
}

abbrev pair : KeyPair
pair = record {
  public_key = record { algorithm = ed25519; pem_data = "AQI="; fingerprint = "sha256:00" };
  private_key = record {
    algorithm = ed25519;
    encrypted_pem = "AQI=";
    encryption_algorithm = "none";
  };
}

abbrev domain_key : DomainKeyInfo
domain_key = record {
  domain = "example.org";
  key_id = "https://example.org/keys/1";
  public_key = pair.public_key;
  private_key = pair.private_key;
  created_at = 1;
  expires_at = none;
  master_signature = none;
  usage = [];
}

abbrev claimed : UserKeyInfo
claimed = record {
  actor_id = "alice";
  key_id = "alice#main-key";
  public_key = pair.public_key;
  private_key = none;
  domain_signature = none;
  trust_level = TrustLevel.master_signed;
  created_at = 1;
  expires_at = none;
}

abbrev signature : DomainSignature
signature = record {
  domain = "example.org";
  signature = "AQI=";
  signed_at = 2;
  domain_key_id = "https://example.org/keys/1";
  verification_chain = [];
}

abbrev with_domain : PkiManager
with_domain = record new_manager { domain_keys = ("example.org", domain_key) ∷ [] }

abbrev operations : List (KeyCrates × KeyOperation)
operations = (test_keys, imported 2 "alice" pair) ∷ (test_keys, signed 3 "alice" "example.org") ∷ []

encode_ed25519_spki-IsElement_example :
    IsElement 48 (encode_ed25519_spki (7 ∷ 8 ∷ []))
    × (encode_ed25519_spki (7 ∷ 8 ∷ [])
        ≡ 48 ∷ 12 ∷ 48 ∷ 5 ∷ 6 ∷ 3 ∷ 43 ∷ 101 ∷ 112 ∷ 3 ∷ 3 ∷ 0 ∷ 7 ∷ 8 ∷ [])
encode_ed25519_spki-IsElement_example = encode_ed25519_spki-IsElement (7 ∷ 8 ∷ []) (omega arith)

abbrev two_keys : PkiManager
two_keys = record with_domain { user_keys = ("alice", claimed) ∷ [] }

verify_and_sign_user_key-cases_example :
    ((e : PkiError) × (verify_and_sign_user_key test_keys 3 "alice" "example.org" two_keys
        ≡ (err e, two_keys)))
    ⊎ (((verify_and_sign_user_key test_keys 3 "alice" "example.org" two_keys).0 ≡ ok tt)
        × IsSigned test_keys 3 "alice" "example.org" two_keys
            (verify_and_sign_user_key test_keys 3 "alice" "example.org" two_keys).1)
verify_and_sign_user_key-cases_example =
    verify_and_sign_user_key-cases test_keys 3 "alice" "example.org" two_keys

-- the signing succeeds
signing : (verify_and_sign_user_key test_keys 3 "alice" "example.org" two_keys).0 ≡ ok tt
unfolding verify_and_sign_user_key
signing = refl

run_all-IsEntry_example : All IsEntry (run_all operations with_domain).user_keys
run_all-IsEntry_example = run_all-IsEntry operations with_domain tt

-- the key of one manager is signed, and the other has no domain
validate_trust_chain-claimed_example :
    (validate_trust_chain
      (record with_domain {
        user_keys = ("alice", record claimed { domain_signature = some signature }) ∷ [];
      })
      "alice#main-key"
      5).0
    ≡ (validate_trust_chain
        (record new_manager { user_keys = ("alice", claimed) ∷ [] })
        "alice#main-key"
        6).0
validate_trust_chain-claimed_example =
    validate_trust_chain-claimed
      (record with_domain {
        user_keys = ("alice", record claimed { domain_signature = some signature }) ∷ [];
      })
      (record new_manager { user_keys = ("alice", claimed) ∷ [] }) "alice#main-key" 5 6 refl

pem_to_der-der_to_pem_example :
    pem_to_der test_keys (der_to_pem test_keys (1 ∷ 2 ∷ []) "PUBLIC KEY") ≡ ok (1 ∷ 2 ∷ [])
pem_to_der-der_to_pem_example =
    pem_to_der-der_to_pem test_keys (1 ∷ 2 ∷ []) "PUBLIC KEY"
      (refl, (refl, (refl, (refl, (refl, (refl, (refl, (refl, (refl, (refl, tt))))))))))
      (refl, (refl, (refl, (refl, tt)))) refl
