-- ===== src/Commands/Keys.antt =====
-- The documents of a key that is generated, and `handle_key_generate`, of rabbitmq.rs.
use oxifed.Base.{
  ℕ, String, Option, none, some, List, [], ◌∷◌, Result, ok, err, map_option, unwrap_or,
  if◌then◌else◌, ◌==◌, ◌⧺◌, to_lowercase, show, pos,
}
use oxifed.Pki.{PrivateKey, PkiError, KeyAlgorithm, rsa, ed25519, DomainSignature, UserKeyInfo}
use oxifed.Pki.Keys.{display}
use oxifed.Pki.Manager.{new_manager, generate_user_key}
use oxifed.Vocab.{Value, string, array, Elements, dictionary, Entries}
use oxifed.Database.Documents.{PublicKeyDocument, user, active, KeyDocument}
use oxifed.Database.Manager
use oxifed.Commands.Domains.{RabbitMqError, constraint_error, database_error}
use oxifed.Commands.Services.{Services, Command, lift, writes}

pub record KeyGenerateMessage : Type 0 where
  pub actor : String
  pub algorithm : String
  pub key_size : Option ℕ

-- "rsa-2048"
unfoldable pub algorithm_name : KeyAlgorithm → String
unfolding show
algorithm_name (rsa size) = "rsa-" ⧺ show (pos size)
algorithm_name ed25519 = "ed25519"

-- `format!("{:?}", algorithm).to_lowercase()`
unfoldable pub algorithm_text : KeyAlgorithm → String
unfolding show
algorithm_text (rsa size) = "rsa { key_size: " ⧺ show (pos size) ⧺ " }"
algorithm_text ed25519 = "ed25519"

abbrev size_of : KeyAlgorithm → Option ℕ
size_of (rsa size) = some size
size_of ed25519 = none

unfoldable pub public_key_document : ℕ → String → UserKeyInfo → PublicKeyDocument
unfolding algorithm_name
public_key_document now actor_id key = record {
  id = key.key_id;
  owner = actor_id;
  public_key_pem = key.public_key.pem_data;
  algorithm = algorithm_name key.public_key.algorithm;
  key_size = size_of key.public_key.algorithm;
  fingerprint = key.public_key.fingerprint;
  created_at = now;
}

unfoldable pub key_document : Option Value → UserKeyInfo → KeyDocument
unfolding algorithm_text
key_document domain_signature key = record {
  key_id = key.key_id;
  actor_id = key.actor_id;
  key_type = user;
  algorithm = algorithm_text key.public_key.algorithm;
  key_size = size_of key.public_key.algorithm;
  public_key_pem = key.public_key.pem_data;
  private_key_pem = map_option (λ (k : PrivateKey). k.encrypted_pem) key.private_key;
  encryption_algorithm = map_option (λ (k : PrivateKey). k.encryption_algorithm) key.private_key;
  fingerprint = key.public_key.fingerprint;
  trust_level = key.trust_level;
  domain_signature = domain_signature;
  master_signature = none;
  usage = "signing" ∷ [];
  status = active;
  created_at = key.created_at;
  expires_at = key.expires_at;
  domain = none;
}

abbrev strings : List String → Elements
strings [] = Elements.nil
strings (s ∷ ss) = Elements.cons (string s) (strings ss)

-- the document of a domain's signature; a BSON date is a number
abbrev signature_document : DomainSignature → Value
signature_document s = dictionary (
    Entries.entry "domain" (string s.domain) (
      Entries.entry "signature" (string s.signature) (
        Entries.entry "signed_at" (Value.number s.signed_at) (
          Entries.entry "domain_key_id" (string s.domain_key_id) (
            Entries.entry "verification_chain" (array (strings s.verification_chain))
              Entries.end)))))

unfoldable pub requested_algorithm : KeyGenerateMessage → Result RabbitMqError KeyAlgorithm
unfolding to_lowercase
requested_algorithm msg =
    let name = to_lowercase msg.algorithm in
    if name == "rsa"
    then ok (rsa (unwrap_or msg.key_size 2048))
    else if name == "ed25519"
    then ok ed25519
    else err (constraint_error ("Unsupported algorithm: " ⧺ msg.algorithm))

unfoldable pub store_key : Services → Result PkiError UserKeyInfo → Command (Unit {0})
unfolding key_document display
store_key x (err e) = lift (err (constraint_error ("Failed to generate key: " ⧺ display e)))
store_key x (ok key) = writes database_error (
    Manager.insert_key x.drivers
      (key_document (map_option signature_document key.domain_signature) key))

unfoldable pub handle_key_generate : Services → KeyGenerateMessage → Command (Unit {0})
unfolding requested_algorithm store_key generate_user_key
handle_key_generate x msg = elim (requested_algorithm msg) [
  | err e ↦ lift (err e)
  | ok algorithm ↦
      store_key x (generate_user_key x.crates x.env.now msg.actor algorithm new_manager).0
]
