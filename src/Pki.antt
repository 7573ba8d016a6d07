-- ===== src/Pki.antt =====
-- The public key infrastructure of src/pki.rs: its types.
pub mod Keys
pub mod Manager
use oxifed.Base.{ℕ, String, Bool, Option, List, Result}
use oxifed.Signature.Types.{DateTime, Bytes}

pub data PkiError : Type 0 where
  key_generation_error key_parse_error signature_creation_error : String → PkiError
  signature_verification_error trust_chain_error key_not_found_error : String → PkiError
  domain_verification_error serialization_error base64_error : String → PkiError
  invalid_key_format : PkiError
  unsupported_algorithm : String → PkiError

pub data TrustLevel : Type 0 where
  unverified domain_verified master_signed instance_actor : TrustLevel

pub data KeyAlgorithm : Type 0 where
  rsa : (key_size : ℕ) → KeyAlgorithm
  ed25519 : KeyAlgorithm

pub record PublicKey : Type 0 where
  pub algorithm : KeyAlgorithm
  pub pem_data : String
  pub fingerprint : String

pub record PrivateKey : Type 0 where
  pub algorithm : KeyAlgorithm
  pub encrypted_pem : String
  pub encryption_algorithm : String

pub record KeyPair : Type 0 where
  pub public_key : PublicKey
  pub private_key : PrivateKey

pub record DomainSignature : Type 0 where
  pub domain : String
  pub signature : String
  pub signed_at : DateTime
  pub domain_key_id : String
  pub verification_chain : List String

-- `rotation_policy` is always the default, and is left out.
pub record UserKeyInfo : Type 0 where
  pub actor_id : String
  pub key_id : String
  pub public_key : PublicKey
  pub private_key : Option PrivateKey
  pub domain_signature : Option DomainSignature
  pub trust_level : TrustLevel
  pub created_at : DateTime
  pub expires_at : Option DateTime

pub data KeyUsage : Type 0 where
  domain_signing user_signing instance_actor emergency_recovery : KeyUsage

pub record MasterKeyInfo : Type 0 where
  pub key_id : String
  pub public_key : PublicKey
  pub private_key : PrivateKey
  pub created_at : DateTime
  pub fingerprint : String
  pub usage : List KeyUsage

pub record MasterSignature : Type 0 where
  pub signature : String
  pub signed_at : DateTime
  pub master_key_id : String

pub record DomainKeyInfo : Type 0 where
  pub domain : String
  pub key_id : String
  pub public_key : PublicKey
  pub private_key : PrivateKey
  pub created_at : DateTime
  pub expires_at : Option DateTime
  pub master_signature : Option MasterSignature
  pub usage : List KeyUsage

pub record TrustChainLink : Type 0 where
  pub level : String
  pub key_id : String
  pub signed_by : Option String
  pub signed_at : Option DateTime
  pub self_signed : Bool
  pub created_at : DateTime

pub record TrustChain : Type 0 where
  pub key_id : String
  pub trust_level : TrustLevel
  pub verification_chain : List TrustChainLink
  pub verified_at : DateTime

-- What the module uses of the crates `ring`, `rsa`, `sha2`, `hex` and `base64`, at one moment: the
-- randomness is in the functions. An error is its text.
pub record KeyCrates : Type 0 where
  -- a private and a public key of a size, as PEM
  pub generate_rsa : ℕ → Result String (String × String)
  pub generate_pkcs8 : Result String Bytes
  -- the public key of a PKCS#8 document
  pub from_pkcs8 : Bytes → Result String Bytes
  pub sign : Bytes → String → Bytes
  pub sha256_hex : String → String
  pub encode : Bytes → String
  pub decode : String → Result String Bytes
