-- ===== src/Pki/Manager.antt =====
-- `PkiManager`: the keys that it holds, their signing and the trust chains.
pub mod Trust
use oxifed.Base.{
  ℕ, ◌+◌, ltb, ◌==◌, ◌⧺◌, String, Bool, true, false, Option, none, some, is_some, not, map_option,
  List, [], ◌∷◌, ◌++◌, Result, ok, err, map_err, find, if◌then◌else◌, and_then,
}
use oxifed.Vocab.{lookup}
use oxifed.Signature.Types.{DateTime}
use oxifed.Pki.{
  PkiError, key_generation_error, key_not_found_error, TrustLevel, unverified, domain_verified,
  KeyAlgorithm, KeyPair, DomainSignature, UserKeyInfo, MasterKeyInfo, MasterSignature,
  DomainKeyInfo, TrustChainLink, TrustChain, KeyCrates,
}
use oxifed.Pki.Keys.{display, key_id_of, generate, sign}

-- A `HashMap` by its entries, in the order in which it yields them. The field `instance_keys`, which
-- the module never reads, is left out.
pub record PkiManager : Type 0 where
  pub master_key : Option MasterKeyInfo
  pub domain_keys : List (String × DomainKeyInfo)
  pub user_keys : List (String × UserKeyInfo)

-- `PkiManager::new()`
abbrev pub new_manager : PkiManager
new_manager = record { master_key = none; domain_keys = []; user_keys = [] }

-- `HashMap::insert`
unfoldable pub insert_key {ℓ} : {V : Type ℓ} → String → V → List (String × V) → List (String × V)
insert_key k v [] = (k, v) ∷ []
insert_key k v ((j, w) ∷ m) =
    let rest = insert_key k v m in if j == k then (j, v) ∷ m else (j, w) ∷ rest

unfoldable pub new_unverified : DateTime → String → KeyPair → UserKeyInfo
unfolding key_id_of
new_unverified now actor_id key_pair = record {
  actor_id = actor_id;
  key_id = key_id_of actor_id;
  public_key = key_pair.public_key;
  private_key = some key_pair.private_key;
  domain_signature = none;
  trust_level = unverified;
  created_at = now;
  expires_at = none;
}

unfoldable pub upgrade_trust : UserKeyInfo → DomainSignature → UserKeyInfo
upgrade_trust key signature = record key {
  domain_signature = some signature;
  trust_level = domain_verified;
}

unfoldable pub is_expired : DateTime → UserKeyInfo → Bool
is_expired now key = elim key.expires_at [ none ↦ false | some expires_at ↦ ltb expires_at now ]

-- the link of a user key, of the domain key of its signature, and of the master key
unfoldable pub user_link : UserKeyInfo → TrustChainLink
user_link key = record {
  level = "user";
  key_id = key.key_id;
  signed_by = map_option (λ (s : DomainSignature). s.domain_key_id) key.domain_signature;
  signed_at = map_option (λ (s : DomainSignature). s.signed_at) key.domain_signature;
  self_signed = not (is_some key.domain_signature);
  created_at = key.created_at;
}

unfoldable pub domain_link : DomainKeyInfo → TrustChainLink
domain_link key = record {
  level = "domain";
  key_id = key.key_id;
  signed_by = map_option (λ (s : MasterSignature). s.master_key_id) key.master_signature;
  signed_at = map_option (λ (s : MasterSignature). s.signed_at) key.master_signature;
  self_signed = not (is_some key.master_signature);
  created_at = key.created_at;
}

unfoldable pub master_link : MasterKeyInfo → TrustChainLink
master_link key = record {
  level = "master";
  key_id = key.key_id;
  signed_by = none;
  signed_at = none;
  self_signed = true;
  created_at = key.created_at;
}

abbrev pub link_of {ℓ} : {A : Type ℓ} → (A → TrustChainLink) → Option A → List TrustChainLink
link_of f none = []
link_of f (some a) = f a ∷ []

-- `values().find(…)`
abbrev pub find_key : List (String × UserKeyInfo) → String → Option UserKeyInfo
find_key keys key_id =
    map_option (λ e. e.1) (find (λ (e : String × UserKeyInfo). e.1.key_id == key_id) keys)

unfoldable pub chain_of : PkiManager → UserKeyInfo → List TrustChainLink
unfolding user_link domain_link master_link lookup
chain_of manager key =
    user_link key
      ∷ link_of domain_link (
          and_then key.domain_signature
            (λ (s : DomainSignature). lookup s.domain manager.domain_keys))
    ++ link_of master_link manager.master_key

unfoldable pub build_trust_chain : PkiManager → String → DateTime → Result PkiError TrustChain
unfolding chain_of
build_trust_chain manager key_id now = elim (find_key manager.user_keys key_id) [
  | none ↦ err (key_not_found_error ("Key " ⧺ key_id ⧺ " not found"))
  | some key ↦ ok (record {
    key_id = key_id;
    trust_level = key.trust_level;
    verification_chain = chain_of manager key;
    verified_at = now;
  })
]

-- what a round of the loop over the links logs: the signer and the key that it has signed
unfoldable pub logged : TrustChainLink → List (String × String)
logged link = elim link.self_signed [
  | true ↦ []
  | false ↦ elim link.signed_by [
    | none ↦ []
    | some signer_key_id ↦ (signer_key_id, link.key_id) ∷ []
  ]
]

unfoldable pub log_links : List TrustChainLink → List (String × String)
unfolding logged
log_links [] = []
log_links (link ∷ links) = logged link ++ log_links links

-- the result, and what is logged
unfoldable pub validate_trust_chain :
    PkiManager → String → DateTime → Result PkiError TrustLevel × List (String × String)
unfolding build_trust_chain log_links
validate_trust_chain manager key_id now = elim (build_trust_chain manager key_id now) [
  | err e ↦ (err e, [])
  | ok chain ↦ (ok chain.trust_level, log_links chain.verification_chain)
]

-- An operation returns its result and the manager after it.
unfoldable pub import_user_key :
    DateTime → String → KeyPair → PkiManager → Result PkiError UserKeyInfo × PkiManager
unfolding new_unverified insert_key
import_user_key now actor_id key_pair manager =
    let key = new_unverified now actor_id key_pair in
    (ok key, record manager { user_keys = insert_key actor_id key manager.user_keys })

module _ (crates : KeyCrates) where
  unfoldable pub generate_user_key :
      DateTime → String → KeyAlgorithm → PkiManager → Result PkiError UserKeyInfo × PkiManager
  unfolding generate display import_user_key
  generate_user_key now actor_id algorithm manager = elim (generate crates algorithm) [
    | err e ↦ (err (key_generation_error ("Failed to generate key pair: " ⧺ display e)), manager)
    | ok pair ↦ import_user_key now actor_id pair manager
  ]

  abbrev pub signature_by : DateTime → String → DomainKeyInfo → String → DomainSignature
  signature_by now domain key signature = record {
    domain = domain;
    signature = signature;
    signed_at = now;
    domain_key_id = key.key_id;
    verification_chain = key.key_id ∷ [];
  }

  -- for keys that have been found
  unfoldable pub sign_user_key :
      DateTime
      → String
      → String
      → DomainKeyInfo
      → UserKeyInfo
      → PkiManager
      → Result PkiError (Unit {0}) × PkiManager
  unfolding sign upgrade_trust insert_key
  sign_user_key now actor_id domain domain_key user_key manager =
      elim (sign crates
        (record { public_key = domain_key.public_key; private_key = domain_key.private_key })
        (user_key.key_id ⧺ ":" ⧺ user_key.public_key.fingerprint)) [
          | err e ↦ (err e, manager)
          | ok signature ↦ (
            ok tt,
            record manager {
              user_keys =
                  insert_key actor_id
                    (upgrade_trust user_key (signature_by now domain domain_key signature))
                    manager.user_keys;
            },
          )
        ]

  unfoldable pub verify_and_sign_user_key :
      DateTime → String → String → PkiManager → Result PkiError (Unit {0}) × PkiManager
  unfolding sign_user_key lookup
  verify_and_sign_user_key now actor_id domain manager = elim (lookup domain manager.domain_keys) [
    | none ↦ (err (key_not_found_error ("Domain key for " ⧺ domain ⧺ " not found")), manager)
    | some domain_key ↦ elim (lookup actor_id manager.user_keys) [
      | none ↦ (err (key_not_found_error ("User key for " ⧺ actor_id ⧺ " not found")), manager)
      | some user_key ↦ sign_user_key now actor_id domain domain_key user_key manager
    ]
  ]

-- A change to the keys of the users.
pub data KeyOperation : Type 0 where
  generated : DateTime → String → KeyAlgorithm → KeyOperation
  imported : DateTime → String → KeyPair → KeyOperation
  signed : DateTime → (actor_id domain : String) → KeyOperation

unfoldable pub run : KeyCrates → KeyOperation → PkiManager → PkiManager
unfolding generate_user_key import_user_key verify_and_sign_user_key
run crates (generated now actor_id algorithm) manager =
    (generate_user_key crates now actor_id algorithm manager).1
run crates (imported now actor_id pair) manager = (import_user_key now actor_id pair manager).1
run crates (signed now actor_id domain) manager =
    (verify_and_sign_user_key crates now actor_id domain manager).1

-- each operation with its randomness
unfoldable pub run_all : List (KeyCrates × KeyOperation) → PkiManager → PkiManager
unfolding run
run_all [] manager = manager
run_all ((crates, operation) ∷ operations) manager =
    run_all operations (run crates operation manager)
