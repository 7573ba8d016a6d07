-- ===== src/Pki/Manager/Trust.antt =====
-- The trust levels of the keys that a manager holds, and what validation looks at.
use oxifed.Base.{
  ◌≡◌, refl, sym, ap, subst, String, none, some, false, ◌∙◌, ◌⊎◌, inl, inr, Option, Result, List,
  [], ◌∷◌, map, map_option, ok, err, All, if◌then◌else◌, ◌==◌, ◌⧺◌, eq_iff, eq_refl, arith,
  Result-cases, Option-cases, Bool-cases,
}
use oxifed.Vocab.{lookup}
use oxifed.Signature.Types.{DateTime}
use oxifed.Pki.{
  PkiError, key_not_found_error, KeyAlgorithm, TrustLevel, unverified, domain_verified, KeyPair,
  DomainSignature, UserKeyInfo, DomainKeyInfo, KeyCrates,
}
use oxifed.Pki.Keys.{key_id_of, generate, sign}
use oxifed.Pki.Manager.{
  PkiManager, insert_key, new_unverified, upgrade_trust, validate_trust_chain, build_trust_chain,
  find_key, import_user_key, generate_user_key, signature_by, sign_user_key,
  verify_and_sign_user_key, KeyOperation, generated, imported, signed, run, run_all,
}

-- A key is stored under its actor, is named after it, and is verified by a domain if and only if it
-- has the signature of one.
abbrev pub IsEntry : String × UserKeyInfo → Type 0
IsEntry (k, key) =
    (key.actor_id ≡ k)
    × (key.key_id ≡ key_id_of k)
    × (((key.domain_signature ≡ none) × (key.trust_level ≡ unverified))
        ⊎ ((s : DomainSignature) × (key.domain_signature ≡ some s)
            × (key.trust_level ≡ domain_verified)))

lookup-IsEntry :
    (k : String) (v : UserKeyInfo) (m : List (String × UserKeyInfo))
    → lookup k m ≡ some v
    → All IsEntry m
    → IsEntry (k, v)
unfolding lookup
lookup-IsEntry k v [] h a = absurd (ground arith)
lookup-IsEntry k v ((j, w) ∷ m) h (p, a) = elim (Bool-cases (j == k)) [
  | inl same ↦
      let e : w ≡ v = ground arith in
      subst (λ (x : String). IsEntry (x, v)) ((eq_iff j k).0 same) (subst (λ x. IsEntry (j, x)) e p)
  | inr differs ↦ lookup-IsEntry k v m (ground arith) a
]

insert_key-All :
    (k : String) (v : UserKeyInfo) (m : List (String × UserKeyInfo))
    → IsEntry (k, v)
    → All IsEntry m
    → All IsEntry (insert_key k v m)
unfolding insert_key
insert_key-All k v [] p a = (p, tt)
insert_key-All k v ((j, w) ∷ m) p (q, a) = elim (Bool-cases (j == k)) [
  | inl same ↦
      rw (same, insert_key)
        (subst (λ (x : String). IsEntry (x, v)) (sym ((eq_iff j k).0 same)) p, a)
  | inr differs ↦ rw (differs, insert_key) (q, insert_key-All k v m p a)
]

lookup-insert_key :
    (i k : String) (v : UserKeyInfo) (m : List (String × UserKeyInfo))
    → lookup i (insert_key k v m) ≡ (if k == i then some v else lookup i m)
unfolding lookup insert_key
lookup-insert_key i k v [] = refl
lookup-insert_key i k v ((j, w) ∷ m) = elim (Bool-cases (j == k)) [
  | inl same ↦ let e = (eq_iff j k).0 same in ground (arith, eq_refl k)
  | inr differs ↦ ground (arith, lookup-insert_key i k v m, eq_iff j i, eq_iff k i)
]

new_unverified-IsEntry :
    (now : DateTime) (k : String) (pair : KeyPair) → IsEntry (k, new_unverified now k pair)
unfolding new_unverified
new_unverified-IsEntry now k pair = (refl, refl, inl (refl, refl))

upgrade_trust-IsEntry :
    (k : String) (key : UserKeyInfo) (s : DomainSignature)
    → IsEntry (k, key)
    → IsEntry (k, upgrade_trust key s)
unfolding upgrade_trust
upgrade_trust-IsEntry k key s (p, q, _) = (p, q, inr (s, refl, refl))

import_user_key-All :
    (now : DateTime) (k : String) (pair : KeyPair) (m : PkiManager)
    → All IsEntry m.user_keys
    → All IsEntry (import_user_key now k pair m).1.user_keys
unfolding import_user_key
import_user_key-All now k pair m a =
    insert_key-All k (new_unverified now k pair) m.user_keys (new_unverified-IsEntry now k pair) a

module _ (crates : KeyCrates) where
  generate_user_key-cases :
      (now : DateTime) (k : String) (algorithm : KeyAlgorithm) (m : PkiManager)
      → ((generate_user_key crates now k algorithm m).1 ≡ m)
        ⊎ ((pair : KeyPair) × ((generate_user_key crates now k algorithm m).1
              ≡ (import_user_key now k pair m).1))
  unfolding generate_user_key
  generate_user_key-cases now k algorithm m = elim (Result-cases (generate crates algorithm)) [
    | inr (e, failed) ↦ inl (ground arith)
    | inl (pair, made) ↦ inr (pair, rw (made, generate_user_key) refl)
  ]

  -- What a signature that was made has changed, from `m` to `m'`.
  record IsSigning (now : DateTime) (actor_id domain : String) (m m' : PkiManager) : Type 0 where
    domain_key : DomainKeyInfo
    user_key : UserKeyInfo
    signature : String
    domain_known : lookup domain m.domain_keys ≡ some domain_key
    user_known : lookup actor_id m.user_keys ≡ some user_key
    made :
        sign crates
          (record { public_key = domain_key.public_key; private_key = domain_key.private_key })
          (user_key.key_id ⧺ ":" ⧺ user_key.public_key.fingerprint)
        ≡ ok signature
    changed : m' ≡ record m {
      user_keys =
          insert_key actor_id
            (upgrade_trust user_key (signature_by crates now domain domain_key signature))
            m.user_keys;
    }

  sign_user_key-cases :
      (now : DateTime) (k domain : String) (dk : DomainKeyInfo) (uk : UserKeyInfo) (m : PkiManager)
      → lookup domain m.domain_keys ≡ some dk
      → lookup k m.user_keys ≡ some uk
      → ((e : PkiError) × (sign_user_key crates now k domain dk uk m ≡ (err e, m)))
        ⊎ (((sign_user_key crates now k domain dk uk m).0 ≡ ok tt)
            × IsSigning now k domain m (sign_user_key crates now k domain dk uk m).1)
  unfolding sign_user_key
  sign_user_key-cases now k domain dk uk m h g =
      elim (Result-cases (
        sign crates (record { public_key = dk.public_key; private_key = dk.private_key })
          (uk.key_id ⧺ ":" ⧺ uk.public_key.fingerprint))) [
            | inr (e, failed) ↦ inl (e, ground arith)
            | inl (signature, made) ↦ inr (
              ground arith,
              record {
                domain_key = dk;
                user_key = uk;
                signature = signature;
                domain_known = h;
                user_known = g;
                made = made;
                changed = rw (made, sign_user_key) refl;
              },
            )
          ]

  verify_and_sign_user_key-IsSigning :
      (now : DateTime) (actor_id domain : String) (m : PkiManager)
      → ((e : PkiError) × (verify_and_sign_user_key crates now actor_id domain m ≡ (err e, m)))
        ⊎ (((verify_and_sign_user_key crates now actor_id domain m).0 ≡ ok tt)
            × IsSigning now actor_id domain m
                (verify_and_sign_user_key crates now actor_id domain m).1)
  unfolding verify_and_sign_user_key
  verify_and_sign_user_key-IsSigning now actor_id domain m =
      elim (Option-cases (lookup domain m.domain_keys)) [
        | inl unknown ↦ inl (
          key_not_found_error ("Domain key for " ⧺ domain ⧺ " not found"),
          rw (unknown, verify_and_sign_user_key) refl,
        )
        | inr (dk, domain_known) ↦ elim (Option-cases (lookup actor_id m.user_keys)) [
          | inl unknown ↦ inl (
            key_not_found_error ("User key for " ⧺ actor_id ⧺ " not found"),
            rw (domain_known, verify_and_sign_user_key)
                (rw (unknown, verify_and_sign_user_key) refl),
          )
          | inr (uk, user_known) ↦
              let same : verify_and_sign_user_key crates now actor_id domain m
                  ≡ sign_user_key crates now actor_id domain dk uk m =
                rw (domain_known, verify_and_sign_user_key)
                  (rw (user_known, verify_and_sign_user_key) refl) in
              rw same (sign_user_key-cases now actor_id domain dk uk m domain_known user_known)
        ]
      ]

  -- The key of a user that a domain has signed, and all else as it was.
  pub record IsSigned (now : DateTime) (actor_id domain : String) (m m' : PkiManager) : Type 0 where
    pub domain_key : DomainKeyInfo
    pub user_key : UserKeyInfo
    pub signature : String
    pub domain_known : lookup domain m.domain_keys ≡ some domain_key
    pub user_known : lookup actor_id m.user_keys ≡ some user_key
    pub made :
        sign crates
          (record { public_key = domain_key.public_key; private_key = domain_key.private_key })
          (user_key.key_id ⧺ ":" ⧺ user_key.public_key.fingerprint)
        ≡ ok signature
    pub signed_key :
        lookup actor_id m'.user_keys
        ≡ some (record user_key {
          domain_signature = some (record {
            domain = domain;
            signature = signature;
            signed_at = now;
            domain_key_id = domain_key.key_id;
            verification_chain = domain_key.key_id ∷ [];
          });
          trust_level = domain_verified;
        })
    pub other_keys :
        (i : String) → (actor_id == i) ≡ false → lookup i m'.user_keys ≡ lookup i m.user_keys
    pub domain_keys : m'.domain_keys ≡ m.domain_keys
    pub master_key : m'.master_key ≡ m.master_key

  IsSigning-IsSigned :
      (now : DateTime) (k domain : String) (m m' : PkiManager)
      → IsSigning now k domain m m'
      → IsSigned now k domain m m'
  unfolding upgrade_trust
  IsSigning-IsSigned now k domain m m' g =
      let key =
        upgrade_trust g.user_key (signature_by crates now domain g.domain_key g.signature) in
      let keys = ap (λ (x : PkiManager). x.user_keys) g.changed in
      record {
        domain_key = g.domain_key;
        user_key = g.user_key;
        signature = g.signature;
        domain_known = g.domain_known;
        user_known = g.user_known;
        made = g.made;
        signed_key =
            ap (lookup k) keys ∙ (lookup-insert_key k k key m.user_keys ∙ rw (eq_refl k) refl);
        other_keys = λ i differs.
            ap (lookup i) keys ∙ (lookup-insert_key i k key m.user_keys ∙ rw differs refl);
        domain_keys = ap (λ (x : PkiManager). x.domain_keys) g.changed;
        master_key = ap (λ (x : PkiManager). x.master_key) g.changed;
      }

  -- Signing a user's key either fails and changes nothing, or the domain and the user have keys,
  -- the domain key has signed the id and the fingerprint of the user's key, and this key is stored
  -- with the signature, the domain, the id of the domain key and the time, and with the level of a
  -- domain-verified key; the keys of other users, of domains and of the master are as before.
  pub verify_and_sign_user_key-cases :
      (now : DateTime) (actor_id domain : String) (m : PkiManager)
      → ((e : PkiError) × (verify_and_sign_user_key crates now actor_id domain m ≡ (err e, m)))
        ⊎ (((verify_and_sign_user_key crates now actor_id domain m).0 ≡ ok tt)
            × IsSigned now actor_id domain m
                (verify_and_sign_user_key crates now actor_id domain m).1)
  verify_and_sign_user_key-cases now actor_id domain m =
      elim (verify_and_sign_user_key-IsSigning now actor_id domain m) [
        | inl failed ↦ inl failed
        | inr (done, g) ↦ inr (done, IsSigning-IsSigned now actor_id domain m _ g)
      ]

  run-All :
      (operation : KeyOperation) (m : PkiManager)
      → All IsEntry m.user_keys
      → All IsEntry (run crates operation m).user_keys
  unfolding run
  run-All (generated now k algorithm) m a = elim (generate_user_key-cases now k algorithm m) [
    | inl same ↦ rw same a
    | inr (pair, stored) ↦ rw stored (import_user_key-All now k pair m a)
  ]
  run-All (imported now k pair) m a = import_user_key-All now k pair m a
  run-All (signed now k domain) m a = elim (verify_and_sign_user_key-IsSigning now k domain m) [
    | inl (e, failed) ↦
        subst (λ (x : PkiManager). All IsEntry x.user_keys) (sym (ap (λ r. r.1) failed)) a
    | inr (_, done) ↦
        subst (λ (x : PkiManager). All IsEntry x.user_keys) (sym done.changed)
          (insert_key-All k _ m.user_keys
            (upgrade_trust-IsEntry k done.user_key _
              (lookup-IsEntry k done.user_key m.user_keys done.user_known a))
            a)
  ]

-- After any operations on the keys of users, each key is stored under its actor and named after it,
-- and has the level of a domain-verified key exactly if it has the signature of a domain, else the
-- lowest level: no operation gives a higher one.
pub run_all-IsEntry :
    (operations : List (KeyCrates × KeyOperation)) (m : PkiManager)
    → All IsEntry m.user_keys
    → All IsEntry (run_all operations m).user_keys
unfolding run_all
run_all-IsEntry [] m a = a
run_all-IsEntry ((crates, operation) ∷ operations) m a =
    run_all-IsEntry operations (run crates operation m) (run-All crates operation m a)

-- what an entry says of its own key
abbrev pub claim : String × UserKeyInfo → String × TrustLevel
claim (k, key) = (key.key_id, key.trust_level)

-- Keys that are found under the same id in entries that claim the same.
find_key-claim :
    (a b : List (String × UserKeyInfo)) (key_id : String)
    → map claim a ≡ map claim b
    → map_option (λ (x : UserKeyInfo). x.trust_level) (find_key a key_id)
      ≡ map_option (λ (x : UserKeyInfo). x.trust_level) (find_key b key_id)
find_key-claim [] [] key_id h = refl
find_key-claim [] (y ∷ b) key_id h = cc
find_key-claim (x ∷ a) [] key_id h = cc
find_key-claim (x ∷ a) (y ∷ b) key_id h =
    let same : claim x ≡ claim y = cc in
    let rest : map claim a ≡ map claim b = cc in
    let id : x.1.key_id ≡ y.1.key_id = ap (λ p. p.0) same in
    let level : x.1.trust_level ≡ y.1.trust_level = ap (λ p. p.1) same in
    elim (Bool-cases (y.1.key_id == key_id)) [
      | inl own ↦ rw (id, own) (ap some level)
      | inr other ↦ rw (id, other) (find_key-claim a b key_id rest)
    ]

-- the answer is told by the level of the key that is found
abbrev answer_of : String → Option TrustLevel → Result PkiError TrustLevel
answer_of key_id none = err (key_not_found_error ("Key " ⧺ key_id ⧺ " not found"))
answer_of key_id (some level) = ok level

validate_trust_chain-answer_of :
    (m : PkiManager) (key_id : String) (now : DateTime)
    → (validate_trust_chain m key_id now).0
      ≡ answer_of key_id
          (map_option (λ (x : UserKeyInfo). x.trust_level) (find_key m.user_keys key_id))
unfolding validate_trust_chain build_trust_chain
validate_trust_chain-answer_of m key_id now = elim (Option-cases (find_key m.user_keys key_id)) [
  | inl missing ↦ rw (missing, validate_trust_chain, build_trust_chain, answer_of) refl
  | inr (key, found) ↦ rw (found, validate_trust_chain, build_trust_chain, answer_of) refl
]

-- The validation of a trust chain looks at no signature: between two managers whose user keys have
-- the same ids and claim the same levels, in the same order, it gives the same answer for every key,
-- whatever signatures, public keys and times these keys have, and whatever domain keys and master
-- key there are, if any.
pub validate_trust_chain-claimed :
    (m m' : PkiManager) (key_id : String) (now now' : DateTime)
    → map claim m.user_keys ≡ map claim m'.user_keys
    → (validate_trust_chain m key_id now).0 ≡ (validate_trust_chain m' key_id now').0
validate_trust_chain-claimed m m' key_id now now' h =
    validate_trust_chain-answer_of m key_id now
    ∙ ap (answer_of key_id) (find_key-claim m.user_keys m'.user_keys key_id h)
    ∙ sym (validate_trust_chain-answer_of m' key_id now')
