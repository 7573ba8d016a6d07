-- ===== src/Signature/Verify/Accepts.antt =====
-- What a request has shown when `verify_request` accepts it, and that nothing less is accepted.
use oxifed.Base.{
  ◌+◌, ◌*◌, ◌≤◌, String, ℤ, pos_part, neg_part, ◌≡◌, refl, ◌↔◌, true, Option, none, some, List, [],
  ◌∷◌, Bool, >>=-eq-ok, >>-eq-ok, map_err, ok, arith, eq_iff, All, all,
}
use oxifed.Vocab.{UrlLib}
use oxifed.Signature.Types.{
  ComponentIdentifier, DateTime, second, VerificationConfig, Signature, Crates, Request, Bytes,
  base64_error,
}
use oxifed.Signature.Parse.{from_request}
use oxifed.Signature.SignatureBase.{create_signature_base}
use oxifed.Signature.Crypto.{verify_signature}
use oxifed.Signature.Verify.{
  contains_component, check_age, check_key_id, check_expires, check_required, verify_request,
}

-- No age limit, or a creation time at most 30 seconds ahead and at most `max_age` whole seconds
-- behind.
abbrev pub IsFresh : (crates : Crates) → Option ℤ → Option DateTime → DateTime → Type 0
IsFresh crates none created now = Unit
IsFresh crates (some max_age) none now = ⊥
IsFresh crates (some max_age) (some created) now =
    (created ≤ now + 30 * second)
    × (pos_part (crates.timestamp now) + neg_part (crates.timestamp created) + neg_part max_age
        ≤ pos_part (crates.timestamp created) + neg_part (crates.timestamp now) + pos_part max_age)

abbrev pub IsUnexpired : Option DateTime → DateTime → Type 0
IsUnexpired none later = Unit
IsUnexpired (some expires) later = later ≤ expires

abbrev pub HasKeyId : Option String → Option String → Type 0
HasKeyId none given = Unit
HasKeyId (some expected) given = given ≡ some expected

abbrev pub Covers : List ComponentIdentifier → Option (List ComponentIdentifier) → Type 0
Covers components none = Unit
Covers components (some required) = All (λ c. contains_component components c ≡ true) required

module _ (crates : Crates) (urls : UrlLib) (now later : DateTime) (req : Request crates)
    (config : VerificationConfig) where
  pub record IsAccepted : Type 0 where
    pub signature : Signature
    pub parsed : from_request crates req ≡ ok signature
    pub fresh : IsFresh crates config.max_age signature.parameters.created now
    pub unexpired : IsUnexpired signature.parameters.expires later
    pub key_id : HasKeyId config.expected_key_id signature.parameters.key_id
    pub covers : Covers signature.components config.required_components
    pub base : String
    pub rebuilt :
        create_signature_base crates urls req signature.components signature.parameters ≡ ok base
    pub bytes : Bytes
    pub decoded : crates.decode signature.signature ≡ ok bytes
    pub verified : crates.verify config.algorithm config.public_key base bytes ≡ true

module _ (crates : Crates) where
  check_age-ok :
      (m : Option ℤ) (c : Option DateTime) (now : DateTime)
      → (check_age crates m c now ≡ ok tt) ↔ IsFresh crates m c now
  unfolding check_age
  check_age-ok none c now = (λ h. tt, λ h. refl)
  check_age-ok (some m) none now = (λ h. cc, λ h. absurd h)
  check_age-ok (some m) (some c) now = (λ h. ground arith, λ h. ground arith)

  verify_signature-ok :
      (base sig : String) (config : VerificationConfig)
      → (verify_signature crates base sig config.algorithm config.public_key ≡ ok tt) ↔ (
          (bytes : Bytes) × (crates.decode sig ≡ ok bytes)
          × (crates.verify config.algorithm config.public_key base bytes ≡ true))
  unfolding verify_signature
  verify_signature-ok base sig config = (
    λ h.
        let (bytes, decoded, checked) = >>=-eq-ok (map_err (crates.decode sig) base64_error) _ h in
        (bytes, ground arith, ground arith),
    λ w. rw w.1 (rw w.2 refl),
  )

check_expires-ok :
    (e : Option DateTime) (later : DateTime) → (check_expires e later ≡ ok tt) ↔ IsUnexpired e later
unfolding check_expires
check_expires-ok none later = (λ h. tt, λ h. refl)
check_expires-ok (some e) later = (λ h. ground arith, λ h. ground arith)

check_key_id-ok : (e given : Option String) → (check_key_id e given ≡ ok tt) ↔ HasKeyId e given
unfolding check_key_id
check_key_id-ok none given = (λ h. tt, λ h. refl)
check_key_id-ok (some e) none = (λ h. cc, λ h. cc)
check_key_id-ok (some e) (some g) =
    (λ h. ground (arith, eq_iff g e), λ h. ground (arith, eq_iff g e))

all_iff : {A : Type 0} (p : A → Bool) (xs : List A) → (all p xs ≡ true) ↔ All (λ x. p x ≡ true) xs
all_iff p [] = (λ h. tt, λ h. refl)
all_iff p (x ∷ xs) = (λ h. ground (arith, (all_iff p xs).0), λ h. ground (arith, (all_iff p xs).1))

check_required-ok :
    (r : Option (List ComponentIdentifier)) (cs : List ComponentIdentifier)
    → (check_required r cs ≡ ok tt) ↔ Covers cs r
unfolding check_required
check_required-ok none cs = (λ h. tt, λ h. refl)
check_required-ok (some r) cs = (
  λ h. (all_iff (contains_component cs) r).0 (ground arith),
  λ h. rw ((all_iff (contains_component cs) r).1 h) refl,
)

module _ (crates : Crates) (urls : UrlLib) (now later : DateTime) (req : Request crates)
    (config : VerificationConfig) where
  accepted-IsAccepted :
      verify_request crates urls now later req config ≡ ok tt
      → IsAccepted crates urls now later req config
  unfolding verify_request
  accepted-IsAccepted h =
      let (sig, parsed, h₁) = >>=-eq-ok (from_request crates req) _ h in
      let (age, h₂) = >>-eq-ok (check_age crates config.max_age sig.parameters.created now) _ h₁ in
      let (unexpired, h₃) = >>-eq-ok (check_expires sig.parameters.expires later) _ h₂ in
      let (key, h₄) = >>-eq-ok (check_key_id config.expected_key_id sig.parameters.key_id) _ h₃ in
      let (required, h₅) =
        >>-eq-ok (check_required config.required_components sig.components) _ h₄ in
      let (base, rebuilt, h₆) =
        >>=-eq-ok (create_signature_base crates urls req sig.components sig.parameters) _ h₅ in
      let (bytes, decoded, verified) =
        (verify_signature-ok crates base sig.signature config).0 h₆ in
      record {
        signature = sig;
        parsed = parsed;
        fresh = (check_age-ok crates config.max_age sig.parameters.created now).0 age;
        unexpired = (check_expires-ok sig.parameters.expires later).0 unexpired;
        key_id = (check_key_id-ok config.expected_key_id sig.parameters.key_id).0 key;
        covers = (check_required-ok config.required_components sig.components).0 required;
        base = base;
        rebuilt = rebuilt;
        bytes = bytes;
        decoded = decoded;
        verified = verified;
      }

  IsAccepted-accepted :
      IsAccepted crates urls now later req config
      → verify_request crates urls now later req config ≡ ok tt
  unfolding verify_request
  IsAccepted-accepted a =
      let p = a.signature.parameters in
      rw a.parsed (
        rw ((check_age-ok crates config.max_age p.created now).1 a.fresh) (
          rw ((check_expires-ok p.expires later).1 a.unexpired) (
            rw ((check_key_id-ok config.expected_key_id p.key_id).1 a.key_id) (
              rw ((check_required-ok config.required_components a.signature.components).1 a.covers)
                (rw a.rebuilt (
                  (verify_signature-ok crates a.base a.signature.signature config).1
                    (a.bytes, a.decoded, a.verified)))))))

  -- A request is accepted exactly when its two headers parse to a signature that is fresh at the
  -- first reading of the clock and not expired at the second, has the expected key id, covers
  -- every required component, and verifies under the configured key and algorithm over the base
  -- that is rebuilt from the request itself. A limit on the age also demands a creation time, and
  -- an expected key id a key id.
  pub verify_request-accepts_iff :
      (verify_request crates urls now later req config ≡ ok tt)
      ↔ IsAccepted crates urls now later req config
  verify_request-accepts_iff = (accepted-IsAccepted, IsAccepted-accepted)
