-- ===== src/Signature/Components.antt =====
-- Names of components and algorithms, written and read back.
use oxifed.Base.{
  String, ◌≡◌, refl, ◌↔◌, ◌≢◌, true, false, List, [], ◌∷◌, some, sym, ◌∙◌, subst, inl, inr,
  Bool-cases, not, split_once, trim, ok_or, fail_if, >>-eq-ok, ok, arith, ◌==◌, eq_iff, starts_with,
  to_lowercase, to_lowercase_idem, >>=-eq-ok, All, any,
}
use oxifed.Vocab.{UrlLib}
use oxifed.Signature.Types.{
  SignatureAlgorithm, rsa_sha256, rsa_pss_sha512, ecdsa_p256_sha256, ed25519, as_str,
  algorithm_from_str, ComponentIdentifier, header, method, target_uri, request_target, path, query,
  status, digest, canonical_name, Signature, invalid_signature_format, missing_signature_components,
  component_from_str, DateTime, VerificationConfig, Crates, Request,
}
use mathlib.Core.Bool.{false≢true}
use oxifed.Signature.Parse.{
  is_empty, at_semicolon, parsed_parameters, header_text, parse_components, from_request,
}
use oxifed.Signature.Verify.{same_component, contains_component, verify_request}
use oxifed.Signature.Verify.Accepts.{Covers, verify_request-accepts_iff}

pub from_str-as_str : (a : SignatureAlgorithm) → algorithm_from_str (as_str a) ≡ ok a
unfolding algorithm_from_str as_str
from_str-as_str rsa_sha256 = refl
from_str-as_str rsa_pss_sha512 = refl
from_str-as_str ecdsa_p256_sha256 = refl
from_str-as_str ed25519 = refl

-- A text is read as an algorithm exactly when it is the name that is written for it, so the four
-- names are the only ones accepted and are pairwise different.
algorithm_from_str_iff :
    (s : String) (a : SignatureAlgorithm) → (algorithm_from_str s ≡ ok a) ↔ (s ≡ as_str a)
unfolding algorithm_from_str as_str
algorithm_from_str_iff s a = (
  λ h. ground (
    arith,
    eq_iff s "ed25519",
    eq_iff s "ecdsa-p256-sha256",
    eq_iff s "rsa-v1_5-sha256",
    eq_iff s "rsa-pss-sha512",
  ),
  λ e. rw e (from_str-as_str a),
)

-- What a written component is read back as.
abbrev pub read_back : ComponentIdentifier → ComponentIdentifier
read_back (header name) = header (to_lowercase name)
read_back digest = header "digest"
read_back c = c

-- A header name that cannot be taken for a derived component.
abbrev pub IsPlain : ComponentIdentifier → Type 0
IsPlain (header name) = starts_with (to_lowercase name) "@" ≡ false
IsPlain _ = Unit

-- The canonical name of a component reads back as the same component, up to the case of a header
-- name that does not begin with '@' in lower case; but `Digest` reads back as the header "digest".
pub component_from_str-canonical_name :
    (c : ComponentIdentifier) → IsPlain c → component_from_str (canonical_name c) ≡ ok (read_back c)
unfolding component_from_str canonical_name
component_from_str-canonical_name (header name) h = rw (h, to_lowercase_idem) refl
component_from_str-canonical_name method h = refl
component_from_str-canonical_name target_uri h = refl
component_from_str-canonical_name request_target h = refl
component_from_str-canonical_name path h = refl
component_from_str-canonical_name query h = refl
component_from_str-canonical_name status h = refl
component_from_str-canonical_name digest h = refl

component_from_str-ne-digest :
    (s : String) (c : ComponentIdentifier)
    → component_from_str s ≡ ok c
    → same_component digest c ≡ false
unfolding component_from_str same_component
component_from_str-ne-digest s c h = ground arith

parse_components-lacks_digest :
    (crates : Crates) (names : List String) (cs : List ComponentIdentifier)
    → parse_components crates names ≡ ok cs
    → contains_component cs digest ≡ false
unfolding parse_components contains_component
parse_components-lacks_digest crates [] cs h = ground arith
parse_components-lacks_digest crates (s ∷ names) cs h =
    let (c, first, h₁) = >>=-eq-ok (component_from_str s) _ h in
    let (rest, others, h₂) = >>=-eq-ok (parse_components crates names) _ h₁ in
    let e : cs ≡ c ∷ rest = cc in
    rw e (
      ground (
        arith,
        component_from_str-ne-digest s c first,
        parse_components-lacks_digest crates names rest others,
      ))

-- The components of a parsed signature never include `Digest`.
from_request-lacks_digest :
    (crates : Crates) (req : Request crates) (sig : Signature)
    → from_request crates req ≡ ok sig
    → contains_component sig.components digest ≡ false
unfolding from_request
from_request-lacks_digest crates req sig h =
    let (input, _, h₁) = >>=-eq-ok (header_text crates req "signature-input") _ h in
    let (value, _, h₂) = >>=-eq-ok (header_text crates req "signature") _ h₁ in
    let (parts, _, h₃) = >>=-eq-ok (ok_or (split_once input b'=') invalid_signature_format) _ h₂ in
    let (sig_parts, _, h₄) =
      >>=-eq-ok (ok_or (split_once value b'=') invalid_signature_format) _ h₃ in
    let (_, h₅) =
      >>-eq-ok (fail_if (not (trim sig_parts.0 == trim parts.0)) invalid_signature_format) _ h₄ in
    let (_, h₆) =
      >>-eq-ok (fail_if (not (starts_with (trim sig_parts.1) ":")) invalid_signature_format) _ h₅ in
    let names = crates.component_captures (at_semicolon (trim parts.1)).0 in
    let (cs, parsed, h₇) = >>=-eq-ok (parse_components crates names) _ h₆ in
    let (_, h₈) = >>-eq-ok (fail_if (is_empty cs) missing_signature_components) _ h₇ in
    let (ps, _, h₉) = >>=-eq-ok (parsed_parameters crates (at_semicolon (trim parts.1)).1) _ h₈ in
    let same : sig.components ≡ cs = ground arith in
    rw same (parse_components-lacks_digest crates names cs parsed)

is_digest : (c : ComponentIdentifier) → same_component digest c ≡ true → c ≡ digest
unfolding same_component
is_digest digest h = refl
is_digest (header name) h = cc
is_digest _ h = cc

Covers-digest :
    (cs required : List ComponentIdentifier)
    → All (λ c. contains_component cs c ≡ true) required
    → any (same_component digest) required ≡ true
    → contains_component cs digest ≡ true
Covers-digest cs [] h k = cc
Covers-digest cs (c ∷ required) (h, hs) k = elim (Bool-cases (same_component digest c)) [
  | inl same ↦ subst (λ x. contains_component cs x ≡ true) (is_digest c same) h
  | inr other ↦ Covers-digest cs required hs (ground arith)
]

-- A configuration that requires the component `Digest` accepts no request at all, signed or not.
digest_required-rejects :
    (crates : Crates) (urls : UrlLib) (now later : DateTime) (req : Request crates)
    (config : VerificationConfig) (required : List ComponentIdentifier)
    → config.required_components ≡ some required
    → any (same_component digest) required ≡ true
    → verify_request crates urls now later req config ≢ ok tt
digest_required-rejects crates urls now later req config required e h accepted =
    let a = (verify_request-accepts_iff crates urls now later req config).0 accepted in
    let covered = subst (Covers a.signature.components) e a.covers in
    false≢true (
      sym (from_request-lacks_digest crates req a.signature a.parsed)
      ∙ Covers-digest a.signature.components required covered h)
