-- ===== src/Signature/RoundTrip/Names.antt =====
-- The names of signed components, as they are written in `Signature-Input` and read back.
use oxifed.Base.{
  String, Lacks, AllChars, AllChars-append, AllChars-mono, AllChars-Lacks, Lacks-append, ◌≡◌, refl,
  arith, false, List, [], ◌∷◌, map, All, some, starts_with, to_lowercase, to_lowercase_idem, ok,
  ok_or, >>=-eq-ok,
}
use oxifed.Vocab.{UrlLib}
use oxifed.Signature.Types.{
  ComponentIdentifier, header, method, target_uri, request_target, path, query, status, digest,
  canonical_name, Crates, Request, SignatureParameters, invalid_header,
}
use oxifed.Signature.Parse.{parse_components}
use oxifed.Signature.Sign.{quoted_names}
use oxifed.Signature.SignatureBase.{
  component_value, get_component_value, component_lines, create_signature_base,
}
use oxifed.Signature.Components.{read_back, IsPlain, component_from_str-canonical_name}
use oxifed.Signature.RoundTrip.{Laws, is_token_char, is_visible, IsToken, IsQuotable, names_text}

starts_with-lacks : (s : String) → AllChars is_token_char s → starts_with s "@" ≡ false
unfolding starts_with
starts_with-lacks String.[] h = refl
starts_with-lacks (String.◌∷◌ c s) (x, h) = ground arith

-- A header whose name is a token; the other components have no name of their own.
abbrev pub IsNamed : ComponentIdentifier → Type 0
IsNamed (header name) = IsToken (to_lowercase name)
IsNamed _ = Unit

IsNamed-IsPlain : (c : ComponentIdentifier) → IsNamed c → IsPlain c
IsNamed-IsPlain (header name) (a, h) = starts_with-lacks (to_lowercase name) h
IsNamed-IsPlain method h = tt
IsNamed-IsPlain target_uri h = tt
IsNamed-IsPlain request_target h = tt
IsNamed-IsPlain path h = tt
IsNamed-IsPlain query h = tt
IsNamed-IsPlain status h = tt
IsNamed-IsPlain digest h = tt

IsNamed-IsQuotable :
    (c : ComponentIdentifier)
    → IsNamed c
    → IsQuotable (canonical_name c) × Lacks (canonical_name c) b';'
unfolding canonical_name
IsNamed-IsQuotable (header name) (a, h) =
    ((a, AllChars-Lacks is_token_char _ b'"' h refl), AllChars-Lacks is_token_char _ b';' h refl)
IsNamed-IsQuotable method h = ground arith
IsNamed-IsQuotable target_uri h = ground arith
IsNamed-IsQuotable request_target h = ground arith
IsNamed-IsQuotable path h = ground arith
IsNamed-IsQuotable query h = ground arith
IsNamed-IsQuotable status h = ground arith
IsNamed-IsQuotable digest h = ground arith

pub All-IsQuotable :
    (cs : List ComponentIdentifier) → All IsNamed cs → All IsQuotable (map canonical_name cs)
All-IsQuotable [] h = tt
All-IsQuotable (c ∷ cs) (x, h) = ((IsNamed-IsQuotable c x).0, All-IsQuotable cs h)

pub quoted_names-names_text :
    (cs : List ComponentIdentifier) → quoted_names cs ≡ names_text (map canonical_name cs)
unfolding quoted_names
quoted_names-names_text [] = refl
quoted_names-names_text (c ∷ cs) = rw (quoted_names-names_text cs) refl

pub quoted_names-Lacks :
    (cs : List ComponentIdentifier) → All IsNamed cs → Lacks (quoted_names cs) b';'
unfolding quoted_names
quoted_names-Lacks [] h = tt
quoted_names-Lacks (c ∷ cs) (x, h) =
    Lacks-append "\"" _ b';' (refl, tt)
      (Lacks-append _ _ b';' (IsNamed-IsQuotable c x).1
        (Lacks-append "\" " _ b';' (refl, (refl, tt)) (quoted_names-Lacks cs h)))

IsNamed-is_visible : (c : ComponentIdentifier) → IsNamed c → AllChars is_visible (canonical_name c)
unfolding canonical_name
IsNamed-is_visible (header name) (a, h) =
    AllChars-mono is_token_char is_visible _ (λ c k. ground arith) h
IsNamed-is_visible method h = ground arith
IsNamed-is_visible target_uri h = ground arith
IsNamed-is_visible request_target h = ground arith
IsNamed-is_visible path h = ground arith
IsNamed-is_visible query h = ground arith
IsNamed-is_visible status h = ground arith
IsNamed-is_visible digest h = ground arith

pub quoted_names-is_visible :
    (cs : List ComponentIdentifier) → All IsNamed cs → AllChars is_visible (quoted_names cs)
unfolding quoted_names
quoted_names-is_visible [] h = tt
quoted_names-is_visible (c ∷ cs) (x, h) =
    let append = AllChars-append is_visible in
    append "\"" _ (refl, tt)
      (append (canonical_name c) _ (IsNamed-is_visible c x)
        (append "\" " _ (refl, (refl, tt)) (quoted_names-is_visible cs h)))

-- The written names are parsed to the components they stand for.
pub parse_components-canonical_name :
    (crates : Crates) (cs : List ComponentIdentifier)
    → All IsNamed cs
    → parse_components crates (map canonical_name cs) ≡ ok (map read_back cs)
unfolding parse_components
parse_components-canonical_name crates [] h = refl
parse_components-canonical_name crates (c ∷ cs) (x, h) =
    rw
      (
        component_from_str-canonical_name c (IsNamed-IsPlain c x),
        parse_components-canonical_name crates cs h,
      )
      refl

pub canonical_name-read_back :
    (c : ComponentIdentifier) → canonical_name (read_back c) ≡ canonical_name c
unfolding canonical_name
canonical_name-read_back (header name) = to_lowercase_idem name
canonical_name-read_back method = refl
canonical_name-read_back target_uri = refl
canonical_name-read_back request_target = refl
canonical_name-read_back path = refl
canonical_name-read_back query = refl
canonical_name-read_back status = refl
canonical_name-read_back digest = refl

module _ (crates : Crates) (laws : Laws crates) (urls : UrlLib) (req : Request crates) where
  component_value-IsNamed :
      (c : ComponentIdentifier) (v : String) → component_value crates urls req c ≡ ok v → IsNamed c
  unfolding component_value
  component_value-IsNamed (header name) v h =
      let (n, made, _) = >>=-eq-ok (ok_or (crates.header_name name) (invalid_header name)) _ h in
      let found : crates.header_name name ≡ some n = ground arith in
      let (lower, token) = laws.name_made name n found in rw (← lower) token
  component_value-IsNamed method v h = tt
  component_value-IsNamed target_uri v h = tt
  component_value-IsNamed request_target v h = tt
  component_value-IsNamed path v h = tt
  component_value-IsNamed query v h = tt
  component_value-IsNamed status v h = tt
  component_value-IsNamed digest v h = tt

  component_lines-IsNamed :
      (cs : List ComponentIdentifier) (lines : List String)
      → component_lines crates urls req cs ≡ ok lines
      → All IsNamed cs
  unfolding component_lines get_component_value
  component_lines-IsNamed [] lines h = tt
  component_lines-IsNamed (c ∷ cs) lines h =
      let ((n, w), first, h₁) = >>=-eq-ok (get_component_value crates urls req c) _ h in
      let (v, value, _) = >>=-eq-ok (component_value crates urls req c) _ first in
      let (rest, others, _) = >>=-eq-ok (component_lines crates urls req cs) _ h₁ in
      (component_value-IsNamed c v value, component_lines-IsNamed cs rest others)

  -- What could be signed has names that can be read back.
  pub create_signature_base-IsNamed :
      (cs : List ComponentIdentifier) (params : SignatureParameters) (base : String)
      → create_signature_base crates urls req cs params ≡ ok base
      → All IsNamed cs
  unfolding create_signature_base
  create_signature_base-IsNamed cs params base h =
      let (lines, listed, _) = >>=-eq-ok (component_lines crates urls req cs) _ h in
      component_lines-IsNamed cs lines listed
