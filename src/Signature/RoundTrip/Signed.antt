-- ===== src/Signature/RoundTrip/Signed.antt =====
-- `Signature::from_request` on a request that `sign_request` has signed.
use text.Mathlib.TextLemmas.{nil-append, cons-append, append_assoc}
use oxifed.Base.{
  arith, ◌+◌, ◌*◌, ◌≤◌, String, Lacks, AllChars, AllChars-append, AllChars-mono, trim_end-AllChars,
  split_once, split_once-between, EndsIn, EndsIn-append, EndsIn-ne_empty, trim, trim_between,
  trim_before, starts_with-append, to_lowercase, is_whitespace, ◌≡◌, refl, sym, subst, false, List,
  [], ◌∷◌, map, All, some, ok, ◌⧺◌,
}
use oxifed.Signature.Types.{
  ComponentIdentifier, DateTime, second, Bytes, SignatureConfig, Crates, Request, as_str,
}
use oxifed.Signature.Parse.{
  is_empty, quoted, at_semicolon, rest_of, header_text, parsed_parameters, from_request,
  format_parameters,
}
use oxifed.Signature.Sign.{signed_parameters, quoted_names}
use oxifed.Signature.Components.{read_back}
use oxifed.Signature.RoundTrip.{Laws, is_visible, is_base64}
use oxifed.Signature.RoundTrip.Names.{
  IsNamed, quoted_names-names_text, quoted_names-Lacks, quoted_names-is_visible, All-IsQuotable,
  parse_components-canonical_name,
}
use oxifed.Signature.RoundTrip.Parameters.{
  read_parameters, from_input-format_parameters, parameters-is_visible,
}
use oxifed.Signature.RoundTrip.Base.{with_headers}

is_empty-map :
    {A B : Type 0} (f : A → B) (xs : List A) → is_empty xs ≡ false → is_empty (map f xs) ≡ false
is_empty-map f [] h = h
is_empty-map f (x ∷ xs) h = refl

split_once-label : (s : String) → split_once ("sig1=" ⧺ s) b'=' ≡ some ("sig1", s)
unfolding split_once
split_once-label s =
    subst (λ x. split_once x b'=' ≡ some ("sig1", s)) (sym (append_assoc "sig1" "=" s))
      (split_once-between "sig1" "=" s (refl, (refl, (refl, (refl, tt)))))

EndsIn-quoted : (key value : String) → EndsIn "\"" (quoted key value)
EndsIn-quoted key value =
    EndsIn-append "\"" key _ (EndsIn-append "\"" "=\"" _ (EndsIn-append "\"" value "\"" ("", refl)))

-- What stands behind the label of `Signature-Input`.
module _ (crates : Crates) (now later : DateTime) (config : SignatureConfig) where
  abbrev parameters_text : String
  parameters_text = format_parameters crates (signed_parameters now later config)

  EndsIn-parameters_text : EndsIn "\"" parameters_text
  unfolding format_parameters signed_parameters
  EndsIn-parameters_text = EndsIn-append "\"" _ _ (
      EndsIn-append "\"" ";" _ (
        EndsIn-append "\"" _ _ (
          EndsIn-append "\"" ";" _ (
            EndsIn-append "\"" _ _
              (EndsIn-append "\"" ";" _ (EndsIn-quoted "alg" (as_str config.algorithm)))))))

  abbrev pub input_text : String
  input_text = quoted_names config.components ⧺ ";" ⧺ parameters_text

  pub input_text-is_visible :
      (laws : Laws crates)
      → All IsNamed config.components
      → AllChars is_visible config.key_id
      → AllChars is_visible ("sig1=" ⧺ input_text)
  input_text-is_visible laws named h =
      let append = AllChars-append is_visible in
      append "sig1=" _ (ground arith) (
        append (quoted_names config.components) _ (quoted_names-is_visible config.components named)
          (append ";" _ (refl, tt) (parameters-is_visible crates laws now later config h)))

  trim-input_text :
      (cs : List ComponentIdentifier)
      → is_empty cs ≡ false
      → trim (quoted_names cs ⧺ ";" ⧺ parameters_text) ≡ quoted_names cs ⧺ ";" ⧺ parameters_text
  unfolding quoted_names is_whitespace
  trim-input_text [] h = cc
  trim-input_text (c ∷ cs) h =
      rw (cons-append, nil-append, cons-append)
        (trim_between "\"" _ "\"" refl refl
          (EndsIn-append "\"" _ _ (EndsIn-append "\"" ";" _ EndsIn-parameters_text)))

  at_semicolon-input_text :
      All IsNamed config.components
      → at_semicolon input_text ≡ (quoted_names config.components, parameters_text)
  at_semicolon-input_text h =
      rw
        (
          at_semicolon,
          split_once-between (quoted_names config.components) ";" parameters_text
              (quoted_names-Lacks config.components h),
        )
        refl

module _ (crates : Crates) (laws : Laws crates) (now later : DateTime) (req : Request crates)
    (config : SignatureConfig) (input signature : crates.HeaderValue) (bytes : Bytes) where
  open crates use {to_str, encode}
  open laws use {last}

  abbrev signed : Request crates
  signed = with_headers crates req input signature

  header_text_input :
      (s : String) → to_str input ≡ some s → header_text crates signed "signature-input" ≡ ok s
  unfolding header_text to_lowercase
  header_text_input s h =
      rw (laws.get_other _ "signature" "signature-input" signature refl, laws.get_inserted, h) refl

  header_text_signature :
      (s : String) → to_str signature ≡ some s → header_text crates signed "signature" ≡ ok s
  unfolding header_text
  header_text_signature s h = rw (laws.get_inserted, h) refl

  trim_value : trim (":" ⧺ encode bytes) ≡ ":" ⧺ encode bytes
  unfolding is_whitespace
  trim_value =
      rw (cons-append, nil-append)
        (trim_before ":" _ refl
          (trim_end-AllChars is_base64 _ (λ c k. ground arith) (laws.encode_chars bytes)))

  rest_of_value : rest_of (":" ⧺ encode bytes) ≡ encode bytes
  rest_of_value = rw (cons-append, nil-append) refl

  parsed_parameters_text :
      Lacks config.key_id b'"'
      → now ≤ last
      → later + 3600 * second ≤ last
      → parsed_parameters crates (parameters_text crates now later config)
        ≡ ok (read_parameters crates laws now later config)
  unfolding parsed_parameters
  parsed_parameters_text h early fits =
      rw (EndsIn-ne_empty "\"" _ (EndsIn-parameters_text crates now later config))
        (from_input-format_parameters crates laws now later config h early fits)

  pub signature_text-is_visible : AllChars is_visible ("sig1=:" ⧺ encode bytes)
  signature_text-is_visible =
      AllChars-append is_visible "sig1=:" _ (ground arith)
        (AllChars-mono is_base64 is_visible _ (λ c k. ground arith) (laws.encode_chars bytes))

  -- The signed request is parsed to the signature that was made.
  pub from_request-signed :
      All IsNamed config.components
      → is_empty config.components ≡ false
      → Lacks config.key_id b'"'
      → now ≤ last
      → later + 3600 * second ≤ last
      → to_str input ≡ some ("sig1=" ⧺ input_text crates now later config)
      → to_str signature ≡ some ("sig1=:" ⧺ encode bytes)
      → from_request crates (with_headers crates req input signature)
        ≡ ok (record {
          tag = "sig1";
          signature = encode bytes;
          components = map read_back config.components;
          parameters = read_parameters crates laws now later config;
        })
  unfolding from_request trim
  from_request-signed named some_components key early fits i s =
      rw (header_text_input _ i, header_text_signature _ s, split_once-label)
        (rw (append_assoc "sig1=" ":" (encode bytes), split_once-label)
          (rw
            (
              trim-input_text crates now later config config.components some_components,
              trim_value,
              starts_with-append ":" (encode bytes),
            )
            (rw (at_semicolon-input_text crates now later config named) (
              rw
                (
                  quoted_names-names_text config.components,
                  laws.captures_names _ (All-IsQuotable config.components named),
                )
                (rw
                  (
                    parse_components-canonical_name crates config.components named,
                    parsed_parameters_text key early fits,
                    rest_of_value,
                    is_empty-map read_back config.components some_components,
                  )
                  refl)))))
