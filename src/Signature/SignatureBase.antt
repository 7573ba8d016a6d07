-- ===== src/Signature/SignatureBase.antt =====
-- `create_signature_base` and `get_component_value`.
use oxifed.Base.{
  String, none, some, List, [], ◌∷◌, ◌++◌, Result, ok, err, ◌>>=◌, ok_or, unwrap_or, ◌⧺◌, join,
}
use oxifed.Vocab.{Url, UrlLib}
use oxifed.Signature.Types.{
  SignatureError, invalid_parameter, invalid_header, ComponentIdentifier, header, method,
  target_uri, request_target, path, query, status, digest, canonical_name, SignatureParameters,
  Crates, Request,
}
use oxifed.Signature.Parse.{format_parameters}

-- `{path}?{query}`, or the path alone
unfoldable pub path_and_query : UrlLib → Url → String
path_and_query urls u = elim (urls.query u) [ none ↦ urls.path u | some q ↦ urls.path u ⧺ "?" ⧺ q ]

module _ (crates : Crates) (urls : UrlLib) where
  open crates use {get, to_str, header_name}

  -- the value that is signed, behind its space
  unfoldable pub component_value :
      Request crates → ComponentIdentifier → Result SignatureError String
  unfolding path_and_query
  component_value req (header name) = do
    h ← ok_or (header_name name) (invalid_header name)
    value ← ok_or (get req.headers h) (invalid_header ("Header not found: " ⧺ name))
    text ← ok_or (to_str value) (invalid_header ("Non-ASCII value in header: " ⧺ name))
    ok (" " ⧺ text)
  component_value req method = ok (" " ⧺ req.verb)
  component_value req target_uri = ok (" " ⧺ req.url.as_str)
  component_value req request_target = ok (" " ⧺ path_and_query urls req.url)
  component_value req path = ok (" " ⧺ urls.path req.url)
  component_value req query = ok (" " ⧺ unwrap_or (urls.query req.url) "")
  component_value req status = err (invalid_parameter "@status not available for requests")
  component_value req digest = do
    value ← ok_or (get req.headers "digest") (invalid_header "Digest header not found")
    text ← ok_or (to_str value) (invalid_header "Non-ASCII value in Digest header")
    ok (" " ⧺ text)

  unfoldable pub get_component_value :
      Request crates → ComponentIdentifier → Result SignatureError (String × String)
  unfolding canonical_name component_value
  get_component_value req c = do value ← component_value req c; ok (canonical_name c, value)

  -- `"{name}":{value}`
  abbrev pub base_line : String → String → String
  base_line name value = "\"" ⧺ name ⧺ "\":" ⧺ value

  unfoldable pub component_lines :
      Request crates → List ComponentIdentifier → Result SignatureError (List String)
  unfolding get_component_value
  component_lines req [] = ok []
  component_lines req (c ∷ cs) = do
    (name, value) ← get_component_value req c
    lines ← component_lines req cs
    ok (base_line name value ∷ lines)

  unfoldable pub create_signature_base :
      Request crates → List ComponentIdentifier → SignatureParameters → Result SignatureError String
  unfolding component_lines format_parameters join
  create_signature_base req components params = do
    lines ← component_lines req components
    ok (join "\n" (lines ++ base_line "@signature-params" (format_parameters crates params) ∷ []))
