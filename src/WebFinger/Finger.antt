-- ===== src/WebFinger/Finger.antt =====
-- src/webfinger.rs: the client; and crates/oxiadm/src/resolve.rs: the id of an actor by its name.
use oxifed.Base.{
  ℕ, String, Bool, Option, none, some, List, [], ◌∷◌, Result, ok, err, ok_or, find, keep, map,
  map_err, if◌then◌else◌, ◌&&◌, ◌||◌, ◌==◌, ◌⧺◌, not, ◌>>=◌, ◌>>◌, fail_if, starts_with, contains,
  split_once, first_part, unwrap_or, and_then,
}
use oxifed.Vocab.{Url, UrlLib}
use oxifed.Client.{is_success}
use oxifed.Database.Documents.{JrdLink, JrdResource}

pub data WebFingerError : Type 0 where
  invalid_resource url_construction_error request_error json_error : String → WebFingerError
  http_error : ℕ → WebFingerError
  host_extraction_failed : String → WebFingerError

unfoldable pub find_link : JrdResource → String → Option JrdLink
find_link jrd rel = and_then jrd.links (find (λ (link : JrdLink). link.rel == rel))

unfoldable pub find_links : JrdResource → String → List JrdLink
find_links jrd rel = keep (λ (link : JrdLink). link.rel == rel) (unwrap_or jrd.links [])

-- The crates of the client: `append_pair` of `url`, and a GET request of `reqwest`, with the status
-- of the response and its body as JSON.
pub record WebFingerClient : Type 0 where
  pub urls : UrlLib
  pub append_pairs : Url → List (String × String) → Url
  pub send : Url → Result String (ℕ × Result String JrdResource)

abbrev extract_acct_host : String → Result WebFingerError String
extract_acct_host resource = elim (split_once resource 64) [
  | none ↦ err (host_extraction_failed ("Invalid acct URI format: " ⧺ resource))
  | some (_, domain) ↦ ok (first_part (first_part domain 47) 58)
]

unfoldable pub extract_host : UrlLib → String → Result WebFingerError String
unfolding starts_with split_once first_part
extract_host urls resource =
    if starts_with resource "acct:"
    then extract_acct_host resource
    else if starts_with resource "http:" || starts_with resource "https:"
    then elim (urls.parse resource) [
      | none ↦ err (url_construction_error resource)
      | some u ↦
          ok_or (urls.host_str u)
            (host_extraction_failed ("Cannot extract host from URI: " ⧺ resource))
    ]
    else err (invalid_resource ("Unsupported URI scheme: " ⧺ resource))

abbrev pub is_valid_resource : String → Bool
is_valid_resource resource =
    starts_with resource "acct:" || (starts_with resource "http:" || starts_with resource "https:")

abbrev pub pairs_of : String → List String → List (String × String)
pairs_of resource relations = ("resource", resource) ∷ map (λ r. ("rel", r)) relations

abbrev response_of : ℕ × Result String JrdResource → Result WebFingerError JrdResource
response_of (status, body) =
    if is_success status then map_err body json_error else err (http_error status)

unfoldable pub finger :
    WebFingerClient → String → Option (List String) → Result WebFingerError JrdResource
unfolding extract_host
finger client resource relations = do
  fail_if (not (is_valid_resource resource)) (
      invalid_resource
        ("Resource '" ⧺ resource ⧺ "' must begin with 'acct:', 'http:', or 'https:'"))
  host ← extract_host client.urls resource
  let address = "https://" ⧺ host ⧺ "/.well-known/webfinger"
  webfinger_url ← ok_or (client.urls.parse address) (url_construction_error address)
  response ←
      map_err
        (client.send
          (client.append_pairs webfinger_url (pairs_of resource (unwrap_or relations []))))
        request_error
  response_of response

unfoldable pub is_user_at_domain : String → Bool
unfolding contains
is_user_at_domain s = not (contains s "://") && contains s "@"

-- what `resolve_webfinger` reports
pub data ResolveError : Type 0 where
  lookup_failed : WebFingerError → ResolveError
  no_self_link no_href : (identifier : String) → ResolveError

unfoldable pub resolve_webfinger : WebFingerClient → String → Result ResolveError String
unfolding finger find_link
resolve_webfinger client identifier = do
  jrd ← map_err (finger client ("acct:" ⧺ identifier) none) lookup_failed
  link ← ok_or (find_link jrd "self") (no_self_link identifier)
  ok_or link.href (no_href identifier)

unfoldable pub resolve_target : WebFingerClient → String → Result ResolveError String
unfolding is_user_at_domain resolve_webfinger
resolve_target client target =
    if is_user_at_domain target then resolve_webfinger client target else ok target

-- the actor that is given, or the one of the saved context
unfoldable pub resolve_actor :
    WebFingerClient
    → (current : Result ResolveError String) → Option String
    → Result ResolveError String
unfolding resolve_target
resolve_actor client current (some actor) = resolve_target client actor
resolve_actor client current none = current >>= resolve_target client
