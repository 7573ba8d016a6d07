-- ===== src/Client.antt =====
-- src/client.rs: signing and posting an activity to an inbox, with the fallback to HTTP.
use oxifed.Base.{
  ℕ, String, show, pos, Bool, false, ◌&&◌, leb, ltb, Option, none, some, ◌==◌, if◌then◌else◌,
  Result, ok, err, ◌>>=◌, ok_or, map_err, ◌⧺◌,
}
use oxifed.Vocab.{Url, UrlLib, Activity, Object, Collection}
use oxifed.Vocab.Entity.{ActivityPubEntity, object, collection, Serde, parse_activitypub_json}
use oxifed.Signature.Types.{SignatureError, SignatureConfig, Crates, Request}
use oxifed.Signature.Sign.{sign_request_legacy}

pub data ClientError : Type 0 where
  request_failed parse_error url_error missing_field invalid_header : String → ClientError
  status_error : ℕ → ClientError
  signature_error : SignatureError → ClientError

pub record ClientConfig : Type 0 where
  pub user_agent : String
  pub http_signature_config : Option SignatureConfig
  pub oauth_token : Option String

pub record ActivityPubClient : Type 0 where
  pub config : ClientConfig

abbrev pub default_config : ClientConfig
default_config = record {
  user_agent = "Oxifed/0.1.0";
  http_signature_config = none;
  oauth_token = none;
}

abbrev pub content_type : String
content_type = "application/activity+json"

pub record Response : Type 0 where
  pub status : ℕ
  -- `response.text()`
  pub text : Result ClientError String

-- The outside of the client, `W` its state: `reqwest` and the network, the clock, randomness,
-- `serde_json` and SHA-256.
pub record Network (crates : Crates) (W : Type 0) : Type 1 where
  -- Client::builder().user_agent(_).build()
  pub can_build : String → Option ClientError
  pub no_headers : crates.Headers
  pub from_static : String → crates.HeaderValue
  -- the crate's validity check of a header text, with its error
  pub bad_value : String → ClientError
  pub to_vec : Activity → Result ClientError String
  pub sha256_base64 : String → String
  -- client.post(url).headers(_).header(CONTENT_TYPE, _).body(_).build()
  pub build : Url → crates.Headers → String → Result ClientError (Request crates)
  pub date : W → String
  pub rng : W → ℕ
  -- client.get(url).headers(_).build()
  pub build_get : Url → crates.Headers → Result ClientError (Request crates)
  -- client.execute(request), with the body of the request
  pub execute : Request crates → String → W → Result ClientError Response × W

-- `StatusCode::is_success`
unfoldable pub is_success : ℕ → Bool
is_success code = leb 200 code && ltb code 300

module _ (crates : Crates) (urls : UrlLib) {W : Type 0} (net : Network crates W) where
  open crates use {insert, header_value}

  -- `ActivityPubClient::with_config`
  unfoldable pub with_config : ClientConfig → Result ClientError ActivityPubClient
  with_config config = elim (net.can_build config.user_agent) [
    | some e ↦ err e
    | none ↦ ok (record { config = config })
  ]

  abbrev value_of : String → Result ClientError crates.HeaderValue
  value_of text = ok_or (header_value text) (net.bad_value text)

  unfoldable pub default_headers : ActivityPubClient → Result ClientError crates.Headers
  default_headers client =
      let headers = insert net.no_headers "accept" (net.from_static content_type) in
      elim client.config.oauth_token [
        | none ↦ ok headers
        | some token ↦ (do
          value ← value_of ("Bearer " ⧺ token)
          ok (insert headers "authorization" value))
      ]

  -- the client's own `sign_request`
  unfoldable pub sign : ActivityPubClient → ℕ → Request crates → Result ClientError (Request crates)
  unfolding sign_request_legacy
  sign client rng request = elim client.config.http_signature_config [
    | none ↦ ok request
    | some config ↦ (do
      let signed = sign_request_legacy crates urls rng request config
      done ← map_err signed.1 signature_error
      ok signed.0)
  ]

  abbrev put : Request crates → String → crates.HeaderValue → Request crates
  put request name value = record request { headers = insert request.headers name value }

  -- `{host}:{port}`, or the host alone
  abbrev host_value : String → Option ℕ → String
  host_value host none = host
  host_value host (some port) = host ⧺ ":" ⧺ show (pos port)

  unfoldable pub add_host : Url → Request crates → Result ClientError (Request crates)
  unfolding show
  add_host inbox_url request = elim (urls.host_str inbox_url) [
    | none ↦ ok request
    | some host ↦ (do
      value ← value_of (host_value host (urls.port inbox_url))
      ok (put request "host" value))
  ]

  -- everything before the request is sent, at the state `w`
  unfoldable pub prepare :
      ActivityPubClient → Url → String → W → Result ClientError (Request crates)
  unfolding default_headers add_host sign
  prepare client inbox_url body w = do
    headers ← default_headers client
    request ← net.build inbox_url headers body
    with_host ← add_host inbox_url request
    date ← value_of (net.date w)
    digest ← value_of ("SHA-256=" ⧺ net.sha256_base64 body)
    sign client (net.rng w) (put (put with_host "date" date) "digest" digest)

  abbrev answer : Result ClientError Response × W → Result ClientError (Unit {0}) × W
  answer (err e, w) = (err e, w)
  answer (ok r, w) = (if is_success r.status then ok tt else err (status_error r.status), w)

  unfoldable pub post : ActivityPubClient → Url → String → W → Result ClientError (Unit {0}) × W
  unfolding prepare is_success
  post client inbox_url body w = elim (prepare client inbox_url body w) [
    | err e ↦ (err e, w)
    | ok request ↦ answer (net.execute request body w)
  ]

  unfoldable pub try_send_to_inbox :
      ActivityPubClient → Url → Activity → W → Result ClientError (Unit {0}) × W
  unfolding post
  try_send_to_inbox client inbox_url activity w = elim (net.to_vec activity) [
    | err e ↦ (err e, w)
    | ok body ↦ post client inbox_url body w
  ]

  -- `host_str() == Some("localhost") && scheme() == "https"`
  unfoldable pub is_local_https : Url → Bool
  is_local_https u =
      elim (urls.host_str u) [ none ↦ false | some h ↦ h == "localhost" ]
      && urls.scheme u == "https"

  abbrev fall_back :
      ActivityPubClient → Url → Activity → ClientError → W → Result ClientError (Unit {0}) × W
  fall_back client inbox_url activity e w =
      if is_local_https inbox_url
      then elim (urls.set_scheme inbox_url "http") [
        | none ↦ (err (url_error "InvalidPort"), w)
        | some http_url ↦ try_send_to_inbox client http_url activity w
      ]
      else (err e, w)

  unfoldable pub send_to_inbox :
      ActivityPubClient → Url → Activity → W → Result ClientError (Unit {0}) × W
  unfolding try_send_to_inbox is_local_https
  send_to_inbox client inbox_url activity w =
      let (sent, w') = try_send_to_inbox client inbox_url activity w in
      elim sent [ ok _ ↦ (ok tt, w') | err e ↦ fall_back client inbox_url activity e w' ]

  -- a GET request, ready to be sent
  unfoldable pub prepare_get : ActivityPubClient → Url → W → Result ClientError (Request crates)
  unfolding default_headers add_host sign
  prepare_get client url w = do
    headers ← default_headers client
    request ← net.build_get url headers
    with_host ← add_host url request
    date ← value_of (net.date w)
    sign client (net.rng w) (put with_host "date" date)

  module _ (serde : Serde) where
    unfoldable pub handle_response : Response → Result ClientError ActivityPubEntity
    unfolding is_success parse_activitypub_json
    handle_response r =
        if is_success r.status
        then (do text ← r.text; map_err (parse_activitypub_json serde text) parse_error)
        else err (status_error r.status)

    abbrev handle : Result ClientError Response × W → Result ClientError ActivityPubEntity × W
    handle (err e, w) = (err e, w)
    handle (ok r, w) = (handle_response r, w)

    unfoldable pub fetch_object :
        ActivityPubClient → Url → W → Result ClientError ActivityPubEntity × W
    unfolding prepare_get handle_response
    fetch_object client url w = elim (prepare_get client url w) [
      | err e ↦ (err e, w)
      | ok request ↦ handle (net.execute request "" w)
    ]

    abbrev expect_object : ActivityPubEntity → Result ClientError Object
    expect_object (object o) = ok o
    expect_object _ = err (missing_field "Expected actor object, but got a different entity type")

    abbrev expect_collection : ActivityPubEntity → Result ClientError Collection
    expect_collection (collection c) = ok c
    expect_collection _ = err (missing_field "Expected collection, but got a different entity type")

    unfoldable pub fetch_actor : ActivityPubClient → Url → W → Result ClientError Object × W
    unfolding fetch_object
    fetch_actor client url w = let (r, w') = fetch_object client url w in (r >>= expect_object, w')

    unfoldable pub fetch_collection :
        ActivityPubClient → Url → W → Result ClientError Collection × W
    unfolding fetch_object
    fetch_collection client url w =
        let (r, w') = fetch_object client url w in (r >>= expect_collection, w')
