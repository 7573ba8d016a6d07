-- ===== src/Publisher/Worker.antt =====
-- `build_signing_client`, `get_inbox_url`, `process_activity` and the answer of a worker to the
-- broker in publisherd.
pub mod Answers
use oxifed.Base.{
  ℕ, ◌+◌, String, true, false, not, Bool, Option, none, some, List, [], ◌∷◌, Result, ok, err, ◌>>=◌,
  map_err, ok_or, keep, join, lines, starts_with, unwrap_or, map_option, ◌⧺◌,
}
use oxifed.Vocab.{Url, UrlLib, get_str, fields, Object, ObjectOrLink, Activity}
use oxifed.Vocab.Entity.{Serde}
use oxifed.Signature.Types.{
  rsa_sha256, header, request_target, digest, DateTime, new_parameters, Crates, SignatureConfig,
}
use oxifed.Client.{
  ClientError, ClientConfig, ActivityPubClient, default_config, Network, with_config, fetch_actor,
  send_to_inbox,
}
use oxifed.Publisher.Recipients.{extract_recipients}
use oxifed.Publisher.Retry.{
  RetryConfig, Outcome, delivered, failed, panicked, out_of_fuel, Delivery, deliver_with_retry,
}

pub data PublisherError : Type 0 where
  json_error url_error database_error : String → PublisherError
  client_error : ClientError → PublisherError

-- the fields of a `KeyDocument` that are read here
pub record KeyDocument : Type 0 where
  pub key_id : String
  pub private_key_pem : Option String

pub record Tally : Type 0 where
  pub successful : ℕ
  pub failed : ℕ

-- What a worker does with a message: the settlement of it, or a panic that ends the worker.
pub data Disposition : Type 0 where
  ack : Disposition
  nack : (requeue : Bool) → Disposition
  crashed : Disposition

-- the base64 text between the `-----` lines
unfoldable pub pem_payload : String → String
unfolding lines starts_with join
pem_payload pem = join "" (keep (λ l. not (starts_with l "-----")) (lines pem))

unfoldable pub actor_id : ObjectOrLink → String
actor_id (ObjectOrLink.url u) = u.as_str
actor_id (ObjectOrLink.object o) = unwrap_or (map_option (λ (u : Url). u.as_str) (fields o).id) ""
actor_id (ObjectOrLink.link l) = unwrap_or (map_option (λ (u : Url). u.as_str) l.href) ""

-- the counters after one recipient; `none` is the panic
abbrev pub count : Outcome → Tally → Option Tally
count delivered t = some (record t { successful = t.successful + 1 })
count (failed e) t = some (record t { failed = t.failed + 1 })
count panicked t = none
count out_of_fuel t = none

-- The result of a message; `none` is a panic.
abbrev pub Processed : Type 0 → Type 0
Processed W = Option (Result PublisherError Tally) × W

abbrev pub no_tally : Tally
no_tally = record { successful = 0; failed = 0 }

abbrev pub finished {ℓ} : {W : Type ℓ} → Option Tally × W → Option (Result PublisherError Tally) × W
finished (none, w) = (none, w)
finished (some t, w) = (some (ok t), w)

-- the first key of the actor, if it can be looked up and has a private part
abbrev pub private_pem : Result String (List KeyDocument) → Option String
private_pem (err e) = none
private_pem (ok []) = none
private_pem (ok (k ∷ _)) = k.private_key_pem

-- The database is `none` if no URI is set; a lookup gives the keys of an actor or an error.
module _ (crates : Crates) (urls : UrlLib) (serde : Serde) {W : Type 0} (net : Network crates W)
    (db : Option (String → Result String (List KeyDocument))) (now later : DateTime)
    (version : String) where
  unfoldable pub unsigned_client : Result PublisherError ActivityPubClient
  unfolding with_config
  unsigned_client = map_err (with_config crates urls net default_config) client_error

  unfoldable pub signature_config : String → List ℕ → SignatureConfig
  unfolding new_parameters
  signature_config actor key = record {
    algorithm = rsa_sha256;
    parameters = new_parameters now later;
    key_id = actor ⧺ "#main-key";
    components =
        request_target ∷ header "host" ∷ header "date" ∷ header "content-type" ∷ digest ∷ [];
    private_key = key;
  }

  unfoldable pub signing_client : String → String → Result PublisherError ActivityPubClient
  unfolding pem_payload signature_config with_config
  signing_client actor pem = do
    key ←
        map_err (crates.decode (pem_payload pem)) (λ e. database_error ("Invalid PEM base64: " ⧺ e))
    map_err
        (with_config crates urls net (record {
          user_agent = "Oxifed/" ⧺ version;
          http_signature_config = some (signature_config actor key);
          oauth_token = none;
        }))
        client_error

  abbrev pub stored_pem : String → Option String
  stored_pem actor = elim db [
    | none ↦ none
    | some find_keys_by_actor ↦ private_pem (find_keys_by_actor actor)
  ]

  unfoldable pub build_signing_client : String → Result PublisherError ActivityPubClient
  unfolding unsigned_client signing_client
  build_signing_client actor = elim (stored_pem actor) [
    | none ↦ unsigned_client
    | some pem ↦ signing_client actor pem
  ]

  unfoldable pub client_for : Activity → Result PublisherError ActivityPubClient
  unfolding unsigned_client build_signing_client actor_id
  client_for activity = elim activity.actor [
    | none ↦ unsigned_client
    | some a ↦ build_signing_client (actor_id a)
  ]

  -- the `inbox` of a fetched actor
  unfoldable pub inbox_of : Result ClientError Object → Result PublisherError Url
  inbox_of r = do
    actor ← map_err r client_error
    inbox ←
        ok_or (get_str "inbox" (fields actor).additional_properties)
          (json_error "Actor missing inbox property")
    ok_or (urls.parse inbox) (url_error inbox)

  unfoldable pub get_inbox_url : ActivityPubClient → Url → W → Result PublisherError Url × W
  unfolding inbox_of fetch_actor
  get_inbox_url client actor_url w =
      let (r, w') = fetch_actor crates urls net serde client actor_url w in (inbox_of r, w')

  module _ (config : RetryConfig) (client : ActivityPubClient) (activity : Activity) where
    abbrev pub deliver : Result PublisherError Url → Tally → W → Option Tally × W
    deliver (err e) t w = (some (record t { failed = t.failed + 1 }), w)
    deliver (ok inbox_url) t w =
        let d =
          deliver_with_retry config (send_to_inbox crates urls net client inbox_url activity) w in
        (count d.outcome t, d.world)

    -- one round of the loop over the recipients
    unfoldable pub serve : Url → Tally → W → Option Tally × W
    unfolding get_inbox_url deliver_with_retry
    serve recipient t w = let (inbox, w') = get_inbox_url client recipient w in deliver inbox t w'

    unfoldable pub serve_all : List Url → Tally → W → Option Tally × W
    unfolding serve
    serve_all [] t w = (some t, w)
    serve_all (u ∷ us) t w =
        let (r, w') = serve u t w in elim r [ none ↦ (none, w') | some t' ↦ serve_all us t' w' ]

  unfoldable pub process_parsed : RetryConfig → Activity → W → Processed W
  unfolding client_for extract_recipients serve_all
  process_parsed config activity w = elim (client_for activity) [
    | err e ↦ (some (err e), w)
    | ok client ↦
        finished (serve_all config client activity (extract_recipients urls activity) no_tally w)
  ]

  unfoldable pub process_activity : RetryConfig → Result String Activity → W → Processed W
  unfolding process_parsed
  process_activity config (err e) w = (some (err (json_error e)), w)
  process_activity config (ok activity) w = process_parsed config activity w

-- the `match &e` that decides on a new delivery
unfoldable pub should_requeue : PublisherError → Bool
should_requeue (json_error _) = false
should_requeue (url_error _) = false
should_requeue _ = true

unfoldable pub disposition : Option (Result PublisherError Tally) → Disposition
unfolding should_requeue
disposition none = crashed
disposition (some (ok _)) = ack
disposition (some (err e)) = nack (should_requeue e)
