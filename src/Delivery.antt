-- ===== src/Delivery.antt =====
-- The delivery module of domainservd (delivery/mod.rs): its targets, its statistics and the client
-- that it uses.
pub mod Targets
pub mod Inbox
pub mod Pool
use oxifed.Base.{List, ℕ, zero, ◌+◌, ◌&&◌, String, Bool, Option, Result, if◌then◌else◌, ltb}
use oxifed.Vocab.{Url, UrlLib, Activity, Object, Collection}
use oxifed.Vocab.Entity.{Serde}
use oxifed.Signature.Types.{Crates}
use oxifed.Client.{
  ClientError, ActivityPubClient, Network, fetch_actor, fetch_collection, send_to_inbox,
}

pub data DeliveryError : Type 0 where
  database_error url_error : String → DeliveryError
  no_recipients : DeliveryError

pub record DeliveryStats : Type 0 where
  pub total_attempts : ℕ
  pub successful_deliveries : ℕ
  pub failed_deliveries : ℕ
  pub shared_inbox_deliveries : ℕ

-- `DeliveryStats::default()`
abbrev pub no_deliveries : DeliveryStats
no_deliveries = record {
  total_attempts = 0;
  successful_deliveries = 0;
  failed_deliveries = 0;
  shared_inbox_deliveries = 0;
}

pub record DeliveryTarget : Type 0 where
  pub actor_id : String
  pub inbox_url : Url
  pub shared_inbox_url : Option Url

abbrev pub max_concurrent_deliveries : ℕ
max_concurrent_deliveries = 50

abbrev pub max_retry_attempts : ℕ
max_retry_attempts = 3

abbrev pub base_retry_delay_ms : ℕ
base_retry_delay_ms = 1000

abbrev pub max_collection_items : ℕ
max_collection_items = 1000

-- successes, failures, and whether the inbox is shared
unfoldable pub update_stats : DeliveryStats → ℕ × ℕ × Bool → DeliveryStats
update_stats stats (successful, failed, is_shared) = record {
  total_attempts = stats.total_attempts + (successful + failed);
  successful_deliveries = stats.successful_deliveries + successful;
  failed_deliveries = stats.failed_deliveries + failed;
  shared_inbox_deliveries =
      if is_shared && ltb 0 successful
      then stats.shared_inbox_deliveries + 1
      else stats.shared_inbox_deliveries;
}

-- What the module uses of the client, the database and a regular expression, with the state `W` of
-- the network.
pub record Remote (W : Type 0) : Type 0 where
  pub fetch_collection : Url → W → Result ClientError Collection × W
  pub fetch_actor : Url → W → Result ClientError Object × W
  pub send_to_inbox : Url → Activity → W → Result ClientError (Unit {0}) × W
  -- the identifiers of the followers of an actor
  pub get_actor_followers : String → Result String (List String)
  -- the group of `/u/([^/]+)/` in a path
  pub username_capture : String → Option String

-- the operations of the client of src/client.rs
unfoldable pub remote_of :
    (crates : Crates) (urls : UrlLib) (serde : Serde) {W : Type 0} (net : Network crates W)
    → ActivityPubClient
    → (String → Result String (List String))
    → (String → Option String)
    → Remote W
remote_of crates urls serde net client followers capture = record {
  fetch_collection = fetch_collection crates urls net serde client;
  fetch_actor = fetch_actor crates urls net serde client;
  send_to_inbox = send_to_inbox crates urls net client;
  get_actor_followers = followers;
  username_capture = capture;
}
