-- ===== src/Tests/Publishing.antt =====
-- A publisher with a network that loses the first message.
use oxifed.Base.{
  ℕ, zero, suc, ◌+◌, ◌≡◌, refl, String, not, ◌&&◌, ◌||◌, none, some, [], ◌∷◌, Result, ok, err,
  length, starts_with, first_part, arith,
}
use oxifed.Vocab.{string, array, Elements, create, Object, object_of, nobody, ObjectType, Activity}
use oxifed.Vocab.Entity.{Serde}
use oxifed.Client.{ClientError, request_failed, Network, ActivityPubClient, default_config}
use oxifed.Publisher.Recipients.{is_public, is_http, extract_recipients}
use oxifed.Publisher.Recipients.Content.{member, field_names, member-extract_recipients}
use oxifed.Publisher.Recipients.Order.{IsAscending, extract_recipients-IsAscending}
use oxifed.Publisher.Retry.{RetryConfig, deliver_with_retry}
use oxifed.Publisher.Retry.Attempts.{IsDelivery, deliver_with_retry-IsDelivery}
use oxifed.Publisher.Worker.{ack, client_for, Tally, process_activity, disposition}
use oxifed.Publisher.Worker.Answers.{process_activity-counts, process_activity-settlement}
use oxifed.Tests.{url, test_urls, test_crates}

-- the state counts the requests; the first send fails
abbrev test_send : ℕ → Result ClientError (Unit {0}) × ℕ
test_send zero = (err (request_failed "reset"), 1)
test_send (suc n) = (ok tt, suc (suc n))

abbrev three_attempts : RetryConfig
three_attempts = record { retry_attempts = 3; retry_delay_ms = 1000 }

abbrev alice : String
alice = "https://example.org/users/alice"

abbrev test_activity : Activity
test_activity = record {
  activity_type = create;
  id = none;
  name = none;
  summary = none;
  actor = none;
  object = none;
  target = none;
  published = none;
  updated = none;
  additional_properties =
      (
        "to",
        array (
            Elements.cons (string alice)
              (Elements.cons (string "https://www.w3.org/ns/activitystreams#Public") Elements.nil)),
      )
      ∷ ("cc", string alice)
      ∷ [];
}

abbrev test_actor : Object
test_actor =
    object_of
      (record {
        object_type = ObjectType.person;
        id = none;
        name = none;
        summary = none;
        content = none;
        url = none;
        published = none;
        updated = none;
        additional_properties = ("inbox", string "https://example.org/users/alice/inbox") ∷ [];
      })
      nobody

abbrev test_serde : Serde
test_serde = record {
  from_str = λ s. ok (string s);
  actor_of = λ v. err "no actor";
  activity_of = λ v. ok test_activity;
  object_of = λ v. ok test_actor;
  link_of = λ v. err "no link";
  collection_of = λ v. err "no collection";
}

-- every request is answered with 200
abbrev test_network : Network test_crates ℕ
test_network = record {
  can_build = λ agent. none;
  no_headers = [];
  from_static = λ s. s;
  bad_value = λ s. request_failed s;
  to_vec = λ a. ok "{}";
  sha256_base64 = λ s. "47DEQpj8HBSa";
  build = λ u h body. ok (record { verb = "POST"; url = u; headers = h });
  date = λ w. "Thu, 01 Jan 1970 00:00:00 GMT";
  rng = λ w. 0;
  build_get = λ u h. ok (record { verb = "GET"; url = u; headers = h });
  execute = λ request body w. (ok (record { status = 200; text = ok "{}" }), w + 1);
}

abbrev test_client : ActivityPubClient
test_client = record { config = default_config }

deliver_with_retry-IsDelivery_example :
    IsDelivery three_attempts test_send 0 (deliver_with_retry three_attempts test_send 0)
deliver_with_retry-IsDelivery_example =
    deliver_with_retry-IsDelivery three_attempts test_send 0 (omega arith)

extract_recipients-IsAscending_example : IsAscending (extract_recipients test_urls test_activity)
extract_recipients-IsAscending_example = extract_recipients-IsAscending test_urls test_activity

member-extract_recipients_example :
    member (url alice) (extract_recipients test_urls test_activity) ≡ (
      not (is_public (url alice))
      && is_http test_urls (url alice)
      && (field_names test_urls (url alice) test_activity "to"
          || field_names test_urls (url alice) test_activity "cc"
          || field_names test_urls (url alice) test_activity "audience"))
member-extract_recipients_example = member-extract_recipients test_urls (url alice) test_activity

process_activity-counts_example :
    (t : Tally) × ((process_activity test_crates test_urls test_serde test_network none 0 0 "0.1.0"
        three_attempts
        (ok test_activity)
        0).0
      ≡ some (ok t))
    × (t.successful + t.failed ≡ length (extract_recipients test_urls test_activity))
unfolding client_for process_activity disposition starts_with first_part
process_activity-counts_example =
    process_activity-counts test_crates test_urls test_serde test_network none 0 0 "0.1.0"
      three_attempts test_activity test_client 0 (omega arith) refl

process_activity-settlement_example :
    disposition
      (process_activity test_crates test_urls test_serde test_network none 0 0 "0.1.0"
        three_attempts
        (ok test_activity)
        0).0
    ≡ ack
unfolding client_for process_activity disposition starts_with first_part
process_activity-settlement_example =
    process_activity-settlement test_crates test_urls test_serde test_network none 0 0 "0.1.0"
      three_attempts (ok test_activity) 0 (omega arith)
