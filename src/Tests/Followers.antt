-- ===== src/Tests/Followers.antt =====
-- An inbox and its activities, on which the handlers and the routes are tried.
mod Answers
mod Commanded
mod Routes
use oxifed.Base.{◌≡◌, refl, String, none, some, ◌⊎◌, [], ◌∷◌, Result, ok, err, first_part}
use oxifed.Vocab.{
  string, lookup, accept, follow, undo, ActivityType, ObjectType, Object, object_of, nobody,
  ObjectOrLink, Activity,
}
use oxifed.Vocab.Entity.{Serde}
use oxifed.Inbox.Types.{
  FollowStatus, accepted, cancelled, FollowDocument, active, ActorDocument, Environment, State,
  incoming_activity,
}
use oxifed.Inbox.Handlers.{
  follow_document, accept_activity, handle_follow_activity, handle_response, handle_undo_activity,
  extract_follow_from_response, undone_follow,
}
use oxifed.Inbox.Post.{
  ok_accepted, Post, post_inbox, post_shared_inbox, domain_of, to_user, route_all,
}
use oxifed.Inbox.Rows.{answered}
use oxifed.Inbox.Rows.Follow.{
  IsFollowed, handle_follow_activity-accepts, handle_follow_activity-succeeds,
  handle_follow_activity-repeated,
}
use oxifed.Inbox.Rows.Responses.{
  handle_response-anyone, handle_response-row, handle_undo_activity-row,
}
use oxifed.Inbox.Rows.Invariant.{Evolves}
use oxifed.Inbox.Rows.Requests.{IsRefused, IsProcessed, post_inbox-cases, route_all-Evolves}
use oxifed.Tests.{url, test_urls}
use oxifed.Tests.Store.{Store, test_store, test_laws}

abbrev pub alice : String
alice = "https://example.org/users/alice"

abbrev pub bob : String
bob = "https://remote.net/users/bob"

abbrev pub alice_document : ActorDocument
alice_document = record { actor_id = alice; status = active }

-- the broker takes everything, or nothing
abbrev pub test_env : Result String (Unit {0}) → Environment
test_env answer = record {
  to_value = λ a. ok (string "activity");
  object_value = λ o. ok (string "object");
  parse_rfc3339 = λ s. none;
  to_rfc3339 = λ t. "2026-01-01T00:00:00Z";
  now = 5;
  later = 6;
  uuid = "0001";
  broker = λ sent m. answer;
}

-- A follow as it is decoded: its type is in a field of its own, and `ObjectType` has no Follow.
abbrev pub embedded : Object
embedded =
    object_of
      (record {
        object_type = ObjectType.other;
        id = none;
        name = none;
        summary = none;
        content = none;
        url = none;
        published = none;
        updated = none;
        additional_properties = ("actor", string bob) ∷ ("object", string alice) ∷ [];
      })
      nobody

-- an activity of a kind, by an actor, on the embedded follow
abbrev pub activity_of : ActivityType → String → Activity
activity_of type actor = record {
  activity_type = type;
  id = some (url "https://remote.net/activities/1");
  name = none;
  summary = none;
  actor = some (ObjectOrLink.url (url actor));
  object = some (ObjectOrLink.object embedded);
  target = none;
  published = none;
  updated = none;
  additional_properties = [];
}

abbrev pub bobs_follow : FollowDocument
bobs_follow = record {
  follower = bob;
  following = alice;
  status = FollowStatus.pending;
  activity_id = "https://remote.net/activities/1";
  accept_activity_id = none;
  created_at = 5;
  responded_at = none;
}

abbrev pub nothing : State Store
nothing = record { db = record { follows = []; activities = [] }; sent = [] }

abbrev pub followed : State Store
followed = record { db = record { follows = bobs_follow ∷ []; activities = [] }; sent = [] }

abbrev pub serde_of : Activity → Serde
serde_of activity = record {
  from_str = λ s. ok (string s);
  actor_of = λ v. err "no actor";
  activity_of = λ v. ok activity;
  object_of = λ v. ok embedded;
  link_of = λ v. err "no link";
  collection_of = λ v. err "no collection";
}

abbrev pub test_post : Post
test_post = record {
  username = "alice";
  headers = ("host", some "example.org:443") ∷ [];
  body = string "activity";
}
