-- ===== src/Commands/Follows.antt =====
-- `handle_follow`, `handle_accept` and `handle_reject` of rabbitmq.rs, the commands of local actors,
-- with `split_subject` and `format_subject`.
pub mod Recorded
use Prim.Native.Char.{code}
use oxifed.Base.{
  ℕ, String, Bool, true, false, Option, none, some, List, [], ◌∷◌, ◌++◌, Result, ok, err, ok_or,
  map_err, ◌>>=◌, ◌||◌, if◌then◌else◌, ◌⧺◌, contains, starts_with, replace, split_once, eqb,
}
use oxifed.Vocab.{Url, UrlLib, Value, string, follow, ActivityType, ObjectOrLink, Activity}
use oxifed.Inbox.Types.{
  FollowStatus, accepted, rejected, ActivityStatus, completed, ActivityDocument, Collections,
  Message, outgoing, Environment, State,
}
use oxifed.Commands.Domains.{RabbitMqError, json_error, url_parse, db_error, domain_not_found}

unfoldable pub format_subject : String → String
unfolding starts_with contains
format_subject subject =
    if starts_with subject "acct:" || (starts_with subject "https://" || contains subject ":")
    then subject
    else "acct:" ⧺ subject

unfoldable pub split_subject : String → Result RabbitMqError (String × String)
unfolding replace split_once
split_subject subject =
    ok_or
      (split_once
        (replace (replace (replace (replace subject "acct:" "") "https://" "") "act:" "") "http://"
          "")
        64)
      (json_error ("Invalid subject: '" ⧺ subject ⧺ "'"))

-- what stands after the last '/' of a path
unfoldable pub last_segment : String → String
unfolding split_once
last_segment String.[] = ""
last_segment (String.◌∷◌ c s) =
    let rest = last_segment s in
    if contains s "/" then rest else if eqb (code c) 47 then s else String.◌∷◌ c s

-- the last of `path_segments()`, which only a path that begins with '/' has
abbrev pub username_of : String → String
username_of path = if starts_with path "/" then last_segment path else "unknown"

-- `FollowActivityMessage`, `AcceptActivityMessage` and `RejectActivityMessage`
pub record RelationMessage : Type 0 where
  pub actor : String
  pub object : String

-- the follower's name and domain
unfoldable pub follower_of : UrlLib → String → Result RabbitMqError (String × String)
unfolding contains starts_with last_segment split_subject
follower_of urls actor =
    if contains actor "://"
    then (do
      u ← ok_or (urls.parse actor) (url_parse actor)
      domain ← ok_or (urls.host_str u) (json_error ("Invalid domain in actor URL: " ⧺ actor))
      ok (username_of (urls.path u), domain))
    else if contains actor "@"
    then split_subject actor
    else err (json_error ("Actor '" ⧺ actor ⧺ "' must be a full URL or user@domain format"))

abbrev pub parsed_url : UrlLib → String → Result RabbitMqError Url
parsed_url urls text = ok_or (urls.parse text) (url_parse text)

-- the activity that is published
unfoldable pub follow_activity :
    UrlLib
    → Environment
    → RelationMessage
    → (follower_id domain : String) → Result RabbitMqError Activity
follow_activity urls env msg follower_id domain = do
  id ← parsed_url urls ("https://" ⧺ domain ⧺ "/activities/" ⧺ env.uuid)
  actor ← parsed_url urls follower_id
  object ← parsed_url urls msg.object
  ok (record {
    activity_type = follow;
    id = some id;
    name = none;
    summary = some (follower_id ⧺ " follows " ⧺ msg.object);
    actor = some (ObjectOrLink.url actor);
    object = some (ObjectOrLink.url object);
    target = none;
    published = some env.later;
    updated = none;
    additional_properties = ("to", string msg.object) ∷ [];
  })

-- the document that is stored
unfoldable pub follow_record : Environment → RelationMessage → String → Activity → ActivityDocument
follow_record env msg follower_id activity = record {
  activity_id = elim activity.id [ none ↦ "" | some u ↦ u.as_str ];
  activity_type = follow;
  actor = follower_id;
  object = some msg.object;
  target = none;
  name = none;
  summary = none;
  published = some env.now;
  updated = some env.now;
  to = none;
  cc_to = none;
  bto = none;
  bcc = none;
  local = true;
  status = completed;
  created_at = env.now;
  attempts = 0;
}

module _ {Db : Type 0} (c : Collections Db) where
  abbrev pub is_known : Result String (Option (Unit {0})) → Bool
  is_known (ok (some _)) = true
  is_known _ = false

  unfoldable pub does_domain_exist : String → Db → Bool
  does_domain_exist domain db = is_known (c.find_domain_by_name domain db)

  -- a failure to publish is only logged
  abbrev pub publish_follow : Environment → Activity → State Db → State Db
  publish_follow env activity s = elim (env.to_value activity) [
    | err _ ↦ s
    | ok json ↦ elim (env.broker s.sent (outgoing json)) [
      | err _ ↦ s
      | ok _ ↦ record s { sent = s.sent ++ outgoing json ∷ [] }
    ]
  ]

  unfoldable pub store_follow :
      Environment
      → RelationMessage
      → String
      → Activity
      → State Db
      → Result RabbitMqError (Unit {0}) × State Db
  unfolding follow_record
  store_follow env msg follower_id activity s =
      let (stored, db') = c.insert_activity (follow_record env msg follower_id activity) s.db in
      elim stored [
        | err e ↦ (err (db_error e), record s { db = db' })
        | ok _ ↦ (ok tt, publish_follow env activity (record s { db = db' }))
      ]

  abbrev pub follower_id_of : String × String → String
  follower_id_of (username, domain) = "https://" ⧺ domain ⧺ "/users/" ⧺ username

  unfoldable pub handle_follow :
      UrlLib → Environment → RelationMessage → State Db → Result RabbitMqError (Unit {0}) × State Db
  unfolding follower_of does_domain_exist follow_activity store_follow
  handle_follow urls env msg s = elim (follower_of urls msg.actor) [
    | err e ↦ (err e, s)
    | ok pair ↦ elim (does_domain_exist pair.1 s.db) [
      | false ↦ (err (domain_not_found ("Local domain not found: " ⧺ pair.1)), s)
      | true ↦ elim (follow_activity urls env msg (follower_id_of pair) pair.1) [
        | err e ↦ (err e, s)
        | ok activity ↦ store_follow env msg (follower_id_of pair) activity s
      ]
    ]
  ]

  -- `handle_accept` and `handle_reject`; an error is only logged
  unfoldable pub answer_follow :
      FollowStatus → RelationMessage → State Db → Result RabbitMqError (Unit {0}) × State Db
  answer_follow status msg s =
      (ok tt, record s { db = (c.update_follow_status msg.object msg.actor status s.db).1 })

  abbrev pub handle_accept : RelationMessage → State Db → Result RabbitMqError (Unit {0}) × State Db
  handle_accept = answer_follow accepted

  abbrev pub handle_reject : RelationMessage → State Db → Result RabbitMqError (Unit {0}) × State Db
  handle_reject = answer_follow rejected
