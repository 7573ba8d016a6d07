-- ===== src/Inbox/Handlers.antt =====
-- The handlers of the activities that an inbox takes, in domainservd/src/activitypub.rs.
use oxifed.Base.{
  String, Option, none, some, Result, ok, err, map_err, ok_or, if◌then◌else◌, ◌⧺◌, ◌==◌, ◌||◌,
  unwrap_or, map_option,
}
use oxifed.Vocab.{
  ActivityType, Url, Value, string, dictionary, Entries, accept, announce, create, delete, follow,
  like, reject, undo, update, fields, Object, ObjectOrLink, Activity, lookup, get_str, url_of,
}
use oxifed.Inbox.Types.{
  FollowStatus, accepted, rejected, cancelled, FollowDocument, ActorDocument, ActivityDocument,
  Collections, outgoing, incoming_object, incoming_activity, Environment, Action, pure, lift, reads,
  writes, publish, ◌>>=◌, ◌>>◌,
}
use oxifed.Inbox.Documents.{get_text, document_of_struct, document_of_json}

-- an error with the text of the `format!` that wraps it
abbrev pub wrapped {ℓ} : {A : Type ℓ} → String → Result String A → Result String A
wrapped text r = map_err r (λ e. text ⧺ e)

unfoldable pub follow_document : Environment → Activity → String → String → FollowDocument
follow_document env activity follower following = record {
  follower = follower;
  following = following;
  status = FollowStatus.pending;
  activity_id = unwrap_or (map_option (λ (u : Url). u.as_str) activity.id) "unknown";
  accept_activity_id = none;
  created_at = env.now;
  responded_at = none;
}

-- the `json!` of the answer
unfoldable pub accept_activity : Environment → Value → String → Value
accept_activity env activity target = dictionary (
    Entries.entry "@context" (string "https://www.w3.org/ns/activitystreams") (
      Entries.entry "type" (string "Accept") (
        Entries.entry "id" (string (target ⧺ "/activities/" ⧺ env.uuid)) (
          Entries.entry "actor" (string target) (
            Entries.entry "object" activity
              (Entries.entry "published" (string (env.to_rfc3339 env.later)) Entries.end))))))

-- the pair of a follow that an answer embeds
unfoldable pub embedded_follow : Object → Result String (String × String)
unfolding lookup
embedded_follow o = elim (get_str "actor" (fields o).additional_properties) [
  | none ↦ err "Embedded Follow missing actor field"
  | some follower ↦ elim (get_str "object" (fields o).additional_properties) [
    | none ↦ err "Embedded Follow missing object field"
    | some following ↦ ok (follower, following)
  ]
]

-- the pair of an answer to the follow that is stored under an id
unfoldable pub stored_follow :
    Activity
    → ActorDocument
    → String
    → Result String (Option ActivityDocument)
    → Result String (String × String)
stored_follow activity local_actor follow_id (ok (some doc)) = elim doc.object [
  | none ↦ err "Stored Follow activity missing object"
  | some following ↦ ok (doc.actor, following)
]
stored_follow activity local_actor follow_id (ok none) = elim (url_of activity.actor) [
  | none ↦ err "Accept activity missing actor"
  | some following ↦ ok (local_actor.actor_id, following)
]
stored_follow activity local_actor follow_id (err e) =
    err ("Failed to look up Follow activity " ⧺ follow_id ⧺ ": " ⧺ e)

-- whom the object of an `Undo` has been following
unfoldable pub undone_follow : ObjectOrLink → Option String
unfolding lookup
undone_follow (ObjectOrLink.object o) =
    let properties = (fields o).additional_properties in
    elim (get_str "type" properties) [
      | none ↦ none
      | some t ↦ if t == "Follow" then get_str "object" properties else none
    ]
undone_follow _ = none

module _ {Db : Type 0} (c : Collections Db) where
  unfoldable pub extract_follow_from_response :
      Activity → ActorDocument → Db → Result String (String × String)
  unfolding embedded_follow stored_follow
  extract_follow_from_response activity local_actor db = elim activity.object [
    | none ↦ err "Accept/Reject activity missing object field"
    | some (ObjectOrLink.object o) ↦ embedded_follow o
    | some (ObjectOrLink.url u) ↦
        stored_follow activity local_actor u.as_str (c.find_activity_by_id u.as_str db)
    | some (ObjectOrLink.link l) ↦ elim l.href [
      | none ↦ err "Link object missing href"
      | some u ↦ stored_follow activity local_actor u.as_str (c.find_activity_by_id u.as_str db)
    ]
  ]

  abbrev pub set_status : String → String → String → FollowStatus → Action Db (Unit {0})
  set_status text follower following status = writes (λ db.
      let (r, db') = c.update_follow_status follower following status db in (wrapped text r, db'))

  abbrev pub store : ActivityDocument → Action Db (Unit {0})
  store doc = writes (λ db.
      let (r, db') = c.insert_activity doc db in (wrapped "Failed to store activity: " r, db'))

module _ {Db : Type 0} (c : Collections Db) (env : Environment) where
  abbrev pub serialized : Activity → Action Db Value
  serialized activity = lift (wrapped "Failed to serialize activity: " (env.to_value activity))

  -- `handle_follow_activity` for a known follower
  unfoldable pub follow_of : Activity → ActorDocument → String → Action Db (Unit {0})
  follow_of activity target follower = do
    writes (λ db.
        let (r, db') = c.insert_follow (follow_document env activity follower target.actor_id) db in
        (wrapped "Failed to store follow: " r, db'))
    json ← serialized activity
    publish env (outgoing (accept_activity env json target.actor_id))
    set_status c "Failed to update follow status: " follower target.actor_id accepted

  unfoldable pub handle_follow_activity : Activity → ActorDocument → Action Db (Unit {0})
  unfolding follow_of
  handle_follow_activity activity target = elim (url_of activity.actor) [
    | none ↦ lift (err "Missing or invalid actor in follow activity")
    | some follower ↦ follow_of activity target follower
  ]

  -- `handle_accept_s2s_activity` and `handle_reject_s2s_activity`
  unfoldable pub handle_response :
      FollowStatus → String → Activity → ActorDocument → Action Db (Unit {0})
  unfolding extract_follow_from_response
  handle_response status text activity local_actor = do
    pair ← reads (extract_follow_from_response c activity local_actor)
    set_status c text pair.0 pair.1 status

  abbrev pub handle_accept_s2s_activity : Activity → ActorDocument → Action Db (Unit {0})
  handle_accept_s2s_activity =
      handle_response accepted "Failed to update follow status to Accepted: "

  abbrev pub handle_reject_s2s_activity : Activity → ActorDocument → Action Db (Unit {0})
  handle_reject_s2s_activity =
      handle_response rejected "Failed to update follow status to Rejected: "

  abbrev pub undo_follow : ActorDocument → Option String → Action Db (Unit {0})
  undo_follow actor none = pure tt
  undo_follow actor (some following) =
      set_status c "Failed to update follow status: " actor.actor_id following cancelled

  unfoldable pub handle_undo_activity : Activity → ActorDocument → Action Db (Unit {0})
  unfolding undone_follow document_of_json
  handle_undo_activity activity actor = do
    object ← lift (ok_or activity.object "Missing undo object")
    undo_follow actor (undone_follow object)
    json ← serialized activity
    store c (document_of_json env json)

  -- an object that a `Create` embeds
  unfoldable pub forward_object :
      ActorDocument → String → Option String → Object → Action Db (Unit {0})
  unfolding lookup
  forward_object actor domain username o = elim (get_str "type" (fields o).additional_properties) [
    | none ↦ pure tt
    | some t ↦
        if (t == "Note") || (t == "Article")
        then (do
          json ← lift (wrapped "Failed to serialize object: " (env.object_value o))
          publish env (
              incoming_object json t (unwrap_or (get_text "attributedTo" json) actor.actor_id)
                domain username))
        else pure tt
  ]

  abbrev pub forward_embedded :
      ActorDocument → String → Option String → ObjectOrLink → Action Db (Unit {0})
  forward_embedded actor domain username (ObjectOrLink.object o) =
      forward_object actor domain username o
  forward_embedded actor domain username _ = pure tt

  abbrev pub forward_activity : Activity → String → String → Option String → Action Db (Unit {0})
  forward_activity activity unnamed domain username = do
    json ← serialized activity
    publish env (
        incoming_activity json activity.activity_type (unwrap_or (url_of activity.actor) unnamed)
          domain username)

  unfoldable pub handle_create_activity :
      Activity → ActorDocument → String → Option String → Action Db (Unit {0})
  unfolding forward_object
  handle_create_activity activity actor domain username = do
    object ← lift (ok_or activity.object "Missing create object")
    forward_embedded actor domain username object
    forward_activity activity actor.actor_id domain username

  -- `Update`, `Delete`, `Like` and `Announce` are stored alike
  unfoldable pub store_activity_struct : Activity → Action Db (Unit {0})
  unfolding document_of_struct
  store_activity_struct activity = store c (document_of_struct env activity)

  -- the `match` of `process_incoming_activity`
  unfoldable pub handle_as :
      ActivityType → Activity → ActorDocument → String → String → Action Db (Unit {0})
  unfolding handle_follow_activity handle_response handle_undo_activity handle_create_activity
      store_activity_struct
  handle_as follow activity actor domain username = handle_follow_activity activity actor
  handle_as undo activity actor domain username = handle_undo_activity activity actor
  handle_as create activity actor domain username =
      handle_create_activity activity actor domain (some username)
  handle_as update activity actor domain username = store_activity_struct activity
  handle_as delete activity actor domain username = store_activity_struct activity
  handle_as like activity actor domain username = store_activity_struct activity
  handle_as announce activity actor domain username = store_activity_struct activity
  handle_as accept activity actor domain username = handle_accept_s2s_activity activity actor
  handle_as reject activity actor domain username = handle_reject_s2s_activity activity actor
  handle_as _ activity actor domain username = pure tt

  unfoldable pub process_incoming_activity :
      Activity → ActorDocument → String → String → Action Db (Unit {0})
  unfolding handle_as
  process_incoming_activity activity = handle_as activity.activity_type activity
