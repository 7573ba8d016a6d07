-- ===== src/Commands/Notes.antt =====
-- `create_note_object`, `update_note_object` and `delete_note_object` of rabbitmq.rs.
pub mod Ids
use oxifed.Base.{
  ℕ, String, Bool, true, false, Option, none, some, List, [], ◌∷◌, Result, ok, err, ok_or, map_err,
  map, map_option, or_else, is_some, not, if◌then◌else◌, ◌&&◌, ◌==◌, ◌⧺◌, show, split, trim, pos,
}
use oxifed.Vocab.{Url, UrlLib, Value, ObjectType, ActivityType}
use oxifed.Inbox.Types.{ActivityDocument, completed}
use oxifed.Database.Documents.{ObjectDocument, public, TagDocument, Store}
use oxifed.Database.Manager
use oxifed.Database.Collections.{collections}
use oxifed.Commands.Domains.{
  RabbitMqError, json_error, db_error, domain_not_found, url_parse, profile_not_found, bson_error,
}
use oxifed.Commands.Follows.{split_subject, parsed_url}
use oxifed.Commands.Persons.{actor_id_of, in_known_domain, unless_found}
use oxifed.Commands.Services.{
  Services, document_or_default, Command, lift, reads, writes, ◌>>=◌, ◌>>◌,
}

pub record NoteCreateMessage : Type 0 where
  pub author : String
  pub content : String
  pub summary : Option String
  pub mentions : Option String
  pub tags : Option String
  pub properties : Option Value

pub record NoteUpdateMessage : Type 0 where
  pub id : String
  pub content : Option String
  pub summary : Option String
  pub tags : Option String
  pub properties : Option Value

pub record NoteDeleteMessage : Type 0 where
  pub id : String
  pub force : Bool

-- the name in the parts of a path /u/{username}/notes/{uuid}
unfoldable pub name_in : List String → Option String
name_in (a ∷ u ∷ name ∷ notes ∷ b ∷ rest) =
    if (u == "u") && (notes == "notes") then some name else none
name_in _ = none

-- the name and the domain in the id of a note
unfoldable pub parse_note_id : UrlLib → String → Result RabbitMqError (String × String)
unfolding name_in split
parse_note_id urls id = elim (urls.parse id) [
  | none ↦ err (url_parse id)
  | some u ↦ elim (name_in (split (urls.path u) 47)) [
    | none ↦ err (json_error ("Invalid note ID format: " ⧺ id))
    | some name ↦ elim (urls.host_str u) [
      | none ↦ err (json_error ("Invalid domain in note ID: " ⧺ id))
      | some domain ↦ ok (name, domain)
    ]
  ]
]

-- the activity on a note that is stored
unfoldable pub note_activity :
    Services → ActivityType → (activity_id actor note_id : String) → ActivityDocument
note_activity x activity_type activity_id actor note_id = record {
  activity_id = activity_id;
  activity_type = activity_type;
  actor = actor;
  object = some note_id;
  target = none;
  name = none;
  summary = none;
  published = some x.env.now;
  updated = some x.env.now;
  to = none;
  cc_to = none;
  bto = none;
  bcc = none;
  local = true;
  status = completed;
  created_at = x.env.now;
  attempts = 0;
}

-- Nothing is published: an activity is built for its errors alone.
unfoldable pub publish_activity_document_to_exchange :
    Services → ActivityDocument → Result RabbitMqError (Unit {0})
publish_activity_document_to_exchange x activity = elim (parsed_url x.urls activity.activity_id) [
  | err e ↦ err e
  | ok _ ↦ elim (parsed_url x.urls activity.actor) [ err e ↦ err e | ok _ ↦ ok tt ]
]

unfoldable pub record_activity : Services → ActivityDocument → Command (Unit {0})
unfolding publish_activity_document_to_exchange
record_activity x activity = do
  writes db_error (Manager.insert_activity x.drivers activity)
  lift (publish_activity_document_to_exchange x activity)

unfoldable pub note_document :
    Services → NoteCreateMessage → (note_id actor_id : String) → ObjectDocument
note_document x msg note_id actor_id = record {
  object_id = note_id;
  object_type = ObjectType.note;
  attributed_to = actor_id;
  content = some msg.content;
  summary = msg.summary;
  name = none;
  media_type = some "text/html";
  url = some note_id;
  published = some x.env.now;
  updated = some x.env.now;
  to = none;
  cc_to = none;
  bto = none;
  bcc = none;
  audience = none;
  in_reply_to = none;
  conversation = none;
  tag = none;
  language = none;
  sensitive = some false;
  additional_properties = map_option (document_or_default x) msg.properties;
  local = true;
  visibility = public;
  created_at = x.env.now;
  reply_count = pos 0;
  like_count = pos 0;
  announce_count = pos 0;
}

unfoldable pub note_id_of : (username domain uuid : String) → String
note_id_of username domain uuid = "https://" ⧺ domain ⧺ "/u/" ⧺ username ⧺ "/notes/" ⧺ uuid

abbrev pub found {ℓ} :
    {A : Type ℓ} → Option A → RabbitMqError → Store → Result RabbitMqError A × Store
found o e = lift (ok_or o e)

unfoldable pub create_note_object : Services → NoteCreateMessage → Command (Unit {0})
unfolding split_subject actor_id_of note_id_of note_document note_activity record_activity
create_note_object x msg = do
  parts ← lift (split_subject msg.author)
  in_known_domain x parts.1
  let actor_id = actor_id_of parts.0 parts.1
  actor ← reads db_error (Manager.find_actor_by_id x.drivers actor_id)
  author ← found actor (profile_not_found actor_id)
  let note_id = note_id_of parts.0 parts.1 x.env.uuid
  note_url ← lift (parsed_url x.urls note_id)
  existing ← reads db_error (Manager.find_object_by_id x.drivers note_id)
  unless_found existing (json_error ("Note with ID '" ⧺ note_id ⧺ "' already exists"))
  actor_url ← lift (parsed_url x.urls actor_id)
  writes db_error (Manager.insert_object x.drivers (note_document x msg note_id actor_id))
  record_activity x (note_activity x ActivityType.create (note_id ⧺ "/activity") actor_id note_id)

unfoldable pub tag_documents : String → String → List TagDocument
unfolding split trim
tag_documents domain tags =
    map
      (λ part.
        let tag = trim part in
        record {
          tag_type = "Hashtag";
          name = tag;
          href = some ("https://" ⧺ domain ⧺ "/tags/" ⧺ tag);
        })
      (split tags 44)

-- the custom properties as a document
unfoldable pub properties_to_set : Services → Option Value → Result RabbitMqError (Option Value)
properties_to_set x none = ok none
properties_to_set x (some v) = elim (x.to_document v) [
  | err e ↦ err (bson_error e)
  | ok d ↦ ok (some d)
]

unfoldable pub note_change :
    Services → NoteUpdateMessage → String → Option Value → ObjectDocument → ObjectDocument
unfolding tag_documents
note_change x msg domain properties o = record o {
  content = or_else msg.content o.content;
  summary = or_else msg.summary o.summary;
  tag = or_else (map_option (tag_documents domain) msg.tags) o.tag;
  additional_properties = or_else properties o.additional_properties;
  updated = some x.env.now;
}

abbrev stamped : Services → String → String → String
stamped x id action = id ⧺ action ⧺ show (x.timestamp_millis x.env.now)

unfoldable pub update_note_object : Services → NoteUpdateMessage → Command (Unit {0})
unfolding parse_note_id properties_to_set note_change note_activity record_activity actor_id_of show
update_note_object x msg = do
  parts ← lift (parse_note_id x.urls msg.id)
  in_known_domain x parts.1
  existing ← reads db_error (Manager.find_object_by_id x.drivers msg.id)
  note ← found existing (json_error ("Note not found: " ⧺ msg.id))
  properties ← lift (properties_to_set x msg.properties)
  writes db_error (Manager.update_object x.drivers msg.id (note_change x msg parts.1 properties))
  record_activity x (
      note_activity x ActivityType.update (stamped x msg.id "/update/")
        (actor_id_of parts.0 parts.1) msg.id)

-- the note, which a forced deletion does not look for
abbrev pub sought : Services → NoteDeleteMessage → Store → Result String (Option ObjectDocument)
sought x msg s = if msg.force then ok none else Manager.find_object_by_id x.drivers msg.id s

abbrev pub must_exist : NoteDeleteMessage → Option ObjectDocument → Result RabbitMqError (Unit {0})
must_exist msg note =
    if not (is_some note) && not msg.force
    then err (json_error ("Note not found: " ⧺ msg.id))
    else ok tt

abbrev pub record_deletion : Services → String → String → Option ObjectDocument → Command (Unit {0})
record_deletion x id actor_id none = lift (ok tt)
record_deletion x id actor_id (some _) =
    record_activity x (note_activity x ActivityType.delete (stamped x id "/delete/") actor_id id)

unfoldable pub delete_note_object : Services → NoteDeleteMessage → Command (Unit {0})
unfolding parse_note_id note_activity record_activity actor_id_of show
delete_note_object x msg = do
  parts ← lift (parse_note_id x.urls msg.id)
  in_known_domain x parts.1
  note ← reads db_error (sought x msg)
  lift (must_exist msg note)
  writes db_error (Manager.delete_object x.drivers msg.id)
  record_deletion x msg.id (actor_id_of parts.0 parts.1) note
