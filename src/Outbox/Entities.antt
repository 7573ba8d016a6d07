-- ===== src/Outbox/Entities.antt =====
-- The objects of a client's activities: `store_note_object`, `store_article_object`,
-- `store_object_from_c2s`, `verify_object_ownership` and `mark_object_deleted`, and the filters on
-- untyped documents.
use oxifed.Base.{
  String, Bool, false, Option, none, some, List, [], ◌∷◌, Result, ok, err, ◌==◌, ◌&&◌, ◌⧺◌,
  unwrap_or, and_then, is_some, pos, if◌then◌else◌,
}
use oxifed.Vocab.{Value, bool, Entries, entries, ObjectType, note, article, get, lookup}
use oxifed.Inbox.Types.{ActivityDocument, Environment, Action, pure, writes}
use oxifed.Inbox.Documents.{get_text, extract_string_array}
use oxifed.Inbox.Handlers.{wrapped}
use oxifed.Database.Documents.{ObjectDocument, public, Store}
use oxifed.Database.Manager.{Drivers, done, insert_object}
use oxifed.Commands.Persons.{actor_id_of}

abbrev as_bool : Value → Option Bool
as_bool (bool b) = some b
as_bool _ = none

-- the document of an object of a client, which is marked as not local
unfoldable pub object_document : Environment → ObjectType → Value → ObjectDocument
unfolding get extract_string_array
object_document env object_type object = record {
  object_id = unwrap_or (get_text "id" object) ("unknown-" ⧺ env.uuid);
  object_type = object_type;
  attributed_to = unwrap_or (get_text "attributedTo" object) "unknown";
  content = get_text "content" object;
  summary = get_text "summary" object;
  name = get_text "name" object;
  media_type = some "text/html";
  url = get_text "url" object;
  published = and_then (get_text "published" object) env.parse_rfc3339;
  updated = and_then (get_text "updated" object) env.parse_rfc3339;
  to = extract_string_array (get "to" object);
  cc_to = extract_string_array (get "cc" object);
  bto = extract_string_array (get "bto" object);
  bcc = extract_string_array (get "bcc" object);
  audience = extract_string_array (get "audience" object);
  in_reply_to = get_text "inReplyTo" object;
  conversation = get_text "conversation" object;
  tag = none;
  language = get_text "language" object;
  sensitive = and_then (get "sensitive" object) as_bool;
  additional_properties = none;
  local = false;
  visibility = public;
  created_at = env.now;
  reply_count = pos 0;
  like_count = pos 0;
  announce_count = pos 0;
}

-- the fields of a stored object that hold a text, by the names under which `serde` stores them
abbrev pub object_texts : ObjectDocument → List (String × Option String)
object_texts o =
    ("object_id", some o.object_id)
    ∷ ("attributed_to", some o.attributed_to)
    ∷ ("content", o.content)
    ∷ ("summary", o.summary)
    ∷ ("name", o.name)
    ∷ ("media_type", o.media_type)
    ∷ ("url", o.url)
    ∷ ("in_reply_to", o.in_reply_to)
    ∷ ("conversation", o.conversation)
    ∷ ("language", o.language)
    ∷ []

-- likewise of an activity, but for its type and its status, which `serde` stores as texts too
abbrev pub activity_texts : ActivityDocument → List (String × Option String)
activity_texts a =
    ("activity_id", some a.activity_id)
    ∷ ("actor", some a.actor)
    ∷ ("object", a.object)
    ∷ ("target", a.target)
    ∷ ("name", a.name)
    ∷ ("summary", a.summary)
    ∷ []

-- the text that a document has in a field
unfoldable pub text_at : String → List (String × Option String) → Option String
unfolding lookup
text_at field texts = and_then (lookup field texts) (λ t. t)

-- the test of a filter `{ field: text }`
abbrev pub has_text : String → String → List (String × Option String) → Bool
has_text field text texts = elim (text_at field texts) [ none ↦ false | some t ↦ t == text ]

-- a value with the field set, in place of the one that it has
unfoldable pub set_value : String → Value → Entries → Entries
set_value k v Entries.end = Entries.entry k v Entries.end
set_value k v (Entries.entry j w es) =
    let rest = set_value k v es in if j == k then Entries.entry j v es else Entries.entry j w rest

-- `if !obj.contains_key(k) { obj.insert(k, v) }`
unfoldable pub set_absent : String → Value → Entries → Entries
unfolding lookup set_value
set_absent k v es = if is_some (lookup k (entries es)) then es else set_value k v es

module _ (d : Drivers) (env : Environment) where
  abbrev pub store_document : String → ObjectDocument → Action Store (Unit {0})
  store_document text doc =
      writes (λ db. let (r, db') = insert_object d doc db in (wrapped text r, db'))

  unfoldable pub store_object_from_c2s : Value → Action Store (Unit {0})
  unfolding object_document get insert_object
  store_object_from_c2s object =
      let object_type = unwrap_or (get_text "type" object) "Note" in
      if object_type == "Note"
      then store_document "Failed to store note object: " (object_document env note object)
      else (if object_type == "Article"
          then store_document "Failed to store article object: "
              (object_document env article object)
          else pure tt)

  -- `deleted` is no field of an `ObjectDocument`
  unfoldable pub mark_object_deleted : String → Action Store (Unit {0})
  unfolding text_at
  mark_object_deleted object_id = writes (λ (s : Store).
      let (r, objects) =
        d.objects.update_one (λ o. has_text "id" object_id (object_texts o))
          (λ (o : ObjectDocument). record o { updated = some env.now }) s.objects in
      let (r', s') = done (r, record s { objects = objects }) in
      (wrapped "Failed to mark object as deleted: " r', s'))

-- the test of the filter by which an object belongs to a user
unfoldable pub is_owned : (domain object_id username : String) → ObjectDocument → Bool
unfolding text_at actor_id_of
is_owned domain object_id username o =
    has_text "id" object_id (object_texts o)
    && has_text "attributedTo" (actor_id_of username domain) (object_texts o)

module _ (d : Drivers) (domain : String) where
  unfoldable pub verify_object_ownership :
      (object_id username : String) → Store → Result String Bool
  unfolding is_owned
  verify_object_ownership object_id username s =
      elim (d.objects.find_one (is_owned domain object_id username) s.objects) [
        | ok found ↦ ok (is_some found)
        | err e ↦ err ("Database error: " ⧺ e)
      ]
