-- ===== src/Inbox/Documents.antt =====
-- The documents that the inbox stores (`store_activity_struct`, `store_activity`) and the domain
-- of a request, in domainservd/src/activitypub.rs and main.rs.
use oxifed.Base.{
  String, false, Option, none, some, List, [], ◌∷◌, ◌⧺◌, unwrap_or, map_option, and_then, or_else,
  first_part,
}
use oxifed.Vocab.{
  Url, UrlLib, Value, string, array, elements, ActivityType, accept, add, announce, arrive, block,
  create, delete, dislike, flag, follow, ignore, invite, join, leave, like, listen, move, offer,
  question, reject, read, remove, tentative_reject, tentative_accept, travel, undo, update, view,
  other, Activity, lookup, get, as_str, url_of,
}
use oxifed.Inbox.Types.{ActivityDocument, ActivityStatus, completed, Environment}

abbrev pub get_text : String → Value → Option String
get_text k v = and_then (get k v) as_str

-- The header's values by their names; `none` is a value that is not text.
abbrev pub Headers : Type 0
Headers = List (String × Option String)

-- the host without its port
unfoldable pub extract_domain_from_headers : Headers → Option String
unfolding first_part lookup
extract_domain_from_headers headers =
    map_option (λ host. first_part host 58) (and_then (lookup "host" headers) (λ v. v))

-- the host of a text that is a URL
abbrev pub host_of : UrlLib → Option String → Option String
host_of urls text = and_then (and_then text urls.parse) urls.host_str

unfoldable pub extract_domain_from_activity : UrlLib → Value → Option String
unfolding get
extract_domain_from_activity urls activity = or_else (host_of urls (get_text "actor" activity)) (
    or_else (host_of urls (get_text "object" activity))
      (host_of urls (and_then (get "object" activity) (get_text "id"))))

abbrev activity_type_names : List (String × ActivityType)
activity_type_names =
    ("Accept", accept)
    ∷ ("Add", add)
    ∷ ("Announce", announce)
    ∷ ("Arrive", arrive)
    ∷ ("Block", block)
    ∷ ("Create", create)
    ∷ ("Delete", delete)
    ∷ ("Dislike", dislike)
    ∷ ("Flag", flag)
    ∷ ("Follow", follow)
    ∷ ("Ignore", ignore)
    ∷ ("Invite", invite)
    ∷ ("Join", join)
    ∷ ("Leave", leave)
    ∷ ("Like", like)
    ∷ ("Listen", listen)
    ∷ ("Move", move)
    ∷ ("Offer", offer)
    ∷ ("Question", question)
    ∷ ("Reject", reject)
    ∷ ("Read", read)
    ∷ ("Remove", remove)
    ∷ ("TentativeReject", tentative_reject)
    ∷ ("TentativeAccept", tentative_accept)
    ∷ ("Travel", travel)
    ∷ ("Undo", undo)
    ∷ ("Update", update)
    ∷ ("View", view)
    ∷ []

unfoldable pub parse_activity_type : Option Value → ActivityType
unfolding lookup
parse_activity_type type_value =
    unwrap_or (and_then (and_then type_value as_str) (λ name. lookup name activity_type_names))
      other

-- the elements that are texts
abbrev pub texts : List Value → List String
texts [] = []
texts (string s ∷ vs) = s ∷ texts vs
texts (_ ∷ vs) = texts vs

abbrev pub unless_empty : List String → Option (List String)
unless_empty [] = none
unless_empty (s ∷ ss) = some (s ∷ ss)

unfoldable pub extract_string_array : Option Value → Option (List String)
extract_string_array (some (array vs)) = unless_empty (texts (elements vs))
extract_string_array (some (string s)) = some (s ∷ [])
extract_string_array _ = none

-- the document of an `Activity`
unfoldable pub document_of_struct : Environment → Activity → ActivityDocument
document_of_struct env activity = record {
  activity_id = unwrap_or (map_option (λ (u : Url). u.as_str) activity.id) ("unknown-" ⧺ env.uuid);
  activity_type = activity.activity_type;
  actor = unwrap_or (url_of activity.actor) "unknown";
  object = url_of activity.object;
  target = url_of activity.target;
  name = activity.name;
  summary = activity.summary;
  published = activity.published;
  updated = none;
  to = some [];
  cc_to = some [];
  bto = none;
  bcc = none;
  local = false;
  status = ActivityStatus.pending;
  created_at = env.now;
  attempts = 0;
}

-- the document of an activity as JSON
unfoldable pub document_of_json : Environment → Value → ActivityDocument
unfolding get parse_activity_type extract_string_array
document_of_json env activity = record {
  activity_id = unwrap_or (get_text "id" activity) ("unknown-" ⧺ env.uuid);
  activity_type = parse_activity_type (get "type" activity);
  actor = unwrap_or (get_text "actor" activity) "unknown";
  object = get_text "object" activity;
  target = get_text "target" activity;
  name = get_text "name" activity;
  summary = get_text "summary" activity;
  published = and_then (get_text "published" activity) env.parse_rfc3339;
  updated = none;
  to = extract_string_array (get "to" activity);
  cc_to = extract_string_array (get "cc" activity);
  bto = extract_string_array (get "bto" activity);
  bcc = extract_string_array (get "bcc" activity);
  local = false;
  status = completed;
  created_at = env.now;
  attempts = 0;
}
