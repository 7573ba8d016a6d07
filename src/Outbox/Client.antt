-- ===== src/Outbox/Client.antt =====
-- `process_client_activity` and `post_outbox`.
use oxifed.Base.{
  String, Bool, false, none, some, Result, ok, err, ok_or, ◌⧺◌, ◌==◌, unwrap_or, and_then,
  if◌then◌else◌,
}
use oxifed.Vocab.{Value, string, dictionary, Entries, entries, lookup, as_str}
use oxifed.Inbox.Types.{outgoing, State, Action, pure, lift, writes, publish, ◌>>=◌, ◌>>◌}
use oxifed.Inbox.Documents.{Headers, document_of_json}
use oxifed.Inbox.Handlers.{store, wrapped}
use oxifed.Database.Documents.{OutboxItem, Store}
use oxifed.Database.Collections.{collections}
use oxifed.Commands.Persons.{actor_id_of}
use oxifed.Outbox.Access.{verify_client_authentication}
use oxifed.Outbox.Entities.{set_value, set_absent}
use oxifed.Outbox.Activities.{Outbox, process_as}

abbrev pub is_text : String → Value → Bool
is_text s (string t) = t == s
is_text s _ = false

-- the activity with its actor, which must be the user
unfoldable pub with_actor : String → Entries → Result String Entries
unfolding lookup set_value
with_actor actor_id es = elim (lookup "actor" (entries es)) [
  | none ↦ ok (set_value "actor" (string actor_id) es)
  | some existing ↦
      if is_text actor_id existing
      then ok es
      else err "Actor mismatch: activity actor must match authenticated user"
]

-- the id of the activity, which is the client's if it has one; an id that is no text is ""
unfoldable pub id_or : String → Entries → String
unfolding lookup
id_or new es = elim (lookup "id" (entries es)) [ some id ↦ unwrap_or (as_str id) "" | none ↦ new ]

abbrev pub new_activity_id : Outbox → String
new_activity_id x = "https://" ⧺ x.domain ⧺ "/activities/" ⧺ x.env.uuid

-- the activity with its id and its time
unfoldable pub complete_activity : Outbox → Entries → Entries
unfolding set_absent
complete_activity x es =
    set_absent "published" (string (x.env.to_rfc3339 x.env.now))
      (set_absent "id" (string (new_activity_id x)) es)

abbrev pub outbox_item : Outbox → (activity_id username : String) → OutboxItem
outbox_item x activity_id username = record {
  actor = actor_id_of username x.domain;
  activity_id = activity_id;
  created_at = x.env.now;
}

abbrev pub add_to_outbox : Outbox → (activity_id username : String) → Action Store (Unit {0})
add_to_outbox x activity_id username = writes (λ (s : Store).
    let (r, items) = x.drivers.outbox.insert_one (outbox_item x activity_id username) s.outbox in
    (wrapped "Failed to add to outbox: " r, record s { outbox = items }))

-- what follows when the activity has been processed
unfoldable pub record_and_publish : Outbox → String → String → Value → Action Store String
unfolding document_of_json collections
record_and_publish x activity_id username activity = do
  store (collections x.drivers) (document_of_json x.env activity)
  add_to_outbox x activity_id username
  publish x.env (outgoing activity)
  pure activity_id

abbrev pub type_of : Entries → Result String String
type_of es = ok_or (and_then (lookup "type" (entries es)) as_str) "Activity must have a type field"

unfoldable pub process_client_activity : Outbox → Value → String → Action Store String
unfolding with_actor id_or complete_activity record_and_publish process_as actor_id_of lookup
process_client_activity x (dictionary es) username = do
  named ← lift (with_actor (actor_id_of username x.domain) es)
  let activity_id = id_or (new_activity_id x) named
  let complete = complete_activity x named
  activity_type ← lift (type_of complete)
  processed ← process_as activity_type x username complete
  record_and_publish x activity_id username (dictionary processed)
process_client_activity x v username = lift (err "Activity must be a JSON object")

pub data Response : Type 0 where
  -- `201 Created` with the location
  created : String → Response
  no_content bad_request unauthorized forbidden : Response

abbrev pub answer : Outbox → Result String String × State Store → Response × State Store
answer x (ok activity_url, s) =
    (created (if x.is_header_value activity_url then activity_url else ""), s)
answer x (err _, s) = (bad_request, s)

unfoldable pub post_outbox :
    Outbox → String → Headers → Value → State Store → Response × State Store
unfolding verify_client_authentication process_client_activity
post_outbox x username headers activity s =
    if verify_client_authentication x.tokens headers username
    then answer x (process_client_activity x activity username s)
    else (unauthorized, s)
