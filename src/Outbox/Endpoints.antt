-- ===== src/Outbox/Endpoints.antt =====
-- The other endpoints by which a client posts: `create_note`, `create_article`, `update_object` and
-- `delete_object`.
use oxifed.Base.{
  String, Bool, false, none, some, List, [], ◌∷◌, Result, ok, err, ◌⧺◌, unwrap_or, if◌then◌else◌,
}
use oxifed.Vocab.{Value, null, bool, string, array, Elements, dictionary, Entries, get}
use oxifed.Inbox.Types.{State}
use oxifed.Inbox.Documents.{Headers}
use oxifed.Database.Documents.{Store}
use oxifed.Commands.Persons.{actor_id_of}
use oxifed.Outbox.Access.{verify_client_authentication, extract_username_from_headers}
use oxifed.Outbox.Entities.{set_value, verify_object_ownership}
use oxifed.Outbox.Activities.{Outbox}
use oxifed.Outbox.Client.{
  Response, no_content, bad_request, unauthorized, forbidden, process_client_activity, post_outbox,
}

-- `json!({..})`
abbrev json : List (String × Value) → Entries
json [] = Entries.end
json ((k, v) ∷ m) = Entries.entry k v (json m)

abbrev texts : List String → Value
texts ss = array (go ss)
  where
    go : List String → Elements
    go [] = Elements.nil
    go (s ∷ ss) = Elements.cons (string s) (go ss)

-- a field of the body of a request, or else a value; what is missing is `null`
abbrev field_or : Value → String → Value → Value
field_or body k v = unwrap_or (get k body) v

abbrev to_public : Value
to_public = texts ("https://www.w3.org/ns/activitystreams#Public" ∷ [])

-- an activity of the user that wraps an object
abbrev pub wrap : Outbox → String → String → Value → Value
wrap x username activity_type object = dictionary (
    json (
      ("@context", string "https://www.w3.org/ns/activitystreams")
      ∷ ("type", string activity_type)
      ∷ ("actor", string (actor_id_of username x.domain))
      ∷ ("object", object)
      ∷ []))

abbrev pub to_followers : Outbox → String → Value
to_followers x username = texts ((actor_id_of username x.domain ⧺ "/followers") ∷ [])

unfoldable pub note_of : Outbox → String → Value → Value
unfolding actor_id_of get
note_of x username note = dictionary (
    json (
      ("type", string "Note")
      ∷ ("content", field_or note "content" (string ""))
      ∷ ("to", field_or note "to" to_public)
      ∷ ("cc", field_or note "cc" (to_followers x username))
      ∷ ("inReplyTo", field_or note "inReplyTo" null)
      ∷ ("sensitive", field_or note "sensitive" (bool false))
      ∷ ("summary", field_or note "summary" null)
      ∷ ("tag", field_or note "tag" null)
      ∷ ("attachment", field_or note "attachment" null)
      ∷ []))

unfoldable pub article_of : Outbox → String → Value → Value
unfolding actor_id_of get
article_of x username article = dictionary (
    json (
      ("type", string "Article")
      ∷ ("name", field_or article "name" (string "Untitled"))
      ∷ ("content", field_or article "content" (string ""))
      ∷ ("summary", field_or article "summary" null)
      ∷ ("to", field_or article "to" to_public)
      ∷ ("cc", field_or article "cc" (to_followers x username))
      ∷ ("tag", field_or article "tag" null)
      ∷ ("attachment", field_or article "attachment" null)
      ∷ []))

unfoldable pub create_note :
    Outbox → String → Headers → Value → State Store → Response × State Store
unfolding post_outbox note_of actor_id_of
create_note x username headers note =
    post_outbox x username headers (wrap x username "Create" (note_of x username note))

unfoldable pub create_article :
    Outbox → String → Headers → Value → State Store → Response × State Store
unfolding post_outbox article_of actor_id_of
create_article x username headers article =
    post_outbox x username headers (wrap x username "Create" (article_of x username article))

-- `update_object` and `delete_object`, for a user that the token names
abbrev pub owned_by : Outbox → (object_id username : String) → Store → Bool
owned_by x object_id username s =
    elim (verify_object_ownership x.drivers x.domain object_id username s) [
      | ok owned ↦ owned
      | err _ ↦ false
    ]

abbrev pub done_as : Result String String × State Store → Response × State Store
done_as (ok _, s) = (no_content, s)
done_as (err _, s) = (bad_request, s)

unfoldable pub change_object :
    Outbox → Headers → String → (String → Value) → State Store → Response × State Store
unfolding extract_username_from_headers verify_client_authentication verify_object_ownership
    process_client_activity
change_object x headers id activity s = elim (extract_username_from_headers x.tokens headers) [
  | none ↦ (unauthorized, s)
  | some username ↦
      if verify_client_authentication x.tokens headers username
      then (if owned_by x ("https://" ⧺ x.domain ⧺ "/objects/" ⧺ id) username s.db
          then done_as (process_client_activity x (activity username) username s)
          else (forbidden, s))
      else (unauthorized, s)
]

-- the updates of a request with the id of the object
abbrev pub with_object_id : String → Value → Value
with_object_id object_id (dictionary es) = dictionary (set_value "id" (string object_id) es)
with_object_id object_id _ = dictionary (set_value "id" (string object_id) Entries.end)

unfoldable pub update_object :
    Outbox → Headers → String → Value → State Store → Response × State Store
unfolding change_object actor_id_of set_value
update_object x headers id updates = change_object x headers id (λ username.
    wrap x username "Update" (with_object_id ("https://" ⧺ x.domain ⧺ "/objects/" ⧺ id) updates))

unfoldable pub delete_object : Outbox → Headers → String → State Store → Response × State Store
unfolding change_object actor_id_of
delete_object x headers id =
    change_object x headers id
      (λ username. wrap x username "Delete" (string ("https://" ⧺ x.domain ⧺ "/objects/" ⧺ id)))
