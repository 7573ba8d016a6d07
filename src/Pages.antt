-- ===== src/Pages.antt =====
-- The endpoints of domainservd/src/activitypub.rs that serve the collections of an actor, an object
-- and an activity.
mod Kinds
pub mod Listed
use oxifed.Base.{
  ℕ, ◌+◌, ◌-◌, ◌^◌, String, Option, none, some, List, [], ◌∷◌, Result, ok, err, ◌>>=◌, ◌⧺◌, ℤ, pos,
  negsuc, leb, length, map, map_option, unwrap_or, if◌then◌else◌,
}
use oxifed.Vocab.{Value, null, bool, string, array, Elements, dictionary, Entries}
use oxifed.Inbox.Types.{active, ActivityDocument, Environment}
use oxifed.Inbox.Documents.{Headers, extract_domain_from_headers}
use oxifed.Inbox.Post.{StatusCode, bad_request, not_found, gone, internal_server_error}
use oxifed.Database.Documents.{ActorDocument, TagDocument, ObjectDocument, Store}
use oxifed.Database.Manager.{
  Drivers, find_actor_by_username, get_actor_followers, get_actor_following, find_objects_by_actor,
  find_object_by_id, find_activity_by_id,
}
use oxifed.Pages.Kinds.{object_name, activity_name}

-- `ActivityPubCollection`, but for the fields that are the same in all
pub record ActivityPubCollection : Type 0 where
  pub id : String
  pub total_items : Option ℕ
  pub ordered_items : Option (List Value)

-- an error of the database is 500
abbrev pub or_500 : {A : Type 0} → Result String A → Result StatusCode A
or_500 (ok a) = ok a
or_500 (err _) = err internal_server_error

abbrev pub or_404 : {A : Type 0} → Result String (Option A) → Result StatusCode A
or_404 (ok (some a)) = ok a
or_404 (ok none) = err not_found
or_404 (err _) = err internal_server_error

abbrev pub or_400 : Option String → Result StatusCode String
or_400 (some domain) = ok domain
or_400 none = err bad_request

abbrev pub unless_gone : ActorDocument → Result StatusCode ActorDocument
unless_gone actor = elim actor.status [ active ↦ ok actor | _ ↦ err gone ]

-- the JSON of an optional text and of an optional list of texts
abbrev text_or_null : Option String → Value
text_or_null none = null
text_or_null (some s) = string s

abbrev values : List Value → Elements
values [] = Elements.nil
values (v ∷ vs) = Elements.cons v (values vs)

abbrev texts_or_null : Option (List String) → Value
texts_or_null none = null
texts_or_null (some ss) = array (values (map (λ (s : String). string s) ss))

-- a tag as `serde` writes it
abbrev tag_value : TagDocument → Value
tag_value t = dictionary (
    Entries.entry "tag_type" (string t.tag_type) (
      Entries.entry "name" (string t.name)
        (Entries.entry "href" (text_or_null t.href) Entries.end)))

abbrev tags_or_null : Option (List TagDocument) → Value
tags_or_null none = null
tags_or_null (some ts) = array (values (map tag_value ts))

abbrev json : List (String × Value) → Entries
json [] = Entries.end
json ((k, v) ∷ m) = Entries.entry k v (json m)

-- `as u64` of an `i64`
unfoldable pub as_u64 : ℤ → ℕ
as_u64 (pos n) = n
as_u64 (negsuc n) = 2 ^ 64 - (n + 1)

abbrev pub listing : String → List String → ActivityPubCollection
listing id items = record {
  id = id;
  total_items = some (length items);
  ordered_items = some (map (λ (t : String). string t) items);
}

-- the activity that is made up for an object of the outbox, with a UUID of its own
unfoldable pub created_item : Environment → ActorDocument → String → ObjectDocument → Value
unfolding object_name
created_item env actor uuid o =
    let published = string (env.to_rfc3339 (unwrap_or o.published o.created_at)) in
    let object : Value = dictionary (
      json (
        ("type", string (object_name o.object_type))
        ∷ ("id", string o.object_id)
        ∷ ("attributedTo", string o.attributed_to)
        ∷ ("content", text_or_null o.content)
        ∷ ("summary", text_or_null o.summary)
        ∷ ("published", published)
        ∷ ("to", texts_or_null o.to)
        ∷ ("cc", texts_or_null o.cc_to)
        ∷ [])) in
    dictionary (
      json (
        ("type", string "Create")
        ∷ ("id", string (actor.actor_id ⧺ "/activities/" ⧺ uuid))
        ∷ ("actor", string actor.actor_id)
        ∷ ("published", published)
        ∷ ("object", object)
        ∷ []))

abbrev created_items :
    Environment → ActorDocument → (ℕ → String) → ℕ → List ObjectDocument → List Value
created_items env actor uuids n [] = []
created_items env actor uuids n (o ∷ os) =
    created_item env actor (uuids n) o ∷ created_items env actor uuids (n + 1) os

module _ (d : Drivers) where
  -- the active actor of a name in the domain of the request
  unfoldable pub served_actor : String → Headers → Store → Result StatusCode ActorDocument
  unfolding extract_domain_from_headers find_actor_by_username
  served_actor username headers s = do
    domain ← or_400 (extract_domain_from_headers headers)
    actor ← or_404 (find_actor_by_username d username domain s)
    unless_gone actor

  unfoldable pub get_followers : String → Headers → Store → Result StatusCode ActivityPubCollection
  unfolding served_actor get_actor_followers
  get_followers username headers s = do
    actor ← served_actor username headers s
    followers ← or_500 (get_actor_followers d actor.actor_id s)
    ok (listing actor.followers followers)

  unfoldable pub get_following : String → Headers → Store → Result StatusCode ActivityPubCollection
  unfolding served_actor get_actor_following
  get_following username headers s = do
    actor ← served_actor username headers s
    following ← or_500 (get_actor_following d actor.actor_id s)
    ok (listing actor.following following)

  -- always empty
  unfoldable pub get_featured : String → Headers → Store → Result StatusCode ActivityPubCollection
  unfolding served_actor
  get_featured username headers s = do
    actor ← served_actor username headers s
    ok (listing (unwrap_or actor.featured (actor.actor_id ⧺ "/featured")) [])

  -- at most 40 objects; `uuids` are the fresh UUIDs
  unfoldable pub get_outbox :
      Environment
      → (ℕ → String)
      → (limit : Option ℕ) → String
      → Headers
      → Store
      → Result StatusCode ActivityPubCollection
  unfolding served_actor find_objects_by_actor created_item as_u64
  get_outbox env uuids limit username headers s =
      let asked = unwrap_or limit 20 in
      do
        actor ← served_actor username headers s
        objects ←
            or_500 (find_objects_by_actor d actor.actor_id (if leb asked 40 then asked else 40) 0 s)
        ok (record {
          id = actor.outbox;
          total_items = some (as_u64 actor.statuses_count);
          ordered_items = some (created_items env actor uuids 0 objects);
        })

  -- no object has attachments
  unfoldable pub get_object : Environment → String → Headers → Store → Result StatusCode Value
  unfolding extract_domain_from_headers find_object_by_id object_name
  get_object env id headers s = do
    domain ← or_400 (extract_domain_from_headers headers)
    o ← or_404 (find_object_by_id d ("https://" ⧺ domain ⧺ "/objects/" ⧺ id) s)
    ok (
        dictionary (
          json (
            ("@context", string "https://www.w3.org/ns/activitystreams")
            ∷ ("type", string (object_name o.object_type))
            ∷ ("id", string o.object_id)
            ∷ ("attributedTo", string o.attributed_to)
            ∷ ("content", text_or_null o.content)
            ∷ ("summary", text_or_null o.summary)
            ∷ ("published", string (env.to_rfc3339 (unwrap_or o.published o.created_at)))
            ∷ ("to", texts_or_null o.to)
            ∷ ("cc", texts_or_null o.cc_to)
            ∷ ("inReplyTo", text_or_null o.in_reply_to)
            ∷ ("conversation", text_or_null o.conversation)
            ∷ ("sensitive", elim o.sensitive [ none ↦ null | some b ↦ bool b ])
            ∷ ("tag", tags_or_null o.tag)
            ∷ ("attachment", null)
            ∷ [])))

  unfoldable pub get_activity : Environment → String → Headers → Store → Result StatusCode Value
  unfolding extract_domain_from_headers find_activity_by_id activity_name
  get_activity env id headers s = do
    domain ← or_400 (extract_domain_from_headers headers)
    a ← or_404 (find_activity_by_id d ("https://" ⧺ domain ⧺ "/activities/" ⧺ id) s)
    ok (
        dictionary (
          json (
            ("@context", string "https://www.w3.org/ns/activitystreams")
            ∷ ("type", string (activity_name a.activity_type))
            ∷ ("id", string a.activity_id)
            ∷ ("actor", string a.actor)
            ∷ ("object", text_or_null a.object)
            ∷ ("target", text_or_null a.target)
            ∷ ("published", string (env.to_rfc3339 (unwrap_or a.published a.created_at)))
            ∷ ("to", texts_or_null a.to)
            ∷ ("cc", texts_or_null a.cc_to)
            ∷ [])))
