-- ===== src/Vocab/Entity.antt =====
-- `Deserialize for ActivityPubEntity` of src/lib.rs: which type a JSON value is read as. The
-- derived decoders of the single types are `serde`'s.
use oxifed.Base.{
  String, Bool, some, List, [], ◌∷◌, ◌==◌, any, if◌then◌else◌, Result, ok, err, ◌>>=◌,
}
use oxifed.Vocab.{Value, string, get, Activity, Object, Link, Collection}

-- `struct Actor`, as far as a delivery needs it
pub record Actor : Type 0 where
  pub id : String
  pub name : String
  pub domain : String
  pub inbox_url : String
  pub outbox_url : String

pub data ActivityPubEntity : Type 0 where
  actor : Actor → ActivityPubEntity
  activity : Activity → ActivityPubEntity
  object : Object → ActivityPubEntity
  link : Link → ActivityPubEntity
  collection : Collection → ActivityPubEntity

pub record Serde : Type 0 where
  pub from_str : String → Result String Value
  pub actor_of : Value → Result String Actor
  pub activity_of : Value → Result String Activity
  pub object_of : Value → Result String Object
  pub link_of : Value → Result String Link
  pub collection_of : Value → Result String Collection

unfoldable pub is_one_of : List String → String → Bool
is_one_of names s = any (λ n. s == n) names

abbrev activity_types : List String
activity_types =
    "Create" ∷ "Follow" ∷ "Accept" ∷ "Reject" ∷ "Add" ∷ "Remove" ∷ "Like" ∷ "Announce" ∷ "Undo"
    ∷ "Update" ∷ "Delete" ∷ "Block" ∷ "Offer" ∷ "Invite" ∷ []

abbrev collection_types : List String
collection_types =
    "Collection" ∷ "OrderedCollection" ∷ "CollectionPage" ∷ "OrderedCollectionPage" ∷ []

abbrev actor_types : List String
actor_types = "Person" ∷ "Application" ∷ "Group" ∷ "Organization" ∷ "Service" ∷ []

module _ (serde : Serde) where
  abbrev as_object : Value → Result String ActivityPubEntity
  as_object v = do o ← serde.object_of v; ok (object o)

  -- first as an `Actor`; one that lacks a field is read as an object
  unfoldable pub as_actor : Value → Result String ActivityPubEntity
  as_actor v = elim (serde.actor_of v) [ ok a ↦ ok (actor a) | err _ ↦ as_object v ]

  unfoldable pub by_type : String → Value → Result String ActivityPubEntity
  unfolding is_one_of as_actor
  by_type t v =
      if is_one_of activity_types t
      then (do a ← serde.activity_of v; ok (activity a))
      else if is_one_of collection_types t
      then (do c ← serde.collection_of v; ok (collection c))
      else if t == "Link"
      then (do l ← serde.link_of v; ok (link l))
      else if is_one_of actor_types t
      then as_actor v
      else as_object v

  unfoldable pub deserialize : Value → Result String ActivityPubEntity
  unfolding get by_type
  deserialize v = elim (get "type" v) [ some (string t) ↦ by_type t v | _ ↦ as_object v ]

  unfoldable pub parse_activitypub_json : String → Result String ActivityPubEntity
  unfolding deserialize
  parse_activitypub_json json = do v ← serde.from_str json; deserialize v
