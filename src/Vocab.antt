-- ===== src/Vocab.antt =====
-- The ActivityStreams vocabulary of src/lib.rs: JSON values, URLs, objects, links and activities.
-- A `Url` of the `url` crate is its serialization: that is how the crate compares, orders and
-- prints it. Parsing and taking apart a URL are operations of the crate, given as a `UrlLib`.
pub mod Entity
use oxifed.Base.{ℕ, String, Bool, Option, none, some, List, [], ◌∷◌, ◌==◌, if◌then◌else◌, and_then}

pub record Url : Type 0 where
  pub as_str : String

pub record UrlLib : Type 0 where
  -- `Url::parse`, `Err` as `none`
  pub parse : String → Option Url
  pub scheme : Url → String
  pub host_str : Url → Option String
  pub port : Url → Option ℕ
  pub path : Url → String
  pub query : Url → Option String
  -- `set_scheme`, `Err` as `none`
  pub set_scheme : Url → String → Option Url

mutual
  -- serde_json::Value
  pub data Value : Type 0 where
    null : Value
    bool : Bool → Value
    number : ℕ → Value
    string : String → Value
    array : Elements → Value
    dictionary : Entries → Value

  pub data Elements : Type 0 where
    nil : Elements
    cons : Value → Elements → Elements

  pub data Entries : Type 0 where
    end : Entries
    entry : String → Value → Entries → Entries

abbrev pub elements : Elements → List Value
elements Elements.nil = []
elements (Elements.cons v vs) = v ∷ elements vs

abbrev pub entries : Entries → List (String × Value)
entries Entries.end = []
entries (Entries.entry k v es) = (k, v) ∷ entries es

-- A `HashMap<String, Value>` by its entries.
abbrev pub Properties : Type 0
Properties = List (String × Value)

-- `HashMap::get`
unfoldable pub lookup {ℓ} : {V : Type ℓ} → String → List (String × V) → Option V
lookup k [] = none
lookup k ((j, v) ∷ m) = if j == k then some v else lookup k m

pub data ObjectType : Type 0 where
  object link activity intransitive_activity collection ordered_collection : ObjectType
  collection_page ordered_collection_page : ObjectType
  application group organization person service : ObjectType
  article audio document event image note page place profile relationship tombstone : ObjectType
  video other : ObjectType

pub data ActivityType : Type 0 where
  accept add announce arrive block create delete dislike flag follow ignore invite : ActivityType
  join leave like listen move offer question reject read remove : ActivityType
  tentative_reject tentative_accept travel undo update view other : ActivityType

-- `struct Object`, but for `attributed_to`, which makes the type recursive.
pub record ObjectFields : Type 0 where
  pub object_type : ObjectType
  pub id : Option Url
  pub name : Option String
  pub summary : Option String
  pub content : Option String
  pub url : Option Url
  pub published : Option ℕ
  pub updated : Option ℕ
  pub additional_properties : Properties

pub record Link : Type 0 where
  pub link_type : ObjectType
  pub href : Option Url
  pub name : Option String
  pub media_type : Option String
  pub hreflang : Option String
  pub additional_properties : Properties

mutual
  pub data Object : Type 0 where
    object_of : ObjectFields → Attribution → Object

  -- `Option<ObjectOrLink>`, the type of `attributed_to`
  pub data Attribution : Type 0 where
    nobody : Attribution
    attributed_to : ObjectOrLink → Attribution

  pub data ObjectOrLink : Type 0 where
    object : Object → ObjectOrLink
    link : Link → ObjectOrLink
    url : Url → ObjectOrLink

abbrev pub fields : Object → ObjectFields
fields (object_of f _) = f

pub record Activity : Type 0 where
  pub activity_type : ActivityType
  pub id : Option Url
  pub name : Option String
  pub summary : Option String
  pub actor : Option ObjectOrLink
  pub object : Option ObjectOrLink
  pub target : Option ObjectOrLink
  pub published : Option ℕ
  pub updated : Option ℕ
  pub additional_properties : Properties

pub record Collection : Type 0 where
  pub collection_type : ObjectType
  pub id : Option Url
  pub name : Option String
  pub total_items : Option ℕ
  pub items : List ObjectOrLink
  pub additional_properties : Properties

-- `Value::get` with a name, which only an object can have
unfoldable pub get : String → Value → Option Value
unfolding lookup
get k (dictionary es) = lookup k (entries es)
get k _ = none

-- `Value::as_str`
abbrev pub as_str : Value → Option String
as_str (string s) = some s
as_str _ = none

-- `additional_properties.get(key).and_then(|v| v.as_str())`
abbrev pub get_str : String → Properties → Option String
get_str k m = and_then (lookup k m) as_str

-- `.actor.as_ref().and_then(|a| match a { Url(url) => Some(url.as_str()), _ => None })`
abbrev pub url_of : Option ObjectOrLink → Option String
url_of (some (ObjectOrLink.url u)) = some u.as_str
url_of _ = none
