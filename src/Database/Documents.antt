-- ===== src/Database/Documents.antt =====
-- The documents of src/database.rs that the commands write, and the profile of src/webfinger.rs.
-- A BSON document is a `Value`.
use oxifed.Base.{ℕ, String, Bool, Option, some, List, Result, ok, err, ◌>>=◌, ◌>>◌, ℤ}
use oxifed.Vocab.{Value, Properties, ObjectType}
use oxifed.Inbox.Types.{ActorStatus, StoredTime, read_time, FollowDocument, ActivityDocument}
use oxifed.Commands.Domains.{DomainDocument}
use oxifed.Pki.{TrustLevel}
use oxifed.Signature.Types.{DateTime}

pub record PublicKeyDocument : Type 0 where
  pub id : String
  pub owner : String
  pub public_key_pem : String
  pub algorithm : String
  pub key_size : Option ℕ
  pub fingerprint : String
  pub created_at : ℕ

pub record ImageAttachment : Type 0 where
  pub url : String
  pub media_type : String

pub data Attachment : Type 0 where
  image : ImageAttachment → Attachment
  property_value : (name value : String) → Attachment
  file : (url : String) → Attachment

-- What the field `icon` of a stored actor holds: the text of an `ActorDocument`, or the document
-- that an update writes there.
pub data Icon : Type 0 where
  text : String → Icon
  document : ImageAttachment → Icon

pub record ActorDocument : Type 0 where
  pub actor_id : String
  pub name : String
  pub preferred_username : String
  pub domain : String
  pub actor_type : String
  pub summary : Option String
  pub icon : Option Icon
  pub image : Option String
  pub inbox : String
  pub outbox : String
  pub following : String
  pub followers : String
  pub liked : Option String
  pub featured : Option String
  pub public_key : Option PublicKeyDocument
  pub endpoints : Option Value
  pub attachment : Option (List Attachment)
  pub additional_properties : Option Value
  pub status : ActorStatus
  pub created_at : ℕ
  pub updated_at : StoredTime
  pub local : Bool
  pub followers_count : ℤ
  pub following_count : ℤ
  pub statuses_count : ℤ

-- `serde` reads `icon` and `updated_at` as texts
unfoldable pub read_icon : ActorDocument → Option Icon → Result String ActorDocument
read_icon actor (some (document _)) = err "invalid type: map, expected a string"
read_icon actor _ = ok actor

unfoldable pub read_actor : ActorDocument → Result String ActorDocument
unfolding read_time read_icon
read_actor actor = do read ← read_icon actor actor.icon; read_time read.updated_at; ok read

pub record TagDocument : Type 0 where
  pub tag_type : String
  pub name : String
  pub href : Option String

pub data VisibilityLevel : Type 0 where
  public unlisted followers direct : VisibilityLevel

-- `attachment` is `None` in all that is written
pub record ObjectDocument : Type 0 where
  pub object_id : String
  pub object_type : ObjectType
  pub attributed_to : String
  pub content : Option String
  pub summary : Option String
  pub name : Option String
  pub media_type : Option String
  pub url : Option String
  pub published : Option ℕ
  pub updated : Option ℕ
  pub to : Option (List String)
  pub cc_to : Option (List String)
  pub bto : Option (List String)
  pub bcc : Option (List String)
  pub audience : Option (List String)
  pub in_reply_to : Option String
  pub conversation : Option String
  pub tag : Option (List TagDocument)
  pub language : Option String
  pub sensitive : Option Bool
  pub additional_properties : Option Value
  pub local : Bool
  pub visibility : VisibilityLevel
  pub created_at : ℕ
  pub reply_count : ℤ
  pub like_count : ℤ
  pub announce_count : ℤ

pub data KeyType : Type 0 where
  user domain master instance_key : KeyType

pub data KeyStatus : Type 0 where
  active revoked expired pending : KeyStatus

-- `rotation_policy` is always that of the default policy, and is left out.
pub record KeyDocument : Type 0 where
  pub key_id : String
  pub actor_id : String
  pub key_type : KeyType
  pub algorithm : String
  pub key_size : Option ℕ
  pub public_key_pem : String
  pub private_key_pem : Option String
  pub encryption_algorithm : Option String
  pub fingerprint : String
  pub trust_level : TrustLevel
  pub domain_signature : Option Value
  pub master_signature : Option Value
  pub usage : List String
  pub status : KeyStatus
  pub created_at : DateTime
  pub expires_at : Option DateTime
  pub domain : Option String

-- `webfinger::Link`
pub record JrdLink : Type 0 where
  pub rel : String
  pub type_ : Option String
  pub href : Option String
  pub titles : Option Properties
  pub properties : Option Properties

pub record JrdResource : Type 0 where
  pub subject : Option String
  pub aliases : Option (List String)
  pub properties : Option Properties
  pub links : Option (List JrdLink)

-- A document of the collection `outbox`, which has no type of its own in the source.
pub record OutboxItem : Type 0 where
  pub actor : String
  pub activity_id : String
  pub created_at : ℕ

-- The collections of the database, each by its documents.
pub record Store : Type 0 where
  pub actors : List ActorDocument
  pub objects : List ObjectDocument
  pub activities : List ActivityDocument
  pub keys : List KeyDocument
  pub domains : List DomainDocument
  pub follows : List FollowDocument
  pub webfinger_profiles : List JrdResource
  pub outbox : List OutboxItem
