-- ===== src/Commands/Persons.antt =====
-- `create_person_object`, `update_person_object`, `delete_person_object`, `create_user` and
-- `create_webfinger_profile` of rabbitmq.rs.
use oxifed.Base.{
  ℕ, String, Bool, true, Option, none, some, List, [], ◌∷◌, Result, ok, err, map_option, or_else,
  unwrap_or, is_some, if◌then◌else◌, ◌||◌, ◌⧺◌, pos,
}
use oxifed.Vocab.{Value, string, dictionary, Entries}
use oxifed.Inbox.Types
use oxifed.Inbox.Types.{as_text}
use oxifed.Pki.{rsa, UserKeyInfo, PkiError}
use oxifed.Pki.Manager.{new_manager, generate_user_key}
use oxifed.Database.Deletion.{delete_actor}
use oxifed.Database.Documents.{
  ActorDocument, PublicKeyDocument, KeyDocument, ImageAttachment, Attachment, document, JrdLink,
  JrdResource, Store,
}
use oxifed.Database.Manager
use oxifed.Database.Manager.{Drivers, done, has_subject}
use oxifed.Database.Collections.{collections}
use oxifed.Commands.Domains.{
  RabbitMqError, json_error, constraint_error, database_error, db_error, domain_not_found,
}
use oxifed.Commands.Follows.{split_subject, format_subject, does_domain_exist}
use oxifed.Commands.Keys.{public_key_document, key_document}
use oxifed.Commands.Services.{
  Services, document_or_default, Command, lift, reads, writes, attempts, ◌>>=◌, ◌>>◌,
}

pub record ProfileCreateMessage : Type 0 where
  pub subject : String
  pub summary : Option String
  pub icon : Option String
  pub properties : Option Value

pub record ProfileUpdateMessage : Type 0 where
  pub subject : String
  pub summary : Option String
  pub icon : Option ImageAttachment
  pub attachments : Option (List Attachment)
  pub properties : Option Value

-- `ProfileUpdateMessage::new`
unfoldable pub new_profile_update :
    String → Option String → Option String → Option Value → ProfileUpdateMessage
new_profile_update subject summary icon properties = record {
  subject = subject;
  summary = summary;
  icon = map_option (λ url. record { url = url; media_type = "image/jpeg" }) icon;
  attachments = none;
  properties = properties;
}

pub record ProfileDeleteMessage : Type 0 where
  pub id : String
  pub force : Bool

pub record UserCreateMessage : Type 0 where
  pub username : String
  pub display_name : Option String
  pub domain : String

-- the id of the actor of a name in a domain
unfoldable pub actor_id_of : (username domain : String) → String
actor_id_of username domain = "https://" ⧺ domain ⧺ "/users/" ⧺ username

unfoldable pub endpoints_of : String → Value
endpoints_of domain =
    dictionary
      (Entries.entry "sharedInbox" (string ("https://" ⧺ domain ⧺ "/sharedInbox")) Entries.end)

-- the document of a new actor, which the two commands make alike
unfoldable pub actor_document :
    Services
    → (username domain name : String) → (summary : Option String) (properties : Option Value)
    → Option PublicKeyDocument
    → ActorDocument
unfolding actor_id_of endpoints_of
actor_document x username domain name summary properties key =
    let actor_id = actor_id_of username domain in
    record {
      actor_id = actor_id;
      name = name;
      preferred_username = username;
      domain = domain;
      actor_type = "Person";
      summary = summary;
      icon = none;
      image = none;
      inbox = actor_id ⧺ "/inbox";
      outbox = actor_id ⧺ "/outbox";
      following = actor_id ⧺ "/following";
      followers = actor_id ⧺ "/followers";
      liked = some (actor_id ⧺ "/liked");
      featured = some (actor_id ⧺ "/featured");
      public_key = key;
      endpoints = some (document_or_default x (endpoints_of domain));
      attachment = none;
      additional_properties = map_option (document_or_default x) properties;
      status = Types.active;
      created_at = x.env.now;
      updated_at = as_text x.env.now;
      local = true;
      followers_count = pos 0;
      following_count = pos 0;
      statuses_count = pos 0;
    }

-- the documents of the key of a new actor; an actor without a key is stored too
abbrev pub key_documents :
    ℕ → String → Result PkiError UserKeyInfo → Option (PublicKeyDocument × KeyDocument)
key_documents now actor_id (err e) = none
key_documents now actor_id (ok key) =
    some (public_key_document now actor_id key, key_document none key)

unfoldable pub generated_documents : Services → String → Option (PublicKeyDocument × KeyDocument)
unfolding public_key_document key_document generate_user_key
generated_documents x actor_id =
    key_documents x.env.now actor_id
      (generate_user_key x.crates x.env.later actor_id (rsa 2048) new_manager).0

abbrev pub public_part : Option (PublicKeyDocument × KeyDocument) → Option PublicKeyDocument
public_part documents = map_option (λ (p : PublicKeyDocument × KeyDocument). p.0) documents

-- an error is only logged
abbrev pub save_key : Drivers → Option (PublicKeyDocument × KeyDocument) → Command (Unit {0})
save_key d none = lift (ok tt)
save_key d (some (_, key)) = attempts (Manager.insert_key d key)

abbrev pub unless_found {ℓ} : {A : Type ℓ} → Option A → RabbitMqError → Command (Unit {0})
unless_found none e = lift (ok tt)
unless_found (some _) e = lift (err e)

abbrev pub in_known_domain : Services → String → Command (Unit {0})
in_known_domain x domain s =
    if does_domain_exist (collections x.drivers) domain s
    then (ok tt, s)
    else (err (domain_not_found domain), s)

unfoldable pub self_link : String → JrdLink
self_link actor_url = record {
  rel = "self";
  type_ = some "application/activity+json";
  href = some actor_url;
  titles = none;
  properties = none;
}

unfoldable pub profile_of :
    String → String → Option (List String) → Option (List JrdLink) → JrdResource
unfolding self_link
profile_of subject actor_url aliases links = record {
  subject = some subject;
  aliases = aliases;
  properties = none;
  links = some (unwrap_or links (self_link actor_url ∷ []));
}

abbrev pub find_profile : Drivers → String → Store → Result String (Option JrdResource)
find_profile d subject s = d.webfinger_profiles.find_one (has_subject subject) s.webfinger_profiles

abbrev pub insert_profile : Drivers → JrdResource → Store → Result String (Unit {0}) × Store
insert_profile d profile s =
    let (r, profiles) = d.webfinger_profiles.insert_one profile s.webfinger_profiles in
    (r, record s { webfinger_profiles = profiles })

unfoldable pub create_webfinger_profile :
    Services
    → (subject actor_url : String) → Option (List String)
    → Option (List JrdLink)
    → Command (Unit {0})
unfolding profile_of format_subject
create_webfinger_profile x subject actor_url aliases links =
    let formatted = format_subject subject in
    do
      existing ← reads db_error (find_profile x.drivers formatted)
      unless_found existing (json_error ("Profile with subject '" ⧺ formatted ⧺ "' already exists"))
      writes db_error (insert_profile x.drivers (profile_of formatted actor_url aliases links))

abbrev pub alias_of : (username domain : String) → String
alias_of username domain = "https://" ⧺ domain ⧺ "/@" ⧺ username

unfoldable pub create_person_object : Services → ProfileCreateMessage → Command (Unit {0})
unfolding actor_document generated_documents create_webfinger_profile split_subject
create_person_object x message = do
  parts ← lift (split_subject message.subject)
  in_known_domain x parts.1
  let actor_id = actor_id_of parts.0 parts.1
  existing ← reads db_error (Manager.find_actor_by_id x.drivers actor_id)
  unless_found existing (json_error ("Actor with ID '" ⧺ actor_id ⧺ "' already exists"))
  let key = generated_documents x actor_id
  writes db_error (
      Manager.insert_actor x.drivers (
        actor_document x parts.0 parts.1 parts.0 message.summary message.properties
          (public_part key)))
  save_key x.drivers key
  create_webfinger_profile x message.subject actor_id (some (alias_of parts.0 parts.1 ∷ [])) none

unfoldable pub create_user : Services → UserCreateMessage → Command (Unit {0})
unfolding actor_document generated_documents create_webfinger_profile
create_user x message = do
  in_known_domain x message.domain
  let actor_id = actor_id_of message.username message.domain
  existing ← reads db_error (Manager.find_actor_by_id x.drivers actor_id)
  unless_found existing (
      constraint_error
        ("User '" ⧺ message.username ⧺ "' already exists on domain '" ⧺ message.domain ⧺ "'"))
  let key = generated_documents x actor_id
  writes database_error (
      Manager.insert_actor x.drivers (
        actor_document x message.username message.domain
          (unwrap_or message.display_name message.username) none none (public_part key)))
  save_key x.drivers key
  create_webfinger_profile x (message.username ⧺ "@" ⧺ message.domain) actor_id
      (some (alias_of message.username message.domain ∷ [])) none

-- the `$set` of an update; `properties` is not looked at
unfoldable pub profile_change : ProfileUpdateMessage → ActorDocument → ActorDocument
profile_change msg a = record a {
  summary = or_else msg.summary a.summary;
  icon = or_else (map_option document msg.icon) a.icon;
  attachment = or_else msg.attachments a.attachment;
}

abbrev pub changes_profile : ProfileUpdateMessage → Bool
changes_profile msg = is_some msg.summary || (is_some msg.icon || is_some msg.attachments)

-- nothing is written when there is nothing to set
unfoldable pub update_profile : Drivers → String → ProfileUpdateMessage → Command (Unit {0})
unfolding profile_change
update_profile d actor_id msg =
    if changes_profile msg
    then writes db_error (Manager.update_actor d actor_id (profile_change msg))
    else lift (ok tt)

unfoldable pub update_person_object : Services → ProfileUpdateMessage → Command (Unit {0})
unfolding update_profile split_subject actor_id_of
update_person_object x msg = do
  parts ← lift (split_subject msg.subject)
  in_known_domain x parts.1
  update_profile x.drivers (actor_id_of parts.0 parts.1) msg

abbrev pub delete_profile : Drivers → String → Store → Result String (Unit {0}) × Store
delete_profile d subject s =
    let (r, profiles) =
      d.webfinger_profiles.delete_one (has_subject subject) s.webfinger_profiles in
    done (r, record s { webfinger_profiles = profiles })

unfoldable pub delete_person_object : Services → ProfileDeleteMessage → Command (Unit {0})
unfolding split_subject actor_id_of
delete_person_object x msg = do
  parts ← lift (split_subject msg.id)
  writes db_error (delete_actor x.drivers (actor_id_of parts.0 parts.1))
  writes db_error (delete_profile x.drivers ("acct:" ⧺ parts.0 ⧺ "@" ⧺ parts.1))
