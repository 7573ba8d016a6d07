-- ===== src/Commands/Domains.antt =====
-- `create_domain_object`, `update_domain_object` and `delete_domain_object` of rabbitmq.rs.
pub mod Kept
use oxifed.Base.{
  ℕ, ◌≡◌, String, Bool, true, false, Option, none, some, ◌⊎◌, List, [], ◌∷◌, Result, ok, err,
  map_option, or_else, unwrap_or, if◌then◌else◌, ◌==◌, ◌⧺◌, ltb, ℤ, show, pos, and_then,
}
use oxifed.Vocab.{Value, Properties, lookup}

pub data RabbitMqError : Type 0 where
  json_error constraint_error database_error domain_not_found : String → RabbitMqError
  url_parse db_error profile_not_found bson_error : String → RabbitMqError

pub data RegistrationMode : Type 0 where
  open_mode approval invite closed : RegistrationMode

pub data DomainStatus : Type 0 where
  active suspended maintenance : DomainStatus

pub record DomainDocument : Type 0 where
  pub domain : String
  pub name : Option String
  pub description : Option String
  pub contact_email : Option String
  pub rules : Option (List String)
  pub registration_mode : RegistrationMode
  pub authorized_fetch : Bool
  pub max_note_length : Option ℤ
  pub max_file_size : Option ℤ
  pub allowed_file_types : Option (List String)
  pub domain_key_id : Option String
  pub config : Option Value
  pub status : DomainStatus
  pub created_at : ℕ
  pub updated_at : ℕ

-- `DomainCreateMessage` and `DomainUpdateMessage`, which have the same fields
pub record DomainMessage : Type 0 where
  pub domain : String
  pub name : Option String
  pub description : Option String
  pub contact_email : Option String
  pub rules : Option (List String)
  pub registration_mode : Option String
  pub authorized_fetch : Option Bool
  pub max_note_length : Option ℤ
  pub max_file_size : Option ℤ
  pub allowed_file_types : Option (List String)
  pub properties : Option Value

pub record DomainDeleteMessage : Type 0 where
  pub domain : String
  pub force : Bool

-- The collections of domains and actors in the database `Db`. A write returns the database after it.
pub record DomainCollections (Db : Type 0) : Type 0 where
  pub find_domain_by_name : String → Db → Result String (Option DomainDocument)
  pub insert_domain : DomainDocument → Db → Result String (Unit {0}) × Db
  -- `$set` of the fields that the function changes, in the document of a domain
  pub update_one : String → (DomainDocument → DomainDocument) → Db → Result String (Unit {0}) × Db
  pub count_actors : String → Db → Result String ℕ
  -- the number of documents that were deleted
  pub delete_one : String → Db → Result String ℕ × Db
  pub delete_actors : String → Db → Result String ℕ × Db

abbrev mode_names : List (String × RegistrationMode)
mode_names =
    ("open", open_mode) ∷ ("approval", approval) ∷ ("invite", invite) ∷ ("closed", closed) ∷ []

unfoldable pub parse_mode : String → Option RegistrationMode
unfolding lookup
parse_mode name = lookup name mode_names

-- `mongodb::bson::to_document(p).unwrap_or_default()` is `to_config`; the clock is read twice
unfoldable pub document_of : (Value → Value) → (now later : ℕ) → DomainMessage → DomainDocument
unfolding parse_mode
document_of to_config now later msg = record {
  domain = msg.domain;
  name = msg.name;
  description = msg.description;
  contact_email = msg.contact_email;
  rules = msg.rules;
  registration_mode = unwrap_or (and_then msg.registration_mode parse_mode) approval;
  authorized_fetch = unwrap_or msg.authorized_fetch false;
  max_note_length = msg.max_note_length;
  max_file_size = msg.max_file_size;
  allowed_file_types = msg.allowed_file_types;
  domain_key_id = none;
  config = map_option to_config msg.properties;
  status = active;
  created_at = now;
  updated_at = later;
}

-- the `update_doc` for a mode that has been parsed
unfoldable pub change_of :
    (Value → Value)
    → (now : ℕ) → DomainMessage
    → Option RegistrationMode
    → DomainDocument
    → DomainDocument
change_of to_config now msg mode d = record d {
  name = or_else msg.name d.name;
  description = or_else msg.description d.description;
  contact_email = or_else msg.contact_email d.contact_email;
  rules = or_else msg.rules d.rules;
  registration_mode = unwrap_or mode d.registration_mode;
  authorized_fetch = unwrap_or msg.authorized_fetch d.authorized_fetch;
  max_note_length = or_else msg.max_note_length d.max_note_length;
  max_file_size = or_else msg.max_file_size d.max_file_size;
  allowed_file_types = or_else msg.allowed_file_types d.allowed_file_types;
  config = or_else (map_option to_config msg.properties) d.config;
  updated_at = now;
}

-- the mode to set, if the message has one; an unknown name is an error
unfoldable pub mode_to_set : Option String → Result RabbitMqError (Option RegistrationMode)
unfolding parse_mode
mode_to_set none = ok none
mode_to_set (some name) = elim (parse_mode name) [
  | none ↦ err (json_error ("Invalid registration mode: " ⧺ name))
  | some mode ↦ ok (some mode)
]

abbrev pub database_result {ℓ κ} :
    {A : Type ℓ} {B : Type κ} → Result String A × B → Result RabbitMqError (Unit {0}) × B
database_result (ok _, b) = (ok tt, b)
database_result (err e, b) = (err (database_error e), b)

module _ {Db : Type 0} (c : DomainCollections Db) where
  unfoldable pub create_domain_object :
      (Value → Value) → (now later : ℕ) → DomainMessage → Db → Result RabbitMqError (Unit {0}) × Db
  unfolding document_of
  create_domain_object to_config now later msg db = elim (c.find_domain_by_name msg.domain db) [
    | ok (some _) ↦ (err (constraint_error ("Domain " ⧺ msg.domain ⧺ " already exists")), db)
    | _ ↦ database_result (c.insert_domain (document_of to_config now later msg) db)
  ]

  -- `find_domain_by_name(_).await?.is_none()`, and what follows for a domain that is found
  abbrev pub with_domain :
      String
      → Db
      → (Db → Result RabbitMqError (Unit {0}) × Db)
      → Result RabbitMqError (Unit {0}) × Db
  with_domain domain db k = elim (c.find_domain_by_name domain db) [
    | err e ↦ (err (database_error e), db)
    | ok none ↦ (err (domain_not_found ("Domain " ⧺ domain ⧺ " not found")), db)
    | ok (some _) ↦ k db
  ]

  unfoldable pub update_found :
      (Value → Value) → ℕ → DomainMessage → Db → Result RabbitMqError (Unit {0}) × Db
  unfolding mode_to_set change_of
  update_found to_config now msg db = elim (mode_to_set msg.registration_mode) [
    | err e ↦ (err e, db)
    | ok mode ↦ database_result (c.update_one msg.domain (change_of to_config now msg mode) db)
  ]

  unfoldable pub update_domain_object :
      (Value → Value) → ℕ → DomainMessage → Db → Result RabbitMqError (Unit {0}) × Db
  unfolding update_found
  update_domain_object to_config now msg db =
      with_domain msg.domain db (update_found to_config now msg)

  -- the actors of a domain that is gone; an error is only logged
  abbrev pub delete_rest : DomainDeleteMessage → ℕ → Db → Db
  delete_rest msg deleted db =
      if ltb 0 deleted then (if msg.force then (c.delete_actors msg.domain db).1 else db) else db

  unfoldable pub delete_found : DomainDeleteMessage → Db → Result RabbitMqError (Unit {0}) × Db
  delete_found msg db =
      let (deleted, db') = c.delete_one msg.domain db in
      elim deleted [ err e ↦ (err (database_error e), db') | ok n ↦ (ok tt, delete_rest msg n db') ]

  abbrev pub unless_inhabited : String → Result String ℕ → Result RabbitMqError (Unit {0})
  unless_inhabited domain (err e) = err (database_error e)
  unless_inhabited domain (ok n) =
      if ltb 0 n
      then err (
          constraint_error (
            "Cannot delete domain "
            ⧺ domain
            ⧺ " with "
            ⧺ show (pos n)
            ⧺ " existing actors. Use --force to override."))
      else ok tt

  -- the check of the actors, unless the deletion is forced
  abbrev pub may_delete : DomainDeleteMessage → Db → Result RabbitMqError (Unit {0})
  may_delete msg db =
      if msg.force then ok tt else unless_inhabited msg.domain (c.count_actors msg.domain db)

  unfoldable pub delete_checked : DomainDeleteMessage → Db → Result RabbitMqError (Unit {0}) × Db
  unfolding delete_found show
  delete_checked msg db = elim (may_delete msg db) [
    | err e ↦ (err e, db)
    | ok _ ↦ delete_found msg db
  ]

  unfoldable pub delete_domain_object :
      DomainDeleteMessage → Db → Result RabbitMqError (Unit {0}) × Db
  unfolding delete_checked
  delete_domain_object msg db = with_domain msg.domain db (delete_checked msg)
