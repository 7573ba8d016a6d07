-- ===== src/Tests/Hosting.antt =====
-- Domains in a small database.
use oxifed.Base.{refl, true, false, none, some, [], ◌∷◌}
use oxifed.Vocab.{lookup}
use oxifed.Commands.Domains.{
  DomainDocument, active, open_mode, DomainMessage, DomainDeleteMessage, update_domain_object,
  delete_domain_object,
}
use oxifed.Commands.Domains.Kept.{
  IsDeleted, IsUpdated, delete_domain_object-IsDeleted, update_domain_object-changes,
}
use oxifed.Database.Documents.{Store}
use oxifed.Database.Collections.{domain_collections}
use oxifed.Tests.Memory.{memory_laws, never, test_drivers, empty_store}

abbrev example_org : DomainDocument
example_org = record {
  domain = "example.org";
  name = some "Example";
  description = none;
  contact_email = none;
  rules = none;
  registration_mode = open_mode;
  authorized_fetch = false;
  max_note_length = none;
  max_file_size = none;
  allowed_file_types = none;
  domain_key_id = none;
  config = none;
  status = active;
  created_at = 1;
  updated_at = 1;
}

abbrev test_db : Store
test_db = record empty_store { domains = example_org ∷ [] }

abbrev closing : DomainMessage
closing = record {
  domain = "example.org";
  name = none;
  description = some "closed for now";
  contact_email = none;
  rules = none;
  registration_mode = some "closed";
  authorized_fetch = some true;
  max_note_length = none;
  max_file_size = none;
  allowed_file_types = none;
  properties = none;
}

abbrev deletion : DomainDeleteMessage
deletion = record { domain = "example.org"; force = false }

delete_domain_object-IsDeleted_example :
    IsDeleted "example.org" test_db
      (delete_domain_object (domain_collections test_drivers) deletion test_db).1
unfolding delete_domain_object domain_collections lookup
delete_domain_object-IsDeleted_example =
    delete_domain_object-IsDeleted test_drivers (memory_laws never) (memory_laws never) deletion
      test_db refl ((λ _. refl), tt) refl

update_domain_object-changes_example :
    IsUpdated
      (λ v. v)
      9
      closing
      test_db
      (update_domain_object (domain_collections test_drivers) (λ v. v) 9 closing test_db).1
unfolding update_domain_object domain_collections lookup
update_domain_object-changes_example =
    update_domain_object-changes test_drivers (memory_laws never) (λ v. v) 9 closing test_db refl
