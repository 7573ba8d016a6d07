-- ===== src/Tests/Persons.antt =====
-- Users that are made, found by their names, changed and deleted.
use oxifed.Base.{
  ◌==◌, ℕ, ◌≡◌, refl, ap, String, true, false, none, some, [], ◌∷◌, Result, ok, err, ◌≢◌,
}
use mathlib.Core.List.{Memᴰ}
use oxifed.Database.Deletion.{delete_actor}
use oxifed.Database.Documents.{ImageAttachment, document, ActorDocument, JrdResource, Store}
use oxifed.Database.Manager
use oxifed.Database.Manager.{find_actor_by_id}
use oxifed.Database.Collections.{collections}
use oxifed.Commands.Domains.{DomainDocument, active, approval}
use oxifed.Commands.Follows.{split_subject, format_subject, does_domain_exist}
use oxifed.Commands.Persons.{
  create_user, update_person_object, delete_person_object, UserCreateMessage, ProfileUpdateMessage,
  actor_id_of,
}
use oxifed.Commands.Messages.{user_create_message, domain_delete_message}
use oxifed.Commands.Dispatch.{consume}
use oxifed.Commands.Actors.Stored.{IsWellNamed}
use oxifed.Commands.Actors.Dispatched.{consume-IsWellNamed}
use oxifed.Commands.Actors.Removed.{IsDeleted, delete_person_object-IsDeleted}
use oxifed.Commands.Actors.Icons.{update_person_object-unreadable}
use oxifed.WebFinger.Server.{AppState, WebfingerQuery, WebfingerError, handle_webfinger}
use oxifed.WebFinger.Finger.{WebFingerClient, resolve_target, extract_host}
use oxifed.WebFinger.Resolved.{create_user-resolve_target}
use oxifed.Tests.{test_urls}
use oxifed.Tests.Memory.{
  memory_laws, never, test_drivers, test_deletions, test_services, empty_store,
}

abbrev served : DomainDocument
served = record {
  domain = "example.org";
  name = none;
  description = none;
  contact_email = none;
  rules = none;
  registration_mode = approval;
  authorized_fetch = false;
  max_note_length = none;
  max_file_size = none;
  allowed_file_types = none;
  domain_key_id = none;
  config = none;
  status = active;
  created_at = 1;
  updated_at = 1;
}

abbrev hosting : Store
hosting = record empty_store { domains = served ∷ [] }

abbrev carol : UserCreateMessage
carol = record { username = "carol"; display_name = none; domain = "example.org" }

-- the second message is refused, and the third takes the actors with the domain
consume-IsWellNamed_example :
    IsWellNamed
      (consume
        ((test_services, ok (user_create_message carol))
          ∷ (test_services, ok (user_create_message carol))
          ∷ (
            test_services,
            ok (domain_delete_message (record { domain = "example.org"; force = true })),
          )
          ∷ [])
        (record { db = hosting; sent = [] })).db.actors
consume-IsWellNamed_example =
    consume-IsWellNamed
      ((test_services, ok (user_create_message carol))
        ∷ (test_services, ok (user_create_message carol))
        ∷ (
          test_services,
          ok (domain_delete_message (record { domain = "example.org"; force = true })),
        )
        ∷ [])
      (record { db = hosting; sent = [] })
      (memory_laws never, (memory_laws never, (memory_laws never, tt)))
      (record { named = tt; distinct = tt })

with_carol : Store
unfolding create_user
with_carol = (create_user test_services carol hosting).1

carol_is_made : create_user test_services carol hosting ≡ (ok tt, with_carol)
unfolding with_carol create_user does_domain_exist format_subject collections find_actor_by_id
    Manager.insert_actor Manager.insert_key
carol_is_made = refl

abbrev test_state : AppState
test_state = record {
  drivers = test_drivers;
  urls = test_urls;
  admin_api_url = none;
  oidc_issuer_url = none;
  oidc_audience = none;
}

abbrev query : WebfingerQuery
query = record { resource = "acct:carol@example.org"; relations = none }

abbrev response : Result WebfingerError JrdResource → Result String (ℕ × Result String JrdResource)
response (ok jrd) = ok (200, ok jrd)
response (err e) = err "not found"

-- a network in which every request reaches the server
abbrev test_client : WebFingerClient
test_client = record {
  urls = test_urls;
  append_pairs = λ u pairs. u;
  send = λ u. response (handle_webfinger test_state query with_carol);
}

create_user-resolve_target_example :
    resolve_target test_client "carol@example.org" ≡ ok "https://example.org/users/carol"
unfolding with_carol create_user does_domain_exist format_subject collections find_actor_by_id
    Manager.insert_actor Manager.insert_key extract_host
create_user-resolve_target_example =
    create_user-resolve_target test_services (memory_laws never) carol hosting with_carol test_state
      (memory_laws never) test_client "example.org" _ _ refl refl refl refl refl
      (λ jrd h. ap response h)

delete_person_object-IsDeleted_example :
    (parts : String × String) × (split_subject "acct:carol@example.org" ≡ ok parts)
    × IsDeleted parts.0 parts.1 with_carol
        (delete_person_object test_services
          (record { id = "acct:carol@example.org"; force = false })
          with_carol).1
unfolding with_carol create_user does_domain_exist format_subject collections find_actor_by_id
    Manager.insert_actor Manager.insert_key delete_person_object delete_actor
delete_person_object-IsDeleted_example =
    delete_person_object-IsDeleted test_services test_deletions (memory_laws never)
      (record { id = "acct:carol@example.org"; force = false }) with_carol _ (refl, tt) refl

abbrev new_image : ImageAttachment
new_image = record { url = "https://example.org/carol.png"; media_type = "image/png" }

abbrev new_icon : ProfileUpdateMessage
new_icon = record {
  subject = "carol@example.org";
  summary = none;
  icon = some new_image;
  attachments = none;
  properties = none;
}

update_person_object-unreadable_example :
    (parts : String × String) × (split_subject "carol@example.org" ≡ ok parts)
    × ((j : ActorDocument)
        → Memᴰ j (update_person_object test_services new_icon with_carol).1.actors
        → (j.actor_id == actor_id_of parts.0 parts.1) ≡ true
        → j.icon ≡ some (document new_image))
    × ((a : ActorDocument)
        → find_actor_by_id test_drivers
            (actor_id_of parts.0 parts.1)
            (update_person_object test_services new_icon with_carol).1
          ≢ ok (some a))
unfolding with_carol create_user does_domain_exist format_subject collections find_actor_by_id
    Manager.insert_actor Manager.insert_key update_person_object Manager.update_actor
update_person_object-unreadable_example =
    update_person_object-unreadable test_services (memory_laws never) test_drivers
      (memory_laws never) new_icon new_image with_carol _ refl (refl, tt) refl
