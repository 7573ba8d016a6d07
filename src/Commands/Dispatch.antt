-- ===== src/Commands/Dispatch.antt =====
-- `process_message` of rabbitmq.rs and its consumer.
use oxifed.Base.{String, List, [], ◌∷◌, Result, ok, err}
use oxifed.Inbox.Types.{State}
use oxifed.Database.Documents.{Store}
use oxifed.Database.Collections.{collections, domain_collections}
use oxifed.Commands.Domains.{
  RabbitMqError, json_error, create_domain_object, update_domain_object, delete_domain_object,
}
use oxifed.Commands.Follows.{handle_follow, handle_accept, handle_reject, answer_follow}
use oxifed.Commands.Keys.{handle_key_generate}
use oxifed.Commands.Persons.{
  create_person_object, update_person_object, delete_person_object, create_user,
}
use oxifed.Commands.Notes.{create_note_object, update_note_object, delete_note_object}
use oxifed.Commands.Services.{Services, Command, document_or_default}
use oxifed.Commands.Messages.{
  MessageEnum, profile_create_message, profile_update_message, profile_delete_message,
  note_create_message, note_update_message, note_delete_message, follow_activity_message,
  accept_activity_message, reject_activity_message, domain_create_message, domain_update_message,
  domain_delete_message, key_generate_message, user_create_message,
}

-- a command that publishes nothing
abbrev pub on_store :
    Command (Unit {0}) → State Store → Result RabbitMqError (Unit {0}) × State Store
on_store command s = let (r, db) = command s.db in (r, record s { db = db })

unfoldable pub process_message :
    Services → MessageEnum → State Store → Result RabbitMqError (Unit {0}) × State Store
unfolding create_person_object update_person_object delete_person_object create_note_object
    update_note_object delete_note_object handle_follow answer_follow create_domain_object
    update_domain_object delete_domain_object handle_key_generate create_user
process_message x (profile_create_message m) s = on_store (create_person_object x m) s
process_message x (profile_update_message m) s = on_store (update_person_object x m) s
process_message x (profile_delete_message m) s = on_store (delete_person_object x m) s
process_message x (note_create_message m) s = on_store (create_note_object x m) s
process_message x (note_update_message m) s = on_store (update_note_object x m) s
process_message x (note_delete_message m) s = on_store (delete_note_object x m) s
process_message x (follow_activity_message m) s =
    handle_follow (collections x.drivers) x.urls x.env m s
process_message x (accept_activity_message m) s = handle_accept (collections x.drivers) m s
process_message x (reject_activity_message m) s = handle_reject (collections x.drivers) m s
process_message x (domain_create_message m) s =
    on_store
      (create_domain_object (domain_collections x.drivers) (document_or_default x) x.env.now
        x.env.later m)
      s
process_message x (domain_update_message m) s =
    on_store
      (update_domain_object (domain_collections x.drivers) (document_or_default x) x.env.now m) s
process_message x (domain_delete_message m) s =
    on_store (delete_domain_object (domain_collections x.drivers) m) s
process_message x (key_generate_message m) s = on_store (handle_key_generate x m) s
process_message x (user_create_message m) s = on_store (create_user x m) s
-- likes and announces, answers, and what other daemons handle: only logged
process_message x _ s = (ok tt, s)

-- a delivery that parses, or does not
unfoldable pub process_delivery :
    Services
    → Result String MessageEnum
    → State Store
    → Result RabbitMqError (Unit {0}) × State Store
unfolding process_message
process_delivery x (err e) s = (err (json_error e), s)
process_delivery x (ok message) s = process_message x message s

-- `start_activities_consumer`: every delivery is acknowledged, whatever its result; the state after
-- all of them, each of which has services of its own
unfoldable pub consume : List (Services × Result String MessageEnum) → State Store → State Store
unfolding process_delivery
consume [] s = s
consume ((x, delivery) ∷ deliveries) s = consume deliveries (process_delivery x delivery s).1
