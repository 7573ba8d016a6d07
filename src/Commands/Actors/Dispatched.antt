-- ===== src/Commands/Actors/Dispatched.antt =====
-- Whatever messages come, and whatever the driver answers to them, the actors stay well named.
use oxifed.Base.{List, [], ◌∷◌, Result, ok, err, String, subst, sym}
use oxifed.Inbox.Types.{State, accepted, rejected}
use oxifed.Database.Documents.{Store}
use oxifed.Database.Driver.{DriverLaws}
use oxifed.Commands.Messages.{
  MessageEnum, profile_create_message, profile_update_message, profile_delete_message,
  note_create_message, note_update_message, note_delete_message, follow_activity_message,
  accept_activity_message, reject_activity_message, domain_create_message, domain_update_message,
  domain_delete_message, key_generate_message, user_create_message,
}
use oxifed.Commands.Dispatch.{process_message, process_delivery, consume}
use oxifed.Commands.Services.{Services, document_or_default}
use oxifed.Commands.Actors.Stored.{IsWellNamed}
use oxifed.Commands.Actors.Persons.{
  create_person_object-Keeps, create_user-Keeps, update_person_object-Keeps,
  delete_person_object-Keeps,
}
use oxifed.Commands.Actors.Posted.{
  create_note_object-Keeps, update_note_object-Keeps, delete_note_object-Keeps,
  handle_key_generate-Keeps,
}
use oxifed.Commands.Actors.Hosted.{
  answer_follow-actors, handle_follow-actors, create_domain_object-actors,
  update_domain_object-actors, delete_domain_object-IsWellNamed,
}

module _ (x : Services) (laws : DriverLaws x.drivers.actors) where
  process_message-IsWellNamed :
      (m : MessageEnum) (s : State Store)
      → IsWellNamed s.db.actors
      → IsWellNamed (process_message x m s).1.db.actors
  unfolding process_message
  process_message-IsWellNamed (profile_create_message m) s v =
      (create_person_object-Keeps x laws m).kept s.db v
  process_message-IsWellNamed (profile_update_message m) s v =
      (update_person_object-Keeps x laws m).kept s.db v
  process_message-IsWellNamed (profile_delete_message m) s v =
      (delete_person_object-Keeps x laws m).kept s.db v
  process_message-IsWellNamed (note_create_message m) s v =
      (create_note_object-Keeps x m).kept s.db v
  process_message-IsWellNamed (note_update_message m) s v =
      (update_note_object-Keeps x m).kept s.db v
  process_message-IsWellNamed (note_delete_message m) s v =
      (delete_note_object-Keeps x m).kept s.db v
  process_message-IsWellNamed (follow_activity_message m) s v =
      subst IsWellNamed (sym (handle_follow-actors x.drivers x.urls x.env m s)) v
  process_message-IsWellNamed (accept_activity_message m) s v =
      subst IsWellNamed (sym (answer_follow-actors x.drivers accepted m s)) v
  process_message-IsWellNamed (reject_activity_message m) s v =
      subst IsWellNamed (sym (answer_follow-actors x.drivers rejected m s)) v
  process_message-IsWellNamed (domain_create_message m) s v =
      subst IsWellNamed
        (sym (
          create_domain_object-actors x.drivers (document_or_default x) x.env.now x.env.later m
            s.db))
        v
  process_message-IsWellNamed (domain_update_message m) s v =
      subst IsWellNamed
        (sym (update_domain_object-actors x.drivers (document_or_default x) x.env.now m s.db)) v
  process_message-IsWellNamed (domain_delete_message m) s v =
      delete_domain_object-IsWellNamed x.drivers laws m s.db v
  process_message-IsWellNamed (key_generate_message m) s v =
      (handle_key_generate-Keeps x m).kept s.db v
  process_message-IsWellNamed (user_create_message m) s v = (create_user-Keeps x laws m).kept s.db v
  process_message-IsWellNamed _ s v = v

  process_delivery-IsWellNamed :
      (delivery : Result String MessageEnum) (s : State Store)
      → IsWellNamed s.db.actors
      → IsWellNamed (process_delivery x delivery s).1.db.actors
  unfolding process_delivery
  process_delivery-IsWellNamed (err e) s v = v
  process_delivery-IsWellNamed (ok m) s v = process_message-IsWellNamed m s v

-- the driver of each delivery keeps its promises
abbrev pub AreLawful : List (Services × Result String MessageEnum) → Type 0
AreLawful [] = Unit
AreLawful ((x, _) ∷ deliveries) = DriverLaws x.drivers.actors × AreLawful deliveries

-- Whatever messages the consumer takes, in whatever order, and whichever reads and writes of the
-- database fail: if at first each actor has the id of its name and domain and no two actors have the
-- same id, so it is after the messages.
pub consume-IsWellNamed :
    (deliveries : List (Services × Result String MessageEnum)) (s : State Store)
    → AreLawful deliveries
    → IsWellNamed s.db.actors
    → IsWellNamed (consume deliveries s).db.actors
unfolding consume
consume-IsWellNamed [] s lawful v = v
consume-IsWellNamed ((x, delivery) ∷ deliveries) s (laws, lawful) v =
    consume-IsWellNamed deliveries (process_delivery x delivery s).1 lawful
      (process_delivery-IsWellNamed x laws delivery s v)
