-- ===== src/Tests/Serving.antt =====
-- A follow that is accepted, and the collection that should list it.
use oxifed.Base.{◌≡◌, refl, some, none, [], ◌∷◌, ok, err}
use oxifed.Vocab.{follow, lookup}
use oxifed.Inbox.Types.{active, State}
use oxifed.Inbox.Types
use oxifed.Inbox.Documents.{Headers}
use oxifed.Inbox.Handlers.{follow_document, handle_follow_activity}
use oxifed.Database.Documents.{ActorDocument, read_actor, Store}
use oxifed.Database.Driver.{update_first}
use oxifed.Database.Collections.{collections}
use oxifed.Commands.Persons.{actor_document}
use oxifed.Inbox.Post.{internal_server_error}
use oxifed.Pages.{get_followers}
use oxifed.Pages.Listed.{handle_follow_activity-unlisted}
use oxifed.Tests.Followers.{alice, bob, activity_of, test_env}
use oxifed.Tests.Memory.{
  memory_laws, same_follow, follows_unique, test_drivers, test_services, empty_store,
}

abbrev alices : ActorDocument
alices = actor_document test_services "alice" "example.org" "Alice" none none none

abbrev target : Types.ActorDocument
target = record { actor_id = alice; status = active }

abbrev before : State Store
before = record { db = record empty_store { actors = alices ∷ [] }; sent = [] }

abbrev after : State Store
after =
    (handle_follow_activity (collections test_drivers) (test_env (ok tt)) (activity_of follow bob)
      target before).1

abbrev headers : Headers
headers = ("host", some "example.org") ∷ []

handle_follow_activity-unlisted_example :
    get_followers test_drivers "alice" headers after.db ≡ err internal_server_error
unfolding handle_follow_activity collections get_followers actor_document lookup read_actor
    update_first follow_document
handle_follow_activity-unlisted_example =
    handle_follow_activity-unlisted test_drivers (memory_laws same_follow) follows_unique
      (test_env (ok tt)) (activity_of follow bob) target before after "alice" headers alices refl
      refl refl
