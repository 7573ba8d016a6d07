-- ===== src/Tests/Posting.antt =====
-- The theorems on the outbox at concrete requests.
use oxifed.Base.{
  ◌≡◌, ◌≢◌, refl, String, true, false, none, some, ◌⊎◌, inr, [], ◌∷◌, ok, map, if◌then◌else◌,
}
use oxifed.Vocab.{Value, string, dictionary, Entries, get}
use oxifed.Inbox.Types.{State}
use oxifed.Inbox.Documents.{Headers}
use oxifed.Database.Documents.{ObjectDocument, Store}
use oxifed.Outbox.Access.{verify_client_authentication}
use oxifed.Outbox.Activities.{Outbox}
use oxifed.Outbox.Client.{
  new_activity_id, post_outbox, process_client_activity, answer, created, bad_request, unauthorized,
}
use oxifed.Outbox.Endpoints.{create_note}
use oxifed.Outbox.Posted.{IsPosted, post_outbox-cases}
use oxifed.Outbox.Refused.{client_changes-refused, post_outbox-forged}
use oxifed.Tests.Followers.{test_env}
use oxifed.Tests.Memory.{test_drivers, memory_laws, never, empty_store}

abbrev test_outbox : Outbox
test_outbox = record {
  drivers = test_drivers;
  env = test_env (ok tt);
  object_env = test_env (ok tt);
  domain = "example.org";
  tokens = record { find_one = λ token username. ok false; username_of = λ token. none };
  is_header_value = λ s. true;
}

abbrev alices : Headers
alices = ("authorization", some "Bearer user:alice:token:1") ∷ []

-- an activity of a type on an object
abbrev on_object : String → Value
on_object type = dictionary (
    Entries.entry "type" (string type)
      (Entries.entry "object" (string "https://example.org/objects/1") Entries.end))

abbrev nothing_yet : State Store
nothing_yet = record { db = empty_store; sent = [] }

post_outbox-cases_example :
    ((id : String) × ((post_outbox test_outbox "alice" alices (on_object "Like") nothing_yet).0
        ≡ created (if test_outbox.is_header_value id then id else ""))
      × (verify_client_authentication test_outbox.tokens alices "alice" ≡ true)
      × IsPosted test_outbox
          (memory_laws never)
          (memory_laws never)
          "alice"
          nothing_yet
          (post_outbox test_outbox "alice" alices (on_object "Like") nothing_yet).1
          id)
    ⊎ (((location : String)
          → (post_outbox test_outbox "alice" alices (on_object "Like") nothing_yet).0
            ≢ created location)
        × ((post_outbox test_outbox "alice" alices (on_object "Like") nothing_yet).1.sent ≡ []))
post_outbox-cases_example =
    post_outbox-cases test_outbox (memory_laws never) (memory_laws never) "alice" alices
      (on_object "Like") nothing_yet

client_changes-refused_example :
    (post_outbox test_outbox "alice" alices (on_object "Delete") nothing_yet
      ≡ (bad_request, nothing_yet))
    ⊎ (post_outbox test_outbox "alice" alices (on_object "Delete") nothing_yet
        ≡ (unauthorized, nothing_yet))
unfolding get
client_changes-refused_example =
    (client_changes-refused test_outbox (memory_laws never) "alice" alices nothing_yet).0 "Delete"
      (on_object "Delete") (inr refl) refl

post_outbox-forged_example :
    post_outbox test_outbox "alice" alices (on_object "Like") nothing_yet
    ≡ answer test_outbox
        (process_client_activity test_outbox (on_object "Like") "alice" nothing_yet)
post_outbox-forged_example =
    post_outbox-forged test_outbox "alice" "1" (on_object "Like") nothing_yet

abbrev note : Value
note = dictionary (Entries.entry "content" (string "Hello") Entries.end)

-- a note is posted under an id of the server
created_note :
    (create_note test_outbox "alice" alices note nothing_yet).0
    ≡ created (new_activity_id test_outbox)
unfolding create_note post_outbox process_client_activity
created_note = refl

stored_note :
    map
      (λ (o : ObjectDocument). o.attributed_to)
      (create_note test_outbox "alice" alices note nothing_yet).1.db.objects
    ≡ "https://example.org/users/alice" ∷ []
unfolding create_note post_outbox process_client_activity
stored_note = refl
