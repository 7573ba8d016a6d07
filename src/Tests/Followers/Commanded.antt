-- ===== src/Tests/Followers/Commanded.antt =====
-- The follow of a local actor and the answer to it.
use oxifed.Base.{◌≡◌, refl, none, ok}
use oxifed.Vocab.{accept}
use oxifed.Inbox.Types.{accepted}
use oxifed.Inbox.Handlers.{handle_response}
use oxifed.Commands.Follows.{RelationMessage, handle_follow}
use oxifed.Commands.Follows.Recorded.{handle_follow-unrecorded}
use oxifed.Tests.{test_urls}
use oxifed.Tests.Store.{test_store, test_laws}
use oxifed.Tests.Followers.{alice, bob, alice_document, test_env, activity_of, nothing}

abbrev command : RelationMessage
command = record { actor = "alice@example.org"; object = bob }

handle_follow-unrecorded_example :
    test_store.row
      (handle_response test_store
        (test_env (ok tt))
        accepted
        "no: "
        (activity_of accept bob)
        alice_document
        (handle_follow test_store test_urls (test_env (ok tt)) command nothing).1).1.db
      alice
      bob
    ≡ none
handle_follow-unrecorded_example =
    handle_follow-unrecorded test_store test_laws test_urls (test_env (ok tt)) (test_env (ok tt))
      command accepted "no: " (activity_of accept bob) alice_document nothing alice bob refl
