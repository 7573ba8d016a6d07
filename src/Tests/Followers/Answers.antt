-- ===== src/Tests/Followers/Answers.antt =====
-- Follows, answers to them and undone follows.
use oxifed.Base.{◌≡◌, refl, String, some, map_option, ◌⊎◌, [], ok, err}
use oxifed.Vocab.{string, accept, follow}
use oxifed.Inbox.Types.{accepted, State}
use oxifed.Inbox.Handlers.{
  follow_document, accept_activity, handle_follow_activity, handle_response,
  extract_follow_from_response,
}
use oxifed.Inbox.Rows.{answered}
use oxifed.Inbox.Rows.Follow.{
  IsFollowed, handle_follow_activity-accepts, handle_follow_activity-succeeds,
  handle_follow_activity-repeated,
}
use oxifed.Inbox.Rows.Responses.{handle_response-anyone, handle_response-row}
use oxifed.Tests.Store.{Store, test_store, test_laws}
use oxifed.Tests.Followers.{
  alice, bob, alice_document, test_env, embedded, activity_of, bobs_follow, nothing, followed,
}

handle_follow_activity-accepts_example :
    IsFollowed test_store test_laws
      (test_env (ok tt))
      (activity_of follow bob)
      alice_document
      nothing
      (handle_follow_activity test_store
        (test_env (ok tt))
        (activity_of follow bob)
        alice_document
        nothing).1
unfolding handle_follow_activity follow_document accept_activity
handle_follow_activity-accepts_example =
    handle_follow_activity-accepts test_store test_laws (test_env (ok tt)) (activity_of follow bob)
      alice_document nothing _ refl

handle_follow_activity-succeeds_example :
    (s' : State Store) × (handle_follow_activity test_store
        (test_env (ok tt))
        (activity_of follow bob)
        alice_document
        nothing
      ≡ (ok tt, s'))
    × IsFollowed test_store test_laws
        (test_env (ok tt))
        (activity_of follow bob)
        alice_document
        nothing
        s'
unfolding follow_document
handle_follow_activity-succeeds_example =
    handle_follow_activity-succeeds test_store test_laws (test_env (ok tt)) (activity_of follow bob)
      alice_document bob (string "activity") nothing refl refl refl refl refl

handle_follow_activity-repeated_example :
    ((e : String) × ((handle_follow_activity test_store
          (test_env (ok tt))
          (activity_of follow bob)
          alice_document
          followed).0
        ≡ err e))
    × ((handle_follow_activity test_store
          (test_env (ok tt))
          (activity_of follow bob)
          alice_document
          followed).1.sent
        ≡ [])
    × ((f t : String)
        → test_store.row
            (handle_follow_activity test_store
              (test_env (ok tt))
              (activity_of follow bob)
              alice_document
              followed).1.db
            f
            t
          ≡ test_store.row followed.db f t)
handle_follow_activity-repeated_example =
    handle_follow_activity-repeated test_store test_laws (test_env (ok tt)) (activity_of follow bob)
      alice_document bob bobs_follow followed refl refl

handle_response-anyone_example :
    handle_response test_store
      (test_env (ok tt))
      accepted
      "no: "
      (activity_of accept bob)
      alice_document
      followed
    ≡ handle_response test_store
        (test_env (ok tt))
        accepted
        "no: "
        (activity_of accept alice)
        (record alice_document { actor_id = bob })
        followed
handle_response-anyone_example =
    handle_response-anyone test_store (test_env (ok tt)) accepted "no: " (activity_of accept bob)
      (activity_of accept alice) alice_document (record alice_document { actor_id = bob }) embedded
      followed refl refl

handle_response-row_example :
    ((handle_response test_store
        (test_env (ok tt))
        accepted
        "no: "
        (activity_of accept bob)
        alice_document
        followed).1.sent
      ≡ [])
    × ((test_store.row
            (handle_response test_store
              (test_env (ok tt))
              accepted
              "no: "
              (activity_of accept bob)
              alice_document
              followed).1.db
            bob
            alice
          ≡ some bobs_follow)
        ⊎ ((extract_follow_from_response test_store
                (activity_of accept bob)
                alice_document
                followed.db
              ≡ ok (bob, alice))
            × (test_store.row
                  (handle_response test_store
                    (test_env (ok tt))
                    accepted
                    "no: "
                    (activity_of accept bob)
                    alice_document
                    followed).1.db
                  bob
                  alice
                ≡ some (answered accepted 7 bobs_follow))))
    × (((e : String) × ((handle_response test_store
              (test_env (ok tt))
              accepted
              "no: "
              (activity_of accept bob)
              alice_document
              followed).0
            ≡ err e))
        ⊎ ((pair : String × String) × (extract_follow_from_response test_store
                (activity_of accept bob)
                alice_document
                followed.db
              ≡ ok pair)
            × (test_store.row
                  (handle_response test_store
                    (test_env (ok tt))
                    accepted
                    "no: "
                    (activity_of accept bob)
                    alice_document
                    followed).1.db
                  pair.0
                  pair.1
                ≡ map_option (answered accepted 7) (test_store.row followed.db pair.0 pair.1))))
handle_response-row_example =
    handle_response-row test_store (test_env (ok tt)) test_laws accepted "no: "
      (activity_of accept bob) alice_document followed bob alice
