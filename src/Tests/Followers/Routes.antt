-- ===== src/Tests/Followers/Routes.antt =====
-- Requests to the inboxes.
use oxifed.Base.{◌≡◌, refl, ap, ◌∙◌, subst, none, some, ◌⊎◌, [], ◌∷◌, ok, err}
use oxifed.Vocab.{
  accept, follow, undo, string, Object, object_of, fields, nobody, ObjectOrLink, Activity, lookup,
}
use oxifed.Inbox.Types.{FollowDocument, State, accepted, rejected}
use oxifed.Inbox.Post.{post_inbox, to_user, route_all}
use oxifed.Inbox.Rows.Invariant.{Evolves, EvolvesBy}
use oxifed.Inbox.Rows.Requests.{
  IsRefused, IsProcessed, post_inbox-cases, route_all-Evolves, TakesType, route_all-uncancelled,
}
use oxifed.Tests.{test_urls}
use oxifed.Tests.Store.{Store, test_store, test_laws}
use oxifed.Tests.Followers.{
  alice, bob, test_env, embedded, activity_of, bobs_follow, nothing, followed, serde_of, test_post,
}

post_inbox-cases_example :
    IsRefused test_store (test_env (ok tt)) test_urls (serde_of (activity_of follow bob)) nothing (
      post_inbox test_store
        (test_env (ok tt))
        test_urls
        (serde_of (activity_of follow bob))
        test_post
        nothing)
    ⊎ IsProcessed test_store
        (test_env (ok tt))
        test_urls
        (serde_of (activity_of follow bob))
        test_post
        nothing
post_inbox-cases_example =
    post_inbox-cases test_store (test_env (ok tt)) test_urls (serde_of (activity_of follow bob))
      test_post nothing

route_all-Evolves_example : Evolves (some bobs_follow) (
    test_store.row
      (route_all test_store test_urls
        (serde_of (activity_of accept bob))
        ((test_env (ok tt), to_user test_post) ∷ (test_env (err "closed"), to_user test_post) ∷ [])
        followed).db
      bob
      alice)
route_all-Evolves_example =
    route_all-Evolves test_store test_laws test_urls (serde_of (activity_of accept bob))
      ((test_env (ok tt), to_user test_post) ∷ (test_env (err "closed"), to_user test_post) ∷ [])
      followed bob alice

-- the follow of bob by alice, as it is decoded
abbrev decoded : Object
decoded =
    object_of
      (record (fields embedded) {
        additional_properties = ("actor", string alice) ∷ ("object", string bob) ∷ [];
      })
      nobody

abbrev undone : Activity
undone = record (activity_of undo bob) { object = some (ObjectOrLink.object decoded) }

abbrev alices_follow : FollowDocument
alices_follow = record bobs_follow { follower = alice; following = bob }

abbrev following : State Store
following = record { db = record { follows = alices_follow ∷ []; activities = [] }; sent = [] }

undone-TakesType : TakesType (serde_of undone)
unfolding lookup
undone-TakesType body activity o parsed named =
    let same : undone ≡ activity = cc in
    let e : some (ObjectOrLink.object decoded) ≡ some (ObjectOrLink.object o) =
      ap (λ (a : Activity). a.object) same ∙ named in
    let e' : decoded ≡ o = cc in
    subst (λ (x : Object). lookup "type" (fields x).additional_properties ≡ none) e' refl

route_all-uncancelled_example :
    EvolvesBy
      (λ status. (status ≡ accepted) ⊎ (status ≡ rejected))
      (some alices_follow)
      (test_store.row
        (route_all test_store test_urls
          (serde_of undone)
          ((test_env (ok tt), to_user test_post) ∷ [])
          following).db
        alice
        bob)
route_all-uncancelled_example =
    route_all-uncancelled test_store test_laws test_urls (serde_of undone) undone-TakesType
      ((test_env (ok tt), to_user test_post) ∷ []) following alice bob
