-- ===== src/Commands/Actors/Hosted.antt =====
-- The commands on follows and domains keep the actors well named.
use oxifed.Base.{
  ℕ, ◌≡◌, String, none, some, arith, ◌==◌, Result-cases, Bool-cases, inl, inr, ◌⊎◌, ltb,
}
use oxifed.Vocab.{Value, Activity, UrlLib}
use oxifed.Inbox.Types.{State, Environment, FollowStatus}
use oxifed.Database.Documents.{ActorDocument, Store}
use oxifed.Database.Driver.{DriverLaws}
use oxifed.Database.Manager.{Drivers, update_follow_status, insert_activity}
use oxifed.Database.Collections.{collections, domain_collections}
use oxifed.Commands.Domains.{
  DomainMessage, DomainDeleteMessage, create_domain_object, update_domain_object,
  delete_domain_object, update_found, delete_found, may_delete,
}
use oxifed.Commands.Follows.{
  RelationMessage, handle_follow, store_follow, answer_follow, follower_of, follow_activity,
  follower_id_of, does_domain_exist,
}
use oxifed.Commands.Actors.Stored.{IsWellNamed, keep-IsWellNamed}

module _ (d : Drivers) where
  pub answer_follow-actors :
      (status : FollowStatus) (msg : RelationMessage) (s : State Store)
      → (answer_follow (collections d) status msg s).1.db.actors ≡ s.db.actors
  unfolding answer_follow collections update_follow_status
  answer_follow-actors status msg s = ground arith

  store_follow-actors :
      (env : Environment) (msg : RelationMessage) (id : String) (a : Activity) (s : State Store)
      → (store_follow (collections d) env msg id a s).1.db.actors ≡ s.db.actors
  unfolding store_follow collections insert_activity
  store_follow-actors env msg id a s = ground arith

  pub handle_follow-actors :
      (urls : UrlLib) (env : Environment) (msg : RelationMessage) (s : State Store)
      → (handle_follow (collections d) urls env msg s).1.db.actors ≡ s.db.actors
  unfolding handle_follow
  handle_follow-actors urls env msg s =
      let c = collections d in
      elim (Result-cases (follower_of urls msg.actor)) [
        | inr (e, unnamed) ↦ ground arith
        | inl (pair, named) ↦ elim (Bool-cases (does_domain_exist c pair.1 s.db)) [
          | inr unknown ↦ ground arith
          | inl known ↦
              elim (Result-cases (follow_activity urls env msg (follower_id_of c pair) pair.1)) [
                | inr (e, broken) ↦ ground arith
                | inl (activity, made) ↦
                    ground (arith, store_follow-actors env msg (follower_id_of c pair) activity s)
              ]
        ]
      ]

  pub create_domain_object-actors :
      (config : Value → Value) (now later : ℕ) (msg : DomainMessage) (s : Store)
      → (create_domain_object (domain_collections d) config now later msg s).1.actors ≡ s.actors
  unfolding create_domain_object domain_collections
  create_domain_object-actors config now later msg s = ground arith

  update_found-actors :
      (config : Value → Value) (now : ℕ) (msg : DomainMessage) (s : Store)
      → (update_found (domain_collections d) config now msg s).1.actors ≡ s.actors
  unfolding update_found domain_collections
  update_found-actors config now msg s = ground arith

  pub update_domain_object-actors :
      (config : Value → Value) (now : ℕ) (msg : DomainMessage) (s : Store)
      → (update_domain_object (domain_collections d) config now msg s).1.actors ≡ s.actors
  unfolding update_domain_object domain_collections
  update_domain_object-actors config now msg s =
      ground (arith, update_found-actors config now msg s)

module _ (d : Drivers) (laws : DriverLaws d.actors) where
  delete_actors-IsWellNamed :
      (domain : String) (s : Store)
      → IsWellNamed s.actors
      → IsWellNamed ((domain_collections d).delete_actors domain s).1.actors
  unfolding domain_collections
  delete_actors-IsWellNamed domain s v =
      let (q, left, stays, goes) =
        laws.delete_many_lem (λ (a : ActorDocument). a.domain == domain) s.actors in
      rw left (keep-IsWellNamed q s.actors v)

  -- the actors go, or stay, with the domain
  delete_found-cases :
      (msg : DomainDeleteMessage) (s : Store)
      → ((delete_found (domain_collections d) msg s).1.actors ≡ s.actors)
        ⊎ ((t : Store) × (t.actors ≡ s.actors)
            × ((delete_found (domain_collections d) msg s).1.actors
                ≡ ((domain_collections d).delete_actors msg.domain t).1.actors))
  unfolding delete_found domain_collections
  delete_found-cases msg s =
      let s' = ((domain_collections d).delete_one msg.domain s).1 in
      elim (Result-cases ((domain_collections d).delete_one msg.domain s).0) [
        | inr (e, failed) ↦ inl (ground arith)
        | inl (n, gone) ↦ elim (Bool-cases (ltb 0 n)) [
          | inr idle ↦ inl (ground arith)
          | inl some_gone ↦ elim (Bool-cases msg.force) [
            | inr gentle ↦ inl (ground arith)
            | inl forced ↦ inr (s', ground arith, ground arith)
          ]
        ]
      ]

  delete_found-IsWellNamed :
      (msg : DomainDeleteMessage) (s : Store)
      → IsWellNamed s.actors
      → IsWellNamed (delete_found (domain_collections d) msg s).1.actors
  delete_found-IsWellNamed msg s v = elim (delete_found-cases msg s) [
    | inl same ↦ rw same v
    | inr (t, same, gone) ↦ rw gone (delete_actors-IsWellNamed msg.domain t (rw same v))
  ]

  delete_domain_object-cases :
      (msg : DomainDeleteMessage) (s : Store)
      → ((delete_domain_object (domain_collections d) msg s).1 ≡ s)
        ⊎ ((delete_domain_object (domain_collections d) msg s).1
            ≡ (delete_found (domain_collections d) msg s).1)
  unfolding delete_domain_object
  delete_domain_object-cases msg s =
      let c = domain_collections d in
      elim (Result-cases (c.find_domain_by_name msg.domain s)) [
        | inr (e, failed) ↦ inl (ground arith)
        | inl (none, absent) ↦ inl (ground arith)
        | inl (some doc, present) ↦ elim (Result-cases (may_delete c msg s)) [
          | inr (e, refused) ↦ inl (ground arith)
          | inl (tt, allowed) ↦ inr (ground arith)
        ]
      ]

  pub delete_domain_object-IsWellNamed :
      (msg : DomainDeleteMessage) (s : Store)
      → IsWellNamed s.actors
      → IsWellNamed (delete_domain_object (domain_collections d) msg s).1.actors
  delete_domain_object-IsWellNamed msg s v = elim (delete_domain_object-cases msg s) [
    | inl same ↦ rw same v
    | inr gone ↦ rw gone (delete_found-IsWellNamed msg s v)
  ]
