-- ===== src/Commands/Actors/Written.antt =====
-- The writes of the database manager keep the actors well named, whatever the driver answers.
use oxifed.Base.{
  ◌≡◌, refl, String, false, Option, none, some, inl, inr, ok, arith, Bool-cases, Result-cases,
}
use oxifed.Inbox.Types.{as_date}
use oxifed.Database.Documents.{
  ActorDocument, read_actor, Store, PublicKeyDocument, KeyDocument, JrdResource,
}
use oxifed.Database.Driver.{DriverLaws}
use oxifed.Database.Manager
use oxifed.Database.Manager.{Drivers, has_actor_id, find_actor_by_id, insert_actor, update_actor}
use oxifed.Database.Deletion.{
  delete_actor, delete_objects_of, delete_activities_of, delete_keys_of, delete_follows_of,
}
use oxifed.Commands.Domains.{RabbitMqError, db_error}
use oxifed.Commands.Persons.{
  update_profile, profile_change, ProfileUpdateMessage, unless_found, save_key, changes_profile,
  insert_profile, delete_profile,
}
use oxifed.Commands.Services.{Command, reads, writes, ◌>>=◌, ◌>>◌}
use oxifed.Commands.Actors.Stored.{
  IsNamed, has_id, IsWellNamed, append-IsWellNamed, delete_first-IsWellNamed,
  update_first-IsWellNamed,
}
use oxifed.Commands.Actors.Keeping.{
  Keeps, bind-state, writes-state, reads-bind_ok, reads-bind_err, lift-Keeps, writes-Keeps,
}

module _ (d : Drivers) (laws : DriverLaws d.actors) where
  -- a search that finds nothing, and none that cannot be read
  pub find_actor_by_id-none :
      (id : String) (s : Store) → find_actor_by_id d id s ≡ ok none → has_id id s.actors ≡ false
  unfolding find_actor_by_id
  find_actor_by_id-none id s h =
      elim (Result-cases (d.actors.find_one (has_actor_id id) s.actors)) [
        | inr (e, failed) ↦ absurd (ground arith)
        | inl (none, absent) ↦ laws.find_one_none (has_actor_id id) s.actors absent
        | inl (some a, present) ↦ elim (Result-cases (read_actor a)) [
          | inl (b, r) ↦ absurd (ground arith)
          | inr (e, r) ↦ absurd (ground arith)
        ]
      ]

  insert_actor-IsWellNamed :
      (a : ActorDocument) (s : Store)
      → IsNamed a
      → has_id a.actor_id s.actors ≡ false
      → IsWellNamed s.actors
      → IsWellNamed (insert_actor d a s).1.actors
  unfolding insert_actor
  insert_actor-IsWellNamed a s n fresh v = elim (laws.insert_one_lem a s.actors) [
    | inl stored ↦ rw stored (append-IsWellNamed s.actors a v n fresh)
    | inr (e, failed, unchanged) ↦ rw unchanged v
  ]

  insert-Keeps :
      (a : ActorDocument) (as_error : String → RabbitMqError) (rest : Command (Unit {0}))
      (s : Store)
      → IsNamed a
      → Keeps rest
      → has_id a.actor_id s.actors ≡ false
      → IsWellNamed s.actors
      → IsWellNamed ((writes as_error (insert_actor d a) >> rest) s).1.actors
  insert-Keeps a as_error rest s n after fresh v =
      let kept : IsWellNamed (insert_actor d a s).1.actors =
        insert_actor-IsWellNamed a s n fresh v in
      let written : IsWellNamed (writes as_error (insert_actor d a) s).1.actors =
        rw (writes-state as_error (insert_actor d a) s) kept in
      elim (bind-state (writes as_error (insert_actor d a)) (λ _. rest) s) [
        | inl (done, h, e) ↦ rw e (after.kept (writes as_error (insert_actor d a) s).1 written)
        | inr e ↦ rw e written
      ]

  -- what the two commands that make an actor have in common
  pub create-Keeps :
      (a : ActorDocument) (e : RabbitMqError) (as_error : String → RabbitMqError)
      (rest : Command (Unit {0}))
      → IsNamed a
      → Keeps rest
      → Keeps (
          reads db_error (find_actor_by_id d a.actor_id) >>= λ existing.
          unless_found existing e >> (writes as_error (insert_actor d a) >> rest))
  create-Keeps a e as_error rest n after = record {
    kept = λ s v.
        let find = find_actor_by_id d a.actor_id in
        let k = λ (existing : Option ActorDocument).
          unless_found existing e >> (writes as_error (insert_actor d a) >> rest) in
        elim (Result-cases (find s)) [
          | inr (x, h) ↦ rw (reads-bind_err db_error find k s x h) v
          | inl (some b, h) ↦ rw (reads-bind_ok db_error find k s (some b) h) v
          | inl (none, h) ↦
              rw (reads-bind_ok db_error find k s none h)
                (insert-Keeps a as_error rest s n after (find_actor_by_id-none a.actor_id s h) v)
        ];
  }

  delete_follows_of-actors :
      (id : String) (s : Store) → (delete_follows_of d id s).1.actors ≡ s.actors
  unfolding delete_follows_of
  delete_follows_of-actors id s = ground arith

  delete_keys_of-actors : (id : String) (s : Store) → (delete_keys_of d id s).1.actors ≡ s.actors
  unfolding delete_keys_of
  delete_keys_of-actors id s = ground arith

  delete_activities_of-actors :
      (id : String) (s : Store) → (delete_activities_of d id s).1.actors ≡ s.actors
  unfolding delete_activities_of
  delete_activities_of-actors id s = ground arith

  delete_objects_of-actors :
      (id : String) (s : Store) → (delete_objects_of d id s).1.actors ≡ s.actors
  unfolding delete_objects_of
  delete_objects_of-actors id s = ground arith

  delete_actor-actors :
      (id : String) (s : Store)
      → (delete_actor d id s).1.actors ≡ (d.actors.delete_one (has_actor_id id) s.actors).1
  unfolding delete_actor
  delete_actor-actors id s = ground arith

  delete_actor-IsWellNamed :
      (id : String) (s : Store) → IsWellNamed s.actors → IsWellNamed (delete_actor d id s).1.actors
  delete_actor-IsWellNamed id s v =
      rw (delete_actor-actors id s) (elim (laws.delete_one_lem (has_actor_id id) s.actors) [
        | inl gone ↦ rw gone (delete_first-IsWellNamed (has_actor_id id) s.actors v)
        | inr (e, failed, unchanged) ↦ rw unchanged v
      ])

  pub update_actor-state :
      (id : String) (f : ActorDocument → ActorDocument) (s : Store)
      → (update_actor d id f s).1.actors
        ≡ (d.actors.update_one
            (has_actor_id id)
            (λ (a : ActorDocument). record (f a) { updated_at = as_date d.actors.clock })
            s.actors).1
  unfolding update_actor
  update_actor-state id f s = ground arith

  update_profile-IsWellNamed :
      (id : String) (msg : ProfileUpdateMessage) (s : Store)
      → IsWellNamed s.actors
      → IsWellNamed (update_actor d id (profile_change msg) s).1.actors
  unfolding profile_change
  update_profile-IsWellNamed id msg s v =
      let change = λ (a : ActorDocument). record (profile_change msg a) {
        updated_at = as_date d.actors.clock;
      } in
      rw (update_actor-state id (profile_change msg) s)
        (elim (laws.update_one_lem (has_actor_id id) change s.actors) [
          | inl changed ↦
              rw changed (
                update_first-IsWellNamed (has_actor_id id) change (λ a. refl) (λ a n. n) s.actors v)
          | inr (e, failed, unchanged) ↦ rw unchanged v
        ])

  pub update_profile-Keeps :
      (id : String) (msg : ProfileUpdateMessage) → Keeps (update_profile d id msg)
  unfolding update_profile
  update_profile-Keeps id msg = elim (Bool-cases (changes_profile msg)) [
    | inr idle ↦ rw idle (lift-Keeps (ok tt))
    | inl active ↦ rw active (
        writes-Keeps db_error (update_actor d id (profile_change msg))
          (update_profile-IsWellNamed id msg))
  ]

  pub save_key-Keeps : (key : Option (PublicKeyDocument × KeyDocument)) → Keeps (save_key d key)
  unfolding Manager.insert_key
  save_key-Keeps none = lift-Keeps (ok tt)
  save_key-Keeps (some (p, k)) = record { kept = λ s v. v }

  pub insert_profile-Keeps :
      (e : String → RabbitMqError) (profile : JrdResource)
      → Keeps (writes e (insert_profile d profile))
  insert_profile-Keeps e profile = writes-Keeps e (insert_profile d profile) (λ s v. v)

  delete_profile-state :
      (subject : String) (s : Store) → (delete_profile d subject s).1.actors ≡ s.actors
  delete_profile-state subject s = ground arith

  pub delete_profile-Keeps :
      (e : String → RabbitMqError) (subject : String) → Keeps (writes e (delete_profile d subject))
  delete_profile-Keeps e subject =
      writes-Keeps e (delete_profile d subject) (λ s v. rw (delete_profile-state subject s) v)

  pub delete_actor-Keeps :
      (e : String → RabbitMqError) (id : String) → Keeps (writes e (delete_actor d id))
  delete_actor-Keeps e id = writes-Keeps e (delete_actor d id) (delete_actor-IsWellNamed id)
