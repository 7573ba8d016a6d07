-- ===== src/Commands/Actors/Removed.antt =====
-- What the deletion of a person leaves, and what an update of the icon does to its actor.
use oxifed.Base.{
  any, ◌≡◌, sym, ap, ◌∙◌, subst, String, false, inl, inr, List, [], ◌∷◌, ok, arith, Result-cases,
  eq_iff, ◌⧺◌,
}
use oxifed.Database.Documents.{ActorDocument, JrdResource, Store}
use oxifed.Database.Driver.{DriverLaws, delete_first}
use oxifed.Database.Manager.{has_actor_id, has_subject}
use oxifed.Database.Deletion.{delete_actor, delete_objects_of}
use oxifed.Database.Removed.{
  Without, AtMostOne, delete_first-Without, IsCleared, DeletionLaws, delete_objects_of-IsCleared,
  delete_objects_of-actors, delete_actor-profiles,
}
use oxifed.Commands.Domains.{db_error}
use oxifed.Commands.Follows.{split_subject}
use oxifed.Commands.Persons.{
  delete_person_object, delete_profile, ProfileDeleteMessage, actor_id_of,
}
use oxifed.Commands.Services.{Services, lift, writes, ◌>>◌, >>=-eq-ok, writes-eq-ok}
use oxifed.Commands.Actors.Stored.{IsDistinct}

IsDistinct-AtMostOne :
    (id : String) (actors : List ActorDocument)
    → IsDistinct actors
    → AtMostOne (has_actor_id id) actors
IsDistinct-AtMostOne id [] v = tt
IsDistinct-AtMostOne id (a ∷ actors) (alone, v) = (
  λ own.
      subst (λ (t : String). any (has_actor_id t) actors ≡ false) ((eq_iff a.actor_id id).0 own)
        alone,
  IsDistinct-AtMostOne id actors v,
)

module _ (x : Services) (laws : DeletionLaws x.drivers) where
  delete_actor-ok :
      (id : String) (s : Store)
      → (delete_actor x.drivers id s).0 ≡ ok tt
      → IsCleared id s (delete_actor x.drivers id s).1
        × ((delete_actor x.drivers id s).1.actors ≡ delete_first (has_actor_id id) s.actors)
  unfolding delete_actor
  delete_actor-ok id s h =
      let d = x.drivers in
      let deletion = d.actors.delete_one (has_actor_id id) s.actors in
      let s1 = record s { actors = deletion.1 } in
      elim (Result-cases deletion.0) [
        | inr (e, failed) ↦ absurd (ground arith)
        | inl (n, gone) ↦
            let state : delete_actor d id s ≡ delete_objects_of d id s1 = ground arith in
            let cleared =
              delete_objects_of-IsCleared d laws id s1 (ap (λ r. r.0) (sym state) ∙ h) in
            let left : deletion.1 ≡ delete_first (has_actor_id id) s.actors =
              elim (laws.actors.delete_one_lem (has_actor_id id) s.actors) [
                | inl e ↦ e
                | inr (e, failed, same) ↦ absurd (cc)
              ] in
            (
              subst (IsCleared id s) (sym (ap (λ r. r.1) state)) (record {
                objects = cleared.objects;
                activities = cleared.activities;
                keys = cleared.keys;
                follows = cleared.follows;
              }),
              ap (λ r. r.1.actors) state ∙ delete_objects_of-actors d laws id s1 ∙ left,
            )
      ]

-- The deletion of the person with an id: nothing of it is left, and nothing else is gone.
pub record IsDeleted (name domain : String) (s s' : Store) : Type 0 where
  pub actors : Without (has_actor_id (actor_id_of name domain)) s.actors s'.actors
  pub cleared : IsCleared (actor_id_of name domain) s s'
  pub profiles :
      s'.webfinger_profiles
      ≡ delete_first (has_subject ("acct:" ⧺ name ⧺ "@" ⧺ domain)) s.webfinger_profiles

module _ (x : Services) (laws : DeletionLaws x.drivers)
    (profile_laws : DriverLaws x.drivers.webfinger_profiles) where
  delete_profile-ok :
      (subject : String) (s : Store)
      → (delete_profile x.drivers subject s).0 ≡ ok tt
      → (delete_profile x.drivers subject s).1
        ≡ record s { webfinger_profiles = delete_first (has_subject subject) s.webfinger_profiles }
  delete_profile-ok subject s h =
      let p = has_subject subject in
      let state : (delete_profile x.drivers subject s).1 ≡ record s {
        webfinger_profiles = (x.drivers.webfinger_profiles.delete_one p s.webfinger_profiles).1;
      } =
        ground arith in
      elim (profile_laws.delete_one_lem p s.webfinger_profiles) [
        | inl gone ↦ state ∙ ap (λ (l : List JrdResource). record s { webfinger_profiles = l }) gone
        | inr (e, failed, same) ↦ absurd (ground arith)
      ]

  profile_removed :
      (subject : String) (s s' : Store)
      → writes db_error (delete_profile x.drivers subject) s ≡ (ok tt, s')
      → s'
        ≡ record s { webfinger_profiles = delete_first (has_subject subject) s.webfinger_profiles }
  profile_removed subject s s' h =
      let (done, state) =
        writes-eq-ok db_error (delete_profile x.drivers subject) s tt (ap (λ r. r.0) h) in
      sym (ap (λ r. r.1) h) ∙ state ∙ delete_profile-ok subject s done

  IsDeleted-with :
      (name domain : String) (s s1 s' : Store)
      → IsDistinct s.actors
      → IsCleared (actor_id_of name domain) s s1
      → s1.actors ≡ delete_first (has_actor_id (actor_id_of name domain)) s.actors
      → s1.webfinger_profiles ≡ s.webfinger_profiles
      → writes db_error (delete_profile x.drivers ("acct:" ⧺ name ⧺ "@" ⧺ domain)) s1 ≡ (ok tt, s')
      → IsDeleted name domain s s'
  IsDeleted-with name domain s s1 s' distinct cleared left same h =
      let id = actor_id_of name domain in
      let subject = "acct:" ⧺ name ⧺ "@" ⧺ domain in
      let state = profile_removed subject s1 s' h in
      subst (IsDeleted name domain s) (sym state) (record {
        actors = subst (Without (has_actor_id id) s.actors) (sym left) (
            delete_first-Without (has_actor_id id) s.actors
              (IsDistinct-AtMostOne id s.actors distinct));
        cleared = record {
          objects = cleared.objects;
          activities = cleared.activities;
          keys = cleared.keys;
          follows = cleared.follows;
        };
        profiles = ap (delete_first (has_subject subject)) same;
      })

  -- A deletion succeeds only for a name and a domain that the id parses to. If no two actors have the
  -- same id, the actor is then gone, and so are its objects, activities, keys and follows, in both
  -- directions; the other documents of these collections are left, and the first profile of the
  -- name is gone.
  pub delete_person_object-IsDeleted :
      (m : ProfileDeleteMessage) (s s' : Store)
      → IsDistinct s.actors
      → delete_person_object x m s ≡ (ok tt, s')
      → (parts : String × String) × (split_subject m.id ≡ ok parts) × IsDeleted parts.0 parts.1 s s'
  unfolding delete_person_object
  delete_person_object-IsDeleted m s s' distinct h =
      let d = x.drivers in
      let del = λ (parts : String × String).
        writes db_error (delete_actor d (actor_id_of parts.0 parts.1)) in
      let rest = λ (parts : String × String).
        writes db_error (delete_profile d ("acct:" ⧺ parts.0 ⧺ "@" ⧺ parts.1)) in
      let (parts, named, h1) =
        >>=-eq-ok (lift (split_subject m.id)) (λ parts. del parts >> rest parts) s s' tt h in
      let id = actor_id_of parts.0 parts.1 in
      let (u, deleted, h2) = >>=-eq-ok (del parts) (λ _. rest parts) s s' tt h1 in
      let (done, state) = writes-eq-ok db_error (delete_actor d id) s u deleted in
      let (cleared, left) = delete_actor-ok x laws id s done in
      (
        parts,
        named,
        IsDeleted-with parts.0 parts.1 s (del parts s).1 s' distinct
            (subst (IsCleared id s) (sym state) cleared) (ap (λ (t : Store). t.actors) state ∙ left)
            (ap (λ (t : Store). t.webfinger_profiles) state ∙ delete_actor-profiles d laws id s) h2,
      )
