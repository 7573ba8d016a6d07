-- ===== src/Commands/Actors/Icons.antt =====
-- An update of the icon writes a document where `ActorDocument` has a text: no read finds the actor.
use oxifed.Base.{
  ◌≡◌, sym, ap, ◌∙◌, subst, String, true, false, Option, none, some, inl, inr, List, [], ◌∷◌, ok,
  err, arith, Result-cases, Bool-cases, ◌==◌, eq_iff, ◌≢◌,
}
use mathlib.Core.List.{Memᴰ}
use mathlib.Core.List.Memᴰ
use oxifed.Inbox.Types.{as_date}
use oxifed.Database.Documents.{ActorDocument, Store, read_actor, Icon, ImageAttachment, document}
use oxifed.Database.Driver.{DriverLaws, update_first}
use oxifed.Database.Manager.{Drivers, has_actor_id, update_actor, find_actor_by_id}
use oxifed.Database.Removed.{any-Memᴰ}
use oxifed.Commands.Domains.{db_error}
use oxifed.Commands.Follows.{split_subject}
use oxifed.Commands.Persons.{
  update_person_object, update_profile, ProfileUpdateMessage, actor_id_of, profile_change,
  in_known_domain, changes_profile,
}
use oxifed.Commands.Services.{Services, lift, writes, ◌>>◌, >>=-eq-ok, writes-eq-ok}
use oxifed.Commands.Actors.Keeping.{in_known_domain-state}
use oxifed.Commands.Actors.Stored.{IsDistinct}
use oxifed.Commands.Actors.Written.{update_actor-state}

-- the first actor of an id that is the only one
update_first-only :
    (id : String) (f : ActorDocument → ActorDocument) (icon : Option Icon)
    (actors : List ActorDocument) (j : ActorDocument)
    → ((a : ActorDocument) → (f a).icon ≡ icon)
    → IsDistinct actors
    → Memᴰ j (update_first (has_actor_id id) f actors)
    → has_actor_id id j ≡ true
    → j.icon ≡ icon
unfolding update_first
update_first-only id f icon [] j sets v m own = absurd (Memᴰ.not-nil m)
update_first-only id f icon (a ∷ actors) j sets (alone, v) m own =
    elim (Bool-cases (a.actor_id == id)) [
      | inl first ↦
          let m' : Memᴰ j (f a ∷ actors) = rw first at m in
          elim (Memᴰ.cases_cons m') [
            | inl same ↦ ap (λ (x : ActorDocument). x.icon) same ∙ sets a
            | inr later ↦
                let other : (j.actor_id == a.actor_id) ≡ false =
                  any-Memᴰ (has_actor_id a.actor_id) actors j later alone in
                absurd (ground (arith, eq_iff a.actor_id id, eq_iff j.actor_id id))
          ]
      | inr differs ↦
          let m' : Memᴰ j (a ∷ update_first (has_actor_id id) f actors) = rw differs at m in
          elim (Memᴰ.cases_cons m') [
            | inl same ↦ let e = ap (has_actor_id id) same in absurd (cc)
            | inr later ↦ update_first-only id f icon actors j sets v later own
          ]
    ]

-- a read that meets a document in place of the text
read_actor-document :
    (a : ActorDocument) (i : ImageAttachment)
    → a.icon ≡ some (document i)
    → read_actor a ≡ err "invalid type: map, expected a string"
unfolding read_actor
read_actor-document a i h = ground arith

find_actor_by_id-unreadable :
    (d : Drivers) (laws : DriverLaws d.actors) (id : String) (i : ImageAttachment) (s : Store)
    → ((j : ActorDocument)
        → Memᴰ j s.actors
        → has_actor_id id j ≡ true
        → j.icon ≡ some (document i))
    → (a : ActorDocument) → find_actor_by_id d id s ≢ ok (some a)
unfolding find_actor_by_id
find_actor_by_id-unreadable d laws id i s all a h =
    elim (Result-cases (d.actors.find_one (has_actor_id id) s.actors)) [
      | inr (e, failed) ↦ ground arith
      | inl (none, missing) ↦ ground arith
      | inl (some j, found) ↦
          let (own, member) = laws.find_one_some (has_actor_id id) s.actors j found in
          let unread = read_actor-document j i (all j member own) in ground arith
    ]

module _ (x : Services) (laws : DriverLaws x.drivers.actors) where
  profile_change-icon :
      (m : ProfileUpdateMessage) (i : ImageAttachment) (a : ActorDocument)
      → m.icon ≡ some i
      → (profile_change m a).icon ≡ some (document i)
  unfolding profile_change
  profile_change-icon m i a h = ground arith

  update_actor-failed :
      (id : String) (f : ActorDocument → ActorDocument) (s : Store) (e : String)
      → (x.drivers.actors.update_one
          (has_actor_id id)
          (λ (a : ActorDocument). record (f a) { updated_at = as_date x.drivers.actors.clock })
          s.actors).0
        ≡ err e
      → (update_actor x.drivers id f s).0 ≡ err e
  unfolding update_actor
  update_actor-failed id f s e h = ground arith

  update_profile-icon :
      (id : String) (m : ProfileUpdateMessage) (i : ImageAttachment) (s s' : Store)
      → m.icon ≡ some i
      → IsDistinct s.actors
      → update_profile x.drivers id m s ≡ (ok tt, s')
      → (j : ActorDocument) → Memᴰ j s'.actors
      → has_actor_id id j ≡ true
      → j.icon ≡ some (document i)
  unfolding update_profile
  update_profile-icon id m i s s' has distinct h j member own =
      let d = x.drivers in
      let changes : changes_profile m ≡ true = ground arith in
      let h' : writes db_error (update_actor d id (profile_change m)) s ≡ (ok tt, s') =
        rw changes at h in
      let f = λ (a : ActorDocument). record (profile_change m a) {
        updated_at = as_date d.actors.clock;
      } in
      let (done, state) =
        writes-eq-ok db_error (update_actor d id (profile_change m)) s tt (ap (λ r. r.0) h') in
      let actors : s'.actors ≡ (update_actor d id (profile_change m) s).1.actors =
        ap (λ (t : Store). t.actors) (sym (ap (λ r. r.1) h') ∙ state) in
      elim (laws.update_one_lem (has_actor_id id) f s.actors) [
        | inr (e, failed, same) ↦
            let e' = update_actor-failed id (profile_change m) s e failed in absurd (cc)
        | inl changed ↦
            update_first-only id f (some (document i)) s.actors j
              (λ a. profile_change-icon m i a has) distinct
              (subst (λ docs. Memᴰ j docs)
                (actors ∙ update_actor-state d laws id (profile_change m) s ∙ changed) member)
              own
      ]

  -- After an update of a person with an icon has succeeded, if no two actors had the same id, the
  -- icon is stored as a document where a read expects a text, and no read by the id finds the actor.
  pub update_person_object-unreadable :
      (d' : Drivers) (laws' : DriverLaws d'.actors) (m : ProfileUpdateMessage) (i : ImageAttachment)
      (s s' : Store)
      → m.icon ≡ some i
      → IsDistinct s.actors
      → update_person_object x m s ≡ (ok tt, s')
      → (parts : String × String) × (split_subject m.subject ≡ ok parts)
        × ((j : ActorDocument)
            → Memᴰ j s'.actors
            → (j.actor_id == actor_id_of parts.0 parts.1) ≡ true
            → j.icon ≡ some (document i))
        × ((a : ActorDocument) → find_actor_by_id d' (actor_id_of parts.0 parts.1) s' ≢ ok (some a))
  unfolding update_person_object
  update_person_object-unreadable d' laws' m i s s' has distinct h =
      let update =
        λ (parts : String × String). update_profile x.drivers (actor_id_of parts.0 parts.1) m in
      let known = λ (parts : String × String). in_known_domain x parts.1 in
      let (parts, named, h1) =
        >>=-eq-ok (lift (split_subject m.subject)) (λ parts. known parts >> update parts) s s' tt
          h in
      let (u, found, h2) = >>=-eq-ok (known parts) (λ _. update parts) s s' tt h1 in
      let h3 : update parts s ≡ (ok tt, s') =
        ap (update parts) (sym (in_known_domain-state x parts.1 s)) ∙ h2 in
      let id = actor_id_of parts.0 parts.1 in
      (
        parts,
        named,
        update_profile-icon id m i s s' has distinct h3,
        find_actor_by_id-unreadable d' laws' id i s'
            (update_profile-icon id m i s s' has distinct h3),
      )
