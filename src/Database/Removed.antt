-- ===== src/Database/Removed.antt =====
-- What a deletion leaves: `delete_actor` of src/database.rs over the promises of the driver.
use oxifed.Base.{
  ℕ, ◌≡◌, sym, ap, ◌∙◌, subst, String, Bool, true, false, inl, inr, ◌↔◌, List, [], ◌∷◌, ok, any,
  keep, arith, Result-cases, Bool-cases, ◌==◌,
}
use mathlib.Core.List.{Memᴰ}
use mathlib.Core.List.Memᴰ
use oxifed.Inbox.Types.{ActivityDocument}
use oxifed.Database.Documents.{ObjectDocument, KeyDocument, Store}
use oxifed.Database.Driver.{Driver, DriverLaws, delete_first}
use oxifed.Database.Manager.{Drivers}
use oxifed.Database.Deletion.{
  follows_or_followed, delete_actor, delete_objects_of, delete_activities_of, delete_keys_of,
  delete_follows_of,
}

module _ {Doc : Type 0} where
  -- exactly the documents that do not pass are left
  abbrev pub Without : (Doc → Bool) → List Doc → List Doc → Type 0
  Without p docs left = (x : Doc) → Memᴰ x left ↔ (Memᴰ x docs × (p x ≡ false))

  pub Memᴰ-keep :
      (q : Doc → Bool) (docs : List Doc) (x : Doc) → Memᴰ x docs → q x ≡ true → Memᴰ x (keep q docs)
  Memᴰ-keep q [] x m h = absurd (Memᴰ.not-nil m)
  Memᴰ-keep q (d ∷ docs) x m h = elim (Memᴰ.cases_cons m) [
    | inl same ↦ let own : q d ≡ true = ap q (sym same) ∙ h in rw own (Memᴰ.head same)
    | inr later ↦ elim (Bool-cases (q d)) [
      | inl kept ↦ rw kept (Memᴰ.tail (Memᴰ-keep q docs x later h))
      | inr gone ↦ rw gone (Memᴰ-keep q docs x later h)
    ]
  ]

  pub Memᴰ-of_keep :
      (q : Doc → Bool) (docs : List Doc) (x : Doc)
      → Memᴰ x (keep q docs)
      → Memᴰ x docs × (q x ≡ true)
  Memᴰ-of_keep q [] x m = absurd (Memᴰ.not-nil m)
  Memᴰ-of_keep q (d ∷ docs) x m = elim (Bool-cases (q d)) [
    | inr gone ↦
        let m' : Memᴰ x (keep q docs) = rw gone at m in
        let (there, h) = Memᴰ-of_keep q docs x m' in (Memᴰ.tail there, h)
    | inl kept ↦
        let m' : Memᴰ x (d ∷ keep q docs) = rw kept at m in
        elim (Memᴰ.cases_cons m') [
          | inl same ↦ (Memᴰ.head same, ap q same ∙ kept)
          | inr later ↦ let (there, h) = Memᴰ-of_keep q docs x later in (Memᴰ.tail there, h)
        ]
  ]

  keep-Without :
      (p q : Doc → Bool) (docs : List Doc)
      → ((x : Doc) → p x ≡ false → q x ≡ true)
      → ((x : Doc) → p x ≡ true → q x ≡ false)
      → Without p docs (keep q docs)
  keep-Without p q docs stays goes x = (
    (λ m.
        let (there, h) = Memᴰ-of_keep q docs x m in
        (
          there,
          elim (Bool-cases (p x)) [
            | inr differs ↦ differs
            | inl passes ↦ let h' = goes x passes in absurd (cc)
          ],
        )),
    λ h. Memᴰ-keep q docs x h.0 (stays x h.1),
  )

  -- a deletion of many that succeeds
  pub delete_many-Without :
      (d : Driver Doc) (laws : DriverLaws d) (p : Doc → Bool) (docs : List Doc) (n : ℕ)
      → (d.delete_many p docs).0 ≡ ok n
      → Without p docs (d.delete_many p docs).1
  delete_many-Without d laws p docs n done =
      let (q, left, stays, goes) = laws.delete_many_lem p docs in
      subst (Without p docs) (sym left) (keep-Without p q docs stays (goes n done))

pub any-Memᴰ :
    {Doc : Type 0} (p : Doc → Bool) (docs : List Doc) (x : Doc)
    → Memᴰ x docs
    → any p docs ≡ false
    → p x ≡ false
any-Memᴰ p [] x m a = absurd (Memᴰ.not-nil m)
any-Memᴰ p (d ∷ docs) x m a = elim (Memᴰ.cases_cons m) [
  | inl same ↦ ap p same ∙ ground arith
  | inr later ↦ any-Memᴰ p docs x later (ground arith)
]

module _ {Doc : Type 0} (p : Doc → Bool) where
  -- no second document passes
  abbrev pub AtMostOne : List Doc → Type 0
  AtMostOne [] = Unit
  AtMostOne (d ∷ docs) = (p d ≡ true → any p docs ≡ false) × AtMostOne docs

  pub delete_first-Without :
      (docs : List Doc) → AtMostOne docs → Without p docs (delete_first p docs)
  unfolding delete_first
  delete_first-Without [] v x = ((λ m. absurd (Memᴰ.not-nil m)), (λ h. h.0))
  delete_first-Without (d ∷ docs) (alone, v) x = elim (Bool-cases (p d)) [
    | inl own ↦ rw own (
      (λ m. (Memᴰ.tail m, any-Memᴰ p docs x m (alone own))),
      (λ h. elim (Memᴰ.cases_cons h.0) [
        | inr later ↦ later
        | inl same ↦ let e = ap p same in absurd (cc)
      ]),
    )
    | inr other ↦ rw other (
      (λ m. elim (Memᴰ.cases_cons m) [
        | inl same ↦ (Memᴰ.head same, ap p same ∙ other)
        | inr later ↦
            let (there, h) = (delete_first-Without docs v x).0 later in (Memᴰ.tail there, h)
      ]),
      (λ h. elim (Memᴰ.cases_cons h.0) [
        | inl same ↦ Memᴰ.head same
        | inr later ↦ Memᴰ.tail ((delete_first-Without docs v x).1 (later, h.1))
      ]),
    )
  ]

-- What `delete_actor` leaves besides the actors: nothing of the actor, and all that is not its own.
pub record IsCleared (id : String) (s s' : Store) : Type 0 where
  pub objects : Without (λ (o : ObjectDocument). o.attributed_to == id) s.objects s'.objects
  pub activities : Without (λ (a : ActivityDocument). a.actor == id) s.activities s'.activities
  pub keys : Without (λ (k : KeyDocument). k.actor_id == id) s.keys s'.keys
  pub follows : Without (follows_or_followed id) s.follows s'.follows

-- the promises of the drivers that a deletion uses
pub record DeletionLaws (d : Drivers) : Type 0 where
  pub actors : DriverLaws d.actors
  pub objects : DriverLaws d.objects
  pub activities : DriverLaws d.activities
  pub keys : DriverLaws d.keys
  pub follows : DriverLaws d.follows

module _ (d : Drivers) (laws : DeletionLaws d) (id : String) where
  delete_follows_of-ok :
      (s : Store)
      → (delete_follows_of d id s).0 ≡ ok tt
      → Without (follows_or_followed id) s.follows (delete_follows_of d id s).1.follows
  unfolding delete_follows_of
  delete_follows_of-ok s h =
      let deletion = d.follows.delete_many (follows_or_followed id) s.follows in
      let state : (delete_follows_of d id s).1.follows ≡ deletion.1 = ground arith in
      elim (Result-cases deletion.0) [
        | inr (e, failed) ↦ absurd (ground arith)
        | inl (n, gone) ↦
            subst (Without (follows_or_followed id) s.follows) (sym state)
              (delete_many-Without d.follows laws.follows (follows_or_followed id) s.follows n gone)
      ]

  delete_keys_of-ok :
      (s : Store)
      → (delete_keys_of d id s).0 ≡ ok tt
      → Without (λ (k : KeyDocument). k.actor_id == id) s.keys (delete_keys_of d id s).1.keys
        × Without (follows_or_followed id) s.follows (delete_keys_of d id s).1.follows
  unfolding delete_keys_of
  delete_keys_of-ok s h =
      let p = λ (k : KeyDocument). k.actor_id == id in
      let deletion = d.keys.delete_many p s.keys in
      let s1 = record s { keys = deletion.1 } in
      elim (Result-cases deletion.0) [
        | inr (e, failed) ↦ absurd (ground arith)
        | inl (n, gone) ↦
            let state : delete_keys_of d id s ≡ delete_follows_of d id s1 = ground arith in
            let kept : (delete_follows_of d id s1).1.keys ≡ deletion.1 =
              unfold delete_follows_of in ground arith in
            (
              subst (Without p s.keys) (sym (ap (λ r. r.1.keys) state ∙ kept))
                  (delete_many-Without d.keys laws.keys p s.keys n gone),
              subst (Without (follows_or_followed id) s.follows) (sym (ap (λ r. r.1.follows) state))
                  (delete_follows_of-ok s1 (ap (λ r. r.0) (sym state) ∙ h)),
            )
      ]

  delete_keys_of-frame :
      (s : Store)
      → ((delete_keys_of d id s).1.activities ≡ s.activities)
        × ((delete_keys_of d id s).1.objects ≡ s.objects)
        × ((delete_keys_of d id s).1.actors ≡ s.actors)
  unfolding delete_keys_of
  delete_keys_of-frame s = (ground arith, ground arith, ground arith)

  delete_activities_of-frame :
      (s : Store)
      → ((delete_activities_of d id s).1.objects ≡ s.objects)
        × ((delete_activities_of d id s).1.actors ≡ s.actors)
  unfolding delete_activities_of
  delete_activities_of-frame s = (ground arith, ground arith)

  pub delete_objects_of-actors : (s : Store) → (delete_objects_of d id s).1.actors ≡ s.actors
  unfolding delete_objects_of
  delete_objects_of-actors s = ground arith

  pub delete_actor-profiles :
      (s : Store) → (delete_actor d id s).1.webfinger_profiles ≡ s.webfinger_profiles
  unfolding delete_actor
  delete_actor-profiles s = ground arith

  delete_activities_of-ok :
      (s : Store)
      → (delete_activities_of d id s).0 ≡ ok tt
      → Without
          (λ (a : ActivityDocument). a.actor == id)
          s.activities
          (delete_activities_of d id s).1.activities
        × Without
            (λ (k : KeyDocument). k.actor_id == id)
            s.keys
            (delete_activities_of d id s).1.keys
        × Without (follows_or_followed id) s.follows (delete_activities_of d id s).1.follows
  unfolding delete_activities_of
  delete_activities_of-ok s h =
      let p = λ (a : ActivityDocument). a.actor == id in
      let deletion = d.activities.delete_many p s.activities in
      let s1 = record s { activities = deletion.1 } in
      elim (Result-cases deletion.0) [
        | inr (e, failed) ↦ absurd (ground arith)
        | inl (n, gone) ↦
            let state : delete_activities_of d id s ≡ delete_keys_of d id s1 = ground arith in
            let (keys, follows) = delete_keys_of-ok s1 (ap (λ r. r.0) (sym state) ∙ h) in
            (
              subst (Without p s.activities)
                  (sym (ap (λ r. r.1.activities) state ∙ (delete_keys_of-frame s1).0))
                  (delete_many-Without d.activities laws.activities p s.activities n gone),
              subst (Without (λ (k : KeyDocument). k.actor_id == id) s.keys)
                  (sym (ap (λ r. r.1.keys) state)) keys,
              subst (Without (follows_or_followed id) s.follows) (sym (ap (λ r. r.1.follows) state))
                  follows,
            )
      ]

  pub delete_objects_of-IsCleared :
      (s : Store)
      → (delete_objects_of d id s).0 ≡ ok tt
      → IsCleared id s (delete_objects_of d id s).1
  unfolding delete_objects_of
  delete_objects_of-IsCleared s h =
      let p = λ (o : ObjectDocument). o.attributed_to == id in
      let deletion = d.objects.delete_many p s.objects in
      let s1 = record s { objects = deletion.1 } in
      elim (Result-cases deletion.0) [
        | inr (e, failed) ↦ absurd (ground arith)
        | inl (n, gone) ↦
            let state : delete_objects_of d id s ≡ delete_activities_of d id s1 = ground arith in
            let (activities, keys, follows) =
              delete_activities_of-ok s1 (ap (λ r. r.0) (sym state) ∙ h) in
            let objects =
              subst (Without p s.objects) (sym (delete_activities_of-frame s1).0)
                (delete_many-Without d.objects laws.objects p s.objects n gone) in
            subst (IsCleared id s) (sym (ap (λ r. r.1) state)) (record {
              objects = objects;
              activities = activities;
              keys = keys;
              follows = follows;
            })
      ]
