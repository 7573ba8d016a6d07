-- ===== src/Inbox/Rows.antt =====
-- What the collections of the database promise of the follow documents, and how a document may
-- change. The unique index on the pair is that of src/database.rs (`create_indexes`).
pub mod Follow
pub mod Responses
pub mod Invariant
pub mod Requests
use oxifed.Base.{
  ℕ, ◌≡◌, refl, String, Bool, true, false, Option, none, some, ◌⊎◌, inl, inr, Result, ok, err,
  map_option, ◌&&◌, ◌==◌, eq_iff, eq_refl, arith, Result-cases, Bool-cases,
}
use oxifed.Inbox.Handlers.{set_status}
use oxifed.Inbox.Types.{
  as_date, Environment, FollowStatus, FollowDocument, ActivityDocument, Collections, State,
}

abbrev pub same_pair : String → String → String → String → Bool
same_pair f t f' t' = (f == f') && (t == t')

pub same_pair-eq : (f t f' t' : String) → same_pair f t f' t' ≡ true → (f ≡ f') × (t ≡ t')
same_pair-eq f t f' t' h = (ground (arith, eq_iff f f'), ground (arith, eq_iff t t'))

pub same_pair_refl : (f t : String) → same_pair f t f t ≡ true
same_pair_refl f t = ground (arith, eq_refl f, eq_refl t)

-- a document after `$set` of the status and `$currentDate` of `responded_at`
abbrev pub answered : FollowStatus → ℕ → FollowDocument → FollowDocument
answered status at d = record d { status = status; responded_at = some (as_date at) }

-- What MongoDB does. An error of a write leaves open whether the document was written.
pub record Laws {Db : Type 0} (c : Collections Db) : Type 0 where
  -- a document is inserted for a pair that has none, or the insertion fails
  pub insert_own :
      (d : FollowDocument) (db : Db)
      → ((c.row db d.follower d.following ≡ none)
          × (c.row (c.insert_follow d db).1 d.follower d.following ≡ some d))
        ⊎ ((e : String) × ((c.insert_follow d db).0 ≡ err e)
            × (c.row (c.insert_follow d db).1 d.follower d.following
                ≡ c.row db d.follower d.following))
  pub insert_others :
      (d : FollowDocument) (db : Db) (f t : String)
      → same_pair f t d.follower d.following ≡ false
      → c.row (c.insert_follow d db).1 f t ≡ c.row db f t
  -- the document of the pair, if there is one, is updated, or the update fails
  pub update_own :
      (f t : String) (status : FollowStatus) (db : Db)
      → (c.row (c.update_follow_status f t status db).1 f t
          ≡ map_option (answered status (c.clock db)) (c.row db f t))
        ⊎ ((e : String) × ((c.update_follow_status f t status db).0 ≡ err e)
            × (c.row (c.update_follow_status f t status db).1 f t ≡ c.row db f t))
  pub update_others :
      (f t : String) (status : FollowStatus) (db : Db) (f' t' : String)
      → same_pair f' t' f t ≡ false
      → c.row (c.update_follow_status f t status db).1 f' t' ≡ c.row db f' t'
  pub activity_rows :
      (a : ActivityDocument) (db : Db) (f t : String)
      → c.row (c.insert_activity a db).1 f t ≡ c.row db f t

-- A status that has been set: nothing is sent, the row has it, the others are unchanged.
module _ {Db : Type 0} (c : Collections Db) (laws : Laws c) where
  pub set_status-eq-ok :
      (text f t : String) (status : FollowStatus) (s s' : State Db)
      → set_status c text f t status s ≡ (ok tt, s')
      → ((c.update_follow_status f t status s.db).0 ≡ ok tt)
        × (s' ≡ record s { db = (c.update_follow_status f t status s.db).1 })
  set_status-eq-ok text f t status s s' h =
      elim (Result-cases (c.update_follow_status f t status s.db).0) [
        | inl (tt, done) ↦ (done, ground arith)
        | inr (e, failed) ↦ absurd (ground arith)
      ]

  pub set_status-updated :
      (text f t : String) (status : FollowStatus) (s : State Db)
      → (c.update_follow_status f t status s.db).0 ≡ ok tt
      → set_status c text f t status s
        ≡ (ok tt, record s { db = (c.update_follow_status f t status s.db).1 })
  set_status-updated text f t status s h = ground arith

  pub update-answers :
      (f t : String) (status : FollowStatus) (db : Db)
      → (c.update_follow_status f t status db).0 ≡ ok tt
      → c.row (c.update_follow_status f t status db).1 f t
        ≡ map_option (answered status (c.clock db)) (c.row db f t)
  update-answers f t status db h = elim (laws.update_own f t status db) [
    | inl own ↦ own
    | inr (e, failed, _) ↦ cc
  ]

  -- what a status that was to be set has done to the row of any pair
  pub set_status-row :
      (text f t : String) (status : FollowStatus) (s : State Db) (f' t' : String)
      → (c.row (set_status c text f t status s).1.db f' t' ≡ c.row s.db f' t')
        ⊎ ((f' ≡ f)
            × (t' ≡ t)
            × (c.row (set_status c text f t status s).1.db f' t'
                ≡ map_option (answered status (c.clock s.db)) (c.row s.db f' t')))
  set_status-row text f t status s f' t' = elim (Bool-cases (same_pair f' t' f t)) [
    | inr differs ↦ inl (laws.update_others f t status s.db f' t' differs)
    | inl same ↦
        let (p, q) = same_pair-eq f' t' f t same in
        elim (laws.update_own f t status s.db) [
          | inl own ↦ inr (p, q, cc)
          | inr (e, failed, own) ↦ inl (cc)
        ]
  ]
