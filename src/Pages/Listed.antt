-- ===== src/Pages/Listed.antt =====
-- The collection of followers after the inbox has accepted a follow: the time of the answer is
-- stored as a BSON date, which `FollowDocument` does not read.
use oxifed.Base.{
  ◌≡◌, refl, ap, String, Bool, true, some, inl, inr, List, [], ◌∷◌, ℕ, ok, err, arith, find,
  eq_refl, Bool-cases, Result-cases, ◌==◌, ◌&&◌,
}
use mathlib.Core.List.{Memᴰ}
use mathlib.Core.List.Memᴰ
use oxifed.Vocab.{Activity}
use oxifed.Inbox.Types.{FollowDocument, Environment, State, as_date, read_time}
use oxifed.Inbox.Types
use oxifed.Inbox.Documents.{Headers}
use oxifed.Inbox.Handlers.{follow_document, handle_follow_activity}
use oxifed.Inbox.Rows.{answered}
use oxifed.Inbox.Rows.Follow.{new_follow, handle_follow_activity-accepts}
use oxifed.Database.Documents.{ActorDocument, Store}
use oxifed.Database.Driver.{DriverLaws, whole}
use oxifed.Database.Manager.{
  Drivers, has_pair, is_accepted, read_follow, read_follows, get_actor_followers,
}
use oxifed.Database.Collections.{collections}
use oxifed.Database.Rows.{UniquePairs, collections-Laws}
use oxifed.Pages.{internal_server_error, served_actor, get_followers}

Memᴰ-find :
    {Doc : Type 0} (p : Doc → Bool) (docs : List Doc) (x : Doc) → find p docs ≡ some x → Memᴰ x docs
Memᴰ-find p [] x h = absurd (ground arith)
Memᴰ-find p (d ∷ docs) x h = elim (Bool-cases (p d)) [
  | inl own ↦ Memᴰ.head (ground arith)
  | inr other ↦ Memᴰ.tail (Memᴰ-find p docs x (ground arith))
]

read_follow-date :
    (f : FollowDocument) (t : ℕ)
    → f.responded_at ≡ some (as_date t)
    → (e : String) × (read_follow f ≡ err e)
unfolding read_follow read_time
read_follow-date f t h =
    ("invalid type: map, expected an RFC 3339 formatted date and time string", ground arith)

-- a cursor stops at a follow that is not read
read_follows-date :
    (docs : List FollowDocument) (f : FollowDocument) (t : ℕ)
    → Memᴰ f docs
    → f.responded_at ≡ some (as_date t)
    → (e : String) × (read_follows docs ≡ err e)
unfolding read_follows
read_follows-date [] f t m h = absurd (Memᴰ.not-nil m)
read_follows-date (x ∷ docs) f t m h = elim (Result-cases (read_follow x)) [
  | inr (e, failed) ↦ (e, ground arith)
  | inl (y, read) ↦ elim (Memᴰ.cases_cons m) [
    | inl same ↦
        let (e, failed) = read_follow-date f t h in let e' = ap read_follow same in absurd cc
    | inr later ↦ let (e, failed) = read_follows-date docs f t later h in (e, ground arith)
  ]
]

module _ (d : Drivers) (laws : DriverLaws d.follows) (unique : UniquePairs d.follows) where
  -- an accepted follow of the actor that is served, answered at a BSON date
  unlisted :
      (username : String) (headers : Headers) (s : Store) (actor : ActorDocument)
      (f : FollowDocument) (t : ℕ)
      → Memᴰ f s.follows
      → ((f.following == actor.actor_id) && is_accepted f.status) ≡ true
      → f.responded_at ≡ some (as_date t)
      → served_actor d username headers s ≡ ok actor
      → get_followers d username headers s ≡ err internal_server_error
  unfolding get_followers get_actor_followers
  unlisted username headers s actor f t there passes date found =
      let p = λ (g : FollowDocument). (g.following == actor.actor_id) && is_accepted g.status in
      elim (Result-cases (d.follows.find p whole s.follows)) [
        | inr (e, failed) ↦ ground arith
        | inl (docs, read) ↦
            let (e, stops) =
              read_follows-date docs f t ((laws.find_whole p s.follows docs read f).1 passes there)
                date in
            ground arith
      ]

  -- After the inbox of an actor has taken a Follow with success, every request for the collection of
  -- followers of that actor is answered with an internal server error, while the actor is served: the
  -- time of the answer is a BSON date in the database, and the follow is not read.
  pub handle_follow_activity-unlisted :
      (env : Environment) (activity : Activity) (target : Types.ActorDocument) (s s' : State Store)
      (username : String) (headers : Headers) (actor : ActorDocument)
      → handle_follow_activity (collections d) env activity target s ≡ (ok tt, s')
      → served_actor d username headers s'.db ≡ ok actor
      → actor.actor_id ≡ target.actor_id
      → get_followers d username headers s'.db ≡ err internal_server_error
  unfolding collections follow_document
  handle_follow_activity-unlisted env activity target s s' username headers actor h found same =
      let followed =
        handle_follow_activity-accepts (collections d) (collections-Laws d laws unique) env activity
          target s s' h in
      let f = answered Types.accepted followed.responded_at (
        new_follow (collections d) (collections-Laws d laws unique) env activity target
          followed.follower) in
      let there : Memᴰ f s'.db.follows =
        Memᴰ-find (has_pair followed.follower target.actor_id) s'.db.follows f followed.row_after in
      let passes : ((target.actor_id == actor.actor_id) && true) ≡ true =
        let own = eq_refl target.actor_id in rw same (ground arith) in
      unlisted username headers s'.db actor f followed.responded_at there passes refl found
