-- ===== src/Database/Rows.antt =====
-- The operations of `DatabaseManager` on follows keep what the inbox expects of the database.
use oxifed.Base.{
  ◌≡◌, refl, ap, ◌∙◌, String, Bool, true, false, none, some, ◌⊎◌, inl, inr, List, [], ◌∷◌, ◌++◌,
  err, any, find, arith, Bool-cases, eq_iff, eq_refl, map_option,
}
use oxifed.Inbox.Types.{FollowStatus, FollowDocument, ActivityDocument}
use oxifed.Inbox.Rows.{Laws, same_pair, answered}
use oxifed.Database.Documents.{Store}
use oxifed.Database.Driver.{Driver, DriverLaws, update_first}
use oxifed.Database.Manager.{
  Drivers, has_pair, insert_follow, update_follow_status, insert_activity,
}
use oxifed.Database.Collections.{collections}

-- The unique index on the pair of a follow: a second document of a pair is not inserted.
pub record UniquePairs (d : Driver FollowDocument) : Type 0 where
  pub refused :
      (f : FollowDocument) (docs : List FollowDocument)
      → any (has_pair f.follower f.following) docs ≡ true
      → (e : String) × ((d.insert_one f docs).0 ≡ err e) × ((d.insert_one f docs).1 ≡ docs)

module _ {Doc : Type 0} (p : Doc → Bool) where
  find-none : (docs : List Doc) → any p docs ≡ false → find p docs ≡ none
  find-none [] h = refl
  find-none (x ∷ docs) h = ground (arith, find-none docs)

  find-snoc :
      (docs : List Doc) (x : Doc)
      → any p docs ≡ false
      → p x ≡ true
      → find p (docs ++ x ∷ []) ≡ some x
  find-snoc [] x h own = ground arith
  find-snoc (y ∷ docs) x h own = ground (arith, find-snoc docs x)

  find-snoc_other :
      (docs : List Doc) (x : Doc) → p x ≡ false → find p (docs ++ x ∷ []) ≡ find p docs
  find-snoc_other [] x other = ground arith
  find-snoc_other (y ∷ docs) x other = ground (arith, find-snoc_other docs x)

  pub find-update :
      (f : Doc → Doc) (docs : List Doc)
      → ((x : Doc) → p (f x) ≡ p x)
      → find p (update_first p f docs) ≡ map_option f (find p docs)
  unfolding update_first
  find-update f [] same = refl
  find-update f (x ∷ docs) same = elim (Bool-cases (p x)) [
    | inl own ↦ let e = same x in ground arith
    | inr other ↦ ground (arith, find-update f docs same)
  ]

  pub find-update_other :
      (q : Doc → Bool) (f : Doc → Doc) (docs : List Doc)
      → ((x : Doc) → q (f x) ≡ q x)
      → ((x : Doc) → p x ≡ true → q x ≡ false)
      → find q (update_first p f docs) ≡ find q docs
  unfolding update_first
  find-update_other q f [] same apart = refl
  find-update_other q f (x ∷ docs) same apart = elim (Bool-cases (p x)) [
    | inl own ↦ let e = same x in let e' = apart x own in ground arith
    | inr other ↦ ground (arith, find-update_other q f docs same apart)
  ]

-- the filter of a pair on the documents of pairs
has_pair_refl : (f : FollowDocument) → has_pair f.follower f.following f ≡ true
has_pair_refl f = ground (arith, eq_refl f.follower, eq_refl f.following)

has_pair_other :
    (f t : String) (d : FollowDocument)
    → same_pair f t d.follower d.following ≡ false
    → has_pair f t d ≡ false
has_pair_other f t d h =
    ground
      (arith, eq_iff f d.follower, eq_iff d.follower f, eq_iff t d.following, eq_iff d.following t)

pairs_apart :
    (f t f' t' : String)
    → same_pair f' t' f t ≡ false
    → (x : FollowDocument) → has_pair f t x ≡ true
    → has_pair f' t' x ≡ false
pairs_apart f t f' t' apart x h = ground (
  arith,
  eq_iff x.follower f,
  eq_iff x.following t,
  eq_iff x.follower f',
  eq_iff x.following t',
  eq_iff f' f,
  eq_iff t' t,
)

module _ (d : Drivers) (laws : DriverLaws d.follows) (unique : UniquePairs d.follows) where
  insert_own :
      (f : FollowDocument) (s : Store)
      → (((collections d).row s f.follower f.following ≡ none)
          × ((collections d).row ((collections d).insert_follow f s).1 f.follower f.following
              ≡ some f))
        ⊎ ((e : String) × (((collections d).insert_follow f s).0 ≡ err e)
            × ((collections d).row ((collections d).insert_follow f s).1 f.follower f.following
                ≡ (collections d).row s f.follower f.following))
  unfolding collections insert_follow
  insert_own f s =
      let p = has_pair f.follower f.following in
      elim (Bool-cases (any p s.follows)) [
        | inl present ↦
            let (e, failed, same) = unique.refused f s.follows present in
            inr (e, failed, ap (find p) same)
        | inr fresh ↦ elim (laws.insert_one_lem f s.follows) [
          | inl stored ↦ inl (
            find-none p s.follows fresh,
            ap (find p) stored ∙ find-snoc p s.follows f fresh (has_pair_refl f),
          )
          | inr (e, failed, same) ↦ inr (e, failed, ap (find p) same)
        ]
      ]

  insert_others :
      (f : FollowDocument) (s : Store) (a b : String)
      → same_pair a b f.follower f.following ≡ false
      → (collections d).row ((collections d).insert_follow f s).1 a b ≡ (collections d).row s a b
  unfolding collections insert_follow
  insert_others f s a b other = elim (laws.insert_one_lem f s.follows) [
    | inl stored ↦
        ap (find (has_pair a b)) stored
        ∙ find-snoc_other (has_pair a b) s.follows f (has_pair_other a b f other)
    | inr (e, failed, same) ↦ ap (find (has_pair a b)) same
  ]

  update_state :
      (a b : String) (status : FollowStatus) (s : Store)
      → (update_follow_status d a b status s).1.follows
        ≡ (d.follows.update_one (has_pair a b) (answered status d.follows.clock) s.follows).1
  unfolding update_follow_status
  update_state a b status s = ground arith

  update_failed :
      (a b : String) (status : FollowStatus) (s : Store) (e : String)
      → (d.follows.update_one (has_pair a b) (answered status d.follows.clock) s.follows).0 ≡ err e
      → (update_follow_status d a b status s).0 ≡ err e
  unfolding update_follow_status
  update_failed a b status s e h = ground arith

  update_own :
      (a b : String) (status : FollowStatus) (s : Store)
      → ((collections d).row ((collections d).update_follow_status a b status s).1 a b
          ≡ map_option (answered status ((collections d).clock s)) ((collections d).row s a b))
        ⊎ ((e : String) × (((collections d).update_follow_status a b status s).0 ≡ err e)
            × ((collections d).row ((collections d).update_follow_status a b status s).1 a b
                ≡ (collections d).row s a b))
  unfolding collections
  update_own a b status s =
      let p = has_pair a b in
      let f = answered status d.follows.clock in
      elim (laws.update_one_lem p f s.follows) [
        | inl changed ↦ inl (
            ap (find p) (update_state a b status s ∙ changed)
            ∙ find-update p f s.follows (λ x. refl))
        | inr (e, failed, same) ↦
            inr (
              e,
              update_failed a b status s e failed,
              ap (find p) (update_state a b status s ∙ same),
            )
      ]

  update_others :
      (a b : String) (status : FollowStatus) (s : Store) (a' b' : String)
      → same_pair a' b' a b ≡ false
      → (collections d).row ((collections d).update_follow_status a b status s).1 a' b'
        ≡ (collections d).row s a' b'
  unfolding collections
  update_others a b status s a' b' other =
      let p = has_pair a b in
      let q = has_pair a' b' in
      let f = answered status d.follows.clock in
      elim (laws.update_one_lem p f s.follows) [
        | inl changed ↦
            ap (find q) (update_state a b status s ∙ changed)
            ∙ find-update_other p q f s.follows (λ x. refl) (pairs_apart a b a' b' other)
        | inr (e, failed, same) ↦ ap (find q) (update_state a b status s ∙ same)
      ]

  activity_rows :
      (a : ActivityDocument) (s : Store) (f t : String)
      → (collections d).row ((collections d).insert_activity a s).1 f t ≡ (collections d).row s f t
  unfolding collections insert_activity
  activity_rows a s f t = refl

  -- The database manager keeps the contract by which the inbox is verified, if the driver keeps its
  -- promises for the collection of follows and the unique index refuses a second document of a pair:
  -- an insertion stores the document of a pair that has none, an update changes the document of its
  -- pair, each or else fails and changes no document, and neither touches another pair.
  pub collections-Laws : Laws (collections d)
  collections-Laws = record {
    insert_own = insert_own;
    insert_others = insert_others;
    update_own = update_own;
    update_others = update_others;
    activity_rows = activity_rows;
  }
