-- ===== src/Inbox/Rows/Invariant.antt =====
-- How the follow documents evolve over a sequence of requests to the inboxes.
use oxifed.Base.{
  ℕ, ◌≡◌, ◌≢◌, refl, sym, ◌∙◌, ap, subst, String, Option, none, some, ◌⊎◌, inl, inr, [], ◌∷◌, ◌++◌,
  map_option, arith, Result-cases, Option-cases, Bool-cases,
}
use oxifed.Vocab.{
  Object, ObjectOrLink, Activity, ActivityType, accept, announce, create, delete, follow, like,
  reject, undo, update, url_of,
}
use oxifed.Inbox.Types.{
  FollowStatus, accepted, rejected, cancelled, FollowDocument, ActorDocument, Collections,
  Environment, State, outgoing,
}
use oxifed.Inbox.Documents.{document_of_struct}
use oxifed.Inbox.Handlers.{
  handle_as, set_status, follow_document, accept_activity, follow_of, handle_follow_activity,
  handle_response, handle_undo_activity, forward_object, forward_embedded, forward_activity,
  handle_create_activity, store_activity_struct, undone_follow,
}
use oxifed.Inbox.Rows.Follow.{
  follow-named, follow_of-refused, follow_of-unserialized, follow_of-unsent, follow_of-sent,
}
use oxifed.Inbox.Rows.Responses.{handle_response-changes, handle_undo_activity-row}
use oxifed.Inbox.Post.{answer}
use oxifed.Inbox.Rows.{same_pair, same_pair-eq, answered, set_status-row, Laws}

-- From a row to a later one: a document stays, with its pair, its activity and its creation; its
-- status is the same or one of those that `P` tells.
abbrev pub EvolvesBy :
    (FollowStatus → Type 0) → Option FollowDocument → Option FollowDocument → Type 0
EvolvesBy P none after = Unit {0}
EvolvesBy P (some d) none = ⊥
EvolvesBy P (some d) (some d') =
    (d'.follower ≡ d.follower)
    × (d'.following ≡ d.following)
    × (d'.activity_id ≡ d.activity_id)
    × (d'.created_at ≡ d.created_at)
    × (d'.accept_activity_id ≡ d.accept_activity_id)
    × ((d'.status ≡ d.status) ⊎ P d'.status)

-- The status is the same or an answer, never pending again.
abbrev pub Evolves : Option FollowDocument → Option FollowDocument → Type 0
Evolves a b = EvolvesBy (λ s. s ≢ FollowStatus.pending) a b

module _ (P : FollowStatus → Type 0) where
  pub Evolves-refl : (r : Option FollowDocument) → EvolvesBy P r r
  Evolves-refl none = tt
  Evolves-refl (some d) = (refl, refl, refl, refl, refl, inl refl)

  pub Evolves-trans :
      (a b c : Option FollowDocument) → EvolvesBy P a b → EvolvesBy P b c → EvolvesBy P a c
  Evolves-trans none b c p q = tt
  Evolves-trans (some a) none c p q = absurd p
  Evolves-trans (some a) (some b) none p q = absurd q
  Evolves-trans (some a) (some b) (some c) (p, p₁, p₂, p₃, p₄, s) (q, q₁, q₂, q₃, q₄, t) = (
    q ∙ p,
    q₁ ∙ p₁,
    q₂ ∙ p₂,
    q₃ ∙ p₃,
    q₄ ∙ p₄,
    elim t [
      | inr answer ↦ inr answer
      | inl same ↦ elim s [
        | inl before ↦ inl (same ∙ before)
        | inr answer ↦ inr (subst P (sym same) answer)
      ]
    ],
  )

  pub Evolves-same : {a b : Option FollowDocument} → b ≡ a → EvolvesBy P a b
  Evolves-same {a} e = subst (EvolvesBy P a) (sym e) (Evolves-refl a)

  Evolves-answered :
      (status : FollowStatus) (at : ℕ) (r r' : Option FollowDocument)
      → P status
      → r' ≡ map_option (answered status at) r
      → EvolvesBy P r r'
  Evolves-answered status at none r' n e = tt
  Evolves-answered status at (some d) r' n e =
      subst (EvolvesBy P (some d)) (sym e) (refl, refl, refl, refl, refl, inr n)

  module _ {Db : Type 0} (c : Collections Db) (laws : Laws c) (env : Environment)
      (answers : P accepted × P rejected) where
    set_status-Evolves :
        (text follower following : String) (status : FollowStatus) (s : State Db) (f t : String)
        → P status
        → EvolvesBy P
            (c.row s.db f t)
            (c.row (set_status c text follower following status s).1.db f t)
    set_status-Evolves text follower following status s f t n =
        elim (set_status-row c laws text follower following status s f t) [
          | inl kept ↦ Evolves-same kept
          | inr (_, _, own) ↦ Evolves-answered status (c.clock s.db) _ _ n own
        ]

    insert-Evolves :
        (d : FollowDocument) (db : Db) (f t : String)
        → EvolvesBy P (c.row db f t) (c.row (c.insert_follow d db).1 f t)
    insert-Evolves d db f t = elim (Bool-cases (same_pair f t d.follower d.following)) [
      | inr differs ↦ Evolves-same (laws.insert_others d db f t differs)
      | inl same ↦
          let (p, q) = same_pair-eq f t d.follower d.following same in
          elim (laws.insert_own d db) [
            | inl (absent, _) ↦ rw (p, q, absent) tt
            | inr (e, _, own) ↦ Evolves-same (rw (p, q) own)
          ]
    ]

    module _ (activity : Activity) (actor : ActorDocument)
        (undoes : (o : ObjectOrLink)
          → activity.object ≡ some o
          → (undone_follow o ≡ none) ⊎ P cancelled) where
      follow_of-Evolves :
          (follower : String) (s : State Db) (f t : String)
          → EvolvesBy P
              (c.row s.db f t)
              (c.row (follow_of c env activity actor follower s).1.db f t)
      unfolding follow_document
      follow_of-Evolves follower s f t =
          let d = follow_document env activity follower actor.actor_id in
          let stays = insert-Evolves d s.db f t in
          elim (Result-cases (c.insert_follow d s.db).0) [
            | inr (e, refused) ↦
                rw (follow_of-refused c laws env activity actor follower e s refused) stays
            | inl (tt, stored) ↦ elim (Result-cases (env.to_value activity)) [
              | inr (e, failed) ↦
                  rw (follow_of-unserialized c laws env activity actor follower e s stored failed)
                    stays
              | inl (json, as_json) ↦
                  elim (Result-cases
                    (env.broker s.sent (outgoing (accept_activity env json actor.actor_id)))) [
                      | inr (e, unsent) ↦
                          rw
                            (follow_of-unsent c laws env activity actor follower e json s stored
                              as_json unsent)
                            stays
                      | inl (tt, sent) ↦
                          rw
                            (follow_of-sent c laws env activity actor follower json s stored as_json
                              sent)
                            (Evolves-trans _ _ _ stays (
                              set_status-Evolves "Failed to update follow status: " follower
                                actor.actor_id accepted
                                (record {
                                  db = (c.insert_follow d s.db).1;
                                  sent =
                                      s.sent
                                      ++ outgoing (accept_activity env json actor.actor_id) ∷ [];
                                })
                                f t answers.0))
                    ]
            ]
          ]

      handle_follow-Evolves :
          (s : State Db) (f t : String)
          → EvolvesBy P
              (c.row s.db f t)
              (c.row (handle_follow_activity c env activity actor s).1.db f t)
      unfolding handle_follow_activity
      handle_follow-Evolves s f t = elim (Option-cases (url_of activity.actor)) [
        | inl unnamed ↦ Evolves-same (ground arith)
        | inr (follower, named) ↦
            rw (follow-named c laws env activity actor follower s named)
              (follow_of-Evolves follower s f t)
      ]

      forward_object-db :
          (domain : String) (username : Option String) (o : Object) (s : State Db)
          → (forward_object c env actor domain username o s).1.db ≡ s.db
      unfolding forward_object
      forward_object-db domain username o s = ground arith

      pub forward_activity-db :
          (unnamed domain : String) (username : Option String) (s : State Db)
          → (forward_activity c env activity unnamed domain username s).1.db ≡ s.db
      forward_activity-db unnamed domain username s = ground arith

      forward_embedded-db :
          (domain : String) (username : Option String) (o : ObjectOrLink) (s : State Db)
          → (forward_embedded c env actor domain username o s).1.db ≡ s.db
      forward_embedded-db domain username (ObjectOrLink.object o) s =
          forward_object-db domain username o s
      forward_embedded-db domain username (ObjectOrLink.link l) s = refl
      forward_embedded-db domain username (ObjectOrLink.url u) s = refl

      handle_create-db :
          (domain : String) (username : Option String) (s : State Db)
          → (handle_create_activity c env activity actor domain username s).1.db ≡ s.db
      unfolding handle_create_activity
      handle_create-db domain username s = elim (Option-cases activity.object) [
        | inl missing ↦ ground arith
        | inr (o, present) ↦
            let kept = forward_embedded-db domain username o s in
            elim (Result-cases (forward_embedded c env actor domain username o s).0) [
              | inr (e, failed) ↦ ground arith
              | inl (tt, done) ↦ ground (
                arith,
                forward_activity-db actor.actor_id domain username
                    (forward_embedded c env actor domain username o s).1,
              )
            ]
      ]

      handle_response-Evolves :
          (status : FollowStatus) (text : String) (s : State Db) (f t : String)
          → P status
          → EvolvesBy P
              (c.row s.db f t)
              (c.row (handle_response c env status text activity actor s).1.db f t)
      handle_response-Evolves status text s f t n =
          elim (handle_response-changes c env laws status text activity actor s f t).1 [
            | inl kept ↦ Evolves-same kept
            | inr (_, own) ↦ Evolves-answered status (c.clock s.db) _ _ n own
          ]

      handle_undo-Evolves :
          (s : State Db) (f t : String)
          → EvolvesBy P
              (c.row s.db f t)
              (c.row (handle_undo_activity c env activity actor s).1.db f t)
      handle_undo-Evolves s f t =
          elim (handle_undo_activity-row c env laws activity actor s f t).1 [
            | inl kept ↦ Evolves-same kept
            | inr (_, (o, present, named), own) ↦ elim (undoes o present) [
              | inl unnamed ↦ absurd cc
              | inr allowed ↦ Evolves-answered cancelled (c.clock s.db) _ _ allowed own
            ]
          ]

      store-Evolves :
          (s : State Db) (f t : String)
          → EvolvesBy P (c.row s.db f t) (c.row (store_activity_struct c env activity s).1.db f t)
      unfolding store_activity_struct
      store-Evolves s f t =
          Evolves-same (laws.activity_rows (document_of_struct env activity) s.db f t)

      pub handle_as-Evolves :
          (type : ActivityType) (domain username : String) (s : State Db) (f t : String)
          → EvolvesBy P
              (c.row s.db f t)
              (c.row (handle_as c env type activity actor domain username s).1.db f t)
      unfolding handle_as
      handle_as-Evolves follow domain username s f t = handle_follow-Evolves s f t
      handle_as-Evolves undo domain username s f t = handle_undo-Evolves s f t
      handle_as-Evolves create domain username s f t =
          Evolves-same (ap (λ (db : Db). c.row db f t) (handle_create-db domain (some username) s))
      handle_as-Evolves update domain username s f t = store-Evolves s f t
      handle_as-Evolves delete domain username s f t = store-Evolves s f t
      handle_as-Evolves like domain username s f t = store-Evolves s f t
      handle_as-Evolves announce domain username s f t = store-Evolves s f t
      handle_as-Evolves accept domain username s f t =
          handle_response-Evolves accepted _ s f t answers.0
      handle_as-Evolves reject domain username s f t =
          handle_response-Evolves rejected _ s f t answers.1
      handle_as-Evolves _ domain username s f t = Evolves-refl (c.row s.db f t)
