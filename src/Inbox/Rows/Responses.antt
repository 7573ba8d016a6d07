-- ===== src/Inbox/Rows/Responses.antt =====
-- An `Accept`, a `Reject` and an `Undo` in the inbox: which follow documents they change.
use oxifed.Base.{
  ◌≡◌, refl, sym, ap, ◌∙◌, ◌⧺◌, String, Option, none, some, ◌⊎◌, inl, inr, ok, err, map_option,
  arith, Result-cases, Option-cases,
}
use oxifed.Vocab.{Object, ObjectOrLink, Activity}
use oxifed.Inbox.Types.{
  FollowStatus, cancelled, ActorDocument, ActivityDocument, Collections, Environment, State,
}
use oxifed.Inbox.Documents.{document_of_json}
use oxifed.Inbox.Handlers.{
  set_status, store, extract_follow_from_response, handle_response, undone_follow, undo_follow,
  handle_undo_activity, embedded_follow,
}
use oxifed.Inbox.Rows.{answered, set_status-row, update-answers, Laws}

module _ {Db : Type 0} (c : Collections Db) (env : Environment) where
  handle_response-read :
      (status : FollowStatus) (text : String) (activity : Activity) (local_actor : ActorDocument)
      (pair : String × String) (s : State Db)
      → extract_follow_from_response c activity local_actor s.db ≡ ok pair
      → handle_response c env status text activity local_actor s
        ≡ set_status c text pair.0 pair.1 status s
  unfolding handle_response
  handle_response-read status text activity local_actor pair s h = ground arith

  handle_response-unread :
      (status : FollowStatus) (text : String) (activity : Activity) (local_actor : ActorDocument)
      (e : String) (s : State Db)
      → extract_follow_from_response c activity local_actor s.db ≡ err e
      → handle_response c env status text activity local_actor s ≡ (err e, s)
  unfolding handle_response
  handle_response-unread status text activity local_actor e s h = ground arith

  extract-embedded :
      (activity : Activity) (local_actor : ActorDocument) (o : Object) (db : Db)
      → activity.object ≡ some (ObjectOrLink.object o)
      → extract_follow_from_response c activity local_actor db ≡ embedded_follow o
  unfolding extract_follow_from_response
  extract-embedded activity local_actor o db h = rw (h, extract_follow_from_response) refl

  handle_response-from :
      (status : FollowStatus) (text : String) (a b : Activity) (x y : ActorDocument) (s : State Db)
      → extract_follow_from_response c a x s.db ≡ extract_follow_from_response c b y s.db
      → handle_response c env status text a x s ≡ handle_response c env status text b y s
  handle_response-from status text a b x y s h =
      elim (Result-cases (extract_follow_from_response c a x s.db)) [
        | inl (pair, read) ↦
            handle_response-read status text a x pair s read
            ∙ sym (handle_response-read status text b y pair s (sym h ∙ read))
        | inr (e, unread) ↦
            handle_response-unread status text a x e s unread
            ∙ sym (handle_response-unread status text b y e s (sym h ∙ unread))
      ]

  -- An answer to a follow that it embeds does the same whoever sends it and whosever inbox takes
  -- it: neither the sender nor the local actor is compared with the pair of the follow.
  pub handle_response-anyone :
      (status : FollowStatus) (text : String) (a b : Activity) (x y : ActorDocument) (o : Object)
      (s : State Db)
      → a.object ≡ some (ObjectOrLink.object o)
      → b.object ≡ some (ObjectOrLink.object o)
      → handle_response c env status text a x s ≡ handle_response c env status text b y s
  handle_response-anyone status text a b x y o s h g =
      handle_response-from status text a b x y s
        (extract-embedded a x o s.db h ∙ sym (extract-embedded b y o s.db g))

  module _ (laws : Laws c) where
    -- what an answer changes at most
    pub handle_response-changes :
        (status : FollowStatus) (text : String) (activity : Activity) (local_actor : ActorDocument)
        (s : State Db) (f t : String)
        → ((handle_response c env status text activity local_actor s).1.sent ≡ s.sent)
          × ((c.row (handle_response c env status text activity local_actor s).1.db f t
                ≡ c.row s.db f t)
              ⊎ ((extract_follow_from_response c activity local_actor s.db ≡ ok (f, t))
                  × (c.row (handle_response c env status text activity local_actor s).1.db f t
                      ≡ map_option (answered status (c.clock s.db)) (c.row s.db f t))))
    handle_response-changes status text activity local_actor s f t =
        elim (Result-cases (extract_follow_from_response c activity local_actor s.db)) [
          | inr (e, unread) ↦
              rw (handle_response-unread status text activity local_actor e s unread)
                (refl, inl refl)
          | inl ((f', t'), read) ↦
              rw (handle_response-read status text activity local_actor (f', t') s read) (
                refl,
                elim (set_status-row c laws text f' t' status s f t) [
                  | inl kept ↦ inl kept
                  | inr (p, q, own) ↦ inr (cc, own)
                ],
              )
        ]

    -- what an answer changes if it does not fail
    handle_response-answers :
        (status : FollowStatus) (text : String) (activity : Activity) (local_actor : ActorDocument)
        (s : State Db)
        → ((e : String) × ((handle_response c env status text activity local_actor s).0 ≡ err e))
          ⊎ ((pair : String × String) × (extract_follow_from_response c activity local_actor s.db
                ≡ ok pair)
              × (c.row (handle_response c env status text activity local_actor s).1.db pair.0 pair.1
                  ≡ map_option (answered status (c.clock s.db)) (c.row s.db pair.0 pair.1)))
    handle_response-answers status text activity local_actor s =
        elim (Result-cases (extract_follow_from_response c activity local_actor s.db)) [
          | inr (e, unread) ↦ inl (
            e,
            ap (λ r. r.0) (handle_response-unread status text activity local_actor e s unread),
          )
          | inl (pair, read) ↦
              let same = handle_response-read status text activity local_actor pair s read in
              elim (Result-cases (c.update_follow_status pair.0 pair.1 status s.db).0) [
                | inr (e, failed) ↦ rw same (inl (text ⧺ e, ground arith))
                | inl (tt, done) ↦
                    rw same (inr (pair, read, update-answers c laws pair.0 pair.1 status s.db done))
              ]
        ]

    -- An answer sends nothing. The row of a pair is unchanged, or the pair is the one read from
    -- the answer and its document, if there is one, has the status of the answer. An answer that does
    -- not fail has been read as a pair, and the document of this pair, if there is one, has the status.
    pub handle_response-row :
        (status : FollowStatus) (text : String) (activity : Activity) (local_actor : ActorDocument)
        (s : State Db) (f t : String)
        → ((handle_response c env status text activity local_actor s).1.sent ≡ s.sent)
          × ((c.row (handle_response c env status text activity local_actor s).1.db f t
                ≡ c.row s.db f t)
              ⊎ ((extract_follow_from_response c activity local_actor s.db ≡ ok (f, t))
                  × (c.row (handle_response c env status text activity local_actor s).1.db f t
                      ≡ map_option (answered status (c.clock s.db)) (c.row s.db f t))))
          × (((e : String) × ((handle_response c env status text activity local_actor s).0 ≡ err e))
              ⊎ ((pair : String × String) × (extract_follow_from_response c activity local_actor
                      s.db
                    ≡ ok pair)
                  × (c.row
                        (handle_response c env status text activity local_actor s).1.db
                        pair.0
                        pair.1
                      ≡ map_option (answered status (c.clock s.db)) (c.row s.db pair.0 pair.1))))
    handle_response-row status text activity local_actor s f t =
        let (unsent, changes) = handle_response-changes status text activity local_actor s f t in
        (unsent, changes, handle_response-answers status text activity local_actor s)

    -- storing an activity, after it has been serialized or not, changes no row
    pub store-row :
        (doc : ActivityDocument) (s : State Db) (f t : String)
        → (c.row (store c doc s).1.db f t ≡ c.row s.db f t) × ((store c doc s).1.sent ≡ s.sent)
    store-row doc s f t = (laws.activity_rows doc s.db f t, refl)

    undo-rest :
        (activity : Activity) (actor : ActorDocument) (o : ObjectOrLink) (s : State Db)
        (f t : String)
        → activity.object ≡ some o
        → (c.row (handle_undo_activity c env activity actor s).1.db f t
            ≡ c.row (undo_follow c env actor (undone_follow o) s).1.db f t)
          × ((handle_undo_activity c env activity actor s).1.sent
              ≡ (undo_follow c env actor (undone_follow o) s).1.sent)
    unfolding handle_undo_activity
    undo-rest activity actor o s f t h =
        elim (Result-cases (undo_follow c env actor (undone_follow o) s).0) [
          | inr (e, failed) ↦ ground arith
          | inl (tt, done) ↦ elim (Result-cases (env.to_value activity)) [
            | inr (e, failed) ↦ ground arith
            | inl (json, as_json) ↦ ground (
              arith,
              laws.activity_rows (document_of_json env json)
                  (undo_follow c env actor (undone_follow o) s).1.db f t,
            )
          ]
        ]

    undo_follow-row :
        (actor : ActorDocument) (named : Option String) (s : State Db) (f t : String)
        → ((undo_follow c env actor named s).1.sent ≡ s.sent)
          × ((c.row (undo_follow c env actor named s).1.db f t ≡ c.row s.db f t)
              ⊎ ((f ≡ actor.actor_id)
                  × (named ≡ some t)
                  × (c.row (undo_follow c env actor named s).1.db f t
                      ≡ map_option (answered cancelled (c.clock s.db)) (c.row s.db f t))))
    undo_follow-row actor none s f t = (refl, inl refl)
    undo_follow-row actor (some following) s f t = (
      refl,
      elim (set_status-row c laws "Failed to update follow status: " actor.actor_id following
          cancelled s f t) [ inl kept ↦ inl kept | inr (p, q, own) ↦ inr (p, cc, own) ],
    )

    -- An `Undo` sends nothing. The row of a pair is unchanged, or its follower is the actor whose
    -- inbox took the `Undo` (and not the actor who sent it), the object names the followed one, and
    -- the document, if there is one, is cancelled.
    pub handle_undo_activity-row :
        (activity : Activity) (actor : ActorDocument) (s : State Db) (f t : String)
        → ((handle_undo_activity c env activity actor s).1.sent ≡ s.sent)
          × ((c.row (handle_undo_activity c env activity actor s).1.db f t ≡ c.row s.db f t)
              ⊎ ((f ≡ actor.actor_id)
                  × ((o : ObjectOrLink) × (activity.object ≡ some o) × (undone_follow o ≡ some t))
                  × (c.row (handle_undo_activity c env activity actor s).1.db f t
                      ≡ map_option (answered cancelled (c.clock s.db)) (c.row s.db f t))))
    unfolding handle_undo_activity
    handle_undo_activity-row activity actor s f t = elim (Option-cases activity.object) [
      | inl missing ↦ (ground arith, inl (ground arith))
      | inr (o, present) ↦
          let (rows, sent) = undo-rest activity actor o s f t present in
          let (same_sent, moved) = undo_follow-row actor (undone_follow o) s f t in
          (
            sent ∙ same_sent,
            elim moved [
              | inl kept ↦ inl (rows ∙ kept)
              | inr (p, q, own) ↦ inr (p, (o, present, q), rows ∙ own)
            ],
          )
    ]
