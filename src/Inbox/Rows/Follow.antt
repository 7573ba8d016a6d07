-- ===== src/Inbox/Rows/Follow.antt =====
-- A `Follow` in the inbox: what it leaves in the database and sends, when it succeeds and when not.
use oxifed.Base.{
  ℕ, ◌≡◌, refl, sym, ◌∙◌, ap, String, false, none, some, inl, inr, [], ◌∷◌, ◌++◌, ok, err,
  map_option, arith, Result-cases, Option-cases, Bool-cases, ◌⧺◌,
}
use oxifed.Vocab.{Value, Activity, url_of}
use oxifed.Inbox.Types.{
  accepted, FollowDocument, ActorDocument, Collections, outgoing, Environment, State,
}
use oxifed.Inbox.Handlers.{
  set_status, follow_document, accept_activity, follow_of, handle_follow_activity,
}
use oxifed.Inbox.Rows.{
  same_pair, same_pair-eq, answered, set_status-eq-ok, set_status-updated, update-answers, Laws,
}

module _ {Db : Type 0} (c : Collections Db) (laws : Laws c) (env : Environment)
    (activity : Activity) (target : ActorDocument) where
  abbrev pub new_follow : String → FollowDocument
  new_follow follower = follow_document env activity follower target.actor_id

  -- the database after the insertion
  abbrev pub inserted : String → Db → Db
  inserted follower db = (c.insert_follow (new_follow follower) db).1

  pub follow-named :
      (follower : String) (s : State Db)
      → url_of activity.actor ≡ some follower
      → handle_follow_activity c env activity target s ≡ follow_of c env activity target follower s
  unfolding handle_follow_activity
  follow-named follower s h = ground arith

  pub follow_of-refused :
      (follower e : String) (s : State Db)
      → (c.insert_follow (new_follow follower) s.db).0 ≡ err e
      → follow_of c env activity target follower s
        ≡ (err ("Failed to store follow: " ⧺ e), record s { db = inserted follower s.db })
  unfolding follow_of
  follow_of-refused follower e s h = ground arith

  pub follow_of-unserialized :
      (follower e : String) (s : State Db)
      → (c.insert_follow (new_follow follower) s.db).0 ≡ ok tt
      → env.to_value activity ≡ err e
      → follow_of c env activity target follower s
        ≡ (err ("Failed to serialize activity: " ⧺ e), record s { db = inserted follower s.db })
  unfolding follow_of
  follow_of-unserialized follower e s h g = ground arith

  pub follow_of-unsent :
      (follower e : String) (json : Value) (s : State Db)
      → (c.insert_follow (new_follow follower) s.db).0 ≡ ok tt
      → env.to_value activity ≡ ok json
      → env.broker s.sent (outgoing (accept_activity env json target.actor_id)) ≡ err e
      → follow_of c env activity target follower s
        ≡ (err e, record s { db = inserted follower s.db })
  unfolding follow_of
  follow_of-unsent follower e json s h g k = ground arith

  pub follow_of-sent :
      (follower : String) (json : Value) (s : State Db)
      → (c.insert_follow (new_follow follower) s.db).0 ≡ ok tt
      → env.to_value activity ≡ ok json
      → env.broker s.sent (outgoing (accept_activity env json target.actor_id)) ≡ ok tt
      → follow_of c env activity target follower s
        ≡ set_status c "Failed to update follow status: " follower target.actor_id accepted
            (record {
              db = inserted follower s.db;
              sent = s.sent ++ outgoing (accept_activity env json target.actor_id) ∷ [];
            })
  unfolding follow_of
  follow_of-sent follower json s h g k = ground arith

  -- What a successful `Follow` has done, from `s` to `s'`: the pair had no document and has an
  -- accepted one, the documents of the other pairs are unchanged, and an `Accept` of the activity
  -- is the one message sent.
  pub record IsFollowed (s s' : State Db) : Type 0 where
    pub follower : String
    pub json : Value
    pub responded_at : ℕ
    pub named : url_of activity.actor ≡ some follower
    pub as_json : env.to_value activity ≡ ok json
    pub row_before : c.row s.db follower target.actor_id ≡ none
    pub row_after :
        c.row s'.db follower target.actor_id
        ≡ some (answered accepted responded_at (new_follow follower))
    pub others :
        (f t : String)
        → same_pair f t follower target.actor_id ≡ false
        → c.row s'.db f t ≡ c.row s.db f t
    pub sent : s'.sent ≡ s.sent ++ outgoing (accept_activity env json target.actor_id) ∷ []

  -- a `Follow` for a pair that has a document is refused at the insertion
  taken-refused :
      (follower : String) (r : FollowDocument) (db : Db)
      → c.row db follower target.actor_id ≡ some r
      → (e : String) × ((c.insert_follow (new_follow follower) db).0 ≡ err e)
        × ((f t : String) → c.row (inserted follower db) f t ≡ c.row db f t)
  unfolding follow_document
  taken-refused follower r db h = elim (laws.insert_own (new_follow follower) db) [
    | inl (absent, _) ↦ cc
    | inr (e, refused, own) ↦ (
      e,
      refused,
      λ f t. elim (Bool-cases (same_pair f t follower target.actor_id)) [
        | inl same ↦ let (p, q) = same_pair-eq f t follower target.actor_id same in cc
        | inr differs ↦ laws.insert_others (new_follow follower) db f t differs
      ],
    )
  ]

  -- the document of a pair that an insertion has filled
  insert-fills :
      (follower : String) (db : Db)
      → (c.insert_follow (new_follow follower) db).0 ≡ ok tt
      → (c.row db follower target.actor_id ≡ none)
        × (c.row (inserted follower db) follower target.actor_id ≡ some (new_follow follower))
  unfolding follow_document
  insert-fills follower db h = elim (laws.insert_own (new_follow follower) db) [
    | inl filled ↦ filled
    | inr (e, refused, _) ↦ cc
  ]

  -- the states of a `Follow` that has gone as far as the last update
  followed :
      (follower : String) (json : Value) (s s' : State Db)
      → url_of activity.actor ≡ some follower
      → (c.insert_follow (new_follow follower) s.db).0 ≡ ok tt
      → env.to_value activity ≡ ok json
      → set_status c "Failed to update follow status: " follower target.actor_id accepted (record {
        db = inserted follower s.db;
        sent = s.sent ++ outgoing (accept_activity env json target.actor_id) ∷ [];
      })
        ≡ (ok tt, s')
      → IsFollowed s s'
  unfolding follow_document
  followed follower json s s' named stored as_json h =
      let (done, e) = set_status-eq-ok c laws _ follower target.actor_id accepted _ s' h in
      let (absent, filled) = insert-fills follower s.db stored in
      let own =
        update-answers c laws follower target.actor_id accepted (inserted follower s.db) done in
      record {
        follower = follower;
        json = json;
        responded_at = c.clock (inserted follower s.db);
        named = named;
        as_json = as_json;
        row_before = absent;
        row_after =
            ap (λ (x : State Db). c.row x.db follower target.actor_id) e
            ∙ own
            ∙ ap (map_option (answered accepted (c.clock (inserted follower s.db)))) filled;
        others = λ f t differs.
            ap (λ (x : State Db). c.row x.db f t) e
            ∙ laws.update_others follower target.actor_id accepted (inserted follower s.db) f t
                differs
            ∙ laws.insert_others (new_follow follower) s.db f t differs;
        sent = ap (λ (x : State Db). x.sent) e;
      }

  -- A `Follow` succeeds only if its actor is a URL and the pair has no document yet; it then has
  -- an accepted document, no other document has changed, and the one message sent is the `Accept`.
  pub handle_follow_activity-accepts :
      (s s' : State Db)
      → handle_follow_activity c env activity target s ≡ (ok tt, s')
      → IsFollowed s s'
  unfolding handle_follow_activity
  handle_follow_activity-accepts s s' h = elim (Option-cases (url_of activity.actor)) [
    | inl unnamed ↦ absurd (ground arith)
    | inr (follower, named) ↦ elim (Result-cases (c.insert_follow (new_follow follower) s.db).0) [
      | inr (e, refused) ↦
          absurd
            (ground (arith, follow-named follower s named, follow_of-refused follower e s refused))
      | inl (tt, stored) ↦ elim (Result-cases (env.to_value activity)) [
        | inr (e, failed) ↦ absurd (
            ground (
              arith,
              follow-named follower s named,
              follow_of-unserialized follower e s stored failed,
            ))
        | inl (json, as_json) ↦
            elim (Result-cases
              (env.broker s.sent (outgoing (accept_activity env json target.actor_id)))) [
                | inr (e, unsent) ↦ absurd (
                    ground (
                      arith,
                      follow-named follower s named,
                      follow_of-unsent follower e json s stored as_json unsent,
                    ))
                | inl (tt, sent) ↦ followed follower json s s' named stored as_json (
                    sym (
                      follow-named follower s named
                      ∙ follow_of-sent follower json s stored as_json sent)
                    ∙ h)
              ]
      ]
    ]
  ]

  -- A `Follow` by a URL succeeds if the insertion, the serialization, the broker and the update do:
  -- it then has an accepted document, no other document has changed, and its `Accept` is sent.
  pub handle_follow_activity-succeeds :
      (follower : String) (json : Value) (s : State Db)
      → url_of activity.actor ≡ some follower
      → (c.insert_follow (new_follow follower) s.db).0 ≡ ok tt
      → env.to_value activity ≡ ok json
      → env.broker s.sent (outgoing (accept_activity env json target.actor_id)) ≡ ok tt
      → (c.update_follow_status follower target.actor_id accepted (inserted follower s.db)).0
        ≡ ok tt
      → (s' : State Db) × (handle_follow_activity c env activity target s ≡ (ok tt, s'))
        × IsFollowed s s'
  handle_follow_activity-succeeds follower json s named stored as_json sent updated =
      let done =
        follow-named follower s named
        ∙ follow_of-sent follower json s stored as_json sent
        ∙ set_status-updated c laws "Failed to update follow status: " follower target.actor_id
            accepted _ updated in
      (_, done, handle_follow_activity-accepts s _ done)

  -- A second `Follow` of a pair that has a document, whatever its status, fails: nothing is sent
  -- and no document changes.
  pub handle_follow_activity-repeated :
      (follower : String) (r : FollowDocument) (s : State Db)
      → url_of activity.actor ≡ some follower
      → c.row s.db follower target.actor_id ≡ some r
      → ((e : String) × ((handle_follow_activity c env activity target s).0 ≡ err e))
        × ((handle_follow_activity c env activity target s).1.sent ≡ s.sent)
        × ((f t : String)
            → c.row (handle_follow_activity c env activity target s).1.db f t ≡ c.row s.db f t)
  handle_follow_activity-repeated follower r s named taken =
      let (e, refused, rows) = taken-refused follower r s.db taken in
      rw (follow-named follower s named, follow_of-refused follower e s refused)
        (("Failed to store follow: " ⧺ e, refl), refl, rows)

  -- If the broker does not take the `Accept`, the `Follow` fails and leaves its document pending:
  -- by `handle_follow_activity-repeated`, sending it again cannot mend this.
  handle_follow_activity-unsent :
      (follower e : String) (json : Value) (s : State Db)
      → url_of activity.actor ≡ some follower
      → (c.insert_follow (new_follow follower) s.db).0 ≡ ok tt
      → env.to_value activity ≡ ok json
      → env.broker s.sent (outgoing (accept_activity env json target.actor_id)) ≡ err e
      → ((handle_follow_activity c env activity target s).0 ≡ err e)
        × (c.row (handle_follow_activity c env activity target s).1.db follower target.actor_id
            ≡ some (new_follow follower))
        × ((handle_follow_activity c env activity target s).1.sent ≡ s.sent)
  handle_follow_activity-unsent follower e json s named stored as_json unsent =
      let (_, filled) = insert-fills follower s.db stored in
      rw (follow-named follower s named, follow_of-unsent follower e json s stored as_json unsent)
        (refl, filled, refl)
