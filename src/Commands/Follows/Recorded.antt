-- ===== src/Commands/Follows/Recorded.antt =====
-- What the follow of a local actor leaves in the database.
use oxifed.Base.{◌≡◌, ◌∙◌, ap, String, none, inl, inr, map_option, arith, Result-cases, Bool-cases}
use oxifed.Vocab.{UrlLib, Activity}
use oxifed.Inbox.Types.{FollowStatus, ActorDocument, Collections, Environment, State}
use oxifed.Inbox.Handlers.{handle_response}
use oxifed.Inbox.Rows.{Laws, answered}
use oxifed.Inbox.Rows.Responses.{handle_response-changes}
use oxifed.Commands.Follows.{
  RelationMessage, follower_of, follow_activity, follow_record, does_domain_exist, publish_follow,
  store_follow, follower_id_of, handle_follow,
}

module _ {Db : Type 0} (c : Collections Db) (laws : Laws c) where
  publish_follow-db :
      (env : Environment) (activity : Activity) (s : State Db)
      → (publish_follow c env activity s).db ≡ s.db
  publish_follow-db env activity s = elim (Result-cases (env.to_value activity)) [
    | inr (e, failed) ↦ ground arith
    | inl (json, as_json) ↦ ground arith
  ]

  store_follow-row :
      (env : Environment) (msg : RelationMessage) (follower_id : String) (activity : Activity)
      (s : State Db) (f t : String)
      → c.row (store_follow c env msg follower_id activity s).1.db f t ≡ c.row s.db f t
  unfolding store_follow
  store_follow-row env msg follower_id activity s f t =
      let doc = follow_record env msg follower_id activity in
      let kept = laws.activity_rows doc s.db f t in
      elim (Result-cases (c.insert_activity doc s.db).0) [
        | inr (e, failed) ↦ rw (failed, store_follow) kept
        | inl (tt, stored) ↦
            rw (stored, store_follow)
              (ap (λ db. c.row db f t)
                  (publish_follow-db env activity
                    (record s { db = (c.insert_activity doc s.db).1 }))
                ∙ kept)
      ]

  handle_follow-row :
      (urls : UrlLib) (env : Environment) (msg : RelationMessage) (s : State Db) (f t : String)
      → c.row (handle_follow c urls env msg s).1.db f t ≡ c.row s.db f t
  unfolding handle_follow
  handle_follow-row urls env msg s f t = elim (Result-cases (follower_of urls msg.actor)) [
    | inr (e, unnamed) ↦ ground arith
    | inl (pair, named) ↦ elim (Bool-cases (does_domain_exist c pair.1 s.db)) [
      | inr unknown ↦ ground arith
      | inl known ↦
          elim (Result-cases (follow_activity urls env msg (follower_id_of c pair) pair.1)) [
            | inr (e, broken) ↦ ground arith
            | inl (activity, made) ↦
                ground (arith, store_follow-row env msg (follower_id_of c pair) activity s f t)
          ]
    ]
  ]

  -- The follow of a local actor is never recorded: a pair without a follow document has none after
  -- the command and an answer to it that comes to an inbox, whatever the answer says.
  pub handle_follow-unrecorded :
      (urls : UrlLib) (env env' : Environment) (msg : RelationMessage) (status : FollowStatus)
      (text : String) (answer : Activity) (local_actor : ActorDocument) (s : State Db)
      (f t : String)
      → c.row s.db f t ≡ none
      → c.row
          (handle_response c env' status text answer local_actor
            (handle_follow c urls env msg s).1).1.db
          f
          t
        ≡ none
  handle_follow-unrecorded urls env env' msg status text answer local_actor s f t absent =
      let s' = (handle_follow c urls env msg s).1 in
      let still : c.row s'.db f t ≡ none = handle_follow-row urls env msg s f t ∙ absent in
      elim (handle_response-changes c env' laws status text answer local_actor s' f t).1 [
        | inl kept ↦ kept ∙ still
        | inr (_, own) ↦ own ∙ ap (map_option (answered status (c.clock s'.db))) still
      ]
