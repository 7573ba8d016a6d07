-- ===== src/Outbox/Posted.antt =====
-- What a request to the outbox leaves behind, when it is answered by 201 and when it is not.
use oxifed.Base.{
  ◌≡◌, ◌≢◌, refl, sym, ap, subst, ◌∙◌, String, true, some, ◌⊎◌, inl, inr, [], ◌∷◌, ◌++◌, Result, ok,
  err, arith, Bool-cases, Result-cases, if◌then◌else◌,
}
use oxifed.Vocab.{Value, string, dictionary, Entries, entries, lookup}
use oxifed.Inbox.Types.{ActivityDocument, State, outgoing, pure, publish, ◌>>=◌, ◌>>◌}
use oxifed.Inbox.Documents.{Headers, document_of_json}
use oxifed.Inbox.Handlers.{store}
use oxifed.Database.Documents.{Store}
use oxifed.Database.Manager.{insert_activity}
use oxifed.Database.Collections.{collections}
use oxifed.Database.Driver.{DriverLaws}
use oxifed.Commands.Persons.{actor_id_of}
use oxifed.Outbox.Access.{verify_client_authentication}
use oxifed.Outbox.Activities.{Outbox, process_as}
use oxifed.Outbox.Client.{
  with_actor, id_or, new_activity_id, complete_activity, outbox_item, add_to_outbox,
  record_and_publish, type_of, process_client_activity, post_outbox, created, bad_request, answer,
}
use oxifed.Outbox.Quiet.{bind-state}
use oxifed.Outbox.Completed.{with_actor-actor, id_or-same, complete-actor, complete-id}
use oxifed.Outbox.Prepared.{process_as-Prepares}

module _ (x : Outbox) (laws : DriverLaws x.drivers.activities)
    (laws' : DriverLaws x.drivers.outbox) where
  stored :
      (doc : ActivityDocument) (s : State Store)
      → (store (collections x.drivers) doc s).0 ≡ ok tt
      → (store (collections x.drivers) doc s).1.db.activities ≡ s.db.activities ++ doc ∷ []
  unfolding collections insert_activity
  stored doc s h = elim (laws.insert_one_lem doc s.db.activities) [
    | inl made ↦ made
    | inr (e, failed, same) ↦ absurd (ground arith)
  ]

  listed :
      (id username : String) (s : State Store)
      → (add_to_outbox x id username s).0 ≡ ok tt
      → (add_to_outbox x id username s).1.db.outbox ≡ s.db.outbox ++ outbox_item x id username ∷ []
  listed id username s h = elim (laws'.insert_one_lem (outbox_item x id username) s.db.outbox) [
    | inl made ↦ made
    | inr (e, failed, same) ↦ absurd (ground arith)
  ]

  -- what a request that is answered by 201 leaves
  pub record IsPosted (username : String) (s s' : State Store) (activity_id : String) : Type 0 where
    pub activity : Entries
    pub actor : lookup "actor" (entries activity) ≡ some (string (actor_id_of username x.domain))
    pub id : id_or "" activity ≡ activity_id
    pub sent : s'.sent ≡ s.sent ++ outgoing (dictionary activity) ∷ []
    pub activities :
        s'.db.activities ≡ s.db.activities ++ document_of_json x.env (dictionary activity) ∷ []
    pub outbox : s'.db.outbox ≡ s.db.outbox ++ outbox_item x activity_id username ∷ []

  abbrev Recorded :
      String → String → Value → State Store → Result String String × State Store → Type 0
  Recorded id username activity s (r, s') =
      ((r ≡ ok id)
        × (s'.sent ≡ s.sent ++ outgoing activity ∷ [])
        × (s'.db.activities ≡ s.db.activities ++ document_of_json x.env activity ∷ [])
        × (s'.db.outbox ≡ s.db.outbox ++ outbox_item x id username ∷ []))
      ⊎ ((e : String) × (r ≡ err e) × (s'.sent ≡ s.sent))

  published_or_not :
      (id : String) (activity : Value) (s : State Store)
      → (((publish x.env (outgoing activity) >> pure id) s).0 ≡ ok id)
          × (((publish x.env (outgoing activity) >> pure id) s).1.sent
              ≡ s.sent ++ outgoing activity ∷ [])
          × (((publish x.env (outgoing activity) >> pure id) s).1.db ≡ s.db)
        ⊎ ((e : String) × (((publish x.env (outgoing activity) >> pure id) s) ≡ (err e, s)))
  published_or_not id activity s = elim (Result-cases (x.env.broker s.sent (outgoing activity))) [
    | inl (u, h) ↦ inl (ground arith, ground arith, ground arith)
    | inr (e, h) ↦ inr (e, ground arith)
  ]

  recorded :
      (id username : String) (activity : Value) (s : State Store)
      → Recorded id username activity s (record_and_publish x id username activity s)
  unfolding record_and_publish
  recorded id username activity s =
      let doc = document_of_json x.env activity in
      let rest = publish x.env (outgoing activity) >> pure id in
      let list = add_to_outbox x id username in
      let s1 = (store (collections x.drivers) doc s).1 in
      let family = Recorded id username activity s in
      elim (bind-state (store (collections x.drivers) doc) (λ _. list >> rest) s) [
        | inr (e, h, at) ↦ subst family (sym at) (inr (e, refl, refl))
        | inl (u, h, at) ↦ elim (bind-state list (λ _. rest) s1) [
          | inr (e, g, at') ↦ subst family (sym (at ∙ at')) (inr (e, refl, refl))
          | inl (v, g, at') ↦
              subst family (sym (at ∙ at')) (elim (published_or_not id activity (list s1).1) [
                | inr (e, failed) ↦ subst family (sym failed) (inr (e, refl, refl))
                | inl (r, sent, db) ↦ inl (
                  r,
                  sent,
                  ap (λ (d : Store). d.activities) db ∙ stored doc s h,
                  ap (λ (d : Store). d.outbox) db ∙ listed id username s1 g,
                )
              ])
        ]
      ]

  abbrev Outcome : String → State Store → Result String String × State Store → Type 0
  Outcome username s (r, s') =
      ((id : String) × (r ≡ ok id) × IsPosted username s s' id)
      ⊎ ((e : String) × (r ≡ err e) × (s'.sent ≡ s.sent))

  recorded-Outcome :
      (username id : String) (complete processed : Entries) (s s' : State Store)
      → lookup "actor" (entries processed) ≡ some (string (actor_id_of username x.domain))
      → id_or "" processed ≡ id
      → s'.sent ≡ s.sent
      → s'.db.activities ≡ s.db.activities
      → s'.db.outbox ≡ s.db.outbox
      → Outcome username s (record_and_publish x id username (dictionary processed) s')
  recorded-Outcome username id complete processed s s' actor named sent activities outbox =
      elim (recorded id username (dictionary processed) s') [
        | inr (e, r, quiet) ↦ inr (e, r, quiet ∙ sent)
        | inl (r, more, made, put) ↦ inl (
          id,
          r,
          record {
            activity = processed;
            actor = actor;
            id = named;
            sent = more ∙ ap (λ ms. ms ++ outgoing (dictionary processed) ∷ []) sent;
            activities =
                made
                ∙ ap (λ docs. docs ++ document_of_json x.env (dictionary processed) ∷ [])
                    activities;
            outbox = put ∙ ap (λ items. items ++ outbox_item x id username ∷ []) outbox;
          },
        )
      ]

  processed-Outcome :
      (activity_type username : String) (named : Entries) (s : State Store)
      → lookup "actor" (entries named) ≡ some (string (actor_id_of username x.domain))
      → Outcome username s (
          (process_as activity_type x username (complete_activity x named) >>= λ processed.
          record_and_publish x (id_or (new_activity_id x) named) username (dictionary processed))
            s)
  processed-Outcome activity_type username named s actor =
      let complete = complete_activity x named in
      let id = id_or (new_activity_id x) named in
      let m = process_as activity_type x username complete in
      let prepares = process_as-Prepares x username activity_type complete in
      let family = Outcome username s in
      elim (bind-state m (λ processed. record_and_publish x id username (dictionary processed)) s) [
        | inr (e, h, at) ↦ subst family (sym at) (inr (e, refl, prepares.quiet.sent s))
        | inl (processed, h, at) ↦ subst family (sym at) (
            recorded-Outcome username id complete processed s (m s).1
              (prepares.actor s processed h ∙ complete-actor x named ∙ actor)
              (id_or-same "" complete processed (prepares.id s processed h) ∙ complete-id x named)
              (prepares.quiet.sent s) (prepares.quiet.activities s) (prepares.quiet.outbox s))
      ]

  process-Outcome :
      (activity : Value) (username : String) (s : State Store)
      → Outcome username s (process_client_activity x activity username s)
  unfolding process_client_activity
  process-Outcome (dictionary es) username s =
      elim (Result-cases (with_actor (actor_id_of username x.domain) es)) [
        | inr (e, h) ↦ rw h (inr (e, refl, refl))
        | inl (named, h) ↦ rw h (elim (Result-cases (type_of (complete_activity x named))) [
          | inr (e, g) ↦ rw g (inr (e, refl, refl))
          | inl (activity_type, g) ↦
              rw g
                (processed-Outcome activity_type username named s (with_actor-actor _ es named h))
        ])
      ]
  process-Outcome _ username s = inr (_, refl, refl)

  answered :
      (id : String) (r : Result String String × State Store)
      → r.0 ≡ ok id
      → answer x r ≡ (created (if x.is_header_value id then id else ""), r.1)
  answered id r h = ground arith

  refused :
      (e : String) (r : Result String String × State Store)
      → r.0 ≡ err e
      → answer x r ≡ (bad_request, r.1)
  refused e r h = ground arith

  -- A request to the outbox is answered by 201 only if the client is authenticated; then the activity
  -- has the user as its actor, it is stored, listed in the outbox under its id and sent, each once,
  -- and the location is its id, if it can be a header. A request that is answered otherwise sends
  -- nothing.
  pub post_outbox-cases :
      (username : String) (headers : Headers) (activity : Value) (s : State Store)
      → ((id : String) × ((post_outbox x username headers activity s).0
            ≡ created (if x.is_header_value id then id else ""))
          × (verify_client_authentication x.tokens headers username ≡ true)
          × IsPosted username s (post_outbox x username headers activity s).1 id)
        ⊎ (((location : String) → (post_outbox x username headers activity s).0 ≢ created location)
            × ((post_outbox x username headers activity s).1.sent ≡ s.sent))
  unfolding post_outbox
  post_outbox-cases username headers activity s =
      elim (Bool-cases (verify_client_authentication x.tokens headers username)) [
        | inr unknown ↦ inr ((λ location g. ground arith), ground arith)
        | inl known ↦ rw known (elim (process-Outcome activity username s) [
          | inl (id, r, posted) ↦
              let at = answered id (process_client_activity x activity username s) r in
              inl (
                id,
                ap (λ t. t.0) at,
                refl,
                subst (λ t. IsPosted username s t id) (sym (ap (λ t. t.1) at)) posted,
              )
          | inr (e, r, quiet) ↦
              let at = refused e (process_client_activity x activity username s) r in
              inr ((λ location g. ground arith), ap (λ t. t.1.sent) at ∙ quiet)
        ])
      ]
