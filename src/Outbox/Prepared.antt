-- ===== src/Outbox/Prepared.antt =====
-- The handlers of the types of activities are quiet and keep the actor and the id of the activity.
use oxifed.Base.{
  refl, ap, ◌∙◌, String, inl, inr, List, [], ◌∷◌, All, arith, ◌==◌, Bool-cases, if◌then◌else◌,
  unwrap_or,
}
use oxifed.Vocab.{note, article, Value, string, dictionary, Entries, entries, lookup}
use oxifed.Inbox.Types.{Action, pure}
use oxifed.Inbox.Documents.{get_text}
use oxifed.Database.Documents.{ObjectDocument, Store}
use oxifed.Database.Manager.{insert_object}
use oxifed.Outbox.Entities.{
  set_value, store_object_from_c2s, mark_object_deleted, store_document, object_document,
}
use oxifed.Outbox.Activities.{
  Outbox, create_object, store_embedded, process_create_activity_c2s, process_update_activity_c2s,
  process_delete_activity_c2s, process_follow_activity_c2s, process_undo_activity_c2s,
  process_with_object, process_as, c2s_handlers, handle_with,
}
use oxifed.Outbox.Quiet.{
  lookup-set_other, Quiet, pure-Quiet, lift-Quiet, if-Quiet, reads-Quiet, writes-Quiet, bind-Quiet,
  Prepares, pure-Prepares, err-Prepares, bind-Prepares,
}

ruleset quiet_rules =
    (pure-Quiet, lift-Quiet, reads-Quiet, bind-Quiet, pure-Prepares, err-Prepares, bind-Prepares)

module _ (x : Outbox) (username : String) where
  store_document-Quiet :
      (text : String) (o : ObjectDocument) → Quiet (store_document x.drivers x.object_env text o)
  unfolding insert_object
  store_document-Quiet text o = writes-Quiet _ (λ s. refl) (λ s. refl)

  store_object-Quiet : (v : Value) → Quiet (store_object_from_c2s x.drivers x.object_env v)
  unfolding store_object_from_c2s
  store_object-Quiet v =
      let t = unwrap_or (get_text "type" v) "Note" in
      let inserted =
        λ (text : String) (o : ObjectDocument). store_document x.drivers x.object_env text o in
      let noted = inserted "Failed to store note object: " (object_document x.object_env note v) in
      let posted =
        inserted "Failed to store article object: " (object_document x.object_env article v) in
      if-Quiet (t == "Note") noted (if t == "Article" then posted else pure tt)
        (store_document-Quiet _ _)
        (if-Quiet (t == "Article") posted (pure tt) (store_document-Quiet _ _) (pure-Quiet tt))

  store_embedded-Quiet : (v : Value) → Quiet (store_embedded x v)
  store_embedded-Quiet (dictionary es) = store_object-Quiet (dictionary es)
  store_embedded-Quiet _ = pure-Quiet tt

  create_object-Quiet : (v : Value) → Quiet (create_object x username v)
  unfolding create_object
  create_object-Quiet (string s) = lift-Quiet _
  create_object-Quiet (dictionary es) = search (quiet_rules, store_object-Quiet)
  create_object-Quiet _ = pure-Quiet _

  marked-Quiet : (id : String) → Quiet (mark_object_deleted x.drivers x.env id)
  unfolding mark_object_deleted
  marked-Quiet id = writes-Quiet _ (λ s. ground arith) (λ s. ground arith)

  object-Prepares : (v : Value) (es : Entries) → Prepares es (pure (set_value "object" v es))
  object-Prepares v es = record {
    quiet = pure-Quiet _;
    actor = λ s es' h.
        ap (λ t. lookup "actor" (entries t)) (ground arith)
        ∙ lookup-set_other "object" v "actor" es refl;
    id = λ s es' h.
        ap (λ t. lookup "id" (entries t)) (ground arith) ∙ lookup-set_other "object" v "id" es refl;
  }

  create-Prepares : (es : Entries) → Prepares es (process_create_activity_c2s x username es)
  unfolding process_create_activity_c2s
  create-Prepares es = search (quiet_rules, create_object-Quiet, object-Prepares)

  update-Prepares : (es : Entries) → Prepares es (process_update_activity_c2s x username es)
  unfolding process_update_activity_c2s
  update-Prepares es = search (quiet_rules, store_embedded-Quiet) depth 8

  delete-Prepares : (es : Entries) → Prepares es (process_delete_activity_c2s x username es)
  unfolding process_delete_activity_c2s
  delete-Prepares es = search (quiet_rules, marked-Quiet) depth 8

  undo-Prepares : (es : Entries) → Prepares es (process_undo_activity_c2s x username es)
  unfolding process_undo_activity_c2s
  undo-Prepares es = search quiet_rules

  with_object-Prepares :
      (activity : String) (es : Entries) → Prepares es (process_with_object activity x username es)
  unfolding process_with_object
  with_object-Prepares activity es = search quiet_rules

  follow-Prepares : (es : Entries) → Prepares es (process_follow_activity_c2s x username es)
  unfolding process_follow_activity_c2s
  follow-Prepares es = search quiet_rules

  abbrev ArePrepared :
      Entries → List (String × (Outbox → String → Entries → Action Store Entries)) → Type 0
  ArePrepared es = All (λ p. Prepares es (p.1 x username es))

  handle_with-Prepares :
      (t : String) (es : Entries)
      (handlers : List (String × (Outbox → String → Entries → Action Store Entries)))
      → ArePrepared es handlers
      → Prepares es (handle_with t (lookup t handlers) x username es)
  unfolding lookup
  handle_with-Prepares t es [] all = err-Prepares es _
  handle_with-Prepares t es ((k, handle) ∷ handlers) (first, rest) = elim (Bool-cases (k == t)) [
    | inl same ↦ rw same first
    | inr other ↦ rw other (handle_with-Prepares t es handlers rest)
  ]

  pub process_as-Prepares : (t : String) (es : Entries) → Prepares es (process_as t x username es)
  unfolding process_as c2s_handlers
  process_as-Prepares t es = handle_with-Prepares t es c2s_handlers (
      search
        (
          create-Prepares, update-Prepares, delete-Prepares, follow-Prepares, undo-Prepares,
          with_object-Prepares,
        )
        depth 16)
