-- ===== src/Outbox/Refused.antt =====
-- Updates and deletions of objects by a client, and who can post.
use text.Mathlib.TextLemmas.{nil-append, cons-append}
use oxifed.Base.{
  ◌≡◌, ◌≢◌, refl, ap, ◌∙◌, String, true, false, none, some, [], ◌∷◌, ok_or, and_then, ◌⊎◌, inl, inr,
  Result, ok, err, arith, Bool-cases, Option-cases, Result-cases, ◌⧺◌, starts_with-append, count,
}
use oxifed.Vocab.{Value, dictionary, string, Entries, entries, lookup, get, as_str}
use oxifed.Inbox.Types.{State}
use oxifed.Inbox.Documents.{Headers, get_text}
use oxifed.Database.Documents.{Store}
use oxifed.Database.Driver.{DriverLaws}
use oxifed.Outbox.Access.{
  skip_text, bearer_token, extract_username_from_headers, verify_access_token,
  verify_client_authentication,
}
use oxifed.Outbox.Entities.{is_owned, verify_object_ownership}
use oxifed.Outbox.Activities.{
  Outbox, object_in, id_of_object, process_update_activity_c2s, process_delete_activity_c2s,
  process_as, c2s_handlers,
}
use oxifed.Commands.Persons.{actor_id_of}
use oxifed.Outbox.Client.{
  with_actor, complete_activity, type_of, post_outbox, process_client_activity, bad_request,
  unauthorized, forbidden, answer,
}
use oxifed.Outbox.Endpoints.{
  owned_by, wrap, with_object_id, change_object, update_object, delete_object,
}
use oxifed.Outbox.Completed.{with_actor-type, complete-type}

module _ (x : Outbox) (laws : DriverLaws x.drivers.objects) where
  -- no stored object has a field `id`
  not_owned :
      (object_id username : String) (s : Store)
      → verify_object_ownership x.drivers x.domain object_id username s ≢ ok true
  unfolding verify_object_ownership is_owned
  not_owned object_id username s h =
      elim (Result-cases
        (x.drivers.objects.find_one (is_owned x.domain object_id username) s.objects)) [
          | inl (none, found) ↦ ground arith
          | inl (some o, found) ↦
              let own =
                (laws.find_one_some (is_owned x.domain object_id username) s.objects o found).0 in
              ground arith
          | inr (e, failed) ↦ ground arith
        ]

  -- an action that fails and changes nothing
  abbrev Fails : {A : Type 0} → State Store → Result String A × State Store → Type 0
  Fails s r = (e : String) × (r ≡ (err e, s))

  update-Fails :
      (username : String) (es : Entries) (s : State Store)
      → Fails s (process_update_activity_c2s x username es s)
  unfolding process_update_activity_c2s
  update-Fails username es s = elim (Result-cases (object_in "Update" es)) [
    | inr (e, h) ↦ (e, ground arith)
    | inl (object, h) ↦ elim (Result-cases (id_of_object object)) [
      | inr (e, g) ↦ (e, ground arith)
      | inl (id, g) ↦
          elim (Result-cases (verify_object_ownership x.drivers x.domain id username s.db)) [
            | inr (e, f) ↦ (e, ground arith)
            | inl (true, f) ↦ absurd (not_owned id username s.db f)
            | inl (false, f) ↦ ("Cannot update object you don't own", ground arith)
          ]
    ]
  ]

  delete-Fails :
      (username : String) (es : Entries) (s : State Store)
      → Fails s (process_delete_activity_c2s x username es s)
  unfolding process_delete_activity_c2s
  delete-Fails username es s = elim (Result-cases (object_in "Delete" es)) [
    | inr (e, h) ↦ (e, ground arith)
    | inl (object, h) ↦ elim (Result-cases (id_of_object object)) [
      | inr (e, g) ↦ (e, ground arith)
      | inl (id, g) ↦
          elim (Result-cases (verify_object_ownership x.drivers x.domain id username s.db)) [
            | inr (e, f) ↦ (e, ground arith)
            | inl (true, f) ↦ absurd (not_owned id username s.db f)
            | inl (false, f) ↦ ("Cannot delete object you don't own", ground arith)
          ]
    ]
  ]

  process_as-Fails :
      (t username : String) (es : Entries) (s : State Store)
      → (t ≡ "Update") ⊎ (t ≡ "Delete")
      → Fails s (process_as t x username es s)
  unfolding process_as c2s_handlers lookup
  process_as-Fails t username es s (inl update) = rw update (update-Fails username es s)
  process_as-Fails t username es s (inr delete) = rw delete (delete-Fails username es s)

  process-Fails :
      (t username : String) (es : Entries) (s : State Store)
      → (t ≡ "Update") ⊎ (t ≡ "Delete")
      → get_text "type" (dictionary es) ≡ some t
      → Fails s (process_client_activity x (dictionary es) username s)
  unfolding process_client_activity get
  process-Fails t username es s either typed =
      elim (Result-cases (with_actor (actor_id_of username x.domain) es)) [
        | inr (e, h) ↦ (e, rw h refl)
        | inl (named, h) ↦
            let complete = complete_activity x named in
            let same : lookup "type" (entries complete) ≡ lookup "type" (entries es) =
              complete-type x named ∙ with_actor-type _ es named h in
            let known : type_of complete ≡ ok t =
              ap (λ o. ok_or (and_then o as_str) "Activity must have a type field") same
              ∙ ap (λ o. ok_or o "Activity must have a type field") typed in
            let (e, failed) = process_as-Fails t username complete s either in (e, ground arith)
      ]

  post-refused :
      (t username : String) (headers : Headers) (activity : Value) (s : State Store)
      → (t ≡ "Update") ⊎ (t ≡ "Delete")
      → get_text "type" activity ≡ some t
      → (post_outbox x username headers activity s ≡ (bad_request, s))
        ⊎ (post_outbox x username headers activity s ≡ (unauthorized, s))
  unfolding post_outbox get
  post-refused t username headers (dictionary es) s either typed =
      elim (Bool-cases (verify_client_authentication x.tokens headers username)) [
        | inl known ↦
            let (e, failed) = process-Fails t username es s either typed in
            inl (rw (known, failed) refl)
        | inr unknown ↦ inr (rw unknown refl)
      ]
  post-refused t username headers _ s either typed = absurd (ground arith)

  not_owned_by : (object_id username : String) (s : Store) → owned_by x object_id username s ≡ false
  not_owned_by object_id username s =
      elim (Result-cases (verify_object_ownership x.drivers x.domain object_id username s)) [
        | inl (true, h) ↦ absurd (not_owned object_id username s h)
        | inl (false, h) ↦ rw (h, owned_by) refl
        | inr (e, h) ↦ rw (h, owned_by) refl
      ]

  change-refused :
      (headers : Headers) (id : String) (activity : String → Value) (s : State Store)
      → (change_object x headers id activity s ≡ (forbidden, s))
        ⊎ (change_object x headers id activity s ≡ (unauthorized, s))
  unfolding change_object
  change-refused headers id activity s =
      elim (Option-cases (extract_username_from_headers x.tokens headers)) [
        | inl missing ↦ inr (rw (missing, change_object) refl)
        | inr (username, named) ↦
            let foreign = not_owned_by ("https://" ⧺ x.domain ⧺ "/objects/" ⧺ id) username s.db in
            elim (Bool-cases (verify_client_authentication x.tokens headers username)) [
              | inl known ↦ inl (rw (named, known, foreign, change_object) refl)
              | inr unknown ↦ inr (rw (named, unknown, change_object) refl)
            ]
      ]

  -- An object of the database cannot be updated or deleted by a client. The outbox refuses an
  -- `Update` or a `Delete`, whoever posts it and whatever its object is, and so do the endpoints for an
  -- object; nothing is changed or sent.
  pub client_changes-refused :
      (username : String) (headers : Headers) (s : State Store)
      → ((t : String) (activity : Value)
          → (t ≡ "Update") ⊎ (t ≡ "Delete")
          → get_text "type" activity ≡ some t
          → (post_outbox x username headers activity s ≡ (bad_request, s))
            ⊎ (post_outbox x username headers activity s ≡ (unauthorized, s)))
        × ((id : String) (updates : Value)
            → (update_object x headers id updates s ≡ (forbidden, s))
              ⊎ (update_object x headers id updates s ≡ (unauthorized, s)))
        × ((id : String)
            → (delete_object x headers id s ≡ (forbidden, s))
              ⊎ (delete_object x headers id s ≡ (unauthorized, s)))
  unfolding update_object delete_object
  client_changes-refused username headers s = (
    (λ t activity. post-refused t username headers activity s),
    (λ id updates.
        change-refused headers id
          (λ name.
            wrap x name "Update"
              (with_object_id ("https://" ⧺ x.domain ⧺ "/objects/" ⧺ id) updates))
          s),
    (λ id.
        change-refused headers id
          (λ name. wrap x name "Delete" (string ("https://" ⧺ x.domain ⧺ "/objects/" ⧺ id))) s),
  )

skip_text-append : (s t : String) → skip_text (count s) (s ⧺ t) ≡ t
unfolding skip_text count
skip_text-append String.[] t = nil-append t
skip_text-append (String.◌∷◌ c s) t = rw cons-append (skip_text-append s t)

-- Whoever writes `user:`, a name, `:token:` and any text as the token of a request posts as the user of
-- that name, whatever tokens there are: the answer and the state are those of the activity.
pub post_outbox-forged :
    (x : Outbox) (username rest : String) (activity : Value) (s : State Store)
    → post_outbox x username
        (("authorization", some ("Bearer " ⧺ (("user:" ⧺ username ⧺ ":token:") ⧺ rest))) ∷ [])
        activity
        s
      ≡ answer x (process_client_activity x activity username s)
unfolding post_outbox verify_client_authentication bearer_token verify_access_token lookup count
post_outbox-forged x username rest activity s =
    let token = ("user:" ⧺ username ⧺ ":token:") ⧺ rest in
    let bearer = starts_with-append "Bearer " token in
    let taken = starts_with-append ("user:" ⧺ username ⧺ ":token:") rest in
    let after : skip_text 7 ("Bearer " ⧺ token) ≡ token = skip_text-append "Bearer " token in
    ground arith
