-- ===== src/Inbox/Rows/Requests.antt =====
-- The requests to the inboxes: what an answer tells, and the follow documents over a sequence.
use oxifed.Base.{
  ◌≡◌, ◌≢◌, refl, sym, ◌∙◌, ap, subst, String, Option, none, some, ◌⊎◌, inl, inr, List, [], ◌∷◌,
  ◌++◌, Result, ok, err, map_option, arith, Result-cases, Option-cases, unwrap_or, or_else,
  and_then, first_part,
}
use oxifed.Vocab.{UrlLib, Value, Activity, Object, ObjectOrLink, fields, url_of, lookup}
use oxifed.Vocab.Entity.{Serde}
use oxifed.Inbox.Types.{
  FollowStatus, accepted, rejected, cancelled, active, ActorDocument, Collections, Environment,
  State, incoming_activity,
}
use oxifed.Inbox.Documents.{Headers, extract_domain_from_headers, extract_domain_from_activity}
use oxifed.Inbox.Handlers.{process_incoming_activity, undone_follow}
use oxifed.Inbox.Post.{
  StatusCode, ok_accepted, gone, Post, answer, domain_of, process_for, post_to_domain,
  process_shared_inbox_activity, post_inbox, post_shared_inbox, verify_http_signature, InboxRequest,
  to_user, to_shared, route, route_all,
}
use oxifed.Inbox.Rows.{Laws}
use oxifed.Inbox.Rows.Invariant.{
  Evolves, EvolvesBy, Evolves-refl, Evolves-trans, Evolves-same, handle_as-Evolves,
}

-- What a request has passed that is given to a handler.
pub record IsProcessed {Db : Type 0} (c : Collections Db) (env : Environment) (urls : UrlLib)
    (serde : Serde) (request : Post) (s : State Db) : Type 0 where
  pub domain : String
  pub activity : Activity
  pub actor : ActorDocument
  pub addressed : domain_of urls request.headers request.body ≡ some domain
  pub served : c.find_domain_by_name domain s.db ≡ ok (some tt)
  pub parsed : serde.activity_of request.body ≡ ok activity
  pub known : c.find_actor_by_username request.username domain s.db ≡ ok (some actor)
  pub is_active : actor.status ≡ active
  pub outcome :
      post_inbox c env urls serde request s
      ≡ answer (process_incoming_activity c env activity actor domain request.username s)

-- What an `Undo` that is decoded may do: it names no follow, or a cancelled one is allowed.
abbrev Undoes : Serde → (FollowStatus → Type 0) → Type 0
Undoes serde P =
    (body : Value) (activity : Activity)
    → serde.activity_of body ≡ ok activity
    → (o : ObjectOrLink) → activity.object ≡ some o
    → (undone_follow o ≡ none) ⊎ P cancelled

module _ {Db : Type 0} (c : Collections Db) (env : Environment) (urls : UrlLib)
    (serde : Serde) where
  -- a refusal leaves the state as it was
  abbrev pub IsRefused : State Db → StatusCode × State Db → Type 0
  IsRefused s r = (r.1 ≡ s) × (r.0 ≢ ok_accepted)

  process_for-cases :
      (activity : Activity) (domain username : String) (actor : ActorDocument) (s : State Db)
      → (process_for c env activity domain username actor s ≡ (gone, s))
        ⊎ ((actor.status ≡ active)
            × (process_for c env activity domain username actor s
                ≡ answer (process_incoming_activity c env activity actor domain username s)))
  unfolding process_for
  process_for-cases activity domain username actor s = ground arith

  post_to_domain-cases :
      (domain : String) (request : Post) (s : State Db)
      → IsRefused s (post_to_domain c env urls serde domain request s)
        ⊎ ((activity : Activity) × (actor : ActorDocument) × (serde.activity_of request.body
              ≡ ok activity)
            × (c.find_actor_by_username request.username domain s.db ≡ ok (some actor))
            × (actor.status ≡ active)
            × (post_to_domain c env urls serde domain request s
                ≡ answer
                    (process_incoming_activity c env activity actor domain request.username s)))
  unfolding post_to_domain
  post_to_domain-cases domain request s = elim (Result-cases (serde.activity_of request.body)) [
    | inr (e, unread) ↦ inl (ground arith, ground arith)
    | inl (activity, parsed) ↦
        elim (Result-cases (c.find_actor_by_username request.username domain s.db)) [
          | inr (e, failed) ↦ inl (ground arith, ground arith)
          | inl (found, looked_up) ↦ elim (Option-cases found) [
            | inl missing ↦ inl (ground arith, ground arith)
            | inr (actor, present) ↦
                elim (process_for-cases activity domain request.username actor s) [
                  | inl refused ↦ inl (ground arith, ground arith)
                  | inr (status, processed) ↦
                      inr (activity, actor, parsed, cc, status, ground arith)
                ]
          ]
        ]
  ]

  -- A request to a user's inbox leaves the state as it was and is not accepted, or its domain is
  -- served, its body is an activity, its user is an active actor of the domain, and the answer and
  -- the new state are those of the handler.
  pub post_inbox-cases :
      (request : Post) (s : State Db)
      → IsRefused s (post_inbox c env urls serde request s) ⊎ IsProcessed c env urls serde request s
  unfolding post_inbox verify_http_signature
  post_inbox-cases request s = elim (Option-cases (domain_of urls request.headers request.body)) [
    | inl nowhere ↦ inl (ground arith, ground arith)
    | inr (domain, addressed) ↦ elim (Result-cases (c.find_domain_by_name domain s.db)) [
      | inr (e, failed) ↦ inl (ground arith, ground arith)
      | inl (none, unserved) ↦ inl (ground arith, ground arith)
      | inl (some tt, served) ↦
          let routed : post_inbox c env urls serde request s
              ≡ post_to_domain c env urls serde domain request s =
            ground arith in
          elim (post_to_domain-cases domain request s) [
            | inl (same, code) ↦
                inl (ap (λ r. r.1) routed ∙ same, λ e. code (sym (ap (λ r. r.0) routed) ∙ e))
            | inr (activity, actor, parsed, known, status, processed) ↦ inr (record {
              domain = domain;
              activity = activity;
              actor = actor;
              addressed = addressed;
              served = served;
              parsed = parsed;
              known = known;
              is_active = status;
              outcome = routed ∙ processed;
            })
          ]
    ]
  ]

  -- The answer to a request does not depend on any header but `Host`: a request without a
  -- signature, or with a wrong one, is handled like a signed one.
  post_inbox-unsigned :
      (request : Post) (headers : Headers) (s : State Db)
      → lookup "host" headers ≡ lookup "host" request.headers
      → post_inbox c env urls serde (record request { headers = headers }) s
        ≡ post_inbox c env urls serde request s
  unfolding post_inbox verify_http_signature post_to_domain domain_of extract_domain_from_headers
  post_inbox-unsigned request headers s h =
      let same : domain_of urls headers request.body ≡ domain_of urls request.headers request.body =
        ap
          (λ (x : Option (Option String)).
            or_else (map_option (λ host. first_part host 58) (and_then x (λ v. v)))
              (extract_domain_from_activity urls request.body))
          h in
      rw (same, post_inbox) refl

  answer-state : (r : Result String (Unit {0}) × State Db) → (answer r).1 ≡ r.1
  answer-state (ok tt, s) = refl
  answer-state (err e, s) = refl

  -- The shared inbox forwards an activity for whatever domain the request names, whether or not
  -- the domain is one that is served, and changes nothing in the database.
  post_shared_inbox-any_domain :
      (headers : Headers) (body json : Value) (domain : String) (activity : Activity) (s : State Db)
      → domain_of urls headers body ≡ some domain
      → serde.activity_of body ≡ ok activity
      → env.to_value activity ≡ ok json
      → env.broker s.sent (
          incoming_activity json activity.activity_type
            (unwrap_or (url_of activity.actor) "unknown")
            domain
            none)
        ≡ ok tt
      → post_shared_inbox c env urls serde headers body s ≡ (
        ok_accepted,
        record s {
          sent =
              s.sent
              ++ incoming_activity json activity.activity_type
                  (unwrap_or (url_of activity.actor) "unknown")
                  domain
                  none
                ∷ [];
        },
      )
  unfolding post_shared_inbox verify_http_signature process_shared_inbox_activity
  post_shared_inbox-any_domain headers body json domain activity s h g k b = ground arith

  post_shared_inbox-db :
      (headers : Headers) (body : Value) (s : State Db)
      → (post_shared_inbox c env urls serde headers body s).1.db ≡ s.db
  unfolding post_shared_inbox verify_http_signature process_shared_inbox_activity
  post_shared_inbox-db headers body s = ground arith

  module _ (P : FollowStatus → Type 0) (answers : P accepted × P rejected) (undoes : Undoes serde P)
      (laws : Laws c) where
    post_inbox-Evolves :
        (request : Post) (s : State Db) (f t : String)
        → EvolvesBy P (c.row s.db f t) (c.row (post_inbox c env urls serde request s).1.db f t)
    unfolding process_incoming_activity
    post_inbox-Evolves request s f t = elim (post_inbox-cases request s) [
      | inl (same, _) ↦ Evolves-same P (ap (λ (x : State Db). c.row x.db f t) same)
      | inr done ↦
          let r =
            process_incoming_activity c env done.activity done.actor done.domain request.username
              s in
          let moved : (post_inbox c env urls serde request s).1 ≡ r.1 =
            ap (λ x. x.1) done.outcome ∙ answer-state r in
          subst (λ (x : State Db). EvolvesBy P (c.row s.db f t) (c.row x.db f t)) (sym moved)
            (handle_as-Evolves P c laws env answers done.activity done.actor
              (undoes request.body done.activity done.parsed) done.activity.activity_type
              done.domain request.username s f t)
    ]

    route-Evolves :
        (request : InboxRequest) (s : State Db) (f t : String)
        → EvolvesBy P (c.row s.db f t) (c.row (route c urls serde env request s).1.db f t)
    unfolding route
    route-Evolves (to_user request) s f t = post_inbox-Evolves request s f t
    route-Evolves (to_shared headers body) s f t =
        Evolves-same P (ap (λ db. c.row db f t) (post_shared_inbox-db headers body s))

-- `#[serde(rename = "type")]` beside `#[serde(flatten)]`: the member "type" of an object is taken by
-- its field `object_type`, so that the map of the other members does not have it.
abbrev pub TakesType : Serde → Type 0
TakesType serde =
    (body : Value) (activity : Activity) (o : Object)
    → serde.activity_of body ≡ ok activity
    → activity.object ≡ some (ObjectOrLink.object o)
    → lookup "type" (fields o).additional_properties ≡ none

TakesType-Undoes : (serde : Serde) (P : FollowStatus → Type 0) → TakesType serde → Undoes serde P
unfolding undone_follow
TakesType-Undoes serde P takes body activity parsed (ObjectOrLink.object o) h =
    inl (rw (undone_follow, takes body activity o parsed h) refl)
TakesType-Undoes serde P takes body activity parsed (ObjectOrLink.link l) h = inl refl
TakesType-Undoes serde P takes body activity parsed (ObjectOrLink.url u) h = inl refl

module _ {Db : Type 0} (c : Collections Db) (laws : Laws c) (urls : UrlLib) (serde : Serde) where
  module _ (P : FollowStatus → Type 0) (answers : P accepted × P rejected)
      (undoes : Undoes serde P) where
    route_all-EvolvesBy :
        (requests : List (Environment × InboxRequest)) (s : State Db) (f t : String)
        → EvolvesBy P (c.row s.db f t) (c.row (route_all c urls serde requests s).db f t)
    unfolding route_all
    route_all-EvolvesBy [] s f t = Evolves-refl P (c.row s.db f t)
    route_all-EvolvesBy ((env, request) ∷ requests) s f t =
        Evolves-trans P _ _ _ (route-Evolves c env urls serde P answers undoes laws request s f t)
          (route_all-EvolvesBy requests (route c urls serde env request s).1 f t)

  -- Over any sequence of requests to the inboxes a follow document stays where it is, with its
  -- pair, its activity and its creation, and once it is answered it is never pending again.
  pub route_all-Evolves :
      (requests : List (Environment × InboxRequest)) (s : State Db) (f t : String)
      → Evolves (c.row s.db f t) (c.row (route_all c urls serde requests s).db f t)
  route_all-Evolves =
      route_all-EvolvesBy (λ s. s ≢ FollowStatus.pending) (λ e. cc, λ e. cc)
        (λ body activity parsed o h. inr (λ e. cc))

  -- No request to the inboxes cancels a follow, an Undo of the follow included. Over any sequence of
  -- requests the status of a document stays as it was or becomes that of an answer, accepted or
  -- rejected, if the decoder gives the member "type" of an embedded object to the field that is
  -- renamed to it, and not to the additional properties, where the handler of an Undo looks for it.
  pub route_all-uncancelled :
      TakesType serde
      → (requests : List (Environment × InboxRequest)) (s : State Db) (f t : String)
      → EvolvesBy
          (λ status. (status ≡ accepted) ⊎ (status ≡ rejected))
          (c.row s.db f t)
          (c.row (route_all c urls serde requests s).db f t)
  route_all-uncancelled takes =
      route_all-EvolvesBy (λ status. (status ≡ accepted) ⊎ (status ≡ rejected)) (inl refl, inr refl)
        (TakesType-Undoes serde (λ status. (status ≡ accepted) ⊎ (status ≡ rejected)) takes)
