-- ===== src/Inbox/Post.antt =====
-- The two inboxes of domainservd/src/activitypub.rs: `post_inbox` and `post_shared_inbox`.
use oxifed.Base.{List, [], ◌∷◌, String, Option, none, some, Result, ok, err, or_else}
use oxifed.Vocab.{UrlLib, Value, Activity}
use oxifed.Vocab.Entity.{Serde}
use oxifed.Inbox.Types.{active, ActorDocument, Collections, Environment, State, Action}
use oxifed.Inbox.Documents.{Headers, extract_domain_from_headers, extract_domain_from_activity}
use oxifed.Inbox.Handlers.{forward_activity, process_incoming_activity}

pub data StatusCode : Type 0 where
  ok_accepted unauthorized bad_request not_found gone internal_server_error : StatusCode

-- `verify_http_signature`, which takes every request
unfoldable pub verify_http_signature : Headers → Result String (Unit {0})
verify_http_signature headers = ok tt

-- a request to the inbox of `username`, with its body as JSON
pub record Post : Type 0 where
  pub username : String
  pub headers : Headers
  pub body : Value

abbrev pub answer : {Db : Type 0} → Result String (Unit {0}) × State Db → StatusCode × State Db
answer (ok _, s) = (ok_accepted, s)
answer (err _, s) = (bad_request, s)

-- the domain of the `Host` header, or else of the activity
unfoldable pub domain_of : UrlLib → Headers → Value → Option String
unfolding extract_domain_from_headers extract_domain_from_activity
domain_of urls headers body =
    or_else (extract_domain_from_headers headers) (extract_domain_from_activity urls body)

module _ {Db : Type 0} (c : Collections Db) (env : Environment) where
  -- for an actor that has been found
  unfoldable pub process_for :
      Activity → String → String → ActorDocument → State Db → StatusCode × State Db
  unfolding process_incoming_activity
  process_for activity domain username actor s = elim actor.status [
    | active ↦ answer (process_incoming_activity c env activity actor domain username s)
    | _ ↦ (gone, s)
  ]

  unfoldable pub process_shared_inbox_activity : Activity → String → Action Db (Unit {0})
  process_shared_inbox_activity activity domain =
      forward_activity c env activity "unknown" domain none

module _ {Db : Type 0} (c : Collections Db) (env : Environment) (urls : UrlLib)
    (serde : Serde) where
  -- for a domain that is served
  unfoldable pub post_to_domain : String → Post → State Db → StatusCode × State Db
  unfolding process_for
  post_to_domain domain request s = elim (serde.activity_of request.body) [
    | err _ ↦ (bad_request, s)
    | ok activity ↦ elim (c.find_actor_by_username request.username domain s.db) [
      | err _ ↦ (internal_server_error, s)
      | ok none ↦ (not_found, s)
      | ok (some actor) ↦ process_for c env activity domain request.username actor s
    ]
  ]

  unfoldable pub post_inbox : Post → State Db → StatusCode × State Db
  unfolding verify_http_signature domain_of post_to_domain
  post_inbox request s = elim (verify_http_signature request.headers) [
    | err _ ↦ (unauthorized, s)
    | ok _ ↦ elim (domain_of urls request.headers request.body) [
      | none ↦ (bad_request, s)
      | some domain ↦ elim (c.find_domain_by_name domain s.db) [
        | err _ ↦ (internal_server_error, s)
        | ok none ↦ (not_found, s)
        | ok (some _) ↦ post_to_domain domain request s
      ]
    ]
  ]

  unfoldable pub post_shared_inbox : Headers → Value → State Db → StatusCode × State Db
  unfolding verify_http_signature domain_of process_shared_inbox_activity
  post_shared_inbox headers body s = elim (verify_http_signature headers) [
    | err _ ↦ (unauthorized, s)
    | ok _ ↦ elim (domain_of urls headers body) [
      | none ↦ (bad_request, s)
      | some domain ↦ elim (serde.activity_of body) [
        | err _ ↦ (bad_request, s)
        | ok activity ↦ answer (process_shared_inbox_activity c env activity domain s)
      ]
    ]
  ]

-- the two routes of the inboxes in `activitypub_router`
pub data InboxRequest : Type 0 where
  to_user : Post → InboxRequest
  to_shared : Headers → Value → InboxRequest

module _ {Db : Type 0} (c : Collections Db) (urls : UrlLib) (serde : Serde) where
  unfoldable pub route : Environment → InboxRequest → State Db → StatusCode × State Db
  unfolding post_inbox post_shared_inbox
  route env (to_user request) s = post_inbox c env urls serde request s
  route env (to_shared headers body) s = post_shared_inbox c env urls serde headers body s

  -- the state after the requests, each of which has an environment of its own
  unfoldable pub route_all : List (Environment × InboxRequest) → State Db → State Db
  unfolding route
  route_all [] s = s
  route_all ((env, request) ∷ requests) s = route_all requests (route env request s).1
