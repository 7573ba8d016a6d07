-- ===== src/Commands/Rpc.antt =====
-- `process_rpc_message` of rabbitmq.rs and the remote calls that it answers.
pub mod Replies
use oxifed.Base.{
  ℕ, String, Bool, true, false, Option, none, some, List, [], ◌∷◌, Result, ok, err, map, map_option,
  unwrap_or, is_some, if◌then◌else◌, ◌==◌, ◌⧺◌, contains, split,
}
use oxifed.Inbox.Types.{
  instant, FollowStatus, accepted, rejected, cancelled, Environment, FollowDocument,
}
use oxifed.Inbox.Types
use oxifed.Commands.Domains.{
  RegistrationMode, open_mode, approval, invite, closed, DomainStatus, DomainDocument, active,
  suspended, maintenance,
}
use oxifed.Database.Documents.{ActorDocument, PublicKeyDocument, read_actor, Store}
use oxifed.Database.Driver.{whole}
use oxifed.Database.Manager
use oxifed.Database.Manager.{Drivers}
use oxifed.Commands.Messages.{
  DomainInfo, DomainRpcRequestType, list_domains, get_domain, DomainRpcRequest, DomainRpcResponse,
  DomainRpcResult, domain_list, domain_details, UserInfo, UserRpcRequestType, list_users, get_user,
  UserRpcRequest, UserRpcResponse, UserRpcResult, user_list, user_details, FollowInfo,
  FollowRpcRequestType, list_following, list_followers, FollowRpcRequest, FollowRpcResponse,
  FollowRpcResult, follow_list, MessageEnum, domain_rpc_request, domain_rpc_response,
  user_rpc_request, user_rpc_response, follow_rpc_request, follow_rpc_response,
}

-- `format!("{:?}", _)`
abbrev mode_text : RegistrationMode → String
mode_text open_mode = "Open"
mode_text approval = "Approval"
mode_text invite = "Invite"
mode_text closed = "Closed"

abbrev status_text : DomainStatus → String
status_text active = "Active"
status_text suspended = "Suspended"
status_text maintenance = "Maintenance"

unfoldable pub domain_info : Environment → DomainDocument → DomainInfo
domain_info env d = record {
  domain = d.domain;
  name = d.name;
  description = d.description;
  contact_email = d.contact_email;
  registration_mode = mode_text d.registration_mode;
  authorized_fetch = d.authorized_fetch;
  max_note_length = d.max_note_length;
  max_file_size = d.max_file_size;
  allowed_file_types = d.allowed_file_types;
  status = status_text d.status;
  created_at = env.to_rfc3339 d.created_at;
  updated_at = env.to_rfc3339 d.updated_at;
}

unfoldable pub handle_list_domains_rpc : Drivers → Environment → String → Store → DomainRpcResponse
unfolding domain_info
handle_list_domains_rpc d env request_id s = record {
  request_id = request_id;
  result = elim (d.domains.find (λ x. true) whole s.domains) [
    | err e ↦ DomainRpcResult.error ("Database error: " ⧺ e)
    | ok docs ↦ domain_list (map (domain_info env) docs)
  ];
}

unfoldable pub handle_get_domain_rpc :
    Drivers → Environment → String → String → Store → DomainRpcResponse
unfolding domain_info
handle_get_domain_rpc d env request_id domain_name s = record {
  request_id = request_id;
  result = elim (Manager.find_domain_by_name d domain_name s) [
    | err e ↦ DomainRpcResult.error ("Database error: " ⧺ e)
    | ok found ↦ domain_details (map_option (domain_info env) found)
  ];
}

unfoldable pub user_info : Environment → ActorDocument → UserInfo
user_info env a = record {
  username = a.preferred_username;
  display_name = if a.name == "" then none else some a.name;
  domain = a.domain;
  actor_id = a.actor_id;
  public_key = map_option (λ (k : PublicKeyDocument). k.public_key_pem) a.public_key;
  private_key_stored = is_some a.public_key;
  created_at = env.to_rfc3339 a.created_at;
  updated_at = env.to_rfc3339 (instant a.updated_at);
}

-- `while let Ok(Some(actor)) = try_next(…)`: the list ends at the first actor that cannot be read
unfoldable pub read_while_ok : List ActorDocument → List ActorDocument
read_while_ok [] = []
read_while_ok (a ∷ rest) =
    let others = read_while_ok rest in elim (read_actor a) [ err e ↦ [] | ok b ↦ b ∷ others ]

unfoldable pub handle_list_users_rpc : Drivers → Environment → String → Store → UserRpcResponse
unfolding user_info read_while_ok
handle_list_users_rpc d env request_id s = record {
  request_id = request_id;
  result =
      elim (d.actors.find (λ (a : ActorDocument). a.local) (record whole { limit = some 100 })
        s.actors) [
          | err e ↦ UserRpcResult.error ("Failed to list users: " ⧺ e)
          | ok docs ↦ user_list (map (user_info env) (read_while_ok docs))
        ];
}

-- a text with exactly one '@' in two parts
abbrev two_parts : List String → Option (String × String)
two_parts (user ∷ domain ∷ []) = some (user, domain)
two_parts _ = none

unfoldable pub user_details_of :
    Drivers → Environment → String → String × String → Store → UserRpcResult
unfolding user_info
user_details_of d env username pair s = elim (Manager.find_actor_by_username d pair.0 pair.1 s) [
  | err e ↦ UserRpcResult.error ("Failed to get user '" ⧺ username ⧺ "': " ⧺ e)
  | ok found ↦ user_details (map_option (user_info env) found)
]

unfoldable pub handle_get_user_rpc :
    Drivers → Environment → String → String → Store → UserRpcResponse
unfolding user_details_of contains split
handle_get_user_rpc d env request_id username s = record {
  request_id = request_id;
  result =
      if contains username "@"
      then elim (two_parts (split username 64)) [
        | none ↦ UserRpcResult.error ("Invalid username format: " ⧺ username)
        | some pair ↦ user_details_of d env username pair s
      ]
      else UserRpcResult.error "Please specify username in format: username@domain";
}

abbrev follow_status_text : FollowStatus → String
follow_status_text FollowStatus.pending = "pending"
follow_status_text accepted = "accepted"
follow_status_text rejected = "rejected"
follow_status_text cancelled = "cancelled"

unfoldable pub follow_info : Environment → FollowDocument → FollowInfo
follow_info env f = record {
  follower = f.follower;
  following = f.following;
  status = follow_status_text f.status;
  activity_id = f.activity_id;
  created_at = env.to_rfc3339 f.created_at;
  responded_at = map_option (λ t. env.to_rfc3339 (instant t)) f.responded_at;
}

abbrev follows_result : Environment → String → Result String (List FollowDocument) → FollowRpcResult
follows_result env text (err e) = FollowRpcResult.error (text ⧺ e)
follows_result env text (ok docs) = follow_list (map (follow_info env) docs)

unfoldable pub handle_list_following_rpc :
    Drivers → Environment → String → String → Store → FollowRpcResponse
unfolding follow_info
handle_list_following_rpc d env request_id actor s = record {
  request_id = request_id;
  result =
      follows_result env "Failed to list following: " (Manager.get_actor_following_all d actor s);
}

unfoldable pub handle_list_followers_rpc :
    Drivers → Environment → String → String → Store → FollowRpcResponse
unfolding follow_info
handle_list_followers_rpc d env request_id actor s = record {
  request_id = request_id;
  result =
      follows_result env "Failed to list followers: " (Manager.get_actor_followers_all d actor s);
}

abbrev pub domain_response :
    Drivers → Environment → String → DomainRpcRequestType → Store → DomainRpcResponse
domain_response d env request_id list_domains s = handle_list_domains_rpc d env request_id s
domain_response d env request_id (get_domain domain) s =
    handle_get_domain_rpc d env request_id domain s

abbrev pub user_response :
    Drivers → Environment → String → UserRpcRequestType → Store → UserRpcResponse
user_response d env request_id list_users s = handle_list_users_rpc d env request_id s
user_response d env request_id (get_user username) s =
    handle_get_user_rpc d env request_id username s

abbrev pub follow_response :
    Drivers → Environment → String → FollowRpcRequestType → Store → FollowRpcResponse
follow_response d env request_id (list_following actor) s =
    handle_list_following_rpc d env request_id actor s
follow_response d env request_id (list_followers actor) s =
    handle_list_followers_rpc d env request_id actor s

-- the answer to a message; the others are only logged
unfoldable pub answer_rpc : Drivers → Environment → MessageEnum → Store → Option MessageEnum
unfolding handle_list_domains_rpc handle_get_domain_rpc handle_list_users_rpc handle_get_user_rpc
    handle_list_following_rpc handle_list_followers_rpc
answer_rpc d env (domain_rpc_request r) s =
    some (domain_rpc_response (domain_response d env r.request_id r.request_type s))
answer_rpc d env (user_rpc_request r) s =
    some (user_rpc_response (user_response d env r.request_id r.request_type s))
answer_rpc d env (follow_rpc_request r) s =
    some (follow_rpc_response (follow_response d env r.request_id r.request_type s))
answer_rpc d env _ s = none

-- the properties of a delivery
pub record BasicProperties : Type 0 where
  pub reply_to : Option String
  pub correlation_id : Option String

-- what is published to the default exchange
pub record Reply : Type 0 where
  pub routing_key : String
  pub correlation_id : String
  pub body : MessageEnum

-- The reply that is sent, if there is one; `serializes` is `serde_json::to_vec`, and `none` a message
-- that does not parse. Nothing is written, and the function always returns `Ok(())`.
unfoldable pub process_rpc_message :
    Drivers
    → Environment
    → (serializes : MessageEnum → Bool) → Option MessageEnum
    → BasicProperties
    → Store
    → Option Reply
unfolding answer_rpc
process_rpc_message d env serializes none properties s = none
process_rpc_message d env serializes (some message) properties s =
    elim (answer_rpc d env message s) [
      | none ↦ none
      | some response ↦ elim properties.reply_to [
        | none ↦ none
        | some reply_to ↦
            if serializes response
            then some (record {
              routing_key = reply_to;
              correlation_id = unwrap_or properties.correlation_id "unknown";
              body = response;
            })
            else none
      ]
    ]
