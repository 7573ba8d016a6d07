-- ===== src/Commands/Rpc/Replies.antt =====
-- Which messages of the queue for remote calls get a reply, and which reply they get.
use oxifed.Base.{
  ◌≡◌, refl, String, Bool, true, false, none, some, ◌⊎◌, inl, inr, arith, unwrap_or, Bool-cases,
  Option-cases,
}
use oxifed.Inbox.Types.{Environment}
use oxifed.Database.Documents.{Store}
use oxifed.Database.Manager.{Drivers}
use oxifed.Commands.Messages.{
  list_domains, get_domain, list_users, get_user, list_following, list_followers, MessageEnum,
  domain_rpc_request, domain_rpc_response, user_rpc_request, user_rpc_response, follow_rpc_request,
  follow_rpc_response,
}
use oxifed.Commands.Rpc.{
  answer_rpc, BasicProperties, Reply, process_rpc_message, domain_response, user_response,
  follow_response, handle_list_domains_rpc, handle_get_domain_rpc, handle_list_users_rpc,
  handle_get_user_rpc, handle_list_following_rpc, handle_list_followers_rpc,
}

-- an answer of the kind of a request, with its request id
abbrev pub IsAnswer : MessageEnum → MessageEnum → Type 0
IsAnswer (domain_rpc_request r) (domain_rpc_response a) = a.request_id ≡ r.request_id
IsAnswer (user_rpc_request r) (user_rpc_response a) = a.request_id ≡ r.request_id
IsAnswer (follow_rpc_request r) (follow_rpc_response a) = a.request_id ≡ r.request_id
IsAnswer _ _ = ⊥

abbrev pub is_request : MessageEnum → Bool
is_request (domain_rpc_request r) = true
is_request (user_rpc_request r) = true
is_request (follow_rpc_request r) = true
is_request _ = false

module _ (d : Drivers) (env : Environment) (s : Store) where
  domain-id : (id : String) (t : _) → (domain_response d env id t s).request_id ≡ id
  unfolding handle_list_domains_rpc handle_get_domain_rpc
  domain-id id list_domains = refl
  domain-id id (get_domain domain) = refl

  user-id : (id : String) (t : _) → (user_response d env id t s).request_id ≡ id
  unfolding handle_list_users_rpc handle_get_user_rpc
  user-id id list_users = refl
  user-id id (get_user name) = refl

  follow-id : (id : String) (t : _) → (follow_response d env id t s).request_id ≡ id
  unfolding handle_list_following_rpc handle_list_followers_rpc
  follow-id id (list_following actor) = refl
  follow-id id (list_followers actor) = refl

  -- a request has an answer, and nothing else has one
  answer_rpc-cases :
      (m : MessageEnum)
      → ((is_request m ≡ false) × (answer_rpc d env m s ≡ none))
        ⊎ ((is_request m ≡ true)
            × ((a : MessageEnum) × (answer_rpc d env m s ≡ some a) × IsAnswer m a))
  unfolding answer_rpc
  answer_rpc-cases (domain_rpc_request r) =
      inr (refl, (_, refl, domain-id r.request_id r.request_type))
  answer_rpc-cases (user_rpc_request r) = inr (refl, (_, refl, user-id r.request_id r.request_type))
  answer_rpc-cases (follow_rpc_request r) =
      inr (refl, (_, refl, follow-id r.request_id r.request_type))
  answer_rpc-cases _ = inl (refl, refl)

  -- A message of the queue for remote calls gets no reply, and then it is no request, or names no
  -- queue for the reply, or its answer cannot be serialized; or else it gets a reply in the queue that
  -- it names, with its correlation id ("unknown" if it has none) and an answer of its kind with its
  -- request id.
  pub process_rpc_message-cases :
      (serializes : MessageEnum → Bool) (m : MessageEnum) (p : BasicProperties)
      → ((process_rpc_message d env serializes (some m) p s ≡ none)
          × ((is_request m ≡ false)
              ⊎ (p.reply_to ≡ none)
              ⊎ ((a : MessageEnum) × IsAnswer m a × (serializes a ≡ false))))
        ⊎ ((reply : Reply) × (process_rpc_message d env serializes (some m) p s ≡ some reply)
            × (p.reply_to ≡ some reply.routing_key)
            × (reply.correlation_id ≡ unwrap_or p.correlation_id "unknown")
            × IsAnswer m reply.body)
  unfolding process_rpc_message
  process_rpc_message-cases serializes m p = elim (answer_rpc-cases m) [
    | inl (other, silent) ↦ inl (ground arith, inl other)
    | inr (asked, (a, answered, fits)) ↦ elim (Option-cases p.reply_to) [
      | inl nowhere ↦ inl (ground arith, inr (inl nowhere))
      | inr (q, there) ↦ elim (Bool-cases (serializes a)) [
        | inr broken ↦ inl (ground arith, inr (inr (a, fits, broken)))
        | inl fine ↦ inr (
          record {
            routing_key = q;
            correlation_id = unwrap_or p.correlation_id "unknown";
            body = a;
          },
          ground arith,
          there,
          refl,
          fits,
        )
      ]
    ]
  ]
