-- ===== src/Database/Collections.antt =====
-- The operations of `DatabaseManager` as the interfaces that the inbox and the commands use.
use oxifed.Base.{String, Option, none, some, Result, ok, err, map_option, find, ◌==◌}
use oxifed.Inbox.Types.{Collections}
use oxifed.Inbox.Types
use oxifed.Commands.Domains.{DomainDocument, DomainCollections}
use oxifed.Database.Documents.{ActorDocument, Store}
use oxifed.Database.Manager.{
  Drivers, has_pair, has_domain, done, find_actor_by_username, insert_activity, find_activity_by_id,
  insert_domain, find_domain_by_name, insert_follow, update_follow_status,
}

-- what the inbox reads of an actor
abbrev inbox_actor : ActorDocument → Types.ActorDocument
inbox_actor a = record { actor_id = a.actor_id; status = a.status }

abbrev pub is_there : Result String (Option DomainDocument) → Result String (Option (Unit {0}))
is_there (err e) = err e
is_there (ok none) = ok none
is_there (ok (some d)) = ok (some tt)

abbrev inbox_view :
    Result String (Option ActorDocument) → Result String (Option Types.ActorDocument)
inbox_view (err e) = err e
inbox_view (ok a) = ok (map_option inbox_actor a)

unfoldable pub collections : Drivers → Collections Store
unfolding insert_follow update_follow_status find_activity_by_id insert_activity find_domain_by_name
    find_actor_by_username
collections d = record {
  row = λ s f t. find (has_pair f t) s.follows;
  insert_follow = insert_follow d;
  update_follow_status = update_follow_status d;
  find_activity_by_id = find_activity_by_id d;
  insert_activity = insert_activity d;
  find_domain_by_name = λ domain s. is_there (find_domain_by_name d domain s);
  find_actor_by_username = λ name domain s. inbox_view (find_actor_by_username d name domain s);
  clock = λ s. d.follows.clock;
}

-- with the writes that the commands make themselves
unfoldable pub domain_collections : Drivers → DomainCollections Store
unfolding find_domain_by_name insert_domain
domain_collections d = record {
  find_domain_by_name = find_domain_by_name d;
  insert_domain = insert_domain d;
  update_one = λ domain f s.
      let (r, domains) = d.domains.update_one (has_domain domain) f s.domains in
      done (r, record s { domains = domains });
  count_actors =
      λ domain s. d.actors.count_documents (λ (a : ActorDocument). a.domain == domain) s.actors;
  delete_one = λ domain s.
      let (r, domains) = d.domains.delete_one (has_domain domain) s.domains in
      (r, record s { domains = domains });
  delete_actors = λ domain s.
      let (r, actors) = d.actors.delete_many (λ (a : ActorDocument). a.domain == domain) s.actors in
      (r, record s { actors = actors });
}
