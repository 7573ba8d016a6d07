-- ===== src/Database/Manager.antt =====
-- `DatabaseManager` of src/database.rs. An operation is a function of the collections; a cursor that
-- fails while documents are read is an error of `find`.
use oxifed.Base.{
  ℕ, String, Bool, true, false, Option, none, some, List, [], ◌∷◌, ◌>>◌, Result, ok, err, map, ◌&&◌,
  ◌==◌, ◌>>=◌,
}
use oxifed.Vocab.{ObjectType, note, article}
use oxifed.Inbox.Types.{
  FollowStatus, accepted, StoredTime, as_date, read_time, FollowDocument, ActivityDocument,
}
use oxifed.Commands.Domains.{DomainDocument}
use oxifed.Database.Documents.{
  ActorDocument, read_actor, ObjectDocument, VisibilityLevel, public, KeyStatus, active,
  KeyDocument, JrdResource, OutboxItem, Store,
}
use oxifed.Database.Driver.{Driver, Window, whole}

-- a driver for each collection
pub record Drivers : Type 0 where
  pub actors : Driver ActorDocument
  pub objects : Driver ObjectDocument
  pub activities : Driver ActivityDocument
  pub keys : Driver KeyDocument
  pub domains : Driver DomainDocument
  pub follows : Driver FollowDocument
  pub webfinger_profiles : Driver JrdResource
  pub outbox : Driver OutboxItem

abbrev pub done {ℓ} : {S : Type ℓ} → Result String ℕ × S → Result String (Unit {0}) × S
done (ok _, s) = (ok tt, s)
done (err e, s) = (err e, s)

-- a document as `serde` reads it
abbrev pub readable : Option ActorDocument → Result String (Option ActorDocument)
readable none = ok none
readable (some actor) = do read ← read_actor actor; ok (some read)

abbrev pub read_response : Option StoredTime → Result String (Unit {0})
read_response none = ok tt
read_response (some t) = read_time t

-- a follow, as `serde` reads it, and the follows of a cursor, up to one that is not read
unfoldable pub read_follow : FollowDocument → Result String FollowDocument
unfolding read_time
read_follow f = do read_response f.responded_at; ok f

unfoldable pub read_follows : List FollowDocument → Result String (List FollowDocument)
unfolding read_follow
read_follows [] = ok []
read_follows (f ∷ fs) = do read ← read_follow f; rest ← read_follows fs; ok (read ∷ rest)

abbrev pub readable_follow : Option FollowDocument → Result String (Option FollowDocument)
readable_follow none = ok none
readable_follow (some f) = do read ← read_follow f; ok (some read)

abbrev pub is_post : ObjectType → Bool
is_post note = true
is_post article = true
is_post _ = false

abbrev pub is_accepted : FollowStatus → Bool
is_accepted accepted = true
is_accepted _ = false

abbrev pub is_active : KeyStatus → Bool
is_active active = true
is_active _ = false

abbrev pub is_shown_to_all : VisibilityLevel → Bool
is_shown_to_all public = true
is_shown_to_all _ = false

abbrev window : ℕ → ℕ → Window
window limit offset = record { newest_first = true; limit = some limit; skip = some offset }

abbrev pub has_actor_id : String → ActorDocument → Bool
has_actor_id actor_id a = a.actor_id == actor_id

abbrev pub has_object_id : String → ObjectDocument → Bool
has_object_id object_id o = o.object_id == object_id

abbrev pub has_domain : String → DomainDocument → Bool
has_domain domain d = d.domain == domain

abbrev pub has_pair : String → String → FollowDocument → Bool
has_pair follower following f = (f.follower == follower) && (f.following == following)

abbrev pub has_subject : String → JrdResource → Bool
has_subject subject j = elim j.subject [ none ↦ false | some s ↦ s == subject ]

module _ (d : Drivers) where
  unfoldable pub insert_actor : ActorDocument → Store → Result String (Unit {0}) × Store
  insert_actor actor s =
      let (r, actors) = d.actors.insert_one actor s.actors in (r, record s { actors = actors })

  unfoldable pub find_actor_by_id : String → Store → Result String (Option ActorDocument)
  find_actor_by_id actor_id s = d.actors.find_one (has_actor_id actor_id) s.actors >>= readable

  unfoldable pub find_actor_by_username :
      String → String → Store → Result String (Option ActorDocument)
  find_actor_by_username username domain s =
      d.actors.find_one
        (λ (a : ActorDocument). (a.preferred_username == username) && (a.domain == domain)) s.actors
      >>= readable

  -- `update` is the change of a document that `$set` makes
  unfoldable pub update_actor :
      String → (ActorDocument → ActorDocument) → Store → Result String (Unit {0}) × Store
  update_actor actor_id update s =
      let (r, actors) =
        d.actors.update_one (has_actor_id actor_id)
          (λ (a : ActorDocument). record (update a) { updated_at = as_date d.actors.clock })
          s.actors in
      done (r, record s { actors = actors })

  unfoldable pub insert_object : ObjectDocument → Store → Result String (Unit {0}) × Store
  insert_object object s =
      let (r, objects) = d.objects.insert_one object s.objects in
      (r, record s { objects = objects })

  unfoldable pub find_object_by_id : String → Store → Result String (Option ObjectDocument)
  find_object_by_id object_id s = d.objects.find_one (has_object_id object_id) s.objects

  unfoldable pub update_object :
      String → (ObjectDocument → ObjectDocument) → Store → Result String (Unit {0}) × Store
  update_object object_id update s =
      let (r, objects) = d.objects.update_one (has_object_id object_id) update s.objects in
      done (r, record s { objects = objects })

  unfoldable pub delete_object : String → Store → Result String (Unit {0}) × Store
  delete_object object_id s =
      let (r, objects) = d.objects.delete_one (has_object_id object_id) s.objects in
      done (r, record s { objects = objects })

  unfoldable pub insert_activity : ActivityDocument → Store → Result String (Unit {0}) × Store
  insert_activity activity s =
      let (r, activities) = d.activities.insert_one activity s.activities in
      (r, record s { activities = activities })

  unfoldable pub find_activity_by_id : String → Store → Result String (Option ActivityDocument)
  find_activity_by_id activity_id s =
      d.activities.find_one (λ (a : ActivityDocument). a.activity_id == activity_id) s.activities

  unfoldable pub upsert_key : KeyDocument → Store → Result String (Unit {0}) × Store
  upsert_key key s =
      let (r, keys) = d.keys.replace_one (λ (k : KeyDocument). k.key_id == key.key_id) key s.keys in
      done (r, record s { keys = keys })

  unfoldable pub insert_key : KeyDocument → Store → Result String (Unit {0}) × Store
  insert_key key s = let (r, keys) = d.keys.insert_one key s.keys in (r, record s { keys = keys })

  unfoldable pub find_key_by_id : String → Store → Result String (Option KeyDocument)
  find_key_by_id key_id s = d.keys.find_one (λ (k : KeyDocument). k.key_id == key_id) s.keys

  unfoldable pub find_keys_by_actor : String → Store → Result String (List KeyDocument)
  find_keys_by_actor actor_id s =
      d.keys.find (λ (k : KeyDocument). k.actor_id == actor_id) whole s.keys

  unfoldable pub find_active_keys_by_actor : String → Store → Result String (List KeyDocument)
  find_active_keys_by_actor actor_id s =
      d.keys.find (λ (k : KeyDocument). (k.actor_id == actor_id) && is_active k.status) whole s.keys

  unfoldable pub update_key_status : String → KeyStatus → Store → Result String (Unit {0}) × Store
  update_key_status key_id status s =
      let (r, keys) =
        d.keys.update_one (λ (k : KeyDocument). k.key_id == key_id)
          (λ (k : KeyDocument). record k { status = status }) s.keys in
      done (r, record s { keys = keys })

  unfoldable pub upsert_domain : DomainDocument → Store → Result String (Unit {0}) × Store
  upsert_domain domain s =
      let (r, domains) = d.domains.replace_one (has_domain domain.domain) domain s.domains in
      done (r, record s { domains = domains })

  unfoldable pub insert_domain : DomainDocument → Store → Result String (Unit {0}) × Store
  insert_domain domain s =
      let (r, domains) = d.domains.insert_one domain s.domains in
      (r, record s { domains = domains })

  unfoldable pub find_domain_by_name : String → Store → Result String (Option DomainDocument)
  find_domain_by_name domain s = d.domains.find_one (has_domain domain) s.domains

  unfoldable pub insert_follow : FollowDocument → Store → Result String (Unit {0}) × Store
  insert_follow follow s =
      let (r, follows) = d.follows.insert_one follow s.follows in
      (r, record s { follows = follows })

  unfoldable pub find_follow : String → String → Store → Result String (Option FollowDocument)
  find_follow follower following s =
      d.follows.find_one (has_pair follower following) s.follows >>= readable_follow

  unfoldable pub update_follow_status :
      String → String → FollowStatus → Store → Result String (Unit {0}) × Store
  update_follow_status follower following status s =
      let (r, follows) =
        d.follows.update_one (has_pair follower following)
          (λ (f : FollowDocument). record f {
            status = status;
            responded_at = some (as_date d.follows.clock);
          })
          s.follows in
      done (r, record s { follows = follows })

  -- accepted followers
  unfoldable pub get_actor_followers : String → Store → Result String (List String)
  get_actor_followers actor_id s = do
    docs ←
        d.follows.find (λ (f : FollowDocument). (f.following == actor_id) && is_accepted f.status)
          whole s.follows
    follows ← read_follows docs
    ok (map (λ (f : FollowDocument). f.follower) follows)

  unfoldable pub get_actor_following : String → Store → Result String (List String)
  get_actor_following actor_id s = do
    docs ←
        d.follows.find (λ (f : FollowDocument). (f.follower == actor_id) && is_accepted f.status)
          whole s.follows
    follows ← read_follows docs
    ok (map (λ (f : FollowDocument). f.following) follows)

  unfoldable pub get_actor_following_all : String → Store → Result String (List FollowDocument)
  get_actor_following_all actor_id s =
      d.follows.find (λ (f : FollowDocument). f.follower == actor_id) whole s.follows
      >>= read_follows

  unfoldable pub get_actor_followers_all : String → Store → Result String (List FollowDocument)
  get_actor_followers_all actor_id s =
      d.follows.find (λ (f : FollowDocument). f.following == actor_id) whole s.follows
      >>= read_follows

  -- `get_actor_outbox` and `find_objects_by_actor`
  unfoldable pub find_objects_by_actor :
      String → ℕ → ℕ → Store → Result String (List ObjectDocument)
  find_objects_by_actor actor_id limit offset s =
      d.objects.find (λ (o : ObjectDocument). o.attributed_to == actor_id) (window limit offset)
        s.objects

  unfoldable pub count_objects_by_actor : String → Store → Result String ℕ
  count_objects_by_actor actor_id s =
      d.objects.count_documents (λ (o : ObjectDocument). o.attributed_to == actor_id) s.objects

  unfoldable pub count_local_actors : Store → Result String ℕ
  count_local_actors s = d.actors.count_documents (λ (a : ActorDocument). a.local) s.actors

  unfoldable pub count_local_posts : Store → Result String ℕ
  count_local_posts s =
      d.objects.count_documents (λ (o : ObjectDocument). o.local && is_post o.object_type) s.objects

  unfoldable pub get_public_timeline : ℕ → ℕ → Store → Result String (List ObjectDocument)
  get_public_timeline limit offset s =
      d.objects.find (λ (o : ObjectDocument). is_shown_to_all o.visibility && is_post o.object_type)
        (window limit offset) s.objects

  unfoldable pub get_local_timeline : ℕ → ℕ → Store → Result String (List ObjectDocument)
  get_local_timeline limit offset s =
      d.objects.find
        (λ (o : ObjectDocument). o.local && (is_shown_to_all o.visibility && is_post o.object_type))
        (window limit offset) s.objects

  -- actors, posts and activities; only the actors are those of the domain
  unfoldable pub get_domain_stats : String → Store → Result String (ℕ × ℕ × ℕ)
  get_domain_stats domain s = do
    actors ← d.actors.count_documents (λ (a : ActorDocument). a.domain == domain) s.actors
    posts ← d.objects.count_documents (λ (o : ObjectDocument). is_post o.object_type) s.objects
    activities ← d.activities.count_documents (λ (a : ActivityDocument). a.local) s.activities
    ok (actors, posts, activities)
