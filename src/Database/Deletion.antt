-- ===== src/Database/Deletion.antt =====
-- `DatabaseManager::delete_actor`, which deletes what belongs to an actor before it.
use oxifed.Base.{ℕ, String, Bool, Result, ok, err, ◌||◌, ◌==◌}
use oxifed.Inbox.Types.{FollowDocument, ActivityDocument}
use oxifed.Database.Documents.{ObjectDocument, KeyDocument, Store}
use oxifed.Database.Manager.{Drivers, done, has_actor_id}

abbrev pub follows_or_followed : String → FollowDocument → Bool
follows_or_followed actor_id f = (f.follower == actor_id) || (f.following == actor_id)

-- what the writes that follow do when the one before them succeeds
abbrev pub then_write :
    Result String ℕ × Store
    → (Store → Result String (Unit {0}) × Store)
    → Result String (Unit {0}) × Store
then_write (ok _, s) k = k s
then_write (err e, s) k = (err e, s)

module _ (d : Drivers) where
  unfoldable pub delete_follows_of : String → Store → Result String (Unit {0}) × Store
  delete_follows_of actor_id s =
      let (r, follows) = d.follows.delete_many (follows_or_followed actor_id) s.follows in
      done (r, record s { follows = follows })

  unfoldable pub delete_keys_of : String → Store → Result String (Unit {0}) × Store
  unfolding delete_follows_of
  delete_keys_of actor_id s =
      let (r, keys) = d.keys.delete_many (λ (k : KeyDocument). k.actor_id == actor_id) s.keys in
      then_write (r, record s { keys = keys }) (delete_follows_of actor_id)

  unfoldable pub delete_activities_of : String → Store → Result String (Unit {0}) × Store
  unfolding delete_keys_of
  delete_activities_of actor_id s =
      let (r, activities) =
        d.activities.delete_many (λ (a : ActivityDocument). a.actor == actor_id) s.activities in
      then_write (r, record s { activities = activities }) (delete_keys_of actor_id)

  unfoldable pub delete_objects_of : String → Store → Result String (Unit {0}) × Store
  unfolding delete_activities_of
  delete_objects_of actor_id s =
      let (r, objects) =
        d.objects.delete_many (λ (o : ObjectDocument). o.attributed_to == actor_id) s.objects in
      then_write (r, record s { objects = objects }) (delete_activities_of actor_id)

  -- the actor and what belongs to it, in this order; the first failure ends it
  unfoldable pub delete_actor : String → Store → Result String (Unit {0}) × Store
  unfolding delete_objects_of
  delete_actor actor_id s =
      let (r, actors) = d.actors.delete_one (has_actor_id actor_id) s.actors in
      then_write (r, record s { actors = actors }) (delete_objects_of actor_id)
