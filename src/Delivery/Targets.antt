-- ===== src/Delivery/Targets.antt =====
-- `extract_recipients` of the delivery module, and `deliver_activity`. A `HashSet` is a list
-- without duplicates; the order in which it is read is open, and is the argument `iterate`.
pub mod Found
use oxifed.Base.{
  ℕ, ◌+◌, String, Bool, true, false, not, ◌||◌, ◌≡◌, Option, none, some, List, [], ◌∷◌, Result, ok,
  err, map_err, map_option, map, if◌then◌else◌, ◌==◌, ◌⧺◌, any, keep, take, contains, and_then,
  unwrap_or,
}
use oxifed.Vocab.{
  Url, UrlLib, Value, string, array, elements, fields, Object, ObjectOrLink, Link, Activity,
  Collection, Properties, lookup, get_str,
}
use oxifed.Delivery.{
  DeliveryError, database_error, url_error, no_recipients, DeliveryStats, DeliveryTarget, Remote,
  max_collection_items,
}
use oxifed.Delivery.Inbox.{group_by_shared_inbox}
use oxifed.Delivery.Pool.{Pool, new_pool, Steps}
use oxifed.Delivery.Pool.Counts.{IsDone}

-- `HashSet::insert`
unfoldable pub insert : String → List String → List String
insert s set = if any (λ t. t == s) set then set else s ∷ set

abbrev pub insert_some : Option Url → List String → List String
insert_some none set = set
insert_some (some u) set = insert u.as_str set

unfoldable pub process_addressing_field : Option ObjectOrLink → List String → List String
unfolding insert
process_addressing_field none set = set
process_addressing_field (some (ObjectOrLink.url u)) set = insert u.as_str set
process_addressing_field (some (ObjectOrLink.object o)) set = insert_some (fields o).id set
process_addressing_field (some (ObjectOrLink.link l)) set = insert_some l.href set

unfoldable pub is_collection_url : String → Bool
unfolding contains
is_collection_url url =
    contains url "/followers" || (contains url "/following" || contains url "/audience")

-- the fields of a `FollowerRecord` that are read
pub record FollowerRecord : Type 0 where
  pub actor_id : String
  pub inbox_url : String

module _ (urls : UrlLib) {W : Type 0} (remote : Remote W) where
  unfoldable pub extract_username_from_url : String → Option String
  extract_username_from_url url =
      and_then (urls.parse url) (λ u. remote.username_capture (urls.path u))

  unfoldable pub get_followers : String → Result DeliveryError (List FollowerRecord)
  get_followers username =
      elim (remote.get_actor_followers ("https://example.com/users/" ⧺ username)) [
        | err e ↦ err (database_error e)
        | ok ids ↦ ok (map (λ id. record { actor_id = id; inbox_url = id ⧺ "/inbox" }) ids)
      ]

  abbrev pub insert_inbox : Option String → List String → List String
  insert_inbox none set = set
  insert_inbox (some inbox) set = insert inbox set

  unfoldable pub process_collection_items : List ObjectOrLink → List String → W → List String × W
  unfolding insert lookup
  process_collection_items [] set w = (set, w)
  process_collection_items (ObjectOrLink.url u ∷ items) set w =
      let (answer, w') = remote.fetch_actor u w in
      elim answer [
        | err _ ↦ process_collection_items items set w'
        | ok actor ↦
            process_collection_items items
              (insert_inbox (get_str "inbox" (fields actor).additional_properties) set) w'
      ]
  process_collection_items (ObjectOrLink.object o ∷ items) set w =
      process_collection_items items
        (insert_inbox (get_str "inbox" (fields o).additional_properties) set) w
  process_collection_items (ObjectOrLink.link l ∷ items) set w =
      process_collection_items items set w

  abbrev pub insert_inboxes : List FollowerRecord → List String → List String
  insert_inboxes [] set = set
  insert_inboxes (follower ∷ followers) set =
      insert_inboxes followers (insert follower.inbox_url set)

  -- a collection that is fetched; one that cannot be is skipped
  abbrev pub expand_external : Option Url → List String → W → Result DeliveryError (List String) × W
  expand_external none set w = (ok set, w)
  expand_external (some u) set w =
      let (answer, w') = remote.fetch_collection u w in
      elim answer [
        | err _ ↦ (ok set, w')
        | ok collection ↦
            (let (set', w'') =
                process_collection_items (take max_collection_items collection.items) set w' in
              (ok set', w''))
      ]

  abbrev pub expand_followers : Option String → List String → Result DeliveryError (List String)
  expand_followers none set = ok set
  expand_followers (some username) set = elim (get_followers username) [
    | err e ↦ err e
    | ok followers ↦ ok (insert_inboxes (take max_collection_items followers) set)
  ]

  unfoldable pub expand_collection :
      String → List String → W → Result DeliveryError (List String) × W
  unfolding contains extract_username_from_url get_followers process_collection_items
  expand_collection url set w =
      if contains url "/followers"
      then (expand_followers (extract_username_from_url url) set, w)
      else expand_external (urls.parse url) set w

  unfoldable pub process_addressing_string :
      String → List String → W → Result DeliveryError (List String) × W
  unfolding is_collection_url expand_collection insert
  process_addressing_string url set w =
      if is_collection_url url then expand_collection url set w else (ok (insert url set), w)

  unfoldable pub process_addressing_items :
      List Value → List String → W → Result DeliveryError (List String) × W
  unfolding process_addressing_string
  process_addressing_items [] set w = (ok set, w)
  process_addressing_items (string url ∷ items) set w =
      let (answer, w') = process_addressing_string url set w in
      elim answer [ err e ↦ (err e, w') | ok set' ↦ process_addressing_items items set' w' ]
  process_addressing_items (_ ∷ items) set w = process_addressing_items items set w

  -- the value of one of the fields, if the activity has it
  unfoldable pub process_addressing_value :
      Option Value → List String → W → Result DeliveryError (List String) × W
  unfolding process_addressing_string process_addressing_items
  process_addressing_value (some (string url)) set w = process_addressing_string url set w
  process_addressing_value (some (array vs)) set w = process_addressing_items (elements vs) set w
  process_addressing_value _ set w = (ok set, w)

  unfoldable pub process_fields :
      List String → Properties → List String → W → Result DeliveryError (List String) × W
  unfolding process_addressing_value lookup
  process_fields [] properties set w = (ok set, w)
  process_fields (name ∷ names) properties set w =
      let (answer, w') = process_addressing_value (lookup name properties) set w in
      elim answer [ err e ↦ (err e, w') | ok set' ↦ process_fields names properties set' w' ]

  -- the loop over the followers, whose inbox must be a URL
  unfoldable pub add_followers :
      List FollowerRecord → List String → Result DeliveryError (List String)
  unfolding insert
  add_followers [] set = ok set
  add_followers (follower ∷ followers) set = elim (urls.parse follower.inbox_url) [
    | none ↦ err (url_error follower.inbox_url)
    | some inbox ↦ add_followers followers (insert inbox.as_str set)
  ]

  -- the followers of the actor, if they are addressed as a whole
  unfoldable pub with_followers : String → List String → Result DeliveryError (List String)
  unfolding get_followers add_followers
  with_followers username set =
      let followers_url = "https://localhost/u/" ⧺ username ⧺ "/followers" in
      if any (λ t. t == followers_url) set
      then elim (get_followers username) [
        | err e ↦ err e
        | ok followers ↦ add_followers followers (keep (λ t. not (t == followers_url)) set)
      ]
      else ok set

  unfoldable pub targets_from : List String → List DeliveryTarget
  targets_from [] = []
  targets_from (url ∷ set) =
      let rest = targets_from set in
      elim (urls.parse url) [
        | none ↦ rest
        | some inbox ↦ record { actor_id = url; inbox_url = inbox; shared_inbox_url = none } ∷ rest
      ]

  -- without the actor, if it is given by its URL
  unfoldable pub without_actor : Option ObjectOrLink → List DeliveryTarget → List DeliveryTarget
  without_actor (some (ObjectOrLink.url actor)) targets =
      keep (λ (t : DeliveryTarget). not (t.actor_id == actor.as_str)) targets
  without_actor _ targets = targets

  unfoldable pub extract_recipients :
      (iterate : List String → List String)
      → Activity
      → String
      → W
      → Result DeliveryError (List DeliveryTarget) × W
  unfolding process_addressing_field process_fields with_followers targets_from without_actor
  extract_recipients iterate activity username w =
      let named =
        process_addressing_field activity.target
          (process_addressing_field activity.object (process_addressing_field activity.actor [])) in
      let (answer, w') =
        process_fields ("to" ∷ "cc" ∷ "bcc" ∷ "bto" ∷ "audience" ∷ [])
          activity.additional_properties named w in
      elim answer [
        | err e ↦ (err e, w')
        | ok set ↦ elim (with_followers username set) [
          | err e ↦ (err e, w')
          | ok set' ↦ (ok (without_actor activity.actor (targets_from (iterate set'))), w')
        ]
      ]

  -- How `deliver_activity` may end: in an error, or with the statistics of a pool that is done.
  pub data Delivers (iterate : List String → List String) (activity : Activity) (username : String)
      (w : W) : Result DeliveryError DeliveryStats → Type 0 where
    unaddressed :
        (e : DeliveryError)
        → (extract_recipients iterate activity username w).0 ≡ err e
        → Delivers iterate activity username w (err e)
    nobody :
        (extract_recipients iterate activity username w).0 ≡ ok []
        → Delivers iterate activity username w (err no_recipients)
    delivered :
        (t : DeliveryTarget) (ts : List DeliveryTarget) (p : Pool)
        → (extract_recipients iterate activity username w).0 ≡ ok (t ∷ ts)
        → Steps (new_pool (group_by_shared_inbox (t ∷ ts))) p
        → IsDone p
        → Delivers iterate activity username w (ok p.stats)
