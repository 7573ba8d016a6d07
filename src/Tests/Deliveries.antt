-- ===== src/Tests/Deliveries.antt =====
-- A delivery to one inbox by the domain service.
use oxifed.Base.{
  ℕ, zero, suc, ◌+◌, ◌≤◌, ◌≡◌, refl, String, Bool, false, none, some, List, [], ◌∷◌, Result, ok,
  err, length, arith, keep, starts_with, contains,
}
use oxifed.Vocab.{Url, string, create, ObjectOrLink, Activity, lookup}
use oxifed.Client.{ClientError, request_failed}
use oxifed.Delivery.{no_deliveries, DeliveryStats, DeliveryTarget, Remote, update_stats}
use oxifed.Delivery.Inbox.{deliver_to_inbox, group_by_shared_inbox, round}
use oxifed.Delivery.Inbox.Grouping.{targets_of, goes_to, IsDistinct, group_by_shared_inbox-groups}
use oxifed.Delivery.Inbox.Attempts.{IsDelivered, deliver_to_inbox-IsDelivered}
use oxifed.Delivery.Pool.{
  Pool, Running, new_pool, started, Step, start, finish, take_result, Steps, stop, step,
}
use oxifed.Delivery.Pool.Counts.{
  steps_count, IsDone, waiting_targets, Steps-counts, Ends, new_pool-Ends,
}
use oxifed.Delivery.Targets.{extract_recipients, Delivers, delivered}
use oxifed.Delivery.Targets.Found.{AreTargets, extract_recipients-AreTargets, Delivers-counts}
use oxifed.Tests.{url, test_urls}

abbrev bob : String
bob = "https://remote.net/users/bob"

abbrev target : DeliveryTarget
target = record { actor_id = bob; inbox_url = url bob; shared_inbox_url = none }

-- the state counts the requests; the first send fails
abbrev test_send : ℕ → Result ClientError (Unit {0}) × ℕ
test_send zero = (err (request_failed "reset"), 1)
test_send (suc n) = (ok tt, suc (suc n))

abbrev test_remote : Remote ℕ
test_remote = record {
  fetch_collection = λ u w. (err (request_failed "no collections"), w + 1);
  fetch_actor = λ u w. (err (request_failed "no actors"), w + 1);
  send_to_inbox = λ u a w. test_send w;
  get_actor_followers = λ actor. ok [];
  username_capture = λ path. none;
}

abbrev test_activity : Activity
test_activity = record {
  activity_type = create;
  id = none;
  name = none;
  summary = none;
  actor = some (ObjectOrLink.url (url "https://example.org/users/alice"));
  object = none;
  target = none;
  published = none;
  updated = none;
  additional_properties = ("to", string bob) ∷ [];
}

abbrev groups : List (Url × List DeliveryTarget)
groups = (url bob, target ∷ []) ∷ []

abbrev with_state :
    List (Url × List DeliveryTarget) → List Running → List (ℕ × ℕ × Bool) → DeliveryStats → Pool
with_state w rs xs stats = record { waiting = w; running = rs; ready = xs; stats = stats }

abbrev one_success : DeliveryStats
one_success = record {
  total_attempts = 1;
  successful_deliveries = 1;
  failed_deliveries = 0;
  shared_inbox_deliveries = 0;
}

-- the delivery starts, succeeds at once, and its result is taken
test_steps : Steps (new_pool groups) (with_state [] [] [] one_success)
unfolding round update_stats
test_steps =
    step (start (url bob, target ∷ []) [] [] (with_state [] [] [] no_deliveries) (omega arith)) (
      step
        (finish (started (url bob, target ∷ [])) [] [] (with_state [] [] [] no_deliveries) (ok tt)
          (1, 0, false) refl)
        (step (take_result (1, 0, false) [] [] (with_state [] [] [] no_deliveries)) stop))

test_delivery : Delivers test_urls test_remote (λ set. set) test_activity "alice" 0 (ok one_success)
unfolding extract_recipients lookup starts_with contains group_by_shared_inbox
test_delivery =
    delivered target [] (with_state [] [] [] one_success) refl test_steps (refl, refl, refl)

group_by_shared_inbox-groups_example :
    IsDistinct (group_by_shared_inbox (target ∷ target ∷ []))
    × ((u : Url)
        → targets_of u (group_by_shared_inbox (target ∷ target ∷ []))
          ≡ keep (goes_to u) (target ∷ target ∷ []))
group_by_shared_inbox-groups_example = group_by_shared_inbox-groups (target ∷ target ∷ [])

deliver_to_inbox-IsDelivered_example :
    IsDelivered test_send (target ∷ []) 0 (deliver_to_inbox test_send (target ∷ []) 0)
deliver_to_inbox-IsDelivered_example = deliver_to_inbox-IsDelivered test_send (target ∷ []) 0

Steps-counts_example :
    (steps_count test_steps ≤ 5)
    × (0 ≤ 50)
    × (IsDone (with_state [] [] [] one_success)
        → (one_success.total_attempts ≡ waiting_targets groups)
          × (one_success.total_attempts
              ≡ one_success.successful_deliveries + one_success.failed_deliveries))
Steps-counts_example = Steps-counts groups (with_state [] [] [] one_success) test_steps

new_pool-Ends_example :
    Ends (new_pool groups)
    × ((p : Pool)
        → Steps (new_pool groups) p
        → ((q : Pool) → Step p q → ⊥)
        → IsDone p × (p.stats.total_attempts ≡ waiting_targets groups))
new_pool-Ends_example = new_pool-Ends groups

extract_recipients-AreTargets_example :
    AreTargets test_urls test_remote test_activity.actor (target ∷ [])
unfolding extract_recipients lookup starts_with contains
extract_recipients-AreTargets_example =
    extract_recipients-AreTargets test_urls test_remote (λ set. set) test_activity "alice" 0
      (target ∷ []) refl

Delivers-counts_example :
    (ts : List DeliveryTarget) × ((extract_recipients test_urls test_remote
        (λ set. set)
        test_activity
        "alice"
        0).0
      ≡ ok ts)
    × (one_success.total_attempts ≡ length ts)
    × (one_success.total_attempts
        ≡ one_success.successful_deliveries + one_success.failed_deliveries)
Delivers-counts_example =
    Delivers-counts test_urls test_remote (λ set. set) test_activity "alice" 0 one_success
      test_delivery
