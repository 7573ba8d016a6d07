-- ===== src/Delivery/Pool.antt =====
-- The concurrent deliveries of `deliver_activity`: the groups that wait, the futures of
-- `FuturesUnordered`, and the statistics. The order in which futures make progress is open, and so
-- is the answer to each attempt.
pub mod Counts
use oxifed.Base.{ℕ, zero, suc, ◌+◌, ◌*◌, ◌<◌, ◌≡◌, Bool, List, [], ◌∷◌, ◌++◌, Result, length}
use oxifed.Vocab.{Url}
use oxifed.Client.{ClientError}
use oxifed.Delivery.{
  DeliveryStats, no_deliveries, DeliveryTarget, max_concurrent_deliveries, update_stats,
}
use oxifed.Delivery.Inbox.{Round, returned, again, round}

-- a future that delivers to an inbox, after some attempts
pub record Running : Type 0 where
  pub inbox_url : Url
  pub targets : List DeliveryTarget
  pub attempts : ℕ

pub record Pool : Type 0 where
  pub waiting : List (Url × List DeliveryTarget)
  pub running : List Running
  -- the results that are to be taken
  pub ready : List (ℕ × ℕ × Bool)
  pub stats : DeliveryStats

-- the pool before the loop over the groups
abbrev pub new_pool : List (Url × List DeliveryTarget) → Pool
new_pool groups = record { waiting = groups; running = []; ready = []; stats = no_deliveries }

abbrev pub started : Url × List DeliveryTarget → Running
started (inbox, targets) = record { inbox_url = inbox; targets = targets; attempts = 0 }

-- One step of the pool. Some group that waits (the `HashMap` has no order) is started while there are fewer than 50 futures.
pub data Step : Pool → Pool → Type 0 where
  start :
      (g : Url × List DeliveryTarget) (before after : List (Url × List DeliveryTarget)) (p : Pool)
      → length p.running + length p.ready < max_concurrent_deliveries
      → Step
          (record p { waiting = before ++ g ∷ after })
          (record p { waiting = before ++ after; running = started g ∷ p.running })
  finish :
      (r : Running) (before after : List Running) (p : Pool)
      (answer : Result ClientError (Unit {0})) (result : ℕ × ℕ × Bool)
      → round r.targets (r.attempts + 1) answer ≡ returned result
      → Step
          (record p { running = before ++ r ∷ after })
          (record p { running = before ++ after; ready = result ∷ p.ready })
  retry :
      (r : Running) (before after : List Running) (p : Pool)
      (answer : Result ClientError (Unit {0})) (delay : ℕ)
      → round r.targets (r.attempts + 1) answer ≡ again delay
      → Step
          (record p { running = before ++ r ∷ after })
          (record p { running = before ++ record r { attempts = r.attempts + 1 } ∷ after })
  take_result :
      (result : ℕ × ℕ × Bool) (before after : List (ℕ × ℕ × Bool)) (p : Pool)
      → Step
          (record p { ready = before ++ result ∷ after })
          (record p { ready = before ++ after; stats = update_stats p.stats result })

pub data Steps : Pool → Pool → Type 0 where
  stop : {p : Pool} → Steps p p
  step : {p q r : Pool} → Step p q → Steps q r → Steps p r
