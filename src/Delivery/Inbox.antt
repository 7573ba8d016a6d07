-- ===== src/Delivery/Inbox.antt =====
-- `deliver_to_inbox` and `group_by_shared_inbox`: the loop of attempts at one inbox, and which
-- targets share one.
pub mod Grouping
pub mod Attempts
use oxifed.Base.{
  ℕ, zero, suc, ◌+◌, ◌-◌, ◌*◌, ◌^◌, ◌%◌, Bool, true, false, Option, none, some, List, [], ◌∷◌, ◌++◌,
  Result, ok, err, length, ltb, leb, if◌then◌else◌, unwrap_or, ◌==◌,
}
use oxifed.Vocab.{Url}
use oxifed.Client.{ClientError}
use oxifed.Delivery.{DeliveryTarget, max_retry_attempts, base_retry_delay_ms}

-- the result of a delivery, what was waited in it, and the network after it; `none` is out of fuel
pub record Sent (W : Type 0) : Type 0 where
  pub result : Option (ℕ × ℕ × Bool)
  pub slept : List ℕ
  pub world : W

-- what one attempt leads to
pub data Round : Type 0 where
  returned : ℕ × ℕ × Bool → Round
  again : (delay : ℕ) → Round

-- one round of the `loop`: `attempts` counts this one
unfoldable pub round : List DeliveryTarget → ℕ → Result ClientError (Unit {0}) → Round
round targets attempts (ok _) = returned (length targets, 0, ltb 1 (length targets))
round targets attempts (err e) =
    if leb max_retry_attempts attempts
    then returned (0, length targets, false)
    else again (base_retry_delay_ms * 2 ^ (attempts - 1))

module _ {W : Type 0} (send : W → Result ClientError (Unit {0}) × W)
    (targets : List DeliveryTarget) where
  unfoldable pub attempts_at : ℕ → ℕ → List ℕ → W → Sent W
  unfolding round
  attempts_at zero attempts slept w = record { result = none; slept = slept; world = w }
  attempts_at (suc fuel) attempts slept w =
      let (answer, w') = send w in
      elim (round targets (attempts + 1) answer) [
        | returned r ↦ record { result = some r; slept = slept; world = w' }
        | again delay ↦ attempts_at fuel (attempts + 1) (slept ++ delay ∷ []) w'
      ]

  unfoldable pub deliver_to_inbox : W → Sent W
  unfolding attempts_at
  deliver_to_inbox w = attempts_at max_retry_attempts 0 [] w

-- where a target is delivered to
abbrev pub endpoint : DeliveryTarget → Url
endpoint target = unwrap_or target.shared_inbox_url target.inbox_url

-- `groups.entry(inbox_url).or_default().push(target)`
unfoldable pub push_group :
    DeliveryTarget → List (Url × List DeliveryTarget) → List (Url × List DeliveryTarget)
push_group target [] = (endpoint target, target ∷ []) ∷ []
push_group target ((inbox, targets) ∷ groups) =
    if (endpoint target).as_str == inbox.as_str
    then (inbox, targets ++ target ∷ []) ∷ groups
    else (inbox, targets) ∷ push_group target groups

unfoldable pub group_from :
    List (Url × List DeliveryTarget) → List DeliveryTarget → List (Url × List DeliveryTarget)
unfolding push_group
group_from groups [] = groups
group_from groups (target ∷ targets) = group_from (push_group target groups) targets

unfoldable pub group_by_shared_inbox : List DeliveryTarget → List (Url × List DeliveryTarget)
unfolding group_from
group_by_shared_inbox targets = group_from [] targets
