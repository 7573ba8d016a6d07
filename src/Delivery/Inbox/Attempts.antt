-- ===== src/Delivery/Inbox/Attempts.antt =====
-- What a delivery to one inbox has done when it returns.
use oxifed.Base.{
  ◌≡◌, Bool, true, false, ◌||◌, some, List, [], ◌∷◌, Result, is_ok, length, ltb, arith,
}
use oxifed.Client.{ClientError}
use oxifed.Delivery.{DeliveryTarget}
use oxifed.Delivery.Inbox.{Sent, deliver_to_inbox}

module _ {W : Type 0} (send : W → Result ClientError (Unit {0}) × W) (targets : List DeliveryTarget)
    (w : W) where
  -- the answers to the three attempts, had they all been made
  abbrev pub first : Result ClientError (Unit {0}) × W
  first = send w

  abbrev pub second : Result ClientError (Unit {0}) × W
  second = send first.1

  abbrev pub third : Result ClientError (Unit {0}) × W
  third = send second.1

  abbrev pub any_ok : Bool
  any_ok = is_ok first.0 || (is_ok second.0 || is_ok third.0)

  -- what a delivery has returned, and how long it has waited before that
  pub record IsDelivered (sent : Sent W) : Type 0 where
    pub successful : any_ok ≡ true → sent.result ≡ some (length targets, 0, ltb 1 (length targets))
    pub failed : any_ok ≡ false → sent.result ≡ some (0, length targets, false)
    pub at_once : is_ok first.0 ≡ true → (sent.slept ≡ []) × (sent.world ≡ first.1)
    pub in_two :
        is_ok first.0 ≡ false
        → is_ok second.0 ≡ true
        → (sent.slept ≡ 1000 ∷ []) × (sent.world ≡ second.1)
    pub in_three :
        is_ok first.0 ≡ false
        → is_ok second.0 ≡ false
        → (sent.slept ≡ 1000 ∷ 2000 ∷ []) × (sent.world ≡ third.1)

  -- A delivery to an inbox returns after at most three attempts, with waits of one and of two
  -- seconds between them. All its targets count as successes if one attempt succeeds, and it stops
  -- at that one; all count as failures if none of the three does.
  pub deliver_to_inbox-IsDelivered : IsDelivered (deliver_to_inbox send targets w)
  unfolding deliver_to_inbox
  deliver_to_inbox-IsDelivered = record {
    successful = λ h. ground arith;
    failed = λ h. ground arith;
    at_once = λ h. ground arith;
    in_two = λ h k. ground arith;
    in_three = λ h k. ground arith;
  }
