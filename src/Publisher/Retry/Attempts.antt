-- ===== src/Publisher/Retry/Attempts.antt =====
-- What a delivery by publisherd has done when it returns, for every network.
use oxifed.Base.{
  ℕ, zero, suc, ◌+◌, ◌-◌, ◌*◌, ◌%◌, ◌^◌, ◌≤◌, ◌<◌, ◌≡◌, refl, inl, inr, List, [], ◌∷◌, ◌++◌, Option,
  none, some, Result, ok, err, is_ok, false, lt→ltb, le→ltb_false, Result-cases, arith, ap, ◌∙◌,
}
use native.Mathlib.Numerals.{add-one}
use native.Mathlib.Decide.{dec_lt}
use oxifed.Client.{ClientError}
use oxifed.Publisher.Retry.{
  RetryConfig, delay_ms, Outcome, delivered, failed, panicked, Delivery, wait, unwrap, rounds,
  deliver_with_retry,
}

-- the waits after the attempts 1, …, n: the configured delay, doubled after each of them, where the
-- exponent has 32 bits and the delay 64
abbrev pub waits : RetryConfig → ℕ → List ℕ
waits config zero = []
waits config (suc n) =
    waits config n ++ config.retry_delay_ms * (2 ^ (n % 2 ^ 32) % 2 ^ 64) % 2 ^ 64 ∷ []

-- the same, as the loop computes them
abbrev delays : RetryConfig → ℕ → List ℕ
delays config zero = []
delays config (suc n) = delays config n ++ delay_ms config (suc n) ∷ []

exponent_mod : (n : ℕ) → (suc n % 2 ^ 32 + 2 ^ 32 - 1) % 2 ^ 32 ≡ n % 2 ^ 32
exponent_mod n = omega arith

delays-waits : (config : RetryConfig) (n : ℕ) → delays config n ≡ waits config n
unfolding delay_ms
delays-waits config zero = refl
delays-waits config (suc n) = rw (delays-waits config n) (
    ap (λ e. waits config n ++ config.retry_delay_ms * (2 ^ e % 2 ^ 64) % 2 ^ 64 ∷ [])
      (exponent_mod n))

module _ {W : Type 0} (send : W → Result ClientError (Unit {0}) × W) where
  -- the network after n sends
  abbrev pub after : ℕ → W → W
  after zero w = w
  after (suc n) w = (send (after n w)).1

  -- the outcome of the send number n, counted from 0
  abbrev pub sent : ℕ → W → Result ClientError (Unit {0})
  sent n w = (send (after n w)).0

abbrev pub outcome_of : Result ClientError (Unit {0}) → Outcome
outcome_of (ok _) = delivered
outcome_of (err e) = failed e

pub record IsDelivery {W : Type 0} (config : RetryConfig)
    (send : W → Result ClientError (Unit {0}) × W) (w : W) (d : Delivery W) : Type 0 where
  -- the attempt that decided, counted from 0
  pub last : ℕ
  pub counted : d.attempts ≡ suc last
  pub bounded : last < config.retry_attempts
  pub earlier : (j : ℕ) → j < last → is_ok (sent send j w) ≡ false
  pub result : d.outcome ≡ outcome_of (sent send last w)
  pub exhausted : is_ok (sent send last w) ≡ false → suc last ≡ config.retry_attempts
  pub waited : d.slept ≡ waits config last
  pub network : d.world ≡ after send (suc last) w

-- One round of the loop, in each of its three ways.
module _ {W : Type 0} (config : RetryConfig) (send : W → Result ClientError (Unit {0}) × W)
    (fuel a : ℕ) (last : Option ClientError) (slept : List ℕ) (v : W) where
  rounds-success :
      a < config.retry_attempts
      → (send v).0 ≡ ok tt
      → rounds config send (suc fuel) a last slept v
        ≡ record { outcome = delivered; attempts = suc a; slept = slept; world = (send v).1 }
  unfolding rounds
  rounds-success h e = rw (← add-one a) (ground arith)

  rounds-failure :
      (x : ClientError)
      → a < config.retry_attempts
      → (send v).0 ≡ err x
      → rounds config send (suc fuel) a last slept v
        ≡ rounds config send fuel (suc a) (some x) (wait config send (suc a) slept) (send v).1
  unfolding rounds
  rounds-failure x h e =
      rw (← add-one a) (rw (lt→ltb a config.retry_attempts h, rounds) (rw (e, rounds) refl))

  rounds-exit :
      config.retry_attempts ≤ a
      → rounds config send (suc fuel) a last slept v
        ≡ record { outcome = unwrap config send last; attempts = a; slept = slept; world = v }
  unfolding rounds
  rounds-exit h = rw (le→ltb_false a config.retry_attempts h, rounds) refl

module _ {W : Type 0} (config : RetryConfig) (send : W → Result ClientError (Unit {0}) × W)
    (w : W) where
  extend :
      (a : ℕ) (x : ClientError)
      → ((j : ℕ) → j < a → is_ok (sent send j w) ≡ false)
      → sent send a w ≡ err x
      → (j : ℕ) → j < suc a
      → is_ok (sent send j w) ≡ false
  extend a x e r j h = elim (dec_lt j a) [
    | yes before ↦ e j before
    | no other ↦ let here : j ≡ a = omega arith in ap is_ok (ap (λ (i : ℕ). sent send i w) here ∙ r)
  ]

  -- `suc a` attempts have failed and none is left
  last_round :
      (fuel a : ℕ) (x : ClientError)
      → suc a ≡ config.retry_attempts
      → 0 < fuel
      → ((j : ℕ) → j < a → is_ok (sent send j w) ≡ false)
      → sent send a w ≡ err x
      → IsDelivery config send w (
          rounds config send fuel
            (suc a)
            (some x)
            (wait config send (suc a) (delays config a))
            (after send (suc a) w))
  last_round zero a x full f e r = absurd (omega arith)
  last_round (suc fuel) a x full f e r =
      rw
        (rounds-exit config send fuel (suc a) (some x) (wait config send (suc a) (delays config a))
          (after send (suc a) w) (omega arith))
        (record {
          last = a;
          counted = refl;
          bounded = omega arith;
          earlier = e;
          result = rw r refl;
          exhausted = λ _. full;
          waited =
              rw (le→ltb_false (suc a) config.retry_attempts (omega arith)) (delays-waits config a);
          network = refl;
        })

  rounds-IsDelivery :
      (fuel a : ℕ) (last : Option ClientError)
      → a < config.retry_attempts
      → config.retry_attempts < a + fuel
      → ((j : ℕ) → j < a → is_ok (sent send j w) ≡ false)
      → IsDelivery config send w (rounds config send fuel a last (delays config a) (after send a w))
  rounds-IsDelivery zero a last h k e = absurd (omega arith)
  rounds-IsDelivery (suc fuel) a last h k e = elim (Result-cases (sent send a w)) [
    | inl (tt, done) ↦
        rw (rounds-success config send fuel a last (delays config a) (after send a w) h done)
          (record {
            last = a;
            counted = refl;
            bounded = h;
            earlier = e;
            result = rw done refl;
            exhausted = λ f. cc;
            waited = delays-waits config a;
            network = refl;
          })
    | inr (x, bad) ↦
        rw (rounds-failure config send fuel a last (delays config a) (after send a w) x h bad)
          (elim (dec_lt (suc a) config.retry_attempts) [
            | yes more ↦
                rw (lt→ltb (suc a) config.retry_attempts more)
                  (rounds-IsDelivery fuel (suc a) (some x) more (omega arith) (extend a x e bad))
            | no full ↦ last_round fuel a x (omega arith) (omega arith) e bad
          ])
  ]

-- With at least one attempt configured, a delivery ends after a first success or after all
-- `retry_attempts` failures, never in a panic; every attempt before the last one failed, the
-- waits are those after each failed attempt but the last, doubling from `retry_delay_ms` in 64 bits,
-- and the network is as after just these sends.
pub deliver_with_retry-IsDelivery :
    {W : Type 0} (config : RetryConfig) (send : W → Result ClientError (Unit {0}) × W) (w : W)
    → 0 < config.retry_attempts
    → IsDelivery config send w (deliver_with_retry config send w)
unfolding deliver_with_retry
deliver_with_retry-IsDelivery config send w h =
    rounds-IsDelivery config send w (config.retry_attempts + 1) 0 none h (omega arith)
      (λ j k. absurd (omega arith))

-- With no attempt configured nothing is sent, and the delivery panics.
pub no_attempts :
    {W : Type 0} (config : RetryConfig) (send : W → Result ClientError (Unit {0}) × W) (w : W)
    → config.retry_attempts ≡ 0
    → (deliver_with_retry config send w).outcome ≡ panicked
unfolding deliver_with_retry
no_attempts config send w h =
    ap (λ d. d.outcome)
      (ap (λ (fuel : ℕ). rounds config send fuel 0 none [] w) (add-one config.retry_attempts)
        ∙ rounds-exit config send config.retry_attempts 0 none [] w (omega arith))
