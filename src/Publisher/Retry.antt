-- ===== src/Publisher/Retry.antt =====
-- `deliver_with_retry` of publisherd: at most `retry_attempts` sends, with a wait that doubles
-- between them. One send is an argument: it takes and returns the state `W` of the network.
pub mod Attempts
use oxifed.Base.{
  ℕ, zero, suc, ◌+◌, ◌-◌, ◌*◌, ◌%◌, ◌^◌, List, [], ◌∷◌, ◌++◌, Option, none, some, Result, ok, err,
  true, false, ltb, if◌then◌else◌,
}
use oxifed.Client.{ClientError}

pub record RetryConfig : Type 0 where
  pub retry_attempts : ℕ
  pub retry_delay_ms : ℕ

-- `retry_delay_ms * 2_u64.pow(attempts as u32 - 1)`, in the arithmetic of a release build
unfoldable pub delay_ms : RetryConfig → ℕ → ℕ
delay_ms config attempts =
    let exponent = (attempts % 2 ^ 32 + 2 ^ 32 - 1) % 2 ^ 32 in
    config.retry_delay_ms * (2 ^ exponent % 2 ^ 64) % 2 ^ 64

pub data Outcome : Type 0 where
  delivered : Outcome
  failed : ClientError → Outcome
  -- `last_error.unwrap()` on `None`
  panicked : Outcome
  out_of_fuel : Outcome

-- The result, how often was sent, what was waited in between, and the network after it.
pub record Delivery (W : Type 0) : Type 0 where
  pub outcome : Outcome
  pub attempts : ℕ
  pub slept : List ℕ
  pub world : W

module _ {W : Type 0} (config : RetryConfig) (send : W → Result ClientError (Unit {0}) × W) where
  abbrev pub unwrap : Option ClientError → Outcome
  unwrap none = panicked
  unwrap (some e) = failed e

  -- no wait after the last attempt
  abbrev pub wait : ℕ → List ℕ → List ℕ
  wait attempts slept =
      if ltb attempts config.retry_attempts then slept ++ delay_ms config attempts ∷ [] else slept

  -- the `while` loop; each round takes one unit of fuel
  unfoldable pub rounds : ℕ → ℕ → Option ClientError → List ℕ → W → Delivery W
  rounds zero attempts last slept w = record {
    outcome = out_of_fuel;
    attempts = attempts;
    slept = slept;
    world = w;
  }
  rounds (suc fuel) attempts last slept w =
      let (sent, w') = send w in
      elim (ltb attempts config.retry_attempts) [
        | false ↦ record { outcome = unwrap last; attempts = attempts; slept = slept; world = w }
        | true ↦ elim sent [
          | ok _ ↦ record {
            outcome = delivered;
            attempts = attempts + 1;
            slept = slept;
            world = w';
          }
          | err e ↦ rounds fuel (attempts + 1) (some e) (wait (attempts + 1) slept) w'
        ]
      ]

  unfoldable pub deliver_with_retry : W → Delivery W
  unfolding rounds
  deliver_with_retry w = rounds (config.retry_attempts + 1) 0 none [] w
