-- ===== src/Delivery/Pool/Counts.antt =====
-- Whatever the order of the futures: the pool ends, and every target is counted once.
use oxifed.Base.{
  ℕ, zero, suc, ◌+◌, ◌-◌, ◌*◌, ◌≤◌, ◌<◌, ◌≡◌, refl, Bool, ◌⊎◌, inl, inr, List, [], ◌∷◌, ◌++◌,
  Result, ok, length, All, arith,
}
use oxifed.Vocab.{Url}
use oxifed.Client.{ClientError}
use oxifed.Delivery.{DeliveryStats, DeliveryTarget, update_stats}
use oxifed.Delivery.Inbox.{returned, again, round}
use oxifed.Delivery.Pool.{
  Running, Pool, new_pool, Step, start, finish, retry, take_result, Steps, stop, step,
}

abbrev pub waiting_targets : List (Url × List DeliveryTarget) → ℕ
waiting_targets [] = 0
waiting_targets ((u, ts) ∷ gs) = length ts + waiting_targets gs

abbrev pub running_targets : List Running → ℕ
running_targets [] = 0
running_targets (r ∷ rs) = length r.targets + running_targets rs

abbrev pub ready_targets : List (ℕ × ℕ × Bool) → ℕ
ready_targets [] = 0
ready_targets ((s, f, _) ∷ rs) = s + f + ready_targets rs

-- what is left to do: at most three attempts, a start and a result to take for each group
abbrev pub weight : List Running → ℕ
weight [] = 0
weight (r ∷ rs) = 4 - r.attempts + weight rs

abbrev pub work : Pool → ℕ
work p = 5 * length p.waiting + weight p.running + length p.ready

-- no future has made its three attempts
abbrev pub HasTries : List Running → Type 0
HasTries rs = All (λ (r : Running). r.attempts < 3) rs

-- the state of a pool that has n targets
pub record IsCounted (n : ℕ) (p : Pool) : Type 0 where
  pub targets :
      waiting_targets p.waiting
        + running_targets p.running
        + ready_targets p.ready
        + p.stats.total_attempts
      ≡ n
  pub outcomes : p.stats.total_attempts ≡ p.stats.successful_deliveries + p.stats.failed_deliveries
  pub concurrent : length p.running + length p.ready ≤ 50
  pub tries : HasTries p.running

waiting-split :
    (before : List (Url × List DeliveryTarget)) (g : Url × List DeliveryTarget)
    (after : List (Url × List DeliveryTarget))
    → waiting_targets (before ++ g ∷ after) ≡ length g.1 + waiting_targets (before ++ after)
waiting-split [] g after = refl
waiting-split (b ∷ before) g after = omega (arith, waiting-split before g after)

running-split :
    (before : List Running) (r : Running) (after : List Running)
    → running_targets (before ++ r ∷ after) ≡ length r.targets + running_targets (before ++ after)
running-split [] r after = refl
running-split (b ∷ before) r after = omega (arith, running-split before r after)

ready-split :
    (before : List (ℕ × ℕ × Bool)) (x : ℕ × ℕ × Bool) (after : List (ℕ × ℕ × Bool))
    → ready_targets (before ++ x ∷ after) ≡ x.0 + x.1 + ready_targets (before ++ after)
ready-split [] x after = refl
ready-split (b ∷ before) x after = omega (arith, ready-split before x after)

length-split {ℓ} :
    {A : Type ℓ} (before : List A) (x : A) (after : List A)
    → length (before ++ x ∷ after) ≡ suc (length (before ++ after))
length-split [] x after = refl
length-split (b ∷ before) x after = omega (arith, length-split before x after)

weight-split :
    (before : List Running) (r : Running) (after : List Running)
    → weight (before ++ r ∷ after) ≡ 4 - r.attempts + weight (before ++ after)
weight-split [] r after = refl
weight-split (b ∷ before) r after = omega (arith, weight-split before r after)

All-split :
    (before : List Running) (r : Running) (after : List Running)
    → HasTries (before ++ r ∷ after)
    → (r.attempts < 3) × HasTries (before ++ after)
All-split [] r after (p, ps) = (p, ps)
All-split (b ∷ before) r after (p, ps) = let (q, qs) = All-split before r after ps in (q, (p, qs))

All-insert :
    (before : List Running) (r : Running) (after : List Running)
    → r.attempts < 3
    → HasTries (before ++ after)
    → HasTries (before ++ r ∷ after)
All-insert [] r after p ps = (p, ps)
All-insert (b ∷ before) r after p (q, qs) = (q, All-insert before r after p qs)

-- a future returns each of its targets once, and tries again only before the third attempt
round-returned :
    (ts : List DeliveryTarget) (n : ℕ) (answer : Result ClientError (Unit {0})) (x : ℕ × ℕ × Bool)
    → round ts n answer ≡ returned x
    → x.0 + x.1 ≡ length ts
unfolding round
round-returned ts n answer x h = ground arith

round-again :
    (ts : List DeliveryTarget) (n : ℕ) (answer : Result ClientError (Unit {0})) (delay : ℕ)
    → round ts n answer ≡ again delay
    → n < 3
unfolding round
round-again ts n answer delay h = ground arith

Step-IsCounted : (n : ℕ) {p q : Pool} → Step p q → IsCounted n p → IsCounted n q
unfolding update_stats
Step-IsCounted n (start (u, ts) before after p h) c = record {
  targets = omega (arith, c.targets, waiting-split before (u, ts) after);
  outcomes = c.outcomes;
  concurrent = omega arith;
  tries = (omega arith, c.tries);
}
Step-IsCounted n (finish r before after p answer x h) c = record {
  targets = omega (
    arith,
    c.targets,
    running-split before r after,
    round-returned r.targets (r.attempts + 1) answer x h,
  );
  outcomes = c.outcomes;
  concurrent = omega (arith, c.concurrent, length-split before r after);
  tries = (All-split before r after c.tries).1;
}
Step-IsCounted n (retry r before after p answer delay h) c = record {
  targets = omega (
    arith,
    c.targets,
    running-split before r after,
    running-split before (record r { attempts = r.attempts + 1 }) after,
  );
  outcomes = c.outcomes;
  concurrent = omega (
    arith,
    c.concurrent,
    length-split before r after,
    length-split before (record r { attempts = r.attempts + 1 }) after,
  );
  tries =
      All-insert before (record r { attempts = r.attempts + 1 }) after
        (round-again r.targets (r.attempts + 1) answer delay h)
        (All-split before r after c.tries).1;
}
Step-IsCounted n (take_result (s, f, b) before after p) c = record {
  targets = omega (arith, c.targets, ready-split before (s, f, b) after);
  outcomes = omega (arith, c.outcomes);
  concurrent = omega (arith, c.concurrent, length-split before (s, f, b) after);
  tries = c.tries;
}

Step-decreases : (n : ℕ) {p q : Pool} → Step p q → IsCounted n p → work q < work p
Step-decreases n (start g before after p h) c = omega (arith, length-split before g after)
Step-decreases n (finish r before after p answer x h) c =
    omega (arith, weight-split before r after, (All-split before r after c.tries).0)
Step-decreases n (retry r before after p answer delay h) c = omega (
  arith,
  weight-split before r after,
  weight-split before (record r { attempts = r.attempts + 1 }) after,
  (All-split before r after c.tries).0,
)
Step-decreases n (take_result x before after p) c = omega (arith, length-split before x after)

new_pool-IsCounted :
    (groups : List (Url × List DeliveryTarget))
    → IsCounted (waiting_targets groups) (new_pool groups)
new_pool-IsCounted groups = record {
  targets = omega arith;
  outcomes = refl;
  concurrent = omega arith;
  tries = tt;
}

unfoldable pub steps_count : {p q : Pool} → Steps p q → ℕ
steps_count stop = 0
steps_count (step one rest) = suc (steps_count rest)

Steps-IsCounted :
    (n : ℕ) {p q : Pool} (steps : Steps p q)
    → IsCounted n p
    → IsCounted n q × (steps_count steps + work q ≤ work p)
unfolding steps_count
Steps-IsCounted n stop c = (c, omega arith)
Steps-IsCounted n (step {q} one rest) c =
    let (done, bound) = Steps-IsCounted n rest (Step-IsCounted n one c) in
    (done, omega (arith, bound, Step-decreases n one c))

abbrev pub IsDone : Pool → Type 0
IsDone p = (p.waiting ≡ []) × (p.running ≡ []) × (p.ready ≡ [])

-- From the groups of a delivery, in whatever order the futures make progress and whatever is
-- answered: there are at most five steps for a group, never more than 50 futures at a time, and
-- when nothing is left the statistics count every target once, as a success or as a failure.
pub Steps-counts :
    (groups : List (Url × List DeliveryTarget)) (p : Pool) (steps : Steps (new_pool groups) p)
    → (steps_count steps ≤ 5 * length groups)
      × (length p.running + length p.ready ≤ 50)
      × (IsDone p
          → (p.stats.total_attempts ≡ waiting_targets groups)
            × (p.stats.total_attempts ≡ p.stats.successful_deliveries + p.stats.failed_deliveries))
Steps-counts groups p steps =
    let (c, bound) = Steps-IsCounted (waiting_targets groups) steps (new_pool-IsCounted groups) in
    (omega (arith, bound), c.concurrent, λ done. (ground (arith, c.targets), c.outcomes))

progress_of :
    (w : List (Url × List DeliveryTarget)) (rs : List Running) (xs : List (ℕ × ℕ × Bool))
    (st : DeliveryStats)
    → let p : Pool = record { waiting = w; running = rs; ready = xs; stats = st } in
      IsDone p ⊎ ((q : Pool) × Step p q)
unfolding round
progress_of w rs (x ∷ xs) st =
    inr (_, take_result x [] xs (record { waiting = w; running = rs; ready = []; stats = st }))
progress_of w (r ∷ rs) [] st = inr (
  _,
  finish r [] rs (record { waiting = w; running = []; ready = []; stats = st }) (ok tt) _ refl,
)
progress_of (g ∷ gs) [] [] st =
    inr (
      _,
      start g [] gs (record { waiting = []; running = []; ready = []; stats = st }) (omega arith),
    )
progress_of [] [] [] st = inl (refl, refl, refl)

-- No run from a pool goes on for ever, whichever steps are made and whatever is answered.
pub data Ends : Pool → Type 0 where
  ends : {p : Pool} → ((q : Pool) → Step p q → Ends q) → Ends p

-- at most `n` steps are left
Ends-below : (targets n : ℕ) (p : Pool) → IsCounted targets p → work p < n → Ends p
Ends-below targets zero p c h = absurd (omega arith)
Ends-below targets (suc n) p c h = ends (λ q one.
    Ends-below targets n q (Step-IsCounted targets one c)
      (omega (arith, h, Step-decreases targets one c)))

-- Every delivery ends: whichever futures make progress and whatever is answered to their attempts,
-- no run goes on for ever, and where no step is left, nothing waits, runs or is to be taken, and the
-- statistics count every target once.
pub new_pool-Ends :
    (groups : List (Url × List DeliveryTarget))
    → Ends (new_pool groups)
      × ((p : Pool)
          → Steps (new_pool groups) p
          → ((q : Pool) → Step p q → ⊥)
          → IsDone p × (p.stats.total_attempts ≡ waiting_targets groups))
new_pool-Ends groups = (
  Ends-below (waiting_targets groups) (suc (work (new_pool groups))) (new_pool groups)
      (new_pool-IsCounted groups) (omega arith),
  λ p steps stuck. elim (progress_of p.waiting p.running p.ready p.stats) [
    | inr (q, one) ↦ absurd (stuck q one)
    | inl done ↦ (done, ((Steps-counts groups p steps).2 done).0)
  ],
)
