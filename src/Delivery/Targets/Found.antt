-- ===== src/Delivery/Targets/Found.antt =====
-- Who is delivered to, and how a delivery of the domain service ends.
use oxifed.Base.{
  ◌+◌, ◌≡◌, ◌≢◌, refl, sym, ◌∙◌, subst, String, not, Option, none, some, inl, inr, List, [], ◌∷◌,
  ok, All, keep, length, ◌==◌, eq_iff, arith, Result-cases, Option-cases, Bool-cases, length-append,
}
use oxifed.Vocab.{Url, UrlLib, ObjectOrLink, Activity}
use oxifed.Delivery.{DeliveryStats, DeliveryTarget, Remote}
use oxifed.Delivery.Inbox.{endpoint, push_group, group_from, group_by_shared_inbox}
use oxifed.Delivery.Pool.{Pool, new_pool, Steps}
use oxifed.Delivery.Pool.Counts.{IsDone, waiting_targets, Steps-counts}
use oxifed.Delivery.Targets.{
  process_addressing_field, process_fields, with_followers, targets_from, without_actor,
  extract_recipients, Delivers, delivered,
}

push_group-counts :
    (t : DeliveryTarget) (gs : List (Url × List DeliveryTarget))
    → waiting_targets (push_group t gs) ≡ waiting_targets gs + 1
unfolding push_group
push_group-counts t [] = refl
push_group-counts t ((v, ts) ∷ gs) = elim (Bool-cases ((endpoint t).as_str == v.as_str)) [
  | inl same ↦ rw (same, push_group) (omega (arith, length-append ts (t ∷ [])))
  | inr differs ↦ rw (differs, push_group) (omega (arith, push_group-counts t gs))
]

group_from-counts :
    (gs : List (Url × List DeliveryTarget)) (ts : List DeliveryTarget)
    → waiting_targets (group_from gs ts) ≡ waiting_targets gs + length ts
unfolding group_from
group_from-counts gs [] = omega arith
group_from-counts gs (t ∷ ts) =
    omega (arith, group_from-counts (push_group t gs) ts, push_group-counts t gs)

group_by_shared_inbox-counts :
    (ts : List DeliveryTarget) → waiting_targets (group_by_shared_inbox ts) ≡ length ts
unfolding group_by_shared_inbox
group_by_shared_inbox-counts ts = omega (arith, group_from-counts [] ts)

-- a delivery reaches every target of its groups
Steps-targets :
    (ts : List DeliveryTarget) (p : Pool)
    → Steps (new_pool (group_by_shared_inbox ts)) p
    → IsDone p
    → (p.stats.total_attempts ≡ length ts)
      × (p.stats.total_attempts ≡ p.stats.successful_deliveries + p.stats.failed_deliveries)
Steps-targets ts p steps done =
    let (total, outcomes) = (Steps-counts (group_by_shared_inbox ts) p steps).2 done in
    (total ∙ group_by_shared_inbox-counts ts, outcomes)

module _ (urls : UrlLib) {W : Type 0} (remote : Remote W) where
  -- a target as it is made: a recipient that is itself taken for an inbox
  abbrev pub IsInbox : DeliveryTarget → Type 0
  IsInbox t = (urls.parse t.actor_id ≡ some t.inbox_url) × (t.shared_inbox_url ≡ none)

  targets_from-IsInbox : (set : List String) → All IsInbox (targets_from urls remote set)
  unfolding targets_from
  targets_from-IsInbox [] = tt
  targets_from-IsInbox (u ∷ set) = elim (Option-cases (urls.parse u)) [
    | inl broken ↦ rw (broken, targets_from) (targets_from-IsInbox set)
    | inr (inbox, parsed) ↦ rw (parsed, targets_from) ((parsed, refl), targets_from-IsInbox set)
  ]

  abbrev pub IsOther : Url → DeliveryTarget → Type 0
  IsOther actor t = t.actor_id ≢ actor.as_str

  kept-All :
      (actor : Url) (ts : List DeliveryTarget)
      → All IsInbox ts
      → All
          (λ t. IsInbox t × IsOther actor t)
          (keep (λ (t : DeliveryTarget). not (t.actor_id == actor.as_str)) ts)
  kept-All actor [] h = tt
  kept-All actor (t ∷ ts) (p, h) = elim (Bool-cases (t.actor_id == actor.as_str)) [
    | inl same ↦ rw (same, keep) (kept-All actor ts h)
    | inr differs ↦
        rw (differs, keep)
          ((p, λ e. cc (differs, (eq_iff t.actor_id actor.as_str).1 e)), kept-All actor ts h)
  ]

  -- what is left of the targets of an activity
  abbrev pub AreTargets : Option ObjectOrLink → List DeliveryTarget → Type 0
  AreTargets (some (ObjectOrLink.url actor)) ts = All (λ t. IsInbox t × IsOther actor t) ts
  AreTargets _ ts = All IsInbox ts

  without_actor-AreTargets :
      (actor : Option ObjectOrLink) (ts : List DeliveryTarget)
      → All IsInbox ts
      → AreTargets actor (without_actor urls remote actor ts)
  unfolding without_actor
  without_actor-AreTargets none ts h = h
  without_actor-AreTargets (some (ObjectOrLink.url u)) ts h = kept-All u ts h
  without_actor-AreTargets (some (ObjectOrLink.object o)) ts h = h
  without_actor-AreTargets (some (ObjectOrLink.link l)) ts h = h

  extract_recipients-eq-ok :
      (iterate : List String → List String) (activity : Activity) (username : String) (w : W)
      (ts : List DeliveryTarget)
      → (extract_recipients urls remote iterate activity username w).0 ≡ ok ts
      → (set : List String) × (ts
          ≡ without_actor urls remote activity.actor (targets_from urls remote (iterate set)))
  unfolding extract_recipients
  extract_recipients-eq-ok iterate activity username w ts h =
      let named =
        process_addressing_field activity.target
          (process_addressing_field activity.object (process_addressing_field activity.actor [])) in
      elim (Result-cases
        (process_fields urls remote ("to" ∷ "cc" ∷ "bcc" ∷ "bto" ∷ "audience" ∷ [])
          activity.additional_properties named w).0) [
            | inr (e, failed) ↦ absurd (ground arith)
            | inl (set, found) ↦ elim (Result-cases (with_followers urls remote username set)) [
              | inr (e, failed) ↦ absurd (ground arith)
              | inl (set', added) ↦ (set', ground arith)
            ]
          ]

  -- Every target that is delivered to is a recipient taken for its own inbox, without a shared
  -- inbox, and none is the actor of the activity, if the actor is given by its URL.
  pub extract_recipients-AreTargets :
      (iterate : List String → List String) (activity : Activity) (username : String) (w : W)
      (ts : List DeliveryTarget)
      → (extract_recipients urls remote iterate activity username w).0 ≡ ok ts
      → AreTargets activity.actor ts
  extract_recipients-AreTargets iterate activity username w ts h =
      let (set, e) = extract_recipients-eq-ok iterate activity username w ts h in
      subst (AreTargets activity.actor) (sym e) (
        without_actor-AreTargets activity.actor (targets_from urls remote (iterate set))
          (targets_from-IsInbox (iterate set)))

  -- However the deliveries of an activity are interleaved, its statistics count every target once,
  -- as a success or as a failure.
  pub Delivers-counts :
      (iterate : List String → List String) (activity : Activity) (username : String) (w : W)
      (stats : DeliveryStats)
      → Delivers urls remote iterate activity username w (ok stats)
      → (ts : List DeliveryTarget) × ((extract_recipients urls remote iterate activity username w).0
          ≡ ok ts)
        × (stats.total_attempts ≡ length ts)
        × (stats.total_attempts ≡ stats.successful_deliveries + stats.failed_deliveries)
  Delivers-counts iterate activity username w stats (delivered t ts p found steps done) =
      let (total, outcomes) = Steps-targets (t ∷ ts) p steps done in
      (t ∷ ts, found, total, outcomes)
