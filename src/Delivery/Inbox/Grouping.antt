-- ===== src/Delivery/Inbox/Grouping.antt =====
-- Which targets a delivery groups together.
use oxifed.Base.{
  ◌≡◌, refl, sym, ◌∙◌, ap, subst, Bool, false, inl, inr, List, [], ◌∷◌, ◌++◌, All, keep, none, some,
  if◌then◌else◌, ◌==◌, eq_iff, arith, Bool-cases, Option-cases,
}
use oxifed.Vocab.{Url}
use oxifed.Delivery.{DeliveryTarget}
use oxifed.Delivery.Inbox.{endpoint, push_group, group_from, group_by_shared_inbox}

abbrev pub Groups : Type 0
Groups = List (Url × List DeliveryTarget)

-- the targets that are grouped under a URL, none if it has no group
unfoldable pub targets_of : Url → Groups → List DeliveryTarget
targets_of u [] = []
targets_of u ((v, targets) ∷ groups) = if v.as_str == u.as_str then targets else targets_of u groups

-- the shared inbox of a target, or its own inbox if it has none
abbrev pub destination : DeliveryTarget → Url
destination target = elim target.shared_inbox_url [ none ↦ target.inbox_url | some shared ↦ shared ]

-- does a target go to a URL
abbrev pub goes_to : Url → DeliveryTarget → Bool
goes_to u target = (destination target).as_str == u.as_str

-- the same, as the grouping finds it
abbrev ends_at : Url → DeliveryTarget → Bool
ends_at u target = (endpoint target).as_str == u.as_str

endpoint-destination : (target : DeliveryTarget) → endpoint target ≡ destination target
endpoint-destination target = elim (Option-cases target.shared_inbox_url) [
  | inl missing ↦ rw missing refl
  | inr (shared, given) ↦ rw given refl
]

keep-destination : (u : Url) (ts : List DeliveryTarget) → keep (ends_at u) ts ≡ keep (goes_to u) ts
keep-destination u [] = refl
keep-destination u (t ∷ ts) =
    let same : ends_at u t ≡ goes_to u t =
      ap (λ (v : Url). v.as_str == u.as_str) (endpoint-destination t) in
    rw same (ground (arith, keep-destination u ts))

append_nil : (ts : List DeliveryTarget) → ts ++ [] ≡ ts
append_nil [] = refl
append_nil (t ∷ ts) = ap (λ r. t ∷ r) (append_nil ts)

append_assoc : (xs ys zs : List DeliveryTarget) → (xs ++ ys) ++ zs ≡ xs ++ (ys ++ zs)
append_assoc [] ys zs = refl
append_assoc (x ∷ xs) ys zs = ap (λ r. x ∷ r) (append_assoc xs ys zs)

targets_of-push_group :
    (u : Url) (t : DeliveryTarget) (gs : Groups)
    → targets_of u (push_group t gs) ≡ targets_of u gs ++ keep (ends_at u) (t ∷ [])
unfolding targets_of push_group
targets_of-push_group u t [] = refl
targets_of-push_group u t ((v, ts) ∷ gs) = elim (Bool-cases ((endpoint t).as_str == v.as_str)) [
  | inl same ↦
      let e = (eq_iff (endpoint t).as_str v.as_str).0 same in
      rw (same, push_group)
        (rw (e, keep)
          (elim (Bool-cases (v.as_str == u.as_str)) [
            | inl found ↦ rw (found, targets_of) refl
            | inr missed ↦ rw (missed, targets_of) (sym (append_nil (targets_of u gs)))
          ]))
  | inr differs ↦
      rw (differs, push_group)
        (elim (Bool-cases (v.as_str == u.as_str)) [
          | inl found ↦
              let e = (eq_iff v.as_str u.as_str).0 found in
              rw (found, targets_of)
                (rw (subst (λ x. ((endpoint t).as_str == x) ≡ false) e differs, keep)
                  (sym (append_nil ts)))
          | inr missed ↦ rw (missed, targets_of) (targets_of-push_group u t gs)
        ])
]

targets_of-group_from :
    (u : Url) (gs : Groups) (ts : List DeliveryTarget)
    → targets_of u (group_from gs ts) ≡ targets_of u gs ++ keep (ends_at u) ts
unfolding group_from
targets_of-group_from u gs [] = sym (append_nil (targets_of u gs))
targets_of-group_from u gs (t ∷ ts) =
    targets_of-group_from u (push_group t gs) ts
    ∙ ap (λ r. r ++ keep (ends_at u) ts) (targets_of-push_group u t gs)
    ∙ append_assoc (targets_of u gs) (keep (ends_at u) (t ∷ [])) (keep (ends_at u) ts)
    ∙ ap (λ r. targets_of u gs ++ r) (keep_head u t ts)
  where
    keep_head :
        (u : Url) (t : DeliveryTarget) (ts : List DeliveryTarget)
        → keep (ends_at u) (t ∷ []) ++ keep (ends_at u) ts ≡ keep (ends_at u) (t ∷ ts)
    keep_head u t ts = ground arith

-- The URLs of the groups are pairwise different.
abbrev pub IsDistinct : Groups → Type 0
IsDistinct [] = Unit {0}
IsDistinct ((u, _) ∷ gs) = All (λ g. (g.0.as_str == u.as_str) ≡ false) gs × IsDistinct gs

-- a group that is pushed to keeps its URL, and a new one has that of the target
push_group-All :
    (u : Url) (t : DeliveryTarget) (gs : Groups)
    → ends_at u t ≡ false
    → All (λ g. (g.0.as_str == u.as_str) ≡ false) gs
    → All (λ g. (g.0.as_str == u.as_str) ≡ false) (push_group t gs)
unfolding push_group
push_group-All u t [] other h = (other, tt)
push_group-All u t ((v, ts) ∷ gs) other (p, h) =
    elim (Bool-cases ((endpoint t).as_str == v.as_str)) [
      | inl same ↦ rw (same, push_group) (p, h)
      | inr differs ↦ rw (differs, push_group) (p, push_group-All u t gs other h)
    ]

push_group-IsDistinct :
    (t : DeliveryTarget) (gs : Groups) → IsDistinct gs → IsDistinct (push_group t gs)
unfolding push_group
push_group-IsDistinct t [] d = (tt, tt)
push_group-IsDistinct t ((v, ts) ∷ gs) (p, d) =
    elim (Bool-cases ((endpoint t).as_str == v.as_str)) [
      | inl same ↦ rw (same, push_group) (p, d)
      | inr differs ↦
          rw (differs, push_group) (push_group-All v t gs differs p, push_group-IsDistinct t gs d)
    ]

group_from-IsDistinct :
    (gs : Groups) (ts : List DeliveryTarget) → IsDistinct gs → IsDistinct (group_from gs ts)
unfolding group_from
group_from-IsDistinct gs [] d = d
group_from-IsDistinct gs (t ∷ ts) d =
    group_from-IsDistinct (push_group t gs) ts (push_group-IsDistinct t gs d)

-- Grouping has one group for a URL, and the group of a URL has exactly the targets that go to it
-- (to their shared inbox if they have one, else to their own), in their order.
pub group_by_shared_inbox-groups :
    (targets : List DeliveryTarget)
    → IsDistinct (group_by_shared_inbox targets)
      × ((u : Url) → targets_of u (group_by_shared_inbox targets) ≡ keep (goes_to u) targets)
unfolding group_by_shared_inbox targets_of
group_by_shared_inbox-groups targets = (
  group_from-IsDistinct [] targets tt,
  λ u. targets_of-group_from u [] targets ∙ keep-destination u targets,
)
