-- ===== src/Outbox/Completed.antt =====
-- The actor, the id and the type of an activity that `process_client_activity` completes.
use oxifed.Base.{
  ◌≡◌, refl, ap, ◌∙◌, String, some, inl, inr, ok, arith, Bool-cases, Option-cases, ◌==◌, eq_iff,
}
use oxifed.Vocab.{Value, string, Entries, entries, lookup}
use oxifed.Outbox.Entities.{set_value, set_absent}
use oxifed.Outbox.Activities.{Outbox}
use oxifed.Outbox.Client.{is_text, with_actor, id_or, new_activity_id, complete_activity}
use oxifed.Outbox.Quiet.{lookup-set_value, lookup-set_other, lookup-set_absent_other}

-- the actor that `with_actor` leaves is the user
pub with_actor-actor :
    (actor_id : String) (es es' : Entries)
    → with_actor actor_id es ≡ ok es'
    → lookup "actor" (entries es') ≡ some (string actor_id)
unfolding with_actor
with_actor-actor actor_id es es' h = elim (Option-cases (lookup "actor" (entries es))) [
  | inl missing ↦
      let set = lookup-set_value "actor" (string actor_id) es in
      let e : es' ≡ set_value "actor" (string actor_id) es = ground arith in
      ap (λ t. lookup "actor" (entries t)) e ∙ set
  | inr (v, there) ↦ own v there
]
  where
    own :
        (v : Value)
        → lookup "actor" (entries es) ≡ some v
        → lookup "actor" (entries es') ≡ some (string actor_id)
    own (string t) there = elim (Bool-cases (t == actor_id)) [
      | inl same ↦
          let e : es' ≡ es = ground arith in
          ap (λ d. lookup "actor" (entries d)) e
          ∙ there
          ∙ ap (λ u. some (string u)) ((eq_iff t actor_id).0 same)
      | inr other ↦ absurd (ground arith)
    ]
    own _ there = absurd (ground arith)

pub id_or-same :
    (new : String) (es es' : Entries)
    → lookup "id" (entries es') ≡ lookup "id" (entries es)
    → id_or new es' ≡ id_or new es
unfolding id_or
id_or-same new es es' same = rw (same, id_or) refl

pub complete-actor :
    (x : Outbox) (es : Entries)
    → lookup "actor" (entries (complete_activity x es)) ≡ lookup "actor" (entries es)
unfolding complete_activity
complete-actor x es =
    let new = string (new_activity_id x) in
    lookup-set_absent_other "published" (string (x.env.to_rfc3339 x.env.now)) "actor"
      (set_absent "id" new es) refl
    ∙ lookup-set_absent_other "id" new "actor" es refl

set_absent-id :
    (new : String) (es : Entries) → id_or "" (set_absent "id" (string new) es) ≡ id_or new es
unfolding id_or set_absent
set_absent-id new es = elim (Option-cases (lookup "id" (entries es))) [
  | inl missing ↦ let set = lookup-set_value "id" (string new) es in ground arith
  | inr (v, there) ↦ ground arith
]

pub complete-id :
    (x : Outbox) (es : Entries) → id_or "" (complete_activity x es) ≡ id_or (new_activity_id x) es
unfolding complete_activity
complete-id x es =
    let identified = set_absent "id" (string (new_activity_id x)) es in
    let time = string (x.env.to_rfc3339 x.env.now) in
    id_or-same "" identified (set_absent "published" time identified)
      (lookup-set_absent_other "published" time "id" identified refl)
    ∙ set_absent-id (new_activity_id x) es

pub with_actor-type :
    (actor_id : String) (es es' : Entries)
    → with_actor actor_id es ≡ ok es'
    → lookup "type" (entries es') ≡ lookup "type" (entries es)
unfolding with_actor
with_actor-type actor_id es es' h = elim (Option-cases (lookup "actor" (entries es))) [
  | inl missing ↦
      let e : es' ≡ set_value "actor" (string actor_id) es = ground arith in
      ap (λ t. lookup "type" (entries t)) e
      ∙ lookup-set_other "actor" (string actor_id) "type" es refl
  | inr (v, there) ↦ elim (Bool-cases (is_text actor_id v)) [
    | inl same ↦ let e : es' ≡ es = ground arith in ap (λ t. lookup "type" (entries t)) e
    | inr other ↦ absurd (ground arith)
  ]
]

pub complete-type :
    (x : Outbox) (es : Entries)
    → lookup "type" (entries (complete_activity x es)) ≡ lookup "type" (entries es)
unfolding complete_activity
complete-type x es =
    let new = string (new_activity_id x) in
    lookup-set_absent_other "published" (string (x.env.to_rfc3339 x.env.now)) "type"
      (set_absent "id" new es) refl
    ∙ lookup-set_absent_other "id" new "type" es refl
