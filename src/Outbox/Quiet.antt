-- ===== src/Outbox/Quiet.antt =====
-- What processing an activity of a client leaves alone: the activities, the outbox, what is sent, and
-- the actor and the id of the activity.
use oxifed.Base.{
  ◌≡◌, refl, sym, ap, ◌∙◌, String, Bool, true, false, some, ◌⊎◌, inl, inr, Result, ok, err, arith,
  Bool-cases, Result-cases, if◌then◌else◌, ◌==◌, eq_iff, eq_refl,
}
use oxifed.Vocab.{Value, Entries, entries, lookup}
use oxifed.Inbox.Types.{State, Action, pure, lift, reads, writes, ◌>>=◌}
use oxifed.Database.Documents.{Store}
use oxifed.Outbox.Entities.{set_value, set_absent}

pub lookup-set_value :
    (k : String) (v : Value) (es : Entries) → lookup k (entries (set_value k v es)) ≡ some v
unfolding set_value lookup
lookup-set_value k v Entries.end = let same = eq_refl k in ground arith
lookup-set_value k v (Entries.entry j w es) =
    let same = eq_refl k in ground (arith, lookup-set_value k v es)

pub lookup-set_other :
    (k : String) (v : Value) (i : String) (es : Entries)
    → (k == i) ≡ false
    → lookup i (entries (set_value k v es)) ≡ lookup i (entries es)
unfolding set_value lookup
lookup-set_other k v i Entries.end other = ground arith
lookup-set_other k v i (Entries.entry j w es) other = elim (Bool-cases (j == k)) [
  | inl same ↦
      let e : j ≡ k = (eq_iff j k).0 same in
      let other' : (j == i) ≡ false = ap (λ (t : String). t == i) e ∙ other in ground arith
  | inr differs ↦ ground (arith, lookup-set_other k v i es)
]

pub lookup-set_absent_other :
    (k : String) (v : Value) (i : String) (es : Entries)
    → (k == i) ≡ false
    → lookup i (entries (set_absent k v es)) ≡ lookup i (entries es)
unfolding set_absent
lookup-set_absent_other k v i es other = ground (arith, lookup-set_other k v i es other)

-- An action that leaves the activities, the outbox and the messages as they are.
pub record Quiet {A : Type 0} (m : Action Store A) : Type 0 where
  pub sent : (s : State Store) → (m s).1.sent ≡ s.sent
  pub activities : (s : State Store) → (m s).1.db.activities ≡ s.db.activities
  pub outbox : (s : State Store) → (m s).1.db.outbox ≡ s.db.outbox

pub bind-state :
    {A B : Type 0} (m : Action Store A) (k : A → Action Store B) (s : State Store)
    → ((a : A) × ((m s).0 ≡ ok a) × ((m >>= k) s ≡ k a (m s).1))
      ⊎ ((e : String) × ((m s).0 ≡ err e) × ((m >>= k) s ≡ (err e, (m s).1)))
bind-state m k s = elim (Result-cases (m s).0) [
  | inl (a, h) ↦ inl (a, h, ground arith)
  | inr (e, h) ↦ inr (e, h, ground arith)
]

pub pure-Quiet : {A : Type 0} (a : A) → Quiet (pure a)
pure-Quiet a = record { sent = λ s. refl; activities = λ s. refl; outbox = λ s. refl }

pub lift-Quiet : {A : Type 0} (r : Result String A) → Quiet (lift r)
lift-Quiet r = record { sent = λ s. refl; activities = λ s. refl; outbox = λ s. refl }

pub reads-Quiet : {A : Type 0} (f : Store → Result String A) → Quiet (reads f)
reads-Quiet f = record { sent = λ s. refl; activities = λ s. refl; outbox = λ s. refl }

pub writes-Quiet :
    (f : Store → Result String (Unit {0}) × Store)
    → ((s : Store) → (f s).1.activities ≡ s.activities)
    → ((s : Store) → (f s).1.outbox ≡ s.outbox)
    → Quiet (writes f)
writes-Quiet f activities outbox = record {
  sent = λ s. ground arith;
  activities = λ s. activities s.db;
  outbox = λ s. outbox s.db;
}

pub if-Quiet :
    {A : Type 0} (b : Bool) (m n : Action Store A) → Quiet m → Quiet n → Quiet (if b then m else n)
if-Quiet true m n q r = q
if-Quiet false m n q r = r

-- a part of the state that both actions leave is left by one after the other
bind-left :
    {A B C : Type 0} (m : Action Store A) (k : A → Action Store B) (part : State Store → C)
    → ((s : State Store) → part (m s).1 ≡ part s)
    → ((a : A) (s : State Store) → part (k a s).1 ≡ part s)
    → (s : State Store) → part ((m >>= k) s).1 ≡ part s
bind-left m k part first rest s = elim (bind-state m k s) [
  | inl (a, h, e) ↦ ap (λ r. part r.1) e ∙ rest a (m s).1 ∙ first s
  | inr (x, h, e) ↦ ap (λ r. part r.1) e ∙ first s
]

pub bind-Quiet :
    {A B : Type 0} (m : Action Store A) (k : A → Action Store B)
    → Quiet m
    → ((a : A) → Quiet (k a))
    → Quiet (m >>= k)
bind-Quiet m k first rest = record {
  sent = bind-left m k (λ s. s.sent) first.sent (λ a. (rest a).sent);
  activities = bind-left m k (λ s. s.db.activities) first.activities (λ a. (rest a).activities);
  outbox = bind-left m k (λ s. s.db.outbox) first.outbox (λ a. (rest a).outbox);
}

-- An action on an activity that is quiet, and whose result has the same actor and the same id.
pub record Prepares (es : Entries) (m : Action Store Entries) : Type 0 where
  pub quiet : Quiet m
  pub actor :
      (s : State Store) (es' : Entries)
      → (m s).0 ≡ ok es'
      → lookup "actor" (entries es') ≡ lookup "actor" (entries es)
  pub id :
      (s : State Store) (es' : Entries)
      → (m s).0 ≡ ok es'
      → lookup "id" (entries es') ≡ lookup "id" (entries es)

pub pure-Prepares : (es : Entries) → Prepares es (pure es)
pure-Prepares es = record {
  quiet = pure-Quiet es;
  actor = λ s es' h. ap (λ t. lookup "actor" (entries t)) (ground arith);
  id = λ s es' h. ap (λ t. lookup "id" (entries t)) (ground arith);
}

pub err-Prepares : (es : Entries) (e : String) → Prepares es (lift (err e))
err-Prepares es e = record {
  quiet = lift-Quiet (err e);
  actor = λ s es' h. ground arith;
  id = λ s es' h. ground arith;
}

pub bind-Prepares :
    {A : Type 0} (es : Entries) (m : Action Store A) (k : A → Action Store Entries)
    → Quiet m
    → ((a : A) → Prepares es (k a))
    → Prepares es (m >>= k)
bind-Prepares es m k first rest = record {
  quiet = bind-Quiet m k first (λ a. (rest a).quiet);
  actor = λ s es' h. elim (bind-state m k s) [
    | inl (a, g, e) ↦ (rest a).actor (m s).1 es' (ap (λ r. r.0) (sym e) ∙ h)
    | inr (x, g, e) ↦ absurd (ground arith)
  ];
  id = λ s es' h. elim (bind-state m k s) [
    | inl (a, g, e) ↦ (rest a).id (m s).1 es' (ap (λ r. r.0) (sym e) ∙ h)
    | inr (x, g, e) ↦ absurd (ground arith)
  ];
}
