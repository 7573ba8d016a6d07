-- ===== src/Commands/Actors/Keeping.antt =====
-- Commands that keep the actors well named, and the rules for the parts of a command.
use oxifed.Base.{◌≡◌, String, Option, ◌⊎◌, inl, inr, Result, ok, err, arith, Result-cases}
use oxifed.Database.Documents.{Store}
use oxifed.Commands.Domains.{RabbitMqError}
use oxifed.Commands.Persons.{unless_found, in_known_domain}
use oxifed.Commands.Services.{Services, Command, lift, reads, writes, ◌>>=◌}
use oxifed.Commands.Actors.Stored.{IsWellNamed}

pub record Keeps {A : Type 0} (m : Command A) : Type 0 where
  pub kept : (s : Store) → IsWellNamed s.actors → IsWellNamed (m s).1.actors

pub lift-Keeps : {A : Type 0} (r : Result RabbitMqError A) → Keeps (lift r)
lift-Keeps r = record { kept = λ s v. v }

pub reads-state :
    {A : Type 0} (e : String → RabbitMqError) (f : Store → Result String A) (s : Store)
    → (reads e f s).1 ≡ s
reads-state e f s = ground arith

pub writes-state :
    (e : String → RabbitMqError) (f : Store → Result String (Unit {0}) × Store) (s : Store)
    → (writes e f s).1 ≡ (f s).1
writes-state e f s = ground arith

pub bind-state :
    {A B : Type 0} (m : Command A) (k : A → Command B) (s : Store)
    → ((a : A) × ((m s).0 ≡ ok a) × (((m >>= k) s).1 ≡ (k a (m s).1).1))
      ⊎ (((m >>= k) s).1 ≡ (m s).1)
bind-state m k s = elim (Result-cases (m s).0) [
  | inl (a, h) ↦ inl (a, h, ground arith)
  | inr (e, h) ↦ inr (ground arith)
]

pub reads-bind_ok :
    {A B : Type 0} (e : String → RabbitMqError) (f : Store → Result String A) (k : A → Command B)
    (s : Store) (a : A)
    → f s ≡ ok a
    → (reads e f >>= k) s ≡ k a s
reads-bind_ok e f k s a h = ground arith

pub reads-bind_err :
    {A B : Type 0} (e : String → RabbitMqError) (f : Store → Result String A) (k : A → Command B)
    (s : Store) (x : String)
    → f s ≡ err x
    → (reads e f >>= k) s ≡ (err (e x), s)
reads-bind_err e f k s x h = ground arith

unless_found-state :
    {A : Type 0} (o : Option A) (e : RabbitMqError) (s : Store) → (unless_found o e s).1 ≡ s
unless_found-state o e s = ground arith

pub in_known_domain-state :
    (x : Services) (domain : String) (s : Store) → (in_known_domain x domain s).1 ≡ s
in_known_domain-state x domain s = ground arith

pub reads-Keeps :
    {A : Type 0} (e : String → RabbitMqError) (f : Store → Result String A) → Keeps (reads e f)
reads-Keeps e f = record { kept = λ s v. rw (reads-state e f s) v }

pub bind-Keeps :
    {A B : Type 0} (m : Command A) (k : A → Command B)
    → Keeps m
    → ((a : A) → Keeps (k a))
    → Keeps (m >>= k)
bind-Keeps m k first rest = record {
  kept = λ s v. elim (bind-state m k s) [
    | inl (a, h, e) ↦ rw e ((rest a).kept (m s).1 (first.kept s v))
    | inr e ↦ rw e (first.kept s v)
  ];
}

-- a write is judged by the store after it
pub writes-Keeps :
    (e : String → RabbitMqError) (f : Store → Result String (Unit {0}) × Store)
    → ((s : Store) → IsWellNamed s.actors → IsWellNamed (f s).1.actors)
    → Keeps (writes e f)
writes-Keeps e f kept = record { kept = λ s v. rw (writes-state e f s) (kept s v) }

pub in_known_domain-Keeps : (x : Services) (domain : String) → Keeps (in_known_domain x domain)
in_known_domain-Keeps x domain = record { kept = λ s v. rw (in_known_domain-state x domain s) v }

pub unless_found-Keeps : {A : Type 0} (o : Option A) (e : RabbitMqError) → Keeps (unless_found o e)
unless_found-Keeps o e = record { kept = λ s v. rw (unless_found-state o e s) v }

pub ruleset keeping =
    (bind-Keeps, lift-Keeps, reads-Keeps, in_known_domain-Keeps, unless_found-Keeps)
