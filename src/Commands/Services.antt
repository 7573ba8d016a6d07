-- ===== src/Commands/Services.antt =====
-- What the commands of rabbitmq.rs use: the database, the crates, and the environment of one message.
use oxifed.Base.{ℕ, ℤ, String, Result, ok, err, ◌≡◌, inl, inr, arith, Result-cases}
use oxifed.Vocab.{Value, dictionary, Entries, UrlLib}
use oxifed.Inbox.Types.{Environment}
use oxifed.Pki.{KeyCrates}
use oxifed.Database.Documents.{Store}
use oxifed.Database.Manager.{Drivers}
use oxifed.Commands.Domains.{RabbitMqError}

pub record Services : Type 0 where
  pub drivers : Drivers
  pub crates : KeyCrates
  pub urls : UrlLib
  pub env : Environment
  -- `DateTime::timestamp_millis`
  pub timestamp_millis : ℕ → ℤ
  -- `mongodb::bson::to_document`
  pub to_document : Value → Result String Value

-- `to_document(&v).unwrap_or_default()`
abbrev pub document_or_default : Services → Value → Value
document_or_default x v = elim (x.to_document v) [ ok d ↦ d | err _ ↦ dictionary Entries.end ]

-- A command on the collections: what it has written stays when it fails.
abbrev pub Command : Type 0 → Type 0
Command A = Store → Result RabbitMqError A × Store

abbrev pub lift {ℓ} : {A : Type ℓ} → Result RabbitMqError A → Store → Result RabbitMqError A × Store
lift r s = (r, s)

infixl 5 ◌>>=◌ ◌>>◌
abbrev pub ◌>>=◌ : {A B : Type 0} → Command A → (A → Command B) → Command B
◌>>=◌ m f s = let (r, s') = m s in elim r [ ok a ↦ f a s' | err e ↦ (err e, s') ]

abbrev pub ◌>>◌ : {B : Type 0} → Command (Unit {0}) → Command B → Command B
m >> k = m >>= λ _. k

abbrev pub reads :
    {A : Type 0} (as_error : String → RabbitMqError) → (Store → Result String A) → Command A
reads as_error f s = elim (f s) [ ok a ↦ (ok a, s) | err e ↦ (err (as_error e), s) ]

abbrev pub writes :
    (as_error : String → RabbitMqError)
    → (Store → Result String (Unit {0}) × Store)
    → Command (Unit {0})
writes as_error f s =
    let (r, s') = f s in elim r [ ok _ ↦ (ok tt, s') | err e ↦ (err (as_error e), s') ]

-- a write whose error is only logged
abbrev pub attempts : (Store → Result String (Unit {0}) × Store) → Command (Unit {0})
attempts f s = (ok tt, (f s).1)

pub >>=-eq-ok :
    {A B : Type 0} (m : Command A) (k : A → Command B) (s s' : Store) (b : B)
    → (m >>= k) s ≡ (ok b, s')
    → (a : A) × ((m s).0 ≡ ok a) × (k a (m s).1 ≡ (ok b, s'))
>>=-eq-ok m k s s' b h = elim (Result-cases (m s).0) [
  | inl (a, done) ↦ (a, done, ground arith)
  | inr (e, failed) ↦ absurd (ground arith)
]

pub writes-eq-ok :
    (e : String → RabbitMqError) (f : Store → Result String (Unit {0}) × Store) (s : Store)
    (u : Unit {0})
    → (writes e f s).0 ≡ ok u
    → ((f s).0 ≡ ok tt) × ((writes e f s).1 ≡ (f s).1)
writes-eq-ok e f s u h = elim (Result-cases (f s).0) [
  | inl (tt, done) ↦ (done, ground arith)
  | inr (w, failed) ↦ absurd (ground arith)
]
