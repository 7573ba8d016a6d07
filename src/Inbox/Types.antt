-- ===== src/Inbox/Types.antt =====
-- Documents of src/database.rs that the inbox reads and writes, the collections of MongoDB that
-- hold them, and the state of a handler.
use oxifed.Base.{ℕ, String, Bool, Option, List, [], ◌∷◌, ◌++◌, Result, ok, err}
use oxifed.Vocab.{Value, Activity, ActivityType, Object}

pub data FollowStatus : Type 0 where
  pending accepted rejected cancelled : FollowStatus

-- A time in a stored document: the text that `serde` writes for a `DateTime<Utc>`, or the date that
-- MongoDB writes for `$currentDate`.
pub data StoredTime : Type 0 where
  as_text as_date : ℕ → StoredTime

abbrev pub instant : StoredTime → ℕ
instant (as_text t) = t
instant (as_date t) = t

-- `serde` reads a `DateTime<Utc>` from a text, not from a BSON date
unfoldable pub read_time : StoredTime → Result String (Unit {0})
read_time (as_text t) = ok tt
read_time (as_date t) = err "invalid type: map, expected an RFC 3339 formatted date and time string"

pub record FollowDocument : Type 0 where
  pub follower : String
  pub following : String
  pub status : FollowStatus
  pub activity_id : String
  pub accept_activity_id : Option String
  pub created_at : ℕ
  pub responded_at : Option StoredTime

pub data ActorStatus : Type 0 where
  active suspended deleted pending : ActorStatus

-- the fields of an `ActorDocument` that the inbox reads
pub record ActorDocument : Type 0 where
  pub actor_id : String
  pub status : ActorStatus

pub data ActivityStatus : Type 0 where
  pending processing completed failed : ActivityStatus

-- `additional_properties`, `last_attempt` and `error` are `None` in all that the inbox writes.
pub record ActivityDocument : Type 0 where
  pub activity_id : String
  pub activity_type : ActivityType
  pub actor : String
  pub object : Option String
  pub target : Option String
  pub name : Option String
  pub summary : Option String
  pub published : Option ℕ
  pub updated : Option ℕ
  pub to : Option (List String)
  pub cc_to : Option (List String)
  pub bto : Option (List String)
  pub bcc : Option (List String)
  pub local : Bool
  pub status : ActivityStatus
  pub created_at : ℕ
  pub attempts : ℕ

-- The collections of the database `Db`. A write may fail, and returns the database after it.
pub record Collections (Db : Type 0) : Type 0 where
  -- the follow document of a pair, which the unique index on the pair makes one at most
  pub row : Db → String → String → Option FollowDocument
  pub insert_follow : FollowDocument → Db → Result String (Unit {0}) × Db
  -- `$set` of the status and `$currentDate` of `responded_at`, in the document of the pair
  pub update_follow_status : String → String → FollowStatus → Db → Result String (Unit {0}) × Db
  pub find_activity_by_id : String → Db → Result String (Option ActivityDocument)
  pub insert_activity : ActivityDocument → Db → Result String (Unit {0}) × Db
  -- is the domain registered, and who is the actor of a name in a domain
  pub find_domain_by_name : String → Db → Result String (Option (Unit {0}))
  pub find_actor_by_username : String → String → Db → Result String (Option ActorDocument)
  -- the server's clock for `$currentDate`
  pub clock : Db → ℕ

-- What is published to the broker.
pub data Message : Type 0 where
  -- to the exchange for outgoing activities
  outgoing : Value → Message
  -- to the exchange for incoming objects: object, type, author, domain, user
  incoming_object : Value → String → String → String → Option String → Message
  -- to the exchange for incoming activities: activity, type, actor, domain, user
  incoming_activity : Value → ActivityType → String → String → Option String → Message

-- The handler's environment: `serde`, the clock, a fresh UUID, and whether the broker takes a
-- message after those that it has taken, with the error as the handler returns it.
pub record Environment : Type 0 where
  pub to_value : Activity → Result String Value
  pub object_value : Object → Result String Value
  pub parse_rfc3339 : String → Option ℕ
  pub to_rfc3339 : ℕ → String
  -- two readings of the clock
  pub now : ℕ
  pub later : ℕ
  pub uuid : String
  pub broker : List Message → Message → Result String (Unit {0})

pub record State (Db : Type 0) : Type 0 where
  pub db : Db
  pub sent : List Message

-- A handler: what it has written stays when it fails.
abbrev pub Action : Type 0 → Type 0 → Type 0
Action Db A = State Db → Result String A × State Db

module _ {Db : Type 0} where
  abbrev pub pure : {A : Type 0} → A → Action Db A
  pure a s = (ok a, s)

  abbrev pub lift : {A : Type 0} → Result String A → Action Db A
  lift r s = (r, s)

  infixl 5 ◌>>=◌ ◌>>◌
  abbrev pub ◌>>=◌ : {A B : Type 0} → Action Db A → (A → Action Db B) → Action Db B
  ◌>>=◌ m f s = let (r, s') = m s in elim r [ ok a ↦ f a s' | err e ↦ (err e, s') ]

  abbrev pub ◌>>◌ : {B : Type 0} → Action Db (Unit {0}) → Action Db B → Action Db B
  m >> k = m >>= λ _. k

  abbrev pub reads : {A : Type 0} → (Db → Result String A) → Action Db A
  reads f s = (f s.db, s)

  abbrev pub writes : (Db → Result String (Unit {0}) × Db) → Action Db (Unit {0})
  writes f s = let (r, db') = f s.db in (r, record s { db = db' })

  -- a message that the broker takes is sent
  abbrev pub publish : Environment → Message → Action Db (Unit {0})
  publish env m s = elim (env.broker s.sent m) [
    | ok _ ↦ (ok tt, record s { sent = s.sent ++ m ∷ [] })
    | err e ↦ (err e, s)
  ]
