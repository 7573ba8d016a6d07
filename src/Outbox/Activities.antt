-- ===== src/Outbox/Activities.antt =====
-- What the outbox does for each type of activity: `process_create_activity_c2s` and the like. Each
-- gives the activity back as it leaves it.
use oxifed.Base.{
  String, Bool, Option, none, some, List, [], ◌∷◌, Result, ok, err, ok_or, ◌⧺◌, if◌then◌else◌,
}
use oxifed.Vocab.{Value, string, dictionary, Entries, entries, lookup}
use oxifed.Inbox.Types.{Environment, Action, pure, lift, reads, ◌>>=◌, ◌>>◌}
use oxifed.Inbox.Documents.{get_text}
use oxifed.Database.Documents.{Store}
use oxifed.Database.Manager.{Drivers}
use oxifed.Commands.Persons.{actor_id_of}
use oxifed.Outbox.Access.{AccessTokens}
use oxifed.Outbox.Entities.{
  set_value, set_absent, store_object_from_c2s, verify_object_ownership, mark_object_deleted,
  activity_texts, text_at, has_text,
}

-- What a request of a client uses. The object of an activity has a UUID and a reading of the clock
-- of its own; `domain` is that of the environment, or else "localhost".
pub record Outbox : Type 0 where
  pub drivers : Drivers
  pub env : Environment
  pub object_env : Environment
  pub domain : String
  pub tokens : AccessTokens
  -- does `HeaderValue::from_str` take the text
  pub is_header_value : String → Bool

-- the object of a `Create` with its metadata
unfoldable pub complete_object : Outbox → String → Entries → Entries
unfolding set_absent actor_id_of
complete_object x username es =
    set_absent "published" (string (x.object_env.to_rfc3339 x.object_env.now)) (
      set_absent "attributedTo" (string (actor_id_of username x.domain))
        (set_absent "id" (string ("https://" ⧺ x.domain ⧺ "/objects/" ⧺ x.object_env.uuid)) es))

-- the object of a `Create`, which is stored if it is a JSON object
unfoldable pub create_object : Outbox → String → Value → Action Store Value
unfolding complete_object store_object_from_c2s
create_object x username (string s) =
    lift (err "Object must be embedded for Create activity in C2S")
create_object x username (dictionary es) =
    let object = dictionary (complete_object x username es) in
    store_object_from_c2s x.drivers x.object_env object >> pure object
create_object x username v = pure v

-- the field `object`, or the error of an activity without one
abbrev pub object_in : String → Entries → Result String Value
object_in activity es =
    ok_or (lookup "object" (entries es)) (activity ⧺ " activity must have an object")

unfoldable pub process_create_activity_c2s : Outbox → String → Entries → Action Store Entries
unfolding lookup create_object set_value
process_create_activity_c2s x username es = do
  object ← lift (object_in "Create" es)
  object' ← create_object x username object
  pure (set_value "object" object' es)

-- an object that is a text is its id
abbrev pub id_of_object : Value → Result String String
id_of_object (string s) = ok s
id_of_object v = ok_or (get_text "id" v) "Object must have an ID"

abbrev pub must_own : String → Bool → Result String (Unit {0})
must_own text owned = if owned then ok tt else err text

-- an object that is a JSON object is stored as a new one
abbrev pub store_embedded : Outbox → Value → Action Store (Unit {0})
store_embedded x (dictionary es) = store_object_from_c2s x.drivers x.object_env (dictionary es)
store_embedded x v = pure tt

unfoldable pub process_update_activity_c2s : Outbox → String → Entries → Action Store Entries
unfolding lookup verify_object_ownership store_object_from_c2s
process_update_activity_c2s x username es = do
  object ← lift (object_in "Update" es)
  object_id ← lift (id_of_object object)
  owned ← reads (verify_object_ownership x.drivers x.domain object_id username)
  lift (must_own "Cannot update object you don't own" owned)
  store_embedded x object
  pure es

unfoldable pub process_delete_activity_c2s : Outbox → String → Entries → Action Store Entries
unfolding lookup verify_object_ownership mark_object_deleted
process_delete_activity_c2s x username es = do
  object ← lift (object_in "Delete" es)
  object_id ← lift (id_of_object object)
  owned ← reads (verify_object_ownership x.drivers x.domain object_id username)
  lift (must_own "Cannot delete object you don't own" owned)
  mark_object_deleted x.drivers x.env object_id
  pure es

abbrev pub target_of : Option Value → Result String String
target_of (some (string target)) = ok target
target_of _ = err "Follow activity must have an object (target actor)"

-- nothing is stored of a follow but the activity
unfoldable pub process_follow_activity_c2s : Outbox → String → Entries → Action Store Entries
unfolding lookup
process_follow_activity_c2s x username es = do
  target ← lift (target_of (lookup "object" (entries es)))
  pure es

unfoldable pub fetch_activity_type : Drivers → String → Store → Result String String
unfolding text_at
fetch_activity_type d activity_id s =
    elim (d.activities.find_one (λ a. has_text "id" activity_id (activity_texts a)) s.activities) [
      | err e ↦ err ("Database error: " ⧺ e)
      | ok none ↦ err "Activity not found"
      | ok (some a) ↦ ok_or (text_at "type" (activity_texts a)) "Activity has no type field"
    ]

-- the type of what an `Undo` undoes
unfoldable pub undone_type : Drivers → Value → Store → Result String String
unfolding fetch_activity_type
undone_type d (string activity_id) s = fetch_activity_type d activity_id s
undone_type d v s = ok_or (get_text "type" v) "Undone activity must have a type"

-- whatever is undone, nothing is changed
unfoldable pub process_undo_activity_c2s : Outbox → String → Entries → Action Store Entries
unfolding lookup undone_type
process_undo_activity_c2s x username es = do
  object ← lift (object_in "Undo" es)
  undone ← reads (undone_type x.drivers object)
  pure es

-- likes, announces and blocks: nothing but the test that there is an object
unfoldable pub process_with_object : String → Outbox → String → Entries → Action Store Entries
unfolding lookup
process_with_object activity x username es = do object ← lift (object_in activity es); pure es

-- the `match` of `process_client_activity`
unfoldable pub c2s_handlers : List (String × (Outbox → String → Entries → Action Store Entries))
unfolding process_create_activity_c2s process_update_activity_c2s process_delete_activity_c2s
    process_follow_activity_c2s process_undo_activity_c2s process_with_object
c2s_handlers =
    ("Create", process_create_activity_c2s)
    ∷ ("Update", process_update_activity_c2s)
    ∷ ("Delete", process_delete_activity_c2s)
    ∷ ("Follow", process_follow_activity_c2s)
    ∷ ("Unfollow", process_undo_activity_c2s)
    ∷ ("Undo", process_undo_activity_c2s)
    ∷ ("Like", process_with_object "Like")
    ∷ ("Announce", process_with_object "Announce")
    ∷ ("Block", process_with_object "Block")
    ∷ []

abbrev pub handle_with :
    String
    → Option (Outbox → String → Entries → Action Store Entries)
    → Outbox
    → String
    → Entries
    → Action Store Entries
handle_with activity_type (some handle) x username es = handle x username es
handle_with activity_type none x username es =
    lift (err ("Unsupported activity type: " ⧺ activity_type))

unfoldable pub process_as : String → Outbox → String → Entries → Action Store Entries
unfolding lookup c2s_handlers
process_as activity_type = handle_with activity_type (lookup activity_type c2s_handlers)
