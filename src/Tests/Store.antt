-- ===== src/Tests/Store.antt =====
-- A database as two lists, which keeps the laws of the collections.
use oxifed.Base.{
  ◌≡◌, refl, String, false, Option, none, some, ◌⊎◌, inl, inr, List, [], ◌∷◌, Result, ok, err,
  map_option, find, if◌then◌else◌, arith, Option-cases, Bool-cases, ◌==◌,
}
use oxifed.Inbox.Types.{FollowStatus, FollowDocument, active, ActivityDocument, Collections}
use oxifed.Inbox.Rows.{same_pair, same_pair-eq, same_pair_refl, answered, Laws}

pub record Store : Type 0 where
  pub follows : List FollowDocument
  pub activities : List ActivityDocument

abbrev pub row_of : List FollowDocument → String → String → Option FollowDocument
row_of ds f t = find (λ (d : FollowDocument). same_pair f t d.follower d.following) ds

abbrev pub set_row : String → String → FollowStatus → List FollowDocument → List FollowDocument
set_row f t status [] = []
set_row f t status (d ∷ ds) =
    (if same_pair f t d.follower d.following then answered status 7 d else d)
    ∷ set_row f t status ds

abbrev pub insert_row :
    FollowDocument → Store → Option FollowDocument → Result String (Unit {0}) × Store
insert_row d db none = (ok tt, record db { follows = d ∷ db.follows })
insert_row d db (some _) = (err "duplicate key", db)

-- one domain, with one active actor
abbrev pub test_store : Collections Store
test_store = record {
  row = λ db f t. row_of db.follows f t;
  insert_follow = λ d db. insert_row d db (row_of db.follows d.follower d.following);
  update_follow_status =
      λ f t status db. (ok tt, record db { follows = set_row f t status db.follows });
  find_activity_by_id =
      λ id db. ok (find (λ (a : ActivityDocument). a.activity_id == id) db.activities);
  insert_activity = λ a db. (ok tt, record db { activities = a ∷ db.activities });
  find_domain_by_name = λ name db. ok (if name == "example.org" then some tt else none);
  find_actor_by_username = λ name domain db. ok (
      if name == "alice"
      then some (record { actor_id = "https://example.org/users/alice"; status = active })
      else none);
  clock = λ db. 7;
}

insert_own :
    (d : FollowDocument) (db : Store)
    → ((row_of db.follows d.follower d.following ≡ none)
        × (row_of
              (insert_row d db (row_of db.follows d.follower d.following)).1.follows
              d.follower
              d.following
            ≡ some d))
      ⊎ ((e : String) × ((insert_row d db (row_of db.follows d.follower d.following)).0 ≡ err e)
          × (row_of
                (insert_row d db (row_of db.follows d.follower d.following)).1.follows
                d.follower
                d.following
              ≡ row_of db.follows d.follower d.following))
insert_own d db = elim (Option-cases (row_of db.follows d.follower d.following)) [
  | inl absent ↦ inl (absent, ground (arith, same_pair_refl d.follower d.following))
  | inr (r, taken) ↦ inr ("duplicate key", ground arith, ground arith)
]

insert_others :
    (d : FollowDocument) (db : Store) (f t : String)
    → same_pair f t d.follower d.following ≡ false
    → row_of (insert_row d db (row_of db.follows d.follower d.following)).1.follows f t
      ≡ row_of db.follows f t
insert_others d db f t h = ground arith

update_own :
    (f t : String) (status : FollowStatus) (ds : List FollowDocument)
    → row_of (set_row f t status ds) f t ≡ map_option (answered status 7) (row_of ds f t)
update_own f t status [] = refl
update_own f t status (d ∷ ds) = ground (arith, update_own f t status ds)

update_others :
    (f t : String) (status : FollowStatus) (ds : List FollowDocument) (f' t' : String)
    → same_pair f' t' f t ≡ false
    → row_of (set_row f t status ds) f' t' ≡ row_of ds f' t'
update_others f t status [] f' t' h = refl
update_others f t status (d ∷ ds) f' t' h =
    elim (Bool-cases (same_pair f t d.follower d.following)) [
      | inr differs ↦ ground (arith, update_others f t status ds f' t' h)
      | inl same ↦
          let (p, q) = same_pair-eq f t d.follower d.following same in
          ground (arith, update_others f t status ds f' t' h)
    ]

pub test_laws : Laws test_store
test_laws = record {
  insert_own = insert_own;
  insert_others = insert_others;
  update_own = λ f t status db. inl (update_own f t status db.follows);
  update_others = λ f t status db f' t' h. update_others f t status db.follows f' t' h;
  activity_rows = λ a db f t. refl;
}
