-- ===== src/Tests/Memory.antt =====
-- A driver that keeps its documents in memory and refuses those that clash with one that it has.
use oxifed.Base.{
  ◌≡◌, refl, sym, subst, ap, ◌∙◌, String, Bool, true, false, not, none, some, ◌⊎◌, inl, inr, List,
  [], ◌∷◌, ◌++◌, Result, ok, err, any, find, keep, arith, Bool-cases, if◌then◌else◌, length, pos,
}
use mathlib.Core.List.{Memᴰ}
use oxifed.Inbox.Types.{FollowDocument}
use oxifed.Database.Documents.{Store}
use oxifed.Database.Driver.{Driver, DriverLaws, update_first, delete_first}
use oxifed.Database.Manager.{Drivers, has_pair}
use oxifed.Database.Removed.{DeletionLaws, Memᴰ-keep, Memᴰ-of_keep}
use oxifed.Database.Rows.{UniquePairs}
use oxifed.Commands.Services.{Services}
use oxifed.Pki.{KeyCrates}
use oxifed.Tests.{test_urls}
use oxifed.Tests.Followers.{test_env}

abbrev insert :
    {Doc : Type 0} → (Doc → Doc → Bool) → Doc → List Doc → Result String (Unit {0}) × List Doc
insert clash x docs =
    if any (clash x) docs then (err "duplicate key", docs) else (ok tt, docs ++ x ∷ [])

abbrev pub memory : {Doc : Type 0} → (Doc → Doc → Bool) → Driver Doc
memory clash = record {
  find_one = λ p docs. ok (find p docs);
  find = λ p w docs. ok (keep p docs);
  count_documents = λ p docs. ok (length (keep p docs));
  insert_one = insert clash;
  update_one = λ p f docs. (ok 1, update_first p f docs);
  replace_one = λ p x docs. (ok 1, update_first p (λ _. x) docs);
  delete_one = λ p docs. (ok 1, delete_first p docs);
  delete_many = λ p docs. (ok 1, keep (λ x. not (p x)) docs);
  clock = 7;
}

find_some :
    {Doc : Type 0} (p : Doc → Bool) (docs : List Doc) (x : Doc)
    → find p docs ≡ some x
    → (p x ≡ true) × Memᴰ x docs
find_some p [] x h = absurd (cc)
find_some p (d ∷ docs) x h = elim (Bool-cases (p d)) [
  | inl own ↦ let e : x ≡ d = ground arith in (ap p e ∙ own, Memᴰ.head e)
  | inr other ↦ let (passes, there) = find_some p docs x (ground arith) in (passes, Memᴰ.tail there)
]

find_none :
    {Doc : Type 0} (p : Doc → Bool) (docs : List Doc) → find p docs ≡ none → any p docs ≡ false
find_none p [] h = refl
find_none p (d ∷ docs) h = ground (arith, find_none p docs)

insert_cases :
    {Doc : Type 0} (clash : Doc → Doc → Bool) (x : Doc) (docs : List Doc)
    → ((insert clash x docs).1 ≡ docs ++ x ∷ [])
      ⊎ ((e : String) × ((insert clash x docs).0 ≡ err e) × ((insert clash x docs).1 ≡ docs))
insert_cases clash x docs = elim (Bool-cases (any (clash x) docs)) [
  | inl taken ↦ inr ("duplicate key", ground arith, ground arith)
  | inr free ↦ inl (ground arith)
]

pub memory_laws : {Doc : Type 0} (clash : Doc → Doc → Bool) → DriverLaws (memory clash)
memory_laws clash = record {
  find_one_some = λ p docs x h. find_some p docs x (ground arith);
  find_one_none = λ p docs h. find_none p docs (ground arith);
  find_whole = λ p docs xs h x.
      let e : xs ≡ keep p docs = ground arith in
      (
        (λ m. let (there, own) = Memᴰ-of_keep p docs x (subst (λ l. Memᴰ x l) e m) in (own, there)),
        λ own m. subst (λ l. Memᴰ x l) (sym e) (Memᴰ-keep p docs x m own),
      );
  count_documents_lem = λ p docs n h. ground arith;
  insert_one_lem = insert_cases clash;
  update_one_lem = λ p f docs. inl refl;
  delete_one_lem = λ p docs. inl refl;
  delete_many_lem =
      λ p docs. ((λ x. not (p x)), refl, (λ x h. ground arith), (λ n h x own. ground arith));
}

abbrev pub never : {Doc : Type 0} → Doc → Doc → Bool
never x y = false

abbrev pub same_follow : FollowDocument → FollowDocument → Bool
same_follow x y = has_pair x.follower x.following y

pub follows_unique : UniquePairs (memory same_follow)
follows_unique = record { refused = λ f docs h. ("duplicate key", ground arith, ground arith) }

abbrev pub test_drivers : Drivers
test_drivers = record {
  actors = memory never;
  objects = memory never;
  activities = memory never;
  keys = memory never;
  domains = memory never;
  follows = memory same_follow;
  webfinger_profiles = memory never;
  outbox = memory never;
}

pub test_deletions : DeletionLaws test_drivers
test_deletions = record {
  actors = memory_laws never;
  objects = memory_laws never;
  activities = memory_laws never;
  keys = memory_laws never;
  follows = memory_laws same_follow;
}

-- one key pair for all
abbrev one_key : KeyCrates
one_key = record {
  generate_rsa = λ size. ok ("AQI=", "AQI=");
  generate_pkcs8 = err "no randomness";
  from_pkcs8 = λ document. ok document;
  sign = λ key text. key;
  sha256_hex = λ text. "00";
  encode = λ bytes. "AQI=";
  decode = λ text. ok (1 ∷ 2 ∷ []);
}

abbrev pub test_services : Services
test_services = record {
  drivers = test_drivers;
  crates = one_key;
  urls = test_urls;
  env = test_env (ok tt);
  timestamp_millis = λ t. pos t;
  to_document = λ v. ok v;
}

abbrev pub empty_store : Store
empty_store = record {
  actors = [];
  objects = [];
  activities = [];
  keys = [];
  domains = [];
  follows = [];
  webfinger_profiles = [];
  outbox = [];
}
