-- ===== src/WebFinger/Resolved.antt =====
-- A user that the domain service has made is found by its name through WebFinger.
use oxifed.Base.{
  ◌≡◌, refl, ap, ◌∙◌, subst, String, Bool, true, false, Option, none, some, inl, inr, List, [], ◌∷◌,
  ◌++◌, ok, any, arith, ◌⧺◌, eq_refl, starts_with, starts_with-append,
}
use mathlib.Core.List.{Memᴰ}
use mathlib.Core.List.Memᴰ
use oxifed.Vocab.{Url}
use oxifed.Client.{is_success}
use oxifed.Database.Documents.{JrdResource, Store}
use oxifed.Database.Driver.{DriverLaws}
use oxifed.Database.Manager.{Drivers, has_subject}
use oxifed.Database.Removed.{any-Memᴰ}
use oxifed.Commands.Persons.{
  create_user, profile_of, self_link, find_profile, actor_id_of, alias_of, UserCreateMessage,
}
use oxifed.Commands.Services.{Services}
use oxifed.Commands.Profiles.{HasProfile, create_user-Ensures}
use oxifed.WebFinger.Server.{AppState, handle_webfinger, find_resource}
use oxifed.WebFinger.Finger.{
  WebFingerClient, extract_host, pairs_of, finger, resolve_target, resolve_webfinger, find_link,
}
use oxifed.WebFinger.Names.{
  Lacks, is_user_at_domain-name, format_subject-name, replace-name, acct_cons,
}

any-snoc :
    (p : JrdResource → Bool) (j : JrdResource) (docs : List JrdResource)
    → p j ≡ true
    → any p (docs ++ j ∷ []) ≡ true
any-snoc p j [] h = ground arith
any-snoc p j (d ∷ docs) h = ground (arith, any-snoc p j docs)

own_subject :
    (subject url : String) (aliases : Option (List String))
    → has_subject subject (profile_of subject url aliases none) ≡ true
unfolding profile_of
own_subject subject url aliases = eq_refl subject

-- a search that is answered finds the profile
find_profile-found :
    (d : Drivers) (laws : DriverLaws d.webfinger_profiles) (profile : JrdResource)
    (subject : String) (s : Store) (found : Option JrdResource)
    → HasProfile profile subject s
    → has_subject subject profile ≡ true
    → find_profile d subject s ≡ ok found
    → found ≡ some profile
find_profile-found d laws profile subject s none (before, stored, fresh) own h =
    let missing = laws.find_one_none (has_subject subject) s.webfinger_profiles h in
    let there = any-snoc (has_subject subject) profile before own in absurd (cc)
find_profile-found d laws profile subject s (some j) (before, stored, fresh) own h =
    let (passes, member) = laws.find_one_some (has_subject subject) s.webfinger_profiles j h in
    elim (Memᴰ.append_cases before (subst (λ docs. Memᴰ j docs) stored member)) [
      | inl earlier ↦
          let fails = any-Memᴰ (has_subject subject) before j earlier fresh in absurd (cc)
      | inr last ↦ ap some (Memᴰ.eq_of_singleton last)
    ]

find_resource-profile :
    (state : AppState) (subject url : String) (s : Store) (aliases : Option (List String))
    → find_profile state.drivers subject s ≡ ok (some (profile_of subject url aliases none))
    → find_resource state none subject s ≡ ok (profile_of subject url aliases none)
unfolding find_resource profile_of
find_resource-profile state subject url s aliases h = rw (h, find_resource) refl

not_https : (name : String) → starts_with ("acct:" ⧺ name) "https://" ≡ false
unfolding starts_with
not_https name = rw (acct_cons name) refl

-- the answer of the server
handle_webfinger-profile :
    (state : AppState) (name : String) (s : Store) (url : String) (aliases : Option (List String))
    → Lacks 58 name
    → find_profile state.drivers ("acct:" ⧺ name) s
      ≡ ok (some (profile_of ("acct:" ⧺ name) url aliases none))
    → handle_webfinger state (record { resource = "acct:" ⧺ name; relations = none }) s
      ≡ ok (profile_of ("acct:" ⧺ name) url aliases none)
unfolding handle_webfinger profile_of
handle_webfinger-profile state name s url aliases l h =
    let acct = starts_with-append "acct:" name in
    let https = not_https name in
    let same = replace-name name l in
    rw (acct, https, same, handle_webfinger)
      (find_resource-profile state ("acct:" ⧺ name) url s aliases h)

finger-answered :
    (client : WebFingerClient) (resource host : String) (u : Url) (jrd : JrdResource)
    → starts_with resource "acct:" ≡ true
    → extract_host client.urls resource ≡ ok host
    → client.urls.parse ("https://" ⧺ host ⧺ "/.well-known/webfinger") ≡ some u
    → client.send (client.append_pairs u (pairs_of resource [])) ≡ ok (200, ok jrd)
    → finger client resource none ≡ ok jrd
unfolding finger is_success
finger-answered client resource host u jrd acct extracted parsed sent = ground arith

find_link_self :
    (subject url : String) (aliases : Option (List String))
    → find_link (profile_of subject url aliases none) "self" ≡ some (self_link url)
unfolding find_link profile_of
find_link_self subject url aliases = refl

resolve_webfinger-answered :
    (client : WebFingerClient) (name url : String) (jrd : JrdResource)
    → finger client ("acct:" ⧺ name) none ≡ ok jrd
    → find_link jrd "self" ≡ some (self_link url)
    → resolve_webfinger client name ≡ ok url
unfolding resolve_webfinger self_link
resolve_webfinger-answered client name url jrd answered linked =
    rw (answered, resolve_webfinger) (rw linked refl)

-- the client, for an answer that it gets
resolve_target-profile :
    (client : WebFingerClient) (user domain host url : String) (u : Url)
    (aliases : Option (List String))
    → let name = user ⧺ ("@" ⧺ domain) in
      Lacks 58 name
      → extract_host client.urls ("acct:" ⧺ name) ≡ ok host
      → client.urls.parse ("https://" ⧺ host ⧺ "/.well-known/webfinger") ≡ some u
      → client.send (client.append_pairs u (pairs_of ("acct:" ⧺ name) []))
        ≡ ok (200, ok (profile_of ("acct:" ⧺ name) url aliases none))
      → resolve_target client name ≡ ok url
unfolding resolve_target
resolve_target-profile client user domain host url u aliases l extracted parsed sent =
    let name = user ⧺ ("@" ⧺ domain) in
    let profile = profile_of ("acct:" ⧺ name) url aliases none in
    let at = is_user_at_domain-name user domain l in
    let answer =
      finger-answered client ("acct:" ⧺ name) host u profile (starts_with-append "acct:" name)
        extracted parsed sent in
    rw (at, resolve_target)
      (resolve_webfinger-answered client name url profile answer
        (find_link_self ("acct:" ⧺ name) url aliases))

-- After `create_user` has succeeded, the client asks the domain service for the name user@domain and
-- gets the id of the actor, if the name has no colon, the client can build the address, the search
-- of the service is answered, and the answer of the service comes back to the client.
pub create_user-resolve_target :
    (x : Services) (laws : DriverLaws x.drivers.webfinger_profiles) (m : UserCreateMessage)
    (s s' : Store) (state : AppState) (laws' : DriverLaws state.drivers.webfinger_profiles)
    (client : WebFingerClient) (host : String) (u : Url) (found : Option JrdResource)
    → let name = m.username ⧺ ("@" ⧺ m.domain) in
      create_user x m s ≡ (ok tt, s')
      → Lacks 58 name
      → extract_host client.urls ("acct:" ⧺ name) ≡ ok host
      → client.urls.parse ("https://" ⧺ host ⧺ "/.well-known/webfinger") ≡ some u
      → find_profile state.drivers ("acct:" ⧺ name) s' ≡ ok found
      → ((jrd : JrdResource)
          → handle_webfinger state (record { resource = "acct:" ⧺ name; relations = none }) s'
            ≡ ok jrd
          → client.send (client.append_pairs u (pairs_of ("acct:" ⧺ name) [])) ≡ ok (200, ok jrd))
      → resolve_target client name ≡ ok (actor_id_of m.username m.domain)
create_user-resolve_target x laws m s s' state laws' client host u found created l extracted parsed
      searched answers =
    let name = m.username ⧺ ("@" ⧺ m.domain) in
    let url = actor_id_of m.username m.domain in
    let aliases : Option (List String) = some (alias_of m.username m.domain ∷ []) in
    let profile = profile_of ("acct:" ⧺ name) url aliases none in
    let stored : HasProfile profile ("acct:" ⧺ name) s' =
      subst (λ (t : String). HasProfile (profile_of t url aliases none) t s')
        (format_subject-name name l) ((create_user-Ensures x laws m).after s s' tt created) in
    let is_found =
      find_profile-found state.drivers laws' profile ("acct:" ⧺ name) s' found stored
        (own_subject ("acct:" ⧺ name) url aliases) searched in
    resolve_target-profile client m.username m.domain host url u aliases l extracted parsed (
      answers profile
        (handle_webfinger-profile state name s' url aliases l (searched ∙ ap ok is_found)))
