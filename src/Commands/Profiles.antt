-- ===== src/Commands/Profiles.antt =====
-- The WebFinger profile that a command on persons leaves when it succeeds.
use oxifed.Base.{
  ◌≡◌, sym, ◌∙◌, String, false, Option, none, some, inl, inr, List, [], ◌∷◌, ◌++◌, ok, any, arith,
  Result-cases, ◌⧺◌,
}
use oxifed.Database.Documents.{JrdLink, JrdResource, Store}
use oxifed.Database.Driver.{DriverLaws}
use oxifed.Database.Manager.{has_subject}
use oxifed.Commands.Domains.{db_error, json_error}
use oxifed.Commands.Follows.{format_subject}
use oxifed.Commands.Persons.{
  create_webfinger_profile, create_user, profile_of, find_profile, insert_profile, unless_found,
  actor_id_of, alias_of, UserCreateMessage,
}
use oxifed.Commands.Services.{Services, Command, writes, ◌>>=◌, ◌>>◌}
use oxifed.Commands.Actors.Keeping.{reads-bind_ok, reads-bind_err}

-- what holds of the store after a command that succeeds
pub record Ensures {A : Type 0} (P : Store → Type 0) (m : Command A) : Type 0 where
  pub after : (s s' : Store) (a : A) → m s ≡ (ok a, s') → P s'

-- it is for the last part of a command to ensure it
pub bind-Ensures :
    {A B : Type 0} (P : Store → Type 0) (m : Command A) (k : A → Command B)
    → ((a : A) → Ensures P (k a))
    → Ensures P (m >>= k)
bind-Ensures P m k last = record {
  after = λ s s' b h. elim (Result-cases (m s).0) [
    | inl (a, done) ↦ (last a).after (m s).1 s' b (ground arith)
    | inr (e, failed) ↦ absurd (ground arith)
  ];
}

-- the profile is stored, and no other has its subject
abbrev pub HasProfile : JrdResource → String → Store → Type 0
HasProfile profile subject s =
    (before : List JrdResource) × (s.webfinger_profiles ≡ before ++ profile ∷ [])
    × (any (has_subject subject) before ≡ false)

module _ (x : Services) (laws : DriverLaws x.drivers.webfinger_profiles) where
  insert_profile-HasProfile :
      (profile : JrdResource) (subject : String) (s s' : Store)
      → any (has_subject subject) s.webfinger_profiles ≡ false
      → writes db_error (insert_profile x.drivers profile) s ≡ (ok tt, s')
      → HasProfile profile subject s'
  insert_profile-HasProfile profile subject s s' fresh h =
      elim (laws.insert_one_lem profile s.webfinger_profiles) [
        | inr (e, failed, unchanged) ↦ absurd (ground arith)
        | inl stored ↦ elim (Result-cases (insert_profile x.drivers profile s).0) [
          | inr (e, failed) ↦ absurd (ground arith)
          | inl (tt, done) ↦ (s.webfinger_profiles, ground arith, fresh)
        ]
      ]

  create_webfinger_profile-Ensures :
      (subject url : String) (aliases : Option (List String)) (links : Option (List JrdLink))
      → Ensures
          (HasProfile
            (profile_of (format_subject subject) url aliases links)
            (format_subject subject))
          (create_webfinger_profile x subject url aliases links)
  unfolding create_webfinger_profile
  create_webfinger_profile-Ensures subject url aliases links =
      let formatted = format_subject subject in
      let profile = profile_of formatted url aliases links in
      let find = find_profile x.drivers formatted in
      let e = json_error ("Profile with subject '" ⧺ formatted ⧺ "' already exists") in
      let k = λ (existing : Option JrdResource).
        unless_found existing e >> writes db_error (insert_profile x.drivers profile) in
      record {
        after = λ s s' a h. elim (Result-cases (find s)) [
          | inr (w, failed) ↦ absurd (let q = reads-bind_err db_error find k s w failed in cc)
          | inl (some j, found) ↦
              absurd (let q = reads-bind_ok db_error find k s (some j) found in cc)
          | inl (none, absent) ↦
              insert_profile-HasProfile profile formatted s s'
                (laws.find_one_none (has_subject formatted) s.webfinger_profiles absent)
                (sym (reads-bind_ok db_error find k s none absent) ∙ h)
        ];
      }

  pub create_user-Ensures :
      (m : UserCreateMessage)
      → Ensures
          (HasProfile
            (profile_of
              (format_subject (m.username ⧺ "@" ⧺ m.domain))
              (actor_id_of m.username m.domain)
              (some (alias_of m.username m.domain ∷ []))
              none)
            (format_subject (m.username ⧺ "@" ⧺ m.domain)))
          (create_user x m)
  unfolding create_user
  create_user-Ensures m = search (bind-Ensures, create_webfinger_profile-Ensures) depth 16
