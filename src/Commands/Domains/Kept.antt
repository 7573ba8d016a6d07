-- ===== src/Commands/Domains/Kept.antt =====
-- What the deletion and the update of a domain leave in the database.
use oxifed.Base.{
  ℕ, ◌≡◌, refl, sym, ◌∙◌, ap, String, Bool, true, false, Option, none, some, ◌⊎◌, inl, inr, List,
  [], ◌∷◌, Result, ok, any, find, keep, length, map_option, or_else, unwrap_or, ltb, ◌==◌, arith,
  eq_iff, Result-cases, Bool-cases, subst,
}
use mathlib.Core.List.{Memᴰ}
use mathlib.Core.List.Memᴰ
use oxifed.Vocab.{Value, lookup}
use oxifed.Commands.Domains.{
  RabbitMqError, RegistrationMode, open_mode, approval, invite, closed, DomainDocument,
  DomainMessage, DomainDeleteMessage, DomainCollections, change_of, mode_to_set, parse_mode,
  with_domain, update_found, update_domain_object, delete_found, delete_checked,
  delete_domain_object,
}
use oxifed.Database.Documents.{ActorDocument, Store}
use oxifed.Database.Driver.{DriverLaws, update_first, delete_first}
use oxifed.Database.Manager.{Drivers, has_domain, find_domain_by_name}
use oxifed.Database.Collections.{domain_collections}
use oxifed.Database.Removed.{Without, AtMostOne, delete_first-Without}
use oxifed.Database.Rows.{find-update, find-update_other}

with_domain-found :
    {Db : Type 0} (c : DomainCollections Db) (domain : String) (db : Db)
    (k : Db → Result RabbitMqError (Unit {0}) × Db)
    → (with_domain c domain db k).0 ≡ ok tt
    → (doc : DomainDocument) × (c.find_domain_by_name domain db ≡ ok (some doc))
      × (with_domain c domain db k ≡ k db)
with_domain-found c domain db k h = elim (Result-cases (c.find_domain_by_name domain db)) [
  | inr (e, failed) ↦ absurd (ground arith)
  | inl (none, missing) ↦ absurd (ground arith)
  | inl (some doc, found) ↦ (doc, found, ground arith)
]

keep-none :
    {Doc : Type 0} (p : Doc → Bool) (docs : List Doc)
    → length (keep p docs) ≡ 0
    → any p docs ≡ false
keep-none p [] h = refl
keep-none p (x ∷ docs) h = ground (arith, keep-none p docs)

abbrev lives_in : String → ActorDocument → Bool
lives_in domain a = a.domain == domain

-- What an unforced deletion has done, from `s` to `s'`.
pub record IsDeleted (domain : String) (s s' : Store) : Type 0 where
  pub document : DomainDocument
  pub existed : (document.domain ≡ domain) × Memᴰ document s.domains
  pub uninhabited : any (λ (a : ActorDocument). a.domain == domain) s.actors ≡ false
  pub left : Without (λ (x : DomainDocument). x.domain == domain) s.domains s'.domains
  pub rest : s' ≡ record s { domains = s'.domains }

module _ (d : Drivers) (domains : DriverLaws d.domains) (actors : DriverLaws d.actors) where
  abbrev c : DomainCollections Store
  c = domain_collections d

  delete_found-deletes :
      (msg : DomainDeleteMessage) (s : Store)
      → msg.force ≡ false
      → (delete_found c msg s).0 ≡ ok tt
      → ((delete_found c msg s).1.domains ≡ delete_first (has_domain msg.domain) s.domains)
        × ((delete_found c msg s).1 ≡ record s { domains = (delete_found c msg s).1.domains })
  unfolding delete_found domain_collections
  delete_found-deletes msg s unforced h =
      let p = has_domain msg.domain in
      elim (Result-cases (d.domains.delete_one p s.domains).0) [
        | inr (e, failed) ↦ absurd (ground arith)
        | inl (n, done) ↦
            let after : (delete_found c msg s).1
                ≡ record s { domains = (d.domains.delete_one p s.domains).1 } =
              elim (Bool-cases (ltb 0 n)) [
                | inl some_gone ↦ rw (done, delete_found) (rw (some_gone, unforced) refl)
                | inr none_gone ↦ rw (done, delete_found) (rw none_gone refl)
              ] in
            elim (domains.delete_one_lem p s.domains) [
              | inr (e, failed, same) ↦ absurd cc
              | inl left ↦ (
                ap (λ (x : Store). x.domains) after ∙ left,
                after
                    ∙ ap (λ (l : List DomainDocument). record s { domains = l })
                        (sym (ap (λ (x : Store). x.domains) after)),
              )
            ]
      ]

  delete_checked-deletes :
      (msg : DomainDeleteMessage) (s : Store)
      → msg.force ≡ false
      → (delete_checked c msg s).0 ≡ ok tt
      → (c.count_actors msg.domain s ≡ ok 0) × (delete_checked c msg s ≡ delete_found c msg s)
  unfolding delete_checked
  delete_checked-deletes msg s unforced h = elim (Result-cases (c.count_actors msg.domain s)) [
    | inr (e, failed) ↦ absurd (ground arith)
    | inl (n, counted) ↦ elim (Bool-cases (ltb 0 n)) [
      | inl inhabited ↦ absurd (ground arith)
      | inr empty ↦ (ground arith, ground arith)
    ]
  ]

  -- A deletion that is not forced succeeds only for a domain that has a document and no actors. If
  -- the domain has no second document, exactly its document is then gone; the documents of the
  -- other domains, all actors and the other collections are as before.
  pub delete_domain_object-IsDeleted :
      (msg : DomainDeleteMessage) (s : Store)
      → msg.force ≡ false
      → AtMostOne (λ (x : DomainDocument). x.domain == msg.domain) s.domains
      → (delete_domain_object (domain_collections d) msg s).0 ≡ ok tt
      → IsDeleted msg.domain s (delete_domain_object (domain_collections d) msg s).1
  unfolding delete_domain_object domain_collections find_domain_by_name
  delete_domain_object-IsDeleted msg s unforced single h =
      let (doc, found, same) = with_domain-found c msg.domain s (delete_checked c msg) h in
      let (empty, checked) = delete_checked-deletes msg s unforced (sym (ap (λ r. r.0) same) ∙ h) in
      let path = same ∙ checked in
      let (gone, rest) = delete_found-deletes msg s unforced (sym (ap (λ r. r.0) path) ∙ h) in
      let (own, there) = domains.find_one_some (has_domain msg.domain) s.domains doc found in
      let none_left = actors.count_documents_lem (lives_in msg.domain) s.actors 0 empty in
      rw path (record {
        document = doc;
        existed = ((eq_iff doc.domain msg.domain).0 own, there);
        uninhabited = keep-none (lives_in msg.domain) s.actors (sym none_left);
        left =
            subst (Without (has_domain msg.domain) s.domains) (sym gone)
              (delete_first-Without (has_domain msg.domain) s.domains single);
        rest = rest;
      })

-- the mode that a name stands for; the mode before, if there is no name
abbrev pub IsMode : Option String → RegistrationMode → RegistrationMode → Type 0
IsMode none before after = after ≡ before
IsMode (some name) before after =
    ((name ≡ "open") × (after ≡ open_mode))
    ⊎ (((name ≡ "approval") × (after ≡ approval))
        ⊎ (((name ≡ "invite") × (after ≡ invite)) ⊎ ((name ≡ "closed") × (after ≡ closed))))

-- The document of a domain before and after an update at the time `now`, field by field.
pub record HasFields (to_config : Value → Value) (now : ℕ) (msg : DomainMessage)
    (before after : DomainDocument) : Type 0 where
  pub domain : after.domain ≡ before.domain
  pub name : after.name ≡ or_else msg.name before.name
  pub description : after.description ≡ or_else msg.description before.description
  pub contact_email : after.contact_email ≡ or_else msg.contact_email before.contact_email
  pub rules : after.rules ≡ or_else msg.rules before.rules
  pub registration_mode :
      IsMode msg.registration_mode before.registration_mode after.registration_mode
  pub authorized_fetch :
      after.authorized_fetch ≡ unwrap_or msg.authorized_fetch before.authorized_fetch
  pub max_note_length : after.max_note_length ≡ or_else msg.max_note_length before.max_note_length
  pub max_file_size : after.max_file_size ≡ or_else msg.max_file_size before.max_file_size
  pub allowed_file_types :
      after.allowed_file_types ≡ or_else msg.allowed_file_types before.allowed_file_types
  pub domain_key_id : after.domain_key_id ≡ before.domain_key_id
  pub config : after.config ≡ or_else (map_option to_config msg.properties) before.config
  pub status : after.status ≡ before.status
  pub created_at : after.created_at ≡ before.created_at
  pub updated_at : after.updated_at ≡ now

-- What an update has done, from `s` to `s'`.
pub record IsUpdated (to_config : Value → Value) (now : ℕ) (msg : DomainMessage) (s s' : Store)
    : Type 0 where
  pub before : DomainDocument
  pub after : DomainDocument
  pub existed : find (λ (x : DomainDocument). x.domain == msg.domain) s.domains ≡ some before
  pub updated : find (λ (x : DomainDocument). x.domain == msg.domain) s'.domains ≡ some after
  pub fields : HasFields to_config now msg before after
  pub others :
      (other : String)
      → (msg.domain == other) ≡ false
      → find (λ (x : DomainDocument). x.domain == other) s'.domains
        ≡ find (λ (x : DomainDocument). x.domain == other) s.domains
  pub rest : s' ≡ record s { domains = s'.domains }

mode_to_set-IsMode :
    (name : Option String) (mode : Option RegistrationMode) (before : RegistrationMode)
    → mode_to_set name ≡ ok mode
    → IsMode name before (unwrap_or mode before)
unfolding mode_to_set parse_mode lookup
mode_to_set-IsMode none mode before h = ground arith
mode_to_set-IsMode (some name) mode before h =
    ground (
      arith,
      eq_iff "open" name,
      eq_iff "approval" name,
      eq_iff "invite" name,
      eq_iff "closed" name,
    )

change_of-HasFields :
    (to_config : Value → Value) (now : ℕ) (msg : DomainMessage) (mode : Option RegistrationMode)
    (before : DomainDocument)
    → mode_to_set msg.registration_mode ≡ ok mode
    → HasFields to_config now msg before (change_of to_config now msg mode before)
unfolding change_of
change_of-HasFields to_config now msg mode before h = record {
  domain = refl;
  name = refl;
  description = refl;
  contact_email = refl;
  rules = refl;
  registration_mode = mode_to_set-IsMode msg.registration_mode mode before.registration_mode h;
  authorized_fetch = refl;
  max_note_length = refl;
  max_file_size = refl;
  allowed_file_types = refl;
  domain_key_id = refl;
  config = refl;
  status = refl;
  created_at = refl;
  updated_at = refl;
}

member-find :
    {Doc : Type 0} (p : Doc → Bool) (docs : List Doc) (x : Doc)
    → Memᴰ x docs
    → p x ≡ true
    → (y : Doc) × (find p docs ≡ some y)
member-find p [] x m h = absurd (Memᴰ.not-nil m)
member-find p (z ∷ docs) x m h = elim (Bool-cases (p z)) [
  | inl own ↦ (z, rw own refl)
  | inr other ↦ elim (Memᴰ.cases_cons m) [
    | inl same ↦ let e = ap p same in absurd cc
    | inr later ↦ let (y, found) = member-find p docs x later h in (y, rw other found)
  ]
]

module _ (d : Drivers) (domains : DriverLaws d.domains) where
  update_found-updates :
      (to_config : Value → Value) (now : ℕ) (msg : DomainMessage) (s : Store)
      → (update_found (domain_collections d) to_config now msg s).0 ≡ ok tt
      → (mode : Option RegistrationMode) × (mode_to_set msg.registration_mode ≡ ok mode)
        × ((update_found (domain_collections d) to_config now msg s).1 ≡ record s {
          domains =
              update_first (has_domain msg.domain) (change_of to_config now msg mode) s.domains;
        })
  unfolding update_found domain_collections
  update_found-updates to_config now msg s h =
      elim (Result-cases (mode_to_set msg.registration_mode)) [
        | inr (e, unknown) ↦ absurd (ground arith)
        | inl (mode, known) ↦
            let f = change_of to_config now msg mode in
            let p = has_domain msg.domain in
            elim (Result-cases (d.domains.update_one p f s.domains).0) [
              | inr (e, failed) ↦ absurd (ground arith)
              | inl (n, done) ↦ elim (domains.update_one_lem p f s.domains) [
                | inr (e, failed, same) ↦ absurd cc
                | inl moved ↦ (mode, known, rw (known, update_found) (rw done (rw moved refl)))
              ]
            ]
      ]

  -- An update succeeds only for a domain that has a document and a registration mode that is known,
  -- if one is given. In the first document of the domain each field that the message has is then
  -- set, the time of the update is the present one, and the other fields are as before, as are the
  -- documents of the other domains and the other collections.
  pub update_domain_object-changes :
      (to_config : Value → Value) (now : ℕ) (msg : DomainMessage) (s : Store)
      → (update_domain_object (domain_collections d) to_config now msg s).0 ≡ ok tt
      → IsUpdated to_config now msg s
          (update_domain_object (domain_collections d) to_config now msg s).1
  unfolding update_domain_object domain_collections find_domain_by_name change_of
  update_domain_object-changes to_config now msg s h =
      let c = domain_collections d in
      let p = has_domain msg.domain in
      let (doc, found, same) =
        with_domain-found c msg.domain s (update_found c to_config now msg) h in
      let (mode, known, moved) =
        update_found-updates to_config now msg s (sym (ap (λ r. r.0) same) ∙ h) in
      let f = change_of to_config now msg mode in
      let (own, there) = domains.find_one_some p s.domains doc found in
      let (first, is_first) = member-find p s.domains doc there own in
      let docs = ap (λ (x : Store). x.domains) moved in
      rw same (record {
        before = first;
        after = f first;
        existed = is_first;
        updated =
            ap (find p) docs ∙ (find-update p f s.domains (λ x. refl) ∙ ap (map_option f) is_first);
        fields = change_of-HasFields to_config now msg mode first known;
        others = λ other differs.
            ap (find (has_domain other)) docs
            ∙ find-update_other p (has_domain other) f s.domains (λ x. refl)
                (λ x own'. ground (
                  arith,
                  eq_iff x.domain msg.domain,
                  eq_iff x.domain other,
                  eq_iff msg.domain other,
                ));
        rest = moved ∙ ap (λ (l : List DomainDocument). record s { domains = l }) (sym docs);
      })
