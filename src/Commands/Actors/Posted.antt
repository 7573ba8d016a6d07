-- ===== src/Commands/Actors/Posted.antt =====
-- The commands on notes and keys keep the actors well named.
use oxifed.Base.{◌≡◌, String, Option, none, some, Result, ok, err, arith}
use oxifed.Inbox.Types.{ActivityDocument}
use oxifed.Pki.{KeyAlgorithm, PkiError, UserKeyInfo}
use oxifed.Database.Documents.{ObjectDocument, KeyDocument, Store}
use oxifed.Database.Manager
use oxifed.Database.Manager.{Drivers}
use oxifed.Commands.Domains.{RabbitMqError}
use oxifed.Commands.Keys.{KeyGenerateMessage, handle_key_generate, store_key, requested_algorithm}
use oxifed.Pki.Manager.{generate_user_key, new_manager}
use oxifed.Commands.Notes.{
  create_note_object, update_note_object, delete_note_object, record_activity, record_deletion,
  NoteCreateMessage, NoteUpdateMessage, NoteDeleteMessage,
}
use oxifed.Commands.Services.{Services, Command, lift, writes}
use oxifed.Commands.Actors.Keeping.{Keeps, lift-Keeps, writes-Keeps, keeping}

module _ (d : Drivers) (e : String → RabbitMqError) where
  insert_object-Keeps : (o : ObjectDocument) → Keeps (writes e (Manager.insert_object d o))
  insert_object-Keeps o =
      writes-Keeps e (Manager.insert_object d o) (λ s v. unfold Manager.insert_object in v)

  insert_activity-Keeps : (a : ActivityDocument) → Keeps (writes e (Manager.insert_activity d a))
  insert_activity-Keeps a =
      writes-Keeps e (Manager.insert_activity d a) (λ s v. unfold Manager.insert_activity in v)

  insert_key-Keeps : (k : KeyDocument) → Keeps (writes e (Manager.insert_key d k))
  insert_key-Keeps k =
      writes-Keeps e (Manager.insert_key d k) (λ s v. unfold Manager.insert_key in v)

  update_object-state :
      (id : String) (f : ObjectDocument → ObjectDocument) (s : Store)
      → (Manager.update_object d id f s).1.actors ≡ s.actors
  unfolding Manager.update_object
  update_object-state id f s = ground arith

  update_object-Keeps :
      (id : String) (f : ObjectDocument → ObjectDocument)
      → Keeps (writes e (Manager.update_object d id f))
  update_object-Keeps id f =
      writes-Keeps e (Manager.update_object d id f) (λ s v. rw (update_object-state id f s) v)

  delete_object-state :
      (id : String) (s : Store) → (Manager.delete_object d id s).1.actors ≡ s.actors
  unfolding Manager.delete_object
  delete_object-state id s = ground arith

  delete_object-Keeps : (id : String) → Keeps (writes e (Manager.delete_object d id))
  delete_object-Keeps id =
      writes-Keeps e (Manager.delete_object d id) (λ s v. rw (delete_object-state id s) v)

module _ (x : Services) where
  record_activity-Keeps : (a : ActivityDocument) → Keeps (record_activity x a)
  unfolding record_activity
  record_activity-Keeps a = search (keeping, insert_activity-Keeps)

  record_deletion-Keeps :
      (id actor_id : String) (note : Option ObjectDocument)
      → Keeps (record_deletion x id actor_id note)
  record_deletion-Keeps id actor_id none = lift-Keeps (ok tt)
  record_deletion-Keeps id actor_id (some note) = record_activity-Keeps _

  pub create_note_object-Keeps :
      (message : NoteCreateMessage) → Keeps (create_note_object x message)
  unfolding create_note_object
  create_note_object-Keeps message =
      search (keeping, insert_object-Keeps, record_activity-Keeps) depth 16

  pub update_note_object-Keeps :
      (message : NoteUpdateMessage) → Keeps (update_note_object x message)
  unfolding update_note_object
  update_note_object-Keeps message =
      search (keeping, update_object-Keeps, record_activity-Keeps) depth 16

  pub delete_note_object-Keeps :
      (message : NoteDeleteMessage) → Keeps (delete_note_object x message)
  unfolding delete_note_object
  delete_note_object-Keeps message =
      search (keeping, delete_object-Keeps, record_deletion-Keeps) depth 16

  store_key-Keeps : (key : Result PkiError UserKeyInfo) → Keeps (store_key x key)
  unfolding store_key
  store_key-Keeps (err e) = lift-Keeps _
  store_key-Keeps (ok key) = insert_key-Keeps x.drivers _ _

  algorithm-Keeps :
      (actor : String) (r : Result RabbitMqError KeyAlgorithm)
      → Keeps (elim r as (λ _. Command (Unit {0})) [
        | err e ↦ lift (err e)
        | ok algorithm ↦
            store_key x (generate_user_key x.crates x.env.now actor algorithm new_manager).0
      ])
  algorithm-Keeps actor (err e) = lift-Keeps (err e)
  algorithm-Keeps actor (ok algorithm) = store_key-Keeps _

  pub handle_key_generate-Keeps :
      (message : KeyGenerateMessage) → Keeps (handle_key_generate x message)
  unfolding handle_key_generate
  handle_key_generate-Keeps message = algorithm-Keeps message.actor (requested_algorithm message)
