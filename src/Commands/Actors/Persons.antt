-- ===== src/Commands/Actors/Persons.antt =====
-- The commands on persons and users keep the actors well named.
use oxifed.Base.{String, Option, List}
use oxifed.Database.Documents.{JrdLink}
use oxifed.Database.Driver.{DriverLaws}
use oxifed.Commands.Persons.{
  create_person_object, create_user, create_webfinger_profile, delete_person_object,
  update_person_object, ProfileCreateMessage, ProfileUpdateMessage, ProfileDeleteMessage,
  UserCreateMessage,
}
use oxifed.Commands.Services.{Services}
use oxifed.Commands.Actors.Keeping.{Keeps, keeping}
use oxifed.Commands.Actors.Written.{
  create-Keeps, update_profile-Keeps, save_key-Keeps, insert_profile-Keeps, delete_profile-Keeps,
  delete_actor-Keeps,
}

module _ (x : Services) (laws : DriverLaws x.drivers.actors) where
  create_webfinger_profile-Keeps :
      (subject url : String) (aliases : Option (List String)) (links : Option (List JrdLink))
      → Keeps (create_webfinger_profile x subject url aliases links)
  unfolding create_webfinger_profile
  create_webfinger_profile-Keeps subject url aliases links =
      search (keeping, insert_profile-Keeps x.drivers laws)

  pub create_person_object-Keeps :
      (message : ProfileCreateMessage) → Keeps (create_person_object x message)
  unfolding create_person_object
  create_person_object-Keeps message = search (
    keeping,
    create-Keeps x.drivers laws,
    save_key-Keeps x.drivers laws,
    create_webfinger_profile-Keeps,
  )

  pub create_user-Keeps : (message : UserCreateMessage) → Keeps (create_user x message)
  unfolding create_user
  create_user-Keeps message = search (
    keeping,
    create-Keeps x.drivers laws,
    save_key-Keeps x.drivers laws,
    create_webfinger_profile-Keeps,
  )

  pub update_person_object-Keeps :
      (message : ProfileUpdateMessage) → Keeps (update_person_object x message)
  unfolding update_person_object
  update_person_object-Keeps message = search (keeping, update_profile-Keeps x.drivers laws)

  pub delete_person_object-Keeps :
      (message : ProfileDeleteMessage) → Keeps (delete_person_object x message)
  unfolding delete_person_object
  delete_person_object-Keeps message =
      search (keeping, delete_actor-Keeps x.drivers laws, delete_profile-Keeps x.drivers laws)
