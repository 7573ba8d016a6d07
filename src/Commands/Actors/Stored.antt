-- ===== src/Commands/Actors/Stored.antt =====
-- Lists of actors under the changes that the driver makes.
use oxifed.Base.{
  ◌≡◌, refl, ap, ◌∙◌, String, Bool, false, inl, inr, List, [], ◌∷◌, ◌++◌, any, keep, All, ◌||◌,
  ◌==◌, eq_iff, arith, Bool-cases,
}
use oxifed.Database.Documents.{ActorDocument}
use oxifed.Database.Driver.{update_first, delete_first}
use oxifed.Database.Manager.{has_actor_id}
use oxifed.Commands.Persons.{actor_id_of}

abbrev pub IsNamed : ActorDocument → Type 0
IsNamed a = a.actor_id ≡ actor_id_of a.preferred_username a.domain

abbrev pub has_id : String → List ActorDocument → Bool
has_id id actors = any (has_actor_id id) actors

abbrev pub IsDistinct : List ActorDocument → Type 0
IsDistinct [] = Unit
IsDistinct (a ∷ actors) = (has_id a.actor_id actors ≡ false) × IsDistinct actors

pub record IsWellNamed (actors : List ActorDocument) : Type 0 where
  pub named : All IsNamed actors
  pub distinct : IsDistinct actors

pub eq_sym : (s t : String) → (s == t) ≡ false → (t == s) ≡ false
eq_sym s t h = ground (arith, eq_iff s t, eq_iff t s)

-- an id that no actor has is that of a new actor
has_id-append :
    (id : String) (actors : List ActorDocument) (x : ActorDocument)
    → has_id id (actors ++ x ∷ []) ≡ (has_id id actors || (x.actor_id == id))
has_id-append id [] x = ground arith
has_id-append id (a ∷ actors) x = ground (arith, has_id-append id actors x)

IsNamed-append :
    (actors : List ActorDocument) (x : ActorDocument)
    → All IsNamed actors
    → IsNamed x
    → All IsNamed (actors ++ x ∷ [])
IsNamed-append [] x v n = (n, tt)
IsNamed-append (a ∷ actors) x (h, v) n = (h, IsNamed-append actors x v n)

IsDistinct-append :
    (actors : List ActorDocument) (x : ActorDocument)
    → IsDistinct actors
    → has_id x.actor_id actors ≡ false
    → IsDistinct (actors ++ x ∷ [])
IsDistinct-append [] x v n = (refl, tt)
IsDistinct-append (a ∷ actors) x (h, v) n = (
  ground (arith, has_id-append a.actor_id actors x, eq_sym a.actor_id x.actor_id),
  IsDistinct-append actors x v (ground arith),
)

pub append-IsWellNamed :
    (actors : List ActorDocument) (x : ActorDocument)
    → IsWellNamed actors
    → IsNamed x
    → has_id x.actor_id actors ≡ false
    → IsWellNamed (actors ++ x ∷ [])
append-IsWellNamed actors x v n fresh = record {
  named = IsNamed-append actors x v.named n;
  distinct = IsDistinct-append actors x v.distinct fresh;
}

module _ (q : ActorDocument → Bool) where
  keep-has_id :
      (id : String) (actors : List ActorDocument)
      → has_id id actors ≡ false
      → has_id id (keep q actors) ≡ false
  keep-has_id id [] h = refl
  keep-has_id id (a ∷ actors) h = ground (arith, keep-has_id id actors)

  keep-IsNamed : (actors : List ActorDocument) → All IsNamed actors → All IsNamed (keep q actors)
  keep-IsNamed [] v = tt
  keep-IsNamed (a ∷ actors) (h, v) = elim (Bool-cases (q a)) [
    | inl yes' ↦ rw yes' (h, keep-IsNamed actors v)
    | inr no' ↦ rw no' (keep-IsNamed actors v)
  ]

  keep-IsDistinct : (actors : List ActorDocument) → IsDistinct actors → IsDistinct (keep q actors)
  keep-IsDistinct [] v = tt
  keep-IsDistinct (a ∷ actors) (h, v) = elim (Bool-cases (q a)) [
    | inl yes' ↦ rw yes' (keep-has_id a.actor_id actors h, keep-IsDistinct actors v)
    | inr no' ↦ rw no' (keep-IsDistinct actors v)
  ]

  pub keep-IsWellNamed :
      (actors : List ActorDocument) → IsWellNamed actors → IsWellNamed (keep q actors)
  keep-IsWellNamed actors v = record {
    named = keep-IsNamed actors v.named;
    distinct = keep-IsDistinct actors v.distinct;
  }

module _ (p : ActorDocument → Bool) where
  delete_first-has_id :
      (id : String) (actors : List ActorDocument)
      → has_id id actors ≡ false
      → has_id id (delete_first p actors) ≡ false
  unfolding delete_first
  delete_first-has_id id [] h = refl
  delete_first-has_id id (a ∷ actors) h = ground (arith, delete_first-has_id id actors)

  delete_first-IsNamed :
      (actors : List ActorDocument) → All IsNamed actors → All IsNamed (delete_first p actors)
  unfolding delete_first
  delete_first-IsNamed [] v = tt
  delete_first-IsNamed (a ∷ actors) (h, v) = elim (Bool-cases (p a)) [
    | inl yes' ↦ rw yes' v
    | inr no' ↦ rw no' (h, delete_first-IsNamed actors v)
  ]

  delete_first-IsDistinct :
      (actors : List ActorDocument) → IsDistinct actors → IsDistinct (delete_first p actors)
  unfolding delete_first
  delete_first-IsDistinct [] v = tt
  delete_first-IsDistinct (a ∷ actors) (h, v) = elim (Bool-cases (p a)) [
    | inl yes' ↦ rw yes' v
    | inr no' ↦ rw no' (delete_first-has_id a.actor_id actors h, delete_first-IsDistinct actors v)
  ]

  pub delete_first-IsWellNamed :
      (actors : List ActorDocument) → IsWellNamed actors → IsWellNamed (delete_first p actors)
  delete_first-IsWellNamed actors v = record {
    named = delete_first-IsNamed actors v.named;
    distinct = delete_first-IsDistinct actors v.distinct;
  }

-- an update that leaves the name and the id alone
module _ (p : ActorDocument → Bool) (f : ActorDocument → ActorDocument)
    (same_id : (a : ActorDocument) → (f a).actor_id ≡ a.actor_id)
    (same_name : (a : ActorDocument) → IsNamed a → IsNamed (f a)) where
  update_first-has_id :
      (id : String) (actors : List ActorDocument)
      → has_id id (update_first p f actors) ≡ has_id id actors
  unfolding update_first
  update_first-has_id id [] = refl
  update_first-has_id id (a ∷ actors) = elim (Bool-cases (p a)) [
    | inl yes' ↦ rw yes' (ap (λ (t : String). (t == id) || has_id id actors) (same_id a))
    | inr no' ↦ rw no' (ap (λ (b : Bool). (a.actor_id == id) || b) (update_first-has_id id actors))
  ]

  update_first-IsNamed :
      (actors : List ActorDocument) → All IsNamed actors → All IsNamed (update_first p f actors)
  unfolding update_first
  update_first-IsNamed [] v = tt
  update_first-IsNamed (a ∷ actors) (h, v) = elim (Bool-cases (p a)) [
    | inl yes' ↦ rw yes' (same_name a h, v)
    | inr no' ↦ rw no' (h, update_first-IsNamed actors v)
  ]

  update_first-IsDistinct :
      (actors : List ActorDocument) → IsDistinct actors → IsDistinct (update_first p f actors)
  unfolding update_first
  update_first-IsDistinct [] v = tt
  update_first-IsDistinct (a ∷ actors) (h, v) = elim (Bool-cases (p a)) [
    | inl yes' ↦ rw yes' (ap (λ (t : String). has_id t actors) (same_id a) ∙ h, v)
    | inr no' ↦ rw no' (update_first-has_id a.actor_id actors ∙ h, update_first-IsDistinct actors v)
  ]

  pub update_first-IsWellNamed :
      (actors : List ActorDocument) → IsWellNamed actors → IsWellNamed (update_first p f actors)
  update_first-IsWellNamed actors v = record {
    named = update_first-IsNamed actors v.named;
    distinct = update_first-IsDistinct actors v.distinct;
  }
