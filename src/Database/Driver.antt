-- ===== src/Database/Driver.antt =====
-- The driver of MongoDB for a collection, and what it promises. A filter is the test that it makes
-- of a document, and an update the change that it makes to one.
use oxifed.Base.{
  ℕ, ◌≡◌, String, Bool, true, false, Option, none, some, ◌⊎◌, List, [], ◌∷◌, ◌++◌, Result, ok, err,
  if◌then◌else◌, any, keep, length,
}
use mathlib.Core.List.{Memᴰ}

-- How the documents that a filter finds are sorted, skipped and limited.
pub record Window : Type 0 where
  pub newest_first : Bool
  pub limit : Option ℕ
  pub skip : Option ℕ

abbrev pub whole : Window
whole = record { newest_first = false; limit = none; skip = none }

-- A write returns the documents after it. `clock` is the server's, for `$currentDate`.
pub record Driver (Doc : Type 0) : Type 0 where
  pub find_one : (Doc → Bool) → List Doc → Result String (Option Doc)
  pub find : (Doc → Bool) → Window → List Doc → Result String (List Doc)
  pub count_documents : (Doc → Bool) → List Doc → Result String ℕ
  pub insert_one : Doc → List Doc → Result String (Unit {0}) × List Doc
  -- the number of documents that the filter matched or that were deleted
  pub update_one : (Doc → Bool) → (Doc → Doc) → List Doc → Result String ℕ × List Doc
  -- with `upsert`
  pub replace_one : (Doc → Bool) → Doc → List Doc → Result String ℕ × List Doc
  pub delete_one : (Doc → Bool) → List Doc → Result String ℕ × List Doc
  pub delete_many : (Doc → Bool) → List Doc → Result String ℕ × List Doc
  pub clock : ℕ

module _ {Doc : Type 0} where
  -- the first document that passes, updated
  unfoldable pub update_first : (Doc → Bool) → (Doc → Doc) → List Doc → List Doc
  update_first p f [] = []
  update_first p f (x ∷ xs) = let rest = update_first p f xs in if p x then f x ∷ xs else x ∷ rest

  -- without the first document that passes
  unfoldable pub delete_first : (Doc → Bool) → List Doc → List Doc
  delete_first p [] = []
  delete_first p (x ∷ xs) = let rest = delete_first p xs in if p x then xs else x ∷ rest

-- What MongoDB does. An error of a write leaves open whether it was made.
pub record DriverLaws {Doc : Type 0} (d : Driver Doc) : Type 0 where
  -- a document that is found is one of the collection that passes the filter
  pub find_one_some :
      (p : Doc → Bool) (docs : List Doc) (x : Doc)
      → d.find_one p docs ≡ ok (some x)
      → (p x ≡ true) × Memᴰ x docs
  pub find_one_none :
      (p : Doc → Bool) (docs : List Doc) → d.find_one p docs ≡ ok none → any p docs ≡ false
  -- a search that is not limited finds the documents of the collection that pass the filter
  pub find_whole :
      (p : Doc → Bool) (docs xs : List Doc)
      → d.find p whole docs ≡ ok xs
      → (x : Doc)
      → (Memᴰ x xs → (p x ≡ true) × Memᴰ x docs) × (p x ≡ true → Memᴰ x docs → Memᴰ x xs)
  -- a count is that of the documents that pass the filter
  pub count_documents_lem :
      (p : Doc → Bool) (docs : List Doc) (n : ℕ)
      → d.count_documents p docs ≡ ok n
      → n ≡ length (keep p docs)
  pub insert_one_lem :
      (x : Doc) (docs : List Doc)
      → ((d.insert_one x docs).1 ≡ docs ++ x ∷ [])
        ⊎ ((e : String) × ((d.insert_one x docs).0 ≡ err e) × ((d.insert_one x docs).1 ≡ docs))
  pub update_one_lem :
      (p : Doc → Bool) (f : Doc → Doc) (docs : List Doc)
      → ((d.update_one p f docs).1 ≡ update_first p f docs)
        ⊎ ((e : String) × ((d.update_one p f docs).0 ≡ err e) × ((d.update_one p f docs).1 ≡ docs))
  pub delete_one_lem :
      (p : Doc → Bool) (docs : List Doc)
      → ((d.delete_one p docs).1 ≡ delete_first p docs)
        ⊎ ((e : String) × ((d.delete_one p docs).0 ≡ err e) × ((d.delete_one p docs).1 ≡ docs))
  -- what stays is told by a test: a document that does not pass the filter stays, and none that
  -- passes stays when the deletion succeeds
  pub delete_many_lem :
      (p : Doc → Bool) (docs : List Doc)
      → (q : Doc → Bool) × ((d.delete_many p docs).1 ≡ keep q docs)
        × ((x : Doc) → p x ≡ false → q x ≡ true)
        × ((n : ℕ) → (d.delete_many p docs).0 ≡ ok n → (x : Doc) → p x ≡ true → q x ≡ false)
