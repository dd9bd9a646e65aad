-- ===== src/Mongo.antt =====
-- What the repositories use of the document database (mongoose over MongoDB), which is not part of
-- the repository: one collection of documents in natural order, with its documented behaviour as laws.
use rest_ecommerce_api.Prelude.{
  ℕ, ◌≡◌, ◌≤◌, ◌⊎◌, Bool, true, Option, List, [], ◌∷◌, ◌++◌, All, length, first, any, modify_first,
  map, count_by, if◌then◌else◌,
}
use mathlib.Core.Option

-- What an insertion does: it stores the document, refuses it under a unique index (E11000), or
-- fails for any other reason.
pub data Inserted (Doc : Type 0) : Type 0 where
  inserted : List Doc → Inserted Doc
  duplicate : Inserted Doc
  failed : Inserted Doc

pub record Collection (Doc : Type 0) : Type 0 where
  -- `findOne(filter)`
  pub find_one : (Doc → Bool) → List Doc → Option Doc
  -- `findOneAndUpdate(filter, update, { new: true })`, one atomic step
  pub find_one_and_update : (Doc → Bool) → (Doc → Doc) → List Doc → Option Doc × List Doc
  -- `save()` of a new document, under the unique indexes that the first argument tells apart
  pub insert_one : (Doc → Doc → Bool) → Doc → List Doc → Inserted Doc
  -- `find(filter).sort({ key: 1 }).limit(n)`
  pub find_sorted : (Doc → Bool) → (Doc → ℕ) → ℕ → List Doc → List Doc
  -- `updateMany(filter, update)`
  pub update_many : (Doc → Bool) → (Doc → Doc) → List Doc → List Doc
  -- `find(filter)`
  pub find : (Doc → Bool) → List Doc → List Doc
  -- Documented: one document that matches, the first in natural order, or null.
  pub find_one_first : (p : Doc → Bool) (ds : List Doc) → find_one p ds ≡ first p ds
  -- Documented: the update is applied to that document alone, which is returned as updated.
  pub find_one_and_update_first :
      (p : Doc → Bool) (f : Doc → Doc) (ds : List Doc)
      → find_one_and_update p f ds ≡ (Option.map f (first p ds), modify_first p f ds)
  -- Documented: a unique index refuses a second document with its key; else the document is added.
  pub insert_one_lem :
      (clash : Doc → Doc → Bool) (d : Doc) (ds : List Doc)
      → (insert_one clash d ds ≡ failed)
        ⊎ (insert_one clash d ds
            ≡ (if any (clash d) ds then duplicate else inserted (ds ++ d ∷ [])))
  -- Documented: every result matches the filter, and there are at most `n`.
  pub find_sorted_matches :
      (p : Doc → Bool) (key : Doc → ℕ) (n : ℕ) (ds : List Doc)
      → All (λ d. p d ≡ true) (find_sorted p key n ds) × (length (find_sorted p key n ds) ≤ n)
  -- Documented: the update is applied to every document that matches.
  pub update_many_all :
      (p : Doc → Bool) (f : Doc → Doc) (ds : List Doc)
      → update_many p f ds ≡ map (λ d. if p d then f d else d) ds
  -- Documented: as many results as documents match.
  pub length-find : (p : Doc → Bool) (ds : List Doc) → length (find p ds) ≡ count_by p ds
