-- ===== src/Database.antt =====
-- The tables as lists of rows, and what the Prisma calls of the services do to one: `findUnique`
-- and `findFirst` take the first row that fits, `updateMany` rewrites the rows that fit and says
-- how many they were, `create` adds a row at the end.
pub mod Laws
pub mod Counts
pub mod Every
pub mod Rowwise
use help_mi.Common.{zero, ℕ, suc, Bool, Option, none, some, List, [], ◌∷◌, ◌++◌, if◌then◌else◌}

module _ {ℓ} {A : Type ℓ} where
  unfoldable pub find_first : (A → Bool) → List A → Option A
  find_first p [] = none
  find_first p (r ∷ rows) = if p r then some r else find_first p rows

  unfoldable pub find_many : (A → Bool) → List A → List A
  find_many p [] = []
  find_many p (r ∷ rows) = let rest = find_many p rows in if p r then r ∷ rest else rest

  unfoldable pub update_rows : (A → Bool) → (A → A) → List A → List A
  update_rows p f [] = []
  update_rows p f (r ∷ rows) = (if p r then f r else r) ∷ update_rows p f rows

  unfoldable pub count_rows : (A → Bool) → List A → ℕ
  count_rows p [] = 0
  count_rows p (r ∷ rows) = let rest = count_rows p rows in if p r then suc rest else rest

  abbrev pub has_row : (A → Bool) → List A → Bool
  has_row p rows = elim (find_first p rows) [ none ↦ Bool.false | some _ ↦ Bool.true ]

  unfoldable pub add_row : A → List A → List A
  add_row r rows = rows ++ r ∷ []

  -- `orderBy: { createdAt: 'desc' }` of rows in the order of their creation.
  unfoldable pub newest_first : List A → List A
  newest_first [] = []
  newest_first (r ∷ rows) = newest_first rows ++ r ∷ []

  unfoldable pub take_rows : ℕ → List A → List A
  take_rows zero rows = []
  take_rows (suc n) [] = []
  take_rows (suc n) (r ∷ rows) = r ∷ take_rows n rows

  unfoldable pub rows_in : List A → ℕ
  rows_in [] = 0
  rows_in (r ∷ rows) = suc (rows_in rows)
