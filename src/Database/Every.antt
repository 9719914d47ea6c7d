-- ===== src/Database/Every.antt =====
-- What holds of every row of a table, and the writes that keep it.
use mathlib.Core.Option.{none-ne-some, some-injective}
use help_mi.Common.{
  ℕ, zero, suc, map, subst, some, ◌≡◌, refl, Bool, true, false, List, [], ◌∷◌, ◌++◌, if◌then◌else◌,
}
use help_mi.Database.{find_first, find_many, update_rows, add_row, newest_first, take_rows}

-- What holds of both outcomes of a test.
pub if-either {ℓ} :
    {A : Type ℓ} (Q : A → Type 0) (b : Bool) (left right : A)
    → (b ≡ true → Q left)
    → (b ≡ false → Q right)
    → Q (if b then left else right)
if-either Q true left right h k = h refl
if-either Q false left right h k = k refl

module _ {ℓ} {A : Type ℓ} (P : A → Type 0) where
  abbrev pub AllOf : List A → Type 0
  AllOf [] = Unit
  AllOf (x ∷ xs) = P x × AllOf xs

  pub AllOf-++ : (xs ys : List A) → AllOf xs → AllOf ys → AllOf (xs ++ ys)
  AllOf-++ [] ys h k = k
  AllOf-++ (x ∷ xs) ys (p, h) k = (p, AllOf-++ xs ys h k)

  pub AllOf-add_row : (new : A) (xs : List A) → P new → AllOf xs → AllOf (add_row new xs)
  unfolding add_row
  AllOf-add_row new xs p h = AllOf-++ xs (new ∷ []) h (p, tt)

  if-rewritten :
      (b : Bool) (f : A → A) (x : A) → (b ≡ true → P (f x)) → P x → P (if b then f x else x)
  if-rewritten true f x h p = h refl
  if-rewritten false f x h p = p

  pub AllOf-update_rows :
      (q : A → Bool) (f : A → A) (xs : List A)
      → ((x : A) → q x ≡ true → P x → P (f x))
      → AllOf xs
      → AllOf (update_rows q f xs)
  unfolding update_rows
  AllOf-update_rows q f [] h k = tt
  AllOf-update_rows q f (x ∷ xs) h (p, k) =
      (if-rewritten (q x) f x (λ e. h x e p) p, AllOf-update_rows q f xs h k)

  -- A row that is found is a row of the table.
  pub find_first-AllOf :
      (q : A → Bool) (xs : List A) {r : A} → AllOf xs → find_first q xs ≡ some r → P r
  unfolding find_first
  find_first-AllOf q [] h e = absurd (none-ne-some _ e)
  find_first-AllOf q (x ∷ xs) {r} (p, h) e =
      elim (q x) as (λ b. (if b then some x else find_first q xs) ≡ some r → P r) [
        | true ↦ λ e. subst P (some-injective _ _ e) p
        | false ↦ λ e. find_first-AllOf q xs h e
      ]
        e

  -- Of the rows that fit a test, this is known, and so is what was known of all.
  pub AllOf-find_many :
      (p : A → Bool) (xs : List A) → ((x : A) → p x ≡ true → P x) → AllOf (find_many p xs)
  unfolding find_many
  AllOf-find_many p [] h = tt
  AllOf-find_many p (x ∷ xs) h =
      if-either AllOf (p x) (x ∷ find_many p xs) (find_many p xs)
        (λ fits. (h x fits, AllOf-find_many p xs h)) (λ _. AllOf-find_many p xs h)

  pub AllOf-newest_first : (xs : List A) → AllOf xs → AllOf (newest_first xs)
  unfolding newest_first
  AllOf-newest_first [] h = tt
  AllOf-newest_first (x ∷ xs) (k, h) =
      AllOf-++ (newest_first xs) (x ∷ []) (AllOf-newest_first xs h) (k, tt)

  pub AllOf-take_rows : (n : ℕ) (xs : List A) → AllOf xs → AllOf (take_rows n xs)
  unfolding take_rows
  AllOf-take_rows zero xs h = tt
  AllOf-take_rows (suc n) [] h = tt
  AllOf-take_rows (suc n) (x ∷ xs) (k, h) = (k, AllOf-take_rows n xs h)

module _ {A : Type 0} (P : A → Type 0) where
  pub AllOf-narrowed :
      (p : A → Bool) (xs : List A) → AllOf P xs → AllOf (λ x. P x × (p x ≡ true)) (find_many p xs)
  unfolding find_many
  AllOf-narrowed p [] h = tt
  AllOf-narrowed p (x ∷ xs) (k, h) =
      if-either (AllOf (λ x. P x × (p x ≡ true))) (p x) (x ∷ find_many p xs) (find_many p xs)
        (λ fits. ((k, fits), AllOf-narrowed p xs h)) (λ _. AllOf-narrowed p xs h)

  pub AllOf-map :
      {B : Type 0} (f : B → A) (xs : List B) → AllOf (λ x. P (f x)) xs → AllOf P (map f xs)
  AllOf-map f [] h = tt
  AllOf-map f (x ∷ xs) (k, h) = (k, AllOf-map f xs h)

pub AllOf-weaken {ℓ} :
    {A : Type ℓ} {P Q : A → Type 0} (xs : List A) → ((x : A) → P x → Q x) → AllOf P xs → AllOf Q xs
AllOf-weaken [] h k = tt
AllOf-weaken (x ∷ xs) h (p, k) = (h x p, AllOf-weaken xs h k)
