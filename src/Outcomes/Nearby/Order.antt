-- ===== src/Outcomes/Nearby/Order.antt =====
-- A sorted list is in order, and is made of the rows that were sorted.
use help_mi.Common.{◌≡◌, ℕ, suc, zero, ◌≤◌, Bool, true, false, List, [], ◌∷◌, arith}
use help_mi.Database.{take_rows, rows_in}
use help_mi.Database.Every.{AllOf, if-either}
use help_mi.Tasks.Nearby.{insert_row, sorted}

module _ {A : Type 0} (P : A → Type 0) (before : A → A → Bool) where
  AllOf-insert_row : (x : A) (xs : List A) → P x → AllOf P xs → AllOf P (insert_row before x xs)
  unfolding insert_row
  AllOf-insert_row x [] k h = (k, tt)
  AllOf-insert_row x (y ∷ ys) k (l, h) =
      if-either (AllOf P) (before x y) (x ∷ y ∷ ys) (y ∷ insert_row before x ys) (λ _. (k, (l, h)))
        (λ _. (l, AllOf-insert_row x ys k h))

  pub AllOf-sorted : (xs : List A) → AllOf P xs → AllOf P (sorted before xs)
  unfolding sorted
  AllOf-sorted [] h = tt
  AllOf-sorted (x ∷ xs) (k, h) = AllOf-insert_row x (sorted before xs) k (AllOf-sorted xs h)

module _ {A : Type 0} where
  -- Each row stands before the next, by a relation of its own.
  abbrev pub Follows : (A → A → Type 0) → A → List A → Type 0
  Follows R x [] = Unit
  Follows R x (y ∷ ys) = R x y

  abbrev pub InOrder : (A → A → Type 0) → List A → Type 0
  InOrder R [] = Unit
  InOrder R (x ∷ xs) = Follows R x xs × InOrder R xs

-- Each row may stand before the next.
module _ {A : Type 0} (before : A → A → Bool) where
  abbrev pub Leads : A → List A → Type 0
  Leads x [] = Unit
  Leads x (y ∷ ys) = before x y ≡ true

  abbrev pub Ordered : List A → Type 0
  Ordered [] = Unit
  Ordered (x ∷ xs) = Leads x xs × Ordered xs

  pub Ordered-take_rows : (n : ℕ) (xs : List A) → Ordered xs → Ordered (take_rows n xs)
  unfolding take_rows
  Ordered-take_rows zero xs h = tt
  Ordered-take_rows (suc n) [] h = tt
  Ordered-take_rows (suc n) (x ∷ xs) (k, h) = (leads n xs k, Ordered-take_rows n xs h)
    where
      leads : (n : ℕ) (ys : List A) → Leads x ys → Leads x (take_rows n ys)
      leads zero ys k = tt
      leads (suc n) [] k = tt
      leads (suc n) (y ∷ ys) k = k

  pub Ordered-InOrder :
      (R : A → A → Type 0) (xs : List A)
      → ((x y : A) → before x y ≡ true → R x y)
      → Ordered xs
      → InOrder R xs
  Ordered-InOrder R [] h o = tt
  Ordered-InOrder R (x ∷ xs) h (k, o) = (follows xs k, Ordered-InOrder R xs h o)
    where
      follows : (ys : List A) → Leads x ys → Follows R x ys
      follows [] k = tt
      follows (y ∷ ys) k = h x y k

  module _ (total : (x y : A) → before x y ≡ false → before y x ≡ true) where
    Ordered-insert_row : (x : A) (xs : List A) → Ordered xs → Ordered (insert_row before x xs)
    unfolding insert_row
    Ordered-insert_row x [] h = (tt, tt)
    Ordered-insert_row x (y ∷ ys) (k, h) =
        if-either Ordered (before x y) (x ∷ y ∷ ys) (y ∷ insert_row before x ys) (λ e. (e, (k, h)))
          (λ e. (leads ys (total x y e) k, Ordered-insert_row x ys h))
      where
        leads : (ys : List A) → before y x ≡ true → Leads y ys → Leads y (insert_row before x ys)
        leads [] e k = e
        leads (z ∷ zs) e k =
            if-either (Leads y) (before x z) (x ∷ z ∷ zs) (z ∷ insert_row before x zs) (λ _. e)
              (λ _. k)

    pub Ordered-sorted : (xs : List A) → Ordered (sorted before xs)
    unfolding sorted
    Ordered-sorted [] = tt
    Ordered-sorted (x ∷ xs) = Ordered-insert_row x (sorted before xs) (Ordered-sorted xs)

pub rows_in-take_rows : {A : Type 0} (n : ℕ) (xs : List A) → rows_in (take_rows n xs) ≤ n
unfolding take_rows rows_in
rows_in-take_rows zero xs = ground arith
rows_in-take_rows (suc n) [] = ground arith
rows_in-take_rows (suc n) (x ∷ xs) = ground (arith, rows_in-take_rows n xs)
