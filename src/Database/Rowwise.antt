-- ===== src/Database/Rowwise.antt =====
-- What a write has made of a table, row by row.
use mathlib.Core.Bool.{true≢false}
use help_mi.Common.{
  ◌≡◌, refl, sym, Bool, true, false, ◌&&◌, some, List, [], ◌∷◌, arith, if◌then◌else◌, ℕ, suc, ◌⊎◌,
  inl, inr, ◌≤◌,
}
use help_mi.Database.{find_first, update_rows, count_rows}

module _ {A : Type 0} where
  abbrev pub Pairs : (A → A → Type 0) → List A → List A → Type 0
  Pairs R [] [] = Unit
  Pairs R [] (y ∷ ys) = ⊥
  Pairs R (x ∷ xs) [] = ⊥
  Pairs R (x ∷ xs) (y ∷ ys) = R x y × Pairs R xs ys

  -- The rows of the target have become what is wanted, and all others are what they were.
  abbrev pub Wrote : (A → Type 0) → (A → A → Type 0) → List A → List A → Type 0
  Wrote Target Becomes = Pairs (λ r r'. (Target r → Becomes r r') × ((Target r → ⊥) → r' ≡ r))

  -- One of the rows is of the target.
  abbrev pub Has : (A → Type 0) → List A → Type 0
  Has Target [] = ⊥
  Has Target (r ∷ rows) = Target r ⊎ Has Target rows

  Wrote-row :
      (Target : A → Type 0) (Becomes : A → A → Type 0) (b : Bool) (r r' : A)
      → (b ≡ true → Target r)
      → (Target r → b ≡ true)
      → Becomes r r'
      → (Target r → Becomes r (if b then r' else r)) × ((Target r → ⊥) → (if b then r' else r) ≡ r)
  Wrote-row Target Becomes true r r' h k g = ((λ _. g), (λ n. absurd (n (h refl))))
  Wrote-row Target Becomes false r r' h k g = ((λ t. absurd (true≢false (sym (k t)))), (λ _. refl))

  pub Wrote-update_rows :
      (Target : A → Type 0) (Becomes : A → A → Type 0) (q : A → Bool) (f : A → A) (rows : List A)
      → ((r : A) → q r ≡ true → Target r)
      → ((r : A) → Target r → q r ≡ true)
      → ((r : A) → Becomes r (f r))
      → Wrote Target Becomes rows (update_rows q f rows)
  unfolding update_rows
  Wrote-update_rows Target Becomes q f [] h k g = tt
  Wrote-update_rows Target Becomes q f (r ∷ rows) h k g = (
    Wrote-row Target Becomes (q r) r (f r) (h r) (k r) (g r),
    Wrote-update_rows Target Becomes q f rows h k g,
  )

  Has-row :
      (Target : A → Type 0) (b : Bool) (r : A) (rows : List A) (n : ℕ)
      → (b ≡ true → Target r)
      → ((n ≡ 0 → ⊥) → Has Target rows)
      → ((if b then suc n else n) ≡ 0 → ⊥)
      → Has Target (r ∷ rows)
  Has-row Target true r rows n h k some_row = inl (h refl)
  Has-row Target false r rows n h k some_row = inr (k some_row)

  pub Has-counted :
      (Target : A → Type 0) (q : A → Bool) (rows : List A)
      → ((r : A) → q r ≡ true → Target r)
      → (count_rows q rows ≡ 0 → ⊥)
      → Has Target rows
  unfolding count_rows
  Has-counted Target q [] h some_row = some_row refl
  Has-counted Target q (r ∷ rows) h some_row =
      Has-row Target (q r) r rows (count_rows q rows) (h r) (Has-counted Target q rows h) some_row

  fewer : (p c : A → Bool) (rows : List A) → count_rows (λ x. p x && c x) rows ≤ count_rows p rows
  unfolding count_rows
  fewer p c [] = ground arith
  fewer p c (x ∷ rows) = ground (arith, fewer p c rows)

  -- The one row of its key is the row that a write of that key has reached.
  pub reached :
      (p c : A → Bool) (rows : List A) {r : A}
      → find_first p rows ≡ some r
      → count_rows p rows ≤ 1
      → (count_rows (λ x. p x && c x) rows ≡ 0 → ⊥)
      → c r ≡ true
  unfolding find_first count_rows
  reached p c [] h e d = ground arith
  reached p c (x ∷ rows) {r} h e d = ground (arith, fewer p c rows, reached p c rows {r = r})
