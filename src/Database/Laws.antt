-- ===== src/Database/Laws.antt =====
-- What a lookup finds after a write.
use help_mi.Common.{
  ◌≡◌, refl, ap, ◌∙◌, Bool, true, false, ◌||◌, none, some, List, [], ◌∷◌, arith, if◌then◌else◌,
}
use help_mi.Database.{find_first, update_rows, count_rows, add_row, has_row}
use mathlib.Core.Option
use mathlib.Core.Option.{some-injective}

module _ {ℓ} {A : Type ℓ} where
  -- A write that does not move a row in or out of `p` rewrites what `p` finds, if that fits `q`.
  pub find_first-update_rows :
      (p q : A → Bool) (f : A → A) (rows : List A)
      → ((r : A) → p (f r) ≡ p r)
      → find_first p (update_rows q f rows)
        ≡ Option.map (λ r. if q r then f r else r) (find_first p rows)
  unfolding find_first update_rows
  find_first-update_rows p q f [] h = refl
  find_first-update_rows p q f (r ∷ rows) h =
      ground (arith, h r, find_first-update_rows p q f rows h)

  pub find_first-add_row :
      (p : A → Bool) (new : A) (rows : List A)
      → find_first p (add_row new rows)
        ≡ elim (find_first p rows) [ none ↦ (if p new then some new else none) | some r ↦ some r ]
  unfolding find_first add_row
  find_first-add_row p new [] = refl
  find_first-add_row p new (r ∷ rows) = ground (arith, find_first-add_row p new rows)

  pub find_first-fits :
      (p : A → Bool) (rows : List A) {r : A} → find_first p rows ≡ some r → p r ≡ true
  unfolding find_first
  find_first-fits p [] h = ground arith
  find_first-fits p (x ∷ rows) {r} h = ground (arith, find_first-fits p rows {r = r})

  -- No row at all fits where nothing is found.
  pub count_rows-zero :
      (p q : A → Bool) (rows : List A)
      → ((r : A) → p r ≡ false → q r ≡ false)
      → find_first p rows ≡ none
      → count_rows q rows ≡ 0
  unfolding find_first count_rows
  count_rows-zero p q [] h e = refl
  count_rows-zero p q (r ∷ rows) h e = ground (arith, h r, count_rows-zero p q rows h)

  -- What a write leaves of the row that is found, if it reaches that row and keeps its key.
  pub find_first-written :
      (p q : A → Bool) (f : A → A) (rows : List A) {r : A}
      → ((x : A) → p (f x) ≡ p x)
      → find_first p rows ≡ some r
      → q r ≡ true
      → find_first p (update_rows q f rows) ≡ some (f r)
  find_first-written p q f rows {r} h here fits =
      find_first-update_rows p q f rows h
      ∙ ap (Option.map (λ x. if q x then f x else x)) here
      ∙ ap (λ b. some (if b then f r else r)) fits

  -- Nothing fits a narrower test where nothing fits a wider one.
  pub none-narrower :
      (p q : A → Bool) (rows : List A)
      → ((r : A) → q r ≡ true → p r ≡ true)
      → has_row p rows ≡ false
      → find_first q rows ≡ none
  unfolding find_first
  none-narrower p q [] h none_fits = refl
  none-narrower p q (r ∷ rows) h none_fits = ground (arith, h r, none-narrower p q rows h)

  -- A new row is found by what no other row fits.
  pub find_first-added :
      (p : A → Bool) (new : A) (rows : List A)
      → find_first p rows ≡ none
      → p new ≡ true
      → find_first p (add_row new rows) ≡ some new
  find_first-added p new rows nothing fits =
      find_first-add_row p new rows
      ∙ ap (λ o. elim o [ none ↦ (if p new then some new else none) | some r ↦ some r ]) nothing
      ∙ ap (λ b. if b then some new else none) fits

  -- A row that is found and fits another test is one that this test finds a row for.
  pub found-has_row :
      (p q : A → Bool) (rows : List A) {r : A}
      → find_first p rows ≡ some r
      → q r ≡ true
      → has_row q rows ≡ true
  unfolding find_first
  found-has_row p q [] h fits = ground arith
  found-has_row p q (x ∷ rows) {r} h fits =
      elim (p x)
          as (λ b.
            (if b then some x else find_first p rows) ≡ some r → has_row q (x ∷ rows) ≡ true) [
              | true ↦ λ e. ground (arith, ap q (some-injective _ _ e))
              | false ↦ λ e. ground (arith, found-has_row p q rows e fits)
            ]
        h

  -- A write that leaves the test of every row leaves whether there is a row for it.
  pub has_row-update_rows :
      (p q : A → Bool) (f : A → A) (rows : List A)
      → ((r : A) → p (f r) ≡ p r)
      → has_row p (update_rows q f rows) ≡ has_row p rows
  unfolding find_first update_rows
  has_row-update_rows p q f [] h = refl
  has_row-update_rows p q f (r ∷ rows) h = ground (arith, h r, has_row-update_rows p q f rows h)

  pub has_row-add_row :
      (p : A → Bool) (new : A) (rows : List A)
      → has_row p (add_row new rows) ≡ has_row p rows || p new
  unfolding find_first add_row
  has_row-add_row p new [] = ground arith
  has_row-add_row p new (r ∷ rows) = ground (arith, has_row-add_row p new rows)
