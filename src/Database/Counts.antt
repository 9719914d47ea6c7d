-- ===== src/Database/Counts.antt =====
-- How many rows fit after a write, and what a count says of the row that a lookup finds.
use help_mi.Common.{
  ◌+◌, ◌≡◌, refl, Bool, true, false, ◌&&◌, ◌||◌, some, List, [], ◌∷◌, arith, if◌then◌else◌,
}
use help_mi.Database.{find_first, update_rows, count_rows, add_row, has_row}

module _ {ℓ} {A : Type ℓ} where
  pub count_rows-update_rows :
      (p q : A → Bool) (f : A → A) (rows : List A)
      → ((r : A) → p (f r) ≡ p r)
      → count_rows p (update_rows q f rows) ≡ count_rows p rows
  unfolding count_rows update_rows
  count_rows-update_rows p q f [] h = refl
  count_rows-update_rows p q f (r ∷ rows) h =
      ground (arith, h r, count_rows-update_rows p q f rows h)

  pub count_rows-add_row :
      (p : A → Bool) (new : A) (rows : List A)
      → count_rows p (add_row new rows) ≡ count_rows p rows + (if p new then 1 else 0)
  unfolding count_rows add_row
  count_rows-add_row p new [] = ground arith
  count_rows-add_row p new (r ∷ rows) = ground (arith, count_rows-add_row p new rows)

  -- A write after which a row fits `p` only if it fitted `q` before.
  pub count_rows-lowered :
      (p q c : A → Bool) (f : A → A) (rows : List A)
      → ((r : A) → p (if c r then f r else r) ≡ true → q r ≡ true)
      → count_rows q rows ≡ 0
      → count_rows p (update_rows c f rows) ≡ 0
  unfolding count_rows update_rows
  count_rows-lowered p q c f [] h e = refl
  count_rows-lowered p q c f (r ∷ rows) h e = ground (arith, h r, count_rows-lowered p q c f rows h)

  pub count_rows-below :
      (p q : A → Bool) (rows : List A)
      → ((r : A) → p r ≡ true → q r ≡ true)
      → count_rows q rows ≡ 0
      → count_rows p rows ≡ 0
  unfolding count_rows
  count_rows-below p q [] h e = refl
  count_rows-below p q (r ∷ rows) h e = ground (arith, h r, count_rows-below p q rows h)

  pub count_rows-or :
      (p q : A → Bool) (rows : List A)
      → count_rows p rows ≡ 0
      → count_rows q rows ≡ 0
      → count_rows (λ r. p r || q r) rows ≡ 0
  unfolding count_rows
  count_rows-or p q [] e d = refl
  count_rows-or p q (r ∷ rows) e d = ground (arith, count_rows-or p q rows)

  -- The only row of its key fits `c` if one row of that key does.
  pub only-row :
      (p c : A → Bool) (rows : List A) {r : A}
      → find_first p rows ≡ some r
      → count_rows p rows ≡ 1
      → count_rows (λ x. p x && c x) rows ≡ 1
      → c r ≡ true
  unfolding find_first count_rows
  only-row p c [] h e d = ground arith
  only-row p c (x ∷ rows) {r} h e d = ground (
    arith,
    only-row p c rows {r = r},
    count_rows-below (λ x. p x && c x) p rows (λ r. ground arith),
  )

  -- What fits no row of the table does not fit the row that is found in it.
  pub has_row-unfit :
      (p q : A → Bool) (rows : List A) {r : A}
      → find_first p rows ≡ some r
      → has_row q rows ≡ false
      → q r ≡ false
  unfolding find_first
  has_row-unfit p q [] h e = ground arith
  has_row-unfit p q (x ∷ rows) {r} h e = ground (arith, has_row-unfit p q rows {r = r})

  pub count_rows-unfit :
      (p q : A → Bool) (rows : List A) {r : A}
      → find_first p rows ≡ some r
      → count_rows q rows ≡ 0
      → q r ≡ false
  unfolding find_first count_rows
  count_rows-unfit p q [] h e = ground arith
  count_rows-unfit p q (x ∷ rows) {r} h e = ground (arith, count_rows-unfit p q rows {r = r})
