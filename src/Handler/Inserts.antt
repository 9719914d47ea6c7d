-- ===== src/Handler/Inserts.antt =====
-- How an insert and an `update` keep an invariant: a refused insert changes nothing.
use help_mi.Common.{ℕ, suc, ◌≡◌, refl, Bool, true, false, String, if◌then◌else◌}
use help_mi.World.{World, Table}
use help_mi.Database.{find_first, update_rows, add_row, has_row}
use help_mi.Handler.{Error, pure, throw}
use help_mi.Handler.Calls.{create, update, upsert}
use help_mi.Handler.Interleave.{Keeps, returns, fails, steps, Any, Keeps-found}

if-Inv :
    (Inv : World → Type 0) (b : Bool) (v w : World)
    → Inv v
    → (b ≡ false → Inv w)
    → Inv (if b then v else w)
if-Inv Inv true v w i h = i
if-Inv Inv false v w i h = h refl

if-Inv-both :
    (Inv : World → Type 0) (b : Bool) (v w : World) → Inv v → Inv w → Inv (if b then v else w)
if-Inv-both Inv true v w h k = h
if-Inv-both Inv false v w h k = k

module _ {Inv : World → Type 0} where
  inserted-Keeps :
      {A : Type 0} (b : Bool) (e : Error) (a : A) → Keeps Inv Any (if b then throw e else pure a)
  inserted-Keeps true e a = fails
  inserted-Keeps false e a = returns tt

  pub Keeps-create :
      {Row : Type 0} (t : Table Row) (clash : Row → Row → Bool) (make : String → ℕ → Row)
      → ((w : World) (new : Row)
          → Inv w
          → new ≡ make (w.services.uuid w.next_id) w.clock
          → has_row (clash new) (t.rows w) ≡ false
          → Inv (t.put (add_row new (t.rows w)) (record w { next_id = suc w.next_id })))
      → Keeps Inv Any (create t clash make)
  Keeps-create t clash make h =
      steps (λ w i. if-Inv Inv _ w _ i (h w _ i refl)) (λ w i. inserted-Keeps _ _ _)

  pub Keeps-update :
      {Row : Type 0} (t : Table Row) (p : Row → Bool) (f : ℕ → Row → Row)
      → ((w : World) → Inv w → Inv (t.put (update_rows p (f w.clock) (t.rows w)) w))
      → Keeps Inv Any (update t p f)
  Keeps-update t p f h =
      steps h (λ w i. Keeps-found (find_first p (t.rows w)) (f w.clock) (λ _. tt))

  pub Keeps-upsert :
      {Row : Type 0} (t : Table Row) (p : Row → Bool) (f : ℕ → Row → Row) (make : String → ℕ → Row)
      → ((w : World) → Inv w → Inv (t.put (update_rows p (f w.clock) (t.rows w)) w))
      → ((w : World)
          → Inv w
          → Inv (
              t.put
                (add_row (make (w.services.uuid w.next_id) w.clock) (t.rows w))
                (record w { next_id = suc w.next_id })))
      → Keeps Inv Any (upsert t p f make)
  Keeps-upsert t p f make h k =
      steps (λ w i. if-Inv-both Inv (has_row p (t.rows w)) _ _ (h w i) (k w i)) (λ w i. returns tt)
