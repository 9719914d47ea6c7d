-- ===== src/Outcomes/Success.antt =====
-- Rules for runs that are to succeed: each needs the condition under which the code goes on.
use help_mi.Common.{◌≡◌, sym, subst, Bool, true, Option, some, if◌then◌else◌}
use help_mi.World.{World}
use help_mi.Handler.{
  outcome, commit, transaction, Error, Result, ok, err, Handler, ◌>>=◌, run, guard, or_throw,
}
use help_mi.Handler.Calls.{found}
use help_mi.Outcomes.Post.{Post}

module _ {A B : Type 0} (Q : B → World → Type 0) (E : World → Type 0) where
  pub Post-present :
      (o : Option A) (e : Error) (k : A → Handler B) (w : World) (a : A)
      → o ≡ some a
      → Post Q E (run (k a) w)
      → Post Q E (run (or_throw o e >>= k) w)
  Post-present o e k w a here h = subst (λ o. Post Q E (run (or_throw o e >>= k) w)) (sym here) h

  pub Post-updated :
      (o : Option A) (f : A → A) (k : A → Handler B) (w : World) (a : A)
      → o ≡ some a
      → Post Q E (run (k (f a)) w)
      → Post Q E (run (found o f >>= k) w)
  Post-updated o f k w a here h = subst (λ o. Post Q E (run (found o f >>= k) w)) (sym here) h

module _ {B : Type 0} (Q : B → World → Type 0) (E : World → Type 0) where
  pub Post-allowed :
      (b : Bool) (e : Error) (k : Unit {0} → Handler B) (w : World)
      → b ≡ true
      → Post Q E (run (k tt) w)
      → Post Q E (run (guard b e >>= k) w)
  Post-allowed b e k w here h = subst (λ b. Post Q E (run (guard b e >>= k) w)) (sym here) h

  pub Post-chosen :
      (b c : Bool) (m n : Handler B) (w : World)
      → b ≡ c
      → Post Q E (run (if c then m else n) w)
      → Post Q E (run (if b then m else n) w)
  Post-chosen b c m n w here h = subst (λ b. Post Q E (run (if b then m else n) w)) (sym here) h

  pub Post-updated-end :
      (o : Option B) (f : B → B) (w : World) (b : B)
      → o ≡ some b
      → Q (f b) w
      → Post Q E (run (found o f) w)
  Post-updated-end o f w b here h = subst (λ o. Post Q E (run (found o f) w)) (sym here) h

  committed :
      (w : World) (r : Result B × World)
      → Post Q (λ _. ⊥) r
      → Post Q E (run (outcome r.0) (commit w r))
  committed w (ok b, after) h = h
  committed w (err e, after) h = absurd h

  pub Post-committed :
      (m : Handler B) (w : World) → Post Q (λ _. ⊥) (run m w) → Post Q E (run (transaction m) w)
  Post-committed m w h = committed w (run m w) h
