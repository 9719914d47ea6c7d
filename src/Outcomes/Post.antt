-- ===== src/Outcomes/Post.antt =====
-- What is said of the outcome of a run, step by step: `Q` of a value that is returned, `E` of the
-- world that an error leaves.
use help_mi.Common.{◌≡◌, refl, sym, subst, Bool, true, false, Option, none, some, if◌then◌else◌}
use help_mi.World.{World}
use help_mi.Handler.{
  outcome, commit, transaction, Error, Result, ok, err, Handler, pure, throw, await, ◌>>=◌, run,
  guard, or_throw, catch,
}
use help_mi.Handler.Calls.{found}

abbrev pub Post : {A : Type 0} → (A → World → Type 0) → (World → Type 0) → Result A × World → Type 0
Post Q E (ok a, w) = Q a w
Post Q E (err e, w) = E w

module _ {A B : Type 0} (Q : B → World → Type 0) (E : World → Type 0) where
  pub Post->>= :
      (m : Handler A) (k : A → Handler B) (w : World)
      → Post (λ a w'. Post Q E (run (k a) w')) E (run m w)
      → Post Q E (run (m >>= k) w)
  Post->>= (pure a) k w h = h
  Post->>= (throw e) k w h = h
  Post->>= (await f rest) k w h = Post->>= (rest w) k (f w) h

  -- A call that writes nothing, and what is known once it has returned.
  pub Post-call :
      (m : Handler A) (k : A → Handler B) (w : World) (R : A → Type 0)
      → Post (λ a w'. (w' ≡ w) × R a) E (run m w)
      → ((a : A) → R a → Post Q E (run (k a) w))
      → Post Q E (run (m >>= k) w)
  Post-call m k w R h next = Post->>= m k w (called (run m w) h)
    where
      called :
          (r : Result A × World)
          → Post (λ a w'. (w' ≡ w) × R a) E r
          → Post (λ a w'. Post Q E (run (k a) w')) E r
      called (ok a, w') (same, known) =
          subst (λ v. Post Q E (run (k a) v)) (sym same) (next a known)
      called (err e, w') h = h

  -- An insert, which a unique constraint may refuse.
  pub Post-created :
      (b : Bool) (e : Error) (new : A) (k : A → Handler B) (v w : World)
      → (b ≡ false → Post Q E (run (k new) w))
      → (b ≡ true → E v)
      → Post Q E (run ((if b then throw e else pure new) >>= k) (if b then v else w))
  Post-created true e new k v w h n = n refl
  Post-created false e new k v w h n = h refl

  -- A call after which the world is one of a family.
  pub Post-into :
      {I : Type 0} (view : I → World) (m : Handler A) (k : A → Handler B) (w : World)
      → Post (λ _ w'. (i : I) × (w' ≡ view i)) E (run m w)
      → ((a : A) (i : I) → Post Q E (run (k a) (view i)))
      → Post Q E (run (m >>= k) w)
  Post-into {I} view m k w h next = Post->>= m k w (entered (run m w) h)
    where
      entered :
          (r : Result A × World)
          → Post (λ _ w'. (i : I) × (w' ≡ view i)) E r
          → Post (λ a w'. Post Q E (run (k a) w')) E r
      entered (ok a, w') (i, same) = subst (λ v. Post Q E (run (k a) v)) (sym same) (next a i)
      entered (err e, w') h = h

  pub Post-or_throw :
      (o : Option A) (e : Error) (k : A → Handler B) (w : World)
      → ((a : A) → o ≡ some a → Post Q E (run (k a) w))
      → (o ≡ none → E w)
      → Post Q E (run (or_throw o e >>= k) w)
  Post-or_throw none e k w h n = n refl
  Post-or_throw (some a) e k w h n = h a refl

  pub Post-found :
      (o : Option A) (f : A → A) (k : A → Handler B) (w : World)
      → ((a : A) → o ≡ some a → Post Q E (run (k (f a)) w))
      → (o ≡ none → E w)
      → Post Q E (run (found o f >>= k) w)
  Post-found none f k w h n = n refl
  Post-found (some a) f k w h n = h a refl

module _ {B : Type 0} (Q : B → World → Type 0) (E : World → Type 0) where
  pub Post-given :
      (o : Option B) (e : Error) (w : World)
      → ((b : B) → o ≡ some b → Q b w)
      → (o ≡ none → E w)
      → Post Q E (run (or_throw o e) w)
  Post-given none e w h n = n refl
  Post-given (some b) e w h n = h b refl

  pub Post-found-end :
      (o : Option B) (f : B → B) (w : World)
      → ((b : B) → o ≡ some b → Q (f b) w)
      → (o ≡ none → E w)
      → Post Q E (run (found o f) w)
  Post-found-end none f w h n = n refl
  Post-found-end (some b) f w h n = h b refl

  pub Post-guard :
      (b : Bool) (e : Error) (k : Unit {0} → Handler B) (w : World)
      → (b ≡ true → Post Q E (run (k tt) w))
      → (b ≡ false → E w)
      → Post Q E (run (guard b e >>= k) w)
  Post-guard true e k w h n = h refl
  Post-guard false e k w h n = n refl

  pub Post-if :
      (b : Bool) (m n : Handler B) (w : World)
      → (b ≡ true → Post Q E (run m w))
      → (b ≡ false → Post Q E (run n w))
      → Post Q E (run (if b then m else n) w)
  Post-if true m n w h k = h refl
  Post-if false m n w h k = k refl

module _ (Q : Unit {0} → World → Type 0) (E : World → Type 0) where
  pub Post-check :
      (b : Bool) (e : Error) (w : World)
      → (b ≡ true → Q tt w)
      → (b ≡ false → E w)
      → Post Q E (run (guard b e) w)
  Post-check true e w h n = h refl
  Post-check false e w h n = n refl

pub Post-weaken :
    {A : Type 0} (Q R : A → World → Type 0) (E F : World → Type 0) (r : Result A × World)
    → ((a : A) (w : World) → Q a w → R a w)
    → ((w : World) → E w → F w)
    → Post Q E r
    → Post R F r
Post-weaken Q R E F (ok a, w) h k p = h a w p
Post-weaken Q R E F (err e, w) h k p = k w p

module _ {A : Type 0} (Q : A → World → Type 0) (w : World) where
  committed :
      (r : Result A × World)
      → Post Q (λ _. Unit) r
      → Post Q (λ w'. w' ≡ w) (run (outcome r.0) (commit w r))
  committed (ok a, after) h = h
  committed (err e, after) h = refl

  -- A transaction that throws leaves no trace.
  pub Post-transaction :
      (m : Handler A) → Post Q (λ _. Unit) (run m w) → Post Q (λ w'. w' ≡ w) (run (transaction m) w)
  Post-transaction m h = committed (run m w) h

-- A handler whose every error gives one value never throws.
pub Post-catch :
    {A : Type 0} (Q : A → World → Type 0) (m : Handler A) (b : A) (w : World)
    → Post Q (Q b) (run m w)
    → Post Q (λ _. ⊥) (run (catch m (λ _. pure b)) w)
Post-catch Q (pure a) b w h = h
Post-catch Q (throw e) b w h = h
Post-catch Q (await f rest) b w h = Post-catch Q (rest w) b (f w) h
