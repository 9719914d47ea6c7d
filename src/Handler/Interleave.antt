-- ===== src/Handler/Interleave.antt =====
-- Handlers that run at the same time: a schedule says which of them makes the next step.
use help_mi.Common.{
  ℕ, zero, suc, ◌≡◌, refl, Bool, true, false, Option, none, some, List, [], ◌∷◌, if◌then◌else◌,
}
use help_mi.World.{World}
use help_mi.Handler.{
  Error, Result, ok, err, Handler, pure, throw, await, ◌>>=◌, catch, run, transaction, guard,
  commit, outcome, or_throw,
}
use help_mi.Handler.Calls.{found}

-- Every step of the handler keeps the invariant, whatever world it meets in which that holds, and
-- `Q` is known of the value that it returns.
pub data Keeps (Inv : World → Type 0) {A : Type 0} (Q : A → Type 0) : Handler A → Type 0 where
  returns : {a : A} → Q a → Keeps Inv Q (pure a)
  fails : {e : Error} → Keeps Inv Q (throw e)
  steps :
      {f : World → World} {rest : World → Handler A}
      → ((w : World) → Inv w → Inv (f w))
      → ((w : World) → Inv w → Keeps Inv Q (rest w))
      → Keeps Inv Q (await f rest)

abbrev pub Any : {A : Type 0} → A → Type 0
Any a = Unit

-- The handler's next step.
abbrev pub step_world : {A : Type 0} → Handler A → World → World
step_world (pure a) w = w
step_world (throw e) w = w
step_world (await f rest) w = f w

abbrev pub step_rest : {A : Type 0} → Handler A → World → Handler A
step_rest (pure a) w = pure a
step_rest (throw e) w = throw e
step_rest (await f rest) w = rest w

abbrev pub Pool : Type 0 → Type 0
Pool A = List (Handler A)

-- The n-th handler of the pool makes a step.
unfoldable pub step_pool : {A : Type 0} → ℕ → Pool A → World → Pool A × World
step_pool n [] w = ([], w)
step_pool zero (h ∷ pool) w = (step_rest h w ∷ pool, step_world h w)
step_pool (suc n) (h ∷ pool) w = let (pool', w') = step_pool n pool w in (h ∷ pool', w')

unfoldable pub run_schedule : {A : Type 0} → List ℕ → Pool A → World → Pool A × World
run_schedule [] pool w = (pool, w)
run_schedule (n ∷ ns) pool w = let (pool', w') = step_pool n pool w in run_schedule ns pool' w'

abbrev pub AllKeep : {A : Type 0} → (World → Type 0) → Pool A → Type 0
AllKeep Inv [] = Unit
AllKeep Inv (h ∷ pool) = Keeps Inv Any h × AllKeep Inv pool

module _ {A : Type 0} (Inv : World → Type 0) where
  step-Keeps :
      {h : Handler A} (w : World)
      → Keeps Inv Any h
      → Inv w
      → Inv (step_world h w) × Keeps Inv Any (step_rest h w)
  step-Keeps w (returns q) i = (i, returns q)
  step-Keeps w fails i = (i, fails)
  step-Keeps w (steps f k) i = (f w i, k w i)

  step_pool-AllKeep :
      (n : ℕ) (pool : Pool A) (w : World)
      → AllKeep Inv pool
      → Inv w
      → AllKeep Inv (step_pool n pool w).0 × Inv (step_pool n pool w).1
  unfolding step_pool
  step_pool-AllKeep n [] w k i = (tt, i)
  step_pool-AllKeep zero (h ∷ pool) w k i = let s = step-Keeps w k.0 i in ((s.1, k.1), s.0)
  step_pool-AllKeep (suc n) (h ∷ pool) w k i =
      let s = step_pool-AllKeep n pool w k.1 i in ((k.0, s.0), s.1)

  -- Under any schedule the invariant holds as long as every handler keeps it.
  pub run_schedule-Keeps :
      (ns : List ℕ) (pool : Pool A) (w : World)
      → AllKeep Inv pool
      → Inv w
      → Inv (run_schedule ns pool w).1
  unfolding run_schedule
  run_schedule-Keeps [] pool w k i = i
  run_schedule-Keeps (n ∷ ns) pool w k i =
      let s = step_pool-AllKeep n pool w k i in
      run_schedule-Keeps ns (step_pool n pool w).0 (step_pool n pool w).1 s.0 s.1

-- How a run ends: if it returns, the invariant holds and `Q` is known of the value.
abbrev pub Ends : {A : Type 0} → (World → Type 0) → (A → Type 0) → Result A × World → Type 0
Ends Inv Q (ok a, w) = Inv w × Q a
Ends Inv Q (err e, w) = Unit

module _ {Inv : World → Type 0} where
  pub Keeps->>= :
      {A B : Type 0} {Q : A → Type 0} {R : B → Type 0} {m : Handler A} {k : A → Handler B}
      → Keeps Inv Q m
      → ((a : A) → Q a → Keeps Inv R (k a))
      → Keeps Inv R (m >>= k)
  Keeps->>= (returns {a} q) next = next a q
  Keeps->>= fails next = fails
  Keeps->>= (steps f h) next = steps f (λ w i. Keeps->>= (h w i) next)

  module _ {A : Type 0} {Q : A → Type 0} where
    pub Keeps-weaken :
        {R : A → Type 0} {m : Handler A} → ((a : A) → Q a → R a) → Keeps Inv Q m → Keeps Inv R m
    Keeps-weaken imp (returns {a} q) = returns (imp a q)
    Keeps-weaken imp fails = fails
    Keeps-weaken imp (steps f h) = steps f (λ w i. Keeps-weaken imp (h w i))

    pub Keeps-catch :
        {m : Handler A} {handle : Error → Handler A}
        → Keeps Inv Q m
        → ((e : Error) → Keeps Inv Q (handle e))
        → Keeps Inv Q (catch m handle)
    Keeps-catch (returns q) other = returns q
    Keeps-catch (fails {e}) other = other e
    Keeps-catch (steps f h) other = steps f (λ w i. Keeps-catch (h w i) other)

    -- A handler that keeps the invariant step by step ends well.
    pub run-Ends : {m : Handler A} (w : World) → Keeps Inv Q m → Inv w → Ends Inv Q (run m w)
    run-Ends w (returns q) i = (i, q)
    run-Ends w fails i = tt
    run-Ends w (steps {f} g h) i = run-Ends (f w) (h w i) (g w i)

  module _ {A : Type 0} (Q : A → Type 0) where
    commit-Ends :
        (w : World) (r : Result A × World)
        → Inv w
        → Ends Inv Q r
        → Inv (commit w r) × Keeps Inv Q (outcome r.0)
    commit-Ends w (ok a, after) i h = (h.0, returns h.1)
    commit-Ends w (err e, after) i h = (i, fails)

    -- A transaction is judged by how it ends; if it throws, nothing has happened.
    pub Keeps-transaction :
        (m : Handler A) → ((w : World) → Inv w → Ends Inv Q (run m w)) → Keeps Inv Q (transaction m)
    Keeps-transaction m ends =
        steps (λ w i. (commit-Ends w (run m w) i (ends w i)).0)
          (λ w i. (commit-Ends w (run m w) i (ends w i)).1)

  pub Keeps-guard : (b : Bool) (e : Error) → Keeps Inv (λ _. b ≡ true) (guard b e)
  Keeps-guard true e = returns refl
  Keeps-guard false e = fails

  pub Keeps-or_throw :
      {A : Type 0} (o : Option A) (e : Error) → Keeps Inv (λ a. o ≡ some a) (or_throw o e)
  Keeps-or_throw none e = fails
  Keeps-or_throw (some a) e = returns refl

  module _ {A : Type 0} {Q : A → Type 0} where
    pub Keeps-found : (o : Option A) (f : A → A) → ((a : A) → Q a) → Keeps Inv Q (found o f)
    Keeps-found none f q = fails
    Keeps-found (some a) f q = returns (q (f a))

    pub Keeps-if :
        (b : Bool) {m n : Handler A}
        → Keeps Inv Q m
        → Keeps Inv Q n
        → Keeps Inv Q (if b then m else n)
    Keeps-if true h k = h
    Keeps-if false h k = k
