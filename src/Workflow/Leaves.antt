-- ===== src/Workflow/Leaves.antt =====
-- What holds of the world however a handler ends, alone.
use help_mi.Common.{◌≡◌, sym, subst}
use help_mi.World.{World}
use help_mi.Handler.{Handler, run, transaction, ◌>>=◌, ◌>>◌, pure}
use help_mi.Handler.Interleave.{Keeps, returns, fails, steps}
use help_mi.Outcomes.Post.{Post, Post-weaken, Post-transaction, Post->>=}

-- However the handler ends, it leaves the world in `Inv`.
abbrev pub Leaves : {A : Type 0} → (World → Type 0) → Handler A → World → Type 0
Leaves Inv m w = Post (λ _. Inv) Inv (run m w)

module _ {A : Type 0} (Inv : World → Type 0) where
  pub Leaves-Keeps :
      {Q : A → Type 0} {m : Handler A} (w : World) → Keeps Inv Q m → Inv w → Leaves Inv m w
  Leaves-Keeps w (returns q) i = i
  Leaves-Keeps w fails i = i
  Leaves-Keeps w (steps {f} g h) i = Leaves-Keeps (f w) (h w i) (g w i)

  -- Inside a transaction an error leaves nothing to be said.
  pub Ends-Keeps :
      {Q : A → Type 0} {m : Handler A} (w : World)
      → Keeps Inv Q m
      → Inv w
      → Post (λ _. Inv) (λ _. Unit) (run m w)
  Ends-Keeps {m = m} w keeps i =
      Post-weaken (λ _. Inv) (λ _. Inv) Inv (λ _. Unit) (run m w) (λ a w' j. j) (λ w' j. tt)
        (Leaves-Keeps w keeps i)

  pub Leaves-transaction :
      (m : Handler A) (w : World)
      → Inv w
      → Post (λ _. Inv) (λ _. Unit) (run m w)
      → Leaves Inv (transaction m) w
  Leaves-transaction m w i h =
      Post-weaken _ _ (λ w'. w' ≡ w) Inv (run (transaction m) w) (λ _ w' k. k)
        (λ w' same. subst Inv (sym same) i) (Post-transaction _ w m h)

  -- The reply of a request is dropped.
  pub Leaves-silent : (m : Handler A) (w : World) → Leaves Inv m w → Leaves Inv (m >> pure tt) w
  Leaves-silent m w h = Post->>= (λ _. Inv) Inv m (λ _. pure tt) w h

  -- A part that keeps `Inv`, and then a part that ends in `J`.
  pub Leaves-then :
      {Q : A → Type 0} {B : Type 0} (J : World → Type 0) {m : Handler A} (k : A → Handler B)
      (w : World)
      → Keeps Inv Q m
      → Inv w
      → ((w : World) → Inv w → J w)
      → ((a : A) (w : World) → Inv w → Leaves J (k a) w)
      → Leaves J (m >>= k) w
  Leaves-then J {m} k w keeps i weaker next =
      Post->>= (λ _. J) J m k w
        (Post-weaken (λ _. Inv) _ Inv J (run m w) (λ a w' j. next a w' j) weaker
          (Leaves-Keeps w keeps i))
