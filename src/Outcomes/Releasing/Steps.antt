-- ===== src/Outcomes/Releasing/Steps.antt =====
-- The loop of `autoReleaseEscrows`: what its releases leave of the escrows, and that it returns.
use help_mi.Common.{
  ℕ, String, Option, none, some, Bool, true, false, List, [], ◌∷◌, given, if◌then◌else◌,
}
use help_mi.Schema.{Task, Escrow}
use help_mi.Database.{update_rows}
use help_mi.Database.Every.{AllOf}
use help_mi.World.{World}
use help_mi.Handler.{Result, ok, err, Handler, run, ◌>>=◌, pure}
use help_mi.Handler.Interleave.{
  Keeps, returns, fails, steps, Any, Keeps->>=, Keeps-catch, Keeps-transaction, Keeps-if, run-Ends,
}
use help_mi.Tasks.Release.{
  count_job, confirm_row, released_row, move_to_released, pay_doer, after_release, announce_release,
  release_escrow,
}
use help_mi.Scheduler.{auto_release, auto_release_all}
use help_mi.Safety.Payouts
use help_mi.Outcomes.Post.{Post, Post->>=, Post-catch, Post-weaken}
use help_mi.Outcomes.Release.{held_for}

-- What holds of the escrows wherever the handler has stopped.
abbrev pub Of : (List Escrow → Type 0) → World → Type 0
Of P w = P w.escrows

module _ (P : List Escrow → Type 0) where
  abbrev pub Ended : {A : Type 0} → Result A × World → Type 0
  Ended r = Post (λ _. Of P) (Of P) r

  pub run-Ended :
      {A : Type 0} {m : Handler A} (w : World) → Keeps (Of P) Any m → P w.escrows → Ended (run m w)
  run-Ended w (returns q) i = i
  run-Ended w fails i = i
  run-Ended w (steps {f} g h) i = run-Ended (f w) (h w i) (g w i)

  pay_doer-Keeps :
      (id : String) (e : Option Escrow) (doer : Option String)
      → Keeps (Of P) Any (pay_doer id e doer)
  unfolding pay_doer
  pay_doer-Keeps id (some e) (some d) =
      Keeps-catch
        (Keeps->>= (Payouts.create_for_escrow_release-Keeps (λ _ es _. P es) _) (λ _ _. returns tt))
        (λ _. returns tt)
  pay_doer-Keeps id (some e) none = returns tt
  pay_doer-Keeps id none d = returns tt

  pub announce-Keeps :
      (b : Bool) (id : String) (doer : Option String) (auto : Bool)
      → Keeps (Of P) Any (announce_release b id doer auto)
  unfolding announce_release after_release
  announce-Keeps b id doer auto =
      Keeps-if _
        (steps (λ w i. i)
          λ w i.
            Keeps->>= (pay_doer-Keeps id _ (given doer))
              λ _ _. steps (λ w i. i) (λ w i. returns tt))
        (returns tt)

  count_job-Keeps : (b : Bool) (d : Option String) → Keeps (Of P) Any (count_job b d)
  unfolding count_job
  count_job-Keeps true (some d) = steps (λ w i. i) (λ w i. returns tt)
  count_job-Keeps true none = returns tt
  count_job-Keeps false d = returns tt

  module _ (id : String)
      (lowered : (doer : Option String) (now : ℕ) (es : List Escrow)
        → P es
        → P (update_rows (held_for id) (released_row doer now) es)) where
    move-Keeps : (doer : Option String) → Keeps (Of P) Any (move_to_released id doer false)
    unfolding move_to_released confirm_row
    move-Keeps doer =
        steps (λ w i. lowered doer w.clock _ i)
          λ w i. Keeps->>= (count_job-Keeps _ _) λ _ _. returns tt

    release-Keeps : (doer : Option String) → Keeps (Of P) Any (release_escrow id doer false true)
    unfolding release_escrow
    release-Keeps doer =
        Keeps->>=
          (Keeps-transaction Any (move_to_released id doer false)
            (λ w i. run-Ends w (move-Keeps doer) i))
          λ did _. Keeps->>= (announce-Keeps did id doer true) λ _ _. returns tt

  auto_release-Keeps :
      (t : Task)
      → ((doer : Option String) (now : ℕ) (es : List Escrow)
          → P es
          → P (update_rows (held_for t.id) (released_row doer now) es))
      → Keeps (Of P) Any (auto_release t)
  unfolding auto_release
  auto_release-Keeps t lowered =
      Keeps-catch (Keeps->>= (release-Keeps t.id lowered t.doer_id) (λ _ _. returns tt))
        (λ _. returns tt)

  pub all-Keep :
      (ts : List Task)
      → AllOf
          (λ t.
            (doer : Option String) (now : ℕ) (es : List Escrow)
            → P es
            → P (update_rows (held_for t.id) (released_row doer now) es))
          ts
      → Keeps (Of P) Any (auto_release_all ts)
  unfolding auto_release_all
  all-Keep [] h = returns tt
  all-Keep (t ∷ ts) (k, h) =
      Keeps->>= (auto_release-Keeps t k) λ _ _. Keeps->>= (all-Keep ts h) λ _ _. returns tt

-- Nothing is lost on an error, and there is none.
any_end : {A : Type 0} (r : Result A × World) → Post (λ _ _. Unit) (λ _. Unit) r
any_end (ok a, w) = tt
any_end (err e, w) = tt

pub auto_release-ends :
    (t : Task) (w : World) → Post (λ _ _. Unit) (λ _. ⊥) (run (auto_release t) w)
unfolding auto_release
auto_release-ends t w =
    let m = release_escrow t.id t.doer_id false true >>= λ did. pure (if did then 1 else 0) in
    Post-catch {A = ℕ} (λ _ _. Unit) m 0 w (any_end (run m w))

pub all-end :
    (ts : List Task) (w : World) → Post (λ _ _. Unit) (λ _. ⊥) (run (auto_release_all ts) w)
unfolding auto_release_all
all-end [] w = tt
all-end (t ∷ ts) w = Post->>= _ _ (auto_release t) _ w (
    Post-weaken (λ _ _. Unit) _ (λ _. ⊥) _ _
      (λ n v _.
        Post->>= _ _ (auto_release_all ts) _ v
          (Post-weaken (λ _ _. Unit) _ (λ _. ⊥) _ _ (λ _ _ _. tt) (λ _ e. e) (all-end ts v)))
      (λ _ e. e) (auto_release-ends t w))

pub surely :
    {A : Type 0} (Q : World → Type 0) (r : Result A × World)
    → Post (λ _ _. Unit) (λ _. ⊥) r
    → Post (λ _. Q) Q r
    → Post (λ _. Q) (λ _. ⊥) r
surely Q (ok a, w) h k = k
surely Q (err e, w) h k = h
