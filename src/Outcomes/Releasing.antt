-- ===== src/Outcomes/Releasing.antt =====
-- `autoReleaseEscrows` of scheduler.service.ts: whose money it releases.
pub mod Steps
pub mod Overdue
use mathlib.Core.Path.{ap₂}
use mathlib.Core.Bool.{true≢false}
use help_mi.Common.{
  subst, ℕ, ◌+◌, ◌≤◌, ◌≡◌, refl, sym, ap, ◌∙◌, String, Option, none, some, Bool, true, false, ◌&&◌,
  ◌==◌, List, [], ◌∷◌, arith, inl, inr, given, leb, eq-path, path-eq, &&-both, if◌then◌else◌,
}
use help_mi.Schema.{
  Task, Escrow, TaskStatus, EscrowStatus, PaymentMode, task_is, escrow_is, is_escrow,
}
use help_mi.Database.{find_first, find_many, update_rows, count_rows}
use help_mi.Database.Counts.{count_rows-lowered}
use help_mi.Database.Every.{AllOf, AllOf-narrowed, AllOf-weaken, if-either}
use help_mi.Database.Rowwise.{Has}
use help_mi.World.{World, tasks}
use help_mi.Handler.{Result, ok, err, Handler, run, transaction, ◌>>=◌, ◌>>◌, pure}
use help_mi.Handler.Interleave.{
  Keeps, returns, fails, steps, Any, Keeps->>=, Keeps-catch, Keeps-transaction, Keeps-if, run-Ends,
}
use help_mi.Tasks.Lifecycle.{is_none, is_held}
use help_mi.Tasks.Release.{
  count_job, confirm_row, released_row, move_to_released, pay_doer, after_release, announce_release,
  release_escrow,
}
use help_mi.Scheduler.{auto_release, auto_release_all, auto_release_escrows, is_due, due_since}
use help_mi.Safety.Payouts
use help_mi.Outcomes.Post.{Post, Post->>=, Post-catch, Post-weaken}
use help_mi.Outcomes.Success.{Post-committed}
use help_mi.Outcomes.Release.{held_for, move_to_released-leaves}
use help_mi.Outcomes.Statuses.{is_completed, is_held_status, is_absent}
use help_mi.Outcomes.Releasing.Steps.{
  Of, run-Ended, announce-Keeps, all-Keep, auto_release-ends, all-end, surely,
}
use help_mi.Outcomes.Releasing.Overdue.{Due, is_due-Due, find_many-Has}

-- A write to other rows leaves these.
find_many-apart :
    {A : Type 0} (p q : A → Bool) (f : A → A) (rows : List A)
    → ((r : A) → q r ≡ true → p r ≡ false)
    → ((r : A) → p (f r) ≡ p r)
    → find_many p (update_rows q f rows) ≡ find_many p rows
unfolding find_many update_rows
find_many-apart p q f [] h k = refl
find_many-apart p q f (r ∷ rows) h k = ground (arith, h r, k r, find_many-apart p q f rows h k)

module _ (x : String) where
  abbrev pub of_task : Escrow → Bool
  of_task e = e.task_id == x

  abbrev NoneHeld : List Escrow → Type 0
  NoneHeld es = count_rows (held_for x) es ≡ 0

  abbrev SameAs : List Escrow → List Escrow → Type 0
  SameAs before es = find_many of_task es ≡ before

  NoneHeld-lowered :
      (id : String) (doer : Option String) (now : ℕ) (es : List Escrow)
      → NoneHeld es
      → NoneHeld (update_rows (held_for id) (released_row doer now) es)
  NoneHeld-lowered id doer now es h =
      count_rows-lowered (held_for x) (held_for x) (held_for id) (released_row doer now) es
        (λ e. ground arith) h

  not_of_task :
      (id : String) (e : Escrow)
      → (id ≡ x → ⊥)
      → held_for id e ≡ true
      → (b : Bool) → of_task e ≡ b
      → b ≡ false
  not_of_task id e other h true own = absurd (
      other
        (sym (eq-path e.task_id id (&&-both (e.task_id == id) _ h).0) ∙ eq-path e.task_id x own))
  not_of_task id e other h false own = refl

  SameAs-lowered :
      (before : List Escrow) (id : String)
      → (id ≡ x → ⊥)
      → (doer : Option String) (now : ℕ) (es : List Escrow) → SameAs before es
      → SameAs before (update_rows (held_for id) (released_row doer now) es)
  SameAs-lowered before id other doer now es h =
      find_many-apart of_task (held_for id) (released_row doer now) es
        (λ e fits. not_of_task id e other fits (of_task e) refl) (λ e. refl)
      ∙ h

  every-lowered :
      (ts : List Task)
      → AllOf
          (λ t.
            (doer : Option String) (now : ℕ) (es : List Escrow)
            → NoneHeld es
            → NoneHeld (update_rows (held_for t.id) (released_row doer now) es))
          ts
  every-lowered [] = tt
  every-lowered (t ∷ ts) = (NoneHeld-lowered t.id, every-lowered ts)

  -- The release of the task.
  released :
      (t : Task) (w : World)
      → t.id ≡ x
      → Post (λ _ w'. NoneHeld w'.escrows) (λ _. ⊥) (run (auto_release t) w)
  unfolding auto_release release_escrow
  released t w same =
      let move = move_to_released t.id t.doer_id false in
      Post-catch {A = ℕ} (λ _ w'. NoneHeld w'.escrows)
        (release_escrow t.id t.doer_id false true >>= λ did. pure (if did then 1 else 0)) 0 w
        (Post->>= _ _ (release_escrow t.id t.doer_id false true) _ w (
          Post->>= _ _ (transaction move) _ w (
            Post-committed _ _ move w (
              Post-weaken _ _ _ _ (run move w)
                (λ did v h.
                  run-Ended NoneHeld v
                    (Keeps->>= (announce-Keeps NoneHeld did t.id t.doer_id true)
                      (λ _ _. returns tt))
                    (subst (λ i. count_rows (held_for i) v.escrows ≡ 0) same h.1))
                (λ _ e. true≢false (sym e)) (move_to_released-leaves t.id t.doer_id false w)))))

  -- The loop, where the task is one of its tasks.
  all-released :
      (ts : List Task) (w : World)
      → Has (λ t. t.id ≡ x) ts
      → Post (λ _ w'. NoneHeld w'.escrows) (λ _. ⊥) (run (auto_release_all ts) w)
  unfolding auto_release_all
  all-released [] w none_there = absurd none_there
  all-released (t ∷ ts) w (inl same) = Post->>= _ _ (auto_release t) _ w (
      Post-weaken (λ _ w'. NoneHeld w'.escrows) _ (λ _. ⊥) _ _
        (λ n v gone. Post->>= _ _ (auto_release_all ts) _ v (
          Post-weaken (λ _ w'. NoneHeld w'.escrows) _ (λ _. ⊥) _ _ (λ _ _ h. h) (λ _ e. e)
            (surely (Of NoneHeld) _ (all-end ts v)
              (run-Ended NoneHeld v (all-Keep NoneHeld ts (every-lowered ts)) gone))))
        (λ _ e. e) (released t w same))
  all-released (t ∷ ts) w (inr later) = Post->>= _ _ (auto_release t) _ w (
      Post-weaken (λ _ _. Unit) _ (λ _. ⊥) _ _
        (λ n v _. Post->>= _ _ (auto_release_all ts) _ v (
          Post-weaken (λ _ w'. NoneHeld w'.escrows) _ (λ _. ⊥) _ _ (λ _ _ h. h) (λ _ e. e)
            (all-released ts v later)))
        (λ _ e. e) (auto_release-ends t w))

-- Two outcomes of a run that does not throw, each under a condition of its own.
Post-both :
    {A C D : Type 0} (Q R : World → Type 0) (r : Result A × World)
    → Post (λ _ _. Unit) (λ _. ⊥) r
    → (C → Post (λ _. Q) (λ _. ⊥) r)
    → (D → Post (λ _. R) (λ _. ⊥) r)
    → Post (λ _ w'. (C → Q w') × (D → R w')) (λ _. ⊥) r
Post-both Q R (ok a, w) ends h k = (h, k)
Post-both Q R (err e, w) ends h k = ends

-- The auto-release never throws. Of a task that is due it leaves no money HELD, and the escrows of
-- an id none of whose tasks is due are what they were.
pub auto_release_escrows-Due :
    (w : World) (x : String)
    → Post
        (λ _ w'.
          (Has (λ t. (t.id ≡ x) × Due w t) w.tasks → count_rows (held_for x) w'.escrows ≡ 0)
          × (AllOf (λ t. t.id ≡ x → Due w t → ⊥) w.tasks
              → find_many (of_task x) w'.escrows ≡ find_many (of_task x) w.escrows))
        (λ _. ⊥)
        (run auto_release_escrows w)
unfolding auto_release_escrows
auto_release_escrows-Due w x =
    let due = find_many (is_due w) w.tasks in
    Post->>= _ _ (auto_release_all due) _ w (
      Post-both (λ w'. count_rows (held_for x) w'.escrows ≡ 0)
        (λ w'. find_many (of_task x) w'.escrows ≡ find_many (of_task x) w.escrows)
        (run (auto_release_all due) w) (all-end due w)
        (λ there. all-released x due w (find_many-Has w x w.tasks there))
        (λ none_due. surely (Of (SameAs x (find_many (of_task x) w.escrows))) _ (all-end due w) (
          run-Ended _ w
            (all-Keep _ due (
              AllOf-weaken due
                (λ t h. SameAs-lowered x _ t.id (λ same. h.0 same (is_due-Due w t h.1)))
                (AllOf-narrowed (λ t. t.id ≡ x → Due w t → ⊥) (is_due w) w.tasks none_due)))
            refl)))
