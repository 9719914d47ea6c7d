-- ===== src/Outcomes/Release.antt =====
-- The transaction of `releaseEscrow`: the money of a task is released at most once.
use help_mi.Common.{
  ℕ, ◌≡◌, refl, ◌∙◌, [], ◌∷◌, Bool, true, false, ◌&&◌, ◌==◌, Option, none, some, List, String,
  arith, nat_eq, given, suc, or_else,
}
use help_mi.Schema.{Task, DoerProfile, Escrow, EscrowStatus, escrow_is}
use help_mi.Database.{find_first, update_rows, count_rows}
use help_mi.Database.Counts.{count_rows-lowered}
use help_mi.Database.Rowwise.{Wrote}
use help_mi.World.{World}
use help_mi.Handler.{run}
use help_mi.Tasks.Release.{move_to_released, count_job, confirm_row, released_row, confirmed_task}
use help_mi.Outcomes.Post.{Post, Post->>=, Post-found, Post-weaken}

-- Money of the task that is still held.
abbrev pub held_for : String → Escrow → Bool
held_for id e = e.task_id == id && escrow_is e.status EscrowStatus.held

none_false : (es : List Escrow) → count_rows (λ _. false) es ≡ 0
unfolding count_rows
none_false [] = refl
none_false (e ∷ es) = none_false es

none_held :
    (id : String) (doer : Option String) (now : ℕ) (es : List Escrow)
    → count_rows (held_for id) (update_rows (held_for id) (released_row doer now) es) ≡ 0
none_held id doer now es =
    count_rows-lowered (held_for id) (λ _. false) (held_for id) (released_row doer now) es
      (λ e. ground arith) (none_false es)

-- The steps after the release leave the escrows as they are.
count_job-Post :
    (b : Bool) (d : Option String) (w : World)
    → Post (λ _ w'. w'.escrows ≡ w.escrows) (λ _. ⊥) (run (count_job b d) w)
unfolding count_job
count_job-Post true (some d) w = refl
count_job-Post true none w = refl
count_job-Post false d w = refl

confirm_row-Post :
    (mark : Bool) (id : String) (w : World)
    → Post (λ _ w'. w'.escrows ≡ w.escrows) (λ _. mark ≡ true) (run (confirm_row mark id) w)
unfolding confirm_row
confirm_row-Post false id w = refl
confirm_row-Post true id w =
    Post-found _ _ (find_first (λ t. t.id == id) w.tasks) (confirmed_task w.clock) _ _ (λ t _. refl)
      (λ _. refl)

-- The answer of the transaction, and that it leaves no HELD money of the task.
pub move_to_released-leaves :
    (id : String) (doer : Option String) (mark : Bool) (w : World)
    → Post
        (λ did w'.
          (did ≡ nat_eq (count_rows (held_for id) w.escrows) 1)
          × (count_rows (held_for id) w'.escrows ≡ 0))
        (λ _. mark ≡ true)
        (run (move_to_released id doer mark) w)
unfolding move_to_released
move_to_released-leaves id doer mark w =
    let did = nat_eq (count_rows (held_for id) w.escrows) 1 in
    let none_left = none_held id doer w.clock w.escrows in
    Post->>= _ _ (count_job did (given doer)) _ _ (
      Post-weaken _ _ (λ _. ⊥) _ (run (count_job did (given doer)) (after_release w))
        (λ _ v same. Post->>= _ _ (confirm_row mark id) _ _ (
          Post-weaken _ _ _ _ (run (confirm_row mark id) v)
            (λ _ v' same'. (refl, rw (same' ∙ same) none_left)) (λ _ e. e)
            (confirm_row-Post mark id v)))
        (λ _ e. absurd e) (count_job-Post did (given doer) _))
  where
    after_release : World → World
    after_release w = record w {
      escrows = update_rows (held_for id) (released_row doer w.clock) w.escrows;
    }

-- The money of the task while it is HELD, and what it becomes.
abbrev pub HeldFor : String → Escrow → Type 0
HeldFor id e = (e.task_id ≡ id) × (e.status ≡ EscrowStatus.held)

abbrev pub PaidTo : Option String → ℕ → Escrow → Escrow → Type 0
PaidTo doer now e e' = e' ≡ record e {
  status = EscrowStatus.released;
  released_at = some now;
  doer_id = or_else (given doer) e.doer_id;
}

-- The profiles of the doer, one job richer if the money was released.
abbrev pub Counted : Bool → Option String → List DoerProfile → List DoerProfile → Type 0
Counted true (some d) =
    Wrote (λ p. p.user_id ≡ d)
      (λ p p'. p' ≡ record p { total_jobs_completed = suc p.total_jobs_completed })
Counted true none = λ ps ps'. ps' ≡ ps
Counted false d = λ ps ps'. ps' ≡ ps

-- The tasks, this one confirmed if asked for.
abbrev pub Confirmed : Bool → String → ℕ → List Task → List Task → Type 0
Confirmed true id now = Wrote (λ t. t.id ≡ id) (λ t t'. t' ≡ record t { confirmed_at = some now })
Confirmed false id now = λ ts ts'. ts' ≡ ts

-- What the transaction of a release has done.
pub record Released (id : String) (doer : Option String) (mark did : Bool) (w w' : World)
    : Type 0 where
  pub one_held : did ≡ true → count_rows (held_for id) w.escrows ≡ 1
  pub not_one : did ≡ false → count_rows (held_for id) w.escrows ≡ 1 → ⊥
  pub money : Wrote (HeldFor id) (PaidTo doer w.clock) w.escrows w'.escrows
  pub jobs : Counted did (given doer) w.profiles w'.profiles
  pub task : Confirmed mark id w.clock w.tasks w'.tasks

-- Whoever comes second, with whatever options, does not release the money again.
pub move_to_released-again :
    (id : String) (doer doer' : Option String) (mark mark' : Bool) (w : World)
    → Post
        (λ _ w'.
          Post
            (λ did _. did ≡ false)
            (λ _. mark' ≡ true)
            (run (move_to_released id doer' mark') w'))
        (λ _. mark ≡ true)
        (run (move_to_released id doer mark) w)
move_to_released-again id doer doer' mark mark' w =
    Post-weaken _ _ _ _ (run (move_to_released id doer mark) w)
      (λ _ v h.
        Post-weaken _ _ _ _ (run (move_to_released id doer' mark') v)
          (λ did _ h'. rw h'.0 (rw h.1 refl)) (λ _ e. e) (move_to_released-leaves id doer' mark' v))
      (λ _ e. e) (move_to_released-leaves id doer mark w)
