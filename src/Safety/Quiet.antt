-- ===== src/Safety/Quiet.antt =====
-- What most handlers leave alone: they confirm a task and lower an escrow, and no other write of
-- theirs reaches the tasks, the escrows or the disputes.
use help_mi.Common.{ℕ, Bool, ◌==◌, List, String, arith}
use help_mi.Schema.{Task, Escrow, Dispute, DoerProfile, KycStatus, kyc_is}
use help_mi.Database.{find_first, update_rows}
use help_mi.World.{World}
use help_mi.Handler.Interleave.{
  Keeps, returns, steps, Any, Keeps->>=, Keeps-weaken, Keeps-guard, Keeps-or_throw, Keeps-if,
}
use help_mi.Tasks.Lifecycle.{
  find_task, check_held, ensure_task_poster, check_doer, check_funds, profile_qualifies,
}
use help_mi.Tasks.Release.{confirmed_task}
use help_mi.Safety.Stable.{Lowers, Stable}

-- What is said of the three tables, said of the world.
abbrev pub OfTables : (List Task → List Escrow → List Dispute → Type 0) → World → Type 0
OfTables P w = P w.tasks w.escrows w.disputes

pub record Quiet (P : List Task → List Escrow → List Dispute → Type 0) : Type 0 where
  pub lowered :
      (p : Escrow → Bool) (f : Escrow → Escrow) (ts : List Task) (es : List Escrow)
      (ds : List Dispute)
      → ((e : Escrow) → Lowers e (f e))
      → P ts es ds
      → P ts (update_rows p f es) ds
  pub confirmed :
      (id : String) (now : ℕ) (ts : List Task) (es : List Escrow) (ds : List Dispute)
      → P ts es ds
      → P (update_rows (λ t. t.id == id) (confirmed_task now) ts) es ds

module _ {Inv : World → Type 0} where
  pub find_task-looks : (id : String) → Keeps Inv Any (find_task id)
  unfolding find_task
  find_task-looks id =
      steps (λ w i. i)
        λ w i. Keeps-weaken (λ _ _. tt) (Keeps-or_throw (find_first (λ t. t.id == id) w.tasks) _)

  pub check_held-Keeps : (id message : String) → Keeps Inv Any (check_held id message)
  unfolding check_held
  check_held-Keeps id message = steps (λ w i. i) λ w i. Keeps-weaken (λ _ _. tt) (Keeps-guard _ _)

  pub ensure_task_poster-Keeps : (id poster : String) → Keeps Inv Any (ensure_task_poster id poster)
  unfolding ensure_task_poster
  ensure_task_poster-Keeps id poster =
      Keeps->>= (find_task-looks id)
        λ t _. Keeps->>= (Keeps-guard (t.poster_id == poster) _) λ _ _. returns tt

  profile-Keeps : (t : Task) (p : DoerProfile) → Keeps Inv Any (profile_qualifies t p)
  profile-Keeps t p =
      Keeps->>= (Keeps-guard (kyc_is p.kyc_status KycStatus.approved) _)
        λ _ _. Keeps-weaken (λ _ _. tt) (Keeps-guard _ _)

  pub check_doer-Keeps : (t : Task) (id : String) → Keeps Inv Any (check_doer t id)
  unfolding check_doer
  check_doer-Keeps t id =
      steps (λ w i. i)
        λ w i.
          Keeps->>= (Keeps-or_throw (find_first (λ p. p.user_id == id) w.profiles) _)
            λ p _. profile-Keeps t p

  pub check_funds-Keeps : (t : Task) (id : String) → Keeps Inv Any (check_funds t id)
  unfolding check_funds
  check_funds-Keeps t id = Keeps-if _ (check_held-Keeps id _) (returns tt)

-- What is stable withstands a quiet handler.
pub quiet :
    {P : List Task → List Escrow → Type 0} {Known : Task → Type 0} {KnownEscrow : Escrow → Type 0}
    → Stable P Known KnownEscrow
    → Quiet (λ ts es ds. P ts es)
quiet s = record {
  lowered = λ p f ts es ds l h. s.lowered p f ts es l h;
  confirmed = λ id now ts es ds h.
      s.moved (λ t. t.id == id) (confirmed_task now) ts es (λ t. ground arith) (λ t p. ground arith)
        h;
}
