-- ===== src/Workflow/Disputes.antt =====
-- `raiseDispute` takes its step of the task's life.
use mathlib.Core.Bool.{true≢false}
use mathlib.Core.Option
use help_mi.Common.{
  ◌≡◌, refl, sym, ap, ◌∙◌, subst, Bool, true, false, ◌==◌, ◌||◌, none, some, List, String, ℕ, arith,
  eq-path, eq-join, eq-meet, Bool-cases, inl, inr, opt_is,
}
use help_mi.Schema.{Task, Dispute, TaskStatus}
use help_mi.Database.{find_first, update_rows, add_row, has_row}
use help_mi.Database.Laws.{find_first-written, find_first-fits, none-narrower, has_row-add_row}
use help_mi.World.{World}
use help_mi.Handler.{transaction}
use help_mi.Handler.Interleave.{Any, returns, Keeps->>=}
use help_mi.Tasks.Lifecycle.{
  find_task, is_disputable, disputed_task, new_dispute, create_dispute, record_dispute,
  raise_dispute,
}
use help_mi.Requests.{Request, disputes}
use help_mi.Outcomes.Post.{Post-guard, Post-found, Post-or_throw, Post->>=, Post-created}
use help_mi.Safety.Checkout
use help_mi.Workflow.{TaskState, in_state, Step, stays, contested}
use help_mi.Workflow.Leaves.{Leaves, Leaves-transaction, Ends-Keeps}
use help_mi.Workflow.View.{From, Quiet-state, Step-update_rows, names, state, view, contested_at}

abbrev pub clashes : Dispute → Dispute → Bool
clashes new d = d.id == new.id || d.task_id == new.task_id

module _ (id user text : String) (now : ℕ) (u : Task) (ts : List Task) (ds : List Dispute)
    (new : Dispute) where
  abbrev raised : List Task
  raised = update_rows (λ t. t.id == id) (disputed_task now) ts

  -- The dispute is of the task itself, which had none.
  contested_here :
      find_first (λ t. t.id == id) ts ≡ some u
      → is_disputable u.status ≡ true
      → new.task_id ≡ id
      → has_row (clashes new) ds ≡ false
      → Step id
          (disputes id user text)
          (state id ts (has_row (contested_at id) ds))
          (state id raised (has_row (contested_at id) (add_row new ds)))
  contested_here read fits named fresh =
      subst (λ s. Step id (disputes id user text) s (state id raised added)) (sym before)
        (subst (λ s. Step id (disputes id user text) (in_state u.status false) s) (sym after)
          (contested itself fits))
    where
      itself : (id == id) ≡ true
      itself = let k = find_first-fits (λ t. t.id == id) ts read in eq-meet u.id id id k k

      of_new : (new.task_id == id) ≡ true
      of_new = subst (λ s. (s == id) ≡ true) (sym named) itself

      clear : has_row (contested_at id) ds ≡ false
      clear =
          ap (λ o. elim o [ none ↦ false | some d ↦ true ])
            (none-narrower (clashes new) (contested_at id) ds
              (λ d k. ground (arith, eq-join d.task_id new.task_id id k of_new)) fresh)

      added : Bool
      added = has_row (contested_at id) (add_row new ds)

      marked : added ≡ true
      marked = ground (arith, has_row-add_row (contested_at id) new ds, of_new, clear)

      before : state id ts (has_row (contested_at id) ds) ≡ in_state u.status false
      before =
          ap
            (λ o. record {
              status = Option.map (λ t. t.status) o;
              disputed = has_row (contested_at id) ds;
            })
            read
          ∙ ap (in_state u.status) clear

      after : state id raised added ≡ in_state TaskStatus.disputed true
      after =
          ap (λ o. record { status = Option.map (λ t. t.status) o; disputed = added })
            (find_first-written (λ t. t.id == id) (λ t. t.id == id) (disputed_task now) ts
              (λ t. refl) read (find_first-fits (λ t. t.id == id) ts read))
          ∙ ap (in_state TaskStatus.disputed) marked

  contested-Step :
      (i : String)
      → find_first (λ t. t.id == id) ts ≡ some u
      → is_disputable u.status ≡ true
      → new.task_id ≡ id
      → has_row (clashes new) ds ≡ false
      → Step i
          (disputes id user text)
          (state i ts (has_row (contested_at i) ds))
          (state i raised (has_row (contested_at i) (add_row new ds)))
  contested-Step i read fits named fresh =
      elim (Bool-cases (id == i))
        as (λ _.
          Step i (disputes id user text) (state i ts (has_row (contested_at i) ds))
            (state i raised (has_row (contested_at i) (add_row new ds)))) [
              | inl same ↦
                  subst
                    (λ i.
                      Step i (disputes id user text) (state i ts (has_row (contested_at i) ds))
                        (state i raised (has_row (contested_at i) (add_row new ds))))
                    (eq-path id i same) (contested_here read fits named fresh)
              | inr other ↦
                  subst
                    (λ b.
                      Step i (disputes id user text) (state i ts (has_row (contested_at i) ds))
                        (state i raised b))
                    (flag other)
                    (Step-update_rows i _ (λ t. t.id == id) (disputed_task now) ts _ (λ t. refl)
                      (λ t here reached.
                        absurd (true≢false (sym (names i id ts here reached) ∙ other))))
            ]
    where
      flag :
          (id == i) ≡ false
          → has_row (contested_at i) ds ≡ has_row (contested_at i) (add_row new ds)
      flag other = ground (arith, has_row-add_row (contested_at i) new ds, ap (λ s. s == i) named)

module _ (i : String) where
  pub raise_dispute-Leaves :
      (id user text : String) (w : World)
      → Leaves (From i (disputes id user text) (view i w)) (raise_dispute id user text) w
  unfolding raise_dispute find_task record_dispute create_dispute
  raise_dispute-Leaves id user text w =
      Post-or_throw _ _ (find_first (λ t. t.id == id) w.tasks) _ _ w
        (λ t here.
          Post-guard _ _ (t.poster_id == user || opt_is t.doer_id user) _ _ w
            (λ _.
              Post-guard _ _ (is_disputable t.status) _ _ w
                (λ fits. Post->>= _ _ (transaction (record_dispute t id user text)) _ w (
                  Leaves-transaction (From i r v) (record_dispute t id user text) w stays (
                    Post-found _ _ (find_first (λ t. t.id == id) w.tasks) (disputed_task w.clock) _
                      _
                      (λ _ _.
                        Post-created _ _ (has_row (clashes (made w)) w.disputes) _ (made w) _ _ _
                          (λ fresh.
                            Ends-Keeps _ {Q = Any} _
                              (Keeps->>=
                                (Checkout.freeze_escrow-Keeps (Quiet-state i (Step i r v)) t id)
                                (λ _ _. returns tt))
                              (contested-Step id user text w.clock t w.tasks w.disputes (made w) i
                                here fits refl fresh))
                          (λ _. tt))
                      (λ _. tt))))
                (λ _. stays))
            (λ _. stays))
        (λ _. stays)
    where
      r : Request
      r = disputes id user text

      v : TaskState
      v = view i w

      made : World → Dispute
      made w = new_dispute id user text (w.services.uuid w.next_id)
