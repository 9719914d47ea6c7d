-- ===== src/Outcomes/Accept.antt =====
-- `accept` of tasks.service.ts: who gets a task, and on what conditions.
use help_mi.Common.{
  ◌≡◌, refl, ap, ℕ, none, ◌≤◌, ◌&&◌, &&-both, eq-path, path-eq, Bool, true, false, not, ◌==◌, some,
  List, [], ◌∷◌, String, arith, nat_eq, ltb,
}
use help_mi.Schema.{Task, DoerProfile, TaskStatus, KycStatus, task_is, kyc_is, tier_rank, is_escrow}
use help_mi.Database.{find_first, update_rows, count_rows}
use help_mi.Database.Laws.{find_first-written, find_first-fits}
use help_mi.Database.Rowwise.{Wrote, Wrote-update_rows, reached}
use mathlib.Core.Path.{ap₂}
use help_mi.World.{World}
use help_mi.Handler.{run}
use help_mi.Tasks.Lifecycle.{
  accept, find_task, is_none, check_doer, check_funds, check_held, assign, is_held, claims,
  claimed_row,
}
use help_mi.Outcomes.Statuses.{is_open, is_absent}
use help_mi.Outcomes.Success.{Post-updated}
use help_mi.Outcomes.Post.{Post, Post-or_throw, Post-guard, Post-if, Post-call, Post-check}

-- What `accept` has checked of the task, the doer and the money.
pub record Eligible (w : World) (id doer : String) : Type 0 where
  pub task : Task
  pub profile : DoerProfile
  pub found : find_first (λ t. t.id == id) w.tasks ≡ some task
  pub is_open : task_is task.status TaskStatus.open_ ≡ true
  pub not_own : (task.poster_id == doer) ≡ false
  pub has_profile : find_first (λ p. p.user_id == doer) w.profiles ≡ some profile
  pub approved : kyc_is profile.kyc_status KycStatus.approved ≡ true
  pub ranked : ltb (tier_rank profile.tier) (tier_rank task.required_tier) ≡ false
  pub secured :
      is_escrow task.payment_mode ≡ true
      → is_held (find_first (λ e. e.task_id == id) w.escrows) ≡ true

-- A row on offer without a doer, and what it becomes.
abbrev pub OnOffer : String → Task → Type 0
OnOffer id t = (t.id ≡ id) × ((t.status ≡ TaskStatus.open_) × (t.doer_id ≡ none))

abbrev pub TakenBy : String → ℕ → Task → Task → Type 0
TakenBy doer now t t' =
    t' ≡ record t { status = TaskStatus.assigned; doer_id = some doer; accepted_at = some now }

-- What `accept` does: it was allowed to, the task was on offer and is the doer's, and no other row
-- of the tasks and no escrow has changed.
pub record Granted (w : World) (id doer : String) (t : Task) (w' : World) : Type 0 where
  pub eligible : Eligible w id doer
  pub was_free : eligible.task.doer_id ≡ none
  pub taken : TakenBy doer w.clock eligible.task t
  pub tasks_after : Wrote (OnOffer id) (TakenBy doer w.clock) w.tasks w'.tasks
  pub escrows_after : w'.escrows ≡ w.escrows
  pub returned : find_first (λ t. t.id == id) w'.tasks ≡ some t

update_rows-none :
    {A : Type 0} (p : A → Bool) (f : A → A) (rows : List A)
    → count_rows p rows ≡ 0
    → update_rows p f rows ≡ rows
unfolding update_rows count_rows
update_rows-none p f [] h = refl
update_rows-none p f (r ∷ rows) h = ground (arith, update_rows-none p f rows)

claims-OnOffer : (id : String) (t : Task) → claims id t ≡ true → OnOffer id t
claims-OnOffer id t h =
    let (same, rest) = &&-both (t.id == id) _ h in
    let (open_, free) = &&-both (task_is t.status TaskStatus.open_) _ rest in
    (eq-path t.id id same, (is_open t.status open_, is_absent t.doer_id free))

OnOffer-claims : (id : String) (t : Task) → OnOffer id t → claims id t ≡ true
OnOffer-claims id t (same, (open_, free)) =
    ap₂ ◌&&◌ (path-eq t.id id same)
      (ap₂ ◌&&◌ (ap (λ s. task_is s TaskStatus.open_) open_) (ap (λ o. is_none o) free))

module _ (w : World) (id doer : String) (unique : count_rows (λ t. t.id == id) w.tasks ≤ 1) where
  abbrev Same : World → Type 0
  Same w' = w' ≡ w

  fits_id : {t : Task} → find_first (λ t. t.id == id) w.tasks ≡ some t → (t.id == id) ≡ true
  fits_id {t} found = find_first-fits (λ t. t.id == id) w.tasks {r = t} found

  claimed_some :
      not (nat_eq (count_rows (claims id) w.tasks) 0) ≡ true
      → count_rows (claims id) w.tasks ≡ 0
      → ⊥
  claimed_some n z = ground arith

  assign-Post :
      (t : Task) → Eligible w id doer → Post (Granted w id doer) Same (run (assign t id doer) w)
  unfolding assign
  assign-Post t e =
      let after = update_rows (claims id) (claimed_row doer w.clock) w.tasks in
      Post-guard _ _ (not (nat_eq (count_rows (claims id) w.tasks) 0)) _ _ _
        (λ n.
          let fits = reached (λ t. t.id == id) _ w.tasks e.found unique (claimed_some n) in
          let free = (claims-OnOffer id e.task (ap₂ ◌&&◌ (fits_id e.found) fits)).1.1 in
          let there =
            find_first-written (λ t. t.id == id) (claims id) (claimed_row doer w.clock) w.tasks
              (λ _. refl) e.found
              (OnOffer-claims id e.task
                (claims-OnOffer id e.task (ap₂ ◌&&◌ (fits_id e.found) fits))) in
          Post-updated _ _ (find_first (λ t. t.id == id) after) (λ t. t) _ _ _ there
            (record {
              eligible = e;
              was_free = free;
              taken = refl;
              tasks_after =
                  Wrote-update_rows (OnOffer id) (TakenBy doer w.clock) (claims id)
                    (claimed_row doer w.clock) w.tasks (claims-OnOffer id) (OnOffer-claims id)
                    (λ _. refl);
              escrows_after = refl;
              returned = there;
            }))
        (λ z.
          ap (λ l. record w { tasks = l })
            (update_rows-none (claims id) (claimed_row doer w.clock) w.tasks (ground arith)))

  -- The money check keeps the world and passes only where the money of an ESCROW task is held.
  check_funds-Post :
      (t : Task)
      → Post
          (λ _ w'.
            (w' ≡ w)
            × (is_escrow t.payment_mode ≡ true
                → is_held (find_first (λ e. e.task_id == id) w.escrows) ≡ true))
          Same
          (run (check_funds t id) w)
  unfolding check_funds check_held
  check_funds-Post t =
      Post-if _ _ (is_escrow t.payment_mode) _ _ _
        (λ _.
          Post-check _ _ (is_held (find_first (λ e. e.task_id == id) w.escrows)) _ _
            (λ held. (refl, λ _. held)) (λ _. refl))
        (λ cash. (refl, λ escrow. ground arith))

  -- What the checks on the doer say of its profile.
  abbrev Qualified : Task → DoerProfile → Type 0
  Qualified t p =
      (kyc_is p.kyc_status KycStatus.approved ≡ true)
      × (ltb (tier_rank p.tier) (tier_rank t.required_tier) ≡ false)

  check_doer-Post :
      (t : Task)
      → Post
          (λ _ w'.
            (w' ≡ w)
            × ((p : DoerProfile) × ((find_first (λ p. p.user_id == doer) w.profiles ≡ some p)
                  × Qualified t p)))
          Same
          (run (check_doer t doer) w)
  unfolding check_doer
  check_doer-Post t =
      Post-or_throw _ _ (find_first (λ p. p.user_id == doer) w.profiles) _ _ _
        (λ p has.
          Post-guard _ _ (kyc_is p.kyc_status KycStatus.approved) _ _ _
            (λ approved.
              Post-check _ _ (not (ltb (tier_rank p.tier) (tier_rank t.required_tier))) _ _
                (λ ranked. (refl, (p, (has, (approved, ground arith))))) (λ _. refl))
            (λ _. refl))
        (λ _. refl)

  -- Where no two tasks have this id, `accept` either refuses and changes nothing at all, or the task
  -- was open, without a doer and another's, the doer approved and of a sufficient tier, the money of
  -- an ESCROW task held, and the task is now ASSIGNED to the doer, accepted at this time and
  -- otherwise as it was, and no other task and no escrow changes.
  pub accept-Outcome : Post (Granted w id doer) Same (run (accept id doer) w)
  unfolding accept find_task
  accept-Outcome =
      Post-or_throw _ _ (find_first (λ t. t.id == id) w.tasks) _ _ _
        (λ t found.
          Post-guard _ _ (task_is t.status TaskStatus.open_) _ _ _
            (λ is_open.
              Post-guard _ _ (not (t.poster_id == doer)) _ _ _
                (λ not_own. Post-call _ _ (check_doer t doer) _ _ _ (check_doer-Post t) (λ _ q.
                  Post-call _ _ (check_funds t id) _ _ _ (check_funds-Post t) (λ _ secured.
                    assign-Post t (record {
                      task = t;
                      profile = q.0;
                      found = found;
                      is_open = is_open;
                      not_own = ground arith;
                      has_profile = q.1.0;
                      approved = q.1.1.0;
                      ranked = q.1.1.1;
                      secured = secured;
                    }))))
                (λ _. refl))
            (λ _. refl))
        (λ _. refl)
