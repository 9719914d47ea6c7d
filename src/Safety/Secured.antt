-- ===== src/Safety/Secured.antt =====
-- What holds of an ESCROW task and its escrow from their creation on: the task is one row, the
-- escrow is linked to it and to no other, and once the task is CANCELLED none of its money is HELD.
use help_mi.Common.{
  ◌≡◌, refl, ap, Bool, true, false, not, ◌&&◌, ◌||◌, ◌==◌, some, List, String, arith, if◌then◌else◌,
  eq-join,
}
use mathlib.Core.Option
use help_mi.Schema.{Task, Escrow, PaymentMode, TaskStatus, EscrowStatus, escrow_is}
use help_mi.Database.{find_first, update_rows, count_rows, add_row, has_row}
use help_mi.Database.Laws.{find_first-update_rows, find_first-add_row, find_first-fits}
use help_mi.Database.Counts.{
  count_rows-update_rows, count_rows-add_row, count_rows-lowered, count_rows-or, has_row-unfit,
  count_rows-unfit,
}

-- Money of the task that no one has claimed for a refund.
abbrev pub strands : String → Escrow → Bool
strands id e = e.task_id == id && escrow_is e.status EscrowStatus.held

abbrev pub mislinked : String → String → Escrow → Bool
mislinked id x e = if e.id == x then not (e.task_id == id) else e.task_id == id

pub record Secured (id x : String) (ts : List Task) (es : List Escrow) : Type 0 where
  pub task : Task
  pub escrow : Escrow
  pub found : find_first (λ t. t.id == id) ts ≡ some task
  pub unique : count_rows (λ t. t.id == id) ts ≡ 1
  pub mode : task.payment_mode ≡ PaymentMode.escrow
  pub funded : find_first (λ e. e.id == x) es ≡ some escrow
  pub linked : count_rows (mislinked id x) es ≡ 0
  pub no_strand : task.status ≡ TaskStatus.cancelled → count_rows (strands id) es ≡ 0

written-strand :
    (t u : Task) {N : Type 0} (b : Bool)
    → (t.status ≡ TaskStatus.cancelled → N)
    → (b ≡ true → u.status ≡ TaskStatus.cancelled → N)
    → (if b then u else t).status ≡ TaskStatus.cancelled
    → N
written-strand t u true h k = k refl
written-strand t u false h k = h

module _ (id x : String) {ts : List Task} {es : List Escrow} (s : Secured id x ts es) where
  -- A write to tasks that keeps their ids and modes, and cancels this one only if no money is held.
  pub moved-Secured :
      (p : Task → Bool) (f : Task → Task)
      → ((t : Task) → (f t).id ≡ t.id)
      → ((t : Task) → (f t).payment_mode ≡ t.payment_mode)
      → ((s.task.id == id) ≡ true
          → p s.task ≡ true
          → (f s.task).status ≡ TaskStatus.cancelled
          → count_rows (strands id) es ≡ 0)
      → Secured id x (update_rows p f ts) es
  moved-Secured p f same_id same_mode no_cancel = record {
    task = if p s.task then f s.task else s.task;
    escrow = s.escrow;
    found =
        rw (find_first-update_rows (λ t. t.id == id) p f ts (λ t. ap (λ i. i == id) (same_id t)))
          (ap (Option.map (λ t. if p t then f t else t)) s.found);
    unique =
        rw (count_rows-update_rows (λ t. t.id == id) p f ts (λ t. ap (λ i. i == id) (same_id t)))
          s.unique;
    mode = ground (arith, same_mode s.task, s.mode);
    funded = s.funded;
    linked = s.linked;
    no_strand =
        written-strand s.task (f s.task) (p s.task) s.no_strand
          (no_cancel (find_first-fits (λ t. t.id == id) ts s.found));
  }

  -- A write to escrows that keeps their links and holds no money of a cancelled task.
  pub written-Secured :
      (p : Escrow → Bool) (f : Escrow → Escrow)
      → ((e : Escrow) → (f e).id ≡ e.id)
      → ((e : Escrow) → (f e).task_id ≡ e.task_id)
      → (s.task.status ≡ TaskStatus.cancelled
          → (e : Escrow) → strands id (if p e then f e else e) ≡ true
          → (strands id e || mislinked id x e) ≡ true)
      → Secured id x ts (update_rows p f es)
  written-Secured p f same_id same_task no_hold = record {
    task = s.task;
    escrow = if p s.escrow then f s.escrow else s.escrow;
    found = s.found;
    unique = s.unique;
    mode = s.mode;
    funded =
        rw (find_first-update_rows (λ e. e.id == x) p f es (λ e. ap (λ i. i == x) (same_id e)))
          (ap (Option.map (λ e. if p e then f e else e)) s.funded);
    linked =
        count_rows-lowered (mislinked id x) (mislinked id x) p f es
          (λ e. ground (arith, same_id e, same_task e)) s.linked;
    no_strand = λ c.
        count_rows-lowered (strands id) (λ e. strands id e || mislinked id x e) p f es (no_hold c)
          (count_rows-or (strands id) (mislinked id x) es (s.no_strand c) s.linked);
  }

  other_task : (t : Task) → has_row (λ r. r.id == t.id) ts ≡ false → (t.id == id) ≡ false
  other_task t fresh =
      let fits = find_first-fits (λ t. t.id == id) ts s.found in
      let unfit = has_row-unfit (λ t. t.id == id) (λ r. r.id == t.id) ts s.found fresh in
      ground (arith, eq-join s.task.id t.id id)

  other_escrow :
      (e : Escrow)
      → has_row (λ r. r.id == e.id || r.task_id == e.task_id) es ≡ false
      → ((e.id == x) ≡ false) × ((e.task_id == id) ≡ false)
  other_escrow e fresh =
      let fits = find_first-fits (λ e. e.id == x) es s.funded in
      let link = count_rows-unfit (λ e. e.id == x) (mislinked id x) es s.funded s.linked in
      let unfit =
        has_row-unfit (λ e. e.id == x) (λ r. r.id == e.id || r.task_id == e.task_id) es s.funded
          fresh in
      (
        ground (arith, eq-join s.escrow.id e.id x),
        ground (arith, eq-join s.escrow.task_id e.task_id id),
      )

  pub new_task-Secured :
      (t : Task) → has_row (λ r. r.id == t.id) ts ≡ false → Secured id x (add_row t ts) es
  new_task-Secured t fresh = record {
    task = s.task;
    escrow = s.escrow;
    found = ground (arith, find_first-add_row (λ r. r.id == id) t ts, s.found);
    unique =
        ground (arith, count_rows-add_row (λ r. r.id == id) t ts, s.unique, other_task t fresh);
    mode = s.mode;
    funded = s.funded;
    linked = s.linked;
    no_strand = s.no_strand;
  }

  pub new_escrow-Secured :
      (e : Escrow)
      → has_row (λ r. r.id == e.id || r.task_id == e.task_id) es ≡ false
      → Secured id x ts (add_row e es)
  new_escrow-Secured e fresh = record {
    task = s.task;
    escrow = s.escrow;
    found = s.found;
    unique = s.unique;
    mode = s.mode;
    funded = ground (arith, find_first-add_row (λ r. r.id == x) e es, s.funded);
    linked =
        ground (arith, count_rows-add_row (mislinked id x) e es, s.linked, other_escrow e fresh);
    no_strand = λ c.
        ground (arith, count_rows-add_row (strands id) e es, s.no_strand c, other_escrow e fresh);
  }
