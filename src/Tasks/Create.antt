-- ===== src/Tasks/Create.antt =====
-- `create` of tasks.service.ts: a task that waits for its payment, with its escrow or posting fee.
use help_mi.Common.{
  ℕ, String, Option, none, some, false, List, [], ◌||◌, ◌==◌, or_default, if◌then◌else◌,
}
use help_mi.Schema.{
  DoerTier, PaymentMode, TaskStatus, EscrowStatus, PostingFeeStatus, Category, Task, Escrow,
  PostingFee, is_escrow,
}
use help_mi.World.{categories, tasks, escrows, fees}
use help_mi.Handler.{Handler, pure, ◌>>=◌, ◌>>◌, guard, or_throw, not_found}
use help_mi.Handler.Calls.{reads, find, create}

-- `CreateTaskDto`, its budget in cents and its dates parsed.
pub record CreateTaskDto : Type 0 where
  pub category_id : String
  pub title : String
  pub description : String
  pub photo_urls : Option (List String)
  pub location_lat : ℕ
  pub location_lng : ℕ
  pub location_address : String
  pub budget : ℕ
  pub payment_mode : Option PaymentMode
  pub required_tier : Option DoerTier
  pub scheduled_start : Option ℕ
  pub scheduled_end : Option ℕ

abbrev pub new_task : String → CreateTaskDto → Category → String → Task
new_task poster_id dto category id = record {
  id = id;
  poster_id = poster_id;
  category_id = dto.category_id;
  title = dto.title;
  description = dto.description;
  photo_urls = or_default dto.photo_urls [];
  location_lat = dto.location_lat;
  location_lng = dto.location_lng;
  location_address = dto.location_address;
  budget = dto.budget;
  payment_mode = or_default dto.payment_mode PaymentMode.escrow;
  required_tier = or_default dto.required_tier category.min_tier;
  status = TaskStatus.pending_payment;
  scheduled_start = dto.scheduled_start;
  scheduled_end = dto.scheduled_end;
  doer_id = none;
  accepted_at = none;
  started_at = none;
  completed_at = none;
  completion_photo_url = none;
  confirmed_at = none;
  is_featured = false;
}

-- The escrow of an ESCROW task, with the fees of its budget.
abbrev pub new_escrow : (ℕ → ℕ → ℕ) → Task → String → Escrow
new_escrow fixed_percent task id = record {
  id = id;
  task_id = task.id;
  poster_id = task.poster_id;
  doer_id = none;
  task_budget = task.budget;
  platform_fee_from_poster = fixed_percent 5 task.budget;
  platform_fee_from_doer = fixed_percent 15 task.budget;
  trust_fund_reserve = fixed_percent 5 task.budget;
  net_doer_payout = some (fixed_percent 85 task.budget);
  payhere_payment_id = none;
  payhere_order_id = none;
  status = EscrowStatus.pending;
  held_at = none;
  released_at = none;
  refunded_at = none;
}

-- The posting fee of a CASH task: the column's default is Rs. 99.00.
abbrev pub new_fee : Task → String → PostingFee
new_fee task id = record {
  id = id;
  task_id = task.id;
  poster_id = task.poster_id;
  amount = 9900;
  status = PostingFeeStatus.pending;
  payhere_order_id = none;
  payhere_payment_id = none;
  paid_at = none;
}

unfoldable pub create_escrow : (ℕ → ℕ → ℕ) → Task → Handler Escrow
create_escrow fixed_percent task =
    create escrows (λ new e. e.id == new.id || e.task_id == new.task_id)
      (λ id now. new_escrow fixed_percent task id)

unfoldable pub add_escrow : Task → Handler Task
add_escrow task = do
  fixed_percent ← reads (λ w. w.services.fixed_percent)
  create_escrow fixed_percent task
  pure task

unfoldable pub create_fee : Task → Handler PostingFee
create_fee task =
    create fees (λ new f. f.id == new.id || f.task_id == new.task_id) (λ id now. new_fee task id)

unfoldable pub add_fee : Task → Handler Task
add_fee task = do create_fee task; pure task

unfoldable pub create_task_row : String → CreateTaskDto → Category → Handler Task
create_task_row poster_id dto category =
    create tasks (λ new t. t.id == new.id) (λ id now. new_task poster_id dto category id)

-- `create`
unfoldable pub create_task : String → CreateTaskDto → Handler Task
create_task poster_id dto = do
  row ← find categories (λ c. c.id == dto.category_id)
  category ← or_throw row (not_found "Category not found")
  guard category.is_active (not_found "Category not found")
  task ← create_task_row poster_id dto category
  if is_escrow task.payment_mode then add_escrow task else add_fee task
