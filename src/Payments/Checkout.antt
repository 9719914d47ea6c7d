-- ===== src/Payments/Checkout.antt =====
-- `getEscrow`, `initiatePayment` and `callbackUrls` of payments.service.ts.
use help_mi.Common.{
  ℕ, ◌+◌, String, Option, none, some, Bool, false, not, ◌||◌, ◌==◌, if◌then◌else◌, opt_is, concat,
  or_default, trim, drop_slash, to_upper_case, to_fixed,
}
use help_mi.Schema.{
  EscrowStatus, PostingFeeStatus, Task, Escrow, PostingFee, is_escrow, escrow_is, fee_is,
}
use help_mi.Database.{find_first}
use help_mi.World.{World, escrows, fees}
use help_mi.Handler.{Handler, pure, ◌>>=◌, ◌>>◌, guard, or_throw, not_found, bad_request}
use help_mi.Handler.Calls.{reads, find, update}

abbrev pub config_or : World → String → String → String
config_or w key fallback = or_default (w.services.config key) fallback

abbrev pub task_allows : World → Escrow → String → Bool
task_allows w e user_id = elim (find_first (λ t. t.id == e.task_id) w.tasks) [
  | none ↦ false
  | some t ↦ t.poster_id == user_id || opt_is t.doer_id user_id
]

-- The escrow of a task, and whether the user is a party of the task that it joins.
abbrev pub find_escrow_for : String → String → World → Option (Escrow × Bool)
find_escrow_for task_id user_id w = elim (find_first (λ e. e.task_id == task_id) w.escrows) [
  | none ↦ none
  | some e ↦ some (e, task_allows w e user_id)
]

-- `getEscrow`
unfoldable pub get_escrow : String → String → Handler Escrow
get_escrow task_id user_id = do
  row ← reads (find_escrow_for task_id user_id)
  (escrow, allowed) ← or_throw row (not_found "Escrow not found")
  guard allowed (bad_request "Not authorized to view this escrow")
  pure escrow

pub record CallbackUrls : Type 0 where
  pub return_url : String
  pub cancel_url : String
  pub notify_url : String

abbrev pub pick : World → String → String → String
pick w key fallback =
    let explicit = trim (config_or w key "") in if explicit == "" then fallback else explicit

abbrev pub under : String → String → String
under base path = if base == "" then "" else concat base path

abbrev pub public_base : World → String
public_base w = drop_slash (trim (config_or w "APP_PUBLIC_BASE_URL" ""))

abbrev pub callback_urls_of : World → CallbackUrls
callback_urls_of w =
    let base = public_base w in
    record {
      return_url = pick w "PAYHERE_RETURN_URL" (under base "/payment/return");
      cancel_url = pick w "PAYHERE_CANCEL_URL" (under base "/payment/cancel");
      notify_url = pick w "PAYHERE_NOTIFY_URL" (under base "/api/payments/webhook");
    }

-- `callbackUrls`
unfoldable pub callback_urls : Handler CallbackUrls
callback_urls = do
  urls ← reads callback_urls_of
  guard (not (urls.return_url == "" || urls.cancel_url == "" || urls.notify_url == "")) (
      bad_request
        "Payment configuration incomplete: set APP_PUBLIC_BASE_URL (or PAYHERE_*_URL overrides)")
  pure urls

pub record CheckoutParams : Type 0 where
  pub merchant_id : String
  pub urls : CallbackUrls
  pub order_id : String
  pub items : String
  pub currency : String
  pub amount : String
  pub hash : String

pub record Checkout : Type 0 where
  pub checkout_url : String
  pub params : CheckoutParams

abbrev pub md5_upper : World → String → String
md5_upper w s = to_upper_case (w.services.md5 s)

-- The signature of the checkout form.
abbrev pub checkout_hash : World → String → String → String
checkout_hash w order_id amount = md5_upper w (
    concat (config_or w "PAYHERE_MERCHANT_ID" "") (
      concat order_id
        (concat amount (concat "LKR" (md5_upper w (config_or w "PAYHERE_MERCHANT_SECRET" ""))))))

abbrev pub base_url : World → String
base_url w =
    if config_or w "PAYHERE_MODE" "sandbox" == "sandbox"
    then "https://sandbox.payhere.lk/pay/checkout"
    else "https://www.payhere.lk/pay/checkout"

abbrev pub escrow_order_id : String → String
escrow_order_id task_id = concat "HM-" (to_upper_case task_id)

abbrev pub fee_order_id : String → String
fee_order_id task_id = concat "HMF-" (to_upper_case task_id)

abbrev pub ordered_escrow : String → ℕ → Escrow → Escrow
ordered_escrow task_id now e = record e { payhere_order_id = some (escrow_order_id task_id) }

abbrev pub ordered_fee : String → ℕ → PostingFee → PostingFee
ordered_fee task_id now f = record f { payhere_order_id = some (fee_order_id task_id) }

-- The order of an ESCROW task: the budget and the poster's fee.
unfoldable pub escrow_order : String → Option Escrow → Handler (String × ℕ)
escrow_order task_id row = do
  escrow ← or_throw row (not_found "Escrow record not found")
  guard (escrow_is escrow.status EscrowStatus.pending) (bad_request "Payment already initiated")
  update escrows (λ e. e.task_id == task_id) (ordered_escrow task_id)
  pure (escrow_order_id task_id, escrow.task_budget + escrow.platform_fee_from_poster)

-- The order of a CASH task: the posting fee.
unfoldable pub fee_order : String → Handler (String × ℕ)
fee_order task_id = do
  row ← find fees (λ f. f.task_id == task_id)
  fee ← or_throw row (not_found "Posting fee record not found")
  guard (fee_is fee.status PostingFeeStatus.pending) (bad_request "Posting fee already paid")
  update fees (λ f. f.task_id == task_id) (ordered_fee task_id)
  pure (fee_order_id task_id, fee.amount)

-- The task with its escrow, as `include: { escrow: true }` reads them.
abbrev pub find_task_with_escrow : String → World → Option (Task × Option Escrow)
find_task_with_escrow task_id w = elim (find_first (λ t. t.id == task_id) w.tasks) [
  | none ↦ none
  | some t ↦ some (t, find_first (λ e. e.task_id == t.id) w.escrows)
]

abbrev pub checkout_of : World → Task → String → ℕ → CallbackUrls → Checkout
checkout_of w task order_id amount urls = record {
  checkout_url = base_url w;
  params = record {
    merchant_id = config_or w "PAYHERE_MERCHANT_ID" "";
    urls = urls;
    order_id = order_id;
    items = task.title;
    currency = "LKR";
    amount = to_fixed amount;
    hash = checkout_hash w order_id (to_fixed amount);
  };
}

unfoldable pub order_of : Task → String → Option Escrow → Handler (String × ℕ)
order_of task task_id escrow =
    if is_escrow task.payment_mode then escrow_order task_id escrow else fee_order task_id

-- `initiatePayment`
unfoldable pub initiate_payment : String → String → Handler Checkout
initiate_payment task_id user_id = do
  row ← reads (find_task_with_escrow task_id)
  (task, escrow) ← or_throw row (not_found "Task not found")
  guard (task.poster_id == user_id) (bad_request "Only the poster can pay")
  (order_id, amount) ← order_of task task_id escrow
  urls ← callback_urls
  reads (λ w. checkout_of w task order_id amount urls)
