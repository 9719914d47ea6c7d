-- ===== src/Examples/Sample.antt =====
-- A world with a poster, a doer with an approved profile, and an open task whose money is held.
use help_mi.Common.{
  ℕ, ◌+◌, ◌-◌, false, ◌*◌, ◌/◌, none, some, true, [], ◌∷◌, concat, decimal, ◌==◌, if◌then◌else◌,
}
use help_mi.Schema.{
  PayoutMethod, Task, Escrow, DoerProfile, DoerTier, KycStatus, TaskStatus, EscrowStatus,
  PaymentMode, User, OtpToken,
}
use help_mi.World.{World, Services}
use help_mi.Payouts.{bank_details}
use help_mi.Auth.{new_user, new_token}
use help_mi.Config.{Env}

abbrev pub hundredths : ℕ → ℕ → ℕ
hundredths p b = (p * b + 50) / 100

abbrev pub sample_services : Services
sample_services = record {
  config = λ key. some "set";
  uuid = λ n. concat "id-" (decimal 3 n);
  refund_reply = λ n p d. record { success = true; provider_ref = some "r"; error = none };
  random_code = λ n. "123456";
  md5 = λ s. s;
  sha256 = λ s. s;
  sign_jwt = λ id phone. concat id phone;
  number_of = λ s. 5;
  rounded_mean = λ sum count. 100 * sum / count;
  rounded_tenths = λ sum count. 10 * sum / count;
  sms_ok = λ n. true;
  signed_url = λ method bucket key type seconds. concat bucket key;
  fixed_percent = hundredths;
  money_text = λ n. decimal 9 n;
  iso_text = λ n. decimal 9 n;
  haversine = λ a b c d. (a - c) + (c - a) + ((b - d) + (d - b));
  km = λ n. n;
}

abbrev pub sample_task : Task
sample_task = record {
  id = "t1";
  poster_id = "ann";
  category_id = "c1";
  title = "Paint a wall";
  description = "White";
  photo_urls = [];
  location_lat = 0;
  location_lng = 0;
  location_address = "Kandy";
  budget = 500000;
  payment_mode = PaymentMode.escrow;
  required_tier = DoerTier.bronze;
  status = TaskStatus.open_;
  scheduled_start = none;
  scheduled_end = none;
  doer_id = none;
  accepted_at = none;
  started_at = none;
  completed_at = none;
  completion_photo_url = none;
  confirmed_at = none;
  is_featured = false;
}

abbrev pub sample_escrow : Escrow
sample_escrow = record {
  id = "e1";
  task_id = "t1";
  poster_id = "ann";
  doer_id = none;
  task_budget = 500000;
  platform_fee_from_poster = 25000;
  platform_fee_from_doer = 75000;
  trust_fund_reserve = 25000;
  net_doer_payout = some 425000;
  payhere_payment_id = some "p1";
  payhere_order_id = some "HM-T1";
  status = EscrowStatus.held;
  held_at = some 5;
  released_at = none;
  refunded_at = none;
}

abbrev pub sample_profile : DoerProfile
sample_profile = record {
  id = "d1";
  user_id = "bob";
  tier = DoerTier.silver;
  kyc_status = KycStatus.approved;
  nic_photo_url = none;
  selfie_url = none;
  address_proof_url = none;
  police_clearance_url = none;
  driving_license_url = none;
  skill_proof_url = none;
  references = record { ref1_name = none; ref1_phone = none; ref2_name = none; ref2_phone = none };
  preferred_payout_method = PayoutMethod.bank;
  wallet = record { mobile_wallet_provider = none; mobile_wallet_number = none };
  bank = bank_details none;
  total_jobs_completed = 0;
  avg_rating = 0;
  on_time_rate = 0;
  kyc_reviewed_at = some 1;
  kyc_review_note = none;
}

abbrev pub sample_world : World
sample_world = record {
  services = sample_services;
  clock = 1000;
  next_id = 7;
  users = [];
  otp_tokens = [];
  profiles = sample_profile ∷ [];
  kyc_reviews = [];
  categories = [];
  tasks = sample_task ∷ [];
  escrows = sample_escrow ∷ [];
  refunds = [];
  ratings = [];
  messages = [];
  disputes = [];
  payouts = [];
  fees = [];
  notifications = [];
  pushes = [];
  events = [];
  calls = [];
  sms = [];
}

-- The task once it is the doer's.
abbrev pub taken_task : Task
taken_task = record sample_task {
  status = TaskStatus.assigned;
  doer_id = some "bob";
  accepted_at = some 900;
}

abbrev pub taken_world : World
taken_world = record sample_world { tasks = taken_task ∷ [] }

abbrev pub sample_user : User
sample_user = new_user "0771" "ann"

abbrev pub sample_token : OtpToken
sample_token = new_token sample_user "0771" "0771:123456:set" 5000 "o1" 900

-- The poster has asked for a code.
abbrev pub otp_world : World
otp_world = record sample_world { users = sample_user ∷ []; otp_tokens = sample_token ∷ [] }

-- A production environment that breaks no rule.
abbrev pub production_env : Env
production_env key =
    if key == "NODE_ENV"
    then some "production"
    else if key == "JWT_SECRET"
    then some "0f9c8b7a6e5d4c3b2a1908f7e6d5c4b3a2f1"
    else if key == "APP_PUBLIC_BASE_URL"
    then some "https://api.helpmi.lk"
    else if key == "SMS_PROVIDER"
    then some "dialog"
    else if key == "PUSH_PROVIDER"
    then some "fcm"
    else if key == "PAYHERE_MODE"
    then some "live"
    else some "filled"
