-- ===== src/Examples/Doors.antt =====
-- The door of the API and the transports, at the sample world and at environments of production.
use help_mi.Common.{
  ℕ, decimal, digit, ◌+◌, translate, String, ◌≡◌, refl, none, some, true, false, [], ◌∷◌, ◌==◌,
  trim, trim_start, trim_end, to_lower_case, starts_with, contains, units, if◌then◌else◌,
  or_default,
}
use help_mi.Database.{find_first}
use help_mi.Handler.{run}
use help_mi.Config.{
  Env, str, is_weak_pattern, is_weak_secret, is_placeholder, is_console, is_unsafe_mode,
  basic_issues, secret_issues, provider_issues, credential_issues, collect_env_issues,
}
use help_mi.Requests.{serve, cancels}
use help_mi.Requests
use help_mi.Schema.{DoerTier, Payout}
use help_mi.Payouts.{new_payout_row}
use help_mi.Payouts.Export.{csv_text, join}
use help_mi.Api.{api_route, of_caller}
use help_mi.Api
use help_mi.Api.Reply.{reply, failed}
use help_mi.Transports.Sms.{SmsOutcome, send_sms, sms_provider, console_line}
use help_mi.Transports.Push.{PushOutcome, send_push, push_provider, fcm_send, fcm_access_token}
use help_mi.Transports.Token.{TokenReply, get_access_token, api_host}
use help_mi.Categories.{by_sort_order, insert_sorted}
use help_mi.Outcomes.Gate.{MayEnter, api_route-Closed, api_route-serve}
use help_mi.Outcomes.Transport.{Lasts, get_access_token-Lasts, validate_env-api_host}
use help_mi.Examples.Runs.{production_env-accepted, is_production}
use help_mi.Examples.Sample.{otp_world, sample_user, production_env}

no_token : MayEnter otp_world none → ⊥
no_token x = x

api_route-Closed_example :
    (reply
        (λ n. "UNAUTHORIZED")
        "/tasks"
        (run (api_route none (of_caller (Api.tasks Api.posted))) otp_world)
      ≡ failed (record {
        status_code = 401;
        error = "UNAUTHORIZED";
        message = "Unauthorized";
        path = "/tasks";
        timestamp = otp_world.clock;
      }))
    × ((run (api_route none (of_caller (Api.tasks Api.posted))) otp_world).1 ≡ otp_world)
api_route-Closed_example =
    api_route-Closed (λ n. "UNAUTHORIZED") "/tasks" otp_world none (Api.tasks Api.posted) no_token

sample-MayEnter : MayEnter otp_world (some "ann")
unfolding find_first
sample-MayEnter = (sample_user, (refl, refl))

api_route-serve_example :
    run (api_route (some "ann") (of_caller (Api.tasks (Api.cancels "t1")))) otp_world
    ≡ run (serve (Requests.cancels "t1" "ann")) otp_world
api_route-serve_example =
    api_route-serve otp_world "ann" (Api.tasks (Api.cancels "t1")) (Requests.cancels "t1" "ann")
      sample-MayEnter refl

abbrev sample_reply : ℕ → TokenReply
sample_reply now = record {
  is_ok = true;
  access_token = some "token";
  expires_in = some 600;
  received_at = now + 20;
}

get_access_token-Lasts_example :
    Lasts sample_reply 1000 2000 none (get_access_token sample_reply 1000 none)
get_access_token-Lasts_example = get_access_token-Lasts sample_reply 1000 2000 none

no_sandbox : (str production_env "PAYHERE_ALLOW_SANDBOX_IN_PROD" == "true") ≡ false
unfolding str trim trim_start trim_end
no_sandbox = refl

plain_mode : str production_env "PAYHERE_MODE" ≡ or_default (production_env "PAYHERE_MODE") ""
unfolding str trim trim_start trim_end
plain_mode = refl

validate_env-api_host_example : api_host production_env ≡ "https://www.payhere.lk"
validate_env-api_host_example =
    validate_env-api_host production_env production_env is_production production_env-accepted
      no_sandbox plain_mode

-- The same with one key set otherwise.
abbrev with_key : String → String → Env
with_key key value k = if k == key then some value else production_env k

-- A provider that the factory does not know is accepted in production, and the code is logged.
unknown_sms_test :
    (collect_env_issues (with_key "SMS_PROVIDER" "dialogue") ≡ [])
    × (send_sms (λ s. s) (λ r. true) (with_key "SMS_PROVIDER" "dialogue") "0771" "123456"
        ≡ SmsOutcome.logged (console_line "0771" "123456"))
unfolding str collect_env_issues basic_issues secret_issues provider_issues credential_issues
    is_weak_secret is_weak_pattern is_placeholder is_console is_unsafe_mode trim trim_start trim_end
    to_lower_case starts_with contains units translate send_sms sms_provider
unknown_sms_test = (refl, refl)

-- A mode with a blank is accepted as live, and refunds go to the sandbox.
blank_mode_test :
    (collect_env_issues (with_key "PAYHERE_MODE" "live ") ≡ [])
    × (api_host (with_key "PAYHERE_MODE" "live ") ≡ "https://sandbox.payhere.lk")
unfolding str collect_env_issues basic_issues secret_issues provider_issues credential_issues
    is_weak_secret is_weak_pattern is_placeholder is_console is_unsafe_mode trim trim_start trim_end
    to_lower_case starts_with contains units translate api_host
blank_mode_test = (refl, refl)

-- With everything set the FCM provider sends nothing.
fcm_test :
    send_push (λ k. some "fcm") "device" (record { title = "t"; body = "b" }) ≡ PushOutcome.skipped
unfolding send_push push_provider fcm_send fcm_access_token to_lower_case
fcm_test = refl

by_sort_order_test :
    by_sort_order (
      record { id = "b"; min_tier = DoerTier.bronze; is_active = true; sort_order = 2 }
      ∷ record { id = "a"; min_tier = DoerTier.bronze; is_active = true; sort_order = 1 }
      ∷ [])
    ≡ record { id = "a"; min_tier = DoerTier.bronze; is_active = true; sort_order = 1 }
      ∷ record { id = "b"; min_tier = DoerTier.bronze; is_active = true; sort_order = 2 }
      ∷ []
unfolding by_sort_order insert_sorted
by_sort_order_test = refl

-- One payout, as a line under the header.
abbrev sample_payout : Payout
sample_payout =
    new_payout_row (record { escrow_id = "e1"; task_id = "t1"; doer_id = "bob"; amount = 425000 })
      (record {
        bank_account_name = none;
        bank_account_number = some "12345";
        bank_name = none;
        bank_branch = none;
      })
      "p1" 7

csv_test :
    csv_text otp_world (sample_payout ∷ [])
    ≡ "id,escrowId,taskId,doerId,amount,method,status,providerRef,createdAt,paidAt,account\np1,e1,t1,bob,425000,BANK,PENDING,,7,,12345"
unfolding join decimal digit
csv_test = refl
