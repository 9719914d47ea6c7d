-- ===== src/Config.antt =====
-- backend/src/config/env.validation.ts: the rules that the environment must meet at the start.
use help_mi.Common.{
  String, Option, none, some, Bool, true, not, ◌&&◌, ◌||◌, ◌==◌, List, [], ◌∷◌, ◌++◌, or_default,
  if◌then◌else◌, trim, to_lower_case, starts_with, contains, units, ltb,
}

-- A variable that is set to a text.
abbrev pub Env : Type 0
Env = String → Option String

pub record EnvIssue : Type 0 where
  pub key : String
  pub problem : String

-- `str`
unfoldable pub str : Env → String → String
str env key = trim (or_default (env key) "")

-- An issue, if the condition holds.
abbrev pub issue_if : Bool → String → String → List EnvIssue
issue_if bad key problem = if bad then (record { key = key; problem = problem }) ∷ [] else []

abbrev pub or_text : String → String → String
or_text s fallback = if s == "" then fallback else s

-- `WEAK_SECRET_PATTERN`
unfoldable pub is_weak_pattern : String → Bool
is_weak_pattern s =
    let t = to_lower_case s in
    contains t "change"
    || contains t "secret"
    || contains t "password"
    || contains t "example"
    || contains t "sample"
    || contains t "dev"
    || contains t "test"
    || contains t "1234"

unfoldable pub is_weak_secret : String → Bool
is_weak_secret jwt = not (jwt == "") && (ltb (units jwt) 32 || is_weak_pattern jwt)

unfoldable pub is_placeholder : String → Bool
is_placeholder value = value == "" || starts_with value "your-"

unfoldable pub is_console : String → Bool
is_console value = to_lower_case (or_text value "console") == "console"

unfoldable pub is_unsafe_mode : Env → Bool
is_unsafe_mode env =
    not (to_lower_case (or_text (str env "PAYHERE_MODE") "sandbox") == "live")
    && not (str env "PAYHERE_ALLOW_SANDBOX_IN_PROD" == "true")

-- The rules of every environment.
unfoldable pub basic_issues : Env → List EnvIssue
basic_issues env =
    issue_if (str env "DATABASE_URL" == "") "DATABASE_URL" "is required"
    ++ issue_if (str env "JWT_SECRET" == "") "JWT_SECRET" "is required"

abbrev pub base_issues : String → List EnvIssue
base_issues base =
    if base == ""
    then issue_if true "APP_PUBLIC_BASE_URL"
        "is required in production (PayHere return/cancel/notify URLs derive from it)"
    else issue_if (not (starts_with base "https://")) "APP_PUBLIC_BASE_URL"
        "must be an https:// URL in production"

-- The rules of production about secrets and origins.
unfoldable pub secret_issues : Env → List EnvIssue
secret_issues env =
    issue_if (is_weak_secret (str env "JWT_SECRET")) "JWT_SECRET"
      "must be at least 32 chars and not a default/weak-pattern value"
    ++ issue_if (str env "OTP_PEPPER" == "") "OTP_PEPPER"
        "must be set in production (OTP hash pepper)"
    ++ issue_if (str env "CORS_ORIGINS" == "") "CORS_ORIGINS"
        "must list allowed origins in production (reflect-any is dev-only)"
    ++ base_issues (str env "APP_PUBLIC_BASE_URL")

-- The rules of production about providers.
unfoldable pub provider_issues : Env → List EnvIssue
provider_issues env =
    issue_if (is_console (str env "SMS_PROVIDER")) "SMS_PROVIDER"
      "console provider writes OTPs to logs; set 'dialog' or 'twilio' in production"
    ++ issue_if (is_console (str env "PUSH_PROVIDER")) "PUSH_PROVIDER" "set 'fcm' in production"
    ++ issue_if (is_unsafe_mode env) "PAYHERE_MODE"
        "must be 'live' in production (or set PAYHERE_ALLOW_SANDBOX_IN_PROD=true explicitly)"

abbrev pub credential_issue : Env → String → String → List EnvIssue
credential_issue env problem key = issue_if (is_placeholder (str env key)) key problem

-- The rules of production about credentials and the admins.
unfoldable pub credential_issues : Env → List EnvIssue
credential_issues env =
    credential_issue env "must be set to real merchant credentials in production"
      "PAYHERE_MERCHANT_ID"
    ++ credential_issue env "must be set to real merchant credentials in production"
        "PAYHERE_MERCHANT_SECRET"
    ++ credential_issue env "must be set in production (PayHere Business App — refund execution)"
        "PAYHERE_APP_ID"
    ++ credential_issue env "must be set in production (PayHere Business App — refund execution)"
        "PAYHERE_APP_SECRET"
    ++ issue_if (str env "ADMIN_PHONES" == "") "ADMIN_PHONES"
        "must be set in production (admin allowlist)"

-- `collectEnvIssues`
unfoldable pub collect_env_issues : Env → List EnvIssue
collect_env_issues env =
    if not (str env "NODE_ENV" == "production")
    then basic_issues env
    else basic_issues env ++ (secret_issues env ++ (provider_issues env ++ credential_issues env))

-- `validateEnv`: none where it throws and the start is aborted.
unfoldable pub validate_env : Env → Option Env
validate_env env = elim (collect_env_issues env) [ [] ↦ some env | i ∷ issues ↦ none ]
