-- ===== src/Outcomes/Environment.antt =====
-- What an environment that passes validation has, when it is production.
use help_mi.Common.{
  ◌≡◌, refl, String, none, some, Bool, true, false, not, ◌==◌, List, [], ◌∷◌, ◌++◌, arith,
  if◌then◌else◌, starts_with,
}
use help_mi.Config.{
  Env, EnvIssue, str, issue_if, is_weak_secret, is_placeholder, is_console, is_unsafe_mode,
  basic_issues, base_issues, secret_issues, provider_issues, credential_issues, collect_env_issues,
  validate_env,
}

-- The rules that the file's header lists for production.
pub record Safe (env : Env) : Type 0 where
  pub database : (str env "DATABASE_URL" == "") ≡ false
  pub secret : (str env "JWT_SECRET" == "") ≡ false
  pub strong : is_weak_secret (str env "JWT_SECRET") ≡ false
  pub pepper : (str env "OTP_PEPPER" == "") ≡ false
  pub origins : (str env "CORS_ORIGINS" == "") ≡ false
  pub base : (str env "APP_PUBLIC_BASE_URL" == "") ≡ false
  pub https : starts_with (str env "APP_PUBLIC_BASE_URL") "https://" ≡ true
  pub sms : is_console (str env "SMS_PROVIDER") ≡ false
  pub push : is_console (str env "PUSH_PROVIDER") ≡ false
  pub mode : is_unsafe_mode env ≡ false
  pub merchant : is_placeholder (str env "PAYHERE_MERCHANT_ID") ≡ false
  pub merchant_secret : is_placeholder (str env "PAYHERE_MERCHANT_SECRET") ≡ false
  pub app : is_placeholder (str env "PAYHERE_APP_ID") ≡ false
  pub app_secret : is_placeholder (str env "PAYHERE_APP_SECRET") ≡ false
  pub admins : (str env "ADMIN_PHONES" == "") ≡ false

both-nil : (a b : List EnvIssue) → a ++ b ≡ [] → (a ≡ []) × (b ≡ [])
both-nil [] b h = (refl, h)
both-nil (i ∷ a) b h = ground arith

issue_if-nil : (bad : Bool) (key problem : String) → issue_if bad key problem ≡ [] → bad ≡ false
issue_if-nil true key problem h = ground arith
issue_if-nil false key problem h = refl

base-nil :
    (base : String)
    → base_issues base ≡ []
    → ((base == "") ≡ false) × (starts_with base "https://" ≡ true)
base-nil base h = ground arith

accepted :
    (l : List EnvIssue) (env env' : Env)
    → elim l [ [] ↦ some env | i ∷ issues ↦ none ] ≡ some env'
    → l ≡ []
accepted [] env env' h = refl
accepted (i ∷ l) env env' h = ground arith

all-nil :
    (p : Bool) (a b c d : List EnvIssue)
    → p ≡ true
    → (if not p then a else a ++ (b ++ (c ++ d))) ≡ []
    → (a ≡ []) × ((b ≡ []) × ((c ≡ []) × (d ≡ [])))
all-nil true a b c d p h =
    let ab = both-nil a (b ++ (c ++ d)) h in
    let bc = both-nil b (c ++ d) ab.1 in (ab.0, (bc.0, both-nil c d bc.1))
all-nil false a b c d p h = ground arith

-- A production environment that is accepted breaks none of the rules.
pub validate_env-Safe :
    (env env' : Env)
    → (str env "NODE_ENV" == "production") ≡ true
    → validate_env env ≡ some env'
    → Safe env
unfolding validate_env collect_env_issues basic_issues secret_issues provider_issues
    credential_issues
validate_env-Safe env env' production h =
    let groups =
      all-nil (str env "NODE_ENV" == "production") (basic_issues env) (secret_issues env)
        (provider_issues env) (credential_issues env) production
        (accepted (collect_env_issues env) env env' h) in
    let b = both-nil _ _ groups.0 in
    let s2 = both-nil _ _ groups.1.0 in
    let s1 = both-nil _ _ s2.0 in
    let s0 = both-nil _ _ s1.0 in
    let url = base-nil (str env "APP_PUBLIC_BASE_URL") s2.1 in
    let p1 = both-nil _ _ groups.1.1.0 in
    let p0 = both-nil _ _ p1.0 in
    let c3 = both-nil _ _ groups.1.1.1 in
    let c2 = both-nil _ _ c3.0 in
    let c1 = both-nil _ _ c2.0 in
    let c0 = both-nil _ _ c1.0 in
    record {
      database = issue_if-nil _ _ _ b.0;
      secret = issue_if-nil _ _ _ b.1;
      strong = issue_if-nil _ _ _ s0.0;
      pepper = issue_if-nil _ _ _ s0.1;
      origins = issue_if-nil _ _ _ s1.1;
      base = url.0;
      https = url.1;
      sms = issue_if-nil _ _ _ p0.0;
      push = issue_if-nil _ _ _ p0.1;
      mode = issue_if-nil _ _ _ p1.1;
      merchant = issue_if-nil _ _ _ c0.0;
      merchant_secret = issue_if-nil _ _ _ c0.1;
      app = issue_if-nil _ _ _ c1.1;
      app_secret = issue_if-nil _ _ _ c2.1;
      admins = issue_if-nil _ _ _ c3.1;
    }
