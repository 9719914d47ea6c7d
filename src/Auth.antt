-- ===== src/Auth.antt =====
-- backend/src/auth/auth.service.ts: one-time codes.
use help_mi.Common.{
  ℕ, suc, ◌+◌, ◌*◌, String, Option, none, some, Bool, true, false, not, ◌&&◌, ◌||◌, ◌==◌, List, [],
  ◌∷◌, ◌++◌, ltb, leb, if◌then◌else◌, or_default, concat,
}
use help_mi.Schema.{User, OtpToken}
use help_mi.World.{World, users, otp_tokens}
use help_mi.Handler.{
  Handler, pure, throw, await, ◌>>=◌, ◌>>◌, guard, or_throw, bad_request, unauthorized, sms_failed,
}
use help_mi.Handler.Calls.{reads, find, find_or_throw, update, create}
use help_mi.Tasks.Lifecycle.{is_none}

-- `MAX_VERIFY_ATTEMPTS`
abbrev pub max_verify_attempts : ℕ
max_verify_attempts = 5

-- The newer of two tokens: `orderBy: { createdAt: 'desc' }`.
abbrev pub newer : OtpToken → Option OtpToken → OtpToken
newer t none = t
newer t (some u) = if ltb t.created_at u.created_at then u else t

unfoldable pub latest : (OtpToken → Bool) → List OtpToken → Option OtpToken
latest p [] = none
latest p (t ∷ ts) = let rest = latest p ts in if p t then some (newer t rest) else rest

-- `this.config.get<number>(key) ?? fallback`, as a number.
abbrev pub config_number : World → String → ℕ → ℕ
config_number w key fallback = elim (w.services.config key) [
  | none ↦ fallback
  | some s ↦ w.services.number_of s
]

-- `hashOtp`
abbrev pub hash_otp : World → String → String → String
hash_otp w phone code =
    let base = concat phone (concat ":" code) in
    let pepper = or_default (w.services.config "OTP_PEPPER") "" in
    w.services.sha256 (if pepper == "" then base else concat base (concat ":" pepper))

abbrev pub new_user : String → String → User
new_user phone id = record {
  id = id;
  phone = phone;
  name = none;
  email = none;
  avatar_url = none;
  is_doer = false;
  is_active = true;
  is_banned = false;
  fcm_token = none;
  deleted_at = none;
}

abbrev pub known_or_new : String → Option User → Handler User
known_or_new phone (some user) = pure user
known_or_new phone none =
    create users (λ new u. u.id == new.id || u.phone == new.phone) (λ id now. new_user phone id)

abbrev pub new_token : User → String → String → ℕ → String → ℕ → OtpToken
new_token user phone hash expires_at id now = record {
  id = id;
  user_id = user.id;
  phone = phone;
  code = hash;
  expires_at = expires_at;
  used = false;
  attempts = 0;
  created_at = now;
}

abbrev pub messages_sent : List (String × String) → ℕ
messages_sent [] = 0
messages_sent (m ∷ ms) = suc (messages_sent ms)

-- `sms.sendOtp`
abbrev pub send_otp : String → String → Handler (Unit {0})
send_otp phone code =
    await (λ w. record w { sms = w.sms ++ (phone, code) ∷ [] })
      (λ w. if w.services.sms_ok (messages_sent w.sms) then pure tt else throw sms_failed)

abbrev pub is_recent : World → String → OtpToken → Bool
is_recent w phone t =
    t.phone == phone
    && ltb w.clock (t.created_at + config_number w "OTP_RESEND_COOLDOWN_SECONDS" 60 * 1000)

abbrev pub wait_message : World → String
wait_message w = concat "Please wait " (
    concat (or_default (w.services.config "OTP_RESEND_COOLDOWN_SECONDS") "60")
      "s before requesting another code")

-- The code, its hash and when it expires.
abbrev pub fresh_code : String → World → String × String × ℕ
fresh_code phone w =
    let code = w.services.random_code w.next_id in
    (code, hash_otp w phone code, w.clock + config_number w "OTP_EXPIRY_MINUTES" 5 * 60 * 1000)

-- Of `issueOtp`, from the code on.
unfoldable pub send_code : User → String → Handler (Unit {0})
send_code user phone = do
  (code, hash, expires_at) ← reads (fresh_code phone)
  create otp_tokens (λ new t. t.id == new.id)
      (λ id now. new_token user phone hash expires_at id now)
  send_otp phone code

-- `issueOtp`, which is `requestOtp` and `resendOtp`.
unfoldable pub issue_otp : String → Handler (Unit {0})
issue_otp phone = do
  row ← find users (λ u. u.phone == phone)
  user ← known_or_new phone row
  guard (not user.is_banned) (unauthorized "This account has been suspended")
  (recent, message) ← reads (λ w. (latest (is_recent w phone) w.otp_tokens, wait_message w))
  guard (is_none recent) (bad_request message)
  send_code user phone

abbrev pub is_live : World → String → OtpToken → Bool
is_live w phone t = t.phone == phone && (not t.used && ltb w.clock t.expires_at)

abbrev pub used_row : ℕ → OtpToken → OtpToken
used_row now t = record t { used = true }

abbrev pub tried_row : ℕ → OtpToken → OtpToken
tried_row now t = record t { attempts = t.attempts + 1 }

-- `verifyOtp` once the code has matched: the token is used up, and a banned user gets nothing.
unfoldable pub log_in : OtpToken → Handler (String × User)
log_in token = do
  user ← find_or_throw users (λ u. u.id == token.user_id)
  update otp_tokens (λ t. t.id == token.id) used_row
  guard (not user.is_banned) (unauthorized "This account has been suspended")
  jwt ← reads (λ w. w.services.sign_jwt user.id user.phone)
  pure (jwt, user)

unfoldable pub exhaust : OtpToken → Handler (String × User)
exhaust token =
    update otp_tokens (λ t. t.id == token.id) used_row
    >> throw (unauthorized "Too many attempts. Please request a new code.")

unfoldable pub count_miss : OtpToken → Handler (String × User)
count_miss token =
    update otp_tokens (λ t. t.id == token.id) tried_row
    >> throw (unauthorized "Invalid or expired OTP")

unfoldable pub check_code : OtpToken → String → String → Handler (String × User)
check_code token phone code = do
  matches ← reads (λ w. token.code == hash_otp w phone code)
  if matches then log_in token else count_miss token

-- `verifyOtp`
unfoldable pub verify_otp : String → String → Handler (String × User)
verify_otp phone code = do
  row ← reads (λ w. latest (is_live w phone) w.otp_tokens)
  token ← or_throw row (unauthorized "Invalid or expired OTP")
  if leb max_verify_attempts token.attempts then exhaust token else check_code token phone code
