-- ===== src/Outcomes/Cooldown.antt =====
-- `issueOtp` of auth.service.ts: how often a phone gets a code.
use help_mi.Common.{
  ℕ, suc, ◌+◌, ◌*◌, ◌≤◌, ◌≡◌, refl, sym, ◌∙◌, String, Option, none, some, Bool, true, false, not,
  ◌&&◌, ◌||◌, ◌==◌, List, [], ◌∷◌, ◌++◌, arith, ltb, eq_refl, if◌then◌else◌,
}
use mathlib.Core.Bool.{true≢false}
use mathlib.Core.Path.{ap₂}
use help_mi.Schema.{User, OtpToken}
use help_mi.Database.{find_first, add_row, has_row}
use help_mi.World.{World}
use help_mi.Handler.{run, throw, pure, unique_violation}
use help_mi.Tasks.Lifecycle.{is_none}
use help_mi.Auth.{
  issue_otp, send_code, known_or_new, latest, is_recent, config_number, new_token, new_user,
  messages_sent, fresh_code,
}
use help_mi.Outcomes.Post.{Post, Post-into, Post-guard, Post-if, Post-weaken, Post-created}

-- The world with other users.
abbrev among : World → List User × ℕ → World
among w (us, n) = record w { users = us; next_id = n }

-- Looking up or adding the user sends nothing.
known-Post :
    (phone : String) (o : Option User) (w : World)
    → Post
        (λ _ w'. (i : List User × ℕ) × (w' ≡ among w i))
        (λ w'. (w'.sms ≡ w.sms) × (w'.otp_tokens ≡ w.otp_tokens))
        (run (known_or_new phone o) w)
known-Post phone (some u) w = ((w.users, w.next_id), refl)
known-Post phone none w = added (
    has_row (λ u. u.id == (new_user phone (w.services.uuid w.next_id)).id || u.phone == phone)
      w.users)
  where
    added :
        (b : Bool)
        → Post
            (λ _ w'. (i : List User × ℕ) × (w' ≡ among w i))
            (λ w'. (w'.sms ≡ w.sms) × (w'.otp_tokens ≡ w.otp_tokens))
            (run
              (if b
                then throw unique_violation
                else pure (new_user phone (w.services.uuid w.next_id)))
              (if b
                then w
                else among w
                    (add_row (new_user phone (w.services.uuid w.next_id)) w.users, suc w.next_id)))
    added true = (refl, refl)
    added false = (_, refl)

abbrev Recent : World → String → Type 0
Recent w phone = is_none (latest (is_recent w phone) w.otp_tokens) ≡ false

issue_otp-refused :
    (w : World) (phone : String)
    → Recent w phone
    → Post
        (λ _ _. ⊥)
        (λ w'. (w'.sms ≡ w.sms) × (w'.otp_tokens ≡ w.otp_tokens))
        (run (issue_otp phone) w)
unfolding issue_otp
issue_otp-refused w phone recent =
    Post-into _ _ (among w) (known_or_new phone (find_first (λ u. u.phone == phone) w.users)) _ w
      (known-Post phone (find_first (λ u. u.phone == phone) w.users) w)
      (λ user i.
        Post-guard _ _ (not user.is_banned) _ _ (among w i)
          (λ _.
            Post-guard _ _ (is_none (latest (is_recent w phone) w.otp_tokens)) _ _ (among w i)
              (λ free. absurd (true≢false (sym free ∙ recent))) (λ _. (refl, refl)))
          (λ _. (refl, refl)))

latest-added :
    (p : OtpToken → Bool) (t : OtpToken) (ts : List OtpToken)
    → p t ≡ true
    → is_none (latest p (add_row t ts)) ≡ false
unfolding latest add_row
latest-added p t [] h = ground arith
latest-added p t (x ∷ ts) h = ground (arith, latest-added p t ts h)

ltb-later : (c k : ℕ) → 1 ≤ k → ltb c (c + k * 1000) ≡ true
ltb-later c k h = ground arith

-- A request for a code that is refused, with no message and no new token.
abbrev pub AgainRefused : String → World → Type 0
AgainRefused phone v =
    Post (λ _ _. ⊥) (λ v'. (v'.sms ≡ v.sms) × (v'.otp_tokens ≡ v.otp_tokens))
      (run (issue_otp phone) v)

module _ (w : World) (phone : String)
    (cooldown : 1 ≤ config_number w "OTP_RESEND_COOLDOWN_SECONDS" 60) where
  module _ (user : User) (i : List User × ℕ) where
    abbrev token : OtpToken
    token =
        new_token user phone (fresh_code phone (among w i)).1 (fresh_code phone (among w i)).2
          (w.services.uuid i.1) w.clock

    abbrev coded : World
    coded = record (among w i) { otp_tokens = add_row token w.otp_tokens; next_id = suc i.1 }

    abbrev messaged : World
    messaged = record coded { sms = w.sms ++ (phone, (fresh_code phone (among w i)).0) ∷ [] }

    messaged-Recent : Recent messaged phone
    messaged-Recent = latest-added (is_recent messaged phone) token w.otp_tokens (
        ap₂ ◌&&◌ (eq_refl phone)
          (ltb-later w.clock (config_number w "OTP_RESEND_COOLDOWN_SECONDS" 60) cooldown))

    sent-Post : Post (λ _. AgainRefused phone) (λ _. Unit) (run (send_code user phone) (among w i))
    unfolding send_code
    sent-Post =
        Post-created _ _ (has_row (λ t. t.id == token.id) w.otp_tokens) _ token _ (among w i) coded
          (λ _.
            Post-if _ _ (w.services.sms_ok (messages_sent w.sms)) _ _ messaged
              (λ _. issue_otp-refused messaged phone messaged-Recent) (λ _. tt))
          (λ _. tt)

  -- Right after a code went out to a phone, with a cooldown of at least a second, a second request
  -- for it is refused: no message is sent and no token is added.
  pub issue_otp-again : Post (λ _. AgainRefused phone) (λ _. Unit) (run (issue_otp phone) w)
  unfolding issue_otp
  issue_otp-again =
      Post-into _ _ (among w) (known_or_new phone (find_first (λ u. u.phone == phone) w.users)) _ w
        (Post-weaken (λ _ w'. (i : List User × ℕ) × (w' ≡ among w i)) _
          (λ w'. (w'.sms ≡ w.sms) × (w'.otp_tokens ≡ w.otp_tokens)) _
          (run (known_or_new phone (find_first (λ u. u.phone == phone) w.users)) w) (λ _ _ h. h)
          (λ _ _. tt) (known-Post phone (find_first (λ u. u.phone == phone) w.users) w))
        (λ user i.
          Post-guard _ _ (not user.is_banned) _ _ (among w i)
            (λ _.
              Post-guard _ _ (is_none (latest (is_recent w phone) w.otp_tokens)) _ _ (among w i)
                (λ _. sent-Post user i) (λ _. tt))
            (λ _. tt))
