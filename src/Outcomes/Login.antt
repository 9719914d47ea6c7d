-- ===== src/Outcomes/Login.antt =====
-- `verifyOtp` of auth.service.ts: when it lets a user in.
use help_mi.Common.{◌≡◌, refl, true, false, not, ◌==◌, some, String, arith, leb, eq-path, path-eq}
use help_mi.Schema.{User, OtpToken}
use help_mi.Database.{find_first}
use help_mi.Database.Rowwise.{Wrote, Wrote-update_rows}
use help_mi.World.{World}
use help_mi.Handler.{run}
use help_mi.Auth.{
  verify_otp, check_code, count_miss, exhaust, log_in, latest, is_live, hash_otp, used_row,
  tried_row, max_verify_attempts,
}
use help_mi.Outcomes.Post.{Post, Post-or_throw, Post-guard, Post-if, Post-found}

-- The newest live token of the phone has fewer than five misses and the hash of this code, its
-- user is not banned, and the token, and no other, is now used.
pub record LoggedIn (w : World) (phone code : String) (user : User) (w' : World) : Type 0 where
  pub token : OtpToken
  pub newest : latest (is_live w phone) w.otp_tokens ≡ some token
  pub few_misses : leb max_verify_attempts token.attempts ≡ false
  pub matches : (token.code == hash_otp w phone code) ≡ true
  pub owner : find_first (λ u. u.id == token.user_id) w.users ≡ some user
  pub not_banned : user.is_banned ≡ false
  pub used_up :
      Wrote
        (λ t. t.id ≡ token.id)
        (λ t t'. t' ≡ record t { used = true })
        w.otp_tokens
        w'.otp_tokens
  pub nothing_else : w'.users ≡ w.users

-- `verifyOtp` lets a user in only with the hash of the code in the newest live token of the phone,
-- which has fewer than five misses, and if the user is not banned; that token is then marked as
-- used, and every other token and all users are as before. Where it throws, the users are as
-- before.
pub verify_otp-Post :
    (w : World) (phone code : String)
    → Post
        (λ r w'. LoggedIn w phone code r.1 w')
        (λ w'. w'.users ≡ w.users)
        (run (verify_otp phone code) w)
unfolding verify_otp check_code count_miss exhaust log_in
verify_otp-Post w phone code =
    Post-or_throw _ _ (latest (is_live w phone) w.otp_tokens) _ _ _
      (λ t newest.
        Post-if _ _ (leb max_verify_attempts t.attempts) _ _ _
          (λ _.
            Post-found _ _ (find_first (λ r. r.id == t.id) w.otp_tokens) (used_row w.clock) _ _
              (λ _ _. refl) (λ _. refl))
          (λ few.
            Post-if _ _ (t.code == hash_otp w phone code) _ _ _
              (λ matches.
                Post-found _ _ (find_first (λ u. u.id == t.user_id) w.users) (λ u. u) _ _
                  (λ user owner.
                    Post-found _ _ (find_first (λ r. r.id == t.id) w.otp_tokens) (used_row w.clock)
                      _ _
                      (λ _ _.
                        Post-guard _ _ (not user.is_banned) _ _ _
                          (λ banned. record {
                            token = t;
                            newest = newest;
                            few_misses = few;
                            matches = matches;
                            owner = owner;
                            not_banned = ground arith;
                            used_up =
                                Wrote-update_rows (λ r. r.id ≡ t.id)
                                  (λ r r'. r' ≡ record r { used = true }) (λ r. r.id == t.id)
                                  (used_row w.clock) w.otp_tokens (λ r. eq-path r.id t.id)
                                  (λ r. path-eq r.id t.id) (λ _. refl);
                            nothing_else = refl;
                          })
                          (λ _. refl))
                      (λ _. refl))
                  (λ _. refl))
              (λ _.
                Post-found _ _ (find_first (λ r. r.id == t.id) w.otp_tokens) (tried_row w.clock) _ _
                  (λ _ _. refl) (λ _. refl))))
      (λ _. refl)
