-- ===== src/Outcomes/Access.antt =====
-- Who gets through: the guards before the routes of the admin console, and tokens of users who were
-- banned or have deleted themselves.
use help_mi.Common.{
  ◌≡◌, refl, sym, ap, ◌∙◌, subst, String, some, Bool, true, false, ◌&&◌, ◌==◌, List, if◌then◌else◌,
}
use mathlib.Core.Option
use mathlib.Core.Option.{some-injective, none-ne-some}
use mathlib.Core.Bool.{true≢false}
use help_mi.Schema.{User}
use help_mi.Database.{find_first, update_rows}
use help_mi.Database.Laws.{find_first-update_rows, find_first-fits}
use help_mi.World.{World}
use help_mi.Handler.{run}
use help_mi.Users.{delete_me, find_by_id, erased_row}
use help_mi.Admin.{ban_user, set_banned}
use help_mi.Guards.{AdminRequest, admin_route, validate, can_activate, may_call, is_admin}
use help_mi.Outcomes.Post.{Post, Post-call, Post-or_throw, Post-guard, Post-found, Post-found-end}

-- The user is there, live, and on the list of admins.
abbrev pub MayAdminister : World → String → Type 0
MayAdminister w user_id =
    (u : User) × ((find_first (λ u. u.id == user_id) w.users ≡ some u)
      × ((may_call u ≡ true) × (is_admin w u.phone ≡ true)))

validate-Post :
    (w : World) (user_id : String)
    → Post
        (λ c w'.
          (w' ≡ w)
          × ((u : User) × ((find_first (λ u. u.id == user_id) w.users ≡ some u)
                × ((may_call u ≡ true) × (c.1 ≡ u.phone)))))
        (λ w'. w' ≡ w)
        (run (validate user_id) w)
unfolding validate
validate-Post w user_id =
    Post-or_throw _ _ (find_first (λ u. u.id == user_id) w.users) _ _ w
      (λ u here.
        Post-guard _ _ (may_call u) _ _ w (λ live. (refl, (u, (here, (live, refl))))) (λ _. refl))
      (λ _. refl)

-- A caller who is not there, not live (inactive, banned or deleted) or not on the list of admins
-- gets an error from every route of the admin console, and nothing is changed.
pub admin_route-Refused :
    (w : World) (user_id : String) (request : AdminRequest)
    → (MayAdminister w user_id → ⊥)
    → Post (λ _ _. ⊥) (λ w'. w' ≡ w) (run (admin_route user_id request) w)
unfolding admin_route can_activate
admin_route-Refused w user_id request denied =
    Post-call _ _ (validate user_id) _ w _ (validate-Post w user_id)
      (λ (id, phone) (u, (here, (live, same))).
        Post-guard _ _ (is_admin w phone) _ _ w
          (λ allowed.
            absurd (denied (u, (here, (live, subst (λ p. is_admin w p ≡ true) same allowed)))))
          (λ _. refl))

-- The token of a user who is there but not live is refused.
validate-dead :
    (w : World) (user_id : String) (u : User)
    → find_first (λ u. u.id == user_id) w.users ≡ some u
    → may_call u ≡ false
    → Post (λ _ _. ⊥) (λ w'. w' ≡ w) (run (validate user_id) w)
unfolding validate
validate-dead w user_id u here dead =
    Post-or_throw _ _ (find_first (λ u. u.id == user_id) w.users) _ _ w
      (λ v here'.
        Post-guard _ _ (may_call v) _ _ w
          (λ live.
            true≢false (sym live ∙ ap may_call (some-injective _ _ (sym here' ∙ here)) ∙ dead))
          (λ _. refl))
      (λ _. refl)

-- The row that a write of one user leaves.
written :
    (user_id : String) (f : User → User) (us : List User) (u : User)
    → ((v : User) → (f v).id ≡ v.id)
    → find_first (λ v. v.id == user_id) us ≡ some u
    → find_first (λ v. v.id == user_id) (update_rows (λ v. v.id == user_id) f us) ≡ some (f u)
written user_id f us u same here =
    find_first-update_rows (λ v. v.id == user_id) (λ v. v.id == user_id) f us
      (λ v. ap (λ i. i == user_id) (same v))
    ∙ ap (Option.map (λ v. if v.id == user_id then f v else v)) here
    ∙ ap (λ b. some (if b then f u else u)) (find_first-fits (λ v. v.id == user_id) us {r = u} here)

and_false : (b : Bool) → b && false ≡ false
and_false true = refl
and_false false = refl

-- A user who is banned or erased gets nowhere with a token: whatever `validate` said before.
abbrev pub ShutOut : String → World → Type 0
ShutOut user_id w = Post (λ _ _. ⊥) (λ w'. w' ≡ w) (run (validate user_id) w)

ban_user-ShutOut :
    (w : World) (user_id : String)
    → Post (λ _. ShutOut user_id) (λ w'. w' ≡ w) (run (ban_user user_id) w)
unfolding set_banned
ban_user-ShutOut w user_id =
    Post-or_throw _ _ (find_first (λ u. u.id == user_id) w.users) _ _ w
      (λ u here.
        Post-found-end _ _ (find_first (λ u. u.id == user_id) w.users) _ _
          (λ _ _.
            validate-dead _ user_id _
              (written user_id (λ u. record u { is_banned = true }) w.users u (λ _. refl) here)
              (and_false u.is_active))
          (λ n. absurd (none-ne-some _ (sym n ∙ here))))
      (λ _. refl)

delete_me-ShutOut :
    (w : World) (user_id : String)
    → Post (λ _. ShutOut user_id) (λ w'. w' ≡ w) (run (delete_me user_id) w)
unfolding delete_me find_by_id
delete_me-ShutOut w user_id =
    Post-or_throw _ _ (find_first (λ u. u.id == user_id) w.users) _ _ w
      (λ u here.
        Post-found _ _ (find_first (λ u. u.id == user_id) w.users) _ _ _
          (λ _ _.
            validate-dead _ user_id _
              (written user_id (erased_row user_id w.clock) w.users u (λ _. refl) here) refl)
          (λ n. absurd (none-ne-some _ (sym n ∙ here))))
      (λ _. refl)

-- Once a user has been banned or has deleted itself, `validate` refuses its tokens and changes
-- nothing; if `banUser` or `deleteMe` fails, nothing is changed either.
pub tokens-ShutOut :
    (w : World) (user_id : String)
    → Post (λ _. ShutOut user_id) (λ w'. w' ≡ w) (run (ban_user user_id) w)
      × Post (λ _. ShutOut user_id) (λ w'. w' ≡ w) (run (delete_me user_id) w)
tokens-ShutOut w user_id = (ban_user-ShutOut w user_id, delete_me-ShutOut w user_id)
