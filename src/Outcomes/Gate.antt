-- ===== src/Outcomes/Gate.antt =====
-- The door of the API: who is let in to the routes of a caller, and what the route then does.
use mathlib.Core.Option.{some-injective, none-ne-some}
use help_mi.Common.{
  ◌≡◌, refl, ap, ◌∙◌, ℕ, String, Option, none, some, Bool, true, false, ◌==◌, eq-path,
}
use help_mi.Schema.{User}
use help_mi.Database.{find_first}
use help_mi.Database.Laws.{find_first-fits}
use help_mi.World.{World}
use help_mi.Handler.{Handler, Result, err, run, pure, guard, or_throw, unauthorized, ◌>>=◌, ◌>>◌}
use help_mi.Guards.{may_call, validate}
use help_mi.Requests.{Request, serve}
use help_mi.Requests
use help_mi.Api.{
  ApiRoute, UserRoute, TasksRoute, PaymentsRoute, api_route, of_caller, user_route, authenticate,
}
use help_mi.Api
use help_mi.Api.Reply.{failed, reply}

-- The token is of a user who is there and live.
abbrev pub MayEnter : World → Option String → Type 0
MayEnter w none = ⊥
MayEnter w (some user_id) =
    (u : User) × ((find_first (λ u. u.id == user_id) w.users ≡ some u) × (may_call u ≡ true))

module _ (w : World) (k : String × String → Handler (Unit {0})) where
  abbrev checked : Option User → Result (Unit {0}) × World
  checked o =
      run
        ((or_throw o (unauthorized "Unauthorized") >>= λ u.
            guard (may_call u) (unauthorized "Unauthorized") >> pure (u.id, u.phone))
          >>= k)
        w

  refused :
      (o : Option User)
      → ((u : User) → o ≡ some u → may_call u ≡ false)
      → checked o ≡ (err (unauthorized "Unauthorized"), w)
  refused none dead = refl
  refused (some u) dead =
      ap (λ b. run ((guard b (unauthorized "Unauthorized") >> pure (u.id, u.phone)) >>= k) w)
        (dead u refl)

  let_in :
      (o : Option User) (u : User)
      → o ≡ some u
      → may_call u ≡ true
      → checked o ≡ run (k (u.id, u.phone)) w
  let_in o u here live =
      ap checked here
      ∙ ap (λ b. run ((guard b (unauthorized "Unauthorized") >> pure (u.id, u.phone)) >>= k) w) live

module _ (status_name : ℕ → String) (path : String) (w : World) where
  closed_out :
      (token : Option String) (route : UserRoute)
      → (MayEnter w token → ⊥)
      → run (api_route token (of_caller route)) w ≡ (err (unauthorized "Unauthorized"), w)
  unfolding api_route validate
  closed_out none route denied = refl
  closed_out (some user_id) route denied =
      refused w (λ c. user_route c.0 route) (find_first (λ u. u.id == user_id) w.users)
        λ u here. dead u here (may_call u) refl
    where
      dead :
          (u : User)
          → find_first (λ u. u.id == user_id) w.users ≡ some u
          → (b : Bool) → may_call u ≡ b
          → may_call u ≡ false
      dead u here true live = absurd (denied (u, (here, live)))
      dead u here false same = same

-- Without a token, or with one of a user who is not there, inactive, banned or deleted, every route
-- of a caller is answered with 401 and "Unauthorized", and nothing is changed.
pub api_route-Closed :
    (status_name : ℕ → String) (path : String) (w : World) (token : Option String)
    (route : UserRoute)
    → (MayEnter w token → ⊥)
    → (reply status_name path (run (api_route token (of_caller route)) w)
        ≡ failed (record {
          status_code = 401;
          error = status_name 401;
          message = "Unauthorized";
          path = path;
          timestamp = w.clock;
        }))
      × ((run (api_route token (of_caller route)) w).1 ≡ w)
api_route-Closed status_name path w token route denied =
    let out = closed_out status_name path w token route denied in
    (ap (reply status_name path) out, ap (λ r. r.1) out)

-- The request that a route of the tasks or the payments is, in the name of its caller; the others
-- only read, or are of other services.
abbrev pub request_of : String → UserRoute → Option Request
request_of user (Api.tasks (Api.creates dto)) = some (Requests.creates user dto)
request_of user (Api.tasks (Api.accepts id)) = some (Requests.accepts id user)
request_of user (Api.tasks (Api.starts id)) = some (Requests.starts id user)
request_of user (Api.tasks (Api.completes id text)) = some (Requests.completes id user text)
request_of user (Api.tasks (Api.confirms id)) = some (Requests.confirms id user)
request_of user (Api.tasks (Api.cancels id)) = some (Requests.cancels id user)
request_of user (Api.tasks (Api.disputes id text)) = some (Requests.disputes id user text)
request_of user (Api.payments (Api.initiates id)) = some (Requests.pays id user)
request_of user _ = none

routed :
    (user : String) (route : UserRoute) (r : Request)
    → request_of user route ≡ some r
    → user_route user route ≡ serve r
routed user (Api.tasks (Api.creates dto)) r same = ap serve (some-injective _ _ same)
routed user (Api.tasks (Api.accepts id)) r same = ap serve (some-injective _ _ same)
routed user (Api.tasks (Api.starts id)) r same = ap serve (some-injective _ _ same)
routed user (Api.tasks (Api.completes id text)) r same = ap serve (some-injective _ _ same)
routed user (Api.tasks (Api.confirms id)) r same = ap serve (some-injective _ _ same)
routed user (Api.tasks (Api.cancels id)) r same = ap serve (some-injective _ _ same)
routed user (Api.tasks (Api.disputes id text)) r same = ap serve (some-injective _ _ same)
routed user (Api.payments (Api.initiates id)) r same = ap serve (some-injective _ _ same)
routed user _ r same = absurd (none-ne-some _ same)

-- With the token of a live user a route that is a request does to the world what that request does
-- in the user's own name, and ends as it does.
pub api_route-serve :
    (w : World) (user_id : String) (route : UserRoute) (r : Request)
    → MayEnter w (some user_id)
    → request_of user_id route ≡ some r
    → run (api_route (some user_id) (of_caller route)) w ≡ run (serve r) w
unfolding api_route validate
api_route-serve w user_id route r (u, (here, live)) same =
    let_in w (λ c. user_route c.0 route) (find_first (λ u. u.id == user_id) w.users) u here live
    ∙ ap (λ i. run (user_route i route) w)
        (eq-path u.id user_id (find_first-fits (λ u. u.id == user_id) w.users here))
    ∙ ap (λ h. run h w) (routed user_id route r same)
