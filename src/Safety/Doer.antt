-- ===== src/Safety/Doer.antt =====
-- What no interleaving of the services changes about a task: who does it, what was ordered, and
-- that it does not go back.
use help_mi.Common.{
  ℕ, ◌≤◌, ◌≡◌, ap, ◌∙◌, ◌==◌, Option, none, some, List, String, arith, Option-cases, inl, inr,
}
use help_mi.Schema.{Task}
use help_mi.Database.{find_first}
use help_mi.World.{World}
use help_mi.Requests.{Request, serve_all}
use help_mi.Safety.Stable.{stage, Order, order_of}
use help_mi.Safety.Advance.{HasTask, HasTask-Stable}
use help_mi.Safety.Server.{serve_all-Stable}

abbrev doer_in : Option Task → Option String
doer_in none = none
doer_in (some t) = t.doer_id

-- The doer of a task.
unfoldable pub doer_of : String → List Task → Option String
doer_of id ts = doer_in (find_first (λ t. t.id == id) ts)

found-doer :
    (id doer : String) (ts : List Task)
    → doer_of id ts ≡ some doer
    → HasTask id (λ t. t.doer_id ≡ some doer) ts
unfolding doer_of
found-doer id doer ts h = elim (Option-cases (find_first (λ t. t.id == id) ts)) [
  | inl nothing ↦ ground arith
  | inr (t, found) ↦ (t, (found, ground arith))
]

-- Once a task has a doer, no requests at all, served at the same time in any order of their
-- steps, give it to another doer or to none.
pub serve_all-doer_of :
    (schedule : List ℕ) (requests : List Request) (w : World) (id doer : String)
    → doer_of id w.tasks ≡ some doer
    → doer_of id (serve_all schedule requests w).tasks ≡ some doer
unfolding doer_of
serve_all-doer_of schedule requests w id doer h =
    let after =
      serve_all-Stable
        (HasTask-Stable id (λ t. t.doer_id ≡ some doer) (λ t t' a k. a.same_doer doer k)) schedule
        requests w (found-doer id doer w.tasks h) in
    ap doer_in after.1.0 ∙ after.1.1

-- What a poster has ordered and how far the task has come.
abbrev pub AtLeast : Order → ℕ → Task → Type 0
AtLeast order n t = (order_of t ≡ order) × (n ≤ stage t.status)

-- No requests, served at the same time in any order of their steps, change what a poster has
-- ordered, put a task back on offer once it was taken or closed, or make it wait for its payment
-- again once it was on offer.
pub serve_all-AtLeast :
    (schedule : List ℕ) (requests : List Request) (w : World) (id : String) (order : Order) (n : ℕ)
    → HasTask id (AtLeast order n) w.tasks
    → HasTask id (AtLeast order n) (serve_all schedule requests w).tasks
serve_all-AtLeast schedule requests w id order n h =
    serve_all-Stable
      (HasTask-Stable id (AtLeast order n)
        (λ t t' a k. (a.same_order ∙ k.0, omega (arith, a.further, k.1))))
      schedule requests w h
