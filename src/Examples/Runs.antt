-- ===== src/Examples/Runs.antt =====
-- Runs of the sample world, and the theorems at it.
use help_mi.Common.{
  ◌≡◌, ◌≤◌, refl, none, some, true, false, [], ◌∷◌, ◌==◌, arith, trim, trim_start, trim_end,
  to_lower_case, starts_with, contains, units, translate,
}
use help_mi.Schema.{TaskStatus}
use help_mi.Database.{find_first, count_rows, update_rows}
use help_mi.Handler.{run, ok}
use help_mi.Payouts.{CreatePayoutInput, create_for_escrow_release}
use help_mi.Tasks.Lifecycle.{accept, find_task, check_doer, check_funds, check_held, assign}
use help_mi.Tasks.Release.{move_to_released}
use help_mi.Requests.{accepts, cancels, pays, serve_all, reconciles, confirms}
use help_mi.Safety.Doer.{doer_of, serve_all-doer_of}
use help_mi.Safety.Secured.{Secured}
use help_mi.Safety.Strand.{serve_all-Secured}
use help_mi.Safety.Stable.{terms_of}
use help_mi.Safety.Terms.{HasEscrow, HasTerms, PaidBy, serve_all-HasTerms, serve_all-PaidBy}
use help_mi.Outcomes.Post.{Post}
use help_mi.Outcomes.Accept.{Granted, accept-Outcome}
use help_mi.Outcomes.Paying.{PaidOnce, create_for_escrow_release-Outcome}
use help_mi.Outcomes.Release.{move_to_released-again}
use help_mi.Outcomes.Environment.{Safe, validate_env-Safe}
use help_mi.Outcomes.Login.{LoggedIn, verify_otp-Post}
use help_mi.Auth.{verify_otp, check_code, log_in, latest}
use help_mi.Config.{
  str, validate_env, collect_env_issues, basic_issues, secret_issues, provider_issues,
  credential_issues, is_weak_secret, is_weak_pattern, is_placeholder, is_console, is_unsafe_mode,
}
use help_mi.Examples.Sample.{
  sample_world, sample_task, sample_escrow, taken_world, otp_world, production_env, sample_user,
}

sample-Secured : Secured "t1" "e1" sample_world.tasks sample_world.escrows
unfolding find_first count_rows
sample-Secured = record {
  task = sample_task;
  escrow = sample_escrow;
  found = refl;
  unique = refl;
  mode = refl;
  funded = refl;
  linked = refl;
  no_strand = λ c. ground arith;
}

-- A cancel, an accept and the timers race for the task.
serve_all-Secured_example :
    Secured "t1" "e1"
      (serve_all
        (0 ∷ 1 ∷ 0 ∷ 0 ∷ 1 ∷ 2 ∷ 0 ∷ 1 ∷ 1 ∷ [])
        (cancels "t1" "ann" ∷ accepts "t1" "bob" ∷ reconciles ∷ [])
        sample_world).tasks
      (serve_all
        (0 ∷ 1 ∷ 0 ∷ 0 ∷ 1 ∷ 2 ∷ 0 ∷ 1 ∷ 1 ∷ [])
        (cancels "t1" "ann" ∷ accepts "t1" "bob" ∷ reconciles ∷ [])
        sample_world).escrows
serve_all-Secured_example =
    serve_all-Secured (0 ∷ 1 ∷ 0 ∷ 0 ∷ 1 ∷ 2 ∷ 0 ∷ 1 ∷ 1 ∷ [])
      (cancels "t1" "ann" ∷ accepts "t1" "bob" ∷ reconciles ∷ []) sample_world "t1" "e1"
      sample-Secured

taken-doer_of : doer_of "t1" taken_world.tasks ≡ some "bob"
unfolding doer_of find_first
taken-doer_of = refl

serve_all-doer_of_example :
    doer_of "t1"
      (serve_all
        (0 ∷ 1 ∷ 0 ∷ 1 ∷ [])
        (accepts "t1" "eve" ∷ confirms "t1" "ann" ∷ [])
        taken_world).tasks
    ≡ some "bob"
serve_all-doer_of_example =
    serve_all-doer_of (0 ∷ 1 ∷ 0 ∷ 1 ∷ []) (accepts "t1" "eve" ∷ confirms "t1" "ann" ∷ [])
      taken_world "t1" "bob" taken-doer_of

sample-HasTerms : HasEscrow "e1" (HasTerms (terms_of sample_escrow)) sample_world.escrows
unfolding find_first
sample-HasTerms = (sample_escrow, (refl, refl))

serve_all-HasTerms_example :
    HasEscrow "e1"
      (HasTerms (terms_of sample_escrow))
      (serve_all
        (0 ∷ 0 ∷ 0 ∷ 0 ∷ 1 ∷ [])
        (cancels "t1" "ann" ∷ reconciles ∷ [])
        sample_world).escrows
serve_all-HasTerms_example =
    serve_all-HasTerms (0 ∷ 0 ∷ 0 ∷ 0 ∷ 1 ∷ []) (cancels "t1" "ann" ∷ reconciles ∷ []) sample_world
      "e1" (terms_of sample_escrow) sample-HasTerms

sample-PaidBy : HasEscrow "e1" (PaidBy "p1") sample_world.escrows
unfolding find_first
sample-PaidBy = (sample_escrow, (refl, record { payment = refl; left_pending = refl }))

serve_all-PaidBy_example :
    HasEscrow "e1"
      (PaidBy "p1")
      (serve_all
        (0 ∷ 0 ∷ 1 ∷ 1 ∷ 0 ∷ [])
        (pays "t1" "ann" ∷ cancels "t1" "ann" ∷ [])
        sample_world).escrows
serve_all-PaidBy_example =
    serve_all-PaidBy (0 ∷ 0 ∷ 1 ∷ 1 ∷ 0 ∷ []) (pays "t1" "ann" ∷ cancels "t1" "ann" ∷ [])
      sample_world "e1" "p1" sample-PaidBy

one_task : count_rows (λ t. t.id == "t1") sample_world.tasks ≤ 1
unfolding count_rows
one_task = omega arith

accept-Outcome_example :
    Post
      (Granted sample_world "t1" "bob")
      (λ w'. w' ≡ sample_world)
      (run (accept "t1" "bob") sample_world)
accept-Outcome_example = accept-Outcome sample_world "t1" "bob" one_task

-- The doer gets the open task, and a second one is refused.
accept_test :
    (run (accept "t1" "bob") sample_world).1.tasks
    ≡ record sample_task {
      status = TaskStatus.assigned;
      doer_id = some "bob";
      accepted_at = some 1000;
    }
      ∷ []
unfolding accept find_task check_doer check_funds check_held assign find_first update_rows
    count_rows
accept_test = refl

abbrev sample_input : CreatePayoutInput
sample_input = record { escrow_id = "e1"; task_id = "t1"; doer_id = "bob"; amount = 425000 }

create_for_escrow_release-Outcome_example :
    Post
      (PaidOnce sample_world sample_input)
      (λ w'. w' ≡ sample_world)
      (run (create_for_escrow_release sample_input) sample_world)
create_for_escrow_release-Outcome_example =
    create_for_escrow_release-Outcome sample_world sample_input

move_to_released-again_example :
    Post
      (λ _ w'.
        Post (λ did _. did ≡ false) (λ _. false ≡ true) (run (move_to_released "t1" none false) w'))
      (λ _. true ≡ true)
      (run (move_to_released "t1" (some "bob") true) sample_world)
move_to_released-again_example =
    move_to_released-again "t1" (some "bob") none true false sample_world

pub production_env-accepted : validate_env production_env ≡ some production_env
unfolding str validate_env collect_env_issues basic_issues secret_issues provider_issues
    credential_issues is_weak_secret is_weak_pattern is_placeholder is_console is_unsafe_mode trim
    trim_start trim_end to_lower_case starts_with contains units translate
production_env-accepted = refl

pub is_production : (str production_env "NODE_ENV" == "production") ≡ true
unfolding str trim trim_start trim_end
is_production = refl

validate_env-Safe_example : Safe production_env
validate_env-Safe_example =
    validate_env-Safe production_env production_env is_production production_env-accepted

verify_otp-Post_example :
    Post
      (λ r w'. LoggedIn otp_world "0771" "123456" r.1 w')
      (λ w'. w'.users ≡ otp_world.users)
      (run (verify_otp "0771" "123456") otp_world)
verify_otp-Post_example = verify_otp-Post otp_world "0771" "123456"

-- The right code lets the user in.
verify_otp_test : (run (verify_otp "0771" "123456") otp_world).0 ≡ ok ("ann0771", sample_user)
unfolding verify_otp check_code log_in latest find_first update_rows
verify_otp_test = refl
