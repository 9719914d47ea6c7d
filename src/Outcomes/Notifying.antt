-- ===== src/Outcomes/Notifying.antt =====
-- Who is notified of an event: notifications.service.ts and notifications.listener.ts.
pub mod Sends
use mathlib.Core.List.{append_assoc, append-nil, Memᴰ}
use mathlib.Core.Option.{none-ne-some, some-injective}
use mathlib.Core.Bool.{true≢false}
use help_mi.Common.{
  ℕ, suc, ◌≤◌, ◌≡◌, refl, sym, ap, ◌∙◌, subst, String, Option, none, some, Bool, true, false, not,
  ◌&&◌, ◌==◌, List, [], ◌∷◌, ◌++◌, map, leb, ◌⊎◌, inl, inr, if◌then◌else◌, given, arith, &&-both,
  eq-path, zero,
}
use help_mi.Schema.{
  User, DoerProfile, DoerTier, KycStatus, Event, Notification, task_posted, task_accepted,
  task_completed, task_confirmed, payment_released, task_cancelled, task_disputed, message_sent,
  kyc_reviewed, rating_received, tier_rank, kyc_is,
}
use help_mi.Database.{take_rows, find_first, find_many, add_row}
use help_mi.Database.Every.{AllOf, AllOf-++}
use help_mi.Database.Laws.{find_first-fits}
use help_mi.World.{World}
use help_mi.Handler.{pure, throw, ◌>>=◌, ◌>>◌, run, reference_missing}
use help_mi.Notifications.{
  Notice, send, send_to_many, push_row, create_notification, send_to_token, device, refers,
  with_notification,
}
use help_mi.Notifications.Listener.{on_event, on_task_posted, is_target, others, unless_by, send_if}
use help_mi.Outcomes.Post.{Post, Post->>=, Post-weaken, Post-catch}
use help_mi.Outcomes.Notifying.Sends.{Sent, none-Sent, single-Post, send_if-Post, send_to_many-Post}

-- A user that an event may tell about it.
abbrev pub MayTell : World → Event → String → Type 0
MayTell w (task_posted task_id poster_id title required) u =
    (p : DoerProfile) × ((Memᴰ p w.profiles × (p.user_id ≡ u))
      × ((p.kyc_status ≡ KycStatus.approved)
          × ((tier_rank required ≤ tier_rank p.tier)
              × ((b : User) × ((find_first (λ b. b.id == u) w.users ≡ some b)
                    × ((b.is_banned ≡ false) × (u == poster_id ≡ false)))))))
MayTell w (task_accepted task_id poster_id doer_id title) u = u ≡ poster_id
MayTell w (task_completed task_id poster_id doer_id title) u = u ≡ poster_id
MayTell w (task_confirmed task_id poster_id doer_id title) u = doer_id ≡ some u
MayTell w (payment_released task_id doer_id amount auto) u = doer_id ≡ some u
MayTell w (task_cancelled task_id poster_id doer_id by_user_id title) u =
    ((u ≡ poster_id) ⊎ (doer_id ≡ some u)) × (u == by_user_id ≡ false)
MayTell w (task_disputed task_id poster_id doer_id by_user_id title) u =
    ((u ≡ poster_id) ⊎ (doer_id ≡ some u)) × (u == by_user_id ≡ false)
MayTell w (message_sent task_id sender_id recipient_id preview) u = u ≡ recipient_id
MayTell w (kyc_reviewed user_id approved tier reason) u = u ≡ user_id
MayTell w (rating_received ratee_id rater_id task_id score) u = u ≡ ratee_id

given-some : (o : Option String) (u : String) → given o ≡ some u → o ≡ some u
given-some none u h = h
given-some (some s) u h =
    elim (s == "") as (λ b. (if b then none else some s) ≡ some u → some s ≡ some u) [
      | true ↦ λ k. absurd (none-ne-some _ k)
      | false ↦ λ k. k
    ]
      h

-- The list without or with its first element.
kept-AllOf :
    (P : String → Type 0) (b : Bool) (id : String) (ids : List String)
    → (b ≡ false → P id)
    → AllOf P ids
    → AllOf P (if b then ids else id ∷ ids)
kept-AllOf P true id ids h k = k
kept-AllOf P false id ids h k = (h refl, k)

unless_by-AllOf :
    (P : String → Type 0) (o : Option String) (by : String) (ids : List String)
    → ((u : String) → o ≡ some u → u == by ≡ false → P u)
    → AllOf P ids
    → AllOf P (unless_by o by ids)
unless_by-AllOf P none by ids h k = k
unless_by-AllOf P (some id) by ids h k = kept-AllOf P (id == by) id ids (h id refl) k

others-AllOf :
    (poster_id : String) (doer_id : Option String) (by : String)
    → AllOf
        (λ u. ((u ≡ poster_id) ⊎ (doer_id ≡ some u)) × (u == by ≡ false))
        (others poster_id doer_id by)
others-AllOf poster_id doer_id by =
    unless_by-AllOf _ (given (some poster_id)) by _
      (λ u h other. (inl (sym (some-injective _ _ (given-some (some poster_id) u h))), other))
      (unless_by-AllOf _ (given doer_id) by [] (λ u h other. (inr (given-some doer_id u h), other))
        tt)

leb-≤ : (a b : ℕ) → leb a b ≡ true → a ≤ b
leb-≤ a b h = ground arith

take_nil :
    (P : String → Type 0) (n : ℕ)
    → AllOf P (map (λ p. p.user_id) (take_rows {A = DoerProfile} n []))
unfolding take_rows
take_nil P zero = tt
take_nil P (suc n) = tt

approved-kyc : (k : KycStatus) → kyc_is k KycStatus.approved ≡ true → k ≡ KycStatus.approved
approved-kyc KycStatus.approved h = refl
approved-kyc KycStatus.pending h = absurd (true≢false (sym h))
approved-kyc KycStatus.rejected h = absurd (true≢false (sym h))

other-user :
    (poster_id u : String) (o : Option User)
    → elim o [ none ↦ false | some b ↦ not b.is_banned && not (b.id == poster_id) ] ≡ true
    → (b : User) × ((o ≡ some b) × ((b.is_banned ≡ false) × (b.id == poster_id ≡ false)))
other-user poster_id u none h = absurd (true≢false (sym h))
other-user poster_id u (some b) h = (b, (refl, (ground arith, ground arith)))

target-MayTell :
    (w : World) (task_id poster_id title : String) (required : DoerTier) (p : DoerProfile)
    → Memᴰ p w.profiles
    → is_target w poster_id required p ≡ true
    → MayTell w (task_posted task_id poster_id title required) p.user_id
target-MayTell w task_id poster_id title required p i h =
    let (known, more) = &&-both (kyc_is p.kyc_status KycStatus.approved) _ h in
    let (ranked, else_) = &&-both (leb (tier_rank required) (tier_rank p.tier)) _ more in
    let (b, (here, (free, other))) =
      other-user poster_id p.user_id (find_first (λ u. u.id == p.user_id) w.users) else_ in
    let same =
      eq-path b.id p.user_id (find_first-fits (λ u. u.id == p.user_id) w.users {r = b} here) in
    (
      p,
      (
        (i, refl),
        (
          approved-kyc p.kyc_status known,
          (
            leb-≤ (tier_rank required) (tier_rank p.tier) ranked,
            (b, (here, (free, subst (λ x. x == poster_id ≡ false) same other))),
          ),
        ),
      ),
    )

targets-AllOf :
    (P : String → Type 0) (q : DoerProfile → Bool) (n : ℕ) (ps : List DoerProfile)
    → ((p : DoerProfile) → Memᴰ p ps → q p ≡ true → P p.user_id)
    → AllOf P (map (λ p. p.user_id) (take_rows n (find_many q ps)))
unfolding find_many take_rows
targets-AllOf P q n [] h = take_nil P n
targets-AllOf P q n (p ∷ ps) h =
    one P (q p) p n (find_many q ps) (h p (Memᴰ.head refl))
      (λ m. targets-AllOf P q m ps (λ x i. h x (Memᴰ.tail i)))
  where
    one :
        (P : String → Type 0) (b : Bool) (p : DoerProfile) (n : ℕ) (rest : List DoerProfile)
        → (b ≡ true → P p.user_id)
        → ((m : ℕ) → AllOf P (map (λ p. p.user_id) (take_rows m rest)))
        → AllOf P (map (λ p. p.user_id) (take_rows n (if b then p ∷ rest else rest)))
    one P false p n rest h k = k n
    one P true p zero rest h k = tt
    one P true p (suc n) rest h k = (h refl, k n)

-- Whatever the tables hold, the listener handles every event without an error, and of the notifications it adds each is for a user whom the event concerns: a posted
-- task is told to approved, unbanned doers of a sufficient tier other than the poster, a
-- cancellation or a dispute to the sides of the task less the one who acted.
pub on_event-MayTell :
    (w : World) (e : Event) → Post (λ _. Sent (MayTell w e) w) (λ _. ⊥) (run (on_event e) w)
unfolding on_event on_task_posted
on_event-MayTell w (task_posted task_id poster_id title required) =
    send_to_many-Post _ _ _ w w
      (targets-AllOf _ (is_target w poster_id required) 500 w.profiles
        (target-MayTell w task_id poster_id title required))
      (none-Sent _ w)
on_event-MayTell w (task_accepted task_id poster_id doer_id title) =
    single-Post _ poster_id _ w refl
on_event-MayTell w (task_completed task_id poster_id doer_id title) =
    single-Post _ poster_id _ w refl
on_event-MayTell w (task_confirmed task_id poster_id doer_id title) =
    send_if-Post _ (given doer_id) _ w (given-some doer_id)
on_event-MayTell w (payment_released task_id doer_id amount auto) =
    send_if-Post _ (given doer_id) _ w (given-some doer_id)
on_event-MayTell w (task_cancelled task_id poster_id doer_id by title) =
    send_to_many-Post _ _ _ w w (others-AllOf poster_id doer_id by) (none-Sent _ w)
on_event-MayTell w (task_disputed task_id poster_id doer_id by title) =
    send_to_many-Post _ _ _ w w (others-AllOf poster_id doer_id by) (none-Sent _ w)
on_event-MayTell w (message_sent task_id sender_id recipient_id preview) =
    single-Post _ recipient_id _ w refl
on_event-MayTell w (kyc_reviewed user_id approved tier reason) = single-Post _ user_id _ w refl
on_event-MayTell w (rating_received ratee_id rater_id task_id score) =
    single-Post _ ratee_id _ w refl
