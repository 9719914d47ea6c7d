-- ===== src/Outcomes/Nearby.antt =====
-- `findNearby` of tasks.service.ts: what it offers, how much and in which order.
pub mod Order
use help_mi.Common.{
  ◌≡◌, refl, path-eq, none, some, ◌⊎◌, inl, inr, sym, ℕ, suc, zero, ◌≤◌, String, Option, Bool, true,
  false, not, ◌&&◌, ◌==◌, leb, List, [], ◌∷◌, map, arith, or_default, &&-both, if◌then◌else◌,
}
use help_mi.Schema.{
  kyc_is, KycStatus, DoerProfile, DoerTier, Task, TaskStatus, task_is, tier_rank, tier_is,
}
use help_mi.Database.{find_first, find_many, newest_first, take_rows, rows_in}
use help_mi.Database.Every.{
  AllOf, AllOf-find_many, AllOf-newest_first, AllOf-take_rows, AllOf-narrowed, AllOf-map,
  AllOf-weaken,
}
use help_mi.World.{World}
use help_mi.Handler.{run, ok}
use help_mi.Outcomes.Statuses.{is_open, is_approved}
use help_mi.Outcomes.Post.{Post}
use help_mi.Outcomes.Nearby.Order.{
  AllOf-sorted, InOrder, Ordered-InOrder, Ordered-sorted, Ordered-take_rows, rows_in-take_rows,
}
use help_mi.Tasks.Nearby.{
  NearbyTasksDto, tiers_up_to, is_among, tier_of, is_eligible, insert_row, sorted,
  is_no_less_featured, candidates, located, is_no_later, ranked, find_nearby,
}

is_no_later-total : (a b : Task × ℕ) → is_no_later a b ≡ false → is_no_later b a ≡ true
is_no_later-total a b h = ground arith

within_rank :
    (tier required : DoerTier)
    → is_among (tiers_up_to tier) required ≡ true
    → leb (tier_rank required) (tier_rank tier) ≡ true
unfolding is_among
within_rank tier required h = ground arith

-- The doer may do the task: it is for all, or the doer's profile is approved and of its tier.
abbrev pub MayDo : World → String → Task → Type 0
MayDo w user_id t =
    (t.required_tier ≡ DoerTier.bronze)
    ⊎ ((p : DoerProfile) × ((find_first (λ p. p.user_id == user_id) w.profiles ≡ some p)
          × ((p.kyc_status ≡ KycStatus.approved) × (tier_rank t.required_tier ≤ tier_rank p.tier))))

lowest : (required : DoerTier) → leb (tier_rank required) 0 ≡ true → required ≡ DoerTier.bronze
lowest DoerTier.bronze h = refl
lowest DoerTier.silver h = absurd (ground arith)
lowest DoerTier.gold h = absurd (ground arith)

by_profile :
    (w : World) (user_id : String) (t : Task) (p : DoerProfile) (b : Bool)
    → find_first (λ p. p.user_id == user_id) w.profiles ≡ some p
    → kyc_is p.kyc_status KycStatus.approved ≡ b
    → leb (tier_rank t.required_tier) (tier_rank (if b then p.tier else DoerTier.bronze)) ≡ true
    → MayDo w user_id t
by_profile w user_id t p true found e h =
    inr (p, (found, (is_approved p.kyc_status e, ground arith)))
by_profile w user_id t p false found e h = inl (lowest t.required_tier h)

may_do :
    (w : World) (user_id : String) (t : Task) (o : Option DoerProfile)
    → find_first (λ p. p.user_id == user_id) w.profiles ≡ o
    → leb (tier_rank t.required_tier) (tier_rank (tier_of o)) ≡ true
    → MayDo w user_id t
may_do w user_id t none found h = inl (lowest t.required_tier h)
may_do w user_id t (some p) found h =
    by_profile w user_id t p (kyc_is p.kyc_status KycStatus.approved) found refl h

-- The featured before the others, and of the same kind the nearer first.
abbrev pub NoLater : Task × ℕ → Task × ℕ → Type 0
NoLater a b =
    (b.0.is_featured ≡ true → a.0.is_featured ≡ true)
    × (a.0.is_featured ≡ b.0.is_featured → a.1 ≤ b.1)

no_later : (a b : Task × ℕ) → is_no_later a b ≡ true → NoLater a b
no_later a b h = (λ f. ground arith, λ s. ground arith)

module _ (w : World) (dto : NearbyTasksDto) (user_id : String) where
  -- A task of the query.
  abbrev pub Eligible : Task → Type 0
  Eligible t = (t.status ≡ TaskStatus.open_) × ((t.poster_id ≡ user_id → ⊥) × MayDo w user_id t)

  abbrev pub Located : Task × ℕ → Type 0
  Located a =
      Eligible a.0 × (a.1 ≡ w.services.haversine dto.lat dto.lng a.0.location_lat a.0.location_lng)

  -- A task that is offered, with its distance.
  abbrev pub Offered : Task × ℕ → Type 0
  Offered a = Located a × (a.1 ≤ or_default dto.radius_km (w.services.km 10))

  abbrev tier : DoerTier
  tier = tier_of (find_first (λ p. p.user_id == user_id) w.profiles)

  eligible : (t : Task) → is_eligible tier user_id t ≡ true → Eligible t
  eligible t h =
      let (open_, rest) = &&-both (task_is t.status TaskStatus.open_) _ h in
      let (among, other) = &&-both (is_among (tiers_up_to tier) t.required_tier) _ rest in
      (
        is_open t.status open_,
        (
          λ own. not_own (path-eq t.poster_id user_id own) other,
          may_do w user_id t _ refl (within_rank tier t.required_tier among),
        ),
      )
    where
      not_own : {b : Bool} → b ≡ true → not b ≡ true → ⊥
      not_own {b} h k = ground arith

  candidates-Eligible : (limit : ℕ) → AllOf Eligible (candidates tier user_id limit w)
  candidates-Eligible limit = AllOf-take_rows Eligible _ _ (
      AllOf-sorted Eligible is_no_less_featured _ (
        AllOf-newest_first Eligible _
          (AllOf-find_many Eligible (is_eligible tier user_id) w.tasks eligible)))

  within_radius :
      (a : Task × ℕ)
      → Located a × (leb a.1 (or_default dto.radius_km (w.services.km 10)) ≡ true)
      → Offered a
  within_radius a (h, k) = (h, ground arith)

  ranked-Offered : (ts : List Task) → AllOf Eligible ts → AllOf Offered (ranked w dto ts)
  ranked-Offered ts h = AllOf-take_rows Offered _ _ (
      AllOf-sorted Offered is_no_later _ (
        AllOf-weaken _ within_radius (
          AllOf-narrowed Located _ (map (located w dto) ts)
            (AllOf-map Located (located w dto) ts (all_located ts h)))))
    where
      all_located : (ts : List Task) → AllOf Eligible ts → AllOf (λ t. Located (located w dto t)) ts
      all_located [] h = tt
      all_located (t ∷ ts) (k, h) = ((k, refl), all_located ts h)

-- An answer to `findNearby`: open tasks of others, each for BRONZE doers or for no higher tier than
-- that of the user's approved profile, with its distance, which is within the radius; no more of
-- them than the limit, the featured ones first and of the same kind the nearer before the farther;
-- and nothing is changed.
pub find_nearby-Offered :
    (w : World) (dto : NearbyTasksDto) (user_id : String)
    → Post
        (λ rs w'.
          (w' ≡ w)
          × (AllOf (Offered w dto user_id) rs
              × (InOrder NoLater rs × (rows_in rs ≤ or_default dto.limit 50))))
        (λ _. ⊥)
        (run (find_nearby dto user_id) w)
unfolding find_nearby
find_nearby-Offered w dto user_id =
    let limit = or_default dto.limit 50 in
    (
      refl,
      (
        ranked-Offered w dto user_id _ (candidates-Eligible w dto user_id limit),
        (
          Ordered-InOrder is_no_later NoLater _ no_later (
              Ordered-take_rows is_no_later limit _
                (Ordered-sorted is_no_later is_no_later-total _)),
          rows_in-take_rows limit _,
        ),
      ),
    )
