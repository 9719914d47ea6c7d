-- ===== src/Tasks/Nearby.antt =====
-- `findNearby` of tasks.service.ts: the open tasks near a doer. The category, the poster and the
-- escrow that the query joins are left out.
use help_mi.Common.{
  ℕ, ◌*◌, String, Option, none, some, Bool, true, false, not, ◌&&◌, ◌==◌, leb, List, [], ◌∷◌, map,
  or_default, if◌then◌else◌,
}
use help_mi.Schema.{DoerTier, TaskStatus, KycStatus, Task, DoerProfile, tier_is, task_is, kyc_is}
use help_mi.Database.{find_many, newest_first, take_rows}
use help_mi.World.{World, profiles}
use help_mi.Handler.{Handler, ◌>>=◌}
use help_mi.Handler.Calls.{find, reads}

-- `NearbyTasksDto`, its coordinates and its radius as places in the order of doubles.
pub record NearbyTasksDto : Type 0 where
  pub lat : ℕ
  pub lng : ℕ
  pub radius_km : Option ℕ
  pub limit : Option ℕ

-- `tiersUpTo`
abbrev pub tiers_up_to : DoerTier → List DoerTier
tiers_up_to DoerTier.gold = DoerTier.bronze ∷ DoerTier.silver ∷ DoerTier.gold ∷ []
tiers_up_to DoerTier.silver = DoerTier.bronze ∷ DoerTier.silver ∷ []
tiers_up_to DoerTier.bronze = DoerTier.bronze ∷ []

unfoldable pub is_among : List DoerTier → DoerTier → Bool
is_among [] t = false
is_among (u ∷ us) t = let rest = is_among us t in if tier_is u t then true else rest

-- `doerTier`
abbrev pub tier_of : Option DoerProfile → DoerTier
tier_of none = DoerTier.bronze
tier_of (some p) = if kyc_is p.kyc_status KycStatus.approved then p.tier else DoerTier.bronze

-- The condition of the query.
abbrev pub is_eligible : DoerTier → String → Task → Bool
is_eligible tier user_id t =
    task_is t.status TaskStatus.open_
    && (is_among (tiers_up_to tier) t.required_tier && not (t.poster_id == user_id))

-- A stable sort, by whether the first of two may stand before the second.
module _ {A : Type 0} (before : A → A → Bool) where
  unfoldable pub insert_row : A → List A → List A
  insert_row x [] = x ∷ []
  insert_row x (y ∷ ys) = let rest = insert_row x ys in if before x y then x ∷ y ∷ ys else y ∷ rest

  unfoldable pub sorted : List A → List A
  sorted [] = []
  sorted (x ∷ xs) = insert_row x (sorted xs)

-- `orderBy: { isFeatured: 'desc' }`, of rows that are sorted by the next key.
abbrev pub is_no_less_featured : Task → Task → Bool
is_no_less_featured t u = if u.is_featured then t.is_featured else true

abbrev pub candidates : DoerTier → String → ℕ → World → List Task
candidates tier user_id limit w =
    take_rows (limit * 3)
      (sorted is_no_less_featured (newest_first (find_many (is_eligible tier user_id) w.tasks)))

abbrev pub located : World → NearbyTasksDto → Task → Task × ℕ
located w dto t = (t, w.services.haversine dto.lat dto.lng t.location_lat t.location_lng)

-- The comparison of `sort`: at most 0.
abbrev pub is_no_later : Task × ℕ → Task × ℕ → Bool
is_no_later a b =
    if a.0.is_featured
    then (if b.0.is_featured then leb a.1 b.1 else true)
    else if b.0.is_featured
    then false
    else leb a.1 b.1

abbrev pub ranked : World → NearbyTasksDto → List Task → List (Task × ℕ)
ranked w dto ts = take_rows (or_default dto.limit 50) (
    sorted is_no_later (
      find_many (λ a. leb a.1 (or_default dto.radius_km (w.services.km 10)))
        (map (located w dto) ts)))

-- `findNearby`: the profile, then the query.
unfoldable pub find_nearby : NearbyTasksDto → String → Handler (List (Task × ℕ))
find_nearby dto user_id = do
  profile ← find profiles (λ p. p.user_id == user_id)
  reads (λ w. ranked w dto (candidates (tier_of profile) user_id (or_default dto.limit 50) w))
