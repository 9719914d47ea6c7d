-- ===== src/Examples/Nearby.antt =====
-- Bob looks for tasks near him in the sample world.
use help_mi.Common.{◌≡◌, refl, ◌≤◌, ◌+◌, [], ◌∷◌, none, some, or_default}
use help_mi.Database.{find_first, find_many, newest_first, take_rows, rows_in}
use help_mi.Database.Every.{AllOf}
use help_mi.Handler.{ok, run}
use help_mi.Tasks.Nearby.{NearbyTasksDto, find_nearby, is_among, sorted, insert_row}
use help_mi.Outcomes.Post.{Post}
use help_mi.Outcomes.Nearby.Order.{InOrder}
use help_mi.Outcomes.Nearby.{Offered, NoLater, find_nearby-Offered}
use help_mi.Examples.Sample.{sample_world, sample_task}

abbrev around : NearbyTasksDto
around = record {
  lat = sample_task.location_lat + 3;
  lng = sample_task.location_lng;
  radius_km = none;
  limit = some 5;
}

find_nearby-Offered_example :
    Post
      (λ rs w'.
        (w' ≡ sample_world)
        × (AllOf (Offered sample_world around "bob") rs
            × (InOrder NoLater rs × (rows_in rs ≤ or_default around.limit 50))))
      (λ _. ⊥)
      (run (find_nearby around "bob") sample_world)
find_nearby-Offered_example = find_nearby-Offered sample_world around "bob"

-- The sample task is near, and it is not offered to its poster.
near_test : (run (find_nearby around "bob") sample_world).0 ≡ ok ((sample_task, 3) ∷ [])
unfolding find_nearby find_first find_many newest_first take_rows sorted insert_row is_among
near_test = refl

own_test : (run (find_nearby around "ann") sample_world).0 ≡ ok []
unfolding find_nearby find_first find_many newest_first take_rows sorted insert_row is_among
own_test = refl
