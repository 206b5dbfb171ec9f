-- ===== src/Viz/Tests.antt =====
-- The viewer beside a run of a worker's thread.
use olivaw_hub.Prelude.{◌≡◌, refl, []}
use olivaw_hub.Text.{codes}
use olivaw_hub.External.Toy.{toy_floats, toy_proto, toy_slam}
use olivaw_hub.Slam.Toy.{toy_grids, tuning, rounds, first_thread, last_thread, goes_on}
use olivaw_hub.Slam.Worker.{start, work_all}
use olivaw_hub.Viz.{show_all}
use olivaw_hub.Viz.Viewed.{scans_only, maps_shown, map_places, viewed}
use olivaw_hub.Viz.Follows.{show_all-viewed}

show_all-viewed_example :
    let calls =
      show_all toy_floats toy_proto toy_slam toy_grids (codes "a") tuning first_thread rounds in
    let out = (work_all toy_floats toy_proto toy_slam toy_grids tuning first_thread rounds).0 in
    (scans_only calls ≡ viewed toy_floats (codes "a") (0, []) out)
    × (maps_shown calls ≡ map_places toy_floats (codes "a") out)
unfolding start
show_all-viewed_example =
    show_all-viewed toy_floats toy_proto toy_slam toy_grids (codes "a") tuning first_thread
      last_thread rounds refl goes_on
