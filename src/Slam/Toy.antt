-- ===== src/Slam/Toy.antt =====
-- A grid and a run of a worker's thread, for tests.
use olivaw_hub.Prelude.{ℕ, ◌≡◌, refl, true, some, List, [], ◌∷◌}
use olivaw_hub.External.Toy.{toy, toy_floats, toy_proto, toy_slam}
use olivaw_hub.Slam.MapPng.{GridLib, gray_of, write_row, write_rows, to_gray, from_grid}
use olivaw_hub.Slam.Worker.{WorkerTuning, Thread, Round, render, track, work, work_all}
use olivaw_hub.Units.{scan_frame_to_cloud}

-- A 2 × 2 grid.
abbrev pub toy_grids : GridLib toy
toy_grids = record {
  width = λ g. 2;
  height = λ g. 2;
  cells = λ g. g ∷ 0 ∷ 0 ∷ 300 ∷ [];
  origin = λ g. (0, 0);
  resolution_m = λ g. 1;
  png_encode = λ w h b. some b;
}

-- A map for every second pose; the second frame has no points.
abbrev pub tuning : WorkerTuning
tuning = record { map_every_scans = 2; ws_scan_points = 3 }

abbrev pub takes_all : Round toy
takes_all = record { match_ms = 1; takes_pose = true; takes_map = true }

abbrev pub rounds : List (List ℕ × Round toy)
rounds = (1 ∷ 2 ∷ [], takes_all) ∷ ([], takes_all) ∷ (3 ∷ [], takes_all) ∷ (4 ∷ [], takes_all) ∷ []

abbrev pub first_thread : Thread toy
first_thread = record { slam = 0; processed = 0; map_version = 0; trajectory = [] }

abbrev pub last_thread : Thread toy
last_thread = record {
  slam = 3;
  processed = 3;
  map_version = 1;
  trajectory = (1, 1) ∷ (2, 2) ∷ (3, 3) ∷ [];
}

-- The thread goes on after these rounds.
pub goes_on :
    (work_all toy_floats toy_proto toy_slam toy_grids tuning first_thread rounds).1
    ≡ some last_thread
unfolding work_all work track render from_grid to_gray write_rows write_row gray_of
    scan_frame_to_cloud
goes_on = refl
