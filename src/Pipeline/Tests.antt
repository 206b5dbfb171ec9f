-- ===== src/Pipeline/Tests.antt =====
-- A run of the pipeline with two cars, and the theorems about it.
use mathlib.Core.Option
use olivaw_hub.Prelude.{
  ◌++◌, ◌⊎◌, min, ℕ, ◌/◌, ◌%◌, ◌^◌, ◌≤◌, ◌≡◌, ◌↔◌, arith, refl, true, false, none, some, List, [],
  ◌∷◌, length, take, ltb,
}
use olivaw_hub.Text.{Text, Bytes, codes, text_eq}
use olivaw_hub.Dict.{get}
use olivaw_hub.External.Toy.{toy, toy_floats}
use olivaw_hub.Config.{HubConfig, default_config}
use olivaw_hub.Ingest.{EventKind, CarEvent, status, scan}
use olivaw_hub.Postcard.{toy_postcard, toy_postcard_laws}
use olivaw_hub.Session.Recorder.{create, le_bytes}
use olivaw_hub.Session.Read.{events, read_all}
use olivaw_hub.Session.Stream.{stream, AllRecordable}
use olivaw_hub.Session.Replay.{Pacing, Action, finished, spawn, sent, AllShort}
use olivaw_hub.Slam.MapPng.{MapSnapshot}
use olivaw_hub.Slam.Worker.{tracked, map_output}
use olivaw_hub.State.{PoseInfo, MapInfo}
use olivaw_hub.State.{snapshots}
use olivaw_hub.State.Snapshots.{IsAscending, find}
use olivaw_hub.Pipeline.Listed.{snapshots-run}
use olivaw_hub.Pipeline.{
  Pipeline, Input, received, slam_result, stats_tick, run, init, recorded_file,
}
use olivaw_hub.Pipeline.Car.{view, car_run}
use olivaw_hub.Pipeline.Machine.{view-run}
use olivaw_hub.Pipeline.Counts.{total, scans_of, IsSound-init, scans_total-run}
use olivaw_hub.Pipeline.Trajectory.{path, points_of, trajectory-run}
use olivaw_hub.Pipeline.Maps.{shown, Describes, shown-run}
use olivaw_hub.Pipeline.Recording.{received_of, run-recorded}
use olivaw_hub.Pipeline.Replayed.{heard_of, run-replayed}

-- Two points of trajectory are kept.
abbrev cfg : HubConfig toy
cfg = record (default_config toy_floats) {
  slam = record { map_every_scans = 1; ws_scan_points = 10; trajectory_len = 2 };
}

abbrev at_start : Pipeline toy
at_start = init cfg (record { client = [] }) (some (create 4))

abbrev from : Text → EventKind toy → CarEvent toy
from car kind = record { car = car; at_ms = 5; kind = kind }

abbrev placed : ℕ → PoseInfo toy
placed n = record { x = n; y = n; theta = 0; seq = n; match_ms = 1; keyframes = 1; loops = 0 }

abbrev rendered : MapSnapshot toy
rendered = record {
  version = 1;
  width = 1;
  height = 1;
  origin = (0, 0);
  resolution = 1;
  gray = 205 ∷ [];
  png = 205 ∷ [];
}

abbrev a : Text
a = codes "a"

abbrev b : Text
b = codes "b"

abbrev inputs : List (Input toy)
inputs =
    received (from a (status (codes "online"))) 1 true
    ∷ received (from a (scan (1 ∷ []))) 2 true
    ∷ received (from b (scan (2 ∷ []))) 3 false
    ∷ slam_result a (tracked (placed 1) [])
    ∷ slam_result a (map_output rendered)
    ∷ received (from a (scan (3 ∷ []))) 4 true
    ∷ slam_result a (tracked (placed 2) [])
    ∷ stats_tick (λ car. (9, 9))
    ∷ slam_result a (tracked (placed 3) [])
    ∷ []

abbrev final : Pipeline toy
final = run toy_floats toy_postcard at_start inputs

view-run_example : view a final ≡ car_run toy_floats 2 a (view a at_start) inputs
view-run_example =
    view-run toy_floats toy_postcard 2 a at_start inputs
      (IsSound-init toy_floats cfg (record { client = [] }) (some (create 4)))

trajectory-run_example :
    (older : List (ℕ × ℕ)) × (points_of toy_floats a inputs
      ≡ older ++ path toy_floats (get a final.hub.cars))
    × (length (path toy_floats (get a final.hub.cars))
        ≡ min 2 (length (points_of toy_floats a inputs)))
trajectory-run_example =
    trajectory-run toy_floats toy_postcard cfg (record { client = [] }) (some (create 4)) inputs a

scans_total-run_example : total (get a final.hub.cars) ≡ scans_of a inputs % 2 ^ 64
scans_total-run_example =
    scans_total-run toy_floats toy_postcard cfg (record { client = [] }) (some (create 4)) inputs a

shown-run_example :
    ((get a final.hub.maps ≡ none) × (shown toy_floats (get a final.hub.cars) ≡ none))
    ⊎ ((m : MapSnapshot toy) × (info : MapInfo toy) × (get a final.hub.maps ≡ some m)
        × (shown toy_floats (get a final.hub.cars) ≡ some info)
        × Describes toy_floats a m info)
shown-run_example =
    shown-run toy_floats toy_postcard cfg (record { client = [] }) (some (create 4)) inputs a

snapshots-run_example :
    IsAscending (snapshots final.hub)
    × ((j : Text)
        → find j (snapshots final.hub) ≡ (car_run toy_floats 2 j (view j at_start) inputs).seen)
snapshots-run_example =
    snapshots-run toy_floats toy_postcard cfg (record { client = [] }) (some (create 4)) inputs

two_scans : scans_of a inputs ≡ 2
unfolding scans_of text_eq
two_scans = refl

three_points : points_of toy_floats a inputs ≡ (1, 1) ∷ (2, 2) ∷ (3, 3) ∷ []
unfolding points_of text_eq
three_points = refl

recordable : AllRecordable toy_postcard (received_of inputs)
recordable = (
  (_, refl, omega arith),
  ((_, refl, omega arith), ((_, refl, omega arith), ((_, refl, omega arith), tt))),
)

run-recorded_example :
    (k : ℕ) × (Option.map (read_all toy_postcard) (
        recorded_file (
          run toy_floats toy_postcard
            (init cfg (record { client = [] }) (some (create 40)))
            inputs))
      ≡ some (events (take k (received_of inputs))))
    × ((j : ℕ)
        → (length (take j (received_of inputs)) ≤ k)
          ↔ (length (stream toy_postcard (take j (received_of inputs))) ≤ 40))
unfolding le_bytes
run-recorded_example =
    run-recorded toy_floats toy_postcard toy_postcard_laws cfg (record { client = [] }) 40 inputs
      recordable

-- Other SLAM results and no tick come between the same events, each ten nanoseconds later.
abbrev again : List (Input toy)
again =
    received (from a (status (codes "online"))) 11 true
    ∷ received (from a (scan (1 ∷ []))) 12 true
    ∷ slam_result a (tracked (placed 7) [])
    ∷ received (from b (scan (2 ∷ []))) 13 true
    ∷ received (from a (scan (3 ∷ []))) 14 true
    ∷ []

abbrev pacing : Pacing toy
pacing = record { is_positive = λ s. ltb 0 s; div_f64 = λ d s. some (d / s) }

run-replayed_example :
    let live =
      run toy_floats toy_postcard (init cfg (record { client = [] }) (some (create 999))) inputs in
    let replayed =
      run toy_floats toy_postcard
        (init (default_config toy_floats) (record { client = [] }) none)
        again in
    ((file : Bytes) × (actions : List (Action toy)) × (recorded_file live ≡ some file)
      × (spawn pacing 2 toy_postcard 9 file ≡ some (actions, finished))
      × (sent actions ≡ received_of again)
      × AllShort actions)
    × ((j : Text)
        → heard_of toy_floats j (get j replayed.hub.cars)
          ≡ heard_of toy_floats j (get j live.hub.cars))
unfolding le_bytes
run-replayed_example =
    run-replayed toy_floats toy_postcard toy_postcard_laws pacing 2
      (record { divides = λ d. (d / 2, refl) }) 999 9 cfg (default_config toy_floats)
      (record { client = [] }) (record { client = [] }) none inputs again recordable (omega arith)
      (omega arith) refl
