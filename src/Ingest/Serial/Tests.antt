-- ===== src/Ingest/Serial/Tests.antt =====
-- A serial lidar with frames of two points.
use olivaw_hub.Prelude.{
  ◌-◌, ◌/◌, ◌+◌, ◌≤◌, ℕ, ◌≡◌, refl, some, List, [], ◌∷◌, map, take, get_elem?, arith,
}
use olivaw_hub.Text.{codes}
use olivaw_hub.Ingest.{status, now}
use olivaw_hub.Ingest.Serial.{Measured, Rotation, finished, point_of, frame_of, run}
use olivaw_hub.Ingest.Serial.Frame.{frame_of-points}
use olivaw_hub.Ingest.Serial.Numbering.{scans_of, at_index, run-scans}
use olivaw_hub.Ingest.Serial.Cadence.{samples, run-samples}
use olivaw_hub.Ingest.Serial.Toy.{framed, framed_floats, framed_proto, frames, laws}

abbrev measured : ℕ → Measured framed
measured n = record { angle_deg = n; distance_mm = n; quality = 15 }

abbrev three : List (Measured framed)
three = measured 1 ∷ measured 2 ∷ measured 3 ∷ []

frame_of-points_example :
    let frame = frame_of framed_floats frames 0 7 5000000 three in
    (frame.number ≡ 7)
    × (frame.content ≡ take 2 (map (point_of framed_floats frames) three))
    × (frame.left_out ≡ 1)
unfolding laws
frame_of-points_example = frame_of-points framed_floats framed_proto frames laws 0 7 5000000 three

abbrev rotation : ℕ → List (Measured framed) → Rotation framed
rotation at points = record {
  points = some points;
  frame_at = at;
  scan_clock = some at;
  check_at = at;
  mark_at = at;
  uptime_at = at;
  telemetry_clock = some at;
}

abbrev rotations : List (Rotation framed)
rotations = rotation 100000000 three ∷ rotation 200000000 [] ∷ []

run-scans_example :
    let sent = run framed_floats frames (codes "mac-lidar") 0 (some 5) 5 rotations in
    (sent.1 ≡ finished)
    × (get_elem? sent.0 0 ≡ some (now (some 5) (codes "mac-lidar") (status (codes "online"))))
    × ((i : ℕ)
        → get_elem? (scans_of sent.0) i
          ≡ at_index framed_floats frames (codes "mac-lidar") 0 rotations i i)
run-scans_example =
    run-scans framed_floats frames (codes "mac-lidar") 0 (some 5) 5 rotations
      ((three, refl), (([], refl), tt)) (omega arith)

run-samples_example :
    samples (run framed_floats frames (codes "mac-lidar") 0 (some 5) 5 rotations).0
    ≤ (300000000 - 0) / 1000000000 + 1
run-samples_example =
    run-samples framed_floats frames (codes "mac-lidar") 0 (some 5) 5 0 300000000 rotations
      (omega arith, omega arith, (omega arith, omega arith, omega arith))
