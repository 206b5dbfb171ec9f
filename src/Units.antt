-- ===== src/Units.antt =====
-- src/units.rs: the one place where lidar units become SLAM units.
use olivaw_hub.Prelude.{ℕ, List, [], ◌∷◌, map, if◌then◌else◌}
use olivaw_hub.External.{Types, FloatOps, Floats, Proto, ScanCloud, SlamLib}

module _ {t : Types} (floats : Floats t) (proto : Proto t) (lib : SlamLib t) where
  open floats use {f64, to_f64}
  open proto use {is_valid, distance_mm, angle_deg}

  unfoldable pub valid_points : List t.ScanPoint → List t.ScanPoint
  valid_points [] = []
  valid_points (p ∷ ps) = if is_valid p then p ∷ valid_points ps else valid_points ps

  -- Metres, x forward and y to the left, from clockwise degrees and millimetres.
  unfoldable pub to_point : t.ScanPoint → t.Point2
  to_point p =
      let r = FloatOps.over f64 (to_f64 (distance_mm p)) (FloatOps.lit f64 1000 0) in
      let a = FloatOps.to_radians f64 (to_f64 (angle_deg p)) in
      SlamLib.new_point lib (FloatOps.times f64 r (FloatOps.cos f64 a))
        (FloatOps.times f64 (FloatOps.neg f64 r) (FloatOps.sin f64 a))

  unfoldable pub scan_frame_to_cloud : t.ScanFrame → ℕ → ScanCloud t
  unfolding valid_points to_point
  scan_frame_to_cloud frame timestamp_ns = record {
    points = map to_point (valid_points (Proto.points proto frame));
    timestamp_ns = timestamp_ns;
  }
