-- ===== src/Ingest/Serial.antt =====
-- src/ingest/serial.rs: an RPLIDAR on a serial port as a car of its own. Instants are nanoseconds.
pub mod Frame
pub mod Numbering
pub mod Cadence
pub mod Toy
mod Tests
use olivaw_hub.Prelude.{
  ℕ, zero, suc, ◌+◌, ◌-◌, ◌*◌, ◌/◌, ◌%◌, ◌^◌, min, Bool, true, false, Option, none, some, List, [],
  ◌∷◌, leb, if◌then◌else◌,
}
use olivaw_hub.Text.{Text, codes}
use olivaw_hub.External.{Types, FloatOps, Floats}
use olivaw_hub.Ingest.{CarEvent, EventKind, status, telemetry, scan, now}

-- How the hub builds the types of olivaw-proto: the struct literals, and `push` of a frame's
-- vector of bounded capacity (`none` where it is full).
pub record Frames (t : Types) : Type 0 where
  pub empty : ℕ → ℕ → t.ScanFrame
  pub push : t.ScanFrame → t.ScanPoint → Option t.ScanFrame
  pub dropped : t.ScanFrame → ℕ
  pub set_dropped : ℕ → t.ScanFrame → t.ScanFrame
  pub max_dropped : ℕ
  pub scan_point : ℕ → ℕ → ℕ → t.ScanPoint
  pub lidar_telemetry : ℕ → t.Telemetry

-- A point as olivaw-lidar measures it.
pub record Measured (t : Types) : Type 0 where
  pub angle_deg : t.F32
  pub distance_mm : t.F32
  pub quality : ℕ

-- One rotation: the points, `none` if the lidar fails, and what the clocks show during the round.
pub record Rotation (t : Types) : Type 0 where
  pub points : Option (List (Measured t))
  pub frame_at : ℕ
  pub scan_clock : Option ℕ
  pub check_at : ℕ
  pub mark_at : ℕ
  pub uptime_at : ℕ
  pub telemetry_clock : Option ℕ

pub data End : Type 0 where
  finished lidar_failed pipeline_gone : End

-- The port that is opened: the one given, in the form that the library prefers, or one that looks
-- like a lidar.
unfoldable pub choose_port : (Text → Text) → Option Text → Option Text → Option Text
choose_port prefer_callout auto_detected (some p) = some (prefer_callout p)
choose_port prefer_callout auto_detected none = auto_detected

-- Saturating, at `u32::MAX`.
unfoldable pub elapsed_ms : ℕ → ℕ → ℕ
elapsed_ms since at = min ((at - since) / 1000000) (2 ^ 32 - 1)

unfoldable pub uptime_s : ℕ → ℕ → ℕ
uptime_s since at = min ((at - since) / 1000000000) (2 ^ 32 - 1)

-- `is_none_or(|t| t.elapsed() >= 1 s)`.
unfoldable pub is_due : Option ℕ → ℕ → Bool
is_due none at = true
is_due (some last) at = leb 1000000000 (at - last)

module _ {t : Types} (floats : Floats t) (frames : Frames t) where
  open floats use {f32}
  open frames use {empty, push, dropped, set_dropped, max_dropped, scan_point, lidar_telemetry}

  unfoldable pub to_q : t.F32 → t.F32 → ℕ
  to_q v scale = FloatOps.to_uint f32 16 (
      FloatOps.clamp f32 (FloatOps.round f32 (FloatOps.times f32 v scale)) (FloatOps.lit f32 0 0)
        (FloatOps.lit f32 65535 0))

  unfoldable pub point_of : Measured t → t.ScanPoint
  unfolding to_q
  point_of p =
      scan_point (to_q p.angle_deg (FloatOps.lit f32 64 0))
        (to_q p.distance_mm (FloatOps.lit f32 4 0)) p.quality

  -- A point that finds no room is counted, in a counter that stays at its largest value.
  unfoldable pub add_point : t.ScanFrame → Measured t → t.ScanFrame
  add_point frame p = elim (push frame (point_of p)) [
    | some frame' ↦ frame'
    | none ↦ set_dropped (min (dropped frame + 1) max_dropped) frame
  ]

  unfoldable pub fill : t.ScanFrame → List (Measured t) → t.ScanFrame
  fill frame [] = frame
  fill frame (p ∷ ps) = fill (add_point frame p) ps

  -- The frame of a rotation.
  unfoldable pub frame_of : ℕ → ℕ → ℕ → List (Measured t) → t.ScanFrame
  frame_of started seq at points = fill (empty seq (elapsed_ms started at)) points

  module _ (car_id : Text) (started : ℕ) where
    -- The loop over the lidar's rotations; the pipeline takes `room` more events.
    unfoldable pub scan_loop : ℕ → Option ℕ → ℕ → List (Rotation t) → List (CarEvent t) × End
    scan_loop seq last room [] = ([], finished)
    scan_loop seq last zero (r ∷ rs) = elim r.points [
      | none ↦ ([], lidar_failed)
      | some points ↦ ([], pipeline_gone)
    ]
    scan_loop seq last (suc zero) (r ∷ rs) = elim r.points [
      | none ↦ ([], lidar_failed)
      | some points ↦
          let event = now r.scan_clock car_id (scan (frame_of started seq r.frame_at points)) in
          if is_due last r.check_at
          then (event ∷ [], pipeline_gone)
          else (let rest = scan_loop ((seq + 1) % 2 ^ 32) last zero rs in (event ∷ rest.0, rest.1))
    ]
    scan_loop seq last (suc (suc room)) (r ∷ rs) = elim r.points [
      | none ↦ ([], lidar_failed)
      | some points ↦
          let event = now r.scan_clock car_id (scan (frame_of started seq r.frame_at points)) in
          if is_due last r.check_at
          then (let sample = lidar_telemetry (uptime_s started r.uptime_at) in
              let rest = scan_loop ((seq + 1) % 2 ^ 32) (some r.mark_at) room rs in
              (event ∷ now r.telemetry_clock car_id (telemetry sample) ∷ rest.0, rest.1))
          else (let rest = scan_loop ((seq + 1) % 2 ^ 32) last (suc room) rs in
              (event ∷ rest.0, rest.1))
    ]

    -- `run`, once the port is open and the lidar scans.
    unfoldable pub run : Option ℕ → ℕ → List (Rotation t) → List (CarEvent t) × End
    run clock zero rs = ([], pipeline_gone)
    run clock (suc room) rs =
        let rest = scan_loop 0 none room rs in
        (now clock car_id (status (codes "online")) ∷ rest.0, rest.1)
