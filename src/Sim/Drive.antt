-- ===== src/Sim/Drive.antt =====
-- src/sim/room.rs: the car drives, measures and reports.
pub mod Points
pub mod Sent
pub mod Turns
use olivaw_hub.Prelude.{
  ℕ, zero, suc, ◌+◌, ◌-◌, ◌*◌, ◌/◌, ◌%◌, ◌^◌, Bool, true, false, Option, none, some, List, [], ◌∷◌,
  ◌++◌, if◌then◌else◌, leb, ◌==◌, length, get_elem?,
}
use olivaw_hub.Text.{Text, codes}
use olivaw_hub.Text.Signed.{ℤ, pos, negsuc}
use olivaw_hub.External.{Types, FloatOps, Floats}
use olivaw_hub.Config.{SimConfig}
use olivaw_hub.Ingest.{CarEvent, status, telemetry, scan, now}
use olivaw_hub.Ingest.Serial.{Frames}
use olivaw_hub.Sim.{RoomOps, walls, path, cast}
use olivaw_hub.Sim.Lcg.{noise}

-- What the simulator takes from outside besides frames: the cast `as iw`, and the struct literal of a
-- sample, of which the other fields are constants.
pub record Firmware (t : Types) : Type 0 where
  pub to_int : ℕ → t.F64 → ℤ
  pub sample : ℕ → ℕ → ℤ → ℤ → ℕ → ℤ → t.Telemetry

-- The locals of `run` that a round changes.
pub record Rover (A : Type 0) : Type 0 where
  pub rng : ℕ
  pub x : A
  pub y : A
  pub theta : A
  pub target : ℕ
  pub seq : ℕ
  pub t_ms : ℕ
  pub battery_mv : A

-- What a step of the car comes to: the index of the waypoint may be out of range, the loops that
-- wrap the angle may turn more often than the bound for that angle allows, or the car moves, at the speed `v` and the
-- rate `omega`.
pub data Steered (A : Type 0) : Type 0 where
  out_of_range spins : Steered A
  moved : Rover A → A → A → Steered A

pub data Ended : Type 0 where
  ticking pipeline_gone spinning panicked : Ended

-- The readings of the clock when the scan and the sample of a round are sent.
pub record Tick : Type 0 where
  pub scan_clock : Option ℕ
  pub sample_clock : Option ℕ

-- A round of the loop: it ends the task, or goes on, with what it sent.
pub data Round (t : Types) : Type 0 where
  stops : List (CarEvent t) → Ended → Round t
  goes_on : List (CarEvent t) → ℕ → Rover (Types.F64 t) → Round t

unfoldable pub is_multiple_of : ℕ → ℕ → Bool
is_multiple_of n k = if k == 0 then n == 0 else n % k == 0

-- `-55 - n` in `i8`, which wraps around in a release build.
unfoldable pub rssi_dbm : ℤ → ℤ
rssi_dbm (pos n) = if leb n 73 then negsuc (54 + n) else pos (201 - n)
rssi_dbm (negsuc n) = if leb 54 n then pos (n - 54) else negsuc (53 - n)

module _ {A : Type 0} (f : FloatOps A) (ops : RoomOps A) where
  open f use {lit, neg, plus, minus, times, over, cos, sin, clamp}
  open ops use {lt, abs, sqrt, square, atan2, pi, tau}

  unfoldable pub wrap_down : ℕ → A → Option A
  wrap_down zero err = if lt pi err then none else some err
  wrap_down (suc n) err =
      let rest = wrap_down n (minus err tau) in if lt pi err then rest else some err

  unfoldable pub wrap_up : ℕ → A → Option A
  wrap_up zero err = if lt err (neg pi) then none else some err
  wrap_up (suc n) err =
      let rest = wrap_up n (plus err tau) in if lt err (neg pi) then rest else some err

  -- The error is turned down at most as often as `turns` says of it, then up as often as it says of
  -- what is left.
  unfoldable pub wrap : (A → ℕ) → A → Option A
  unfolding wrap_down wrap_up
  wrap turns err = elim (wrap_down (turns err) err) [ none ↦ none | some e ↦ wrap_up (turns e) e ]

  -- Towards the waypoint `w`, once the error is known.
  unfoldable pub move : A → A → Rover A → A × A → A → Steered A
  move dt speed s w err =
      let omega = clamp err (neg (lit 12 1)) (lit 12 1) in
      let v = if lt (lit 6 1) (abs err) then lit 5 2 else speed in
      let theta = plus s.theta (times omega dt) in
      let x = plus s.x (times (times v (cos theta)) dt) in
      let y = plus s.y (times (times v (sin theta)) dt) in
      let far = sqrt (plus (square (minus w.0 x)) (square (minus w.1 y))) in
      let target = if lt far (lit 15 2) then (s.target + 1) % length (path f) else s.target in
      moved (record s { x = x; y = y; theta = theta; target = target }) v omega

  unfoldable pub steer : (A → ℕ) → A → A → Rover A → Steered A
  unfolding wrap move
  steer turns dt speed s = elim (get_elem? (path f) s.target) [
    | none ↦ out_of_range
    | some w ↦ elim (wrap turns (minus (atan2 (minus w.1 s.y) (minus w.0 s.x)) s.theta)) [
      | none ↦ spins
      | some err ↦ move dt speed s w err
    ]
  ]

  unfoldable pub olivaw_battery_percent : A → ℕ
  olivaw_battery_percent pack_mv = FloatOps.to_uint f 8 (
      clamp
        (times (over (minus pack_mv (lit 9900 0)) (minus (lit 12600 0) (lit 9900 0))) (lit 100 0))
        (lit 0 0) (lit 100 0))

module _ {t : Types} (floats : Floats t) (ops : RoomOps t.F64) (frames : Frames t)
    (firmware : Firmware t) where
  open frames use {empty, push, scan_point}

  abbrev f : FloatOps t.F64
  f = floats.f64

  open floats.f64 use {
    lit, of_int, plus, minus, times, over, round, clamp, maximum, to_uint, to_radians,
  }

  -- The distance that a ray measures, and the generator after it.
  unfoldable pub measure : t.F64 → ℕ → Option t.F64 → ℕ × t.F64
  measure noise_m rng none = (rng, lit 0 0)
  measure noise_m rng (some d) =
      let drawn = noise f rng noise_m in (drawn.0, maximum (plus d drawn.1) (lit 5 2))

  -- The `i`-th of 500 beams.
  unfoldable pub beam : t.F64 → Rover t.F64 → ℕ → ℕ → ℕ × t.ScanPoint
  unfolding measure
  beam noise_m s i rng =
      let lidar_deg = over (times (of_int i) (lit 360 0)) (lit 500 0) in
      let bearing = minus s.theta (to_radians lidar_deg) in
      let measured = measure noise_m rng (cast f ops (s.x, s.y) bearing (walls f) (lit 12 0)) in
      let dist = measured.1 in
      (
        measured.0,
        scan_point (to_uint 16 (round (times lidar_deg (lit 64 0))))
            (to_uint 16
              (clamp (round (times (times dist (lit 1000 0)) (lit 4 0))) (lit 0 0) (lit 65535 0)))
            (if RoomOps.lt ops (lit 0 0) dist then 47 else 0),
      )

  -- A point that finds no room is left out.
  unfoldable pub push_point : t.ScanFrame → t.ScanPoint → t.ScanFrame
  push_point frame p = elim (push frame p) [ none ↦ frame | some frame' ↦ frame' ]

  -- `n` beams, from the `i`-th on.
  unfoldable pub sweep : t.F64 → Rover t.F64 → ℕ → ℕ → ℕ → t.ScanFrame → ℕ × t.ScanFrame
  unfolding beam push_point
  sweep noise_m s zero i rng frame = (rng, frame)
  sweep noise_m s (suc n) i rng frame =
      let beamed = beam noise_m s i rng in
      sweep noise_m s n (i + 1) beamed.0 (push_point frame beamed.1)

  unfoldable pub sample_of : Rover t.F64 → t.F64 → t.F64 → t.Telemetry
  unfolding olivaw_battery_percent rssi_dbm
  sample_of s v omega =
      Firmware.sample firmware (to_uint 16 s.battery_mv) (olivaw_battery_percent f ops s.battery_mv)
        (Firmware.to_int firmware 16
          (times (over (minus v (times omega (lit 8 2))) (lit 6 1)) (lit 550 0)))
        (Firmware.to_int firmware 16
          (times (over (plus v (times omega (lit 8 2))) (lit 6 1)) (lit 550 0)))
        (s.t_ms / 1000) (rssi_dbm (Firmware.to_int firmware 8 (times s.x (lit 3 0))))

  module _ (cfg : SimConfig t) (turns : t.F64 → ℕ) where
    abbrev pub rate : t.F64
    rate = maximum cfg.scan_hz (lit 1 0)

    abbrev pub dt : t.F64
    dt = over (lit 1 0) rate

    abbrev pub dt_ms : ℕ
    dt_ms = to_uint 32 (times dt (lit 1000 0))

    abbrev pub scans_per_second : ℕ
    scans_per_second = to_uint 32 rate

    -- The frame of a round, and the car after the sweep.
    unfoldable pub scanned : Rover t.F64 → Rover t.F64 × t.ScanFrame
    unfolding sweep
    scanned s =
        let swept = sweep cfg.noise_m s 500 0 s.rng (empty s.seq s.t_ms) in
        (
          record s { rng = swept.0; seq = (s.seq + 1) % 2 ^ 32; t_ms = (s.t_ms + dt_ms) % 2 ^ 32 },
          swept.1,
        )

    -- What a round sends once it has scanned, of which the pipeline takes `room` events: the scan,
    -- and a sample where one is `due`.
    unfoldable pub report : Tick → Rover t.F64 → t.ScanFrame → t.F64 → t.F64 → Bool → ℕ → Round t
    unfolding sample_of
    report k s frame v omega due zero = stops [] pipeline_gone
    report k s frame v omega false (suc left) =
        goes_on (now k.scan_clock cfg.car_id (scan frame) ∷ []) left s
    report k s frame v omega true (suc zero) =
        stops (now k.scan_clock cfg.car_id (scan frame) ∷ []) pipeline_gone
    report k s frame v omega true (suc (suc left)) =
        let s' = record s { battery_mv = minus s.battery_mv (lit 6 1) } in
        goes_on
          (now k.scan_clock cfg.car_id (scan frame)
            ∷ now k.sample_clock cfg.car_id (telemetry (sample_of s' v omega))
            ∷ [])
          left s'

    unfoldable pub act : Tick → ℕ → Steered t.F64 → Round t
    unfolding scanned report is_multiple_of
    act k room out_of_range = stops [] panicked
    act k room spins = stops [] spinning
    act k room (moved s1 v omega) =
        let (s2, frame) = scanned s1 in
        report k s2 frame v omega (is_multiple_of s2.seq scans_per_second) room

    unfoldable pub round_of : Tick → ℕ → Rover t.F64 → Round t
    unfolding steer act
    round_of k room s = act k room (steer f ops turns dt cfg.speed_mps s)

    -- The loop, over the ticks of the timer.
    unfoldable pub drive : List Tick → ℕ → Rover t.F64 → List (CarEvent t) × Ended
    unfolding round_of
    drive [] room s = ([], ticking)
    drive (k ∷ ks) room s = elim (round_of k room s) [
      | stops sent end ↦ (sent, end)
      | goes_on sent left s' ↦ let rest = drive ks left s' in (sent ++ rest.0, rest.1)
    ]

    unfoldable pub at_start : Rover t.F64
    at_start = record {
      rng = 0x5EED;
      x = lit 1 0;
      y = lit 8 1;
      theta = lit 0 0;
      target = 1;
      seq = 0;
      t_ms = 0;
      battery_mv = lit 12400 0;
    }

    -- `run`. Whether the announcement is taken does not matter to it.
    unfoldable pub run : Option ℕ → List Tick → ℕ → List (CarEvent t) × Ended
    unfolding drive at_start
    run clock ticks zero = drive ticks zero at_start
    run clock ticks (suc room) =
        let rest = drive ticks room at_start in
        (now clock cfg.car_id (status (codes "online")) ∷ rest.0, rest.1)
