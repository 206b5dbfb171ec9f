-- ===== src/External.antt =====
-- What the hub takes from outside its own sources: the floating-point types, and the data types and
-- functions of olivaw-proto, olivaw-slam, postcard and the png crate. None of these has a definition
-- here: a theorem that needs more than their types has a hypothesis that says what it needs.
pub mod Toy
use olivaw_hub.Prelude.{ℕ, ◌^◌, ◌<◌, ◌≡◌, Bool, Option, some, List}
use olivaw_hub.Text.{Text, Bytes}

-- The types. `Cell` is the log-odds number of an occupancy grid.
pub record Types : Type 1 where
  pub F64 : Type 0
  pub F32 : Type 0
  pub Cell : Type 0
  pub Telemetry : Type 0
  pub ScanFrame : Type 0
  pub ScanPoint : Type 0
  pub Point2 : Type 0
  pub Pose2 : Type 0
  pub Grid : Type 0
  pub Slam : Type 0

-- One floating-point type. `lit m d` is the literal m / 10 ^ d, and `to_uint w` the cast `as uw`.
pub record FloatOps (A : Type 0) : Type 0 where
  pub lit : ℕ → ℕ → A
  pub of_int : ℕ → A
  pub neg : A → A
  pub plus : A → A → A
  pub minus : A → A → A
  pub times : A → A → A
  pub over : A → A → A
  pub exp : A → A
  pub cos : A → A
  pub sin : A → A
  pub to_radians : A → A
  pub round : A → A
  pub clamp : A → A → A → A
  pub maximum : A → A → A
  pub to_uint : ℕ → A → ℕ

-- A cast to an unsigned type saturates, so its result is in range.
pub record CastLaws {A : Type 0} (f : FloatOps A) : Type 0 where
  pub in_range : (w : ℕ) (x : A) → FloatOps.to_uint f w x < 2 ^ w

pub record Floats (t : Types) : Type 0 where
  pub f64 : FloatOps t.F64
  pub f32 : FloatOps t.F32
  pub cell : FloatOps t.Cell
  pub to_f32 : t.F64 → t.F32
  pub to_f64 : t.F32 → t.F64

-- The channels of `olivaw_proto::topics`, as the hub matches on them.
pub data Channel : Type 0 where
  status telemetry scan cmd : Channel

-- The opcodes of `olivaw_proto::Control` that the hub sends.
pub data Control : Type 0 where
  e_stop clear lidar_on lidar_off : Control
  set_max_duty : ℕ → Control

pub record Proto (t : Types) : Type 0 where
  pub parse_topic : Text → Option (Text × Channel)
  pub topic : Text → Channel → Option Text
  pub telemetry_from_json : Bytes → Option t.Telemetry
  pub telemetry_to_json : t.Telemetry → Bytes
  pub scan_decode : Bytes → Option t.ScanFrame
  pub scan_encode : t.ScanFrame → Option Bytes
  pub encode_control : Control → Bytes
  pub seq : t.ScanFrame → ℕ
  pub t_ms : t.ScanFrame → ℕ
  pub points : t.ScanFrame → List t.ScanPoint
  pub is_valid : t.ScanPoint → Bool
  pub distance_mm : t.ScanPoint → t.F32
  pub angle_deg : t.ScanPoint → t.F32

-- What the hub relies on: a topic that was built parses to its parts, and what was encoded decodes.
pub record ProtoLaws {t : Types} (p : Proto t) : Type 0 where
  pub parse-topic :
      (car : Text) (ch : Channel) (s : Text)
      → Proto.topic p car ch ≡ some s
      → Proto.parse_topic p s ≡ some (car, ch)
  pub telemetry_back :
      (x : t.Telemetry) → Proto.telemetry_from_json p (Proto.telemetry_to_json p x) ≡ some x
  pub scan_back :
      (f : t.ScanFrame) (b : Bytes)
      → Proto.scan_encode p f ≡ some b
      → Proto.scan_decode p b ≡ some f

-- `olivaw_slam::ScanCloud`.
pub record ScanCloud (t : Types) : Type 0 where
  pub points : List t.Point2
  pub timestamp_ns : ℕ

-- The engine of olivaw-slam. A scan that it rejects may have changed it all the same.
pub record SlamLib (t : Types) : Type 0 where
  pub new_slam : Option t.Slam
  pub process_scan : t.Slam → ScanCloud t → t.Slam × Option t.Pose2
  pub keyframes : t.Slam → ℕ
  pub loops_closed : t.Slam → ℕ
  pub grid : t.Slam → t.Grid
  pub new_point : t.F64 → t.F64 → t.Point2
  pub point_x : t.Point2 → t.F64
  pub point_y : t.Point2 → t.F64
  pub pose_x : t.Pose2 → t.F64
  pub pose_y : t.Pose2 → t.F64
  pub theta : t.Pose2 → t.F64
  pub transform_point : t.Pose2 → t.Point2 → t.Point2
