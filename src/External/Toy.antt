-- ===== src/External/Toy.antt =====
-- Small concrete functions in the place of the external ones, for tests and witnesses.
use olivaw_hub.Prelude.{
  List, length, ltb, ℕ, suc, ◌+◌, ◌-◌, ◌*◌, ◌/◌, ◌%◌, ◌^◌, min, max, ◌≡◌, refl, Option, none, some,
  [], ◌∷◌, arith, if◌then◌else◌, ◌==◌,
}
use olivaw_hub.Text.{Text, Bytes}
use olivaw_hub.External.{
  Types, FloatOps, Floats, ScanCloud, SlamLib, Channel, Control, Proto, ProtoLaws,
}

abbrev pub toy : Types
toy = record {
  F64 = ℕ;
  F32 = ℕ;
  Cell = ℕ;
  Telemetry = ℕ;
  ScanFrame = List ℕ;
  ScanPoint = ℕ;
  Point2 = ℕ;
  Pose2 = ℕ;
  Grid = ℕ;
  Slam = ℕ;
}

abbrev pub numbers : FloatOps ℕ
numbers = record {
  lit = λ m d. m / 10 ^ d;
  of_int = λ n. n;
  neg = λ a. a;
  plus = λ a b. a + b;
  minus = λ a b. a - b;
  times = λ a b. a * b;
  over = λ a b. a / b;
  exp = λ a. a;
  cos = λ a. a;
  sin = λ a. a;
  to_radians = λ a. a;
  round = λ a. a;
  clamp = λ a lo hi. max lo (min hi a);
  maximum = λ a b. max a b;
  to_uint = λ w a. a % 2 ^ w;
}

abbrev pub toy_floats : Floats toy
toy_floats = record {
  f64 = numbers;
  f32 = numbers;
  cell = numbers;
  to_f32 = λ a. a;
  to_f64 = λ a. a;
}

-- A topic is a letter for the channel and the car's id.
abbrev letter : Channel → ℕ
letter Channel.status = 1
letter Channel.telemetry = 2
letter Channel.scan = 3
letter Channel.cmd = 4

abbrev pub toy_topic : Text → Channel → Option Text
toy_topic car ch = some (letter ch ∷ car)

abbrev pub toy_parse : Text → Option (Text × Channel)
toy_parse [] = none
toy_parse (c ∷ car) =
    if c == 1
    then some (car, Channel.status)
    else if c == 2
    then some (car, Channel.telemetry)
    else if c == 3
    then some (car, Channel.scan)
    else if c == 4
    then some (car, Channel.cmd)
    else none

-- One byte for a telemetry sample.
abbrev pub toy_number : Bytes → Option ℕ
toy_number (n ∷ []) = some n
toy_number _ = none

abbrev pub toy_control : Control → Bytes
toy_control Control.e_stop = 0x01 ∷ []
toy_control Control.clear = 0x02 ∷ []
toy_control Control.lidar_on = 0x10 ∷ []
toy_control Control.lidar_off = 0x11 ∷ []
toy_control (Control.set_max_duty n) = 0x30 ∷ n % 256 ∷ n / 256 ∷ []

abbrev pub toy_proto : Proto toy
toy_proto = record {
  parse_topic = toy_parse;
  topic = toy_topic;
  telemetry_from_json = toy_number;
  telemetry_to_json = λ n. n ∷ [];
  scan_decode = λ b. some b;
  scan_encode = λ f. some f;
  encode_control = toy_control;
  seq = λ f. length f;
  t_ms = λ f. length f;
  points = λ f. f;
  is_valid = λ p. ltb 0 p;
  distance_mm = λ p. p;
  angle_deg = λ p. p;
}

toy_parse-topic :
    (car : Text) (ch : Channel) (s : Text)
    → toy_topic car ch ≡ some s
    → toy_parse s ≡ some (car, ch)
toy_parse-topic car Channel.status s h = ground arith
toy_parse-topic car Channel.telemetry s h = ground arith
toy_parse-topic car Channel.scan s h = ground arith
toy_parse-topic car Channel.cmd s h = ground arith

toy_scan_back : (f : List ℕ) (b : Bytes) → some f ≡ some b → some b ≡ some f
toy_scan_back f b h = ground arith

pub toy_proto_laws : ProtoLaws toy_proto
toy_proto_laws = record {
  parse-topic = toy_parse-topic;
  telemetry_back = λ x. refl;
  scan_back = toy_scan_back;
}

-- A pose is the number of scans that were processed.
abbrev toy_process : ℕ → ScanCloud toy → ℕ × Option ℕ
toy_process slam cloud = (suc slam, some (suc slam))

abbrev pub toy_slam : SlamLib toy
toy_slam = record {
  new_slam = some 0;
  process_scan = toy_process;
  keyframes = λ s. s;
  loops_closed = λ s. 0;
  grid = λ s. 2;
  new_point = λ x y. x;
  point_x = λ p. p;
  point_y = λ p. p;
  pose_x = λ p. p;
  pose_y = λ p. p;
  theta = λ p. p;
  transform_point = λ p q. p + q;
}
