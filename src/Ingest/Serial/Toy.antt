-- ===== src/Ingest/Serial/Toy.antt =====
-- Frames of two points, in the place of those of olivaw-proto.
use olivaw_hub.Prelude.{
  ℕ, ◌+◌, ◌≤◌, ◌<◌, ◌≡◌, refl, none, some, List, [], ◌∷◌, ◌++◌, length, ltb, if◌then◌else◌, arith,
}
use olivaw_hub.External.{Types, Floats, Proto}
use olivaw_hub.External.Toy.{toy, numbers, toy_topic, toy_parse, toy_number, toy_control}
use olivaw_hub.Ingest.Serial.{Frames}
use olivaw_hub.Ingest.Serial.Frame.{FrameLaws}

-- A frame: its number, its time, the points left out, and its points.
pub record Framed : Type 0 where
  pub number : ℕ
  pub at_ms : ℕ
  pub left_out : ℕ
  pub content : List ℕ

abbrev pub framed : Types
framed = record toy { ScanFrame = Framed }

abbrev pub framed_floats : Floats framed
framed_floats = record {
  f64 = numbers;
  f32 = numbers;
  cell = numbers;
  to_f32 = λ a. a;
  to_f64 = λ a. a;
}

abbrev pub framed_proto : Proto framed
framed_proto = record {
  parse_topic = toy_parse;
  topic = toy_topic;
  telemetry_from_json = toy_number;
  telemetry_to_json = λ n. n ∷ [];
  scan_decode = λ b. some (record { number = 0; at_ms = 0; left_out = 0; content = b });
  scan_encode = λ f. some f.content;
  encode_control = toy_control;
  seq = λ f. f.number;
  t_ms = λ f. f.at_ms;
  points = λ f. f.content;
  is_valid = λ p. ltb 0 p;
  distance_mm = λ p. p;
  angle_deg = λ p. p;
}

abbrev pub frames : Frames framed
frames = record {
  empty = λ seq at. record { number = seq; at_ms = at; left_out = 0; content = [] };
  push = λ f x.
      if ltb (length f.content) 2 then some (record f { content = f.content ++ x ∷ [] }) else none;
  dropped = λ f. f.left_out;
  set_dropped = λ n f. record f { left_out = n };
  max_dropped = 65535;
  scan_point = λ angle distance quality. angle + distance;
  lidar_telemetry = λ uptime. uptime;
}

pub push_room :
    (f : Framed) (x : ℕ)
    → length f.content < 2
    → (f' : Framed) × (Frames.push frames f x ≡ some f')
      × (f'.content ≡ f.content ++ x ∷ [])
      × (f'.left_out ≡ f.left_out)
      × (f'.number ≡ f.number)
push_room f x h = (record f { content = f.content ++ x ∷ [] }, ground arith, refl, refl, refl)

pub push_full : (f : Framed) (x : ℕ) → 2 ≤ length f.content → Frames.push frames f x ≡ none
push_full f x h = ground arith

unfoldable pub laws : FrameLaws framed_proto frames
laws = record {
  capacity = 2;
  points_empty = λ seq at. refl;
  dropped_empty = λ seq at. refl;
  seq_empty = λ seq at. refl;
  push_room = push_room;
  push_full = push_full;
  points_dropped = λ n f. refl;
  dropped_dropped = λ n f. refl;
  seq_dropped = λ n f. refl;
}
