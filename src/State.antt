-- ===== src/State.antt =====
-- src/state.rs: what the API serves. The two locks guard every access and a poisoned one is entered
-- all the same, so a `Hub` is a plain value here and each method one atomic step on it.
pub mod Cars
pub mod Snapshots
mod Tests
use olivaw_hub.Prelude.{ℕ, Bool, Option, none, some, List, [], ◌∷◌, ◌++◌, if◌then◌else◌}
use olivaw_hub.Text.{Text, Bytes, codes}
use olivaw_hub.Text.Order.{text_le}
use olivaw_hub.Dict.{Dict, insert, entry_or}
use olivaw_hub.External.{Types, FloatOps, Floats}
use olivaw_hub.Config.{HubConfig}
use olivaw_hub.Ingest.Mqtt.{Commander}
use olivaw_hub.Slam.MapPng.{MapSnapshot}

pub record PoseInfo (t : Types) : Type 0 where
  pub x : t.F64
  pub y : t.F64
  pub theta : t.F64
  pub seq : ℕ
  pub match_ms : t.F32
  pub keyframes : ℕ
  pub loops : ℕ

pub record MapInfo (t : Types) : Type 0 where
  pub version : ℕ
  pub url : Text
  pub origin : t.F64 × t.F64
  pub resolution : t.F64
  pub width : ℕ
  pub height : ℕ

pub record CarSnapshot (t : Types) : Type 0 where
  pub id : Text
  pub status : Text
  pub telemetry : Option t.Telemetry
  pub pose : Option (PoseInfo t)
  pub trajectory : List (t.F32 × t.F32)
  pub scan : List (t.F32 × t.F32)
  pub map : Option (MapInfo t)
  pub last_seen_ms : ℕ
  pub scans_total : ℕ
  pub scan_hz : t.F32

pub data WsEvent (t : Types) : Type 0 where
  hello : List (CarSnapshot t) → WsEvent t
  status : Text → Text → WsEvent t
  telemetry : Text → Types.Telemetry t → ℕ → WsEvent t
  pose : Text → PoseInfo t → WsEvent t
  scan : Text → ℕ → List (Types.F32 t × Types.F32 t) → WsEvent t
  map : Text → MapInfo t → WsEvent t
  stats : Text → Types.F32 t → ℕ → WsEvent t

-- `events` holds what was sent on the broadcast channel, oldest first.
pub record Hub (t : Types) : Type 0 where
  pub cfg : HubConfig t
  pub cars : Dict (CarSnapshot t)
  pub maps : Dict (MapSnapshot t)
  pub events : List (WsEvent t)
  pub commander : Commander

module _ {t : Types} where
  unfoldable pub fresh : Floats t → Text → CarSnapshot t
  fresh floats id = record {
    id = id;
    status = codes "unknown";
    telemetry = none;
    pose = none;
    trajectory = [];
    scan = [];
    map = none;
    last_seen_ms = 0;
    scans_total = 0;
    scan_hz = FloatOps.lit floats.f32 0 0;
  }

  unfoldable pub new : HubConfig t → Commander → Hub t
  new cfg commander = record { cfg = cfg; cars = []; maps = []; events = []; commander = commander }

  -- The snapshot that `f` of `update_car` is given.
  unfoldable pub car_or_new : Floats t → Hub t → Text → CarSnapshot t
  car_or_new floats hub id = entry_or id (fresh floats id) hub.cars

  unfoldable pub update_car : Floats t → Hub t → Text → (CarSnapshot t → CarSnapshot t) → Hub t
  update_car floats hub id f = record hub {
    cars = insert id (f (car_or_new floats hub id)) hub.cars;
  }

  insert_sorted : CarSnapshot t → List (CarSnapshot t) → List (CarSnapshot t)
  insert_sorted c [] = c ∷ []
  insert_sorted c (d ∷ l) = if text_le c.id d.id then c ∷ d ∷ l else d ∷ insert_sorted c l

  -- `values().cloned().collect()` and the stable `sort_by` on the ids.
  unfoldable pub sort_cars : Dict (CarSnapshot t) → List (CarSnapshot t)
  unfolding insert_sorted
  sort_cars [] = []
  sort_cars ((_, c) ∷ m) = insert_sorted c (sort_cars m)

  unfoldable pub snapshots : Hub t → List (CarSnapshot t)
  unfolding sort_cars
  snapshots hub = sort_cars hub.cars

  unfoldable pub emit : Hub t → WsEvent t → Hub t
  emit hub event = record hub { events = hub.events ++ event ∷ [] }
