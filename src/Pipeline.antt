-- ===== src/Pipeline.antt =====
-- src/pipeline.rs: the fan-in of `CarEvent`s, SLAM results and the statistics timer. Each branch of
-- `tokio::select!` is one step; a list of inputs is the order in which the branches were taken.
-- Instants are nanoseconds, read where the code reads the clock.
pub mod Car
pub mod Others
pub mod Ticks
pub mod Refines
pub mod Sound
pub mod Machine
pub mod Counts
pub mod Trajectory
pub mod Maps
pub mod History
pub mod Listed
pub mod Recording
pub mod Replayed
mod Tests
use olivaw_hub.Prelude.{
  ℕ, suc, ◌+◌, ◌-◌, ◌/◌, ◌%◌, ◌^◌, Bool, true, false, not, Option, none, some, List, [], ◌∷◌, ◌++◌,
  foldl, ltb, if◌then◌else◌, length, drop,
}
use olivaw_hub.Text.{Text, Bytes, codes, text_eq}
use olivaw_hub.Text.Decimal.{decimal}
use olivaw_hub.Dict.{Dict, get, insert, contains_key, entry_or}
use olivaw_hub.External.{Types, FloatOps, Floats, Proto}
use olivaw_hub.Ingest
use olivaw_hub.Ingest.{CarEvent, EventKind}
use olivaw_hub.Config.{HubConfig}
use olivaw_hub.Ingest.Mqtt.{Commander}
use olivaw_hub.Postcard.{Postcard}
use olivaw_hub.Session.Recorder.{Recorder, write, close}
use olivaw_hub.Slam.MapPng.{MapSnapshot}
use olivaw_hub.Slam.Worker.{SlamOutput, tracked, map_output, SlamWorker, submit}
use olivaw_hub.State
use olivaw_hub.State.{CarSnapshot, Hub, MapInfo, PoseInfo, WsEvent, car_or_new, update_car, emit}

pub record CarRate : Type 0 where
  pub window_start : ℕ
  pub scans_in_window : ℕ

-- The locals of `run`, and what it shares.
pub record Pipeline (t : Types) : Type 0 where
  pub hub : Hub t
  pub workers : Dict (SlamWorker t)
  pub rates : Dict CarRate
  pub recorder : Option Recorder

-- A thread's mailbox is empty when it starts; the system may refuse to start one.
unfoldable pub spawn : {t : Types} → Bool → Option (SlamWorker t)
spawn starts = if starts then some (record { slot = none; asleep = false }) else none

unfoldable pub map_url : Text → ℕ → Text
map_url car version = codes "/api/cars/" ++ (car ++ (codes "/map.png?v=" ++ decimal version))

-- `drain(..excess)`: the oldest entries beyond `n` go.
unfoldable pub keep_last {ℓ} : {A : Type ℓ} → ℕ → List A → List A
keep_last n l = if ltb n (length l) then drop (length l - n) l else l

-- `Duration::as_secs_f32`, of nanoseconds.
unfoldable pub as_secs_f32 : {t : Types} → Floats t → ℕ → Types.F32 t
as_secs_f32 floats d =
    let f32 = Floats.f32 floats in
    FloatOps.plus f32 (FloatOps.of_int f32 (d / 10 ^ 9))
      (FloatOps.over f32 (FloatOps.of_int f32 (d % 10 ^ 9)) (FloatOps.lit f32 1000000000 0))

module _ {t : Types} (floats : Floats t) where
  unfoldable pub on_status : Text → Text → Pipeline t → Pipeline t
  on_status car status s =
      let changed = not (text_eq (car_or_new floats s.hub car).status status) in
      let hub = update_car floats s.hub car (λ c. record c { status = status }) in
      if changed
      then record s { hub = emit hub (State.status car status) }
      else record s { hub = hub }

  unfoldable pub on_telemetry : Text → t.Telemetry → ℕ → Pipeline t → Pipeline t
  on_telemetry car x at_ms s =
      let hub = update_car floats s.hub car (λ c. record c { telemetry = some x }) in
      record s { hub = emit hub (State.telemetry car x at_ms) }

  unfoldable pub count_scan : Text → ℕ → Pipeline t → Pipeline t
  count_scan car now s =
      let hub =
        update_car floats s.hub car
          (λ c. record c { scans_total = (c.scans_total + 1) % 2 ^ 64 }) in
      let rate = entry_or car (record { window_start = now; scans_in_window = 0 }) s.rates in
      let rate' : CarRate = record rate { scans_in_window = (rate.scans_in_window + 1) % 2 ^ 32 } in
      record s { hub = hub; rates = insert car rate' s.rates }

  -- A worker for a car without one; `none` is the early return where none can be started.
  unfoldable pub ensure_worker : Text → Bool → Dict (SlamWorker t) → Option (Dict (SlamWorker t))
  ensure_worker car starts workers =
      if contains_key car workers
      then some workers
      else elim (spawn starts) [ none ↦ none | some w ↦ some (insert car w workers) ]

  unfoldable pub submit_to : Text → t.ScanFrame → Dict (SlamWorker t) → Dict (SlamWorker t)
  submit_to car frame workers = elim (get car workers) [
    | none ↦ workers
    | some w ↦ insert car (submit w frame) workers
  ]

  unfoldable pub on_scan : Text → t.ScanFrame → ℕ → Bool → Pipeline t → Pipeline t
  on_scan car frame now starts s =
      let counted = count_scan car now s in
      elim (ensure_worker car starts counted.workers) [
        | none ↦ counted
        | some workers ↦ record counted { workers = submit_to car frame workers }
      ]

  unfoldable pub on_kind : Text → ℕ → EventKind t → ℕ → Bool → Pipeline t → Pipeline t
  on_kind car at_ms (Ingest.status status) now starts s = on_status car status s
  on_kind car at_ms (Ingest.telemetry x) now starts s = on_telemetry car x at_ms s
  on_kind car at_ms (Ingest.scan frame) now starts s = on_scan car frame now starts s

  unfoldable pub on_event : CarEvent t → ℕ → Bool → Pipeline t → Pipeline t
  on_event event now starts s =
      let hub = update_car floats s.hub event.car (λ c. record c { last_seen_ms = event.at_ms }) in
      on_kind event.car event.at_ms event.kind now starts (record s { hub = hub })

  unfoldable pub info_of : Text → MapSnapshot t → MapInfo t
  info_of car m = record {
    version = m.version;
    url = map_url car m.version;
    origin = m.origin;
    resolution = m.resolution;
    width = m.width;
    height = m.height;
  }

  unfoldable pub with_pose : ℕ → PoseInfo t → List (t.F32 × t.F32) → CarSnapshot t → CarSnapshot t
  with_pose trajectory_len pose world c =
      let point : t.F32 × t.F32 = (Floats.to_f32 floats pose.x, Floats.to_f32 floats pose.y) in
      record c {
        pose = some pose;
        trajectory = keep_last trajectory_len (c.trajectory ++ point ∷ []);
        scan = world;
      }

  unfoldable pub on_slam : Text → SlamOutput t → Hub t → Hub t
  on_slam car (tracked pose world) hub =
      let hub' = update_car floats hub car (with_pose hub.cfg.slam.trajectory_len pose world) in
      emit (emit hub' (State.pose car pose)) (State.scan car pose.seq world)
  on_slam car (map_output m) hub =
      let info = info_of car m in
      let hub' = record hub { maps = insert car m hub.maps } in
      emit (update_car floats hub' car (λ c. record c { map = some info })) (State.map car info)

  -- The rate over a window that was opened at `start` and is read at `now`.
  unfoldable pub rate_hz : CarRate → ℕ → t.F32
  unfolding as_secs_f32
  rate_hz rate now =
      let f32 = Floats.f32 floats in
      FloatOps.over f32 (FloatOps.of_int f32 rate.scans_in_window)
        (FloatOps.maximum f32 (as_secs_f32 floats (now - rate.window_start)) (FloatOps.lit f32 1 3))

  -- The loop of the timer's branch. `clock car` are the two readings made for a car.
  unfoldable pub tick : (Text → ℕ × ℕ) → Dict CarRate → Hub t → Hub t × Dict CarRate
  tick clock [] hub = (hub, [])
  tick clock ((car, rate) ∷ rates) hub =
      let (now, restart) = clock car in
      let hz = rate_hz rate now in
      let hub' = update_car floats hub car (λ c. record c { scan_hz = hz }) in
      let total = (car_or_new floats hub car).scans_total in
      let (done, rest) = tick clock rates (emit hub' (State.stats car hz total)) in
      (done, (car, record { window_start = restart; scans_in_window = 0 }) ∷ rest)

-- What a branch of `select!` receives: an event, with the clock and the answer to a request for a
-- thread, the result of a car's worker, or the timer's tick.
pub data Input (t : Types) : Type 0 where
  received : CarEvent t → ℕ → Bool → Input t
  slam_result : Text → SlamOutput t → Input t
  stats_tick : (Text → ℕ × ℕ) → Input t

module _ {t : Types} (floats : Floats t) (codec : Postcard t) where
  -- An event that cannot be recorded is handled all the same.
  unfoldable pub record_event : CarEvent t → Option Recorder → Option Recorder
  record_event event none = none
  record_event event (some r) = some (write codec r event).0

  unfoldable pub step : Pipeline t → Input t → Pipeline t
  step s (received event now starts) =
      on_event floats event now starts (record s { recorder = record_event event s.recorder })
  step s (slam_result car output) = record s { hub = on_slam floats car output s.hub }
  step s (stats_tick clock) =
      let (hub, rates) = tick floats clock s.rates s.hub in record s { hub = hub; rates = rates }

  unfoldable pub run : Pipeline t → List (Input t) → Pipeline t
  unfolding step
  run s [] = s
  run s (i ∷ inputs) = run (step s i) inputs

-- `run` before its first input.
unfoldable pub init : {t : Types} → HubConfig t → Commander → Option Recorder → Pipeline t
init cfg commander recorder = record {
  hub = State.new cfg commander;
  workers = [];
  rates = [];
  recorder = recorder;
}

-- What is left of the recording once the loop has ended and `run` drops its locals.
unfoldable pub recorded_file : {t : Types} → Pipeline t → Option Bytes
recorded_file s = elim s.recorder [ none ↦ none | some r ↦ some (close r).out.file ]
