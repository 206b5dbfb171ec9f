-- ===== src/Pipeline/Car.antt =====
-- What the pipeline promises about one car, without the maps that hold many: a machine with one
-- car's snapshot, map, worker, rate and events, which inputs about other cars do not touch.
use olivaw_hub.Prelude.{
  ◌≡◌, ℕ, ◌+◌, ◌%◌, ◌^◌, Bool, true, false, Option, none, some, List, [], ◌∷◌, ◌++◌, if◌then◌else◌,
}
use olivaw_hub.Text.{Text, text_eq}
use olivaw_hub.Dict.{get}
use olivaw_hub.External.{Types, Floats}
use olivaw_hub.Ingest
use olivaw_hub.Ingest.{CarEvent, EventKind}
use olivaw_hub.Slam.MapPng.{MapSnapshot}
use olivaw_hub.Slam.Worker.{SlamOutput, tracked, map_output, SlamWorker}
use olivaw_hub.State
use olivaw_hub.State.{CarSnapshot, WsEvent, fresh}
use olivaw_hub.Pipeline.{
  Pipeline, CarRate, Input, received, slam_result, stats_tick, with_pose, info_of, rate_hz,
}

pub record Car (t : Types) : Type 0 where
  pub seen : Option (CarSnapshot t)
  pub map : Option (MapSnapshot t)
  pub worker : Option (SlamWorker t)
  pub rate : Option CarRate
  pub events : List (WsEvent t)

unfoldable pub scanned : ℕ → Option CarRate → CarRate
scanned now none = record { window_start = now; scans_in_window = 1 }
scanned now (some r) = record r { scans_in_window = (r.scans_in_window + 1) % 2 ^ 32 }

module _ {t : Types} where
  abbrev pub is_about : Text → WsEvent t → Bool
  is_about j (State.hello _) = false
  is_about j (State.status car _) = text_eq car j
  is_about j (State.telemetry car _ _) = text_eq car j
  is_about j (State.pose car _) = text_eq car j
  is_about j (State.scan car _ _) = text_eq car j
  is_about j (State.map car _) = text_eq car j
  is_about j (State.stats car _ _) = text_eq car j

  abbrev pub events_of : Text → List (WsEvent t) → List (WsEvent t)
  events_of j [] = []
  events_of j (e ∷ es) = if is_about j e then e ∷ events_of j es else events_of j es

  -- What the pipeline holds about the car `j`.
  abbrev pub view : Text → Pipeline t → Car t
  view j s = record {
    seen = get j s.hub.cars;
    map = get j s.hub.maps;
    worker = get j s.workers;
    rate = get j s.rates;
    events = events_of j s.hub.events;
  }

  -- The frame waits in the mailbox of the worker, if there is one or one can be started.
  unfoldable pub handed : Bool → Types.ScanFrame t → Option (SlamWorker t) → Option (SlamWorker t)
  handed starts frame (some w) = some (record { slot = some frame; asleep = false })
  handed true frame none = some (record { slot = some frame; asleep = false })
  handed false frame none = none

module _ {t : Types} (floats : Floats t) (trajectory_len : ℕ) (j : Text) where
  unfoldable pub known : Option (CarSnapshot t) → CarSnapshot t
  known none = fresh floats j
  known (some c) = c

  unfoldable pub hear : ℕ → EventKind t → ℕ → Bool → CarSnapshot t → Car t → Car t
  unfolding handed scanned
  hear at_ms (Ingest.status text) now starts c car =
      let c' : CarSnapshot t = record c { last_seen_ms = at_ms; status = text } in
      let news = if text_eq c.status text then [] else State.status j text ∷ [] in
      record car { seen = some c'; events = car.events ++ news }
  hear at_ms (Ingest.telemetry x) now starts c car =
      let c' : CarSnapshot t = record c { last_seen_ms = at_ms; telemetry = some x } in
      record car { seen = some c'; events = car.events ++ State.telemetry j x at_ms ∷ [] }
  hear at_ms (Ingest.scan frame) now starts c car =
      let c' : CarSnapshot t = record c {
        last_seen_ms = at_ms;
        scans_total = (c.scans_total + 1) % 2 ^ 64;
      } in
      record car {
        seen = some c';
        worker = handed starts frame car.worker;
        rate = some (scanned now car.rate);
      }

  unfoldable pub place : SlamOutput t → CarSnapshot t → Car t → Car t
  place (tracked pose world) c car = record car {
    seen = some (with_pose floats trajectory_len pose world c);
    events = car.events ++ State.pose j pose ∷ State.scan j pose.seq world ∷ [];
  }
  place (map_output m) c car = record car {
    seen = some (record c { map = some (info_of floats j m) });
    map = some m;
    events = car.events ++ State.map j (info_of floats j m) ∷ [];
  }

  unfoldable pub restart : ℕ × ℕ → CarRate → CarSnapshot t → Car t → Car t
  restart clock rate c car =
      let hz = rate_hz floats rate clock.0 in
      record car {
        seen = some (record c { scan_hz = hz });
        rate = some (record { window_start = clock.1; scans_in_window = 0 });
        events = car.events ++ State.stats j hz c.scans_total ∷ [];
      }

  unfoldable pub car_step : Car t → Input t → Car t
  unfolding known hear place restart
  car_step car (received event now starts) =
      if text_eq event.car j
      then hear event.at_ms event.kind now starts (known car.seen) car
      else car
  car_step car (slam_result id output) =
      if text_eq id j then place output (known car.seen) car else car
  car_step car (stats_tick clock) = elim car.rate [
    | none ↦ car
    | some rate ↦ restart (clock j) rate (known car.seen) car
  ]

  unfoldable pub car_run : Car t → List (Input t) → Car t
  unfolding car_step
  car_run car [] = car
  car_run car (i ∷ inputs) = car_run (car_step car i) inputs

  pub car_tick_none :
      (clock : Text → ℕ × ℕ) (v : Car t) → v.rate ≡ none → car_step v (stats_tick clock) ≡ v
  unfolding car_step
  car_tick_none clock v e = rw e

  pub car_tick_some :
      (clock : Text → ℕ × ℕ) (v : Car t) (r : CarRate)
      → v.rate ≡ some r
      → car_step v (stats_tick clock) ≡ restart (clock j) r (known v.seen) v
  unfolding car_step
  car_tick_some clock v r e = rw e
