-- ===== src/Pipeline/Listed.antt =====
-- The list of cars that the API serves, after any run.
use olivaw_hub.Prelude.{
  ℕ, ◌+◌, ◌%◌, ◌^◌, ◌≡◌, refl, sym, subst, arith, ap, ◌∙◌, inl, inr, Bool, not, Option, some, List,
  [], ◌∷◌, Bool-cases,
}
use olivaw_hub.Text.{Text, text_eq}
use olivaw_hub.External.{Types, Floats}
use olivaw_hub.Config.{HubConfig}
use olivaw_hub.Ingest
use olivaw_hub.Ingest.{EventKind}
use olivaw_hub.Ingest.Mqtt.{Commander}
use olivaw_hub.Postcard.{Postcard}
use olivaw_hub.Session.Recorder.{Recorder}
use olivaw_hub.Slam.Worker.{SlamOutput, tracked, map_output}
use olivaw_hub.State
use olivaw_hub.State.{CarSnapshot, Hub, car_or_new, update_car, emit, snapshots}
use olivaw_hub.State.Cars.{IsWellFormed, update_car-IsWellFormed}
use olivaw_hub.State.Snapshots.{IsAscending, find, snapshots-find}
use olivaw_hub.Dict.{Dict, insert}
use olivaw_hub.Pipeline.{
  Pipeline, CarRate, Input, received, slam_result, stats_tick, on_status, on_telemetry, count_scan,
  on_scan, on_kind, on_event, info_of, with_pose, on_slam, rate_hz, tick, step, record_event, run,
  init,
}
use olivaw_hub.Pipeline.Car.{view, car_run}
use olivaw_hub.Pipeline.Machine.{view-run}
use olivaw_hub.Pipeline.Counts.{IsSound-init}

module _ {t : Types} (floats : Floats t) where
  on_kind-IsWellFormed :
      (car : Text) (at_ms : ℕ) (kind : EventKind t) (now : ℕ) (starts : Bool) (s : Pipeline t)
      → IsWellFormed s.hub
      → IsWellFormed (on_kind floats car at_ms kind now starts s).hub
  unfolding on_kind on_status on_telemetry on_scan count_scan emit
  on_kind-IsWellFormed car at_ms (Ingest.status text) now starts s v =
      let done =
        update_car-IsWellFormed floats s.hub car (λ c. record c { status = text }) (λ c. refl) v in
      elim (Bool-cases (not (text_eq (car_or_new floats s.hub car).status text))) [
        | inl changed ↦ rw changed done
        | inr same ↦ rw same done
      ]
  on_kind-IsWellFormed car at_ms (Ingest.telemetry x) now starts s v =
      update_car-IsWellFormed floats s.hub car (λ c. record c { telemetry = some x }) (λ c. refl) v
  on_kind-IsWellFormed car at_ms (Ingest.scan frame) now starts s v =
      let f : CarSnapshot t → CarSnapshot t =
        λ c. record c { scans_total = (c.scans_total + 1) % 2 ^ 64 } in
      let same : (on_scan floats car frame now starts s).hub ≡ update_car floats s.hub car f =
        ground arith in
      subst IsWellFormed (sym same) (update_car-IsWellFormed floats s.hub car f (λ c. refl) v)

  on_slam-IsWellFormed :
      (car : Text) (output : SlamOutput t) (hub : Hub t)
      → IsWellFormed hub
      → IsWellFormed (on_slam floats car output hub)
  unfolding on_slam with_pose emit
  on_slam-IsWellFormed car (tracked pose world) hub v =
      update_car-IsWellFormed floats hub car
        (with_pose floats hub.cfg.slam.trajectory_len pose world) (λ c. refl) v
  on_slam-IsWellFormed car (map_output m) hub v =
      update_car-IsWellFormed floats (record hub { maps = insert car m hub.maps }) car
        (λ c. record c { map = some (info_of floats car m) }) (λ c. refl) v

  tick-IsWellFormed :
      (clock : Text → ℕ × ℕ) (rates : Dict CarRate) (hub : Hub t)
      → IsWellFormed hub
      → IsWellFormed (tick floats clock rates hub).0
  unfolding tick emit
  tick-IsWellFormed clock [] hub v = v
  tick-IsWellFormed clock ((car, r) ∷ rates) hub v =
      let hz = rate_hz floats r (clock car).0 in
      let f : CarSnapshot t → CarSnapshot t = λ c. record c { scan_hz = hz } in
      tick-IsWellFormed clock rates
        (emit (update_car floats hub car f)
          (State.stats car hz (car_or_new floats hub car).scans_total))
        (update_car-IsWellFormed floats hub car f (λ c. refl) v)

  module _ (codec : Postcard t) where
    step-IsWellFormed :
        (s : Pipeline t) (i : Input t)
        → IsWellFormed s.hub
        → IsWellFormed (step floats codec s i).hub
    unfolding step on_event
    step-IsWellFormed s (received e now starts) v =
        let f : CarSnapshot t → CarSnapshot t = λ c. record c { last_seen_ms = e.at_ms } in
        on_kind-IsWellFormed e.car e.at_ms e.kind now starts
          (record s {
            hub = update_car floats s.hub e.car f;
            recorder = record_event floats codec e s.recorder;
          })
          (update_car-IsWellFormed floats s.hub e.car f (λ c. refl) v)
    step-IsWellFormed s (slam_result car output) v = on_slam-IsWellFormed car output s.hub v
    step-IsWellFormed s (stats_tick clock) v = tick-IsWellFormed clock s.rates s.hub v

    pub run-IsWellFormed :
        (s : Pipeline t) (inputs : List (Input t))
        → IsWellFormed s.hub
        → IsWellFormed (run floats codec s inputs).hub
    unfolding run
    run-IsWellFormed s [] v = v
    run-IsWellFormed s (i ∷ inputs) v =
        run-IsWellFormed (step floats codec s i) inputs (step-IsWellFormed s i v)

    -- After any run from the start of the hub, the cars that the API lists are ascending by id with
    -- no id twice, and the snapshot listed for a car, if there is one, is exactly the one that the
    -- machine of that car alone arrives at.
    pub snapshots-run :
        (cfg : HubConfig t) (commander : Commander) (recorder : Option Recorder)
        (inputs : List (Input t))
        → let s = init cfg commander recorder in
          let listed = snapshots (run floats codec s inputs).hub in
          IsAscending listed
          × ((j : Text)
              → find j listed ≡ (car_run floats cfg.slam.trajectory_len j (view j s) inputs).seen)
    unfolding init State.new
    snapshots-run cfg commander recorder inputs =
        let s = init cfg commander recorder in
        let n = cfg.slam.trajectory_len in
        let (up, found) =
          snapshots-find (run floats codec s inputs).hub (run-IsWellFormed s inputs tt) in
        (
          up,
          λ j.
              found j
              ∙ ap (λ v. v.seen)
                  (view-run floats codec n j s inputs (IsSound-init floats cfg commander recorder)),
        )
