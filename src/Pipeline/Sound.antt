-- ===== src/Pipeline/Sound.antt =====
-- What every branch of the loop keeps: a rate stands once for each car, and the configuration.
use olivaw_hub.Prelude.{ℕ, ◌+◌, ◌%◌, ◌^◌, ◌≡◌, refl, sym, ap, ◌∙◌, subst, Bool, [], ◌∷◌, arith}
use olivaw_hub.Text.{Text}
use olivaw_hub.Dict.{Dict, insert, entry_or, insert-IsMap, IsMap}
use olivaw_hub.External.{Types, Floats}
use olivaw_hub.Ingest
use olivaw_hub.Ingest.{CarEvent, EventKind}
use olivaw_hub.Postcard.{Postcard}
use olivaw_hub.Slam.Worker.{SlamOutput, tracked, map_output}
use olivaw_hub.State
use olivaw_hub.State.{CarSnapshot, Hub, car_or_new, update_car, emit}
use olivaw_hub.Pipeline.{
  Pipeline, CarRate, Input, received, slam_result, stats_tick, on_status, on_telemetry, count_scan,
  on_scan, on_kind, on_event, on_slam, rate_hz, tick, step, record_event,
}
use olivaw_hub.Pipeline.Ticks.{tick_absent}

module _ {t : Types} (floats : Floats t) where
  -- The trajectory of the configuration has `n` points at most.
  pub record IsSound (n : ℕ) (s : Pipeline t) : Type 0 where
    pub rates : IsMap s.rates
    pub configured : s.hub.cfg.slam.trajectory_len ≡ n

  cfg-on_kind :
      (car : Text) (at_ms : ℕ) (kind : EventKind t) (now : ℕ) (starts : Bool) (s : Pipeline t)
      → (on_kind floats car at_ms kind now starts s).hub.cfg ≡ s.hub.cfg
  unfolding on_kind on_status on_telemetry on_scan count_scan update_car emit
  cfg-on_kind car at_ms (Ingest.status text) now starts s = ground arith
  cfg-on_kind car at_ms (Ingest.telemetry x) now starts s = ground arith
  cfg-on_kind car at_ms (Ingest.scan frame) now starts s = ground arith

  rates-on_kind :
      (car : Text) (at_ms : ℕ) (kind : EventKind t) (now : ℕ) (starts : Bool) (s : Pipeline t)
      → IsMap s.rates
      → IsMap (on_kind floats car at_ms kind now starts s).rates
  unfolding on_kind on_status on_telemetry on_scan count_scan entry_or
  rates-on_kind car at_ms (Ingest.status text) now starts s m =
      let same : (on_status floats car text s).rates ≡ s.rates = ground arith in
      subst IsMap (sym same) m
  rates-on_kind car at_ms (Ingest.telemetry x) now starts s m = m
  rates-on_kind car at_ms (Ingest.scan frame) now starts s m =
      let r = entry_or car (record { window_start = now; scans_in_window = 0 }) s.rates in
      let r' : CarRate = record r { scans_in_window = (r.scans_in_window + 1) % 2 ^ 32 } in
      let same : (on_scan floats car frame now starts s).rates ≡ insert car r' s.rates =
        ground arith in
      subst IsMap (sym same) (insert-IsMap car r' s.rates m)

  cfg-on_slam :
      (car : Text) (output : SlamOutput t) (hub : Hub t)
      → (on_slam floats car output hub).cfg ≡ hub.cfg
  unfolding on_slam update_car emit
  cfg-on_slam car (tracked pose world) hub = refl
  cfg-on_slam car (map_output m) hub = refl

  -- The loop looks each car up by its own key: a run of it on a pipeline that holds just the hub.
  tick-IsMap :
      (clock : Text → ℕ × ℕ) (rates : Dict CarRate) (s : Pipeline t)
      → IsMap rates
      → IsMap (tick floats clock rates s.hub).1
  unfolding tick
  tick-IsMap clock [] s m = m
  tick-IsMap clock ((car, r) ∷ rates) s m =
      let hz = rate_hz floats r (clock car).0 in
      let hub =
        emit (update_car floats s.hub car (λ c. record c { scan_hz = hz }))
          (State.stats car hz (car_or_new floats s.hub car).scans_total) in
      (
        (tick_absent floats car clock rates (record s { hub = hub }) m.0).1,
        tick-IsMap clock rates (record s { hub = hub }) m.1,
      )

  cfg-tick :
      (clock : Text → ℕ × ℕ) (rates : Dict CarRate) (hub : Hub t)
      → (tick floats clock rates hub).0.cfg ≡ hub.cfg
  unfolding tick update_car emit
  cfg-tick clock [] hub = refl
  cfg-tick clock ((car, r) ∷ rates) hub =
      let hz = rate_hz floats r (clock car).0 in
      cfg-tick clock rates (
        emit (update_car floats hub car (λ c. record c { scan_hz = hz }))
          (State.stats car hz (car_or_new floats hub car).scans_total))

  pub step-IsSound :
      (codec : Postcard t) (n : ℕ) (s : Pipeline t) (i : Input t)
      → IsSound n s
      → IsSound n (step floats codec s i)
  unfolding step on_event update_car
  step-IsSound codec n s (received event now starts) sound =
      let f : CarSnapshot t → CarSnapshot t = λ c. record c { last_seen_ms = event.at_ms } in
      let s' : Pipeline t = record s {
        hub = update_car floats s.hub event.car f;
        recorder = record_event floats codec event s.recorder;
      } in
      record {
        rates = rates-on_kind event.car event.at_ms event.kind now starts s' sound.rates;
        configured =
            ap (λ c. c.slam.trajectory_len)
              (cfg-on_kind event.car event.at_ms event.kind now starts s')
            ∙ sound.configured;
      }
  step-IsSound codec n s (slam_result car output) sound = record {
    rates = sound.rates;
    configured = ap (λ c. c.slam.trajectory_len) (cfg-on_slam car output s.hub) ∙ sound.configured;
  }
  step-IsSound codec n s (stats_tick clock) sound = record {
    rates = tick-IsMap clock s.rates s sound.rates;
    configured = ap (λ c. c.slam.trajectory_len) (cfg-tick clock s.rates s.hub) ∙ sound.configured;
  }

  -- No branch of the loop changes the configuration.
  pub cfg-step :
      (codec : Postcard t) (s : Pipeline t) (i : Input t)
      → (step floats codec s i).hub.cfg ≡ s.hub.cfg
  unfolding step on_event update_car
  cfg-step codec s (received event now starts) =
      let f : CarSnapshot t → CarSnapshot t = λ c. record c { last_seen_ms = event.at_ms } in
      cfg-on_kind event.car event.at_ms event.kind now starts (record s {
        hub = update_car floats s.hub event.car f;
        recorder = record_event floats codec event s.recorder;
      })
  cfg-step codec s (slam_result car output) = cfg-on_slam car output s.hub
  cfg-step codec s (stats_tick clock) = cfg-tick clock s.rates s.hub
