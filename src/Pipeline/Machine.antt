-- ===== src/Pipeline/Machine.antt =====
-- The refinement: a run of the pipeline, seen from one car, is a run of that car's machine.
use olivaw_hub.Prelude.{
  ℕ, ◌≡◌, refl, sym, ap, ◌∙◌, inl, inr, Bool, List, [], ◌∷◌, Bool-cases, Option-cases,
}
use olivaw_hub.Text.{Text, text_eq, text_eq_iff}
use olivaw_hub.Dict.{get}
use olivaw_hub.External.{Types, Floats}
use olivaw_hub.Ingest
use olivaw_hub.Ingest.{CarEvent, EventKind}
use olivaw_hub.Postcard.{Postcard}
use olivaw_hub.Pipeline.{
  Pipeline, Input, received, slam_result, stats_tick, on_kind, on_event, step, run, record_event,
}
use olivaw_hub.Pipeline.Car.{view, known, hear, car_step, car_run, car_tick_none, car_tick_some}
use olivaw_hub.Pipeline.Others.{view-on_event_other, view-on_slam_other}
use olivaw_hub.Pipeline.Ticks.{tick_absent, tick_present}
use olivaw_hub.Pipeline.Sound.{IsSound, step-IsSound}
use olivaw_hub.Pipeline.Refines.{view-on_status, view-on_telemetry, view-on_scan, view-tracked}

module _ {t : Types} (floats : Floats t) (codec : Postcard t) where
  view-on_event_own :
      (n : ℕ) (j : Text) (at_ms : ℕ) (kind : EventKind t) (now : ℕ) (starts : Bool) (s : Pipeline t)
      → view j (on_event floats (record { car = j; at_ms = at_ms; kind = kind }) now starts s)
        ≡ hear floats n j at_ms kind now starts (known floats n j (get j s.hub.cars)) (view j s)
  unfolding on_event on_kind
  view-on_event_own n j at_ms (Ingest.status text) now starts s =
      view-on_status floats n j text at_ms now starts s
  view-on_event_own n j at_ms (Ingest.telemetry x) now starts s =
      view-on_telemetry floats n j x at_ms now starts s
  view-on_event_own n j at_ms (Ingest.scan frame) now starts s =
      view-on_scan floats n j frame at_ms now starts s

  view-on_event_at :
      (n : ℕ) (car j : Text)
      → car ≡ j
      → (at_ms : ℕ) (kind : EventKind t) (now : ℕ) (starts : Bool) (s : Pipeline t)
      → view j (on_event floats (record { car = car; at_ms = at_ms; kind = kind }) now starts s)
        ≡ hear floats n j at_ms kind now starts (known floats n j (get j s.hub.cars)) (view j s)
  view-on_event_at n car j e at_ms kind now starts s =
      rw e (view-on_event_own n j at_ms kind now starts s)

  abbrev recording : CarEvent t → Pipeline t → Pipeline t
  recording event s = record s { recorder = record_event floats codec event s.recorder }

  -- One branch of the loop, seen from the car `j`.
  pub view-step :
      (n : ℕ) (j : Text) (s : Pipeline t) (i : Input t)
      → IsSound floats n s
      → view j (step floats codec s i) ≡ car_step floats n j (view j s) i
  unfolding step car_step
  view-step n j s (received event now starts) sound = elim (Bool-cases (text_eq event.car j)) [
    | inl own ↦ rw own (
        view-on_event_at n event.car j ((text_eq_iff event.car j).0 own) event.at_ms event.kind now
          starts (recording event s))
    | inr other ↦
        rw other
          (view-on_event_other floats j event.car other event now starts (recording event s) refl)
  ]
  view-step n j s (slam_result car output) sound = elim (Bool-cases (text_eq car j)) [
    | inl own ↦
        rw (own, (text_eq_iff car j).0 own) (view-tracked floats n j output s sound.configured)
    | inr other ↦ rw other (view-on_slam_other floats j car other output s)
  ]
  view-step n j s (stats_tick clock) sound = elim (Option-cases (get j s.rates)) [
    | inl absent ↦
        let (same, gone) = tick_absent floats j clock s.rates s absent in
        let kept = gone ∙ sym absent in
        (λ i. record (same i) { rate = kept i })
        ∙ sym (car_tick_none floats n j clock (view j s) absent)
    | inr (r, present) ↦
        let (same, there) = tick_present floats j clock n s.rates s r sound.rates present in
        (λ i. record (same i) { rate = there i })
        ∙ sym (car_tick_some floats n j clock (view j s) r present)
  ]

  -- A run of the pipeline, over any sequence of inputs, from a state with one rate for each car and
  -- with the machine's trajectory length configured, changes what it holds about a car exactly as the
  -- machine of that car does: no input about another car has an effect on it.
  pub view-run :
      (n : ℕ) (j : Text) (s : Pipeline t) (inputs : List (Input t))
      → IsSound floats n s
      → view j (run floats codec s inputs) ≡ car_run floats n j (view j s) inputs
  unfolding run car_run
  view-run n j s [] sound = refl
  view-run n j s (i ∷ inputs) sound =
      view-run n j (step floats codec s i) inputs (step-IsSound floats codec n s i sound)
      ∙ ap (λ v. car_run floats n j v inputs) (view-step n j s i sound)
