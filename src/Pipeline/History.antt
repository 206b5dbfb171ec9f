-- ===== src/Pipeline/History.antt =====
-- What a run keeps of the past: runs follow each other, and broadcast events are never taken back.
use olivaw_hub.Prelude.{
  ℕ, ◌≡◌, refl, sym, ap, ◌∙◌, inl, inr, Bool, not, List, [], ◌∷◌, ◌++◌, append-nil, append_assoc,
  arith, Bool-cases,
}
use olivaw_hub.Text.{Text, text_eq}
use olivaw_hub.Dict.{Dict}
use olivaw_hub.External.{Types, Floats}
use olivaw_hub.Ingest
use olivaw_hub.Ingest.{EventKind}
use olivaw_hub.Postcard.{Postcard}
use olivaw_hub.Slam.Worker.{SlamOutput, tracked, map_output}
use olivaw_hub.State
use olivaw_hub.State.{CarSnapshot, WsEvent, Hub, car_or_new, update_car, emit}
use olivaw_hub.Pipeline.{
  Pipeline, CarRate, Input, received, slam_result, stats_tick, on_status, on_telemetry, count_scan,
  on_scan, on_kind, on_event, on_slam, info_of, rate_hz, tick, step, record_event, run,
}
use olivaw_hub.Pipeline.Sound.{IsSound, step-IsSound}

module _ {t : Types} where
  -- No greeting is among the events: those are sent to one client only.
  abbrev pub IsLive : List (WsEvent t) → Type 0
  IsLive [] = Unit {0}
  IsLive (State.hello cars ∷ es) = ⊥
  IsLive (State.status car status ∷ es) = IsLive es
  IsLive (State.telemetry car x at_ms ∷ es) = IsLive es
  IsLive (State.pose car pose ∷ es) = IsLive es
  IsLive (State.scan car seq points ∷ es) = IsLive es
  IsLive (State.map car map ∷ es) = IsLive es
  IsLive (State.stats car hz total ∷ es) = IsLive es

  append-IsLive : (a b : List (WsEvent t)) → IsLive a → IsLive b → IsLive (a ++ b)
  append-IsLive [] b h k = k
  append-IsLive (State.hello cars ∷ a) b h k = absurd h
  append-IsLive (State.status car status ∷ a) b h k = append-IsLive a b h k
  append-IsLive (State.telemetry car x at_ms ∷ a) b h k = append-IsLive a b h k
  append-IsLive (State.pose car pose ∷ a) b h k = append-IsLive a b h k
  append-IsLive (State.scan car seq points ∷ a) b h k = append-IsLive a b h k
  append-IsLive (State.map car map ∷ a) b h k = append-IsLive a b h k
  append-IsLive (State.stats car hz total ∷ a) b h k = append-IsLive a b h k

  -- `b` is `a` with more events behind it.
  abbrev pub Extends : List (WsEvent t) → List (WsEvent t) → Type 0
  Extends a b = (new : List (WsEvent t)) × (b ≡ a ++ new) × IsLive new

  Extends-trans : (a b c : List (WsEvent t)) → Extends a b → Extends b c → Extends a c
  Extends-trans a b c (new, e, h) (newer, f, k) = (
    new ++ newer,
    f ∙ ap (λ l. l ++ newer) e ∙ append_assoc a new newer,
    append-IsLive new newer h k,
  )

  Extends-refl : (a : List (WsEvent t)) → Extends a a
  Extends-refl a = ([], sym (append-nil a), tt)

module _ {t : Types} (floats : Floats t) where
  on_kind-Extends :
      (car : Text) (at_ms : ℕ) (kind : EventKind t) (now : ℕ) (starts : Bool) (s : Pipeline t)
      → Extends s.hub.events (on_kind floats car at_ms kind now starts s).hub.events
  unfolding on_kind on_status on_telemetry on_scan count_scan update_car emit
  on_kind-Extends car at_ms (Ingest.status text) now starts s =
      elim (Bool-cases (not (text_eq (car_or_new floats s.hub car).status text))) [
        | inl changed ↦ (State.status car text ∷ [], ground arith, tt)
        | inr same ↦ ([], ground (arith, append-nil s.hub.events), tt)
      ]
  on_kind-Extends car at_ms (Ingest.telemetry x) now starts s =
      (State.telemetry car x at_ms ∷ [], refl, tt)
  on_kind-Extends car at_ms (Ingest.scan frame) now starts s =
      ([], ground (arith, append-nil s.hub.events), tt)

  on_slam-Extends :
      (car : Text) (output : SlamOutput t) (hub : Hub t)
      → Extends hub.events (on_slam floats car output hub).events
  unfolding on_slam update_car emit
  on_slam-Extends car (tracked pose world) hub = (
    State.pose car pose ∷ State.scan car pose.seq world ∷ [],
    append_assoc hub.events (State.pose car pose ∷ []) (State.scan car pose.seq world ∷ []),
    tt,
  )
  on_slam-Extends car (map_output m) hub = (State.map car (info_of floats car m) ∷ [], refl, tt)

  tick-Extends :
      (clock : Text → ℕ × ℕ) (rates : Dict CarRate) (hub : Hub t)
      → Extends hub.events (tick floats clock rates hub).0.events
  unfolding tick update_car emit
  tick-Extends clock [] hub = Extends-refl hub.events
  tick-Extends clock ((car, r) ∷ rates) hub =
      let hz = rate_hz floats r (clock car).0 in
      let stats = State.stats car hz (car_or_new floats hub car).scans_total in
      let next = emit (update_car floats hub car (λ c. record c { scan_hz = hz })) stats in
      Extends-trans hub.events next.events (tick floats clock rates next).0.events
        (stats ∷ [], refl, tt) (tick-Extends clock rates next)

  module _ (codec : Postcard t) where
    step-Extends :
        (s : Pipeline t) (i : Input t) → Extends s.hub.events (step floats codec s i).hub.events
    unfolding step on_event update_car
    step-Extends s (received e now starts) =
        let f : CarSnapshot t → CarSnapshot t = λ c. record c { last_seen_ms = e.at_ms } in
        on_kind-Extends e.car e.at_ms e.kind now starts (record s {
          hub = update_car floats s.hub e.car f;
          recorder = record_event floats codec e s.recorder;
        })
    step-Extends s (slam_result car output) = on_slam-Extends car output s.hub
    step-Extends s (stats_tick clock) = tick-Extends clock s.rates s.hub

    pub run-Extends :
        (s : Pipeline t) (inputs : List (Input t))
        → Extends s.hub.events (run floats codec s inputs).hub.events
    unfolding run
    run-Extends s [] = Extends-refl s.hub.events
    run-Extends s (i ∷ inputs) =
        let next = step floats codec s i in
        Extends-trans s.hub.events next.hub.events (run floats codec next inputs).hub.events
          (step-Extends s i) (run-Extends next inputs)

    pub run-append :
        (s : Pipeline t) (a b : List (Input t))
        → run floats codec s (a ++ b) ≡ run floats codec (run floats codec s a) b
    unfolding run
    run-append s [] b = refl
    run-append s (i ∷ a) b = run-append (step floats codec s i) a b

    pub run-IsSound :
        (n : ℕ) (s : Pipeline t) (inputs : List (Input t))
        → IsSound floats n s
        → IsSound floats n (run floats codec s inputs)
    unfolding run
    run-IsSound n s [] sound = sound
    run-IsSound n s (i ∷ inputs) sound =
        run-IsSound n (step floats codec s i) inputs (step-IsSound floats codec n s i sound)
