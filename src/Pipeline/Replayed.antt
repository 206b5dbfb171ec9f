-- ===== src/Pipeline/Replayed.antt =====
-- What a hub holds about a car because of its events, in a live run and in a run of its recording.
use olivaw_hub.Prelude.{
  ℕ, ◌+◌, ◌%◌, ◌^◌, ◌≤◌, ◌≡◌, refl, sym, ap, ◌∙◌, inl, inr, Bool, Option, none, some, List, [], ◌∷◌,
  if◌then◌else◌, length, Bool-cases, Option-cases,
}
use olivaw_hub.Text.{Text, Bytes, text_eq}
use olivaw_hub.Dict.{get}
use olivaw_hub.External.{Types, Floats}
use olivaw_hub.Config.{HubConfig}
use olivaw_hub.Ingest
use olivaw_hub.Ingest.{CarEvent, EventKind}
use olivaw_hub.Ingest.Mqtt.{Commander}
use olivaw_hub.Postcard.{Postcard, PostcardLaws}
use olivaw_hub.Session.Recorder.{Recorder, create, close}
use olivaw_hub.Session.Stream.{stream, AllRecordable, write_each}
use olivaw_hub.Session.FullDisk.{fitting}
use olivaw_hub.Session.Replay.{
  Pacing, NeverPanics, Action, finished, replay, spawn, sent, AllShort, replay_lem, spawn_of,
}
use olivaw_hub.Slam.Worker.{SlamOutput, tracked, map_output}
use olivaw_hub.State
use olivaw_hub.State.{CarSnapshot, fresh}
use olivaw_hub.Pipeline.{
  Input, received, slam_result, stats_tick, with_pose, run, init, recorded_file,
}
use olivaw_hub.Pipeline.Car.{
  Car, view, known, hear, place, restart, car_step, car_run, car_tick_none, car_tick_some,
}
use olivaw_hub.Pipeline.Machine.{view-run}
use olivaw_hub.Pipeline.Counts.{IsSound-init}
use olivaw_hub.Pipeline.Recording.{received_of, run-file}

-- The part of a snapshot that comes from the car's events.
pub record Heard (t : Types) : Type 0 where
  pub status : Text
  pub telemetry : Option t.Telemetry
  pub last_seen_ms : ℕ
  pub scans_total : ℕ

module _ {t : Types} where
  abbrev heard : CarSnapshot t → Heard t
  heard c = record {
    status = c.status;
    telemetry = c.telemetry;
    last_seen_ms = c.last_seen_ms;
    scans_total = c.scans_total;
  }

  abbrev tell : EventKind t → Heard t → Heard t
  tell (Ingest.status text) h = record h { status = text }
  tell (Ingest.telemetry x) h = record h { telemetry = some x }
  tell (Ingest.scan _) h = record h { scans_total = (h.scans_total + 1) % 2 ^ 64 }

  heed : Text → CarEvent t → Heard t → Heard t
  heed j e h = if text_eq e.car j then tell e.kind (record h { last_seen_ms = e.at_ms }) else h

  -- The events one after the other.
  unfoldable heed_all : Text → List (CarEvent t) → Heard t → Heard t
  heed_all j [] h = h
  heed_all j (e ∷ es) h = heed_all j es (heed j e h)

module _ {t : Types} (floats : Floats t) where
  -- What a hub heard of the car `j`: of a car without a snapshot, what a new one holds.
  abbrev pub heard_of : Text → Option (CarSnapshot t) → Heard t
  heard_of j none = heard (fresh floats j)
  heard_of j (some c) = heard c

  heard-known :
      (n : ℕ) (j : Text) (o : Option (CarSnapshot t)) → heard (known floats n j o) ≡ heard_of j o
  unfolding known
  heard-known n j none = refl
  heard-known n j (some c) = refl

  heard-hear :
      (n : ℕ) (j : Text) (at_ms : ℕ) (kind : EventKind t) (now : ℕ) (starts : Bool)
      (c : CarSnapshot t) (v : Car t)
      → heard_of j (hear floats n j at_ms kind now starts c v).seen
        ≡ tell kind (record (heard c) { last_seen_ms = at_ms })
  unfolding hear
  heard-hear n j at_ms (Ingest.status text) now starts c v = refl
  heard-hear n j at_ms (Ingest.telemetry x) now starts c v = refl
  heard-hear n j at_ms (Ingest.scan frame) now starts c v = refl

  heard-place :
      (n : ℕ) (j : Text) (output : SlamOutput t) (c : CarSnapshot t) (v : Car t)
      → heard_of j (place floats n j output c v).seen ≡ heard c
  unfolding place with_pose
  heard-place n j (tracked pose world) c v = refl
  heard-place n j (map_output m) c v = refl

  heard-car_step :
      (n : ℕ) (j : Text) (v : Car t) (i : Input t)
      → heard_of j (car_step floats n j v i).seen
        ≡ heed_all j (received_of (i ∷ [])) (heard_of j v.seen)
  unfolding car_step heed_all heed restart
  heard-car_step n j v (received e now starts) = elim (Bool-cases (text_eq e.car j)) [
    | inl own ↦ rw own (
        heard-hear n j e.at_ms e.kind now starts (known floats n j v.seen) v
        ∙ ap (λ h. tell e.kind (record h { last_seen_ms = e.at_ms })) (heard-known n j v.seen))
    | inr other ↦ rw other refl
  ]
  heard-car_step n j v (slam_result car output) = elim (Bool-cases (text_eq car j)) [
    | inl own ↦ rw own (heard-place n j output (known floats n j v.seen) v ∙ heard-known n j v.seen)
    | inr other ↦ rw other refl
  ]
  heard-car_step n j v (stats_tick clock) = elim (Option-cases v.rate) [
    | inl absent ↦ ap (λ w. heard_of j w.seen) (car_tick_none floats n j clock v absent)
    | inr (r, present) ↦
        ap (λ w. heard_of j w.seen) (car_tick_some floats n j clock v r present)
        ∙ heard-known n j v.seen
  ]

  -- The events among the inputs, and nothing else, change it.
  heard-car_run :
      (n : ℕ) (j : Text) (v : Car t) (is : List (Input t))
      → heard_of j (car_run floats n j v is).seen ≡ heed_all j (received_of is) (heard_of j v.seen)
  unfolding car_run heed_all
  heard-car_run n j v [] = refl
  heard-car_run n j v (received e now starts ∷ is) =
      let i = received e now starts in
      heard-car_run n j (car_step floats n j v i) is
      ∙ ap (heed_all j (received_of is)) (heard-car_step n j v i)
  heard-car_run n j v (slam_result car output ∷ is) =
      let i = slam_result car output in
      heard-car_run n j (car_step floats n j v i) is
      ∙ ap (heed_all j (received_of is)) (heard-car_step n j v i)
  heard-car_run n j v (stats_tick clock ∷ is) =
      let i = stats_tick clock in
      heard-car_run n j (car_step floats n j v i) is
      ∙ ap (heed_all j (received_of is)) (heard-car_step n j v i)

  -- What a hub heard of a car is a function of the events that it received.
  heard-run :
      (codec : Postcard t) (cfg : HubConfig t) (commander : Commander) (recorder : Option Recorder)
      (inputs : List (Input t)) (j : Text)
      → heard_of j (get j (run floats codec (init cfg commander recorder) inputs).hub.cars)
        ≡ heed_all j (received_of inputs) (heard (fresh floats j))
  unfolding init State.new get
  heard-run codec cfg commander recorder inputs j =
      let n = cfg.slam.trajectory_len in
      let s = init cfg commander recorder in
      ap (λ v. heard_of j v.seen)
        (view-run floats codec n j s inputs (IsSound-init floats cfg commander recorder))
      ∙ heard-car_run n j (view j s) inputs

  -- A live run of the hub that records on a disk with room for the records, and a run of its
  -- recording. The file that the live run leaves can be replayed, at a speed that every gap can be
  -- divided by and into a pipeline that takes all the events: the replay finishes and sends just the
  -- events that the live run received, in their order, with no sleep over five seconds. And a hub that receives those events, between
  -- whatever SLAM results and ticks and with another configuration, holds at the end for each car the
  -- same status, telemetry, time of the last event and number of scans as the live one.
  pub run-replayed :
      (codec : Postcard t) (laws : PostcardLaws codec) (pacing : Pacing t) (speed : t.F64)
      (total : NeverPanics pacing speed) (size room : ℕ) (cfg cfg' : HubConfig t)
      (commander commander' : Commander) (recorder' : Option Recorder)
      (inputs inputs' : List (Input t))
      → AllRecordable codec (received_of inputs)
      → length (stream codec (received_of inputs)) ≤ size
      → length (received_of inputs) ≤ room
      → received_of inputs' ≡ received_of inputs
      → let live = run floats codec (init cfg commander (some (create size))) inputs in
        let replayed = run floats codec (init cfg' commander' recorder') inputs' in
        ((file : Bytes) × (actions : List (Action t)) × (recorded_file live ≡ some file)
          × (spawn pacing speed codec room file ≡ some (actions, finished))
          × (sent actions ≡ received_of inputs')
          × AllShort actions)
        × ((j : Text) → heard_of j (get j replayed.hub.cars) ≡ heard_of j (get j live.hub.cars))
  run-replayed codec laws pacing speed total size room cfg cfg' commander commander' recorder'
        inputs inputs' rs fits takes same =
      let es = received_of inputs in
      let file = (close (write_each codec (create size) es)).out.file in
      let (all, end, short) = replay_lem pacing speed total none room es takes in
      let actions = (replay pacing speed none room es).0 in
      (
        (
          file,
          actions,
          run-file floats codec cfg commander size inputs,
          spawn_of pacing speed total codec room file es (fitting codec laws size es rs fits)
              ∙ (λ i. some (actions, end i)),
          all ∙ sym same,
          short,
        ),
        λ j.
            heard-run codec cfg' commander' recorder' inputs' j
            ∙ ap (λ es. heed_all j es (heard (fresh floats j))) same
            ∙ sym (heard-run codec cfg commander (some (create size)) inputs j),
      )
