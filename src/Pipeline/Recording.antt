-- ===== src/Pipeline/Recording.antt =====
-- What a run of the hub leaves on the disk.
use mathlib.Core.Option
use olivaw_hub.Prelude.{
  ℕ, ◌≤◌, ◌≡◌, refl, ap, ◌∙◌, ◌↔◌, some, List, [], ◌∷◌, length, take, arith, Bool,
}
use olivaw_hub.Text.{Text}
use olivaw_hub.External.{Types, Floats}
use olivaw_hub.Config.{HubConfig}
use olivaw_hub.Ingest
use olivaw_hub.Ingest.{CarEvent, EventKind}
use olivaw_hub.Ingest.Mqtt.{Commander}
use olivaw_hub.Postcard.{Postcard, PostcardLaws}
use olivaw_hub.Session.Recorder.{Recorder, create, close, write}
use olivaw_hub.Session.Read.{events, read_all}
use olivaw_hub.Session.Stream.{stream, AllRecordable, write_each}
use olivaw_hub.Session.FullDisk.{full_disk}
use olivaw_hub.State.{update_car}
use olivaw_hub.Pipeline.{
  Pipeline, Input, received, slam_result, stats_tick, on_status, on_telemetry, on_scan, count_scan,
  on_kind, on_event, record_event, step, run, init, recorded_file,
}

module _ {t : Types} where
  -- The events among the inputs.
  abbrev pub received_of : List (Input t) → List (CarEvent t)
  received_of [] = []
  received_of (received e now starts ∷ inputs) = e ∷ received_of inputs
  received_of (slam_result car output ∷ inputs) = received_of inputs
  received_of (stats_tick clock ∷ inputs) = received_of inputs

module _ {t : Types} (floats : Floats t) (codec : Postcard t) where
  recorder-on_kind :
      (car : Text) (at_ms : ℕ) (kind : EventKind t) (now : ℕ) (starts : Bool) (s : Pipeline t)
      → (on_kind floats car at_ms kind now starts s).recorder ≡ s.recorder
  unfolding on_kind on_status on_telemetry on_scan count_scan
  recorder-on_kind car at_ms (Ingest.status text) now starts s = ground arith
  recorder-on_kind car at_ms (Ingest.telemetry x) now starts s = refl
  recorder-on_kind car at_ms (Ingest.scan frame) now starts s = ground arith

  recorder-received :
      (e : CarEvent t) (now : ℕ) (starts : Bool) (s : Pipeline t)
      → (step floats codec s (received e now starts)).recorder
        ≡ record_event floats codec e s.recorder
  unfolding step on_event
  recorder-received e now starts s =
      let hub = update_car floats s.hub e.car (λ c. record c { last_seen_ms = e.at_ms }) in
      let s' = record s { hub = hub; recorder = record_event floats codec e s.recorder } in
      recorder-on_kind e.car e.at_ms e.kind now starts s'

  -- The recorder writes each event that is received, and nothing else.
  recorder-run :
      (s : Pipeline t) (r : Recorder) (inputs : List (Input t))
      → s.recorder ≡ some r
      → (run floats codec s inputs).recorder ≡ some (write_each codec r (received_of inputs))
  unfolding run step on_event record_event write_each
  recorder-run s r [] h = h
  recorder-run s r (received e now starts ∷ inputs) h =
      recorder-run (step floats codec s (received e now starts)) (write codec r e).0 inputs
        (recorder-received e now starts s ∙ ap (record_event floats codec e) h)
  recorder-run s r (slam_result car output ∷ inputs) h =
      recorder-run (step floats codec s (slam_result car output)) r inputs h
  recorder-run s r (stats_tick clock ∷ inputs) h =
      recorder-run (step floats codec s (stats_tick clock)) r inputs h

  -- What a run leaves on a disk with `size` bytes, once it has ended.
  pub run-file :
      (cfg : HubConfig t) (commander : Commander) (size : ℕ) (inputs : List (Input t))
      → recorded_file (run floats codec (init cfg commander (some (create size))) inputs)
        ≡ some (close (write_each codec (create size) (received_of inputs))).out.file
  unfolding recorded_file init
  run-file cfg commander size inputs =
      let s = init cfg commander (some (create size)) in
      rw (recorder-run s (create size) inputs refl) refl

  -- The recording of a run of the hub, over any sequence of events, SLAM results and ticks, on a disk
  -- of any size: if the events that were received can be recorded, the file that is left reads back as
  -- the first of them in the order in which they were received, as many as have records that fit on
  -- the disk. SLAM results and ticks leave no trace in it.
  pub run-recorded :
      (laws : PostcardLaws codec) (cfg : HubConfig t) (commander : Commander) (size : ℕ)
      (inputs : List (Input t))
      → AllRecordable codec (received_of inputs)
      → (k : ℕ) × (Option.map
            (read_all codec)
            (recorded_file (run floats codec (init cfg commander (some (create size))) inputs))
          ≡ some (events (take k (received_of inputs))))
        × ((j : ℕ)
            → (length (take j (received_of inputs)) ≤ k)
              ↔ (length (stream codec (take j (received_of inputs))) ≤ size))
  run-recorded laws cfg commander size inputs rs =
      let ((k, read, exact), _) = full_disk codec laws size (received_of inputs) rs in
      (
        k,
        ap (Option.map (read_all codec)) (run-file cfg commander size inputs) ∙ ap some read,
        exact,
      )
