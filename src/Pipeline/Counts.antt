-- ===== src/Pipeline/Counts.antt =====
-- `scans_total` of a car's snapshot counts what was received since the hub started.
use olivaw_hub.Prelude.{
  ℕ, ◌+◌, ◌%◌, ◌^◌, ◌≡◌, refl, ap, ◌∙◌, inl, inr, Bool, Option, none, some, List, [], ◌∷◌,
  if◌then◌else◌, arith, Bool-cases, Option-cases,
}
use olivaw_hub.Text.{Text, text_eq}
use olivaw_hub.Dict.{get}
use olivaw_hub.External.{Types, Floats}
use olivaw_hub.Config.{HubConfig}
use olivaw_hub.Ingest
use olivaw_hub.Ingest.{CarEvent, EventKind}
use olivaw_hub.Ingest.Mqtt.{Commander}
use olivaw_hub.Postcard.{Postcard}
use olivaw_hub.Session.Recorder.{Recorder}
use olivaw_hub.Slam.Worker.{SlamOutput, tracked, map_output}
use olivaw_hub.State
use olivaw_hub.State.{CarSnapshot, MapInfo, fresh}
use olivaw_hub.Pipeline.{Input, init, received, slam_result, stats_tick, with_pose, run}
use olivaw_hub.Pipeline.Car.{
  Car, view, known, hear, place, restart, car_step, car_run, car_tick_none, car_tick_some,
}
use olivaw_hub.Pipeline.Sound.{IsSound}
use olivaw_hub.Pipeline.Machine.{view-run}

module _ {t : Types} where
  scan_count : EventKind t → ℕ
  scan_count (Ingest.status _) = 0
  scan_count (Ingest.telemetry _) = 0
  scan_count (Ingest.scan _) = 1

  -- The rotations of the car `j` among the inputs.
  pub scans_in : Text → Input t → ℕ
  unfolding scan_count
  scans_in j (received e _ _) = if text_eq e.car j then scan_count e.kind else 0
  scans_in j (slam_result _ _) = 0
  scans_in j (stats_tick _) = 0

  unfoldable pub scans_of : Text → List (Input t) → ℕ
  unfolding scans_in
  scans_of j [] = 0
  scans_of j (i ∷ is) = scans_in j i + scans_of j is

  abbrev pub total : Option (CarSnapshot t) → ℕ
  total none = 0
  total (some c) = c.scans_total

module _ {t : Types} (floats : Floats t) where
  total-known :
      (n : ℕ) (j : Text) (o : Option (CarSnapshot t)) → (known floats n j o).scans_total ≡ total o
  unfolding known fresh
  total-known n j none = refl
  total-known n j (some c) = refl

  total-hear :
      (n : ℕ) (j : Text) (v : Car t) (at_ms : ℕ) (kind : EventKind t) (now : ℕ) (starts : Bool)
      (past : ℕ)
      → total v.seen ≡ past % 2 ^ 64
      → total (hear floats n j at_ms kind now starts (known floats n j v.seen) v).seen
        ≡ (past + scan_count kind) % 2 ^ 64
  unfolding hear scan_count
  total-hear n j v at_ms (Ingest.status text) now starts past h =
      omega (arith, total-known n j v.seen)
  total-hear n j v at_ms (Ingest.telemetry x) now starts past h =
      omega (arith, total-known n j v.seen)
  total-hear n j v at_ms (Ingest.scan frame) now starts past h =
      omega (arith, total-known n j v.seen)

  total-place :
      (n : ℕ) (j : Text) (v : Car t) (output : SlamOutput t)
      → total (place floats n j output (known floats n j v.seen) v).seen ≡ total v.seen
  unfolding place with_pose
  total-place n j v (tracked pose world) = total-known n j v.seen
  total-place n j v (map_output m) = total-known n j v.seen

  total-car_step :
      (n : ℕ) (j : Text) (v : Car t) (i : Input t) (past : ℕ)
      → total v.seen ≡ past % 2 ^ 64
      → total (car_step floats n j v i).seen ≡ (past + scans_in j i) % 2 ^ 64
  unfolding car_step scans_in restart
  total-car_step n j v (received e now starts) past h = elim (Bool-cases (text_eq e.car j)) [
    | inl own ↦ rw own (total-hear n j v e.at_ms e.kind now starts past h)
    | inr other ↦ rw other (omega arith)
  ]
  total-car_step n j v (slam_result car output) past h = elim (Bool-cases (text_eq car j)) [
    | inl own ↦ rw own (omega (arith, total-place n j v output))
    | inr other ↦ rw other (omega arith)
  ]
  total-car_step n j v (stats_tick clock) past h = elim (Option-cases v.rate) [
    | inl absent ↦ ap (λ w. total w.seen) (car_tick_none floats n j clock v absent) ∙ omega arith
    | inr (r, present) ↦
        ap (λ w. total w.seen) (car_tick_some floats n j clock v r present)
        ∙ total-known n j v.seen
        ∙ omega arith
  ]

  total-car_run :
      (n : ℕ) (j : Text) (v : Car t) (is : List (Input t)) (past : ℕ)
      → total v.seen ≡ past % 2 ^ 64
      → total (car_run floats n j v is).seen ≡ (past + scans_of j is) % 2 ^ 64
  unfolding car_run scans_of
  total-car_run n j v [] past h = omega arith
  total-car_run n j v (i ∷ is) past h =
      let rest =
        total-car_run n j (car_step floats n j v i) is (past + scans_in j i)
          (total-car_step n j v i past h) in
      omega (arith, rest)

  pub IsSound-init :
      (cfg : HubConfig t) (commander : Commander) (recorder : Option Recorder)
      → IsSound floats cfg.slam.trajectory_len (init cfg commander recorder)
  unfolding init State.new
  IsSound-init cfg commander recorder = record { rates = tt; configured = refl }

  -- A car's `scans_total` is the number of rotations received from that car since the hub started,
  -- in 64 bits, whatever other cars, SLAM results and ticks came between (0 for an unknown car).
  pub scans_total-run :
      (codec : Postcard t) (cfg : HubConfig t) (commander : Commander) (recorder : Option Recorder)
      (inputs : List (Input t)) (j : Text)
      → total (get j (run floats codec (init cfg commander recorder) inputs).hub.cars)
        ≡ scans_of j inputs % 2 ^ 64
  unfolding init State.new get
  scans_total-run codec cfg commander recorder inputs j =
      let n = cfg.slam.trajectory_len in
      let s = init cfg commander recorder in
      let e : 0 + scans_of j inputs ≡ scans_of j inputs = omega arith in
      ap (λ v. total v.seen)
        (view-run floats codec n j s inputs (IsSound-init cfg commander recorder))
      ∙ total-car_run n j (view j s) inputs 0 refl
      ∙ ap (λ k. k % 2 ^ 64) e
