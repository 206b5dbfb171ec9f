-- ===== src/Pipeline/Maps.antt =====
-- The map that is stored for a car, and the metadata in the car's snapshot.
use mathlib.Core.Option
use olivaw_hub.Prelude.{
  ℕ, ◌≡◌, refl, sym, ap, ◌++◌, ◌⊎◌, subst, ◌∙◌, inl, inr, Bool, Option, none, some, List, [], ◌∷◌,
  Bool-cases, Option-cases,
}
use olivaw_hub.Text.{Text, codes, text_eq}
use olivaw_hub.Text.Decimal.{decimal}
use olivaw_hub.Dict.{get}
use olivaw_hub.External.{Types, Floats}
use olivaw_hub.Config.{HubConfig}
use olivaw_hub.Ingest
use olivaw_hub.Ingest.{CarEvent, EventKind}
use olivaw_hub.Ingest.Mqtt.{Commander}
use olivaw_hub.Postcard.{Postcard}
use olivaw_hub.Session.Recorder.{Recorder}
use olivaw_hub.Slam.MapPng.{MapSnapshot}
use olivaw_hub.Slam.Worker.{SlamOutput, tracked, map_output}
use olivaw_hub.State
use olivaw_hub.State.{CarSnapshot, MapInfo, fresh}
use olivaw_hub.Pipeline.{
  Input, init, received, slam_result, stats_tick, with_pose, info_of, map_url, run,
}
use olivaw_hub.Pipeline.Car.{
  Car, view, known, hear, place, restart, car_step, car_run, car_tick_none, car_tick_some,
}
use olivaw_hub.Pipeline.Machine.{view-run}
use olivaw_hub.Pipeline.Counts.{IsSound-init}

module _ {t : Types} (floats : Floats t) where
  abbrev pub shown : Option (CarSnapshot t) → Option (MapInfo t)
  shown none = none
  shown (some c) = c.map

  -- What is shown of a car's map is the metadata of the map that is stored for it.
  abbrev IsShown : Text → Car t → Type 0
  IsShown j v = shown v.seen ≡ Option.map (info_of floats j) v.map

  shown-known : (n : ℕ) (j : Text) (o : Option (CarSnapshot t)) → (known floats n j o).map ≡ shown o
  unfolding known fresh
  shown-known n j none = refl
  shown-known n j (some c) = refl

  hear-IsShown :
      (n : ℕ) (j : Text) (v : Car t) (at_ms : ℕ) (kind : EventKind t) (now : ℕ) (starts : Bool)
      → IsShown j v
      → IsShown j (hear floats n j at_ms kind now starts (known floats n j v.seen) v)
  unfolding hear
  hear-IsShown n j v at_ms (Ingest.status text) now starts h = shown-known n j v.seen ∙ h
  hear-IsShown n j v at_ms (Ingest.telemetry x) now starts h = shown-known n j v.seen ∙ h
  hear-IsShown n j v at_ms (Ingest.scan frame) now starts h = shown-known n j v.seen ∙ h

  place-IsShown :
      (n : ℕ) (j : Text) (v : Car t) (output : SlamOutput t)
      → IsShown j v
      → IsShown j (place floats n j output (known floats n j v.seen) v)
  unfolding place with_pose
  place-IsShown n j v (tracked pose world) h = shown-known n j v.seen ∙ h
  place-IsShown n j v (map_output m) h = refl

  car_step-IsShown :
      (n : ℕ) (j : Text) (v : Car t) (i : Input t)
      → IsShown j v
      → IsShown j (car_step floats n j v i)
  unfolding car_step restart
  car_step-IsShown n j v (received e now starts) h = elim (Bool-cases (text_eq e.car j)) [
    | inl own ↦ rw own (hear-IsShown n j v e.at_ms e.kind now starts h)
    | inr other ↦ rw other h
  ]
  car_step-IsShown n j v (slam_result car output) h = elim (Bool-cases (text_eq car j)) [
    | inl own ↦ rw own (place-IsShown n j v output h)
    | inr other ↦ rw other h
  ]
  car_step-IsShown n j v (stats_tick clock) h = elim (Option-cases v.rate) [
    | inl absent ↦ subst (IsShown j) (sym (car_tick_none floats n j clock v absent)) h
    | inr (r, present) ↦
        subst (IsShown j) (sym (car_tick_some floats n j clock v r present))
          (shown-known n j v.seen ∙ h)
  ]

  car_run-IsShown :
      (n : ℕ) (j : Text) (v : Car t) (is : List (Input t))
      → IsShown j v
      → IsShown j (car_run floats n j v is)
  unfolding car_run
  car_run-IsShown n j v [] h = h
  car_run-IsShown n j v (i ∷ is) h =
      car_run-IsShown n j (car_step floats n j v i) is (car_step-IsShown n j v i h)

  pub shown_stored :
      (codec : Postcard t) (cfg : HubConfig t) (commander : Commander) (recorder : Option Recorder)
      (inputs : List (Input t)) (j : Text)
      → let hub = (run floats codec (init cfg commander recorder) inputs).hub in
        shown (get j hub.cars) ≡ Option.map (info_of floats j) (get j hub.maps)
  unfolding init State.new get
  shown_stored codec cfg commander recorder inputs j =
      let n = cfg.slam.trajectory_len in
      let s = init cfg commander recorder in
      let same = view-run floats codec n j s inputs (IsSound-init floats cfg commander recorder) in
      subst (IsShown j) (sym same) (car_run-IsShown n j (view j s) inputs refl)

  -- What is shown of a map: its own number, origin, resolution and sides, and where it is served.
  abbrev pub Describes : Text → MapSnapshot t → MapInfo t → Type 0
  Describes j m info =
      (info.version ≡ m.version)
      × (info.url ≡ codes "/api/cars/" ++ (j ++ (codes "/map.png?v=" ++ decimal m.version)))
      × (info.origin ≡ m.origin)
      × (info.resolution ≡ m.resolution)
      × (info.width ≡ m.width)
      × (info.height ≡ m.height)

  info_of-Describes : (j : Text) (m : MapSnapshot t) → Describes j m (info_of floats j m)
  unfolding info_of map_url
  info_of-Describes j m = (refl, refl, refl, refl, refl, refl)

  -- At any time, either no map is stored for a car and its snapshot shows none, or one is stored and
  -- the snapshot shows that map's version, origin, resolution, width and height, and the address with
  -- the car's id and this version.
  pub shown-run :
      (codec : Postcard t) (cfg : HubConfig t) (commander : Commander) (recorder : Option Recorder)
      (inputs : List (Input t)) (j : Text)
      → let hub = (run floats codec (init cfg commander recorder) inputs).hub in
        ((get j hub.maps ≡ none) × (shown (get j hub.cars) ≡ none))
        ⊎ ((m : MapSnapshot t) × (info : MapInfo t) × (get j hub.maps ≡ some m)
            × (shown (get j hub.cars) ≡ some info)
            × Describes j m info)
  shown-run codec cfg commander recorder inputs j =
      let hub = (run floats codec (init cfg commander recorder) inputs).hub in
      let same = shown_stored codec cfg commander recorder inputs j in
      elim (Option-cases (get j hub.maps)) [
        | inl absent ↦ inl (absent, same ∙ ap (Option.map (info_of floats j)) absent)
        | inr (m, stored) ↦ inr (
          m,
          info_of floats j m,
          stored,
          same ∙ ap (Option.map (info_of floats j)) stored,
          info_of-Describes j m,
        )
      ]
