-- ===== src/Api/Served.antt =====
-- What the map endpoints answer after a run of the hub.
use mathlib.Core.Option
use olivaw_hub.Prelude.{◌≡◌, ◌⊎◌, ap, ◌∙◌, inl, inr, Option, none, some, List, arith, Option-cases}
use olivaw_hub.Text.{Text}
use olivaw_hub.Dict.{get}
use olivaw_hub.External.{Types, Floats}
use olivaw_hub.Config.{HubConfig}
use olivaw_hub.Ingest.Mqtt.{Commander}
use olivaw_hub.Postcard.{Postcard}
use olivaw_hub.Session.Recorder.{Recorder}
use olivaw_hub.Slam.MapPng.{MapSnapshot, to_pgm}
use olivaw_hub.Pipeline.{Input, init, info_of, run}
use olivaw_hub.Pipeline.Maps.{shown, shown_stored}
use olivaw_hub.Api.Http.{raw, map_png, map_pgm}

module _ {t : Types} (floats : Floats t) where
  -- After any run, either a car's snapshot shows the metadata (version, url, size) of a map of
  -- which both images are served, or it shows none and both requests get a 404.
  pub map_png-run :
      (codec : Postcard t) (cfg : HubConfig t) (commander : Commander) (recorder : Option Recorder)
      (inputs : List (Input t)) (j : Text)
      → let hub = (run floats codec (init cfg commander recorder) inputs).hub in
        ((m : MapSnapshot t) × (shown floats (get j hub.cars) ≡ some (info_of floats j m))
          × ((map_png hub j).status ≡ 200)
          × ((map_png hub j).body ≡ raw m.png)
          × ((map_pgm hub j).status ≡ 200)
          × ((map_pgm hub j).body ≡ raw (to_pgm m)))
        ⊎ ((shown floats (get j hub.cars) ≡ none)
            × ((map_png hub j).status ≡ 404)
            × ((map_pgm hub j).status ≡ 404))
  unfolding map_png map_pgm
  map_png-run codec cfg commander recorder inputs j =
      let hub = (run floats codec (init cfg commander recorder) inputs).hub in
      let same = shown_stored floats codec cfg commander recorder inputs j in
      elim (Option-cases (get j hub.maps)) [
        | inl stored ↦
            inr (same ∙ ap (Option.map (info_of floats j)) stored, ground arith, ground arith)
        | inr (m, stored) ↦ inl (
          m,
          same ∙ ap (Option.map (info_of floats j)) stored,
          ground arith,
          ground arith,
          ground arith,
          ground arith,
        )
      ]
