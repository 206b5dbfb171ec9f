-- ===== src/System/Heard.antt =====
-- The branches of the pipeline's loop, seen from the lane of one car.
use olivaw_hub.Prelude.{
  ℕ, ◌≡◌, refl, sym, ap, ◌∙◌, subst, inl, inr, Bool, List, [], ◌∷◌, ◌++◌, append-nil, append_assoc,
  if◌then◌else◌, Bool-cases, Option-cases,
}
use olivaw_hub.Text.{Text, text_eq}
use olivaw_hub.External.{Types, Floats, Proto, SlamLib}
use olivaw_hub.Ingest
use olivaw_hub.Ingest.{CarEvent, EventKind}
use olivaw_hub.Config.{HubConfig}
use olivaw_hub.Postcard.{Postcard}
use olivaw_hub.Slam.MapPng.{GridLib}
use olivaw_hub.Slam.Worker.{SlamOutput, tracked, map_output}
use olivaw_hub.State
use olivaw_hub.State.{CarSnapshot, WsEvent}
use olivaw_hub.Pipeline.{CarRate, rate_hz, info_of, received, slam_result, stats_tick}
use olivaw_hub.Pipeline.Car.{
  Car, view, known, hear, handed, place, restart, car_step, car_tick_none, car_tick_some,
}
use olivaw_hub.Pipeline.Sound.{IsSound}
use olivaw_hub.Pipeline.Machine.{view-step}
use olivaw_hub.System
use olivaw_hub.System.{Busy, System, set_thread, tuning_of, Step}
use olivaw_hub.System.Lane.{
  Result, posed, mapped, Lane, results_in, of_car, frames_of, scan_of, results_in-append,
  frames_of-append, results_of, lane_of, lane, LaneStep, rests, misses, submits,
}

quiet :
    {t : Types} (es news : List (WsEvent t))
    → results_in news ≡ []
    → results_in (es ++ news) ≡ results_in es
quiet es news h =
    results_in-append es news ∙ ap (◌++◌ (results_in es)) h ∙ append-nil (results_in es)

module _ {t : Types} (floats : Floats t) (proto : Proto t) (lib : SlamLib t) (grids : GridLib t)
    (cfg : HubConfig t) (j : Text) (codec : Postcard t) where
  abbrev Moves : Lane t → Lane t → Type 0
  Moves = LaneStep floats proto lib grids (tuning_of cfg) j

  -- An event of the car itself.
  lane-hear :
      (n at_ms : ℕ) (kind : EventKind t) (now : ℕ) (starts : Bool) (c : CarSnapshot t) (v : Car t)
      (b : Busy t) (outputs : List (SlamOutput t)) (scans : List t.ScanFrame)
      → Moves (lane_of floats j v b outputs scans) (
          lane_of floats j
            (hear floats n j at_ms kind now starts c v)
            b
            outputs
            (scans ++ scan_of kind))
  unfolding hear handed
  lane-hear n at_ms (Ingest.status text) now starts c v b outputs scans =
      let a = lane_of floats j v b outputs scans in
      let sent = results_of floats j outputs in
      let unsent = results_of floats j b.unsent in
      let same =
        quiet v.events (if text_eq c.status text then [] else State.status j text ∷ [])
          (elim (Bool-cases (text_eq c.status text)) [ inl e ↦ rw e refl | inr e ↦ rw e refl ]) in
      rests (λ i. record a { flow = same i ++ sent ++ unsent; scans = append-nil scans i })
  lane-hear n at_ms (Ingest.telemetry x) now starts c v b outputs scans =
      let a = lane_of floats j v b outputs scans in
      let sent = results_of floats j outputs in
      let unsent = results_of floats j b.unsent in
      let same = quiet v.events (State.telemetry j x at_ms ∷ []) refl in
      rests (λ i. record a { flow = same i ++ sent ++ unsent; scans = append-nil scans i })
  lane-hear n at_ms (Ingest.scan frame) now starts c v b outputs scans =
      elim (Option-cases v.worker) [
        | inr (w, there) ↦ submits frame (rw there refl)
        | inl absent ↦ elim (Bool-cases starts) [
          | inl spawned ↦ submits frame (rw (absent, spawned) refl)
          | inr refused ↦ misses frame (rw absent refl) (rw (absent, refused) refl)
        ]
      ]

  lane-received :
      (n : ℕ) (e : CarEvent t) (now : ℕ) (starts : Bool) (v : Car t) (b : Busy t)
      (outputs : List (SlamOutput t)) (heard : List (CarEvent t))
      → Moves (lane_of floats j v b outputs (frames_of j heard)) (
          lane_of floats j
            (car_step floats n j v (received e now starts))
            b
            outputs
            (frames_of j (heard ++ e ∷ [])))
  unfolding car_step
  lane-received n e now starts v b outputs heard =
      rw (frames_of-append j heard (e ∷ [])) (elim (Bool-cases (text_eq e.car j)) [
        | inl own ↦
            rw (own, append-nil (scan_of e.kind))
              (lane-hear n e.at_ms e.kind now starts (known floats n j v.seen) v b outputs
                (frames_of j heard))
        | inr other ↦ rw (other, append-nil (frames_of j heard)) (rests refl)
      ])

  passed :
      (es news : List (WsEvent t)) (r : Result t) (rs : List (Result t))
      → results_in news ≡ r ∷ []
      → results_in (es ++ news) ++ rs ≡ results_in es ++ r ∷ rs
  passed es news r rs h =
      ap (λ l. l ++ rs) (results_in-append es news ∙ ap (◌++◌ (results_in es)) h)
      ∙ append_assoc (results_in es) (r ∷ []) rs

  lane-placed :
      (n : ℕ) (output : SlamOutput t) (outputs : List (SlamOutput t)) (c : CarSnapshot t)
      (v : Car t) (b : Busy t) (scans : List t.ScanFrame)
      → lane_of floats j (place floats n j output c v) b outputs scans
        ≡ lane_of floats j v b (output ∷ outputs) scans
  unfolding place
  lane-placed n (tracked pose world) outputs c v b scans =
      let news = State.pose j pose ∷ State.scan j pose.seq world ∷ [] in
      λ i. record (lane_of floats j v b outputs scans) {
        flow =
            passed v.events news (posed pose) (results_of floats j outputs) refl i
            ++ results_of floats j b.unsent;
      }
  lane-placed n (map_output m) outputs c v b scans =
      let info = info_of floats j m in
      λ i. record (lane_of floats j v b outputs scans) {
        flow =
            passed v.events (State.map j info ∷ []) (mapped info) (results_of floats j outputs) refl
              i
            ++ results_of floats j b.unsent;
      }

  -- A result goes from the channel to the clients.
  pub lane-delivered :
      (n : ℕ) (car : Text) (output : SlamOutput t) (rest : List (Text × SlamOutput t)) (v : Car t)
      (b : Busy t) (scans : List t.ScanFrame)
      → lane_of floats j (car_step floats n j v (slam_result car output)) b (of_car j rest) scans
        ≡ lane_of floats j v b (of_car j ((car, output) ∷ rest)) scans
  unfolding car_step
  lane-delivered n car output rest v b scans = elim (Bool-cases (text_eq car j)) [
    | inl own ↦ rw own (lane-placed n output (of_car j rest) (known floats n j v.seen) v b scans)
    | inr other ↦ rw other refl
  ]

  stats_of : ℕ → (Text → ℕ × ℕ) → Car t → CarRate → List (WsEvent t)
  stats_of n clock v r =
      State.stats j (rate_hz floats r (clock j).0) (known floats n j v.seen).scans_total ∷ []

  pub lane-ticked :
      (n : ℕ) (clock : Text → ℕ × ℕ) (v : Car t) (b : Busy t) (outputs : List (SlamOutput t))
      (scans : List t.ScanFrame)
      → lane_of floats j (car_step floats n j v (stats_tick clock)) b outputs scans
        ≡ lane_of floats j v b outputs scans
  unfolding restart stats_of
  lane-ticked n clock v b outputs scans = elim (Option-cases v.rate) [
    | inl absent ↦
        ap (λ w. lane_of floats j w b outputs scans) (car_tick_none floats n j clock v absent)
    | inr (r, present) ↦
        ap (λ w. lane_of floats j w b outputs scans) (car_tick_some floats n j clock v r present)
        ∙ (λ i. record (lane_of floats j v b outputs scans) {
          flow =
              quiet v.events (stats_of n clock v r) refl i
              ++ results_of floats j outputs
              ++ results_of floats j b.unsent;
        })
  ]

  pub lane-hears :
      (n : ℕ) (e : CarEvent t) (now : ℕ) (starts : Bool) (s : System t)
      → IsSound floats n s.pipeline
      → Moves
          (lane floats j s)
          (lane floats j (System.hear floats codec proto lib grids e now starts s))
  unfolding System.hear
  lane-hears n e now starts s sound =
      subst
        (λ v.
          Moves (lane floats j s) (
            lane_of floats j v (s.threads j) (of_car j s.channel)
              (frames_of j (s.heard ++ e ∷ []))))
        (sym (view-step floats codec n j s.pipeline (received e now starts) sound))
        (lane-received n e now starts (view j s.pipeline) (s.threads j) (of_car j s.channel)
          s.heard)
