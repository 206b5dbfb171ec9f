-- ===== src/Pipeline/Others.antt =====
-- What the pipeline leaves alone: all that it holds about a car that an input is not about.
use olivaw_hub.Prelude.{
  ℕ, ◌+◌, ◌%◌, ◌^◌, ◌≡◌, refl, ◌∙◌, inl, inr, Bool, false, none, some, List, [], ◌∷◌, ◌++◌,
  if◌then◌else◌, arith, Option-cases,
}
use olivaw_hub.Text.{Text, text_eq}
use olivaw_hub.Dict.{Dict, get, insert, contains_key, entry_or, get-insert, get-insert_self}
use olivaw_hub.External.{Types, Floats}
use olivaw_hub.Ingest
use olivaw_hub.Ingest.{CarEvent, EventKind}
use olivaw_hub.Slam.Worker.{SlamOutput, tracked, map_output, SlamWorker, submit}
use olivaw_hub.State
use olivaw_hub.State.{CarSnapshot, Hub, WsEvent, fresh, car_or_new, update_car, emit}
use olivaw_hub.Pipeline.{
  Pipeline, CarRate, with_pose, info_of, on_status, on_telemetry, count_scan, ensure_worker,
  submit_to, spawn, on_scan, on_kind, on_event, on_slam,
}
use olivaw_hub.Pipeline.Car.{view, events_of, is_about}

module _ {t : Types} where
  pub events_of-append :
      (j : Text) (es : List (WsEvent t)) (e : WsEvent t)
      → events_of j (es ++ e ∷ [])
        ≡ (if is_about j e then events_of j es ++ e ∷ [] else events_of j es)
  events_of-append j [] e = refl
  events_of-append j (d ∷ es) e = ground (arith, events_of-append j es e)

module _ {t : Types} (floats : Floats t) (j car : Text) (other : text_eq car j ≡ false) where
  get-insert_other {ℓ} : {V : Type ℓ} (v : V) (m : Dict V) → get j (insert car v m) ≡ get j m
  get-insert_other v m = rw (get-insert, other)

  pub view-update_other :
      (s : Pipeline t) (f : CarSnapshot t → CarSnapshot t)
      → view j (record s { hub = update_car floats s.hub car f }) ≡ view j s
  unfolding update_car
  view-update_other s f =
      ground (arith, get-insert_other (f (car_or_new floats s.hub car)) s.hub.cars)

  pub view-emit_other :
      (s : Pipeline t) (e : WsEvent t)
      → is_about j e ≡ false
      → view j (record s { hub = emit s.hub e }) ≡ view j s
  unfolding emit
  view-emit_other s e h = ground (arith, events_of-append j s.hub.events e)

  view-scan_other :
      (frame : t.ScanFrame) (now : ℕ) (starts : Bool) (s : Pipeline t)
      → view j (on_scan floats car frame now starts s) ≡ view j s
  unfolding on_scan count_scan ensure_worker submit_to spawn contains_key
  view-scan_other frame now starts s =
      let f : CarSnapshot t → CarSnapshot t =
        λ c. record c { scans_total = (c.scans_total + 1) % 2 ^ 64 } in
      let empty : SlamWorker t = record { slot = none; asleep = false } in
      let r = entry_or car (record { window_start = now; scans_in_window = 0 }) s.rates in
      let r' : CarRate = record r { scans_in_window = (r.scans_in_window + 1) % 2 ^ 32 } in
      let full : SlamWorker t = submit empty frame in
      elim (Option-cases (get car s.workers)) [
        | inl absent ↦ ground (
          arith,
          view-update_other s f,
          get-insert_other r' s.rates,
          get-insert_other empty s.workers,
          get-insert_self car empty s.workers,
          get-insert_other full (insert car empty s.workers),
        )
        | inr (w, present) ↦ ground (
          arith,
          view-update_other s f,
          get-insert_other r' s.rates,
          get-insert_other (submit w frame) s.workers,
        )
      ]

  view-on_kind_other :
      (at_ms : ℕ) (kind : EventKind t) (now : ℕ) (starts : Bool) (s : Pipeline t)
      → view j (on_kind floats car at_ms kind now starts s) ≡ view j s
  unfolding on_kind on_status on_telemetry
  view-on_kind_other at_ms (Ingest.status text) now starts s =
      let f : CarSnapshot t → CarSnapshot t = λ c. record c { status = text } in
      let hub = update_car floats s.hub car f in
      ground (
        arith,
        view-update_other s f,
        view-emit_other (record s { hub = hub }) (State.status car text) other,
      )
  view-on_kind_other at_ms (Ingest.telemetry x) now starts s =
      let f : CarSnapshot t → CarSnapshot t = λ c. record c { telemetry = some x } in
      let hub = update_car floats s.hub car f in
      view-emit_other (record s { hub = hub }) (State.telemetry car x at_ms) other
      ∙ view-update_other s f
  view-on_kind_other at_ms (Ingest.scan frame) now starts s = view-scan_other frame now starts s

  pub view-on_event_other :
      (e : CarEvent t) (now : ℕ) (starts : Bool) (s : Pipeline t)
      → e.car ≡ car
      → view j (on_event floats e now starts s) ≡ view j s
  unfolding on_event
  view-on_event_other e now starts s h =
      let f : CarSnapshot t → CarSnapshot t = λ c. record c { last_seen_ms = e.at_ms } in
      rw h (
        view-on_kind_other e.at_ms e.kind now starts
          (record s { hub = update_car floats s.hub car f })
        ∙ view-update_other s f)

  pub view-on_slam_other :
      (output : SlamOutput t) (s : Pipeline t)
      → view j (record s { hub = on_slam floats car output s.hub }) ≡ view j s
  unfolding on_slam
  view-on_slam_other (tracked pose world) s =
      let f = with_pose floats s.hub.cfg.slam.trajectory_len pose world in
      let hub = update_car floats s.hub car f in
      let e = State.pose car pose in
      view-emit_other (record s { hub = emit hub e }) (State.scan car pose.seq world) other
      ∙ view-emit_other (record s { hub = hub }) e other
      ∙ view-update_other s f
  view-on_slam_other (map_output m) s =
      let f : CarSnapshot t → CarSnapshot t = λ c. record c { map = some (info_of floats car m) } in
      let hub : Hub t = record s.hub { maps = insert car m s.hub.maps } in
      let e = State.map car (info_of floats car m) in
      view-emit_other (record s { hub = update_car floats hub car f }) e other
      ∙ view-update_other (record s { hub = hub }) f
      ∙ ground (arith, get-insert_other m s.hub.maps)
