-- ===== src/Pipeline/Refines.antt =====
-- The pipeline is, for each car, the one-car machine of `Car`.
use olivaw_hub.Prelude.{
  false, ℕ, ◌+◌, ◌%◌, ◌^◌, ◌≡◌, Bool, none, some, [], ◌∷◌, ◌++◌, arith, append-nil, append_assoc,
}
use olivaw_hub.Text.{Text, text_eq_refl}
use olivaw_hub.Dict.{Dict, get, insert, contains_key, entry_or, get-insert, get-insert_self}
use olivaw_hub.External.{Types, Floats}
use olivaw_hub.Ingest
use olivaw_hub.Ingest.{CarEvent, EventKind}
use olivaw_hub.Slam.Worker.{SlamOutput, tracked, map_output, SlamWorker, submit}
use olivaw_hub.State
use olivaw_hub.State.{CarSnapshot, Hub, WsEvent, fresh, car_or_new, update_car, emit}
use olivaw_hub.State.Cars.{car_or_new-update_car}
use olivaw_hub.Pipeline.{
  Pipeline, with_pose, info_of, on_status, on_telemetry, count_scan, ensure_worker, submit_to,
  spawn, on_scan, on_slam,
}
use olivaw_hub.Pipeline.Others.{events_of-append}
use olivaw_hub.Pipeline.Car.{view, events_of, handed, scanned, known, hear, place}

module _ {t : Types} (floats : Floats t) where
  car_or_new-known :
      (hub : Hub t) (n : ℕ) (j : Text) → car_or_new floats hub j ≡ known floats n j (get j hub.cars)
  unfolding car_or_new entry_or known
  car_or_new-known hub n j = ground arith

  abbrev pub stamp : ℕ → CarSnapshot t → CarSnapshot t
  stamp at_ms c = record c { last_seen_ms = at_ms }

  abbrev pub stamped : Text → ℕ → Pipeline t → Pipeline t
  stamped j at_ms s = record s { hub = update_car floats s.hub j (stamp at_ms) }

  pub view-on_status :
      (n : ℕ) (j text : Text) (at_ms now : ℕ) (starts : Bool) (s : Pipeline t)
      → view j (on_status floats j text (stamped j at_ms s))
        ≡ hear floats n j at_ms
            (Ingest.status text)
            now
            starts
            (known floats n j (get j s.hub.cars))
            (view j s)
  unfolding on_status hear update_car emit
  view-on_status n j text at_ms now starts s =
      let c = car_or_new floats s.hub j in
      let first = insert j (stamp at_ms c) s.hub.cars in
      ground (
        arith,
        car_or_new-known s.hub n j,
        car_or_new-update_car floats s.hub j j (stamp at_ms),
        get-insert j j (record c { last_seen_ms = at_ms; status = text }) first,
        text_eq_refl j,
        events_of-append j s.hub.events (State.status j text),
        append-nil (events_of j s.hub.events),
      )

  pub view-on_telemetry :
      (n : ℕ) (j : Text) (x : t.Telemetry) (at_ms now : ℕ) (starts : Bool) (s : Pipeline t)
      → view j (on_telemetry floats j x at_ms (stamped j at_ms s))
        ≡ hear floats n j at_ms
            (Ingest.telemetry x)
            now
            starts
            (known floats n j (get j s.hub.cars))
            (view j s)
  unfolding on_telemetry hear update_car emit
  view-on_telemetry n j x at_ms now starts s =
      let c = car_or_new floats s.hub j in
      let first = insert j (stamp at_ms c) s.hub.cars in
      ground (
        arith,
        car_or_new-known s.hub n j,
        car_or_new-update_car floats s.hub j j (stamp at_ms),
        get-insert j j (record c { last_seen_ms = at_ms; telemetry = some x }) first,
        text_eq_refl j,
        events_of-append j s.hub.events (State.telemetry j x at_ms),
      )

  get-submit_to :
      (j : Text) (frame : t.ScanFrame) (starts : Bool) (workers : Dict (SlamWorker t))
      → get j (elim (ensure_worker floats j starts workers) [
        | none ↦ workers
        | some ws ↦ submit_to floats j frame ws
      ])
        ≡ handed starts frame (get j workers)
  unfolding ensure_worker submit_to spawn submit contains_key handed
  get-submit_to j frame starts workers = ground (
    arith,
    get-insert_self j empty workers,
    get-insert_self j full (insert j empty workers),
    get-insert_self j full workers,
  )
    where
      empty : SlamWorker t
      empty = record { slot = none; asleep = false }

      full : SlamWorker t
      full = record { slot = some frame; asleep = false }

  -- `on_scan` in one record, for its parts to be looked up.
  on_scan_parts :
      (car : Text) (frame : t.ScanFrame) (now : ℕ) (starts : Bool) (s : Pipeline t)
      → on_scan floats car frame now starts s ≡ record (count_scan floats car now s) {
        workers = elim (ensure_worker floats car starts s.workers) [
          | none ↦ s.workers
          | some ws ↦ submit_to floats car frame ws
        ];
      }
  unfolding on_scan count_scan
  on_scan_parts car frame now starts s = ground arith

  pub view-on_scan :
      (n : ℕ) (j : Text) (frame : t.ScanFrame) (at_ms now : ℕ) (starts : Bool) (s : Pipeline t)
      → view j (on_scan floats j frame now starts (stamped j at_ms s))
        ≡ hear floats n j at_ms
            (Ingest.scan frame)
            now
            starts
            (known floats n j (get j s.hub.cars))
            (view j s)
  unfolding count_scan hear update_car entry_or
  view-on_scan n j frame at_ms now starts s =
      let c = car_or_new floats s.hub j in
      let first = insert j (stamp at_ms c) s.hub.cars in
      let last : CarSnapshot t = record c {
        last_seen_ms = at_ms;
        scans_total = (c.scans_total + 1) % 2 ^ 64;
      } in
      rw (on_scan_parts j frame now starts (stamped j at_ms s)) (
        ground (
          arith,
          car_or_new-known s.hub n j,
          car_or_new-update_car floats s.hub j j (stamp at_ms),
          get-insert_self j last first,
          get-insert_self j (scanned now (get j s.rates)) s.rates,
          text_eq_refl j,
          get-submit_to j frame starts s.workers,
        ))

  pub view-tracked :
      (n : ℕ) (j : Text) (output : SlamOutput t) (s : Pipeline t)
      → s.hub.cfg.slam.trajectory_len ≡ n
      → view j (record s { hub = on_slam floats j output s.hub })
        ≡ place floats n j output (known floats n j (get j s.hub.cars)) (view j s)
  unfolding on_slam place update_car emit
  view-tracked n j (tracked pose world) s e =
      let c = car_or_new floats s.hub j in
      ground (
        arith,
        car_or_new-known s.hub n j,
        get-insert_self j (with_pose floats n pose world c) s.hub.cars,
        text_eq_refl j,
        events_of-append j s.hub.events (State.pose j pose),
        events_of-append j (s.hub.events ++ State.pose j pose ∷ []) (State.scan j pose.seq world),
        append_assoc (events_of j s.hub.events) (State.pose j pose ∷ [])
            (State.scan j pose.seq world ∷ []),
      )
  view-tracked n j (map_output m) s e =
      let hub : Hub t = record s.hub { maps = insert j m s.hub.maps } in
      let c = car_or_new floats hub j in
      ground (
        arith,
        car_or_new-known hub n j,
        get-insert_self j (record c { map = some (info_of floats j m) }) s.hub.cars,
        get-insert_self j m s.hub.maps,
        text_eq_refl j,
        events_of-append j s.hub.events (State.map j (info_of floats j m)),
      )
