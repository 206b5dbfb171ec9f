-- ===== src/Api/Client/Sync.antt =====
-- The events that the machine of a car emits overwrite just what changes in the car's snapshot.
use olivaw_hub.Prelude.{
  ℕ, ◌≡◌, refl, sym, ap, ◌∙◌, subst, inl, inr, Bool, Option, none, some, List, [], ◌∷◌, ◌++◌,
  append-nil, append_assoc, Bool-cases, Option-cases,
}
use olivaw_hub.Text.{Text, text_eq, text_eq_iff}
use olivaw_hub.External.{Types, Floats}
use olivaw_hub.Ingest
use olivaw_hub.Ingest.{EventKind}
use olivaw_hub.Slam.Worker.{SlamOutput, tracked, map_output}
use olivaw_hub.State
use olivaw_hub.State.{CarSnapshot, WsEvent}
use olivaw_hub.Pipeline.{Input, received, slam_result, stats_tick, with_pose, info_of, rate_hz}
use olivaw_hub.Pipeline.Car.{
  Car, known, hear, place, restart, car_step, car_run, car_tick_none, car_tick_some,
}
use olivaw_hub.Api.Client.{overlay, patches, patches-append, shown_of, shown_or_new}

module _ {t : Types} (floats : Floats t) (n : ℕ) (j : Text) where
  -- From `v` to `w` the events `new` were emitted, and a client that sees them is brought up to date.
  pub record Synced (v w : Car t) : Type 0 where
    pub new : List (WsEvent t)
    pub emitted : w.events ≡ v.events ++ new
    pub up_to_date :
        overlay (shown_or_new floats j v.seen) (patches new) ≡ shown_or_new floats j w.seen

  shown-known :
      (o : Option (CarSnapshot t)) → shown_of floats (known floats n j o) ≡ shown_or_new floats j o
  unfolding known
  shown-known none = refl
  shown-known (some c) = refl

  Synced-refl : (v : Car t) → Synced v v
  Synced-refl v = record { new = []; emitted = sym (append-nil v.events); up_to_date = refl }

  pub Synced-trans : (u v w : Car t) → Synced u v → Synced v w → Synced u w
  Synced-trans u v w f g = record {
    new = f.new ++ g.new;
    emitted = g.emitted ∙ ap (λ l. l ++ g.new) f.emitted ∙ append_assoc u.events f.new g.new;
    up_to_date =
        patches-append (shown_or_new floats j u.seen) f.new g.new
        ∙ ap (λ s. overlay s (patches g.new)) f.up_to_date
        ∙ g.up_to_date;
  }

  -- What was known of the car is what a client shows, also of a car that is new.
  overlay-known :
      (v : Car t) (new : List (WsEvent t))
      → overlay (shown_or_new floats j v.seen) (patches new)
        ≡ overlay (shown_of floats (known floats n j v.seen)) (patches new)
  overlay-known v new = ap (λ s. overlay s (patches new)) (sym (shown-known v.seen))

  hear-Synced :
      (v : Car t) (at_ms : ℕ) (kind : EventKind t) (now : ℕ) (starts : Bool)
      → Synced v (hear floats n j at_ms kind now starts (known floats n j v.seen) v)
  unfolding hear
  hear-Synced v at_ms (Ingest.status text) now starts =
      let c = known floats n j v.seen in
      elim (Bool-cases (text_eq c.status text)) [
        | inl same ↦
            let e = (text_eq_iff c.status text).0 same in
            record {
              new = [];
              emitted = rw same refl;
              up_to_date = overlay-known v [] ∙ (λ i. record (shown_of floats c) { status = e i });
            }
        | inr other ↦ record {
          new = State.status j text ∷ [];
          emitted = rw other refl;
          up_to_date = overlay-known v (State.status j text ∷ []);
        }
      ]
  hear-Synced v at_ms (Ingest.telemetry x) now starts = record {
    new = State.telemetry j x at_ms ∷ [];
    emitted = refl;
    up_to_date = overlay-known v (State.telemetry j x at_ms ∷ []);
  }
  hear-Synced v at_ms (Ingest.scan frame) now starts = record {
    new = [];
    emitted = sym (append-nil v.events);
    up_to_date = overlay-known v [];
  }

  place-Synced :
      (v : Car t) (output : SlamOutput t)
      → Synced v (place floats n j output (known floats n j v.seen) v)
  unfolding place with_pose
  place-Synced v (tracked pose world) =
      let new = State.pose j pose ∷ State.scan j pose.seq world ∷ [] in
      record { new = new; emitted = refl; up_to_date = overlay-known v new }
  place-Synced v (map_output m) =
      let new = State.map j (info_of floats j m) ∷ [] in
      record { new = new; emitted = refl; up_to_date = overlay-known v new }

  car_step-Synced : (v : Car t) (i : Input t) → Synced v (car_step floats n j v i)
  unfolding car_step restart
  car_step-Synced v (received e now starts) = elim (Bool-cases (text_eq e.car j)) [
    | inl own ↦ rw own (hear-Synced v e.at_ms e.kind now starts)
    | inr other ↦ rw other (Synced-refl v)
  ]
  car_step-Synced v (slam_result car output) = elim (Bool-cases (text_eq car j)) [
    | inl own ↦ rw own (place-Synced v output)
    | inr other ↦ rw other (Synced-refl v)
  ]
  car_step-Synced v (stats_tick clock) = elim (Option-cases v.rate) [
    | inl absent ↦ subst (Synced v) (sym (car_tick_none floats n j clock v absent)) (Synced-refl v)
    | inr (r, present) ↦
        let c = known floats n j v.seen in
        let new = State.stats j (rate_hz floats r (clock j).0) c.scans_total ∷ [] in
        subst (Synced v) (sym (car_tick_some floats n j clock v r present))
          (record { new = new; emitted = refl; up_to_date = overlay-known v new })
  ]

  pub car_run-Synced : (v : Car t) (is : List (Input t)) → Synced v (car_run floats n j v is)
  unfolding car_run
  car_run-Synced v [] = Synced-refl v
  car_run-Synced v (i ∷ is) =
      Synced-trans v (car_step floats n j v i) (car_run floats n j (car_step floats n j v i) is)
        (car_step-Synced v i) (car_run-Synced (car_step floats n j v i) is)
