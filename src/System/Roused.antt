-- ===== src/System/Roused.antt =====
-- No thread sleeps while a frame waits for it: no wake-up is lost.
use olivaw_hub.Prelude.{
  ℕ, ◌≡◌, refl, sym, subst, inl, inr, Bool, true, false, Option, none, some, arith, Bool-cases,
  Option-cases,
}
use olivaw_hub.Text.{Text, text_eq}
use olivaw_hub.Dict.{get, insert, get-insert}
use olivaw_hub.External.{Types, Floats, Proto, SlamLib}
use olivaw_hub.Config.{HubConfig}
use olivaw_hub.Ingest
use olivaw_hub.Ingest.{EventKind}
use olivaw_hub.Ingest.Mqtt.{Commander}
use olivaw_hub.Postcard.{Postcard}
use olivaw_hub.Session.Recorder.{Recorder}
use olivaw_hub.Slam.MapPng.{GridLib}
use olivaw_hub.Slam.Worker.{SlamOutput, SlamWorker, tracked, map_output}
use olivaw_hub.Slam.Worker.Mailbox.{NoneMissed, take_frame-NoneMissed, slot-fall_asleep}
use olivaw_hub.State
use olivaw_hub.State.{CarSnapshot}
use olivaw_hub.Pipeline.{Pipeline, Input, received, slam_result, stats_tick, init, step}
use olivaw_hub.Pipeline.Car.{
  Car, view, known, hear, handed, place, restart, car_step, car_tick_none, car_tick_some,
}
use olivaw_hub.Pipeline.Sound.{IsSound}
use olivaw_hub.Pipeline.Machine.{view-step}
use olivaw_hub.System
use olivaw_hub.System.{System, Step, Reach}
use olivaw_hub.System.Refines.{pipeline-Reach}

-- Of a car's worker, if there is one.
abbrev pub Roused : {t : Types} → Option (SlamWorker t) → Type 0
Roused {t} o = (w : SlamWorker t) → o ≡ some w → NoneMissed w

module _ {t : Types} where
  Roused-some : (w : SlamWorker t) → NoneMissed w → Roused (some w)
  Roused-some w h v e frame waits =
      let same : w ≡ v = ground arith in subst NoneMissed same h frame waits

  handed-Roused :
      (starts : Bool) (frame : t.ScanFrame) (o : Option (SlamWorker t))
      → Roused (handed starts frame o)
  unfolding handed
  handed-Roused starts frame (some w) = Roused-some _ (λ f h. refl)
  handed-Roused true frame none = Roused-some _ (λ f h. refl)
  handed-Roused false frame none = λ w e. absurd (ground arith)

module _ {t : Types} (floats : Floats t) (n : ℕ) (j : Text) where
  hear-Roused :
      (at_ms : ℕ) (kind : EventKind t) (now : ℕ) (starts : Bool) (c : CarSnapshot t) (v : Car t)
      → Roused v.worker
      → Roused (hear floats n j at_ms kind now starts c v).worker
  unfolding hear
  hear-Roused at_ms (Ingest.status text) now starts c v h = h
  hear-Roused at_ms (Ingest.telemetry x) now starts c v h = h
  hear-Roused at_ms (Ingest.scan frame) now starts c v h = handed-Roused starts frame v.worker

  place-Roused :
      (output : SlamOutput t) (c : CarSnapshot t) (v : Car t)
      → Roused v.worker
      → Roused (place floats n j output c v).worker
  unfolding place
  place-Roused (tracked pose world) c v h = h
  place-Roused (map_output m) c v h = h

  car_step-Roused :
      (v : Car t) (i : Input t) → Roused v.worker → Roused (car_step floats n j v i).worker
  unfolding car_step restart
  car_step-Roused v (received e now starts) h = elim (Bool-cases (text_eq e.car j)) [
    | inl own ↦ rw own (hear-Roused e.at_ms e.kind now starts (known floats n j v.seen) v h)
    | inr other ↦ rw other h
  ]
  car_step-Roused v (slam_result car output) h = elim (Bool-cases (text_eq car j)) [
    | inl own ↦ rw own (place-Roused output (known floats n j v.seen) v h)
    | inr other ↦ rw other h
  ]
  car_step-Roused v (stats_tick clock) h = elim (Option-cases v.rate) [
    | inl absent ↦ subst (λ c. Roused c.worker) (sym (car_tick_none floats n j clock v absent)) h
    | inr (r, present) ↦
        subst (λ c. Roused c.worker) (sym (car_tick_some floats n j clock v r present)) h
  ]

  insert-Roused :
      (car : Text) (w : SlamWorker t) (s : Pipeline t)
      → NoneMissed w
      → Roused (get j s.workers)
      → Roused (get j (insert car w s.workers))
  insert-Roused car w s h rest = rw get-insert (elim (Bool-cases (text_eq car j)) [
    | inl own ↦ rw own (Roused-some w h)
    | inr other ↦ rw other rest
  ])

module _ {t : Types} (floats : Floats t) (proto : Proto t) (lib : SlamLib t) (grids : GridLib t)
    (codec : Postcard t) where
  step-Roused :
      (n : ℕ) (j : Text) (s : Pipeline t) (i : Input t)
      → IsSound floats n s
      → Roused (get j s.workers)
      → Roused (get j (step floats codec s i).workers)
  step-Roused n j s i sound h =
      subst (λ v. Roused v.worker) (sym (view-step floats codec n j s i sound))
        (car_step-Roused floats n j (view j s) i h)

  abbrev At : Text → System t → Type 0
  At j s = Roused (get j s.pipeline.workers)

  Step-Roused :
      (n : ℕ) (j : Text) (x y : System t)
      → IsSound floats n x.pipeline
      → Step floats codec proto lib grids x y
      → At j x
      → At j y
  unfolding System.hear System.tick System.deliver System.take System.set_mailbox System.handle
      System.reply
  Step-Roused n j x y sound (System.hears e now starts eq) h =
      subst (At j) (sym eq) (step-Roused n j x.pipeline (received e now starts) sound h)
  Step-Roused n j x y sound (System.ticks clock eq) h =
      subst (At j) (sym eq) (step-Roused n j x.pipeline (stats_tick clock) sound h)
  Step-Roused n j x y sound (System.delivers car output rest first eq) h =
      subst (At j) (sym eq) (step-Roused n j x.pipeline (slam_result car output) sound h)
  Step-Roused n j x y sound (System.takes car w left th frame idle own took eq) h =
      subst (At j) (sym eq)
        (insert-Roused floats n j car left x.pipeline (take_frame-NoneMissed w left frame took) h)
  Step-Roused n j x y sound (System.sleeps car w left th idle own slept eq) h =
      let (_, empty) = slot-fall_asleep w left slept in
      subst (At j) (sym eq)
        (insert-Roused floats n j car left x.pipeline (λ frame full. absurd (ground arith)) h)
  Step-Roused n j x y sound (System.wakes car w own sleeping eq) h =
      subst (At j) (sym eq) (
        insert-Roused floats n j car (record w { asleep = false }) x.pipeline (λ frame full. refl)
          h)
  Step-Roused n j x y sound (System.handles car th frame round goes_on holds eq) h =
      subst (At j) (sym eq) h
  Step-Roused n j x y sound (System.replies car output rest first eq) h = subst (At j) (sym eq) h

  pub Reach-Roused :
      (cfg : HubConfig t) (commander : Commander) (recorder : Option Recorder) (j : Text)
      (s : System t)
      → Reach floats codec proto lib grids cfg commander recorder s
      → Roused (get j s.pipeline.workers)
  unfolding System.boot init State.new get
  Reach-Roused cfg commander recorder j s System.booted = λ w e. absurd (ground arith)
  Reach-Roused cfg commander recorder j s (System.later {x} r st) =
      let (sound, _) = pipeline-Reach floats proto lib grids codec cfg commander recorder x r in
      Step-Roused cfg.slam.trajectory_len j x s sound st (Reach-Roused cfg commander recorder j x r)
