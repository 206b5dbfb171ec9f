-- ===== src/System/Refines.antt =====
-- The refinement: each step of the hub, seen from one car, is a step of that car's lane.
use olivaw_hub.Prelude.{false, ℕ, ◌≡◌, refl, sym, ap, ◌∙◌, subst, Option}
use olivaw_hub.Text.{Text}
use olivaw_hub.Dict.{get}
use olivaw_hub.External.{Types, Floats, Proto, SlamLib}
use olivaw_hub.Config.{HubConfig}
use olivaw_hub.Postcard.{Postcard}
use olivaw_hub.Slam.MapPng.{GridLib}
use olivaw_hub.State
use olivaw_hub.State.{CarSnapshot, WsEvent}
use olivaw_hub.Pipeline.{received, slam_result, stats_tick, init, Input, step}
use olivaw_hub.Pipeline.Car.{view}
use olivaw_hub.Ingest.Mqtt.{Commander}
use olivaw_hub.Session.Recorder.{Recorder}
use olivaw_hub.Pipeline.Counts.{IsSound-init}
use olivaw_hub.Pipeline.Sound.{IsSound, step-IsSound, cfg-step}
use olivaw_hub.Pipeline.Machine.{view-step}
use olivaw_hub.System
use olivaw_hub.System.{Busy, System, set_thread, tuning_of, Step, Reach}
use olivaw_hub.System.Lane
use olivaw_hub.System.Lane.{
  Result, posed, mapped, Lane, results_in, of_car, frames_of, scan_of, slot_of, results_in-append,
  of_car-append, frames_of-append, results_of, results_of-append, lane_of, lane, LaneStep, rests,
  misses, LaneReach, opened,
}
use olivaw_hub.System.Heard.{lane-delivered, lane-ticked, lane-hears}
use olivaw_hub.System.Threads.{lane-reply, lane-take, lane-set_mailbox, lane-handle}
use olivaw_hub.Slam.Worker.Mailbox.{slot-fall_asleep}

module _ {t : Types} (floats : Floats t) (proto : Proto t) (lib : SlamLib t) (grids : GridLib t)
    (cfg : HubConfig t) (j : Text) (codec : Postcard t) where
  abbrev Moves : Lane t → Lane t → Type 0
  Moves = LaneStep floats proto lib grids (tuning_of cfg) j

  -- One step of the hub, seen from the car `j`.
  pub lane-Step :
      (n : ℕ) (x y : System t)
      → IsSound floats n x.pipeline
      → x.pipeline.hub.cfg ≡ cfg
      → Step floats codec proto lib grids x y
      → Moves (lane floats j x) (lane floats j y)
  unfolding System.deliver System.tick
  lane-Step n x y sound c (System.hears e now starts eq) =
      subst (λ z. Moves (lane floats j x) (lane floats j z)) (sym eq)
        (lane-hears floats proto lib grids cfg j codec n e now starts x sound)
  lane-Step n x y sound c (System.ticks clock eq) = rests (
      ap (lane floats j) eq
      ∙ ap (λ v. lane_of floats j v (x.threads j) (of_car j x.channel) (frames_of j x.heard))
          (view-step floats codec n j x.pipeline (stats_tick clock) sound)
      ∙ lane-ticked floats proto lib grids cfg j codec n clock (view j x.pipeline) (x.threads j)
          (of_car j x.channel) (frames_of j x.heard))
  lane-Step n x y sound c (System.delivers car output rest first eq) = rests (
      ap (lane floats j) eq
      ∙ ap (λ v. lane_of floats j v (x.threads j) (of_car j rest) (frames_of j x.heard))
          (view-step floats codec n j x.pipeline (slam_result car output) sound)
      ∙ lane-delivered floats proto lib grids cfg j codec n car output rest (view j x.pipeline)
          (x.threads j) (frames_of j x.heard)
      ∙ ap
          (λ l.
            lane_of floats j (view j x.pipeline) (x.threads j) (of_car j l) (frames_of j x.heard))
          (sym first))
  lane-Step n x y sound c (System.takes car w left th frame idle own took eq) =
      subst (λ z. Moves (lane floats j x) (lane floats j z)) (sym eq)
        (lane-take floats proto lib grids cfg j codec car w left th frame x idle own took)
  lane-Step n x y sound c (System.sleeps car w left th idle own h eq) =
      let (empty, empty') = slot-fall_asleep w left h in
      rests (
        ap (lane floats j) eq
        ∙ lane-set_mailbox floats proto lib grids cfg j codec car w left x own (empty' ∙ sym empty))
  lane-Step n x y sound c (System.wakes car w own sleeping eq) = rests (
      ap (lane floats j) eq
      ∙ lane-set_mailbox floats proto lib grids cfg j codec car w (record w { asleep = false }) x
          own refl)
  lane-Step n x y sound c (System.handles car th frame round goes_on holds eq) =
      subst (λ z. Moves (lane floats j x) (lane floats j z)) (sym eq)
        (lane-handle floats proto lib grids cfg j codec car th frame round x c goes_on holds)
  lane-Step n x y sound c (System.replies car output rest first eq) = rests (
      ap (lane floats j) eq ∙ lane-reply floats proto lib grids cfg j codec car output rest x first)

module _ {t : Types} (floats : Floats t) (proto : Proto t) (lib : SlamLib t) (grids : GridLib t)
    (codec : Postcard t) (cfg : HubConfig t) (commander : Commander)
    (recorder : Option Recorder) where
  abbrev Reaches : System t → Type 0
  Reaches = Reach floats codec proto lib grids cfg commander recorder

  -- From `x` to `y` the pipeline stays sound and the configuration the same.
  abbrev Keeps : ℕ → System t → System t → Type 0
  Keeps n x y = IsSound floats n y.pipeline × (y.pipeline.hub.cfg ≡ x.pipeline.hub.cfg)

  Keeps-step :
      (n : ℕ) (x : System t) (i : Input t)
      → IsSound floats n x.pipeline
      → Keeps n x (record x { pipeline = step floats codec x.pipeline i })
  Keeps-step n x i sound =
      (step-IsSound floats codec n x.pipeline i sound, cfg-step floats codec x.pipeline i)

  pipeline-Step :
      (n : ℕ) (x y : System t)
      → IsSound floats n x.pipeline
      → Step floats codec proto lib grids x y
      → Keeps n x y
  unfolding System.hear System.tick System.deliver System.take System.set_mailbox System.handle
      System.reply
  pipeline-Step n x y sound (System.hears e now starts eq) =
      subst (Keeps n x) (sym eq) (Keeps-step n x (received e now starts) sound)
  pipeline-Step n x y sound (System.ticks clock eq) =
      subst (Keeps n x) (sym eq) (Keeps-step n x (stats_tick clock) sound)
  pipeline-Step n x y sound (System.delivers car output rest first eq) =
      subst (Keeps n x) (sym eq) (Keeps-step n x (slam_result car output) sound)
  pipeline-Step n x y sound (System.takes car w left th frame idle own took eq) =
      subst (Keeps n x) (sym eq)
        (record { rates = sound.rates; configured = sound.configured }, refl)
  pipeline-Step n x y sound (System.sleeps car w left th idle own h eq) =
      subst (Keeps n x) (sym eq)
        (record { rates = sound.rates; configured = sound.configured }, refl)
  pipeline-Step n x y sound (System.wakes car w own sleeping eq) =
      subst (Keeps n x) (sym eq)
        (record { rates = sound.rates; configured = sound.configured }, refl)
  pipeline-Step n x y sound (System.handles car th frame round goes_on holds eq) =
      subst (Keeps n x) (sym eq) (sound, refl)
  pipeline-Step n x y sound (System.replies car output rest first eq) =
      subst (Keeps n x) (sym eq) (sound, refl)

  pub pipeline-Reach :
      (s : System t)
      → Reaches s
      → IsSound floats cfg.slam.trajectory_len s.pipeline × (s.pipeline.hub.cfg ≡ cfg)
  unfolding System.boot init State.new
  pipeline-Reach s System.booted = (IsSound-init floats cfg commander recorder, refl)
  pipeline-Reach s (System.later {x} r st) =
      let (sound, c) = pipeline-Reach x r in
      let (sound', c') = pipeline-Step cfg.slam.trajectory_len x s sound st in (sound', c' ∙ c)

  -- In every state that the hub comes to, whatever the order is in which the pipeline and the threads
  -- act, what it holds of a car's scans is a state of that car's lane alone: one mailbox, one thread,
  -- and the results in one list.
  pub lane-Reach :
      (s : System t) (j : Text)
      → Reaches s
      → LaneReach floats proto lib grids (tuning_of cfg) j (lane floats j s)
  unfolding System.boot init State.new get
  lane-Reach s j System.booted = opened
  lane-Reach s j (System.later {x} r st) =
      let (sound, c) = pipeline-Reach x r in
      Lane.later (lane-Reach x j r)
        (lane-Step floats proto lib grids cfg j codec cfg.slam.trajectory_len x s sound c st)
