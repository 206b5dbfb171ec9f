-- ===== src/Start/Sources.antt =====
-- Which source of events `main` starts.
use olivaw_hub.Prelude.{◌≡◌, refl, Bool, true, false, not, ◌&&◌, Option, none, some, arith}
use olivaw_hub.External.{Types, Floats}
use olivaw_hub.Config.{HubConfig}
use olivaw_hub.Postcard.{Postcard}
use olivaw_hub.State.{Hub}
use olivaw_hub.Start.{
  Args, Outside, Task, replaying, broker, subscriber, server, Stage, ok, ◌>>◌, require, load_config,
  start_broker, start_sources, main,
}
use olivaw_hub.Start.Order.{any, Has, bind-Has, require-Never}
use olivaw_hub.Start.Quiet.{
  a_simulator, a_serial, a_logger, a_viewer, a_commander, a_pipeline, Sources, after_sources,
  after_sources-Never,
}

abbrev pub is_some : {A : Type 0} → Option A → Bool
is_some none = false
is_some (some a) = true

module _ {t : Types} where
  -- The three kinds of source.
  abbrev pub is_replay : Task t → Bool
  is_replay (replaying file speed) = true
  is_replay _ = false

  abbrev pub is_broker : Task t → Bool
  is_broker (broker cfg) = true
  is_broker _ = false

  abbrev pub is_subscriber : Task t → Bool
  is_subscriber (subscriber cfg) = true
  is_subscriber _ = false

  replay-Sources : Sources is_replay
  replay-Sources task (a_simulator cfg) = refl
  replay-Sources task (a_serial port car) = refl
  replay-Sources task a_logger = refl
  replay-Sources task a_viewer = refl
  replay-Sources task (a_commander cfg) = refl
  replay-Sources task (a_pipeline hub recorder) = refl

  broker-Sources : Sources is_broker
  broker-Sources task (a_simulator cfg) = refl
  broker-Sources task (a_serial port car) = refl
  broker-Sources task a_logger = refl
  broker-Sources task a_viewer = refl
  broker-Sources task (a_commander cfg) = refl
  broker-Sources task (a_pipeline hub recorder) = refl

  subscriber-Sources : Sources is_subscriber
  subscriber-Sources task (a_simulator cfg) = refl
  subscriber-Sources task (a_serial port car) = refl
  subscriber-Sources task a_logger = refl
  subscriber-Sources task a_viewer = refl
  subscriber-Sources task (a_commander cfg) = refl
  subscriber-Sources task (a_pipeline hub recorder) = refl

module _ {t : Types} (floats : Floats t) (codec : Postcard t) (world : Outside t) where
  -- The sources that the rest of `main` leaves as they are.
  main-Has :
      (p : Task t → Bool) (b : Bool) (args : Args t)
      → Sources p
      → ((hub : Hub t) → p (server hub) ≡ false)
      → ((cfg : HubConfig t) → Has p b (start_sources floats codec world cfg args))
      → Has p b (main floats codec world args)
  unfolding main
  main-Has p b args h k sources =
      bind-Has p false b (require Stage.config (load_config floats codec world args))
        (λ cfg.
          start_sources floats codec world cfg args >> after_sources floats codec world cfg args)
        (λ cfg goes. require-Never p Stage.config (load_config floats codec world args))
        (λ cfg u goes. ground (
          arith,
          bind-Has p b false (start_sources floats codec world cfg args)
              (λ v. after_sources floats codec world cfg args) (sources cfg)
              (λ v w goes_on. after_sources-Never floats codec world p cfg args h k) u goes,
        ))

  -- If `main` meets no error, then it replays a recording exactly if it is given one; it listens
  -- to MQTT exactly if it is not, with a broker of its own unless `--no-broker` is given.
  pub main-sources :
      (args : Args t)
      → let (tasks, outcome) = main floats codec world args in
        outcome ≡ ok tt
        → (any is_replay tasks ≡ is_some args.replay)
          × (any is_subscriber tasks ≡ not (is_some args.replay))
          × (any is_broker tasks ≡ (not (is_some args.replay) && not args.no_broker))
  unfolding start_sources start_broker
  main-sources args goes = (
    main-Has is_replay (is_some args.replay) args replay-Sources (λ hub. refl)
        (λ cfg u h. ground arith) tt goes,
    main-Has is_subscriber (not (is_some args.replay)) args subscriber-Sources (λ hub. refl)
        (λ cfg u h. ground arith) tt goes,
    main-Has is_broker (not (is_some args.replay) && not args.no_broker) args broker-Sources
        (λ hub. refl) (λ cfg u h. ground arith) tt goes,
  )
