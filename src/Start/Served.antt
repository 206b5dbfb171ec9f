-- ===== src/Start/Served.antt =====
-- The server runs exactly where `main` is through, and `main` is through exactly where each part has
-- what it needs.
use olivaw_hub.Prelude.{
  ◌≡◌, refl, sym, subst, ◌↔◌, Bool, true, false, Option, none, some, [], inl, inr, Option-cases,
  if◌then◌else◌, arith,
}
use olivaw_hub.Text.{Text}
use olivaw_hub.External.{Types, Floats}
use olivaw_hub.Config.{HubConfig, load}
use olivaw_hub.Postcard.{Postcard}
use olivaw_hub.State
use olivaw_hub.State.{Hub}
use olivaw_hub.Ingest.Mqtt.{cmd_options}
use olivaw_hub.Start.{
  Args, Outside, Task, logger, commander, pipeline, server, Stage, http, ok, err, ◌>>◌, launch,
  require, check, load_config, start_broker, start_sources, start_simulator, start_lidar,
  start_viewer, open_recording, start_hub, main,
}
use olivaw_hub.Start.Needs.{Needs, SourcesUp, LidarUp, ViewerUp, RecordingUp}
use olivaw_hub.Start.Order.{is_server, any, Never, Iff, bind-Iff, require-Never}
use olivaw_hub.Start.Parts.{PartsUp, parts-Needs}
use olivaw_hub.Start.Quiet.{
  a_simulator, a_serial, a_logger, a_viewer, a_commander, a_pipeline, Sources,
  start_simulator-Never, start_lidar-Never, start_viewer-Never, open_recording-Never, rest_of_hub,
  last_part, after_sources,
}

module _ {t : Types} where
  -- A guarded launch of such a task.
  guarded-Iff :
      (p : Task t → Bool) (e : Stage) (b : Bool) (task : Task t)
      → p task ≡ true
      → Iff p (check e b >> launch task)
  guarded-Iff p e true task h = (λ there. (tt, refl), λ goes. ground arith)
  guarded-Iff p e false task h =
      (λ there. absurd (ground arith), λ (a, goes). absurd (ground arith))

  server-Sources : Sources (is_server {t = t})
  server-Sources task (a_simulator cfg) = refl
  server-Sources task (a_serial port car) = refl
  server-Sources task a_logger = refl
  server-Sources task a_viewer = refl
  server-Sources task (a_commander cfg) = refl
  server-Sources task (a_pipeline hub recorder) = refl

module _ {t : Types} (floats : Floats t) (codec : Postcard t) (world : Outside t) where
  start_sources-Never :
      (cfg : HubConfig t) (args : Args t)
      → Never is_server (start_sources floats codec world cfg args)
  unfolding start_sources start_broker
  start_sources-Never cfg args = ground arith

  start_hub-Iff :
      (cfg : HubConfig t) (args : Args t) → Iff is_server (start_hub floats codec world cfg args)
  unfolding start_hub
  start_hub-Iff cfg args =
      let hub = State.new cfg (record { client = [] }) in
      bind-Iff is_server (start_viewer floats codec world args)
        (λ u.
          launch (commander (cmd_options cfg.mqtt)) >> rest_of_hub floats codec world cfg args hub)
        (start_viewer-Never floats codec world is_server args server-Sources)
        (λ u.
          bind-Iff is_server (launch (commander (cmd_options cfg.mqtt)))
            (λ v. rest_of_hub floats codec world cfg args hub) refl
            (λ v.
              bind-Iff is_server (open_recording floats codec world args)
                (λ recorder.
                  launch (pipeline hub recorder)
                  >> (check http (Outside.binds world cfg.http.bind) >> launch (server hub)))
                (open_recording-Never floats codec world is_server args)
                (λ recorder.
                  bind-Iff is_server (launch (pipeline hub recorder))
                    (λ w. check http (Outside.binds world cfg.http.bind) >> launch (server hub))
                    refl
                    (λ w.
                      guarded-Iff is_server http (Outside.binds world cfg.http.bind) (server hub)
                        refl))))

  main-Iff : (args : Args t) → args.log_only ≡ false → Iff is_server (main floats codec world args)
  unfolding main
  main-Iff args h =
      bind-Iff is_server (require Stage.config (load_config floats codec world args))
        (λ cfg.
          start_sources floats codec world cfg args >> after_sources floats codec world cfg args)
        (require-Never is_server Stage.config (load_config floats codec world args))
        (λ cfg.
          bind-Iff is_server (start_sources floats codec world cfg args)
            (λ u. after_sources floats codec world cfg args) (start_sources-Never cfg args)
            (λ u.
              bind-Iff is_server (start_simulator floats codec world cfg args)
                (λ v. start_lidar floats codec world args >> last_part floats codec world cfg args)
                (start_simulator-Never floats codec world is_server cfg args server-Sources)
                (λ v.
                  bind-Iff is_server (start_lidar floats codec world args)
                    (λ w. last_part floats codec world cfg args)
                    (start_lidar-Never floats codec world is_server args server-Sources)
                    (λ w.
                      subst
                        (λ b.
                          Iff is_server
                            (if b then launch logger else start_hub floats codec world cfg args))
                        (sym h) (start_hub-Iff cfg args)))))

  -- The configuration loads, and with it the event source that the arguments ask for comes up, the
  -- lidar, the viewer and the file of the recording do where they are asked for, and the address of
  -- the API can be bound.
  abbrev pub Up : Args t → Type 0
  Up args =
      (cfg : HubConfig t) × (load floats (Outside.read world) (Outside.parse world) args.config
        ≡ some cfg)
      × SourcesUp floats codec world args.replay args.no_broker cfg.broker
      × LidarUp floats codec world args.lidar
      × ViewerUp floats codec world args.rerun
      × RecordingUp floats codec world args.recording
      × (Outside.binds world cfg.http.bind ≡ true)

  -- The directory of the dashboard matters to no part's start.
  with_dir : HubConfig t → Option Text → HubConfig t
  with_dir cfg none = cfg
  with_dir cfg (some dir) = record cfg { http = record cfg.http { dashboard_dir = some dir } }

  PartsUp-with_dir :
      (cfg : HubConfig t) (args : Args t) (dir : Option Text)
      → PartsUp floats codec world (with_dir cfg dir) args ≡ PartsUp floats codec world cfg args
  unfolding with_dir
  PartsUp-with_dir cfg args none = refl
  PartsUp-with_dir cfg args (some dir) = refl

  loaded :
      (cfg : HubConfig t) (args : Args t)
      → load floats (Outside.read world) (Outside.parse world) args.config ≡ some cfg
      → load_config floats codec world args ≡ some (with_dir cfg args.dashboard_dir)
  unfolding load_config with_dir
  loaded cfg args found = elim (Option-cases args.dashboard_dir) [
    | inl without ↦ ground arith
    | inr (dir, given) ↦ ground arith
  ]

  not_loaded :
      (args : Args t)
      → load floats (Outside.read world) (Outside.parse world) args.config ≡ none
      → (main floats codec world args).1 ≡ err Stage.config
  unfolding main load_config
  not_loaded args lost = rw (lost, load_config) refl

  loaded-Needs :
      (cfg : HubConfig t) (args : Args t)
      → load floats (Outside.read world) (Outside.parse world) args.config ≡ some cfg
      → args.log_only ≡ false
      → Needs (main floats codec world args) (PartsUp floats codec world cfg args)
  unfolding main
  loaded-Needs cfg args found h =
      let whole = with_dir cfg args.dashboard_dir in
      rw (loaded cfg args found) (
        subst
          (Needs (
            start_sources floats codec world whole args
            >> after_sources floats codec world whole args))
          (PartsUp-with_dir cfg args args.dashboard_dir)
          (parts-Needs floats codec world whole args h))

  main-Needs :
      (args : Args t) → args.log_only ≡ false → Needs (main floats codec world args) (Up args)
  main-Needs args h = (
    λ (u, goes).
        elim (Option-cases (load floats (Outside.read world) (Outside.parse world) args.config)) [
          | inl lost ↦ let failed = not_loaded args lost in absurd (ground arith)
          | inr (cfg, found) ↦
              let (s, (l, (v, (r, b)))) = (loaded-Needs cfg args found h).0 (u, goes) in
              (cfg, found, s, l, v, r, b)
        ],
    λ (cfg, found, s, l, v, r, b). (loaded-Needs cfg args found h).1 (s, (l, (v, (r, b)))),
  )

  -- Unless events are only logged, the server is started exactly where `main` meets no error in any
  -- part, and that is exactly where the configuration loads, a recording to replay can be read to
  -- its end, or else a broker that is not declined is in the build, accepted and started, a lidar
  -- that is asked for has a port and a thread, a viewer that is asked for is not in the build or can
  -- be spawned, a file to record to can be created, and the configured address can be bound.
  pub main-serves :
      (args : Args t)
      → args.log_only ≡ false
      → let (tasks, outcome) = main floats codec world args in
        ((any is_server tasks ≡ true) ↔ (outcome ≡ ok tt)) × ((outcome ≡ ok tt) ↔ Up args)
  main-serves args h =
      let (there, back) = main-Iff args h in
      let (up, goes) = main-Needs args h in
      (
        (λ yes_it. (there yes_it).1, λ all. back (tt, all)),
        (λ all. up (tt, all), λ needs. (goes needs).1),
      )
