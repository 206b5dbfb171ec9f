-- ===== src/Start/Quiet.antt =====
-- src/main.rs: what the parts besides the event sources and the server do not start.
use olivaw_hub.Prelude.{
  ◌≡◌, refl, inl, inr, Bool, true, false, Option, some, [], if◌then◌else◌, Bool-cases, Option-cases,
}
use olivaw_hub.Text.{Text}
use olivaw_hub.External.{Types, Floats}
use olivaw_hub.Config.{HubConfig, SimConfig}
use olivaw_hub.Postcard.{Postcard}
use olivaw_hub.Ingest.Serial.{choose_port}
use olivaw_hub.Session.Recorder.{Recorder, create}
use olivaw_hub.State
use olivaw_hub.State.{Hub}
use olivaw_hub.Ingest.Mqtt.{MqttOptions, cmd_options}
use olivaw_hub.Start.{
  Args, Outside, Task, simulator, serial, logger, viewer, commander, pipeline, server, Stage,
  recording, http, Starting, ◌>>=◌, ◌>>◌, pure, launch, require, check, port_of, start_simulator,
  start_lidar, start_sink, start_viewer, open_recording, start_hub,
}
use olivaw_hub.Start.Order.{Never, bind-Never, launch-Never, require-Never, guarded-Never}

module _ {t : Types} where
  -- The parts that are neither a source of `start_sources` nor the server.
  pub data Besides : Task t → Type 0 where
    a_simulator : (cfg : SimConfig t) → Besides (simulator cfg)
    a_serial : (port : Text) (car : Text) → Besides (serial port car)
    a_logger : Besides logger
    a_viewer : Besides viewer
    a_commander : (o : MqttOptions) → Besides (commander o)
    a_pipeline : (hub : Hub t) (recorder : Option Recorder) → Besides (pipeline hub recorder)

  -- `p` holds of no such part.
  abbrev pub Sources : (Task t → Bool) → Type 0
  Sources p = (task : Task t) → Besides task → p task ≡ false

module _ {t : Types} (floats : Floats t) (codec : Postcard t) (world : Outside t) where
  pub start_simulator-Never :
      (p : Task t → Bool) (cfg : HubConfig t) (args : Args t)
      → Sources p
      → Never p (start_simulator floats codec world cfg args)
  unfolding start_simulator
  start_simulator-Never p cfg args h = elim (Bool-cases args.simulate) [
    | inl yes_it ↦
        rw yes_it (launch-Never p (simulator cfg.sim) (h (simulator cfg.sim) (a_simulator cfg.sim)))
    | inr no_it ↦ rw no_it refl
  ]

  pub start_lidar-Never :
      (p : Task t → Bool) (args : Args t)
      → Sources p
      → Never p (start_lidar floats codec world args)
  unfolding start_lidar
  start_lidar-Never p args h = elim (Option-cases args.lidar) [
    | inl without ↦ rw without refl
    | inr (port, given) ↦
        let found =
          choose_port (Outside.prefer_callout world) (Outside.auto_detected world) (port_of port) in
        rw given (
          bind-Never p (require Stage.lidar found)
            (λ path.
              check Stage.lidar (Outside.threads world) >> launch (serial path args.lidar_id))
            (require-Never p Stage.lidar found)
            (λ path.
              guarded-Never p Stage.lidar (Outside.threads world) (serial path args.lidar_id)
                (h (serial path args.lidar_id) (a_serial path args.lidar_id))))
  ]

  start_sink-Never : (p : Task t → Bool) → Sources p → Never p (start_sink floats codec world)
  unfolding start_sink
  start_sink-Never p h = elim (Bool-cases (Outside.rerun_feature world)) [
    | inl built ↦ rw built (
        guarded-Never p Stage.viewer (Outside.viewer_spawns world) Task.viewer
          (h Task.viewer a_viewer))
    | inr plain ↦ rw plain refl
  ]

  pub start_viewer-Never :
      (p : Task t → Bool) (args : Args t)
      → Sources p
      → Never p (start_viewer floats codec world args)
  unfolding start_viewer
  start_viewer-Never p args h = elim (Bool-cases args.rerun) [
    | inl yes_it ↦ rw yes_it (start_sink-Never p h)
    | inr no_it ↦ rw no_it refl
  ]

  pub open_recording-Never :
      (p : Task t → Bool) (args : Args t) → Never p (open_recording floats codec world args)
  unfolding open_recording
  open_recording-Never p args = elim (Option-cases args.recording) [
    | inl without ↦ rw without refl
    | inr (file, given) ↦ rw given (
        bind-Never p (require recording (Outside.create_file world file))
          (λ room. pure (some (create room)))
          (require-Never p recording (Outside.create_file world file)) (λ room. refl))
  ]

  -- What is left of the hub once the viewer is up.
  abbrev pub rest_of_hub : HubConfig t → Args t → Hub t → Starting t (Unit {0})
  rest_of_hub cfg args hub = do
    recorder ← open_recording floats codec world args
    launch (pipeline hub recorder)
    check http (Outside.binds world cfg.http.bind)
    launch (server hub)

  pub start_hub-Never :
      (p : Task t → Bool) (cfg : HubConfig t) (args : Args t)
      → Sources p
      → ((hub : Hub t) → p (server hub) ≡ false)
      → Never p (start_hub floats codec world cfg args)
  unfolding start_hub
  start_hub-Never p cfg args h k =
      let hub = State.new cfg (record { client = [] }) in
      bind-Never p (start_viewer floats codec world args)
        (λ u. launch (commander (cmd_options cfg.mqtt)) >> rest_of_hub cfg args hub)
        (start_viewer-Never p args h)
        (λ u.
          bind-Never p (launch (commander (cmd_options cfg.mqtt))) (λ v. rest_of_hub cfg args hub)
            (launch-Never p (commander (cmd_options cfg.mqtt))
              (h (commander (cmd_options cfg.mqtt)) (a_commander (cmd_options cfg.mqtt))))
            (λ v.
              bind-Never p (open_recording floats codec world args)
                (λ recorder.
                  launch (pipeline hub recorder)
                  >> (check http (Outside.binds world cfg.http.bind) >> launch (server hub)))
                (open_recording-Never p args)
                (λ recorder.
                  bind-Never p (launch (pipeline hub recorder))
                    (λ w. check http (Outside.binds world cfg.http.bind) >> launch (server hub))
                    (launch-Never p (pipeline hub recorder)
                      (h (pipeline hub recorder) (a_pipeline hub recorder)))
                    (λ w.
                      guarded-Never p http (Outside.binds world cfg.http.bind) (server hub)
                        (k hub)))))

  abbrev pub last_part : HubConfig t → Args t → Starting t (Unit {0})
  last_part cfg args =
      if args.log_only then launch logger else start_hub floats codec world cfg args

  abbrev pub after_sources : HubConfig t → Args t → Starting t (Unit {0})
  after_sources cfg args = do
    start_simulator floats codec world cfg args
    start_lidar floats codec world args
    last_part cfg args

  last_part-Never :
      (p : Task t → Bool) (cfg : HubConfig t) (args : Args t)
      → Sources p
      → ((hub : Hub t) → p (server hub) ≡ false)
      → Never p (last_part cfg args)
  last_part-Never p cfg args h k = go args.log_only
    where
      go : (b : Bool) → Never p (if b then launch logger else start_hub floats codec world cfg args)
      go true = launch-Never p logger (h logger a_logger)
      go false = start_hub-Never p cfg args h k

  pub after_sources-Never :
      (p : Task t → Bool) (cfg : HubConfig t) (args : Args t)
      → Sources p
      → ((hub : Hub t) → p (server hub) ≡ false)
      → Never p (after_sources cfg args)
  after_sources-Never p cfg args h k =
      bind-Never p (start_simulator floats codec world cfg args)
        (λ u. start_lidar floats codec world args >> last_part cfg args)
        (start_simulator-Never p cfg args h)
        (λ u.
          bind-Never p (start_lidar floats codec world args) (λ v. last_part cfg args)
            (start_lidar-Never p args h) (λ v. last_part-Never p cfg args h k))
