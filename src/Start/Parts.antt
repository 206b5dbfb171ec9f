-- ===== src/Start/Parts.antt =====
-- src/main.rs: what the parts need together, in the order in which `main` starts them.
use olivaw_hub.Prelude.{◌≡◌, sym, subst, true, false, [], if◌then◌else◌, arith}
use olivaw_hub.External.{Types, Floats}
use olivaw_hub.Config.{HubConfig}
use olivaw_hub.Postcard.{Postcard}
use olivaw_hub.State
use olivaw_hub.State.{Hub}
use olivaw_hub.Ingest.Mqtt.{cmd_options}
use olivaw_hub.Start.{
  Args, Outside, logger, commander, pipeline, server, http, ok, ◌>>◌, launch, check, start_sources,
  start_simulator, start_lidar, start_viewer, open_recording, start_hub,
}
use olivaw_hub.Start.Needs.{
  Needs, bind-Needs, free-Needs, guarded-Needs, SourcesUp, LidarUp, ViewerUp, RecordingUp,
  start_sources-Needs, start_lidar-Needs, start_viewer-Needs, open_recording-Needs,
}
use olivaw_hub.Start.Quiet.{rest_of_hub, last_part, after_sources}

module _ {t : Types} (floats : Floats t) (codec : Postcard t) (world : Outside t) where
  -- What the three last parts need.
  abbrev pub HubUp : HubConfig t → Args t → Type 0
  HubUp cfg args =
      ViewerUp floats codec world args.rerun
      × (RecordingUp floats codec world args.recording × (Outside.binds world cfg.http.bind ≡ true))

  start_hub-Needs :
      (cfg : HubConfig t) (args : Args t)
      → Needs (start_hub floats codec world cfg args) (HubUp cfg args)
  unfolding start_hub
  start_hub-Needs cfg args =
      let hub = State.new cfg (record { client = [] }) in
      bind-Needs (start_viewer floats codec world args)
        (λ u.
          launch (commander (cmd_options cfg.mqtt)) >> rest_of_hub floats codec world cfg args hub)
        (start_viewer-Needs floats codec world args)
        (λ u.
          bind-Needs (open_recording floats codec world args)
            (λ recorder.
              launch (pipeline hub recorder)
              >> (check http (Outside.binds world cfg.http.bind) >> launch (server hub)))
            (open_recording-Needs floats codec world args)
            (λ recorder. guarded-Needs http (Outside.binds world cfg.http.bind) (server hub)))

  simulated :
      (cfg : HubConfig t) (args : Args t)
      → (u : Unit {0}) × ((start_simulator floats codec world cfg args).1 ≡ ok u)
  unfolding start_simulator
  simulated cfg args = (tt, ground arith)

  abbrev pub PartsUp : HubConfig t → Args t → Type 0
  PartsUp cfg args =
      SourcesUp floats codec world args.replay args.no_broker cfg.broker
      × (LidarUp floats codec world args.lidar × HubUp cfg args)

  pub parts-Needs :
      (cfg : HubConfig t) (args : Args t)
      → args.log_only ≡ false
      → Needs
          (start_sources floats codec world cfg args >> after_sources floats codec world cfg args)
          (PartsUp cfg args)
  parts-Needs cfg args h =
      bind-Needs (start_sources floats codec world cfg args)
        (λ u. after_sources floats codec world cfg args)
        (start_sources-Needs floats codec world cfg args)
        (λ u.
          free-Needs (start_simulator floats codec world cfg args)
            (λ v. start_lidar floats codec world args >> last_part floats codec world cfg args)
            (simulated cfg args)
            (λ v.
              bind-Needs (start_lidar floats codec world args)
                (λ w. last_part floats codec world cfg args)
                (start_lidar-Needs floats codec world args)
                (λ w.
                  subst
                    (λ b.
                      Needs (if b then launch logger else start_hub floats codec world cfg args)
                        (HubUp cfg args))
                    (sym h) (start_hub-Needs cfg args))))
