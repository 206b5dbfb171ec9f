-- ===== src/Start/Tests.antt =====
-- Two starts of the program at concrete inputs.
use olivaw_hub.Prelude.{◌≡◌, ◌↔◌, refl, true, false, none, some, []}
use olivaw_hub.Text.{codes}
use olivaw_hub.External.Toy.{toy, toy_floats}
use olivaw_hub.Config.{load}
use olivaw_hub.Postcard.{toy_postcard}
use olivaw_hub.Broker
use olivaw_hub.Ingest.Serial.{choose_port}
use olivaw_hub.Start.{
  port_of, Args, Outside, Stage, err, ok, main, load_config, can_replay, start_broker,
  start_sources, start_simulator, start_lidar, start_viewer, open_recording, start_hub,
}
use olivaw_hub.Start.Order.{any, is_server}
use olivaw_hub.Start.Served.{Up, main-serves}
use olivaw_hub.Start.Sources.{is_replay, is_broker, is_subscriber, main-sources}

-- Nothing can be read, and every part comes up.
abbrev world : Outside toy
world = record {
  read = λ file. none;
  parse = λ bytes. none;
  create_file = λ file. some 1000;
  show_ip = λ words. codes "::";
  broker_feature = true;
  accepts = λ text. true;
  threads = true;
  prefer_callout = λ port. port;
  auto_detected = some (codes "/dev/ttyUSB0");
  rerun_feature = true;
  viewer_spawns = true;
  binds = λ addr. true;
}

abbrev args : Args toy
args = record {
  config = none;
  no_broker = false;
  simulate = true;
  lidar = some [];
  lidar_id = codes "mac-lidar";
  replay = none;
  replay_speed = 1;
  recording = some (codes "a.olivawrec");
  rerun = false;
  log_only = false;
  dashboard_dir = some (codes "dist");
}

-- A recording that cannot be read ends the start.
no_recording :
    (main toy_floats toy_postcard world (record args { replay = some (codes "x") })).1
    ≡ err Stage.replay
unfolding main load load_config can_replay start_sources
no_recording = refl

main-serves_example :
    let (tasks, outcome) = main toy_floats toy_postcard world args in
    ((any is_server tasks ≡ true) ↔ (outcome ≡ ok tt))
    × ((outcome ≡ ok tt) ↔ Up toy_floats toy_postcard world args)
main-serves_example = main-serves toy_floats toy_postcard world args refl

main-sources_example :
    let (tasks, outcome) = main toy_floats toy_postcard world args in
    (any is_replay tasks ≡ false) × (any is_subscriber tasks ≡ true) × (any is_broker tasks ≡ true)
unfolding main load load_config start_sources start_broker start_simulator start_lidar start_hub
    start_viewer open_recording choose_port port_of Broker.start
main-sources_example = main-sources toy_floats toy_postcard world args refl
