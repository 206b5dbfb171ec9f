-- ===== src/Start.antt =====
-- src/main.rs: what the command line starts, in which order, and what happens when a part fails.
pub mod Needs
pub mod Order
pub mod Parts
pub mod Quiet
pub mod Served
pub mod Sources
mod Tests
use olivaw_hub.Prelude.{
  ℕ, Bool, true, false, Option, none, some, List, [], ◌∷◌, ◌++◌, if◌then◌else◌, ◌==◌, length,
}
use olivaw_hub.Text.{Text, Bytes}
use olivaw_hub.External.{Types, Floats}
use olivaw_hub.Config.{SocketAddr, BrokerConfig, MqttConfig, HttpConfig, SimConfig, HubConfig, load}
use olivaw_hub.Broker
use olivaw_hub.Ingest.Serial.{choose_port}
use olivaw_hub.Ingest.Mqtt.{MqttOptions, sub_options, cmd_options}
use olivaw_hub.Postcard.{Postcard}
use olivaw_hub.Session.Read.{events, bad_record, out_of_fuel, read_all}
use olivaw_hub.Session.Recorder.{Recorder, create}
use olivaw_hub.State
use olivaw_hub.State.{Hub}

-- `recording` is the flag `--record`.
pub record Args (t : Types) : Type 0 where
  pub config : Option Text
  pub no_broker : Bool
  pub simulate : Bool
  pub lidar : Option Text
  pub lidar_id : Text
  pub replay : Option Text
  pub replay_speed : t.F64
  pub recording : Option Text
  pub rerun : Bool
  pub log_only : Bool
  pub dashboard_dir : Option Text

-- The world that the program starts in: files that can be read, the TOML parser, the room on the
-- disk for a file that can be created, how an IPv6 address is shown, the build, rumqttd's check of its configuration, the serial
-- ports, whether threads can be started, and whether the viewer and the server come up.
pub record Outside (t : Types) : Type 0 where
  pub read : Text → Option Bytes
  pub parse : Bytes → Option (HubConfig t)
  pub create_file : Text → Option ℕ
  pub show_ip : List ℕ → Text
  pub broker_feature : Bool
  pub accepts : Text → Bool
  pub threads : Bool
  pub prefer_callout : Text → Text
  pub auto_detected : Option Text
  pub rerun_feature : Bool
  pub viewer_spawns : Bool
  pub binds : SocketAddr → Bool

-- A part of the program that runs from then on.
pub data Task (t : Types) : Type 0 where
  replaying : Text → Types.F64 t → Task t
  broker : Text → Task t
  subscriber : MqttOptions → Task t
  simulator : SimConfig t → Task t
  serial : Text → Text → Task t
  logger : Task t
  viewer : Task t
  commander : MqttOptions → Task t
  pipeline : Hub t → Option Recorder → Task t
  server : Hub t → Task t

pub data Stage : Type 0 where
  config replay broker lidar viewer recording http : Stage

-- The tasks that were started, and a value or the part that failed. A server runs once its address
-- is bound; how it ends later is no part of this.
pub data Outcome {ℓ} (A : Type ℓ) : Type ℓ where
  ok : A → Outcome A
  err : Stage → Outcome A

abbrev pub Starting : Types → Type 0 → Type 0
Starting t A = List (Task t) × Outcome A

infixl 5 ◌>>=◌ ◌>>◌
abbrev pub ◌>>=◌ : {t : Types} {A B : Type 0} → Starting t A → (A → Starting t B) → Starting t B
(tasks, ok a) >>= f = (tasks ++ (f a).0, (f a).1)
(tasks, err e) >>= f = (tasks, err e)

abbrev pub ◌>>◌ : {t : Types} {B : Type 0} → Starting t (Unit {0}) → Starting t B → Starting t B
m >> k = m >>= λ _. k

abbrev pub pure : {t : Types} {A : Type 0} → A → Starting t A
pure a = ([], ok a)

abbrev pub launch : {t : Types} → Task t → Starting t (Unit {0})
launch task = (task ∷ [], ok tt)

abbrev pub require : {t : Types} {A : Type 0} → Stage → Option A → Starting t A
require e none = ([], err e)
require e (some a) = ([], ok a)

abbrev pub check : {t : Types} → Stage → Bool → Starting t (Unit {0})
check e true = ([], ok tt)
check e false = ([], err e)

-- A port that is empty text asks for detection.
unfoldable pub port_of : Text → Option Text
port_of [] = none
port_of (c ∷ p) = some (c ∷ p)

module _ {t : Types} (floats : Floats t) (codec : Postcard t) (world : Outside t) where
  -- `replay::spawn` reads the whole recording before it starts its task.
  unfoldable pub can_replay : Text → Bool
  can_replay file = elim (Outside.read world file) [
    | none ↦ false
    | some bytes ↦ elim (read_all codec bytes) [
      | events es ↦ true
      | bad_record ↦ false
      | out_of_fuel ↦ false
    ]
  ]

  unfoldable pub load_config : Args t → Option (HubConfig t)
  load_config args = elim (load floats (Outside.read world) (Outside.parse world) args.config) [
    | none ↦ none
    | some cfg ↦ elim args.dashboard_dir [
      | none ↦ some cfg
      | some dir ↦ some (record cfg { http = record cfg.http { dashboard_dir = some dir } })
    ]
  ]

  unfoldable pub start_broker : HubConfig t → Args t → Starting t (Unit {0})
  start_broker cfg args = if args.no_broker then pure tt else (do
    text ← require broker (
        Broker.start (Outside.show_ip world) (Outside.broker_feature world) (Outside.accepts world)
          (Outside.threads world) cfg.broker)
    launch (Task.broker text))

  unfoldable pub start_sources : HubConfig t → Args t → Starting t (Unit {0})
  start_sources cfg args = elim args.replay [
    | some file ↦ do check replay (can_replay file); launch (replaying file args.replay_speed)
    | none ↦ do start_broker cfg args; launch (subscriber (sub_options cfg.mqtt))
  ]

  unfoldable pub start_simulator : HubConfig t → Args t → Starting t (Unit {0})
  start_simulator cfg args = if args.simulate then launch (simulator cfg.sim) else pure tt

  unfoldable pub start_lidar : Args t → Starting t (Unit {0})
  start_lidar args = elim args.lidar [
    | none ↦ pure tt
    | some port ↦ do
      path ←
          require lidar (
            choose_port (Outside.prefer_callout world) (Outside.auto_detected world) (port_of port))
      check lidar (Outside.threads world)
      launch (serial path args.lidar_id)
  ]

  -- `start` of src/viz/rerun.rs: without the feature there is no sink, and no error.
  unfoldable pub start_sink : Starting t (Unit {0})
  start_sink =
      if Outside.rerun_feature world
      then (do check viewer (Outside.viewer_spawns world); launch Task.viewer)
      else pure tt

  unfoldable pub start_viewer : Args t → Starting t (Unit {0})
  start_viewer args = if args.rerun then start_sink else pure tt

  unfoldable pub open_recording : Args t → Starting t (Option Recorder)
  open_recording args = elim args.recording [
    | none ↦ pure none
    | some file ↦ do
      room ← require recording (Outside.create_file world file)
      pure (some (create room))
  ]

  -- The hub, unless events are only logged.
  unfoldable pub start_hub : HubConfig t → Args t → Starting t (Unit {0})
  start_hub cfg args = do
    start_viewer args
    let hub : Hub t = State.new cfg (record { client = [] })
    launch (commander (cmd_options cfg.mqtt))
    recorder ← open_recording args
    launch (pipeline hub recorder)
    check http (Outside.binds world cfg.http.bind)
    launch (server hub)

  unfoldable pub main : Args t → Starting t (Unit {0})
  main args = do
    cfg ← require config (load_config args)
    start_sources cfg args
    start_simulator cfg args
    start_lidar args
    if args.log_only then launch logger else start_hub cfg args
