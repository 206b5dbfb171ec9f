-- ===== src/Start/Needs.antt =====
-- src/main.rs: what each part needs of the arguments and of the world to come up.
use olivaw_hub.Prelude.{
  ℕ, ◌≡◌, refl, ◌⊎◌, inl, inr, ◌↔◌, Bool, true, false, Option, none, some, List, arith, Bool-cases,
  Option-cases,
}
use olivaw_hub.Text.{Text, Bytes}
use olivaw_hub.External.{Types, Floats}
use olivaw_hub.Config.{BrokerConfig, HubConfig}
use olivaw_hub.Broker
use olivaw_hub.Broker.{toml_cfg}
use olivaw_hub.Postcard.{Postcard}
use olivaw_hub.Session.Read.{ReadResult, events, bad_record, out_of_fuel, read_all}
use olivaw_hub.Session.Recorder.{create}
use olivaw_hub.Ingest.{CarEvent}
use olivaw_hub.Ingest.Mqtt.{sub_options}
use olivaw_hub.Ingest.Serial.{choose_port}
use olivaw_hub.Start.{
  Args, Outside, Task, replaying, subscriber, serial, Stage, recording, replay, ok, err, Starting,
  ◌>>=◌, ◌>>◌, pure, launch, require, check, port_of, can_replay, start_broker, start_sources,
  start_lidar, start_sink, start_viewer, open_recording,
}

module _ {t : Types} where
  -- The part comes up exactly if `P`.
  abbrev pub Needs : {A : Type 0} → Starting t A → Type 0 → Type 0
  Needs {A} m P = ((a : A) × (m.1 ≡ ok a)) ↔ P

  pub bind-Needs :
      {A B : Type 0} {P Q : Type 0} (m : Starting t A) (f : A → Starting t B)
      → Needs m P
      → ((a : A) → Needs (f a) Q)
      → Needs (m >>= f) (P × Q)
  bind-Needs (tasks, ok a) f h k = (λ goes. (h.0 (a, refl), (k a).0 goes), λ (p, q). (k a).1 q)
  bind-Needs (tasks, err e) f h k =
      (λ (b, goes). absurd (ground arith), λ (p, q). absurd (let (a, goes) = h.1 p in ground arith))

  pub guarded-Needs :
      (e : Stage) (b : Bool) (task : Task t) → Needs (check e b >> launch task) (b ≡ true)
  guarded-Needs e true task = (λ goes. refl, λ h. (tt, refl))
  guarded-Needs e false task = (λ (a, goes). absurd (ground arith), λ h. absurd (ground arith))

  -- What follows never fails.
  pub then-Needs :
      {A B : Type 0} {P : Type 0} (m : Starting t A) (f : A → Starting t B)
      → Needs m P
      → ((a : A) → (b : B) × ((f a).1 ≡ ok b))
      → Needs (m >>= f) P
  then-Needs (tasks, ok a) f h k = (λ goes. h.0 (a, refl), λ p. k a)
  then-Needs (tasks, err e) f h k =
      (λ (b, goes). absurd (ground arith), λ p. absurd (let (a, goes) = h.1 p in ground arith))

  -- What comes before never fails.
  pub free-Needs :
      {A B : Type 0} {P : Type 0} (m : Starting t A) (f : A → Starting t B)
      → ((a : A) × (m.1 ≡ ok a))
      → ((a : A) → Needs (f a) P)
      → Needs (m >>= f) P
  free-Needs (tasks, ok a) f goes h = h a
  free-Needs (tasks, err e) f (a, goes) h = absurd (ground arith)

  pub swap-Needs : {A : Type 0} {P Q : Type 0} (m : Starting t A) → Needs m P → P ↔ Q → Needs m Q
  swap-Needs m h same = (λ goes. same.0 (h.0 goes), λ q. h.1 (same.1 q))

pub require-Needs :
    (t : Types) {A : Type 0} (e : Stage) (o : Option A)
    → Needs (require {t = t} e o) ((a : A) × (o ≡ some a))
require-Needs t e none = (λ (a, goes). absurd (ground arith), λ (a, h). absurd (ground arith))
require-Needs t e (some a) = (λ goes. (a, refl), λ h. (a, refl))

broker_lem :
    (show_ip : List ℕ → Text) (feature : Bool) (accepts : Text → Bool) (threads : Bool)
    (cfg : BrokerConfig)
    → ((text : Text) × (Broker.start show_ip feature accepts threads cfg ≡ some text))
      ↔ ((feature ≡ true) × (accepts (toml_cfg show_ip cfg) ≡ true) × (threads ≡ true))
unfolding Broker.start
broker_lem show_ip feature accepts threads cfg = (
  λ (text, started). (ground arith, ground arith, ground arith),
  λ (built, fits, spawns). (toml_cfg show_ip cfg, ground arith),
)

module _ {t : Types} (floats : Floats t) (codec : Postcard t) (world : Outside t) where
  -- A recording that is replayed can be read to its end. Without one, a broker that is not
  -- declined is in the build, accepts its configuration, and its thread can be started.
  abbrev pub SourcesUp : Option Text → Bool → BrokerConfig → Type 0
  SourcesUp (some file) no_broker cfg =
      (bytes : Bytes) × (es : List (CarEvent t)) × (Outside.read world file ≡ some bytes)
      × (read_all codec bytes ≡ events es)
  SourcesUp none true cfg = Unit {0}
  SourcesUp none false cfg =
      (Outside.broker_feature world ≡ true)
      × (Outside.accepts world (toml_cfg (Outside.show_ip world) cfg) ≡ true)
      × (Outside.threads world ≡ true)

  -- A lidar that is asked for has a port, and its thread can be started.
  abbrev pub LidarUp : Option Text → Type 0
  LidarUp none = Unit {0}
  LidarUp (some port) =
      ((path : Text) × (choose_port (Outside.prefer_callout world) (Outside.auto_detected world)
            (port_of port)
          ≡ some path))
      × (Outside.threads world ≡ true)

  -- A viewer that is asked for is not in the build, or can be spawned.
  abbrev pub ViewerUp : Bool → Type 0
  ViewerUp false = Unit {0}
  ViewerUp true = (Outside.rerun_feature world ≡ false) ⊎ (Outside.viewer_spawns world ≡ true)

  -- The file that is recorded to can be created.
  abbrev pub RecordingUp : Option Text → Type 0
  RecordingUp none = Unit {0}
  RecordingUp (some file) = (room : ℕ) × (Outside.create_file world file ≡ some room)

  can_replay_lem :
      (file : Text) (no_broker : Bool) (cfg : BrokerConfig)
      → (can_replay floats codec world file ≡ true) ↔ SourcesUp (some file) no_broker cfg
  unfolding can_replay
  can_replay_lem file no_broker cfg = elim (Option-cases (Outside.read world file)) [
    | inl lost ↦
        (λ yes_it. absurd (ground arith), λ (bytes, es, found, whole). absurd (ground arith))
    | inr (bytes, found) ↦ decided bytes found (read_all codec bytes) refl
  ]
    where
      decided :
          (bytes : Bytes)
          → Outside.read world file ≡ some bytes
          → (r : ReadResult t) → read_all codec bytes ≡ r
          → (can_replay floats codec world file ≡ true) ↔ SourcesUp (some file) no_broker cfg
      decided bytes found (events es) e = (λ yes_it. (bytes, es, found, e), λ whole. ground arith)
      decided bytes found bad_record e =
          (λ yes_it. absurd (ground arith), λ (b, es, f, whole). absurd (ground arith))
      decided bytes found out_of_fuel e =
          (λ yes_it. absurd (ground arith), λ (b, es, f, whole). absurd (ground arith))

  abbrev started : HubConfig t → Option Text
  started cfg =
      Broker.start (Outside.show_ip world) (Outside.broker_feature world) (Outside.accepts world)
        (Outside.threads world) cfg.broker

  abbrev brokered : HubConfig t → Starting t (Unit {0})
  brokered cfg = do text ← require Stage.broker (started cfg); launch (Task.broker text)

  pub start_sources-Needs :
      (cfg : HubConfig t) (args : Args t)
      → Needs
          (start_sources floats codec world cfg args)
          (SourcesUp args.replay args.no_broker cfg.broker)
  unfolding start_sources start_broker
  start_sources-Needs cfg args = elim (Option-cases args.replay) [
    | inl without ↦ rw without (elim (Bool-cases args.no_broker) [
      | inl declined ↦ rw declined (λ goes. tt, λ u. (tt, refl))
      | inr wanted ↦ rw wanted (
          then-Needs (brokered cfg) (λ u. launch (subscriber (sub_options cfg.mqtt)))
            (then-Needs (require Stage.broker (started cfg)) (λ text. launch (Task.broker text))
              (swap-Needs (require Stage.broker (started cfg))
                (require-Needs t Stage.broker (started cfg))
                (broker_lem (Outside.show_ip world) (Outside.broker_feature world)
                  (Outside.accepts world) (Outside.threads world) cfg.broker))
              (λ text. (tt, refl)))
            (λ u. (tt, refl)))
    ])
    | inr (file, given) ↦
        let ready = can_replay floats codec world file in
        let task = replaying file args.replay_speed in
        rw given (
          swap-Needs (check replay ready >> launch task) (guarded-Needs replay ready task)
            (can_replay_lem file args.no_broker cfg.broker))
  ]

  pub start_lidar-Needs :
      (args : Args t) → Needs (start_lidar floats codec world args) (LidarUp args.lidar)
  unfolding start_lidar
  start_lidar-Needs args = elim (Option-cases args.lidar) [
    | inl without ↦ rw without (λ goes. tt, λ u. (tt, refl))
    | inr (port, given) ↦
        let found =
          choose_port (Outside.prefer_callout world) (Outside.auto_detected world) (port_of port) in
        rw given (
          bind-Needs (require Stage.lidar found)
            (λ path.
              check Stage.lidar (Outside.threads world) >> launch (serial path args.lidar_id))
            (require-Needs t Stage.lidar found)
            (λ path. guarded-Needs Stage.lidar (Outside.threads world) (serial path args.lidar_id)))
  ]

  pub start_viewer-Needs :
      (args : Args t) → Needs (start_viewer floats codec world args) (ViewerUp args.rerun)
  unfolding start_viewer start_sink
  start_viewer-Needs args = elim (Bool-cases args.rerun) [
    | inl wanted ↦ rw wanted (elim (Bool-cases (Outside.rerun_feature world)) [
      | inl built ↦
          let spawns = Outside.viewer_spawns world in
          let (there, back) = guarded-Needs Stage.viewer spawns Task.viewer in
          rw built (λ goes. inr (there goes), λ up. back (ground arith))
      | inr plain ↦ rw plain (λ goes. inl refl, λ up. (tt, refl))
    ])
    | inr declined ↦ rw declined (λ goes. tt, λ u. (tt, refl))
  ]

  pub open_recording-Needs :
      (args : Args t) → Needs (open_recording floats codec world args) (RecordingUp args.recording)
  unfolding open_recording
  open_recording-Needs args = elim (Option-cases args.recording) [
    | inl without ↦ rw without (λ goes. tt, λ u. (none, refl))
    | inr (file, given) ↦ rw given (
        then-Needs (require recording (Outside.create_file world file))
          (λ room. pure (some (create room)))
          (require-Needs t recording (Outside.create_file world file))
          (λ room. (some (create room), refl)))
  ]
