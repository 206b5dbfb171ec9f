-- ===== src/Config.antt =====
-- src/config.rs: `hub.toml`, every knob with a default.
use olivaw_hub.Prelude.{ℕ, Option, none, some, List}
use olivaw_hub.Text.{Text, Bytes, codes}
use olivaw_hub.External.{Types, FloatOps, Floats}

-- `std::net::SocketAddr`: four bytes and a port, or eight words of 16 bits, a scope (0 for none) and a
-- port. The flow label of an IPv6 address is never shown, and nothing else reads it.
pub data SocketAddr : Type 0 where
  v4_addr : ℕ × ℕ × ℕ × ℕ → ℕ → SocketAddr
  v6_addr : List ℕ → ℕ → ℕ → SocketAddr

abbrev any_ip : ℕ × ℕ × ℕ × ℕ
any_ip = (0, 0, 0, 0)

pub record BrokerConfig : Type 0 where
  pub v5_listen : SocketAddr
  pub v4_listen : SocketAddr
  pub max_payload_size : ℕ

-- The two texts parse to the addresses that stand in `unwrap_or_else` too.
unfoldable pub default_broker : BrokerConfig
default_broker = record {
  v5_listen = v4_addr any_ip 1883;
  v4_listen = v4_addr any_ip 1884;
  max_payload_size = 65_536;
}

pub record MqttConfig : Type 0 where
  pub host : Text
  pub port : ℕ
  pub client_id : Text
  pub username : Option Text
  pub password : Option Text

unfoldable pub default_mqtt : MqttConfig
default_mqtt = record {
  host = codes "127.0.0.1";
  port = 1883;
  client_id = codes "olivaw-hub";
  username = none;
  password = none;
}

pub record HttpConfig : Type 0 where
  pub bind : SocketAddr
  pub dashboard_dir : Option Text
  pub data_dir : Text

unfoldable pub default_http : HttpConfig
default_http = record {
  bind = v4_addr any_ip 8080;
  dashboard_dir = some (codes "../olivaw-dashboard/dist");
  data_dir = codes "data";
}

pub record SlamTuning : Type 0 where
  pub map_every_scans : ℕ
  pub ws_scan_points : ℕ
  pub trajectory_len : ℕ

unfoldable pub default_tuning : SlamTuning
default_tuning = record { map_every_scans = 10; ws_scan_points = 240; trajectory_len = 4000 }

pub record SimConfig (t : Types) : Type 0 where
  pub car_id : Text
  pub scan_hz : t.F64
  pub speed_mps : t.F64
  pub noise_m : t.F64

pub record HubConfig (t : Types) : Type 0 where
  pub broker : BrokerConfig
  pub mqtt : MqttConfig
  pub http : HttpConfig
  pub slam : SlamTuning
  pub sim : SimConfig t

module _ {t : Types} (floats : Floats t) where
  unfoldable pub default_sim : SimConfig t
  default_sim = record {
    car_id = codes "sim-01";
    scan_hz = FloatOps.lit floats.f64 10 0;
    speed_mps = FloatOps.lit floats.f64 3 1;
    noise_m = FloatOps.lit floats.f64 1 2;
  }

  unfoldable pub default_config : HubConfig t
  unfolding default_broker default_mqtt default_http default_tuning default_sim
  default_config = record {
    broker = default_broker;
    mqtt = default_mqtt;
    http = default_http;
    slam = default_tuning;
    sim = default_sim;
  }

  -- `HubConfig::load`: `read` is the file system and `parse` is `toml::from_str`.
  unfoldable pub load :
      (Text → Option Bytes) → (Bytes → Option (HubConfig t)) → Option Text → Option (HubConfig t)
  unfolding default_config
  load read parse (some path) = elim (read path) [ none ↦ none | some text ↦ parse text ]
  load read parse none = some default_config
