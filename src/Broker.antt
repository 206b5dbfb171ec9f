-- ===== src/Broker.antt =====
-- src/broker.rs: the configuration that the embedded broker starts with.
mod Tests
use olivaw_hub.Prelude.{
  ℕ, Bool, true, false, Option, none, some, List, [], ◌∷◌, ◌++◌, if◌then◌else◌, ◌==◌,
}
use olivaw_hub.Text.{Text, codes}
use olivaw_hub.Text.Decimal.{decimal}
use olivaw_hub.Config.{SocketAddr, v4_addr, v6_addr, BrokerConfig}

-- `Display` of a socket address, after the one of an `Ipv6Addr`.
unfoldable pub socket_addr : (List ℕ → Text) → SocketAddr → Text
socket_addr show_ip (v4_addr (p, q, r, s) port) =
    decimal p
    ++ (b'.' ∷ decimal q ++ (b'.' ∷ decimal r ++ (b'.' ∷ decimal s ++ (b':' ∷ decimal port))))
socket_addr show_ip (v6_addr ip scope port) =
    b'[' ∷ show_ip ip
    ++ (if scope == 0 then [] else b'%' ∷ decimal scope)
    ++ (b']' ∷ b':' ∷ decimal port)

-- The pieces of the text, each but the first without the quote or the line end it begins with.
unfoldable pub before_v5 : Text
before_v5 =
    codes
      "\nid = 0\n\n[router]\nid = 0\nmax_connections = 64\nmax_outgoing_packet_count = 200\nmax_segment_size = 10485760\nmax_segment_count = 10\n\n[v5.1]\nname = \"v5\"\nlisten = \""

unfoldable pub before_v5_payload : Text
before_v5_payload =
    codes
      "\nnext_connection_delay_ms = 1\n    [v5.1.connections]\n    connection_timeout_ms = 60000\n    max_payload_size = "

unfoldable pub before_v4 : Text
before_v4 =
    codes
      "    max_inflight_count = 100\n    dynamic_filters = true\n\n[v4.1]\nname = \"v4\"\nlisten = \""

unfoldable pub before_v4_payload : Text
before_v4_payload =
    codes
      "\nnext_connection_delay_ms = 1\n    [v4.1.connections]\n    connection_timeout_ms = 60000\n    max_payload_size = "

unfoldable pub ending : Text
ending = codes "    max_inflight_count = 100\n    dynamic_filters = true\n"

unfoldable pub toml_cfg : (List ℕ → Text) → BrokerConfig → Text
unfolding socket_addr
toml_cfg show_ip cfg =
    before_v5
    ++ socket_addr show_ip cfg.v5_listen
    ++ (b'"' ∷ before_v5_payload
        ++ decimal cfg.max_payload_size
        ++ (b'\n' ∷ before_v4
            ++ socket_addr show_ip cfg.v4_listen
            ++ (b'"' ∷ before_v4_payload ++ decimal cfg.max_payload_size ++ (b'\n' ∷ ending))))

-- `start`: the configuration that the broker's thread runs with. The feature may be left out of the
-- build, rumqttd may refuse the text, and the thread may not start.
unfoldable pub start : (List ℕ → Text) → Bool → (Text → Bool) → Bool → BrokerConfig → Option Text
unfolding toml_cfg
start show_ip feature accepts threads cfg =
    let text = toml_cfg show_ip cfg in
    if feature then if accepts text then if threads then some text else none else none else none
