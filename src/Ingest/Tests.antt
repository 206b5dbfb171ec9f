-- ===== src/Ingest/Tests.antt =====
-- Messages that are published and decoded, with a small codec.
use olivaw_hub.Prelude.{
  ◌↔◌, Bool, true, false, List, take, ◌≡◌, ◌≢◌, ◌⊎◌, refl, none, some, [], ◌∷◌,
}
use olivaw_hub.Text.{Text, codes}
use olivaw_hub.Config.{MqttConfig, default_mqtt}
use olivaw_hub.Ingest.Mqtt.{sub_options, cmd_options}
use olivaw_hub.Ingest.Mqtt.Connections.{sub_options-cmd_options}
use olivaw_hub.Text.Utf8.{from_utf8_lossy}
use olivaw_hub.External.Toy.{toy, toy_proto}
use olivaw_hub.Ingest.{EventKind, status, telemetry, now, decode}
use olivaw_hub.Ingest.Subscriber.{
  Polled, conn_ack, failed, publish, subscribe, retry_later, forward, ask, ingest, forwarded,
  decoded, forwarded-ingest,
}

abbrev online : EventKind toy
online = status (codes "online")

-- A connection that is lost after a first message, and one message that is not decoded.
abbrev polls : List (Polled × Bool)
polls =
    (conn_ack, true)
    ∷ (publish (1 ∷ codes "c") (codes "online") (some 5), true)
    ∷ (failed, true)
    ∷ (conn_ack, false)
    ∷ (publish (4 ∷ codes "c") (0x01 ∷ []) (some 6), true)
    ∷ (publish (2 ∷ codes "c") (9 ∷ []) (some 7), true)
    ∷ []

forwarded-ingest_example :
    forwarded toy_proto (ingest toy_proto false 8 polls) ≡ take 8 (decoded toy_proto polls)
forwarded-ingest_example = forwarded-ingest toy_proto false 8 polls

asked_three_times :
    ingest toy_proto false 8 polls
    ≡ subscribe
      ∷ forward (now (some 5) (codes "c") online)
      ∷ retry_later
      ∷ subscribe
      ∷ subscribe
      ∷ forward (now (some 7) (codes "c") (telemetry 9))
      ∷ []
unfolding ingest ask decode from_utf8_lossy
asked_three_times = refl

-- A user without a password.
abbrev half_configured : MqttConfig
half_configured = record {
  host = codes "127.0.0.1";
  port = 1883;
  client_id = codes "olivaw-hub";
  username = some (codes "u");
  password = none;
}

sub_options-cmd_options_example :
    ((sub_options half_configured).client_id ≢ (cmd_options default_mqtt).client_id)
    × (((sub_options half_configured).client_id ≡ (sub_options default_mqtt).client_id)
        ↔ (half_configured.client_id ≡ default_mqtt.client_id))
    × (((cmd_options half_configured).client_id ≡ (cmd_options default_mqtt).client_id)
        ↔ (half_configured.client_id ≡ default_mqtt.client_id))
    × ((sub_options half_configured).host ≡ half_configured.host)
    × ((cmd_options half_configured).host ≡ half_configured.host)
    × ((sub_options half_configured).port ≡ half_configured.port)
    × ((cmd_options half_configured).port ≡ half_configured.port)
    × ((cmd_options half_configured).credentials ≡ (sub_options half_configured).credentials)
    × (((u : Text) × (p : Text) × (half_configured.username ≡ some u)
          × (half_configured.password ≡ some p)
          × ((sub_options half_configured).credentials ≡ some (u, p)))
        ⊎ (((half_configured.username ≡ none) ⊎ (half_configured.password ≡ none))
            × ((sub_options half_configured).credentials ≡ none)))
sub_options-cmd_options_example = sub_options-cmd_options half_configured default_mqtt
