-- ===== src/Api/Commands.antt =====
-- Commands on their way to a car.
use olivaw_hub.Prelude.{
  ◌≡◌, ◌⊎◌, inl, inr, Bool, true, false, none, some, [], ◌∷◌, ◌++◌, length, arith, Bool-cases,
  Option-cases,
}
use olivaw_hub.Text.{Text}
use olivaw_hub.Text.Signed.{ℤ, separated_inj}
use olivaw_hub.External.{Types, Proto, Channel}
use olivaw_hub.Ingest.Mqtt.{send}
use olivaw_hub.State.{Hub}
use olivaw_hub.Api.Http.{Command, drive, json, cmd_reply, encode, cmd}

module _ {t : Types} (p : Proto t) where
  -- The bytes of a drive command determine both of its numbers, their signs included.
  pub encode_inj :
      (left right left' right' : ℤ)
      → encode p (drive left right) ≡ encode p (drive left' right')
      → (left ≡ left') × (right ≡ right')
  unfolding encode
  encode_inj left right left' right' h =
      separated_inj b',' b'\n' left right left' right' (omega arith) (omega arith) h

  -- A command is either published once, on the car's `cmd` topic and with just its encoded bytes,
  -- and the reply has their number; or the hub is left as it was and the reply is a bad gateway.
  -- The latter happens only where the id makes no topic or the client refuses the request.
  pub cmd_lem :
      (accepts : Bool) (gone : Text) (hub : Hub t) (id : Text) (command : Command)
      → let done = cmd p accepts gone hub id command in
        let bytes = encode p command in
        ((topic : Text) × (Proto.topic p id Channel.cmd ≡ some topic)
          × (accepts ≡ true)
          × (done.0 ≡ record hub {
            commander = record {
              client = hub.commander.client ++ record { topic = topic; payload = bytes } ∷ [];
            };
          })
          × (done.1 ≡ json (cmd_reply (length bytes))))
        ⊎ ((done.0 ≡ hub)
            × (done.1.status ≡ 502)
            × ((Proto.topic p id Channel.cmd ≡ none) ⊎ (accepts ≡ false)))
  unfolding cmd send
  cmd_lem accepts gone hub id command = elim (Option-cases (Proto.topic p id Channel.cmd)) [
    | inl long ↦ inr (ground arith, ground arith, inl long)
    | inr (topic, short) ↦ elim (Bool-cases accepts) [
      | inl taken ↦ inl (topic, short, taken, ground arith, ground arith)
      | inr refused ↦ inr (ground arith, ground arith, inr refused)
    ]
  ]
