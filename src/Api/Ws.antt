-- ===== src/Api/Ws.antt =====
-- src/api/ws.rs: the session of one WebSocket client.
use olivaw_hub.Prelude.{ℕ, Bool, true, false, List, [], ◌∷◌, if◌then◌else◌}
use olivaw_hub.External.{Types}
use olivaw_hub.State
use olivaw_hub.State.{WsEvent, Hub, snapshots}

-- What a round of `select!` meets: an event of the broadcast channel, with whether it can be
-- serialized and the socket takes it; the channel's notice that events were skipped, or that it is
-- closed; the client's end of the connection; any other message of the client.
pub data Polled (t : Types) : Type 0 where
  event : WsEvent t → Bool → Polled t
  lagged : ℕ → Polled t
  closed leaves message : Polled t

module _ {t : Types} where
  -- The loop: the events that are sent.
  unfoldable pub forward : List (Polled t) → List (WsEvent t)
  forward [] = []
  forward (event e true ∷ polls) = e ∷ forward polls
  forward (event e false ∷ polls) = []
  forward (lagged n ∷ polls) = forward polls
  forward (closed ∷ polls) = []
  forward (leaves ∷ polls) = []
  forward (message ∷ polls) = forward polls

  -- `session`, from the moment that the snapshots are taken; the subscription was made before.
  unfoldable pub session : Hub t → Bool → List (Polled t) → List (WsEvent t)
  unfolding forward
  session hub sent polls = if sent then State.hello (snapshots hub) ∷ forward polls else []
