-- ===== src/Broker/Tests.antt =====
-- The addresses of a configuration.
use olivaw_hub.Prelude.{ℕ, ◌≡◌, refl, List, [], ◌∷◌}
use olivaw_hub.Text.{Text, codes}
use olivaw_hub.Text.Decimal.{decimal}
use olivaw_hub.Config.{v6_addr, default_broker}
use olivaw_hub.Broker.{socket_addr}

abbrev loopback : List ℕ → Text
loopback words = codes "::1"

socket_addr_runs : socket_addr loopback default_broker.v4_listen ≡ codes "0.0.0.0:1884"
unfolding socket_addr decimal default_broker
socket_addr_runs = refl

v6_runs :
    socket_addr loopback (v6_addr (0 ∷ 0 ∷ 0 ∷ 0 ∷ 0 ∷ 0 ∷ 0 ∷ 1 ∷ []) 3 1883)
    ≡ codes "[::1%3]:1883"
unfolding socket_addr decimal
v6_runs = refl
