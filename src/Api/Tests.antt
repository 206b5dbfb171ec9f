-- ===== src/Api/Tests.antt =====
-- Commands and map requests at concrete inputs.
use olivaw_hub.Prelude.{◌≡◌, refl, ◌⊎◌, true, false, none, some, List, [], ◌∷◌, ◌++◌, length, drop}
use olivaw_hub.Text.{Text, codes}
use olivaw_hub.Text.Signed.{pos, negsuc, signed}
use olivaw_hub.Text.Decimal.{decimal}
use olivaw_hub.Dict.{get}
use olivaw_hub.External.{Channel}
use olivaw_hub.External.Toy.{toy, toy_floats, toy_proto, toy_topic}
use olivaw_hub.Config.{default_config}
use olivaw_hub.Postcard.{toy_postcard}
use olivaw_hub.Slam.MapPng.{MapSnapshot, to_pgm}
use olivaw_hub.Slam.Worker.{map_output}
use olivaw_hub.State.{Hub, new}
use olivaw_hub.Ingest
use olivaw_hub.Ingest.{now}
use olivaw_hub.Pipeline.{Pipeline, Input, received, slam_result, init, info_of, run}
use olivaw_hub.Pipeline.Maps.{shown}
use olivaw_hub.Api.Http.{
  drive, e_stop, max_duty, encode, cmd, json, cmd_reply, raw, map_png, map_pgm,
}
use olivaw_hub.Api.Commands.{encode_inj, cmd_lem}
use olivaw_hub.Api.Served.{map_png-run}
use olivaw_hub.Api.Router.{Act, input, request, get_cars, post_cmd, serve}
use olivaw_hub.Api.Router.Harmless.{with_commander, commands_of, serve-run}
use olivaw_hub.Api.Ws.{session}
use olivaw_hub.Api.Client.{Shown, shown_or_new, client}
use olivaw_hub.Api.Client.CaughtUp.{all_taken, client-session}

-- The test of src/api/http.rs.
encode_runs : encode toy_proto (drive (pos 500) (negsuc 249)) ≡ codes "500,-250\n"
unfolding encode signed decimal
encode_runs = refl

encode_cap : encode toy_proto (max_duty 550) ≡ 0x30 ∷ 0x26 ∷ 0x02 ∷ []
unfolding encode
encode_cap = refl

encode_inj_example : (pos 500 ≡ pos 500) × (negsuc 249 ≡ negsuc 249)
encode_inj_example = encode_inj toy_proto (pos 500) (negsuc 249) (pos 500) (negsuc 249) refl

abbrev empty : Hub toy
empty = new (default_config toy_floats) (record { client = [] })

cmd_lem_example :
    let done = cmd toy_proto true (codes "gone") empty (codes "c") e_stop in
    let bytes = encode toy_proto e_stop in
    ((topic : Text) × (toy_topic (codes "c") Channel.cmd ≡ some topic)
      × (true ≡ true)
      × (done.0 ≡ record empty {
        commander = record {
          client = empty.commander.client ++ record { topic = topic; payload = bytes } ∷ [];
        };
      })
      × (done.1 ≡ json (cmd_reply (length bytes))))
    ⊎ ((done.0 ≡ empty)
        × (done.1.status ≡ 502)
        × ((toy_topic (codes "c") Channel.cmd ≡ none) ⊎ (true ≡ false)))
cmd_lem_example = cmd_lem toy_proto true (codes "gone") empty (codes "c") e_stop

abbrev rendered : MapSnapshot toy
rendered = record {
  version = 1;
  width = 1;
  height = 1;
  origin = (0, 0);
  resolution = 1;
  gray = 205 ∷ [];
  png = 205 ∷ [];
}

abbrev a_map : List (Input toy)
a_map = slam_result (codes "c") (map_output rendered) ∷ []

map_png-run_example :
    let hub =
      (run toy_floats toy_postcard
        (init (default_config toy_floats) (record { client = [] }) none)
        a_map).hub in
    ((m : MapSnapshot toy) × (shown toy_floats (get (codes "c") hub.cars)
        ≡ some (info_of toy_floats (codes "c") m))
      × ((map_png hub (codes "c")).status ≡ 200)
      × ((map_png hub (codes "c")).body ≡ raw m.png)
      × ((map_pgm hub (codes "c")).status ≡ 200)
      × ((map_pgm hub (codes "c")).body ≡ raw (to_pgm m)))
    ⊎ ((shown toy_floats (get (codes "c") hub.cars) ≡ none)
        × ((map_png hub (codes "c")).status ≡ 404)
        × ((map_pgm hub (codes "c")).status ≡ 404))
map_png-run_example =
    map_png-run toy_floats toy_postcard (default_config toy_floats) (record { client = [] }) none
      a_map (codes "c")

-- A car comes online, has its map drawn, and goes offline, at a client that joins in between.
abbrev comes : List (Input toy)
comes = received (now (some 5) (codes "c") (Ingest.status (codes "online"))) 0 true ∷ []

abbrev goes : List (Input toy)
goes = received (now (some 6) (codes "c") (Ingest.status (codes "offline"))) 9 true ∷ []

abbrev shows_nothing : Shown toy
shows_nothing = record {
  status = [];
  telemetry = none;
  pose = none;
  scan = [];
  map = none;
  scan_hz = 0;
}

client-session_example :
    let s0 =
      run toy_floats toy_postcard
        (init (default_config toy_floats) (record { client = [] }) none)
        comes in
    let s1 = run toy_floats toy_postcard s0 a_map in
    let s2 = run toy_floats toy_postcard s1 goes in
    let broadcast = drop (length s0.hub.events) s2.hub.events in
    client toy_floats (codes "c") shows_nothing (session s1.hub true (all_taken broadcast))
    ≡ shown_or_new toy_floats (codes "c") (get (codes "c") s2.hub.cars)
client-session_example =
    client-session toy_floats toy_postcard (default_config toy_floats) (record { client = [] }) none
      comes a_map goes (codes "c") shows_nothing

-- An emergency stop and a list of the cars while a car comes and goes.
abbrev mixed : List (Act toy)
mixed =
    input (received (now (some 5) (codes "c") (Ingest.status (codes "online"))) 0 true)
    ∷ request (post_cmd (codes "c") e_stop true (codes "gone"))
    ∷ request get_cars
    ∷ input (received (now (some 6) (codes "c") (Ingest.status (codes "offline"))) 9 true)
    ∷ []

abbrev before_all : Pipeline toy
before_all = init (default_config toy_floats) (record { client = [] }) none

serve-run_example :
    let (s', replies) =
      serve toy_proto
        (λ dir. false)
        (λ dir path. json (cmd_reply 0))
        toy_floats
        toy_postcard
        before_all
        mixed in
    (s'
      ≡ with_commander
          (record { client = before_all.hub.commander.client ++ commands_of toy_proto mixed })
          (run toy_floats toy_postcard before_all (comes ++ goes)))
    × (length replies ≡ 2)
serve-run_example =
    serve-run toy_proto (λ dir. false) (λ dir path. json (cmd_reply 0)) toy_floats toy_postcard
      before_all mixed
