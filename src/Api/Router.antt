-- ===== src/Api/Router.antt =====
-- src/api/mod.rs, and `no_dashboard` of src/api/http.rs: the requests that the hub serves while the
-- pipeline runs.
pub mod Harmless
use olivaw_hub.Prelude.{
  ℕ, Bool, true, false, Option, none, some, List, [], ◌∷◌, ◌++◌, if◌then◌else◌,
}
use olivaw_hub.Text.{Text, codes}
use olivaw_hub.External.{Types, Floats, Proto}
use olivaw_hub.Postcard.{Postcard}
use olivaw_hub.State.{Hub}
use olivaw_hub.Pipeline.{Pipeline, Input, step}
use olivaw_hub.Api.Http.{Command, Response, plain, health, cars, car, map_png, map_pgm, cmd}

-- What axum's matching of the route table found: a handler with what it extracted, with the outside's
-- part in its answer, or a path without a route. A request that axum answers by itself (another
-- method, a body that is no command) is `refused`. The route `/ws` starts a session.
pub data Request (t : Types) : Type 0 where
  get_health : ℕ → Request t
  get_cars : Request t
  get_car get_map_png get_map_pgm : Text → Request t
  post_cmd : Text → Command → Bool → Text → Request t
  elsewhere : Text → Request t
  refused : Response t → Request t

-- An input of the pipeline, or a request to the server.
pub data Act (t : Types) : Type 0 where
  input : Input t → Act t
  request : Request t → Act t

module _ {t : Types} where
  unfoldable pub no_dashboard : Response t
  no_dashboard = record {
    status = 200;
    headers = (codes "content-type", codes "text/html; charset=utf-8") ∷ [];
    body = plain (
        codes
          "<h1>olivaw-hub</h1><p>No dashboard build found. Run <code>pnpm build</code> in <code>olivaw-dashboard</code> or pass <code>--dashboard-dir</code>. API: <a href=\"/api/cars\">/api/cars</a>, WebSocket: <code>/ws</code>.</p>");
  }

  -- The dashboard's files, if its directory has an index.
  unfoldable pub fallback : (Text → Bool) → (Text → Text → Response t) → Hub t → Text → Response t
  unfolding no_dashboard
  fallback has_index serve_dir hub path = elim hub.cfg.http.dashboard_dir [
    | none ↦ no_dashboard
    | some dir ↦ if has_index dir then serve_dir dir path else no_dashboard
  ]

module _ {t : Types} (p : Proto t) (has_index : Text → Bool)
    (serve_dir : Text → Text → Response t) where
  unfoldable pub router : Hub t → Request t → Hub t × Response t
  unfolding fallback
  router hub (get_health ws_clients) = (hub, health hub ws_clients)
  router hub get_cars = (hub, cars hub)
  router hub (get_car id) = (hub, car hub id)
  router hub (get_map_png id) = (hub, map_png hub id)
  router hub (get_map_pgm id) = (hub, map_pgm hub id)
  router hub (post_cmd id command accepts gone) = cmd p accepts gone hub id command
  router hub (elsewhere path) = (hub, fallback has_index serve_dir hub path)
  router hub (refused reply) = (hub, reply)

  module _ (floats : Floats t) (codec : Postcard t) where
    -- The pipeline and the server side by side, in any order of their steps, with the replies.
    unfoldable pub serve : Pipeline t → List (Act t) → Pipeline t × List (Response t)
    unfolding router
    serve s [] = (s, [])
    serve s (input i ∷ acts) = serve (step floats codec s i) acts
    serve s (request r ∷ acts) =
        let (hub, reply) = router s.hub r in
        let rest = serve (record s { hub = hub }) acts in (rest.0, reply ∷ rest.1)
