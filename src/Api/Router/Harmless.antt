-- ===== src/Api/Router/Harmless.antt =====
-- Requests and the pipeline do not get in each other's way.
use olivaw_hub.Prelude.{
  ℕ, suc, ◌≡◌, refl, sym, ap, ◌∙◌, inl, inr, Bool, not, Option, none, some, List, [], ◌∷◌, ◌++◌,
  append-nil, append_assoc, length, arith, Bool-cases, Option-cases, if◌then◌else◌,
}
use olivaw_hub.Text.{Text, text_eq}
use olivaw_hub.Dict.{Dict}
use olivaw_hub.External.{Types, Floats, Proto, Channel}
use olivaw_hub.Ingest
use olivaw_hub.Ingest.{EventKind}
use olivaw_hub.Ingest.Mqtt.{Commander, Publish, send}
use olivaw_hub.Postcard.{Postcard}
use olivaw_hub.Slam.Worker.{SlamWorker, SlamOutput, tracked, map_output}
use olivaw_hub.State
use olivaw_hub.State.{Hub, car_or_new, update_car, emit}
use olivaw_hub.Pipeline.{
  Pipeline, CarRate, Input, received, slam_result, stats_tick, on_status, on_telemetry, count_scan,
  ensure_worker, submit_to, on_scan, on_kind, on_event, on_slam, rate_hz, tick, record_event, step,
  run,
}
use olivaw_hub.Api.Http.{Command, Response, encode, cmd}
use olivaw_hub.Api.Router.{
  Request, get_health, get_cars, get_car, get_map_png, get_map_pgm, post_cmd, elsewhere, refused,
  Act, input, request, router, serve,
}

module _ {t : Types} where
  abbrev with_client : Commander → Hub t → Hub t
  with_client c hub = record hub { commander = c }

  abbrev pub with_commander : Commander → Pipeline t → Pipeline t
  with_commander c s = record s { hub = record s.hub { commander = c } }

  abbrev pub inputs_of : List (Act t) → List (Input t)
  inputs_of [] = []
  inputs_of (input i ∷ acts) = i ∷ inputs_of acts
  inputs_of (request r ∷ acts) = inputs_of acts

module _ {t : Types} (floats : Floats t) (c : Commander) where
  on_kind-with_commander :
      (car : Text) (at_ms : ℕ) (kind : EventKind t) (now : ℕ) (starts : Bool) (s : Pipeline t)
      → on_kind floats car at_ms kind now starts (with_commander c s)
        ≡ with_commander c (on_kind floats car at_ms kind now starts s)
  unfolding on_kind on_status on_telemetry on_scan count_scan update_car emit car_or_new
  on_kind-with_commander car at_ms (Ingest.status text) now starts s =
      elim (Bool-cases (not (text_eq (car_or_new floats s.hub car).status text))) [
        | inl changed ↦ rw changed refl
        | inr same ↦ rw same refl
      ]
  on_kind-with_commander car at_ms (Ingest.telemetry x) now starts s = refl
  on_kind-with_commander car at_ms (Ingest.scan frame) now starts s =
      go (ensure_worker floats car starts s.workers)
    where
      counted : Pipeline t
      counted = count_scan floats car now s

      go :
          (o : Option (Dict (SlamWorker t)))
          → (elim o as (λ o. Pipeline t) [
            | none ↦ with_commander c counted
            | some workers ↦ record (with_commander c counted) {
              workers = submit_to floats car frame workers;
            }
          ])
            ≡ with_commander c (elim o [
              | none ↦ counted
              | some workers ↦ record counted { workers = submit_to floats car frame workers }
            ])
      go none = refl
      go (some workers) = refl

  on_slam-with_client :
      (car : Text) (output : SlamOutput t) (hub : Hub t)
      → on_slam floats car output (with_client c hub)
        ≡ with_client c (on_slam floats car output hub)
  unfolding on_slam update_car emit car_or_new
  on_slam-with_client car (tracked pose world) hub = refl
  on_slam-with_client car (map_output m) hub = refl

  tick-with_client :
      (clock : Text → ℕ × ℕ) (rates : Dict CarRate) (hub : Hub t)
      → tick floats clock rates (with_client c hub)
        ≡ (with_client c (tick floats clock rates hub).0, (tick floats clock rates hub).1)
  unfolding tick update_car emit car_or_new
  tick-with_client clock [] hub = refl
  tick-with_client clock ((car, r) ∷ rates) hub =
      let hz = rate_hz floats r (clock car).0 in
      let total = (car_or_new floats hub car).scans_total in
      let hub' =
        emit (update_car floats hub car (λ x. record x { scan_hz = hz }))
          (State.stats car hz total) in
      ap
        (λ done.
          (done.0, (car, record { window_start = (clock car).1; scans_in_window = 0 }) ∷ done.1))
        (tick-with_client clock rates hub')

  step-with_commander :
      (codec : Postcard t) (s : Pipeline t) (i : Input t)
      → step floats codec (with_commander c s) i ≡ with_commander c (step floats codec s i)
  unfolding step on_event update_car car_or_new
  step-with_commander codec s (received event now starts) =
      let hub = update_car floats s.hub event.car (λ x. record x { last_seen_ms = event.at_ms }) in
      on_kind-with_commander event.car event.at_ms event.kind now starts
        (record s { hub = hub; recorder = record_event floats codec event s.recorder })
  step-with_commander codec s (slam_result car output) =
      ap (λ hub. record s { hub = hub }) (on_slam-with_client car output s.hub)
  step-with_commander codec s (stats_tick clock) =
      ap (λ done. record s { hub = done.0; rates = done.1 }) (tick-with_client clock s.rates s.hub)

  run-with_commander :
      (codec : Postcard t) (s : Pipeline t) (inputs : List (Input t))
      → run floats codec (with_commander c s) inputs ≡ with_commander c (run floats codec s inputs)
  unfolding run
  run-with_commander codec s [] = refl
  run-with_commander codec s (i ∷ inputs) =
      ap (λ x. run floats codec x inputs) (step-with_commander codec s i)
      ∙ run-with_commander codec (step floats codec s i) inputs

module _ {t : Types} where
  abbrev pub requests_of : List (Act t) → ℕ
  requests_of [] = 0
  requests_of (input i ∷ acts) = requests_of acts
  requests_of (request r ∷ acts) = suc (requests_of acts)

module _ {t : Types} (p : Proto t) where
  -- What a request makes the hub publish: a command whose id makes a topic, if the client takes it.
  abbrev pub command_of : Request t → List Publish
  command_of (post_cmd id command accepts gone) = elim (Proto.topic p id Channel.cmd) [
    | none ↦ []
    | some topic ↦ if accepts then record { topic = topic; payload = encode p command } ∷ [] else []
  ]
  command_of _ = []

  abbrev pub commands_of : List (Act t) → List Publish
  commands_of [] = []
  commands_of (input i ∷ acts) = commands_of acts
  commands_of (request r ∷ acts) = command_of r ++ commands_of acts

  abbrev appended : Hub t → List Publish → Hub t
  appended hub l = with_client (record { client = hub.commander.client ++ l }) hub

  appended-nil : (hub : Hub t) → hub ≡ appended hub []
  appended-nil hub =
      ap (λ l. with_client (record { client = l }) hub) (sym (append-nil hub.commander.client))

  cmd-commander :
      (hub : Hub t) (id : Text) (command : Command) (accepts : Bool) (gone : Text)
      → (cmd p accepts gone hub id command).0
        ≡ appended hub (command_of (post_cmd id command accepts gone))
  unfolding cmd send
  cmd-commander hub id command accepts gone =
      let asked : Request t = post_cmd id command accepts gone in
      let silent : command_of asked ≡ []
          → (cmd p accepts gone hub id command).0 ≡ hub
          → (cmd p accepts gone hub id command).0 ≡ appended hub (command_of asked) =
        λ e same. same ∙ appended-nil hub ∙ ap (appended hub) (sym e) in
      elim (Option-cases (Proto.topic p id Channel.cmd)) [
        | inl long ↦ silent (ground arith) (ground arith)
        | inr (topic, short) ↦ elim (Bool-cases accepts) [
          | inl taken ↦ ground arith
          | inr gives_up ↦ silent (ground arith) (ground arith)
        ]
      ]

module _ {t : Types} (p : Proto t) (has_index : Text → Bool)
    (serve_dir : Text → Text → Response t) where
  router-commander :
      (hub : Hub t) (r : Request t)
      → (router p has_index serve_dir hub r).0 ≡ appended p hub (command_of p r)
  unfolding router
  router-commander hub (get_health ws_clients) = appended-nil p hub
  router-commander hub get_cars = appended-nil p hub
  router-commander hub (get_car id) = appended-nil p hub
  router-commander hub (get_map_png id) = appended-nil p hub
  router-commander hub (get_map_pgm id) = appended-nil p hub
  router-commander hub (post_cmd id command accepts gone) =
      cmd-commander p hub id command accepts gone
  router-commander hub (elsewhere path) = appended-nil p hub
  router-commander hub (refused reply) = appended-nil p hub

  module _ (floats : Floats t) (codec : Postcard t) where
    -- However the steps of the pipeline and of the server alternate, the cars, maps, events, rates,
    -- mailboxes and the recording are those of the pipeline's run without any request, each request
    -- gets a reply, and what was published are the commands of the requests, in their order.
    pub serve-run :
        (s : Pipeline t) (acts : List (Act t))
        → let (s', replies) = serve p has_index serve_dir floats codec s acts in
          let published = s.hub.commander.client ++ commands_of p acts in
          (s'
            ≡ with_commander (record { client = published }) (run floats codec s (inputs_of acts)))
          × (length replies ≡ requests_of acts)
    unfolding serve run
    serve-run s [] = (ap (λ hub. record s { hub = hub }) (appended-nil p s.hub), refl)
    serve-run s (input i ∷ acts) =
        let (same, replies) = serve-run (step floats codec s i) acts in
        let kept =
          ap (λ x. x.hub.commander.client) (step-with_commander floats s.hub.commander codec s i) in
        (
          same
              ∙ ap
                  (λ l.
                    with_commander (record { client = l ++ commands_of p acts })
                      (run floats codec (step floats codec s i) (inputs_of acts)))
                  kept,
          replies,
        )
    serve-run s (request r ∷ acts) =
        let c : Commander = record { client = s.hub.commander.client ++ command_of p r } in
        let moved : record s { hub = (router p has_index serve_dir s.hub r).0 }
            ≡ with_commander c s =
          ap (λ hub. record s { hub = hub }) (router-commander s.hub r) in
        let (same, replies) = serve-run (with_commander c s) acts in
        (
          ap (λ x. (serve p has_index serve_dir floats codec x acts).0) moved
              ∙ same
              ∙ ap (with_commander (record { client = c.client ++ commands_of p acts }))
                  (run-with_commander floats c codec s (inputs_of acts))
              ∙ ap
                  (λ l.
                    with_commander (record { client = l }) (run floats codec s (inputs_of acts)))
                  (append_assoc s.hub.commander.client (command_of p r) (commands_of p acts)),
          ap suc (
              ap (λ x. length (serve p has_index serve_dir floats codec x acts).1) moved ∙ replies),
        )
