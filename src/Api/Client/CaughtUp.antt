-- ===== src/Api/Client/CaughtUp.antt =====
-- A client that joins while the hub runs: nothing is lost between its subscription and its greeting.
use olivaw_hub.Prelude.{
  ℕ, ◌≡◌, refl, sym, ap, ◌∙◌, subst, inl, inr, true, Option, List, [], ◌∷◌, ◌++◌, map, append_assoc,
  append_cancel, if◌then◌else◌, length, drop, drop-append, Bool-cases,
}
use olivaw_hub.Text.{Text}
use olivaw_hub.Dict.{get}
use olivaw_hub.External.{Types, Floats}
use olivaw_hub.Config.{HubConfig}
use olivaw_hub.Ingest.Mqtt.{Commander}
use olivaw_hub.Postcard.{Postcard}
use olivaw_hub.Session.Recorder.{Recorder}
use olivaw_hub.State
use olivaw_hub.State.{WsEvent, Hub, snapshots}
use olivaw_hub.State.Snapshots.{find, snapshots-find}
use olivaw_hub.Pipeline.{Pipeline, Input, init, run}
use olivaw_hub.Pipeline.Car.{Car, is_about, events_of, view}
use olivaw_hub.Pipeline.Sound.{IsSound}
use olivaw_hub.Pipeline.Machine.{view-run}
use olivaw_hub.Pipeline.Counts.{IsSound-init}
use olivaw_hub.Pipeline.Listed.{run-IsWellFormed}
use olivaw_hub.Pipeline.History.{IsLive, Extends, run-Extends, run-append, run-IsSound}
use olivaw_hub.Api.Ws.{Polled, event, forward, session}
use olivaw_hub.Api.Client.{
  Shown, overlay, overlay-overlay, overlay_twice, patch, patches, patches-append, shown_or_new,
  take_in, client,
}
use olivaw_hub.Api.Client.Sync.{Synced, car_run-Synced}

module _ {t : Types} where
  -- What the channel of a client holds that never falls behind, and whose socket takes everything.
  abbrev pub all_taken : List (WsEvent t) → List (Polled t)
  all_taken [] = []
  all_taken (e ∷ es) = event e true ∷ all_taken es

  forward-all_taken : (es : List (WsEvent t)) → forward (all_taken es) ≡ es
  unfolding forward
  forward-all_taken [] = refl
  forward-all_taken (e ∷ es) = ap (◌∷◌ e) (forward-all_taken es)

  events_of-append :
      (j : Text) (a b : List (WsEvent t)) → events_of j (a ++ b) ≡ events_of j a ++ events_of j b
  events_of-append j [] b = refl
  events_of-append j (e ∷ a) b = elim (Bool-cases (is_about j e)) [
    | inl own ↦ rw own (ap (◌∷◌ e) (events_of-append j a b))
    | inr other ↦ rw other (events_of-append j a b)
  ]

module _ {t : Types} (floats : Floats t) (j : Text) where
  -- One event that is not a greeting.
  client_one :
      (s : Shown t) (e : WsEvent t) (es : List (WsEvent t))
      → take_in floats j s e ≡ (if is_about j e then overlay s (patch e) else s)
      → ((r : Shown t) → client floats j r es ≡ overlay r (patches (events_of j es)))
      → client floats j s (e ∷ es) ≡ overlay s (patches (events_of j (e ∷ es)))
  client_one s e es usual rest = elim (Bool-cases (is_about j e)) [
    | inl own ↦
        let seen : take_in floats j s e ≡ overlay s (patch e) =
          usual ∙ ap (λ b. if b then overlay s (patch e) else s) own in
        rw own (
          ap (λ r. client floats j r es) seen
          ∙ rest (overlay s (patch e))
          ∙ overlay-overlay s (patch e) (patches (events_of j es)))
    | inr other ↦
        let seen : take_in floats j s e ≡ s =
          usual ∙ ap (λ b. if b then overlay s (patch e) else s) other in
        rw other (ap (λ r. client floats j r es) seen ∙ rest s)
  ]

  -- Events overwrite what they are about, and only those about the car count.
  client-patches :
      (s : Shown t) (es : List (WsEvent t))
      → IsLive es
      → client floats j s es ≡ overlay s (patches (events_of j es))
  client-patches s [] h = refl
  client-patches s (State.hello cars ∷ es) h = absurd h
  client-patches s (State.status car status ∷ es) h =
      client_one s (State.status car status) es refl (λ r. client-patches r es h)
  client-patches s (State.telemetry car x at_ms ∷ es) h =
      client_one s (State.telemetry car x at_ms) es refl (λ r. client-patches r es h)
  client-patches s (State.pose car pose ∷ es) h =
      client_one s (State.pose car pose) es refl (λ r. client-patches r es h)
  client-patches s (State.scan car seq points ∷ es) h =
      client_one s (State.scan car seq points) es refl (λ r. client-patches r es h)
  client-patches s (State.map car map ∷ es) h =
      client_one s (State.map car map) es refl (λ r. client-patches r es h)
  client-patches s (State.stats car hz total ∷ es) h =
      client_one s (State.stats car hz total) es refl (λ r. client-patches r es h)

module _ {t : Types} (floats : Floats t) (trajectory_len : ℕ) (j : Text) where
  -- Along two runs of the car's machine: who takes over the state between them, and is then shown
  -- the events of both, is up to date at the end.
  overlay_both :
      (u v w : Car t) (both : List (WsEvent t)) (f : Synced floats trajectory_len j u v)
      (g : Synced floats trajectory_len j v w)
      → w.events ≡ u.events ++ both
      → overlay (shown_or_new floats j v.seen) (patches both) ≡ shown_or_new floats j w.seen
  overlay_both u v w both f g e =
      let all : both ≡ f.new ++ g.new =
        append_cancel u.events both (f.new ++ g.new) (
          sym e ∙ g.emitted ∙ ap (λ l. l ++ g.new) f.emitted ∙ append_assoc u.events f.new g.new) in
      let again : overlay (shown_or_new floats j v.seen) (patches f.new)
          ≡ shown_or_new floats j v.seen =
        ap (λ s. overlay s (patches f.new)) (sym f.up_to_date)
        ∙ overlay_twice (shown_or_new floats j u.seen) (patches f.new)
        ∙ f.up_to_date in
      ap (λ l. overlay (shown_or_new floats j v.seen) (patches l)) all
      ∙ patches-append (shown_or_new floats j v.seen) f.new g.new
      ∙ ap (λ s. overlay s (patches g.new)) again
      ∙ g.up_to_date

module _ {t : Types} (floats : Floats t) (codec : Postcard t) where
  -- The state `s` when a client subscribes, in a run of the hub.
  view-Synced :
      (n : ℕ) (j : Text) (s : Pipeline t) (inputs : List (Input t))
      → IsSound floats n s
      → Synced floats n j (view j s) (view j (run floats codec s inputs))
  view-Synced n j s inputs sound =
      subst (Synced floats n j (view j s)) (sym (view-run floats codec n j s inputs sound))
        (car_run-Synced floats n j (view j s) inputs)

  -- A client that subscribes after the hub has handled the inputs `subscribed`, is greeted after
  -- `before` more, and receives all that is broadcast from its subscription on, without falling
  -- behind: after the inputs `after` it shows every car's status, telemetry, pose, scan, map and
  -- scan rate as the hub's snapshot has them.
  pub client-session :
      (cfg : HubConfig t) (commander : Commander) (recorder : Option Recorder)
      (subscribed before after : List (Input t)) (j : Text) (s : Shown t)
      → let s0 = run floats codec (init cfg commander recorder) subscribed in
        let s1 = run floats codec s0 before in
        let s2 = run floats codec s1 after in
        let broadcast = drop (length s0.hub.events) s2.hub.events in
        client floats j s (session s1.hub true (all_taken broadcast))
        ≡ shown_or_new floats j (get j s2.hub.cars)
  unfolding session init State.new
  client-session cfg commander recorder subscribed before after j s =
      let n = cfg.slam.trajectory_len in
      let start = init cfg commander recorder in
      let s0 = run floats codec start subscribed in
      let s1 = run floats codec s0 before in
      let s2 = run floats codec s1 after in
      let sound0 =
        run-IsSound floats codec n start subscribed (IsSound-init floats cfg commander recorder) in
      let sound1 = run-IsSound floats codec n s0 before sound0 in
      let same = run-append floats codec s0 before after in
      let (new, e, live) : Extends s0.hub.events s2.hub.events =
        subst (λ r. Extends s0.hub.events r.hub.events) same
          (run-Extends floats codec s0 (before ++ after)) in
      let broadcast : drop (length s0.hub.events) s2.hub.events ≡ new =
        ap (drop (length s0.hub.events)) e ∙ drop-append s0.hub.events new in
      let listed =
        (snapshots-find s1.hub (
            run-IsWellFormed floats codec s0 before
              (run-IsWellFormed floats codec start subscribed tt))).1
          j in
      let greeted = shown_or_new floats j (find j (snapshots s1.hub)) in
      ap (client floats j greeted)
        (forward-all_taken (drop (length s0.hub.events) s2.hub.events) ∙ broadcast)
      ∙ client-patches floats j greeted new live
      ∙ ap (λ o. overlay (shown_or_new floats j o) (patches (events_of j new))) listed
      ∙ overlay_both floats n j (view j s0) (view j s1) (view j s2) (events_of j new)
          (view-Synced n j s0 before sound0) (view-Synced n j s1 after sound1)
          (ap (events_of j) e ∙ events_of-append j s0.hub.events new)
