-- ===== src/Api/Client.antt =====
-- A client of `/ws`: it takes over the snapshot that greets it, and then overwrites what each event
-- is about.
use olivaw_hub.Prelude.{
  ℕ, ◌≡◌, refl, sym, ap, ◌∙◌, Bool, Option, none, some, List, [], ◌∷◌, ◌++◌, if◌then◌else◌, arith,
}
pub mod Sync
pub mod CaughtUp
use mathlib.Core.Path.{◌≡⟨◌⟩◌, ◌∎}
use olivaw_hub.Text.{Text}
use olivaw_hub.External.{Types, Floats}
use olivaw_hub.State
use olivaw_hub.State.{CarSnapshot, PoseInfo, MapInfo, WsEvent, fresh}
use olivaw_hub.State.Snapshots.{find}
use olivaw_hub.Pipeline.Car.{is_about, events_of}

-- What a client shows of one car.
pub record Shown (t : Types) : Type 0 where
  pub status : Text
  pub telemetry : Option t.Telemetry
  pub pose : Option (PoseInfo t)
  pub scan : List (t.F32 × t.F32)
  pub map : Option (MapInfo t)
  pub scan_hz : t.F32

-- What events overwrite of it.
pub record Patch (t : Types) : Type 0 where
  pub status : Option Text
  pub telemetry : Option (Option t.Telemetry)
  pub pose : Option (Option (PoseInfo t))
  pub scan : Option (List (t.F32 × t.F32))
  pub map : Option (Option (MapInfo t))
  pub scan_hz : Option t.F32

module _ {ℓ} {A : Type ℓ} where
  abbrev pub or : A → Option A → A
  or a none = a
  or a (some b) = b

  abbrev pub later : Option A → Option A → Option A
  later p none = p
  later p (some b) = some b

  or-or : (a : A) (p q : Option A) → or (or a p) q ≡ or a (later p q)
  or-or a p none = refl
  or-or a p (some b) = refl

  or_twice : (a : A) (p : Option A) → or (or a p) p ≡ or a p
  or_twice a none = refl
  or_twice a (some b) = refl

module _ {t : Types} where
  abbrev pub overlay : Shown t → Patch t → Shown t
  overlay s p = record {
    status = or s.status p.status;
    telemetry = or s.telemetry p.telemetry;
    pose = or s.pose p.pose;
    scan = or s.scan p.scan;
    map = or s.map p.map;
    scan_hz = or s.scan_hz p.scan_hz;
  }

  abbrev pub nothing : Patch t
  nothing = record {
    status = none;
    telemetry = none;
    pose = none;
    scan = none;
    map = none;
    scan_hz = none;
  }

  abbrev pub patch : WsEvent t → Patch t
  patch (State.hello cars) = nothing
  patch (State.status car status) = record nothing { status = some status }
  patch (State.telemetry car x at_ms) = record nothing { telemetry = some (some x) }
  patch (State.pose car pose) = record nothing { pose = some (some pose) }
  patch (State.scan car seq points) = record nothing { scan = some points }
  patch (State.map car map) = record nothing { map = some (some map) }
  patch (State.stats car hz total) = record nothing { scan_hz = some hz }

  abbrev pub then_patch : Patch t → Patch t → Patch t
  then_patch p q = record {
    status = later p.status q.status;
    telemetry = later p.telemetry q.telemetry;
    pose = later p.pose q.pose;
    scan = later p.scan q.scan;
    map = later p.map q.map;
    scan_hz = later p.scan_hz q.scan_hz;
  }

  abbrev pub patches : List (WsEvent t) → Patch t
  patches [] = nothing
  patches (e ∷ es) = then_patch (patch e) (patches es)

  pub overlay-overlay :
      (s : Shown t) (p q : Patch t) → overlay (overlay s p) q ≡ overlay s (then_patch p q)
  overlay-overlay s p q = λ i. record {
    status = or-or s.status p.status q.status i;
    telemetry = or-or s.telemetry p.telemetry q.telemetry i;
    pose = or-or s.pose p.pose q.pose i;
    scan = or-or s.scan p.scan q.scan i;
    map = or-or s.map p.map q.map i;
    scan_hz = or-or s.scan_hz p.scan_hz q.scan_hz i;
  }

  -- To see the same events again changes nothing.
  pub overlay_twice : (s : Shown t) (p : Patch t) → overlay (overlay s p) p ≡ overlay s p
  overlay_twice s p = λ i. record {
    status = or_twice s.status p.status i;
    telemetry = or_twice s.telemetry p.telemetry i;
    pose = or_twice s.pose p.pose i;
    scan = or_twice s.scan p.scan i;
    map = or_twice s.map p.map i;
    scan_hz = or_twice s.scan_hz p.scan_hz i;
  }

  pub patches-append :
      (s : Shown t) (a b : List (WsEvent t))
      → overlay s (patches (a ++ b)) ≡ overlay (overlay s (patches a)) (patches b)
  patches-append s [] b = refl
  patches-append s (e ∷ a) b =
      overlay s (patches (e ∷ (a ++ b)))
      ≡⟨ sym (overlay-overlay s (patch e) (patches (a ++ b))) ⟩
        overlay (overlay s (patch e)) (patches (a ++ b))
      ≡⟨ patches-append (overlay s (patch e)) a b ⟩
        overlay (overlay (overlay s (patch e)) (patches a)) (patches b)
      ≡⟨ ap (λ x. overlay x (patches b)) (overlay-overlay s (patch e) (patches a)) ⟩
        overlay (overlay s (patches (e ∷ a))) (patches b) ∎

module _ {t : Types} (floats : Floats t) where
  abbrev pub shown_of : CarSnapshot t → Shown t
  shown_of c = record {
    status = c.status;
    telemetry = c.telemetry;
    pose = c.pose;
    scan = c.scan;
    map = c.map;
    scan_hz = c.scan_hz;
  }

  -- A car that is not known is shown as one that was just heard of.
  abbrev pub shown_or_new : Text → Option (CarSnapshot t) → Shown t
  shown_or_new j none = shown_of (fresh floats j)
  shown_or_new j (some c) = shown_of c

  -- One message, for a client that shows the car `j`.
  abbrev pub take_in : Text → Shown t → WsEvent t → Shown t
  take_in j s (State.hello cars) = shown_or_new j (find j cars)
  take_in j s e = if is_about j e then overlay s (patch e) else s

  abbrev pub client : Text → Shown t → List (WsEvent t) → Shown t
  client j s [] = s
  client j s (e ∷ es) = client j (take_in j s e) es
