-- ===== src/Sim/Drive/Points.antt =====
-- One round of the simulated car: where it heads for, and the points of its scan.
use olivaw_hub.Prelude.{
  ℕ, zero, suc, ◌+◌, ◌%◌, ◌<◌, min, ◌≡◌, refl, sym, ap, ◌∙◌, subst, ◌⊎◌, inl, inr, Bool, true,
  false, none, some, [], ◌∷◌, if◌then◌else◌, arith, length, get_elem?, get_elem?_lt, length-append,
  Option-cases,
}
use native.Mathlib.Decide.{dec_lt}
use olivaw_hub.External.{Types, FloatOps, Floats, Proto}
use olivaw_hub.Config.{SimConfig}
use olivaw_hub.Ingest.Serial.{Frames}
use olivaw_hub.Ingest.Serial.Frame.{FrameLaws}
use olivaw_hub.Sim.{RoomOps, path}
use olivaw_hub.Sim.Drive.{
  Firmware, Rover, spins, moved, wrap, move, steer, beam, push_point, sweep, scanned,
}

module _ {t : Types} (floats : Floats t) (ops : RoomOps t.F64) where
  turned_lt : (turned : Bool) (n : ℕ) → n < 6 → (if turned then (n + 1) % 6 else n) < 6
  turned_lt true n h = omega arith
  turned_lt false n h = h

  move-target :
      (step speed : t.F64) (s : Rover t.F64) (w : t.F64 × t.F64) (err : t.F64)
      → s.target < 6
      → (s1 : Rover t.F64) × (v : t.F64) × (omega : t.F64) × (move floats.f64 ops step speed s w err
          ≡ moved s1 v omega)
        × (s1.target < 6)
        × (s1.seq ≡ s.seq)
  unfolding move path
  move-target step speed s w err h = (_, _, _, refl, turned_lt _ s.target h, refl)

  -- The car heads for a waypoint, and its bearing is so far off that the loops that wrap the error
  -- are not through after as many turns as are allowed for that error.
  abbrev pub Astray : (t.F64 → ℕ) → Rover t.F64 → Type 0
  Astray turns s =
      (w : t.F64 × t.F64) × (get_elem? (path floats.f64) s.target ≡ some w)
      × (wrap floats.f64 ops turns (
            FloatOps.minus floats.f64
              (RoomOps.atan2 ops (FloatOps.minus floats.f64 w.1 s.y)
                (FloatOps.minus floats.f64 w.0 s.x))
              s.theta)
          ≡ none)

  -- The next waypoint always exists.
  pub steer-target :
      (turns : t.F64 → ℕ) (step speed : t.F64) (s : Rover t.F64)
      → s.target < 6
      → ((steer floats.f64 ops turns step speed s ≡ spins) × Astray turns s)
        ⊎ ((s1 : Rover t.F64) × (v : t.F64) × (omega : t.F64) × (steer floats.f64 ops turns step
                speed s
              ≡ moved s1 v omega)
            × (s1.target < 6)
            × (s1.seq ≡ s.seq))
  unfolding steer path
  steer-target turns step speed s h =
      let (w, found) = get_elem?_lt (path floats.f64) s.target h in
      let err =
        FloatOps.minus floats.f64
          (RoomOps.atan2 ops (FloatOps.minus floats.f64 w.1 s.y)
            (FloatOps.minus floats.f64 w.0 s.x))
          s.theta in
      elim (Option-cases (wrap floats.f64 ops turns err)) [
        | inl lost ↦ inl (ground arith, (w, found, lost))
        | inr (e, settled) ↦
            let (s1, v, omega, goes, target, seq) = move-target step speed s w e h in
            inr (s1, v, omega, ground arith, target, seq)
      ]

module _ {t : Types} (floats : Floats t) (ops : RoomOps t.F64) (p : Proto t) (frames : Frames t)
    (firmware : Firmware t) (laws : FrameLaws p frames) where
  open laws use {capacity}

  -- A frame with the number `k` that `m` points were pushed to.
  pub record Pushed (k m : ℕ) (frame : t.ScanFrame) : Type 0 where
    pub number : Proto.seq p frame ≡ k
    pub size : length (Proto.points p frame) ≡ min capacity m

  pushed :
      (frame frame' : t.ScanFrame) (x : t.ScanPoint)
      → Frames.push frames frame x ≡ some frame'
      → push_point floats ops frames firmware frame x ≡ frame'
  unfolding push_point
  pushed frame frame' x e = ground arith

  not_pushed :
      (frame : t.ScanFrame) (x : t.ScanPoint)
      → Frames.push frames frame x ≡ none
      → push_point floats ops frames firmware frame x ≡ frame
  unfolding push_point
  not_pushed frame x e = ground arith

  push_point-Pushed :
      (k m : ℕ) (frame : t.ScanFrame) (x : t.ScanPoint)
      → Pushed k m frame
      → Pushed k (m + 1) (push_point floats ops frames firmware frame x)
  push_point-Pushed k m frame x h = elim (dec_lt (length (Proto.points p frame)) capacity) [
    | yes fits ↦
        let (frame', e, points, counted, numbered) = FrameLaws.push_room laws frame x fits in
        let more = length-append (Proto.points p frame) (x ∷ []) in
        subst (Pushed k (m + 1)) (sym (pushed frame frame' x e)) (record {
          number = numbered ∙ h.number;
          size = ap length points ∙ more ∙ omega (arith, h.size);
        })
    | no full ↦
        subst (Pushed k (m + 1))
          (sym (not_pushed frame x (FrameLaws.push_full laws frame x (omega arith))))
          (record { number = h.number; size = omega (arith, h.size) })
  ]

  sweep-Pushed :
      (noise_m : t.F64) (s : Rover t.F64) (n i rng k m : ℕ) (frame : t.ScanFrame)
      → Pushed k m frame
      → Pushed k (m + n) (sweep floats ops frames firmware noise_m s n i rng frame).1
  unfolding sweep
  sweep-Pushed noise_m s zero i rng k m frame h =
      let z : m + 0 ≡ m = omega arith in subst (λ l. Pushed k l frame) (sym z) h
  sweep-Pushed noise_m s (suc n) i rng k m frame h =
      let beamed = beam floats ops frames firmware noise_m s i rng in
      let frame' = push_point floats ops frames firmware frame beamed.1 in
      let z : m + 1 + n ≡ m + suc n = omega arith in
      subst
        (λ l. Pushed k l (sweep floats ops frames firmware noise_m s n (i + 1) beamed.0 frame').1) z
        (sweep-Pushed noise_m s n (i + 1) beamed.0 k (m + 1) frame'
          (push_point-Pushed k m frame beamed.1 h))

  pub scanned-Pushed :
      (cfg : SimConfig t) (turns : t.F64 → ℕ) (s : Rover t.F64)
      → Pushed s.seq 500 (scanned floats ops frames firmware cfg turns s).1
  unfolding scanned
  scanned-Pushed cfg turns s =
      let none_yet : length (Proto.points p (Frames.empty frames s.seq s.t_ms)) ≡ 0 =
        ap length (FrameLaws.points_empty laws s.seq s.t_ms) in
      sweep-Pushed cfg.noise_m s 500 0 s.rng s.seq 0 (Frames.empty frames s.seq s.t_ms)
        (record { number = FrameLaws.seq_empty laws s.seq s.t_ms; size = omega arith })
