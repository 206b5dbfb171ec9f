-- ===== src/Sim/Drive/Turns.antt =====
-- How many turns are allowed for an angle does not matter once they are enough.
use olivaw_hub.Prelude.{
  ℕ, zero, suc, ◌≤◌, ◌≡◌, ◌≢◌, refl, ap, ◌∙◌, ◌⊎◌, inl, inr, Bool, true, false, Option, some, List,
  [], ◌∷◌, ◌++◌, arith, get_elem?, Option-cases,
}
use olivaw_hub.Text.{codes}
use olivaw_hub.External.{Types, FloatOps, Floats}
use olivaw_hub.Config.{SimConfig}
use olivaw_hub.Ingest.{CarEvent, status, now}
use olivaw_hub.Ingest.Serial.{Frames}
use olivaw_hub.Sim.{RoomOps, path}
use olivaw_hub.Sim.Drive.{
  Firmware, Rover, Steered, out_of_range, spins, moved, Ended, spinning, Tick, Round, stops,
  goes_on, wrap_down, wrap_up, wrap, steer, scanned, report, act, round_of, drive, at_start, run,
  dt,
}

module _ {A : Type 0} (f : FloatOps A) (ops : RoomOps A) where
  wrap_down-more :
      (n m : ℕ) (err e : A)
      → n ≤ m
      → wrap_down f ops n err ≡ some e
      → wrap_down f ops m err ≡ some e
  unfolding wrap_down
  wrap_down-more zero zero err e h k = k
  wrap_down-more zero (suc m) err e h k = ground arith
  wrap_down-more (suc n) zero err e h k = absurd (omega arith)
  wrap_down-more (suc n) (suc m) err e h k =
      let later = wrap_down-more n m (FloatOps.minus f err (RoomOps.tau ops)) e (omega arith) in
      ground arith

  wrap_up-more :
      (n m : ℕ) (err e : A) → n ≤ m → wrap_up f ops n err ≡ some e → wrap_up f ops m err ≡ some e
  unfolding wrap_up
  wrap_up-more zero zero err e h k = k
  wrap_up-more zero (suc m) err e h k = ground arith
  wrap_up-more (suc n) zero err e h k = absurd (omega arith)
  wrap_up-more (suc n) (suc m) err e h k =
      let later = wrap_up-more n m (FloatOps.plus f err (RoomOps.tau ops)) e (omega arith) in
      ground arith

  wrap-more :
      (turns more : A → ℕ) (err e : A)
      → ((x : A) → turns x ≤ more x)
      → wrap f ops turns err ≡ some e
      → wrap f ops more err ≡ some e
  unfolding wrap
  wrap-more turns more err e h k = elim (Option-cases (wrap_down f ops (turns err) err)) [
    | inl lost ↦ absurd (ground arith)
    | inr (d, found) ↦
        let up : wrap_up f ops (turns d) d ≡ some e = ground arith in
        let found' = wrap_down-more (turns err) (more err) err d (h err) found in
        let up' = wrap_up-more (turns d) (more d) d e (h d) up in ground arith
  ]

  steer-more :
      (turns more : A → ℕ) (step speed : A) (s : Rover A)
      → ((x : A) → turns x ≤ more x)
      → (steer f ops turns step speed s ≡ spins)
        ⊎ (steer f ops more step speed s ≡ steer f ops turns step speed s)
  unfolding steer
  steer-more turns more step speed s h = elim (Option-cases (get_elem? (path f) s.target)) [
    | inl nowhere ↦ inr (ground arith)
    | inr (w, found) ↦
        let err =
          FloatOps.minus f (RoomOps.atan2 ops (FloatOps.minus f w.1 s.y) (FloatOps.minus f w.0 s.x))
            s.theta in
        elim (Option-cases (wrap f ops turns err)) [
          | inl lost ↦ inl (ground arith)
          | inr (e, settled) ↦
              let settled' = wrap-more turns more err e h settled in inr (ground arith)
        ]
  ]

module _ {t : Types} (floats : Floats t) (ops : RoomOps t.F64) (frames : Frames t)
    (firmware : Firmware t) (cfg : SimConfig t) (turns more : t.F64 → ℕ) where
  report-more :
      (tick : Tick) (s : Rover t.F64) (frame : t.ScanFrame) (v w : t.F64) (due : Bool) (room : ℕ)
      → report floats ops frames firmware cfg more tick s frame v w due room
        ≡ report floats ops frames firmware cfg turns tick s frame v w due room
  unfolding report
  report-more tick s frame v w due zero = refl
  report-more tick s frame v w false (suc left) = refl
  report-more tick s frame v w true (suc zero) = refl
  report-more tick s frame v w true (suc (suc left)) = refl

  act-more :
      (tick : Tick) (room : ℕ) (st : Steered t.F64)
      → act floats ops frames firmware cfg more tick room st
        ≡ act floats ops frames firmware cfg turns tick room st
  unfolding act scanned
  act-more tick room out_of_range = refl
  act-more tick room spins = refl
  act-more tick room (moved s1 v w) = report-more tick _ _ v w _ room

  round_of-more :
      (tick : Tick) (room : ℕ) (s : Rover t.F64)
      → ((x : t.F64) → turns x ≤ more x)
      → (round_of floats ops frames firmware cfg turns tick room s ≡ stops [] spinning)
        ⊎ (round_of floats ops frames firmware cfg more tick room s
            ≡ round_of floats ops frames firmware cfg turns tick room s)
  unfolding round_of act
  round_of-more tick room s h =
      elim (steer-more floats.f64 ops turns more (dt floats ops frames firmware cfg turns)
        cfg.speed_mps s h) [
          | inl lost ↦ inl (ap (act floats ops frames firmware cfg turns tick room) lost)
          | inr same ↦
              inr
                (ap (act floats ops frames firmware cfg more tick room) same ∙ act-more tick room _)
        ]

  abbrev goes : (t.F64 → ℕ) → List Tick → Round t → List (CarEvent t) × Ended
  goes bound ticks r = elim r [
    | stops sent end ↦ (sent, end)
    | goes_on sent left s' ↦
        let rest = drive floats ops frames firmware cfg bound ticks left s' in
        (sent ++ rest.0, rest.1)
  ]

  drive-more :
      (ticks : List Tick) (room : ℕ) (s : Rover t.F64)
      → ((x : t.F64) → turns x ≤ more x)
      → ((drive floats ops frames firmware cfg turns ticks room s).1 ≡ spinning)
        ⊎ (drive floats ops frames firmware cfg more ticks room s
            ≡ drive floats ops frames firmware cfg turns ticks room s)
  unfolding drive
  drive-more [] room s h = inr refl
  drive-more (tick ∷ ticks) room s h = elim (round_of-more tick room s h) [
    | inl lost ↦ inl (ap (λ r. (goes turns ticks r).1) lost)
    | inr same ↦
        elim (go (round_of floats ops frames firmware cfg turns tick room s)
          (λ left s'. drive-more ticks left s' h)) [
            | inl e ↦ inl e
            | inr both ↦ inr (ap (goes more ticks) same ∙ both)
          ]
  ]
    where
      go :
          (r : Round t)
          → ((left : ℕ) (s' : Rover t.F64)
              → ((drive floats ops frames firmware cfg turns ticks left s').1 ≡ spinning)
                ⊎ (drive floats ops frames firmware cfg more ticks left s'
                    ≡ drive floats ops frames firmware cfg turns ticks left s'))
          → ((goes turns ticks r).1 ≡ spinning) ⊎ (goes more ticks r ≡ goes turns ticks r)
      go (stops sent end) later = inr refl
      go (goes_on sent left s') later = elim (later left s') [
        | inl e ↦ inl e
        | inr same ↦ inr (ap (λ rest. (sent ++ rest.0, rest.1)) same)
      ]

  run-more_lem :
      (clock : Option ℕ) (ticks : List Tick) (room : ℕ)
      → ((x : t.F64) → turns x ≤ more x)
      → ((run floats ops frames firmware cfg turns clock ticks room).1 ≡ spinning)
        ⊎ (run floats ops frames firmware cfg more clock ticks room
            ≡ run floats ops frames firmware cfg turns clock ticks room)
  unfolding run at_start
  run-more_lem clock ticks zero h = drive-more ticks zero _ h
  run-more_lem clock ticks (suc room) h = elim (drive-more ticks room _ h) [
    | inl e ↦ inl e
    | inr same ↦
        inr (ap (λ rest. (now clock cfg.car_id (status (codes "online")) ∷ rest.0, rest.1)) same)
  ]

  -- How many turns are allowed for each angle does not matter as long as they are enough: if no
  -- angle of a drive takes more turns than are allowed for it, then with more turns allowed, for
  -- whichever angles, the car sends the same and the drive ends in the same way.
  pub run-more :
      (clock : Option ℕ) (ticks : List Tick) (room : ℕ)
      → ((x : t.F64) → turns x ≤ more x)
      → (run floats ops frames firmware cfg turns clock ticks room).1 ≢ spinning
      → run floats ops frames firmware cfg more clock ticks room
        ≡ run floats ops frames firmware cfg turns clock ticks room
  run-more clock ticks room h enough = elim (run-more_lem clock ticks room h) [
    | inl lost ↦ absurd (enough lost)
    | inr same ↦ same
  ]
