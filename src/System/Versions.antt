-- ===== src/System/Versions.antt =====
-- The numbers of the maps that are broadcast about a car.
use mathlib.Core.List.{map-append}
use olivaw_hub.Prelude.{
  ℕ, zero, suc, max, ◌==◌, Option, ◌+◌, ◌%◌, ◌^◌, ◌≡◌, refl, sym, ap, ◌∙◌, subst, ◌⊎◌, inl, inr,
  some, List, [], ◌∷◌, ◌++◌, append-nil, append_assoc, map, arith, length, Bool-cases, Option-cases,
}
use olivaw_hub.Text.{Text}
use olivaw_hub.External.{Types, Floats, Proto, ScanCloud, SlamLib}
use olivaw_hub.Config.{HubConfig}
use olivaw_hub.Ingest.Mqtt.{Commander}
use olivaw_hub.Postcard.{Postcard}
use olivaw_hub.Session.Recorder.{Recorder}
use olivaw_hub.Slam.MapPng.{GridLib, from_grid}
use olivaw_hub.Slam.Worker.{SlamOutput, WorkerTuning, Thread, Round, start, render, track, work}
use olivaw_hub.Slam.Worker.Cases.{work_cases}
use olivaw_hub.Slam.Worker.Cadence.{from, from-append, version-from_grid}
use olivaw_hub.Pipeline.{info_of}
use olivaw_hub.Pipeline.Car.{events_of}
use olivaw_hub.System.{System, tuning_of, Reach}
use olivaw_hub.System.Lane
use olivaw_hub.System.Lane.{
  Result, posed, mapped, Lane, results_in, results_of, of_car, lane, worked, LaneStep, LaneReach,
}
use olivaw_hub.System.Refines.{lane-Reach}

abbrev w64 : ℕ → ℕ
w64 n = n % 2 ^ 64

module _ {t : Types} where
  -- The versions of the maps.
  abbrev pub versions_in : List (Result t) → List ℕ
  versions_in [] = []
  versions_in (posed pose ∷ l) = versions_in l
  versions_in (mapped info ∷ l) = info.version ∷ versions_in l

  versions_in-append :
      (a b : List (Result t)) → versions_in (a ++ b) ≡ versions_in a ++ versions_in b
  versions_in-append [] b = refl
  versions_in-append (posed pose ∷ a) b = versions_in-append a b
  versions_in-append (mapped info ∷ a) b = ap (◌∷◌ info.version) (versions_in-append a b)

-- The first numbers of a longer row are a row.
first-from :
    (v k : ℕ) (xs ys : List ℕ) → xs ++ ys ≡ map w64 (from v k) → xs ≡ map w64 (from v (length xs))
first-from v k [] ys h = refl
first-from v zero (x ∷ xs) ys h = absurd (ground arith)
first-from v (suc k) (x ∷ xs) ys h =
    let rest = first-from (suc v) k xs ys (ground arith) in
    ap (◌∷◌ x) rest ∙ ap (λ y. y ∷ map w64 (from (suc v) (length xs))) (ground arith)

module _ {t : Types} (floats : Floats t) (proto : Proto t) (lib : SlamLib t) (grids : GridLib t)
    (j : Text) where
  -- What a thread sends and how its version goes on: no map, or one with the next version.
  abbrev Advances : Thread t → List (SlamOutput t) × Option (Thread t) → Type 0
  Advances th done =
      ((versions_in (results_of floats j done.0) ≡ [])
        × ((next : Thread t) → done.1 ≡ some next → next.map_version ≡ th.map_version))
      ⊎ ((versions_in (results_of floats j done.0) ≡ w64 (th.map_version + 1) ∷ [])
          × ((next : Thread t) → done.1 ≡ some next → next.map_version ≡ w64 (th.map_version + 1)))

  Advances-render :
      (tuning : WorkerTuning) (th : Thread t) (round : Round t)
      → Advances th (render floats proto lib grids tuning th round)
  unfolding render info_of
  Advances-render tuning th round =
      let version = (th.map_version + 1) % 2 ^ 64 in
      elim (Bool-cases (th.processed % max tuning.map_every_scans 1 == 0)) [
        | inr early ↦ inl (rw early refl, λ next h. ground arith)
        | inl due ↦
            elim (Option-cases (from_grid floats grids (SlamLib.grid lib th.slam) version)) [
              | inl failed ↦ inl (rw (due, failed) refl, λ next h. absurd (ground arith))
              | inr (m, drawn) ↦ elim (Bool-cases round.takes_map) [
                | inl taken ↦
                    let named =
                      version-from_grid floats grids (SlamLib.grid lib th.slam) version m drawn in
                    inr (rw (due, drawn, taken) (ap (λ v. v ∷ []) named), λ next h. ground arith)
                | inr gone ↦ inl (rw (due, drawn, gone) refl, λ next h. absurd (ground arith))
              ]
            ]
      ]

  Advances-track :
      (tuning : WorkerTuning) (th : Thread t) (frame : t.ScanFrame) (cloud : ScanCloud t)
      (pose : t.Pose2) (round : Round t)
      → Advances th (track floats proto lib grids tuning th frame cloud pose round)
  unfolding track render
  Advances-track tuning th frame cloud pose round = elim (Bool-cases round.takes_pose) [
    | inl taken ↦ rw taken (Advances-render tuning _ round)
    | inr gone ↦ inl (rw gone refl, λ next h. absurd (ground arith))
  ]

  Advances-work :
      (tuning : WorkerTuning) (th : Thread t) (frame : t.ScanFrame) (round : Round t)
      → Advances th (work floats proto lib grids tuning th frame round)
  Advances-work tuning th frame round =
      let (s, cases) = work_cases floats proto lib grids tuning th frame round in
      elim cases [
        | inl idle ↦ inl (rw idle refl, λ next h. ground (arith, idle))
        | inr (cloud, pose, goes_on) ↦
            subst (Advances th) (sym goes_on)
              (Advances-track tuning (record th { slam = s }) frame cloud pose round)
      ]

  -- The versions count from 1 on, and the thread has the last one.
  abbrev Counted : Lane t → Type 0
  Counted a =
      (k : ℕ) × (versions_in a.flow ≡ map w64 (from 0 k))
      × ((th : Thread t) → a.thread ≡ some th → th.map_version ≡ w64 k)

  counted_more : (k : ℕ) → map w64 (from 0 k) ++ w64 (w64 k + 1) ∷ [] ≡ map w64 (from 0 (k + 1))
  counted_more k =
      let e : w64 (w64 k + 1) ≡ w64 (suc (0 + k)) = omega arith in
      ap (λ v. map w64 (from 0 k) ++ v ∷ []) e
      ∙ sym (ap (map w64) (from-append 0 k 1) ∙ map-append w64 (from 0 k) (from (0 + k) 1))

  Counted-works :
      (tuning : WorkerTuning) (a : Lane t) (th : Thread t) (frame : t.ScanFrame) (round : Round t)
      → a.thread ≡ some th
      → Counted a
      → Counted (worked floats proto lib grids tuning j th frame round a)
  Counted-works tuning a th frame round goes_on (k, numbered, last) =
      let out = results_of floats j (work floats proto lib grids tuning th frame round).0 in
      let all = versions_in-append a.flow out ∙ ap (λ l. l ++ versions_in out) numbered in
      let v = last th goes_on in
      elim (Advances-work tuning th frame round) [
        | inl (silent, same) ↦ (
          k,
          all ∙ ap (◌++◌ (map w64 (from 0 k))) silent ∙ append-nil (map w64 (from 0 k)),
          λ next h. same next h ∙ v,
        )
        | inr (sent, more) ↦ (
          k + 1,
          all
              ∙ ap (◌++◌ (map w64 (from 0 k))) (sent ∙ ap (λ n. w64 (n + 1) ∷ []) v)
              ∙ counted_more k,
          λ next h. let m = more next h in omega (arith, m, v),
        )
      ]

  Counted-Step :
      (tuning : WorkerTuning) (a b : Lane t)
      → LaneStep floats proto lib grids tuning j a b
      → Counted a
      → Counted b
  Counted-Step tuning a b (Lane.rests e) h = subst Counted (sym e) h
  Counted-Step tuning a b (Lane.misses frame empty e) h = subst Counted (sym e) h
  Counted-Step tuning a b (Lane.submits frame e) h = subst Counted (sym e) h
  Counted-Step tuning a b (Lane.takes frame waits idle e) h = subst Counted (sym e) h
  Counted-Step tuning a b (Lane.works th frame round goes_on holds e) h =
      subst Counted (sym e) (Counted-works tuning a th frame round goes_on h)

  Counted-LaneReach :
      (tuning : WorkerTuning) (a : Lane t) → LaneReach floats proto lib grids tuning j a → Counted a
  unfolding start
  Counted-LaneReach tuning a Lane.opened = (0, refl, λ th h. ground arith)
  Counted-LaneReach tuning a (Lane.later {a = b} r st) =
      Counted-Step tuning b a st (Counted-LaneReach tuning b r)

module _ {t : Types} (floats : Floats t) (proto : Proto t) (lib : SlamLib t) (grids : GridLib t)
    (codec : Postcard t) where
  -- In every state that the hub comes to, whatever the order is in which the pipeline, the threads of
  -- all cars and the channel act: the maps that were broadcast about a car are numbered 1, 2, 3, …
  -- in 64 bits, in this order, without a gap.
  pub versions-numbered :
      (cfg : HubConfig t) (commander : Commander) (recorder : Option Recorder) (s : System t)
      (j : Text)
      → Reach floats codec proto lib grids cfg commander recorder s
      → (k : ℕ) × (versions_in (results_in (events_of j s.pipeline.hub.events))
          ≡ map (λ n. n % 2 ^ 64) (from 0 k))
  versions-numbered cfg commander recorder s j r =
      let a = lane floats j s in
      let es = results_in (events_of j s.pipeline.hub.events) in
      let os = results_of floats j (of_car j s.channel) in
      let us = results_of floats j (s.threads j).unsent in
      let (k, numbered, _) =
        Counted-LaneReach floats proto lib grids j (tuning_of cfg) a
          (lane-Reach floats proto lib grids codec cfg commander recorder s j r) in
      let split : versions_in a.flow ≡ versions_in es ++ versions_in (os ++ us) =
        ap versions_in (append_assoc es os us) ∙ versions_in-append es (os ++ us) in
      (
        length (versions_in es),
        first-from 0 k (versions_in es) (versions_in (os ++ us)) (sym split ∙ numbered),
      )
