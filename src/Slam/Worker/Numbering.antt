-- ===== src/Slam/Worker/Numbering.antt =====
-- The maps that a worker's thread sends over its life.
use native.Mathlib.Nat.{zero-div}
use olivaw_hub.Prelude.{
  ℕ, suc, subst, ◌+◌, ◌/◌, ◌^◌, ◌<◌, max, ◌≡◌, sym, ap, ◌∙◌, inl, inr, some, List, [], ◌∷◌, ◌++◌,
  arith, length, length-append, Option-cases,
}
use olivaw_hub.External.{Types, Floats, Proto, SlamLib}
use olivaw_hub.Slam.MapPng.{GridLib}
use olivaw_hub.Slam.Worker.{SlamOutput, WorkerTuning, Thread, Round, start, work, work_all}
use olivaw_hub.Slam.Worker.Cadence.{
  from, from-append, versions, poses, versions-append, poses-append, OnTime, idle-OnTime,
  work-OnTime,
}

module _ {t : Types} where
  OnTime-trans :
      (every j k : ℕ) (a b c : Thread t) (out outs : List (SlamOutput t))
      → OnTime every j a out b
      → OnTime every k b outs c
      → OnTime every (j + k) a (out ++ outs) c
  OnTime-trans every j k a b c out outs f g =
      let both = versions-append out outs in
      let sum = poses-append out outs in
      let long = length-append (versions out) (versions outs) in
      let longer = ap length both in
      record {
        few = omega (arith, f.few, g.few, sum);
        passed = omega (arith, f.passed, g.passed, sum);
        numbered =
            both
            ∙ ap (λ l. l ++ versions outs) f.numbered
            ∙ ap (◌++◌ (from a.map_version (length (versions out))))
                (g.numbered ∙ ap (λ v. from v (length (versions outs))) f.advanced)
            ∙ sym (from-append a.map_version (length (versions out)) (length (versions outs)))
            ∙ ap (from a.map_version) (sym (longer ∙ long));
        advanced = omega (arith, f.advanced, g.advanced, longer, long);
        due = g.due;
      }

module _ {t : Types} (floats : Floats t) (proto : Proto t) (lib : SlamLib t)
    (grids : GridLib t) where
  pub work_all_cons :
      (tuning : WorkerTuning) (th next : Thread t) (frame : t.ScanFrame) (round : Round t)
      (rounds : List (t.ScanFrame × Round t))
      → (work floats proto lib grids tuning th frame round).1 ≡ some next
      → let rest = work_all floats proto lib grids tuning next rounds in
        work_all floats proto lib grids tuning th ((frame, round) ∷ rounds)
        ≡ ((work floats proto lib grids tuning th frame round).0 ++ rest.0, rest.1)
  unfolding work_all
  work_all_cons tuning th next frame round rounds h = ground arith

  -- The thread goes on after a run only if it goes on after the first round.
  pub work_all_goes_on :
      (tuning : WorkerTuning) (th last : Thread t) (frame : t.ScanFrame) (round : Round t)
      (rounds : List (t.ScanFrame × Round t))
      → (work_all floats proto lib grids tuning th ((frame, round) ∷ rounds)).1 ≡ some last
      → (next : Thread t) × ((work floats proto lib grids tuning th frame round).1 ≡ some next)
  unfolding work_all
  work_all_goes_on tuning th last frame round rounds h =
      elim (Option-cases (work floats proto lib grids tuning th frame round).1) [
        | inl ended ↦ absurd (ground arith)
        | inr goes_on ↦ goes_on
      ]

  work_all-OnTime :
      (tuning : WorkerTuning) (th last : Thread t) (rounds : List (t.ScanFrame × Round t))
      → th.processed + length rounds < 2 ^ 32
      → th.map_version ≡ th.processed / max tuning.map_every_scans 1
      → (work_all floats proto lib grids tuning th rounds).1 ≡ some last
      → OnTime
          (max tuning.map_every_scans 1)
          (length rounds)
          th
          (work_all floats proto lib grids tuning th rounds).0
          last
  unfolding work_all
  work_all-OnTime tuning th last [] small v h =
      let same : th ≡ last = ground arith in
      idle-OnTime floats proto lib grids (max tuning.map_every_scans 1) 0 th last v
        (ap (λ x. x.processed) same) (ap (λ x. x.map_version) same)
  work_all-OnTime tuning th last ((frame, round) ∷ rounds) small v h =
      let every = max tuning.map_every_scans 1 in
      let (next, goes_on) = work_all_goes_on tuning th last frame round rounds h in
      let e = work_all_cons tuning th next frame round rounds goes_on in
      let first =
        work-OnTime floats proto lib grids tuning th next frame round (omega arith) v goes_on in
      let rest =
        work_all-OnTime tuning next last rounds (omega (arith, first.few, first.passed)) first.due
          (ap (λ x. x.1) (sym e) ∙ h) in
      let n : 1 + length rounds ≡ suc (length rounds) = omega arith in
      subst
        (λ k.
          OnTime every k th (work_all floats proto lib grids tuning th ((frame, round) ∷ rounds)).0
            last)
        n
        (subst (λ x. OnTime every (1 + length rounds) th x.0 last) (sym e)
          (OnTime-trans every 1 (length rounds) th next last
            (work floats proto lib grids tuning th frame round).0
            (work_all floats proto lib grids tuning next rounds).0 first rest))

  -- Over fewer than 2 ^ 32 rounds from the thread's start, as long as its results are taken and its
  -- maps can be rendered, the maps sent are numbered 1, 2, 3, … without a gap, and there is one of
  -- them for every `map_every_scans` poses sent (for every pose, if that is 0).
  pub work_all-versions :
      (tuning : WorkerTuning) (first last : Thread t) (rounds : List (t.ScanFrame × Round t))
      → start floats proto lib grids ≡ some first
      → length rounds < 2 ^ 32
      → (work_all floats proto lib grids tuning first rounds).1 ≡ some last
      → let out = (work_all floats proto lib grids tuning first rounds).0 in
        versions out ≡ from 0 (poses out / max tuning.map_every_scans 1)
  unfolding start
  work_all-versions tuning first last rounds s small h =
      let every = max tuning.map_every_scans 1 in
      let out = (work_all floats proto lib grids tuning first rounds).0 in
      let p : first.processed ≡ 0 = ground arith in
      let m : first.map_version ≡ 0 = ground arith in
      let none_yet : first.processed / every ≡ 0 = ap (λ k. k / every) p ∙ zero-div every in
      let on = work_all-OnTime tuning first last rounds (omega arith) (omega (arith, none_yet)) h in
      let sent : last.processed ≡ poses out = omega (arith, on.passed) in
      let count : length (versions out) ≡ poses out / every =
        omega (arith, on.advanced) ∙ on.due ∙ ap (λ k. k / every) sent in
      on.numbered ∙ ap (λ v. from v (length (versions out))) m ∙ ap (from 0) count
