-- ===== src/Slam/Worker/Cadence.antt =====
-- How often the worker's thread renders a map, and how it numbers them.
use native.Mathlib.Nat.{div-eq_of_lt-le, div-le_self, mod-lt, div-add-mod}
use native.Mathlib.Decide.{dec_lt}
use olivaw_hub.Prelude.{
  ◌⊎◌, ℕ, zero, suc, ◌+◌, ◌*◌, ◌/◌, ◌%◌, ◌^◌, ◌≤◌, ◌<◌, max, ◌≡◌, refl, sym, ap, ◌∙◌, subst, inl,
  inr, true, false, some, List, [], ◌∷◌, ◌++◌, arith, length, ◌==◌, Bool-cases, Option-cases,
}
use olivaw_hub.External.{Types, Floats, Proto, ScanCloud, SlamLib}
use olivaw_hub.Slam.MapPng.{GridLib, MapSnapshot, from_grid}
use olivaw_hub.Slam.Worker.{
  SlamOutput, tracked, map_output, WorkerTuning, Thread, Round, render, track, work,
}
use olivaw_hub.Slam.Worker.Cases.{work_cases}

distrib :
    (q m : ℕ) → ((q + 1) * m ≡ m * q + m) × (q * m ≡ m * q) × ((q + 1 + 1) * m ≡ m * q + m + m)
distrib q m = (grind arith, grind arith, grind arith)

-- Counting one more: either the remainder goes up by one or the quotient does.
quotient_step :
    (n m : ℕ)
    → 1 ≤ m
    → (((n + 1) / m ≡ n / m) × (1 ≤ (n + 1) % m)) ⊎ (((n + 1) / m ≡ n / m + 1) × ((n + 1) % m ≡ 0))
quotient_step n m pos =
    let q = n / m in
    let r = n % m in
    let parts : m * q + r ≡ n = div-add-mod n m in
    let small : r < m = mod-lt n pos in
    let again = div-add-mod (n + 1) m in
    let (d0, d1, d2) = distrib q m in
    elim (dec_lt (r + 1) m) [
      | yes less ↦
          let same : (n + 1) / m ≡ q = div-eq_of_lt-le m (omega (arith, d1)) (omega (arith, d0)) in
          let whole : m * ((n + 1) / m) ≡ m * q = ap (λ k. m * k) same in
          inl (same, omega (arith, whole))
      | no full ↦
          let more : (n + 1) / m ≡ q + 1 =
            div-eq_of_lt-le m (omega (arith, d0)) (omega (arith, d2)) in
          let whole : m * ((n + 1) / m) ≡ m * (q + 1) = ap (λ k. m * k) more in
          let unit : m * (q + 1) ≡ m * q + m = grind arith in inr (more, omega (arith, whole, unit))
    ]

-- The `k` numbers after `v`.
abbrev pub from : ℕ → ℕ → List ℕ
from v zero = []
from v (suc k) = suc v ∷ from (suc v) k

pub from-append : (v j k : ℕ) → from v (j + k) ≡ from v j ++ from (v + j) k
from-append v zero k =
    let e : v ≡ v + 0 = omega arith in
    let z : 0 + k ≡ k = omega arith in ap (from v) z ∙ ap (λ w. from w k) e
from-append v (suc j) k =
    let e : suc v + j ≡ v + suc j = omega arith in
    let z : suc j + k ≡ suc (j + k) = omega arith in
    ap (from v) z
    ∙ ap (◌∷◌ (suc v)) (from-append (suc v) j k ∙ ap (λ w. from (suc v) j ++ from w k) e)

module _ {t : Types} where
  -- The versions of the maps that were sent.
  abbrev pub versions : List (SlamOutput t) → List ℕ
  versions [] = []
  versions (tracked pose world ∷ l) = versions l
  versions (map_output m ∷ l) = m.version ∷ versions l

  -- The number of poses that were sent.
  abbrev pub poses : List (SlamOutput t) → ℕ
  poses [] = 0
  poses (tracked pose world ∷ l) = suc (poses l)
  poses (map_output m ∷ l) = poses l

  pub versions-append : (a b : List (SlamOutput t)) → versions (a ++ b) ≡ versions a ++ versions b
  versions-append [] b = refl
  versions-append (tracked pose world ∷ a) b = versions-append a b
  versions-append (map_output m ∷ a) b = ap (◌∷◌ m.version) (versions-append a b)

  pub poses-append : (a b : List (SlamOutput t)) → poses (a ++ b) ≡ poses a + poses b
  poses-append [] b = omega arith
  poses-append (tracked pose world ∷ a) b = omega (arith, poses-append a b)
  poses-append (map_output m ∷ a) b = poses-append a b

  -- From `th` to `th'` the thread sent `out`: a map for each `every` poses, numbered in a row.
  -- `rounds` bounds the number of poses.
  pub record OnTime (every rounds : ℕ) (th : Thread t) (out : List (SlamOutput t)) (th' : Thread t)
      : Type 0 where
    pub few : poses out ≤ rounds
    pub passed : th'.processed ≡ th.processed + poses out
    pub numbered : versions out ≡ from th.map_version (length (versions out))
    pub advanced : th'.map_version ≡ th.map_version + length (versions out)
    pub due : th'.map_version ≡ th'.processed / every

  pub version-from_grid :
      (floats : Floats t) (lib : GridLib t) (grid : t.Grid) (version : ℕ) (m : MapSnapshot t)
      → from_grid floats lib grid version ≡ some m
      → m.version ≡ version
  unfolding from_grid
  version-from_grid floats lib grid version m h = ground arith

module _ {t : Types} (floats : Floats t) (proto : Proto t) (lib : SlamLib t)
    (grids : GridLib t) where
  render_skip :
      (tuning : WorkerTuning) (th : Thread t) (round : Round t)
      → (th.processed % max tuning.map_every_scans 1 == 0) ≡ false
      → render floats proto lib grids tuning th round ≡ ([], some th)
  unfolding render
  render_skip tuning th round h = rw h refl

  next_version : Thread t → ℕ
  next_version th = (th.map_version + 1) % 2 ^ 64

  -- A map was due, and the thread went on.
  render_draw :
      (tuning : WorkerTuning) (th th' : Thread t) (round : Round t)
      → (th.processed % max tuning.map_every_scans 1 == 0) ≡ true
      → (render floats proto lib grids tuning th round).1 ≡ some th'
      → (m : MapSnapshot t) × (m.version ≡ next_version th)
        × (render floats proto lib grids tuning th round
            ≡ (map_output m ∷ [], some (record th { map_version = next_version th })))
  unfolding render next_version
  render_draw tuning th th' round due h =
      let version = (th.map_version + 1) % 2 ^ 64 in
      elim (Option-cases (from_grid floats grids (SlamLib.grid lib th.slam) version)) [
        | inl failed ↦ absurd (ground arith)
        | inr (m, drawn) ↦ elim (Bool-cases round.takes_map) [
          | inl taken ↦ (
            m,
            version-from_grid floats grids (SlamLib.grid lib th.slam) version m drawn,
            rw (due, drawn, taken) refl,
          )
          | inr gone ↦ absurd (ground arith)
        ]
      ]

  -- A round's end: `th` has counted its pose already.
  render-OnTime :
      (tuning : WorkerTuning) (th th' : Thread t) (round : Round t) (n : ℕ)
      → th.processed ≡ n + 1
      → n + 1 < 2 ^ 32
      → th.map_version ≡ n / max tuning.map_every_scans 1
      → (render floats proto lib grids tuning th round).1 ≡ some th'
      → OnTime
          (max tuning.map_every_scans 1)
          0
          th
          (render floats proto lib grids tuning th round).0
          th'
  unfolding next_version
  render-OnTime tuning th th' round n p small v h =
      let every = max tuning.map_every_scans 1 in
      let same_rem : th.processed % every ≡ (n + 1) % every = ap (λ k. k % every) p in
      let same_div : th.processed / every ≡ (n + 1) / every = ap (λ k. k / every) p in
      elim (quotient_step n every (omega arith)) [
        | inl (same, some_left) ↦
            let e = render_skip tuning th round (ground arith) in
            let same_th : th ≡ th' = ground (arith, e) in
            subst (λ x. OnTime every 0 th x.0 th') (sym e)
              (subst (OnTime every 0 th []) same_th (record {
                few = omega arith;
                passed = omega arith;
                numbered = refl;
                advanced = omega arith;
                due = omega (arith, same_div);
              }))
        | inr (more, none_left) ↦
            let (m, named, e) = render_draw tuning th th' round (ground arith) h in
            let low = div-le_self n every in
            let next : (th.map_version + 1) % 2 ^ 64 ≡ suc th.map_version = omega arith in
            let th'' : Thread t = record th { map_version = (th.map_version + 1) % 2 ^ 64 } in
            let same_th : th'' ≡ th' = ground (arith, e) in
            subst (λ x. OnTime every 0 th x.0 th') (sym e)
              (subst (OnTime every 0 th (map_output m ∷ [])) same_th (record {
                few = omega arith;
                passed = omega arith;
                numbered = ap (λ k. k ∷ []) (named ∙ next);
                advanced = omega arith;
                due = omega (arith, same_div);
              }))
      ]

  -- A round without a pose.
  pub idle-OnTime :
      (every rounds : ℕ) (th th' : Thread t)
      → th.map_version ≡ th.processed / every
      → th.processed ≡ th'.processed
      → th.map_version ≡ th'.map_version
      → OnTime every rounds th [] th'
  idle-OnTime every rounds th th' v p w = record {
    few = omega arith;
    passed = omega arith;
    numbered = refl;
    advanced = omega arith;
    due = sym w ∙ v ∙ ap (λ k. k / every) p;
  }

  track-OnTime :
      (tuning : WorkerTuning) (th th' : Thread t) (frame : t.ScanFrame) (cloud : ScanCloud t)
      (pose : t.Pose2) (round : Round t)
      → th.processed + 1 < 2 ^ 32
      → th.map_version ≡ th.processed / max tuning.map_every_scans 1
      → (track floats proto lib grids tuning th frame cloud pose round).1 ≡ some th'
      → OnTime
          (max tuning.map_every_scans 1)
          1
          th
          (track floats proto lib grids tuning th frame cloud pose round).0
          th'
  unfolding track render
  track-OnTime tuning th th' frame cloud pose round small v h = elim (Bool-cases round.takes_pose) [
    | inl taken ↦
        let point : t.F32 × t.F32 = (
          Floats.to_f32 floats (SlamLib.pose_x lib pose),
          Floats.to_f32 floats (SlamLib.pose_y lib pose),
        ) in
        let counted : Thread t = record th {
          processed = (th.processed + 1) % 2 ^ 32;
          trajectory = th.trajectory ++ point ∷ [];
        } in
        let p : (th.processed + 1) % 2 ^ 32 ≡ th.processed + 1 = omega arith in
        let on = render-OnTime tuning counted th' round th.processed p small v (rw taken at h) in
        rw taken (record {
          few = omega (arith, on.few);
          passed = omega (arith, on.passed);
          numbered = on.numbered;
          advanced = on.advanced;
          due = on.due;
        })
    | inr gone ↦ absurd (ground arith)
  ]

  pub work-OnTime :
      (tuning : WorkerTuning) (th th' : Thread t) (frame : t.ScanFrame) (round : Round t)
      → th.processed + 1 < 2 ^ 32
      → th.map_version ≡ th.processed / max tuning.map_every_scans 1
      → (work floats proto lib grids tuning th frame round).1 ≡ some th'
      → OnTime
          (max tuning.map_every_scans 1)
          1
          th
          (work floats proto lib grids tuning th frame round).0
          th'
  work-OnTime tuning th th' frame round small v h =
      let every = max tuning.map_every_scans 1 in
      let (s, cases) = work_cases floats proto lib grids tuning th frame round in
      let th'' : Thread t = record th { slam = s } in
      elim cases [
        | inl idle ↦
            let same : th'' ≡ th' = ground (arith, idle) in
            subst (λ x. OnTime every 1 th x.0 th') (sym idle)
              (idle-OnTime every 1 th th' v (ap (λ x. x.processed) same)
                (ap (λ x. x.map_version) same))
        | inr (cloud, pose, goes_on) ↦
            let on =
              track-OnTime tuning th'' th' frame cloud pose round small v
                (ap (λ x. x.1) (sym goes_on) ∙ h) in
            subst (λ x. OnTime every 1 th x.0 th') (sym goes_on)
              (record {
                few = on.few;
                passed = on.passed;
                numbered = on.numbered;
                advanced = on.advanced;
                due = on.due;
              })
      ]
