-- ===== src/System/Poses.antt =====
-- Where the poses that are broadcast about a car come from.
use mathlib.Core.List.{map-append}
use olivaw_hub.Prelude.{
  ℕ, ◌≡◌, refl, sym, ap, ◌∙◌, subst, ◌⊎◌, inl, inr, Option, none, some, List, [], ◌∷◌, ◌++◌,
  append-nil, append_assoc, map, arith, Bool-cases,
}
use olivaw_hub.Prelude.Sub.{
  Sub, Sub-nil, Sub-skip_last, Sub-keep_last, Sub-within, Sub-first, Sub-middle,
}
use olivaw_hub.Text.{Text}
use olivaw_hub.External.{Types, Floats, Proto, ScanCloud, SlamLib}
use olivaw_hub.Config.{HubConfig}
use olivaw_hub.Ingest.Mqtt.{Commander}
use olivaw_hub.Postcard.{Postcard}
use olivaw_hub.Session.Recorder.{Recorder}
use olivaw_hub.Slam.MapPng.{GridLib}
use olivaw_hub.Slam.Worker.{WorkerTuning, Thread, Round, render, track, work}
use olivaw_hub.Slam.Worker.Cases.{work_cases}
use olivaw_hub.Pipeline.Car.{events_of}
use olivaw_hub.System.{System, tuning_of, Reach}
use olivaw_hub.System.Lane
use olivaw_hub.System.Lane.{
  Result, posed, mapped, Lane, results_in, frames_of, results_of, of_car, lane, worked, LaneStep,
  LaneReach,
}
use olivaw_hub.System.Refines.{lane-Reach}

module _ {t : Types} where
  -- The numbers of the poses.
  abbrev pub seqs : List (Result t) → List ℕ
  seqs [] = []
  seqs (posed pose ∷ l) = pose.seq ∷ seqs l
  seqs (mapped info ∷ l) = seqs l

  pub seqs-append : (a b : List (Result t)) → seqs (a ++ b) ≡ seqs a ++ seqs b
  seqs-append [] b = refl
  seqs-append (posed pose ∷ a) b = ap (◌∷◌ pose.seq) (seqs-append a b)
  seqs-append (mapped info ∷ a) b = seqs-append a b

module _ {t : Types} (floats : Floats t) (proto : Proto t) (lib : SlamLib t) (grids : GridLib t)
    (j : Text) where
  seqs-render :
      (tuning : WorkerTuning) (th : Thread t) (round : Round t)
      → seqs (results_of floats j (render floats proto lib grids tuning th round).0) ≡ []
  unfolding render
  seqs-render tuning th round = ground arith

  seqs-track :
      (tuning : WorkerTuning) (th : Thread t) (frame : t.ScanFrame) (cloud : ScanCloud t)
      (pose : t.Pose2) (round : Round t)
      → let out = (track floats proto lib grids tuning th frame cloud pose round).0 in
        (seqs (results_of floats j out) ≡ [])
        ⊎ (seqs (results_of floats j out) ≡ Proto.seq proto frame ∷ [])
  unfolding track render
  seqs-track tuning th frame cloud pose round = elim (Bool-cases round.takes_pose) [
    | inl taken ↦ inr (rw taken (ap (◌∷◌ (Proto.seq proto frame)) (seqs-render tuning _ round)))
    | inr gone ↦ inl (rw gone refl)
  ]

  -- A round sends no pose, or one with the number of its frame.
  seqs-work :
      (tuning : WorkerTuning) (th : Thread t) (frame : t.ScanFrame) (round : Round t)
      → let out = (work floats proto lib grids tuning th frame round).0 in
        (seqs (results_of floats j out) ≡ [])
        ⊎ (seqs (results_of floats j out) ≡ Proto.seq proto frame ∷ [])
  seqs-work tuning th frame round =
      let (s, cases) = work_cases floats proto lib grids tuning th frame round in
      elim cases [
        | inl idle ↦ inl (rw idle refl)
        | inr (cloud, pose, goes_on) ↦
            rw goes_on (seqs-track tuning (record th { slam = s }) frame cloud pose round)
      ]

  -- The numbers of the poses so far, of the frame that is handled and of the one that waits.
  abbrev held : Option t.ScanFrame → List ℕ
  held none = []
  held (some frame) = Proto.seq proto frame ∷ []

  abbrev Traced : Lane t → Type 0
  Traced a = Sub (seqs a.flow ++ held a.hand ++ held a.slot) (map (Proto.seq proto) a.scans)

  Traced-Step :
      (tuning : WorkerTuning) (a b : Lane t)
      → LaneStep floats proto lib grids tuning j a b
      → Traced a
      → Traced b
  Traced-Step tuning a b (Lane.rests e) h = subst Traced (sym e) h
  Traced-Step tuning a b (Lane.misses frame empty e) h = subst Traced (sym e) (
      rw (map-append (Proto.seq proto) a.scans (frame ∷ []))
        (Sub-skip_last (Proto.seq proto frame) h))
  Traced-Step tuning a b (Lane.submits frame e) h = subst Traced (sym e) (
      rw (map-append (Proto.seq proto) a.scans (frame ∷ [])) (
        Sub-keep_last (Proto.seq proto frame)
          (Sub-within h (Sub-first (seqs a.flow ++ held a.hand) (held a.slot)))))
  Traced-Step tuning a b (Lane.takes frame waits idle e) h =
      let one = Proto.seq proto frame ∷ [] in
      let before : seqs a.flow ++ held a.hand ++ held a.slot ≡ seqs a.flow ++ one =
        rw (waits, idle) (ap (λ l. l ++ one) (append-nil (seqs a.flow))) in
      subst Traced (sym e) (
        subst (λ l. Sub l (map (Proto.seq proto) a.scans))
          (before ∙ sym (append-nil (seqs a.flow ++ one))) h)
  Traced-Step tuning a b (Lane.works th frame round goes_on holds e) h =
      let n = Proto.seq proto frame in
      let out = results_of floats j (work floats proto lib grids tuning th frame round).0 in
      let now : Sub (seqs a.flow ++ n ∷ [] ++ held a.slot) (map (Proto.seq proto) a.scans) =
        subst (λ l. Sub (seqs a.flow ++ held l ++ held a.slot) (map (Proto.seq proto) a.scans))
          holds h in
      let f = seqs a.flow in
      let all = append-nil (seqs (a.flow ++ out)) ∙ seqs-append a.flow out in
      subst Traced (sym e) (elim (seqs-work tuning th frame round) [
        | inl silent ↦
            let less =
              Sub-within
                (subst (λ l. Sub l (map (Proto.seq proto) a.scans))
                  (append_assoc f (n ∷ []) (held a.slot)) now)
                (Sub-middle f n (held a.slot)) in
            subst (λ l. Sub (l ++ held a.slot) (map (Proto.seq proto) a.scans))
              (sym (all ∙ ap (◌++◌ f) silent ∙ append-nil f)) less
        | inr sent ↦
            subst (λ l. Sub (l ++ held a.slot) (map (Proto.seq proto) a.scans))
              (sym (all ∙ ap (◌++◌ f) sent)) now
      ])

  Traced-LaneReach :
      (tuning : WorkerTuning) (a : Lane t) → LaneReach floats proto lib grids tuning j a → Traced a
  Traced-LaneReach tuning a Lane.opened = Sub-nil []
  Traced-LaneReach tuning a (Lane.later {a = b} r st) =
      Traced-Step tuning b a st (Traced-LaneReach tuning b r)

module _ {t : Types} (floats : Floats t) (proto : Proto t) (lib : SlamLib t) (grids : GridLib t)
    (codec : Postcard t) where
  -- In every state that the hub comes to, whatever the order is in which the pipeline, the threads of
  -- all cars and the channel act: the poses that were broadcast about a car have the numbers of scans
  -- that were received from that car, in the order in which these were received, and no scan has two.
  pub poses-Sub :
      (cfg : HubConfig t) (commander : Commander) (recorder : Option Recorder) (s : System t)
      (j : Text)
      → Reach floats codec proto lib grids cfg commander recorder s
      → Sub
          (seqs (results_in (events_of j s.pipeline.hub.events)))
          (map (Proto.seq proto) (frames_of j s.heard))
  poses-Sub cfg commander recorder s j r =
      let a = lane floats j s in
      let es = results_in (events_of j s.pipeline.hub.events) in
      let os = results_of floats j (of_car j s.channel) in
      let us = results_of floats j (s.threads j).unsent in
      let traced =
        Traced-LaneReach floats proto lib grids j (tuning_of cfg) a
          (lane-Reach floats proto lib grids codec cfg commander recorder s j r) in
      let split : seqs a.flow ≡ seqs es ++ seqs (os ++ us) =
        ap seqs (append_assoc es os us) ∙ seqs-append es (os ++ us) in
      let whole =
        Sub-within (Sub-first (seqs a.flow ++ held floats proto lib grids j a.hand) _)
          (Sub-first (seqs a.flow) (held floats proto lib grids j a.hand)) in
      Sub-within (Sub-within traced whole)
        (subst (Sub (seqs es)) (sym split) (Sub-first (seqs es) (seqs (os ++ us))))
