-- ===== src/System/Threads.antt =====
-- What the threads do, seen from the lane of one car.
use olivaw_hub.Prelude.{
  ◌≡◌, refl, sym, ap, ◌∙◌, subst, inl, inr, none, some, List, [], ◌∷◌, ◌++◌, append-nil,
  append_assoc, arith, Bool-cases, Option-cases,
}
use olivaw_hub.Text.{Text, text_eq, text_eq_iff, text_eq_refl}
use olivaw_hub.Dict.{get, insert, get-insert, get-insert_self}
use olivaw_hub.External.{Types, Floats, Proto, SlamLib}
use olivaw_hub.Config.{HubConfig}
use olivaw_hub.Postcard.{Postcard}
use olivaw_hub.Slam.MapPng.{GridLib}
use olivaw_hub.Slam.Worker.{SlamOutput, SlamWorker, Thread, Round, take_frame, work}
use olivaw_hub.Pipeline.Car.{Car, view}
use olivaw_hub.System
use olivaw_hub.System.{Busy, System, set_thread, tuning_of, Step}
use olivaw_hub.System.Lane.{
  Lane, results_in, of_car, frames_of, slot_of, of_car-append, results_of, results_of-append,
  lane_of, lane, LaneStep, rests, takes, works, worked,
}

module _ {t : Types} (floats : Floats t) (proto : Proto t) (lib : SlamLib t) (grids : GridLib t)
    (cfg : HubConfig t) (j : Text) (codec : Postcard t) where
  abbrev Moves : Lane t → Lane t → Type 0
  Moves = LaneStep floats proto lib grids (tuning_of cfg) j

  lane-sent :
      (v : Car t) (b : Busy t) (outputs rest : List (SlamOutput t)) (output : SlamOutput t)
      (scans : List t.ScanFrame)
      → b.unsent ≡ output ∷ rest
      → lane_of floats j v (record b { unsent = rest }) (outputs ++ output ∷ []) scans
        ≡ lane_of floats j v b outputs scans
  lane-sent v b outputs rest output scans h =
      let es = results_in v.events in
      let os = results_of floats j outputs in
      let one = results_of floats j (output ∷ []) in
      let us = results_of floats j rest in
      let whole : one ++ us ≡ results_of floats j b.unsent =
        sym (results_of-append floats j (output ∷ []) rest) ∙ ap (results_of floats j) (sym h) in
      let same : es ++ results_of floats j (outputs ++ output ∷ []) ++ us
          ≡ es ++ os ++ results_of floats j b.unsent =
        ap (λ l. es ++ l ++ us) (results_of-append floats j outputs (output ∷ []))
        ∙ ap (λ l. l ++ us) (sym (append_assoc es os one))
        ∙ append_assoc (es ++ os) one us
        ∙ ap (◌++◌ (es ++ os)) whole in
      λ i. record (lane_of floats j v b outputs scans) { flow = same i }

  -- The thread of a car sends a result.
  lane-reply_own :
      (output : SlamOutput t) (rest : List (SlamOutput t)) (s : System t)
      → (s.threads j).unsent ≡ output ∷ rest
      → lane floats j (System.reply floats codec proto lib grids j output rest s) ≡ lane floats j s
  unfolding System.reply set_thread
  lane-reply_own output rest s h =
      rw (of_car-append j s.channel ((j, output) ∷ []), text_eq_refl j)
        (lane-sent (view j s.pipeline) (s.threads j) (of_car j s.channel) rest output
          (frames_of j s.heard) h)

  pub lane-reply :
      (car : Text) (output : SlamOutput t) (rest : List (SlamOutput t)) (s : System t)
      → (s.threads car).unsent ≡ output ∷ rest
      → lane floats j (System.reply floats codec proto lib grids car output rest s)
        ≡ lane floats j s
  unfolding System.reply set_thread
  lane-reply car output rest s h = elim (Bool-cases (text_eq car j)) [
    | inl own ↦
        subst
          (λ k.
            (s.threads k).unsent ≡ output ∷ rest
            → lane floats j (System.reply floats codec proto lib grids k output rest s)
              ≡ lane floats j s)
          (sym ((text_eq_iff car j).0 own)) (lane-reply_own output rest s) h
    | inr other ↦
        rw (of_car-append j s.channel ((car, output) ∷ []), other)
          (λ i. record (lane floats j s) {
            flow =
                results_in (view j s.pipeline).events
                ++ results_of floats j (append-nil (of_car j s.channel) i)
                ++ results_of floats j (s.threads j).unsent;
          })
  ]

  slot-take_frame :
      (w left : SlamWorker t) (frame : t.ScanFrame)
      → take_frame w ≡ some (frame, left)
      → (w.slot ≡ some frame) × (left.slot ≡ none)
  unfolding take_frame
  slot-take_frame w left frame h = elim (Bool-cases w.asleep) [
    | inl sleeping ↦ absurd (ground arith)
    | inr active ↦ elim (Option-cases w.slot) [
      | inl empty ↦ absurd (ground arith)
      | inr (f, full) ↦ (ground arith, ground arith)
    ]
  ]

  lane-take_own :
      (w left : SlamWorker t) (th : Thread t) (frame : t.ScanFrame) (s : System t)
      → s.threads j ≡ record { thread = some th; frame = none; unsent = [] }
      → get j s.pipeline.workers ≡ some w
      → take_frame w ≡ some (frame, left)
      → Moves
          (lane floats j s)
          (lane floats j (System.take floats codec proto lib grids j frame left s))
  unfolding System.take set_thread
  lane-take_own w left th frame s idle own took =
      let (waits, emptied) = slot-take_frame w left frame took in
      takes frame (ap slot_of own ∙ waits) (ap (λ b. b.frame) idle) (
        rw (text_eq_refl j, get-insert_self)
          (λ i. record (lane floats j s) { slot = emptied i; hand = some frame }))

  pub lane-set_mailbox :
      (car : Text) (w left : SlamWorker t) (s : System t)
      → get car s.pipeline.workers ≡ some w
      → left.slot ≡ w.slot
      → lane floats j (System.set_mailbox floats codec proto lib grids car left s) ≡ lane floats j s
  unfolding System.set_mailbox
  lane-set_mailbox car w left s own same = elim (Bool-cases (text_eq car j)) [
    | inl mine ↦
        let held : slot_of (get j s.pipeline.workers) ≡ w.slot =
          ap (λ k. slot_of (get k s.pipeline.workers)) (sym ((text_eq_iff car j).0 mine))
          ∙ ap slot_of own in
        let now : slot_of (get j (insert car left s.pipeline.workers)) ≡ left.slot =
          rw (get-insert, mine) refl in
        λ i. record (lane floats j s) { slot = (now ∙ same ∙ sym held) i }
    | inr other ↦ rw get-insert (rw other refl)
  ]

  pub lane-take :
      (car : Text) (w left : SlamWorker t) (th : Thread t) (frame : t.ScanFrame) (s : System t)
      → s.threads car ≡ record { thread = some th; frame = none; unsent = [] }
      → get car s.pipeline.workers ≡ some w
      → take_frame w ≡ some (frame, left)
      → Moves
          (lane floats j s)
          (lane floats j (System.take floats codec proto lib grids car frame left s))
  unfolding System.take set_thread
  lane-take car w left th frame s idle own took = elim (Bool-cases (text_eq car j)) [
    | inl same ↦
        subst
          (λ k.
            s.threads k ≡ record { thread = some th; frame = none; unsent = [] }
            → get k s.pipeline.workers ≡ some w
            → Moves (lane floats j s)
                (lane floats j (System.take floats codec proto lib grids k frame left s)))
          (sym ((text_eq_iff car j).0 same))
          (λ idle own. lane-take_own w left th frame s idle own took) idle own
    | inr other ↦ rests (rw (other, get-insert) (rw other refl))
  ]

  lane-handle_own :
      (th : Thread t) (frame : t.ScanFrame) (round : Round t) (s : System t)
      → s.pipeline.hub.cfg ≡ cfg
      → (s.threads j).thread ≡ some th
      → (s.threads j).frame ≡ some frame
      → Moves
          (lane floats j s)
          (lane floats j (System.handle floats codec proto lib grids j th frame round s))
  unfolding System.handle set_thread
  lane-handle_own th frame round s c goes_on holds = works th frame round goes_on holds (
      rw (text_eq_refl j, c)
        (let out = (work floats proto lib grids (tuning_of cfg) th frame round).0 in
          let before =
            results_in (view j s.pipeline).events ++ results_of floats j (of_car j s.channel) in
          λ i.
            record (worked floats proto lib grids (tuning_of cfg) j th frame round
              (lane floats j s)) {
                flow =
                    (ap (◌++◌ before) (results_of-append floats j (s.threads j).unsent out)
                        ∙ sym (
                            append_assoc before (results_of floats j (s.threads j).unsent)
                              (results_of floats j out)))
                      i;
              }))

  pub lane-handle :
      (car : Text) (th : Thread t) (frame : t.ScanFrame) (round : Round t) (s : System t)
      → s.pipeline.hub.cfg ≡ cfg
      → (s.threads car).thread ≡ some th
      → (s.threads car).frame ≡ some frame
      → Moves
          (lane floats j s)
          (lane floats j (System.handle floats codec proto lib grids car th frame round s))
  unfolding System.handle set_thread
  lane-handle car th frame round s c goes_on holds = elim (Bool-cases (text_eq car j)) [
    | inl same ↦
        subst
          (λ k.
            (s.threads k).thread ≡ some th
            → (s.threads k).frame ≡ some frame
            → Moves (lane floats j s)
                (lane floats j (System.handle floats codec proto lib grids k th frame round s)))
          (sym ((text_eq_iff car j).0 same)) (lane-handle_own th frame round s c) goes_on holds
    | inr other ↦ rests (rw other refl)
  ]
