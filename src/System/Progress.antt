-- ===== src/System/Progress.antt =====
-- A scan that waits for a thread is not stuck: the thread can act, and no other step prevents it.
use olivaw_hub.Prelude.{
  ◌<◌, ◌≡◌, refl, sym, ap, ◌∙◌, ◌⊎◌, inl, inr, Option, none, some, List, [], ◌∷◌, length, arith,
}
use olivaw_hub.Text.{Text, text_eq_refl}
use olivaw_hub.Dict.{get}
use olivaw_hub.External.{Types, Floats, Proto, SlamLib}
use olivaw_hub.Config.{HubConfig}
use olivaw_hub.Ingest.Mqtt.{Commander}
use olivaw_hub.Postcard.{Postcard}
use olivaw_hub.Session.Recorder.{Recorder}
use olivaw_hub.Slam.MapPng.{GridLib}
use olivaw_hub.Slam.Worker.{SlamOutput, SlamWorker, Thread}
use olivaw_hub.Slam.Worker.Mailbox.{took}
use olivaw_hub.System.{System, set_thread, tuning_of, take, reply, Step, takes, replies, Reach}
use olivaw_hub.System.Lane
use olivaw_hub.System.Lane.{Lane, slot_of, lane, LaneStep}
use olivaw_hub.System.Refines.{lane-Step, pipeline-Reach}
use olivaw_hub.System.Roused.{Reach-Roused}

module _ {t : Types} where
  -- The frame in the mailbox of the car's worker.
  abbrev pub waiting : Text → System t → Option t.ScanFrame
  waiting j s = slot_of (get j s.pipeline.workers)

  worker_of :
      (o : Option (SlamWorker t)) (frame : t.ScanFrame)
      → slot_of o ≡ some frame
      → (w : SlamWorker t) × (o ≡ some w) × (w.slot ≡ some frame)
  worker_of none frame h = absurd (ground arith)
  worker_of (some w) frame h = (w, refl, h)

module _ {t : Types} (floats : Floats t) (proto : Proto t) (lib : SlamLib t) (grids : GridLib t)
    (codec : Postcard t) where
  -- The frame is taken, or the same thread is still without one and one waits.
  abbrev pub Taken : Text → Thread t → t.ScanFrame → System t → Type 0
  Taken j th frame y =
      ((y.threads j).frame ≡ some frame)
      ⊎ (((y.threads j).thread ≡ some th)
          × ((y.threads j).frame ≡ none)
          × (f : t.ScanFrame) × (waiting j y ≡ some f))

  -- The thread takes the frame, or sends one of its results if it has any left.
  abbrev pub Acts : Text → t.ScanFrame → System t → System t → Type 0
  Acts j frame s z =
      ((z.threads j).frame ≡ some frame)
      ⊎ (length (z.threads j).unsent < length (s.threads j).unsent)

  act :
      (cfg : HubConfig t) (commander : Commander) (recorder : Option Recorder) (s : System t)
      (j : Text) (th : Thread t) (frame : t.ScanFrame) (left : List (SlamOutput t))
      → Reach floats codec proto lib grids cfg commander recorder s
      → (s.threads j).thread ≡ some th
      → (s.threads j).frame ≡ none
      → waiting j s ≡ some frame
      → (s.threads j).unsent ≡ left
      → (z : System t) × Step floats codec proto lib grids s z × Acts j frame s z
  unfolding take reply set_thread
  act cfg commander recorder s j th frame [] r alive free waits none_left =
      let (w, own, full) = worker_of (get j s.pipeline.workers) frame waits in
      let awake =
        Reach-Roused floats proto lib grids codec cfg commander recorder j s r w own frame full in
      let left : SlamWorker t = record w { slot = none } in
      (
        take floats codec proto lib grids j frame left s,
        takes j w left th frame
            (λ i. record { thread = alive i; frame = free i; unsent = none_left i }) own
            (took w frame full awake) refl,
        inl (rw (text_eq_refl j) refl),
      )
  act cfg commander recorder s j th frame (output ∷ rest) r alive free waits some_left = (
    reply floats codec proto lib grids j output rest s,
    replies j output rest some_left refl,
    inr (rw (text_eq_refl j) (omega (arith, ap length some_left))),
  )

  follow :
      (cfg : HubConfig t) (j : Text) (th : Thread t) (frame : t.ScanFrame) (s y : System t)
      → LaneStep floats proto lib grids (tuning_of cfg) j (lane floats j s) (lane floats j y)
      → (s.threads j).thread ≡ some th
      → (s.threads j).frame ≡ none
      → waiting j s ≡ some frame
      → Taken j th frame y
  follow cfg j th frame s y (Lane.rests e) alive free waits =
      inr
        (ap (λ a. a.thread) e ∙ alive, ap (λ a. a.hand) e ∙ free, frame, ap (λ a. a.slot) e ∙ waits)
  follow cfg j th frame s y (Lane.misses f empty e) alive free waits = absurd (ground arith)
  follow cfg j th frame s y (Lane.submits f e) alive free waits =
      inr (ap (λ a. a.thread) e ∙ alive, ap (λ a. a.hand) e ∙ free, f, ap (λ a. a.slot) e)
  follow cfg j th frame s y (Lane.takes f full idle e) alive free waits =
      inl (ap (λ a. a.hand) e ∙ sym full ∙ waits)
  follow cfg j th frame s y (Lane.works th' f round goes_on holds e) alive free waits =
      absurd (ground arith)

  -- In every state that the hub comes to, if a thread has not ended, holds no frame and one waits in
  -- its mailbox, then no wake-up was lost: the thread can act, that is, take the frame, or first send
  -- one of its results. And whatever step is taken next, by whomever, either the thread has taken the
  -- frame, or it is the same thread, holds none, and that frame or a later one waits.
  pub never_stuck :
      (cfg : HubConfig t) (commander : Commander) (recorder : Option Recorder) (s y : System t)
      (j : Text) (th : Thread t) (frame : t.ScanFrame)
      → Reach floats codec proto lib grids cfg commander recorder s
      → (s.threads j).thread ≡ some th
      → (s.threads j).frame ≡ none
      → waiting j s ≡ some frame
      → Step floats codec proto lib grids s y
      → ((z : System t) × Step floats codec proto lib grids s z × Acts j frame s z)
        × Taken j th frame y
  never_stuck cfg commander recorder s y j th frame r alive free waits st =
      let (sound, c) = pipeline-Reach floats proto lib grids codec cfg commander recorder s r in
      (
        act cfg commander recorder s j th frame (s.threads j).unsent r alive free waits refl,
        follow cfg j th frame s y
            (lane-Step floats proto lib grids cfg j codec cfg.slam.trajectory_len s y sound c st)
            alive free waits,
      )
