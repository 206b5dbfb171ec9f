-- ===== src/Session/Replay.antt =====
-- src/session/replay.rs: a recording sent into the pipeline, with the pauses between its events.
-- Durations are nanoseconds.
use olivaw_hub.Prelude.{
  ℕ, zero, suc, ◌-◌, ◌*◌, ◌≤◌, ◌≡◌, refl, sym, subst, ap, ◌∙◌, inl, inr, min, Bool, true, Option,
  none, some, List, [], ◌∷◌, ◌++◌, ◌&&◌, ltb, length, if◌then◌else◌, arith, Bool-cases,
}
use olivaw_hub.Text.{Bytes}
use olivaw_hub.External.{Types}
use olivaw_hub.Ingest.{CarEvent}
use olivaw_hub.Postcard.{Postcard, PostcardLaws}
use olivaw_hub.Session.BufWriter.{flush}
use olivaw_hub.Session.Recorder.{create, close}
use olivaw_hub.Session.Read.{events, bad_record, out_of_fuel, read_all}
use olivaw_hub.Session.Stream.{write_each, AllWritten}
use olivaw_hub.Session.Crash.{recorded}

-- `speed > 0.0` and `Duration::div_f64`, which panics where its result is no duration: `none`.
pub record Pacing (t : Types) : Type 0 where
  pub is_positive : t.F64 → Bool
  pub div_f64 : ℕ → t.F64 → Option ℕ

pub data Action (t : Types) : Type 0 where
  sleep : ℕ → Action t
  send : CarEvent t → Action t

pub data End : Type 0 where
  finished pipeline_gone panicked : End

abbrev pub longest : ℕ
longest = 5 * 1_000_000_000

module _ {t : Types} (pacing : Pacing t) (speed : t.F64) where
  -- What the task does before an event: at most one sleep.
  unfoldable pub pause : Option ℕ → CarEvent t → Option (List (Action t))
  pause none e = some []
  pause (some prev) e =
      if Pacing.is_positive pacing speed && ltb prev e.at_ms
      then (elim (Pacing.div_f64 pacing ((e.at_ms - prev) * 1000000) speed) [
        | none ↦ none
        | some gap ↦ some (sleep (min gap longest) ∷ [])
      ])
      else some []

  -- The task's loop; the pipeline takes `room` more events.
  unfoldable pub replay : Option ℕ → ℕ → List (CarEvent t) → List (Action t) × End
  replay last room [] = ([], finished)
  replay last zero (e ∷ es) = elim (pause last e) [
    | none ↦ ([], panicked)
    | some before ↦ (before, pipeline_gone)
  ]
  replay last (suc room) (e ∷ es) =
      let rest = replay (some e.at_ms) room es in
      elim (pause last e) [
        | none ↦ ([], panicked)
        | some before ↦ (before ++ (send e ∷ rest.0), rest.1)
      ]

  -- `spawn`, of the file's bytes; a recording that cannot be read starts no task.
  unfoldable pub spawn : Postcard t → ℕ → Bytes → Option (List (Action t) × End)
  unfolding replay
  spawn codec room bytes = elim (read_all codec bytes) [
    | events es ↦ some (replay none room es)
    | bad_record ↦ none
    | out_of_fuel ↦ none
  ]

module _ {t : Types} where
  -- The events that were sent.
  abbrev pub sent : List (Action t) → List (CarEvent t)
  sent [] = []
  sent (sleep d ∷ l) = sent l
  sent (send e ∷ l) = e ∷ sent l

  -- Each sleep takes five seconds at most.
  abbrev pub AllShort : List (Action t) → Type 0
  AllShort [] = Unit {0}
  AllShort (sleep d ∷ l) = (d ≤ longest) × AllShort l
  AllShort (send e ∷ l) = AllShort l

-- No gap is too long to be divided by this speed.
pub record NeverPanics {t : Types} (pacing : Pacing t) (speed : t.F64) : Type 0 where
  pub divides : (d : ℕ) → (gap : ℕ) × (Pacing.div_f64 pacing d speed ≡ some gap)

module _ {t : Types} (pacing : Pacing t) (speed : t.F64) (total : NeverPanics pacing speed) where
  -- A pause sends nothing and is short.
  pause_lem :
      (last : Option ℕ) (e : CarEvent t)
      → (before : List (Action t)) × (pause pacing speed last e ≡ some before)
        × ((l : List (Action t))
            → AllShort l
            → (sent (before ++ l) ≡ sent l) × AllShort (before ++ l))
  unfolding pause
  pause_lem none e = ([], refl, λ l s. (refl, s))
  pause_lem (some prev) e =
      let (gap, divided) = NeverPanics.divides total ((e.at_ms - prev) * 1000000) in
      elim (Bool-cases (Pacing.is_positive pacing speed && ltb prev e.at_ms)) [
        | inl waits ↦ (
          sleep (min gap longest) ∷ [],
          rw (waits, divided) refl,
          λ l s. (refl, (omega arith, s)),
        )
        | inr at_once ↦ ([], rw at_once refl, λ l s. (refl, s))
      ]

  replay-suc :
      (last : Option ℕ) (room : ℕ) (e : CarEvent t) (es : List (CarEvent t))
      (before : List (Action t))
      → pause pacing speed last e ≡ some before
      → let rest = replay pacing speed (some e.at_ms) room es in
        replay pacing speed last (suc room) (e ∷ es) ≡ (before ++ (send e ∷ rest.0), rest.1)
  unfolding replay
  replay-suc last room e es before h = ground arith

  pub spawn_of :
      (codec : Postcard t) (room : ℕ) (bytes : Bytes) (es : List (CarEvent t))
      → read_all codec bytes ≡ events es
      → spawn pacing speed codec room bytes ≡ some (replay pacing speed none room es)
  unfolding spawn
  spawn_of codec room bytes es h = ground arith

  pub replay_lem :
      (last : Option ℕ) (room : ℕ) (es : List (CarEvent t))
      → length es ≤ room
      → (sent (replay pacing speed last room es).0 ≡ es)
        × ((replay pacing speed last room es).1 ≡ finished)
        × AllShort (replay pacing speed last room es).0
  unfolding replay
  replay_lem last room [] h = (refl, refl, tt)
  replay_lem last zero (e ∷ es) h = absurd (omega arith)
  replay_lem last (suc room) (e ∷ es) h =
      let (all, end, short) = replay_lem (some e.at_ms) room es (omega arith) in
      let (before, paused, silent) = pause_lem last e in
      let (same, kept) = silent (send e ∷ (replay pacing speed (some e.at_ms) room es).0) short in
      let goes_on = replay-suc last room e es before paused in
      (
        ap (λ x. sent x.0) goes_on ∙ same ∙ ap (◌∷◌ e) all,
        ap (λ x. x.1) goes_on ∙ end,
        subst (λ x. AllShort x.0) (sym goes_on) kept,
      )

  -- The replay of a recording that was closed sends all the events that were recorded, in their
  -- order and nothing else, with no sleep over five seconds, if the pipeline takes them all and
  -- the division of the gaps by the speed does not panic.
  pub spawn-recorded :
      (codec : Postcard t) (laws : PostcardLaws codec) (disk room : ℕ) (es : List (CarEvent t))
      → AllWritten codec (create disk) es
      → (flush (write_each codec (create disk) es).out).1 ≡ true
      → length es ≤ room
      → (actions : List (Action t)) × (spawn pacing speed codec room
            (close (write_each codec (create disk) es)).out.file
          ≡ some (actions, finished))
        × (sent actions ≡ es)
        × AllShort actions
  spawn-recorded codec laws disk room es written flushed h =
      let (all, end, short) = replay_lem none room es h in
      let read = recorded codec laws disk es written flushed in
      (
        (replay pacing speed none room es).0,
        spawn_of codec room (close (write_each codec (create disk) es)).out.file es read
            ∙ (λ i. some ((replay pacing speed none room es).0, end i)),
        all,
        short,
      )
