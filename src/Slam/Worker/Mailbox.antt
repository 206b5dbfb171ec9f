-- ===== src/Slam/Worker/Mailbox.antt =====
-- The two sides of the mailbox: the pipeline submits frames at any time, and the worker's thread
-- takes one whenever it is done with the one before, or sleeps while there is none.
use olivaw_hub.Prelude.{
  ◌≡◌, ◌≢◌, refl, sym, ap, ◌∙◌, subst, ◌⊎◌, inl, inr, none, some, List, [], ◌∷◌, ◌++◌, append-nil,
  arith, false, Bool-cases, Option-cases,
}
use olivaw_hub.Prelude.Sub.{Sub, Sub-nil, Sub-skip_last, Sub-keep_last}
use olivaw_hub.External.{Types}
use olivaw_hub.Slam.Worker.{SlamWorker, submit, fall_asleep, take_frame}

-- The mailbox, with the frames that were submitted to it and taken from it, oldest first.
pub record Exchange (t : Types) : Type 0 where
  pub worker : SlamWorker t
  pub submitted : List t.ScanFrame
  pub taken : List t.ScanFrame

abbrev pub at_spawn : {t : Types} → Exchange t
at_spawn = record { worker = record { slot = none; asleep = false }; submitted = []; taken = [] }

pub data Step {t : Types} (x y : Exchange t) : Type 0 where
  submits :
      (frame : Types.ScanFrame t)
      → y ≡ record x { worker = submit x.worker frame; submitted = x.submitted ++ frame ∷ [] }
      → Step x y
  takes :
      (frame : Types.ScanFrame t) (left : SlamWorker t)
      → take_frame x.worker ≡ some (frame, left)
      → y ≡ record x { worker = left; taken = x.taken ++ frame ∷ [] }
      → Step x y
  sleeps :
      (left : SlamWorker t)
      → fall_asleep x.worker ≡ some left
      → y ≡ record x { worker = left }
      → Step x y
  wakes : y ≡ record x { worker = record x.worker { asleep = false } } → Step x y

pub data Reach {t : Types} : Exchange t → Type 0 where
  start : Reach at_spawn
  later : {x y : Exchange t} → Reach x → Step x y → Reach y

module _ {ℓ} {A : Type ℓ} where
  -- Nothing at all, or the same last element behind such a selection.
  abbrev pub Latest : List A → List A → Type ℓ
  Latest xs ys =
      ((xs ≡ []) × (ys ≡ []))
      ⊎ ((a : A) × (us : List A) × (vs : List A) × (xs ≡ us ++ a ∷ [])
          × (ys ≡ vs ++ a ∷ [])
          × Sub us vs)

  Latest-Sub : (xs ys : List A) → Latest xs ys → Sub xs ys
  Latest-Sub xs ys (inl (e, f)) = rw (e, f) (Sub-nil [])
  Latest-Sub xs ys (inr (a, us, vs, e, f, s)) = rw (e, f) (Sub-keep_last a s)

module _ {ℓ} {A : Type ℓ} where
  append-ne_nil : (a : A) (us : List A) → us ++ a ∷ [] ≢ []
  append-ne_nil a [] h = ground arith
  append-ne_nil a (u ∷ us) h = ground arith

  last_eq : (a b : A) (us vs : List A) → us ++ a ∷ [] ≡ vs ++ b ∷ [] → a ≡ b
  last_eq a b [] [] h = ground arith
  last_eq a b [] (v ∷ []) h = absurd (ground arith)
  last_eq a b [] (v ∷ w ∷ vs) h = absurd (ground arith)
  last_eq a b (u ∷ []) [] h = absurd (ground arith)
  last_eq a b (u ∷ w ∷ us) [] h = absurd (ground arith)
  last_eq a b (u ∷ us) (v ∷ vs) h = last_eq a b us vs (ground arith)

abbrev pub pending : {t : Types} → SlamWorker t → List (Types.ScanFrame t)
pending w = elim w.slot [ none ↦ [] | some frame ↦ frame ∷ [] ]

-- No frame waits while the thread sleeps.
abbrev pub NoneMissed : {t : Types} → SlamWorker t → Type 0
NoneMissed {t} w = (frame : t.ScanFrame) → w.slot ≡ some frame → w.asleep ≡ false

-- What the worker takes is a selection, and the frame that it took last or that waits is the last
-- that was submitted.

pub record IsFair {t : Types} (x : Exchange t) : Type 0 where
  pub selected : Sub x.taken x.submitted
  pub latest : Latest (x.taken ++ pending x.worker) x.submitted
  pub awake : NoneMissed x.worker

module _ {t : Types} where
  pending-take_frame :
      (w left : SlamWorker t) (frame : t.ScanFrame)
      → take_frame w ≡ some (frame, left)
      → (pending w ≡ frame ∷ []) × (pending left ≡ [])
  unfolding take_frame
  pending-take_frame w left frame h = elim (Bool-cases w.asleep) [
    | inl sleeping ↦ absurd (ground arith)
    | inr active ↦ elim (Option-cases w.slot) [
      | inl empty ↦ absurd (ground arith)
      | inr (f, full) ↦ (ground arith, ground arith)
    ]
  ]

  pub submit-NoneMissed : (w : SlamWorker t) (frame : t.ScanFrame) → NoneMissed (submit w frame)
  unfolding submit
  submit-NoneMissed w frame f h = refl

  pub take_frame-NoneMissed :
      (w left : SlamWorker t) (frame : t.ScanFrame)
      → take_frame w ≡ some (frame, left)
      → NoneMissed left
  take_frame-NoneMissed w left frame took f h =
      let (_, empty) = pending-take_frame w left frame took in absurd (ground arith)

  -- A thread falls asleep only where no frame waits.
  pub slot-fall_asleep :
      (w left : SlamWorker t) → fall_asleep w ≡ some left → (w.slot ≡ none) × (left.slot ≡ none)
  unfolding fall_asleep
  slot-fall_asleep w left h = elim (Bool-cases w.asleep) [
    | inl sleeping ↦ absurd (ground arith)
    | inr active ↦ elim (Option-cases w.slot) [
      | inl empty ↦ (empty, ground arith)
      | inr (f, full) ↦ absurd (ground arith)
    ]
  ]

  submits-IsFair :
      (x : Exchange t) (frame : t.ScanFrame)
      → IsFair x
      → IsFair (record x { worker = submit x.worker frame; submitted = x.submitted ++ frame ∷ [] })
  unfolding submit
  submits-IsFair x frame fair = record {
    selected = Sub-skip_last frame fair.selected;
    latest = inr (frame, x.taken, x.submitted, refl, refl, fair.selected);
    awake = submit-NoneMissed x.worker frame;
  }

  takes-IsFair :
      (x : Exchange t) (left : SlamWorker t) (frame : t.ScanFrame)
      → take_frame x.worker ≡ some (frame, left)
      → IsFair x
      → IsFair (record x { worker = left; taken = x.taken ++ frame ∷ [] })
  takes-IsFair x left frame took fair =
      let (full, empty) = pending-take_frame x.worker left frame took in
      let last : Latest (x.taken ++ frame ∷ []) x.submitted =
        subst (λ l. Latest (x.taken ++ l) x.submitted) full fair.latest in
      record {
        selected = Latest-Sub (x.taken ++ frame ∷ []) x.submitted last;
        latest =
            subst (λ l. Latest l x.submitted)
              (sym (ap (◌++◌ (x.taken ++ frame ∷ [])) empty ∙ append-nil (x.taken ++ frame ∷ [])))
              last;
        awake = take_frame-NoneMissed x.worker left frame took;
      }

  empty-IsFair :
      (x : Exchange t) (left : SlamWorker t)
      → x.worker.slot ≡ none
      → left.slot ≡ none
      → IsFair x
      → IsFair (record x { worker = left })
  empty-IsFair x left h k fair =
      let same : pending x.worker ≡ pending left = ground arith in
      record {
        selected = fair.selected;
        latest = subst (λ l. Latest (x.taken ++ l) x.submitted) same fair.latest;
        awake = λ frame full. absurd (ground arith);
      }

  Step-IsFair : (x y : Exchange t) → Step x y → IsFair x → IsFair y
  Step-IsFair x y (submits frame e) fair = subst IsFair (sym e) (submits-IsFair x frame fair)
  Step-IsFair x y (takes frame left took e) fair =
      subst IsFair (sym e) (takes-IsFair x left frame took fair)
  Step-IsFair x y (sleeps left h e) fair =
      let (empty, empty') = slot-fall_asleep x.worker left h in
      subst IsFair (sym e) (empty-IsFair x left empty empty' fair)
  Step-IsFair x y (wakes e) fair =
      subst IsFair (sym e)
        (record { selected = fair.selected; latest = fair.latest; awake = λ frame full. refl })

  Reach-IsFair : {x : Exchange t} → Reach x → IsFair x
  Reach-IsFair start = record {
    selected = Sub-nil [];
    latest = inl (refl, refl);
    awake = λ frame full. refl;
  }
  Reach-IsFair (later {x} {y} r st) = Step-IsFair x y st (Reach-IsFair r)

  -- In every interleaving of the two sides, what the worker takes are frames that were submitted, in
  -- their order and none twice; frames are left out, but only where a later one was submitted.
  pub taken-Sub : (x : Exchange t) → Reach x → Sub x.taken x.submitted
  taken-Sub x r = (Reach-IsFair r).selected

  pub took :
      (w : SlamWorker t) (frame : t.ScanFrame)
      → w.slot ≡ some frame
      → w.asleep ≡ false
      → take_frame w ≡ some (frame, record w { slot = none })
  unfolding take_frame
  took w frame h active = ground arith

  -- The frame that was submitted last is never lost: either nothing waits and the worker took it
  -- last, or it waits, and the worker's next step takes it.
  pub latest-taken :
      (x : Exchange t) (older : List t.ScanFrame) (frame : t.ScanFrame)
      → Reach x
      → x.submitted ≡ older ++ frame ∷ []
      → ((x.worker.slot ≡ none) × (before : List t.ScanFrame) × (x.taken ≡ before ++ frame ∷ []))
        ⊎ ((y : Exchange t) × Step x y × (y.taken ≡ x.taken ++ frame ∷ []) × (y.worker.slot ≡ none))
  latest-taken x older frame r e = elim (Reach-IsFair r).latest [
    | inl (_, empty) ↦ absurd (append-ne_nil frame older (sym e ∙ empty))
    | inr (a, us, vs, p, q, _) ↦
        let same : a ≡ frame = last_eq a frame vs older (sym q ∙ e) in
        elim (Option-cases x.worker.slot) [
          | inl idle ↦
              let none_left : pending x.worker ≡ [] = ground arith in
              inl (
                idle,
                us,
                sym (append-nil x.taken)
                    ∙ sym (ap (◌++◌ x.taken) none_left)
                    ∙ p
                    ∙ ap (λ f. us ++ f ∷ []) same,
              )
          | inr (g, waits) ↦
              let one_left : pending x.worker ≡ g ∷ [] = ground arith in
              let last : g ≡ frame =
                last_eq g a x.taken us (sym (ap (◌++◌ x.taken) one_left) ∙ p) ∙ same in
              let left : SlamWorker t = record x.worker { slot = none } in
              inr (
                record x { worker = left; taken = x.taken ++ g ∷ [] },
                takes g left (took x.worker g waits ((Reach-IsFair r).awake g waits)) refl,
                ap (λ f. x.taken ++ f ∷ []) last,
                refl,
              )
        ]
  ]
