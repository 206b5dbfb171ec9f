-- ===== src/Pipeline/Ticks.antt =====
-- The timer's branch: every car that has sent a scan is updated once, and no other.
use olivaw_hub.Prelude.{
  ℕ, ◌≡◌, refl, ap, ◌∙◌, subst, ◌⊎◌, inl, inr, false, none, some, [], ◌∷◌, arith, Bool-cases,
}
use olivaw_hub.Text.{Text, text_eq, text_eq_iff, text_eq_refl}
use olivaw_hub.Dict.{Dict, get, entry_or, get-insert_self, IsMap}
use olivaw_hub.External.{Types, Floats}
use olivaw_hub.State
use olivaw_hub.State.{CarSnapshot, Hub, WsEvent, fresh, car_or_new, update_car, emit}
use olivaw_hub.Pipeline.{Pipeline, CarRate, rate_hz, tick}
use olivaw_hub.Pipeline.Others.{events_of-append, view-update_other, view-emit_other}
use olivaw_hub.Pipeline.Car.{Car, view, known, restart}

module _ {t : Types} (floats : Floats t) (j : Text) (clock : Text → ℕ × ℕ) where
  -- The events and the snapshot that one round of the loop leaves.
  abbrev ticked : Text → CarRate → Hub t → Hub t
  ticked car rate hub =
      let hz = rate_hz floats rate (clock car).0 in
      emit (update_car floats hub car (λ c. record c { scan_hz = hz }))
        (State.stats car hz (car_or_new floats hub car).scans_total)

  view-ticked_other :
      (car : Text) (rate : CarRate) (s : Pipeline t)
      → text_eq car j ≡ false
      → view j (record s { hub = ticked car rate s.hub }) ≡ view j s
  view-ticked_other car rate s h =
      let hz = rate_hz floats rate (clock car).0 in
      let f : CarSnapshot t → CarSnapshot t = λ c. record c { scan_hz = hz } in
      let e = State.stats car hz (car_or_new floats s.hub car).scans_total in
      view-emit_other floats j car h (record s { hub = update_car floats s.hub car f }) e h
      ∙ view-update_other floats j car h s f

  get-cons_ne :
      (car : Text) (q : CarRate) (m : Dict CarRate)
      → text_eq car j ≡ false
      → get j ((car, q) ∷ m) ≡ get j m
  unfolding get
  get-cons_ne car q m ne = rw ne

  get-cons_none :
      (car : Text) (r : CarRate) (m : Dict CarRate)
      → get j ((car, r) ∷ m) ≡ none
      → (text_eq car j ≡ false) × (get j m ≡ none)
  unfolding get
  get-cons_none car r m h = (ground arith, ground arith)

  pub tick_absent :
      (rates : Dict CarRate) (s : Pipeline t)
      → get j rates ≡ none
      → (view j (record s { hub = (tick floats clock rates s.hub).0 }) ≡ view j s)
        × (get j (tick floats clock rates s.hub).1 ≡ none)
  unfolding tick
  tick_absent [] s h = (refl, h)
  tick_absent ((car, r) ∷ rates) s h =
      let (ne, rest) = get-cons_none car r rates h in
      let (same, gone) = tick_absent rates (record s { hub = ticked car r s.hub }) rest in
      (same ∙ view-ticked_other car r s ne, get-cons_ne car _ _ ne ∙ gone)

  -- What a tick makes of a car with the rate `r`, its rate left aside.
  abbrev pub after_tick : ℕ → CarRate → Car t → Car t
  after_tick n r v = record (restart floats n j (clock j) r (known floats n j v.seen) v) {
    rate = v.rate;
  }

  view-ticked_own :
      (n : ℕ) (r : CarRate) (s : Pipeline t)
      → view j (record s { hub = ticked j r s.hub }) ≡ after_tick n r (view j s)
  unfolding update_car emit restart car_or_new entry_or known
  view-ticked_own n r s =
      let hz = rate_hz floats r (clock j).0 in
      let c = car_or_new floats s.hub j in
      ground (
        arith,
        get-insert_self j (record c { scan_hz = hz }) s.hub.cars,
        text_eq_refl j,
        events_of-append j s.hub.events (State.stats j hz c.scans_total),
      )

  abbrev Ticked : ℕ → Dict CarRate → Pipeline t → CarRate → Type 0
  Ticked n rates s r =
      (view j (record s { hub = (tick floats clock rates s.hub).0 }) ≡ after_tick n r (view j s))
      × (get j (tick floats clock rates s.hub).1
          ≡ some (record { window_start = (clock j).1; scans_in_window = 0 }))

  tick_own :
      (n : ℕ) (rates : Dict CarRate) (s : Pipeline t) (r : CarRate)
      → get j rates ≡ none
      → Ticked n ((j, r) ∷ rates) s r
  unfolding tick
  tick_own n rates s r h =
      let (same, _) = tick_absent rates (record s { hub = ticked j r s.hub }) h in
      (same ∙ view-ticked_own n r s, unfold get in rw text_eq_refl refl)

  tick_later :
      (n : ℕ) (car : Text) (q : CarRate) (rates : Dict CarRate) (s : Pipeline t) (r : CarRate)
      → text_eq car j ≡ false
      → Ticked n rates (record s { hub = ticked car q s.hub }) r
      → Ticked n ((car, q) ∷ rates) s r
  unfolding tick
  tick_later n car q rates s r ne (same, there) =
      (same ∙ ap (after_tick n r) (view-ticked_other car q s ne), unfold get in rw ne there)

  get-cons_some :
      (car : Text) (q r : CarRate) (m : Dict CarRate)
      → get j ((car, q) ∷ m) ≡ some r
      → get car m ≡ none
      → ((car ≡ j) × (q ≡ r) × (get j m ≡ none)) ⊎ ((text_eq car j ≡ false) × (get j m ≡ some r))
  unfolding get
  get-cons_some car q r m h gone = elim (Bool-cases (text_eq car j)) [
    | inl e ↦
        let same = (text_eq_iff car j).0 e in
        inl (same, ground arith, subst (λ k. get k m ≡ none) same gone)
    | inr ne ↦ inr (ne, ground arith)
  ]

  -- A car with a rate gets the rate of its window and a new window.
  pub tick_present :
      (n : ℕ) (rates : Dict CarRate) (s : Pipeline t) (r : CarRate)
      → IsMap rates
      → get j rates ≡ some r
      → Ticked n rates s r
  tick_present n [] s r m h = absurd (unfold get in ground arith)
  tick_present n ((car, q) ∷ rates) s r m h = elim (get-cons_some car q r rates h m.0) [
    | inl (here, same, gone) ↦ rw (here, same) (tick_own n rates s r gone)
    | inr (ne, rest) ↦
        tick_later n car q rates s r ne
          (tick_present n rates (record s { hub = ticked car q s.hub }) r m.1 rest)
  ]
