-- ===== src/Session/RoundTrip.antt =====
-- `read_all` on what `Recorder` wrote, whole and cut.
use olivaw_hub.Prelude.{
  take_all, ℕ, zero, suc, ◌-◌, ◌≤◌, ◌<◌, ◌≡◌, ◌≢◌, refl, sym, subst, ap, ◌∙◌, inl, inr, ◌↔◌, List,
  [], ◌∷◌, ◌++◌, append-nil, append_assoc, arith, leb, leb→le, leb→gt, length, length-append, take,
  drop, take-append, drop-append, length-drop, length-take, take-append_le, take-append_ge,
  Bool-cases, Option-cases,
}
use olivaw_hub.Text.{Bytes}
use olivaw_hub.External.{Types}
use olivaw_hub.Ingest.{CarEvent}
use olivaw_hub.Postcard.{Postcard, PostcardLaws}
use olivaw_hub.Session.Recorder.{le_bytes}
use olivaw_hub.Session.Read.{events, out_of_fuel, from_le_bytes, read_loop, read_all}
use olivaw_hub.Session.Stream.{frame, stream, IsRecordable, AllRecordable, from_le_bytes-le_bytes}

module _ {t : Types} (p : Postcard t) where
  -- The loop stops before its fuel does, on any bytes.
  read_loop-ne-out_of_fuel :
      (f : ℕ) (done : List (CarEvent t)) (rest : Bytes)
      → length rest < f
      → read_loop p f done rest ≢ out_of_fuel
  unfolding read_loop
  read_loop-ne-out_of_fuel zero done rest h = elim h [ ]
  read_loop-ne-out_of_fuel (suc f) done (a ∷ b ∷ c ∷ d ∷ rest) h =
      let len = from_le_bytes a b c d in
      elim (Option-cases (Postcard.from_bytes p (take len rest))) [
        | inl q ↦ ground arith
        | inr (e, q) ↦ ground (
          arith,
          length-drop len rest,
          read_loop-ne-out_of_fuel f (done ++ e ∷ []) (drop len rest),
        )
      ]
  read_loop-ne-out_of_fuel (suc f) done _ h = ground arith

  -- So more fuel changes nothing.
  read_loop_fuel :
      (f g : ℕ) (done : List (CarEvent t)) (rest : Bytes)
      → length rest < f
      → length rest < g
      → read_loop p f done rest ≡ read_loop p g done rest
  unfolding read_loop
  read_loop_fuel zero g done rest h k = elim h [ ]
  read_loop_fuel (suc f) zero done rest h k = elim k [ ]
  read_loop_fuel (suc f) (suc g) done (a ∷ b ∷ c ∷ d ∷ rest) h k =
      let len = from_le_bytes a b c d in
      elim (Option-cases (Postcard.from_bytes p (take len rest))) [
        | inl q ↦ ground arith
        | inr (e, q) ↦
            ground
              (arith, length-drop len rest, read_loop_fuel f g (done ++ e ∷ []) (drop len rest))
      ]
  read_loop_fuel (suc f) (suc g) done _ h k = refl

  -- Reading a recording returns for every sequence of bytes: it ends before its fuel does.
  pub read_all-ne-out_of_fuel : (bytes : Bytes) → read_all p bytes ≢ out_of_fuel
  unfolding read_all
  read_all-ne-out_of_fuel bytes =
      read_loop-ne-out_of_fuel (suc (length bytes)) [] bytes (omega arith)

  -- Of the records of `es`, the first `k` and no more lie within the first `n` bytes.
  abbrev pub Complete : ℕ → List (CarEvent t) → ℕ → Type 0
  Complete n es k = (j : ℕ) → j ≤ length es → (j ≤ k) ↔ (length (stream p (take j es)) ≤ n)

  Complete-cons :
      (n : ℕ) (e : CarEvent t) (es : List (CarEvent t)) (k : ℕ)
      → length (frame p e) ≤ n
      → Complete (n - length (frame p e)) es k
      → Complete n (e ∷ es) (suc k)
  Complete-cons n e es k h c zero l = (λ _. omega arith, λ _. omega arith)
  Complete-cons n e es k h c (suc j) l =
      let more = c j (omega arith) in
      let both = length-append (frame p e) (stream p (take j es)) in
      (
        λ le. let fits = more.0 (omega arith) in omega (arith, both, fits),
        λ le. let fits = more.1 (omega (arith, both)) in omega (arith, fits),
      )

  Complete-cut :
      (n : ℕ) (e : CarEvent t) (es : List (CarEvent t))
      → n < length (frame p e)
      → Complete n (e ∷ es) 0
  Complete-cut n e es h zero l = (λ _. omega arith, λ _. omega arith)
  Complete-cut n e es h (suc j) l =
      let both = length-append (frame p e) (stream p (take j es)) in
      (λ le. absurd (omega arith), λ le. absurd (omega (arith, both)))

  module _ (laws : PostcardLaws p) where
    -- One record is read, and the loop goes on behind it.
    read_loop-frame :
        (f : ℕ) (done : List (CarEvent t)) (e : CarEvent t) (rest : Bytes)
        → IsRecordable p e
        → read_loop p (suc f) done (frame p e ++ rest) ≡ read_loop p f (done ++ e ∷ []) rest
    unfolding read_loop le_bytes
    read_loop-frame f done e rest (b, q, h) =
        rw (q, frame)
          (ground (
            arith,
            from_le_bytes-le_bytes (length b) h,
            length-append b rest,
            take-append b rest,
            drop-append b rest,
            PostcardLaws.from-to laws e b q,
          ))

    -- A record that is cut short ends the loop, and is dropped.
    read_loop-cut :
        (f n : ℕ) (done : List (CarEvent t)) (e : CarEvent t)
        → IsRecordable p e
        → n < length (frame p e)
        → read_loop p (suc f) done (take n (frame p e)) ≡ events done
    unfolding read_loop le_bytes
    read_loop-cut f n done e (b, q, h) k = cut n (rw (q, frame) at k)
      where
        cut :
            (m : ℕ)
            → m < length (le_bytes (length b) ++ b)
            → read_loop p (suc f) done (take m (frame p e)) ≡ events done
        cut zero l = refl
        cut (suc zero) l = rw (q, frame)
        cut (suc (suc zero)) l = rw (q, frame)
        cut (suc (suc (suc zero))) l = rw (q, frame)
        cut (suc (suc (suc (suc m)))) l =
            rw (q, frame) (ground (arith, from_le_bytes-le_bytes (length b) h, length-take m b))

    -- What is left of a recording that was cut after `n` bytes.
    read_loop-take :
        (f n : ℕ) (done es : List (CarEvent t))
        → AllRecordable p es
        → length es < f
        → (k : ℕ) × (read_loop p f done (take n (stream p es)) ≡ events (done ++ take k es))
          × Complete n es k
    read_loop-take zero n done es rs h = elim h [ ]
    read_loop-take (suc f) n done [] rs h = (0, nothing n, λ j l. (λ _. nil-le j, λ _. l))
      where
        nothing : (m : ℕ) → read_loop p (suc f) done (take {A = ℕ} m []) ≡ events (done ++ [])
        nothing zero = unfold read_loop in ap events (sym (append-nil done))
        nothing (suc m) = unfold read_loop in ap events (sym (append-nil done))

        nil-le : (j : ℕ) → length (stream p (take j [])) ≤ n
        nil-le zero = omega arith
        nil-le (suc j) = omega arith
    read_loop-take (suc f) n done (e ∷ es) rs h = elim (Bool-cases (leb (length (frame p e)) n)) [
      | inl whole ↦
          let le = leb→le _ _ whole in
          let (k, read, exact) =
            read_loop-take f (n - length (frame p e)) (done ++ e ∷ []) es rs.1 (omega arith) in
          (
            suc k,
            ap (read_loop p (suc f) done) (take-append_ge n (frame p e) (stream p es) le)
                ∙ read_loop-frame f done e (take (n - length (frame p e)) (stream p es)) rs.0
                ∙ read
                ∙ ap events (append_assoc done (e ∷ []) (take k es)),
            Complete-cons n e es k le exact,
          )
      | inr cut ↦
          let lt = leb→gt _ _ cut in
          let le : n ≤ length (frame p e) = omega arith in
          (
            0,
            ap (read_loop p (suc f) done) (take-append_le n (frame p e) (stream p es) le)
                ∙ read_loop-cut f n done e rs.0 lt
                ∙ ap events (sym (append-nil done)),
            Complete-cut n e es lt,
          )
    ]

    -- Every record has its four length bytes at least.
    length-le-stream :
        (es : List (CarEvent t)) → AllRecordable p es → length es ≤ length (stream p es)
    unfolding le_bytes
    length-le-stream [] rs = omega arith
    length-le-stream (e ∷ es) ((b, q, h), rs) =
        rw (q, frame) (omega (arith, length-append b (stream p es), length-le-stream es rs))

    -- The events that are read from a recording that was cut.
    pub read_all_cut :
        (n : ℕ) (es : List (CarEvent t))
        → AllRecordable p es
        → (k : ℕ) × (read_all p (take n (stream p es)) ≡ events (take k es)) × Complete n es k
    unfolding read_all
    read_all_cut n es rs =
        let cut = take n (stream p es) in
        let enough = suc (length (stream p es)) in
        let le = length-le-stream es rs in
        let (k, read, exact) = read_loop-take enough n [] es rs (omega arith) in
        (
          k,
          read_loop_fuel (suc (length cut)) enough [] cut (omega arith)
                (omega (arith, length-take n (stream p es)))
              ∙ read,
          exact,
        )

    -- A recording that is cut after any number `n` of bytes reads back without an error as a prefix
    -- of its events, and an initial run of them is within that prefix exactly where all its records
    -- lie within the first `n` bytes.
    pub read_all-take :
        (n : ℕ) (es : List (CarEvent t))
        → AllRecordable p es
        → (k : ℕ) × (read_all p (take n (stream p es)) ≡ events (take k es))
          × ((j : ℕ) → (length (take j es) ≤ k) ↔ (length (stream p (take j es)) ≤ n))
    read_all-take n es rs =
        let (k, read, exact) = read_all_cut n es rs in
        (
          k,
          read,
          λ j. elim (Bool-cases (leb j (length es))) [
            | inl within ↦
                let le = leb→le _ _ within in
                let same : length (take j es) ≡ j = omega (arith, length-take j es) in
                (λ l. (exact j le).0 (omega arith), λ l. let m = (exact j le).1 l in omega arith)
            | inr beyond ↦
                let all = take_all j es (omega (arith, leb→gt _ _ beyond)) in
                let both = take_all (length es) es (omega arith) ∙ sym all in
                subst (λ xs. (length xs ≤ k) ↔ (length (stream p xs) ≤ n)) both
                  (
                    λ l.
                        (exact (length es) (omega arith)).0
                          (omega (arith, length-take (length es) es)),
                    λ l.
                        let m = (exact (length es) (omega arith)).1 l in
                        omega (arith, length-take (length es) es),
                  )
          ],
        )
