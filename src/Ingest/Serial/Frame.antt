-- ===== src/Ingest/Serial/Frame.antt =====
-- The frame of one rotation: the first points in their order, and the count of the others.
use olivaw_hub.Prelude.{
  ℕ, ◌+◌, ◌-◌, ◌≤◌, ◌<◌, ◌≡◌, sym, ap, subst, ◌∙◌, min, none, some, List, [], ◌∷◌, ◌++◌, map, take,
  length, arith, append-nil, append_assoc, length-append, length-take, length-map, take_all,
  take-append_le,
}
use native.Mathlib.Decide.{dec_lt}
use olivaw_hub.External.{Types, Floats, Proto}
use olivaw_hub.Ingest.Serial.{Frames, Measured, point_of, add_point, fill, frame_of, elapsed_ms}

-- `push` of a vector of a fixed capacity, and the fields of a frame.
pub record FrameLaws {t : Types} (p : Proto t) (f : Frames t) : Type 0 where
  pub capacity : ℕ
  pub points_empty : (seq at : ℕ) → Proto.points p (Frames.empty f seq at) ≡ []
  pub dropped_empty : (seq at : ℕ) → Frames.dropped f (Frames.empty f seq at) ≡ 0
  pub seq_empty : (seq at : ℕ) → Proto.seq p (Frames.empty f seq at) ≡ seq
  pub push_room :
      (frame : t.ScanFrame) (x : t.ScanPoint)
      → length (Proto.points p frame) < capacity
      → (frame' : t.ScanFrame) × (Frames.push f frame x ≡ some frame')
        × (Proto.points p frame' ≡ Proto.points p frame ++ x ∷ [])
        × (Frames.dropped f frame' ≡ Frames.dropped f frame)
        × (Proto.seq p frame' ≡ Proto.seq p frame)
  pub push_full :
      (frame : t.ScanFrame) (x : t.ScanPoint)
      → capacity ≤ length (Proto.points p frame)
      → Frames.push f frame x ≡ none
  pub points_dropped :
      (n : ℕ) (frame : t.ScanFrame)
      → Proto.points p (Frames.set_dropped f n frame) ≡ Proto.points p frame
  pub dropped_dropped :
      (n : ℕ) (frame : t.ScanFrame) → Frames.dropped f (Frames.set_dropped f n frame) ≡ n
  pub seq_dropped :
      (n : ℕ) (frame : t.ScanFrame) → Proto.seq p (Frames.set_dropped f n frame) ≡ Proto.seq p frame

module _ {t : Types} (floats : Floats t) (p : Proto t) (f : Frames t) (laws : FrameLaws p f) where
  open laws use {capacity}

  abbrev converted : List (Measured t) → List t.ScanPoint
  converted = map (point_of floats f)

  -- A frame that was given `before` holds the first of them and counts the others.
  record Holds (seq : ℕ) (before : List t.ScanPoint) (frame : t.ScanFrame) : Type 0 where
    numbered : Proto.seq p frame ≡ seq
    points : Proto.points p frame ≡ take capacity before
    counted : Frames.dropped f frame ≡ min (length before - capacity) (Frames.max_dropped f)

  added :
      (frame frame' : t.ScanFrame) (x : Measured t)
      → Frames.push f frame (point_of floats f x) ≡ some frame'
      → add_point floats f frame x ≡ frame'
  unfolding add_point
  added frame frame' x h = rw (h, add_point)

  not_added :
      (frame : t.ScanFrame) (x : Measured t)
      → Frames.push f frame (point_of floats f x) ≡ none
      → add_point floats f frame x
        ≡ Frames.set_dropped f (min (Frames.dropped f frame + 1) (Frames.max_dropped f)) frame
  unfolding add_point
  not_added frame x h = rw (h, add_point)

  add_point-Holds :
      (seq : ℕ) (before : List t.ScanPoint) (frame : t.ScanFrame) (x : Measured t)
      → Holds seq before frame
      → Holds seq (before ++ point_of floats f x ∷ []) (add_point floats f frame x)
  add_point-Holds seq before frame x h =
      let q = point_of floats f x in
      let held : length (Proto.points p frame) ≡ min capacity (length before) =
        ap length h.points ∙ length-take capacity before in
      let more = length-append before (q ∷ []) in
      elim (dec_lt (length before) capacity) [
        | yes fits ↦
            let (frame', e, points, counted, numbered) =
              FrameLaws.push_room laws frame q (omega arith) in
            subst (Holds seq (before ++ q ∷ [])) (sym (added frame frame' x e)) (record {
              numbered = numbered ∙ h.numbered;
              points =
                  points
                  ∙ ap (λ l. l ++ q ∷ []) (h.points ∙ take_all capacity before (omega arith))
                  ∙ sym (take_all capacity (before ++ q ∷ []) (omega arith));
              counted = counted ∙ h.counted ∙ omega arith;
            })
        | no full ↦
            let e = FrameLaws.push_full laws frame q (omega arith) in
            let n = min (Frames.dropped f frame + 1) (Frames.max_dropped f) in
            subst (Holds seq (before ++ q ∷ [])) (sym (not_added frame x e)) (record {
              numbered = FrameLaws.seq_dropped laws n frame ∙ h.numbered;
              points =
                  FrameLaws.points_dropped laws n frame
                  ∙ h.points
                  ∙ sym (take-append_le capacity before (q ∷ []) (omega arith));
              counted = FrameLaws.dropped_dropped laws n frame ∙ omega (arith, h.counted);
            })
      ]

  fill-Holds :
      (seq : ℕ) (before : List t.ScanPoint) (frame : t.ScanFrame) (xs : List (Measured t))
      → Holds seq before frame
      → Holds seq (before ++ converted xs) (fill floats f frame xs)
  unfolding fill
  fill-Holds seq before frame [] h = subst (λ l. Holds seq l frame) (sym (append-nil before)) h
  fill-Holds seq before frame (x ∷ xs) h =
      subst (λ l. Holds seq l (fill floats f (add_point floats f frame x) xs))
        (append_assoc before (point_of floats f x ∷ []) (converted xs))
        (fill-Holds seq (before ++ point_of floats f x ∷ []) (add_point floats f frame x) xs
          (add_point-Holds seq before frame x h))

  -- The frame of a rotation has the number it was given, the rotation's first points, converted and
  -- in their order, as many as a frame can hold, and counts the others, up to the counter's largest
  -- value.
  pub frame_of-points :
      (started seq at : ℕ) (xs : List (Measured t))
      → let frame = frame_of floats f started seq at xs in
        (Proto.seq p frame ≡ seq)
        × (Proto.points p frame ≡ take capacity (map (point_of floats f) xs))
        × (Frames.dropped f frame ≡ min (length xs - capacity) (Frames.max_dropped f))
  unfolding frame_of
  frame_of-points started seq at xs =
      let ms = elapsed_ms started at in
      let h = fill-Holds seq [] (Frames.empty f seq ms) xs (record {
        numbered = FrameLaws.seq_empty laws seq ms;
        points = FrameLaws.points_empty laws seq ms ∙ sym (take_all capacity [] (omega arith));
        counted = FrameLaws.dropped_empty laws seq ms ∙ omega arith;
      }) in
      let all = length-map xs (point_of floats f) in
      (h.numbered, h.points, h.counted ∙ ap (λ n. min (n - capacity) (Frames.max_dropped f)) all)
