-- ===== src/Session/BufWriter/Given.antt =====
-- What the writer keeps of the bytes that it is given, on a disk that may be too small for them.
use olivaw_hub.Prelude.{
  ℕ, ◌+◌, ◌-◌, ◌≤◌, ◌≡◌, refl, sym, ap, ◌∙◌, ◌⊎◌, inl, inr, false, [], ◌++◌, append-nil,
  append_assoc, arith, ltb, leb, leb→le, leb→gt, length, length-append, length-take, take, take_all,
  take-append, take-append_le, take-append_ge, Bool-cases,
}
use olivaw_hub.Text.{Bytes}
use olivaw_hub.Session.BufWriter.{
  BufWriter, capacity, content, file_write, flush, make_room, make_room-nil, nil-of_length,
  write_all, content-flush,
}

-- The writer on a disk of `size` bytes, after the bytes `s` were given to it: it has them all, or
-- the disk is full, with the first of them.
pub record Given (size : ℕ) (s : Bytes) (w : BufWriter) : Type 0 where
  pub sized : length w.file + w.room ≡ size
  pub held : (content w ≡ s) ⊎ ((w.room ≡ 0) × (w.file ≡ take size s))

-- A full disk has the first of the bytes.
full :
    (size : ℕ) (s : Bytes) (w : BufWriter)
    → Given size s w
    → w.room ≡ 0
    → (w.file ≡ take size s) × (size ≤ length s)
full size s w g h =
    let z : length w.file ≡ size = omega (arith, g.sized) in
    elim g.held [
      | inl all ↦ (
        sym (take-append w.file w.buffer)
            ∙ ap (λ n. take n (w.file ++ w.buffer)) z
            ∙ ap (take size) all,
        omega (arith, length-append w.file w.buffer, ap length all),
      )
      | inr (_, first) ↦ (first, omega (arith, ap length first, length-take size s))
    ]

-- What comes then is lost.
pub Given-full :
    (size : ℕ) (s d : Bytes) (w : BufWriter) → Given size s w → w.room ≡ 0 → Given size (s ++ d) w
Given-full size s d w g h =
    let (first, le) = full size s w g h in
    record { sized = g.sized; held = inr (h, first ∙ sym (take-append_le size s d le)) }

flush-sized : (w : BufWriter) → length (flush w).0.file + (flush w).0.room ≡ length w.file + w.room
unfolding flush
flush-sized w = ground (
  arith,
  length-append w.file w.buffer,
  length-append w.file (take w.room w.buffer),
  length-take w.room w.buffer,
)

append_short : (b d : Bytes) → length d ≡ 0 → b ++ d ≡ b
append_short b d h = ap (◌++◌ b) (nil-of_length d h) ∙ append-nil b

take_none : (b d : Bytes) (n : ℕ) → n ≡ 0 → b ++ take n d ≡ b
take_none b d n h = ap (λ m. b ++ take m d) h ∙ append-nil b

flush_full : (w : BufWriter) → w.room ≡ 0 → ((flush w).0.room ≡ 0) × ((flush w).0.file ≡ w.file)
unfolding flush
flush_full w h = elim (Bool-cases (leb (length w.buffer) w.room)) [
  | inl fits ↦
      let le = leb→le _ _ fits in rw fits (omega arith, append_short w.file w.buffer (omega arith))
  | inr lacks ↦ rw lacks (refl, take_none w.file w.buffer w.room h)
]

flush-room : (w : BufWriter) → (flush w).1 ≡ false → (flush w).0.room ≡ 0
unfolding flush
flush-room w h = ground arith

pub Given-flush : (size : ℕ) (s : Bytes) (w : BufWriter) → Given size s w → Given size s (flush w).0
Given-flush size s w g = record {
  sized = flush-sized w ∙ g.sized;
  held = elim g.held [
    | inl all ↦ inl (content-flush w ∙ all)
    | inr (z, first) ↦ let (z', same) = flush_full w z in inr (z', same ∙ first)
  ];
}

Given-make_room :
    (size : ℕ) (s : Bytes) (w : BufWriter) (n : ℕ) → Given size s w → Given size s (make_room w n).0
unfolding make_room
Given-make_room size s w n g = elim (Bool-cases (ltb (capacity - length w.buffer) n)) [
  | inl small ↦ rw small (Given-flush size s w g)
  | inr enough ↦ rw enough g
]

make_room-room : (w : BufWriter) (n : ℕ) → (make_room w n).1 ≡ false → (make_room w n).0.room ≡ 0
unfolding make_room
make_room-room w n h = ground (arith, flush-room w)

Given-buffered :
    (size : ℕ) (s d : Bytes) (w : BufWriter)
    → Given size s w
    → Given size (s ++ d) (record w { buffer = w.buffer ++ d })
Given-buffered size s d w g = elim g.held [
  | inl all ↦ record {
    sized = g.sized;
    held = inl (sym (append_assoc w.file w.buffer d) ∙ ap (λ b. b ++ d) all);
  }
  | inr (z, first) ↦
      let later = Given-full size s d w g z in
      record { sized = g.sized; held = inr (z, (full size (s ++ d) w later z).0) }
]

Given-file_write :
    (size : ℕ) (s d : Bytes) (w : BufWriter)
    → Given size s w
    → w.buffer ≡ []
    → Given size (s ++ d) (file_write w d).0
unfolding file_write
Given-file_write size s d w g empty =
    let alone : content w ≡ w.file = ap (◌++◌ w.file) empty ∙ append-nil w.file in
    elim (Bool-cases (leb (length d) w.room)) [
      | inl fits ↦
          let le = leb→le _ _ fits in
          let more = length-append w.file d in
          rw fits (record {
            sized = omega (arith, g.sized);
            held = elim g.held [
              | inl all ↦ inl (
                  ap (◌++◌ (w.file ++ d)) empty
                  ∙ append-nil (w.file ++ d)
                  ∙ ap (λ b. b ++ d) (sym alone ∙ all))
              | inr (z, first) ↦
                  let later = Given-full size s d w g z in
                  inr (
                    omega arith,
                    append_short w.file d (omega arith) ∙ (full size (s ++ d) w later z).0,
                  )
            ];
          })
      | inr lacks ↦
          let gt = leb→gt _ _ lacks in
          let more = length-append w.file (take w.room d) in
          rw lacks (record {
            sized = omega (arith, g.sized, length-take w.room d);
            held = inr (
              refl,
              elim g.held [
                | inl all ↦
                    let rest : size - length w.file ≡ w.room = omega (arith, g.sized) in
                    ap (λ n. w.file ++ take n d) (sym rest)
                    ∙ sym (take-append_ge size w.file d (omega (arith, g.sized)))
                    ∙ ap (λ b. take size (b ++ d)) (sym alone ∙ all)
                | inr (z, first) ↦
                    let later = Given-full size s d w g z in
                    take_none w.file d w.room z ∙ (full size (s ++ d) w later z).0
              ],
            );
          })
    ]

-- After the last flush the file has all bytes that the disk takes.
pub flush-file :
    (size : ℕ) (s : Bytes) (w : BufWriter) → Given size s w → (flush w).0.file ≡ take size s
unfolding flush
flush-file size s w g =
    let g' = Given-flush size s w g in
    elim g'.held [
      | inl all ↦ elim (Bool-cases (leb (length w.buffer) w.room)) [
        | inl fits ↦
            let emptied : (flush w).0.buffer ≡ [] = rw fits refl in
            let same : (flush w).0.file ≡ s =
              sym (append-nil (flush w).0.file) ∙ ap (◌++◌ (flush w).0.file) (sym emptied) ∙ all in
            same ∙ sym (take_all size s (omega (arith, ap length same, g'.sized)))
        | inr lacks ↦ (full size s (flush w).0 g' (rw lacks refl)).0
      ]
      | inr (z, first) ↦ first
    ]

-- A write fails on a disk that is full then.
pub write_all-room :
    (w : BufWriter) (d : Bytes) → (write_all w d).1 ≡ false → (write_all w d).0.room ≡ 0
unfolding write_all file_write
write_all-room w d h = ground (arith, make_room-room w (length d))

-- Whether a write succeeds or fails.
pub Given-write_all :
    (size : ℕ) (s d : Bytes) (w : BufWriter)
    → Given size s w
    → Given size (s ++ d) (write_all w d).0
unfolding write_all
Given-write_all size s d w g = elim (Bool-cases (ltb (length d) (capacity - length w.buffer))) [
  | inl small ↦ rw small (Given-buffered size s d w g)
  | inr large ↦
      let m = make_room w (length d) in
      let g' = Given-make_room size s w (length d) g in
      elim (Bool-cases m.1) [
        | inl made ↦ elim (Bool-cases (leb capacity (length d))) [
          | inl huge ↦
              rw (large, made, huge)
                (Given-file_write size s d m.0 g'
                  (make_room-nil w (length d) (leb→le _ _ huge) made))
          | inr fits ↦ rw (large, made, fits) (Given-buffered size s d m.0 g')
        ]
        | inr failed ↦
            rw (large, failed) (Given-full size s d m.0 g' (make_room-room w (length d) failed))
      ]
]
