-- ===== src/Session/BufWriter.antt =====
-- `BufWriter<File>` of the standard library, over a disk that takes `room` more bytes. What the
-- writer holds back in `buffer` is lost if the process is killed; `file` stays.
pub mod Given
use olivaw_hub.Prelude.{
  ℕ, ◌-◌, ◌≤◌, ◌≡◌, refl, Bool, true, false, [], ◌∷◌, ◌++◌, append-nil, append_assoc, arith, ltb,
  leb, if◌then◌else◌, length, length-append, take, drop, take-append-drop,
}
use olivaw_hub.Text.{Bytes}

pub record BufWriter : Type 0 where
  pub file : Bytes
  pub buffer : Bytes
  pub room : ℕ

abbrev pub capacity : ℕ
capacity = 8192

-- `File::write_all`: a full disk takes the bytes that fit.
unfoldable pub file_write : BufWriter → Bytes → BufWriter × Bool
file_write w d =
    if leb (length d) w.room
    then (record w { file = w.file ++ d; room = w.room - length d }, true)
    else (record w { file = w.file ++ take w.room d; room = 0 }, false)

-- `flush`: what the disk did not take stays in the buffer.
unfoldable pub flush : BufWriter → BufWriter × Bool
flush w =
    if leb (length w.buffer) w.room
    then (record { file = w.file ++ w.buffer; buffer = []; room = w.room - length w.buffer }, true)
    else (
      record { file = w.file ++ take w.room w.buffer; buffer = drop w.room w.buffer; room = 0 },
      false,
    )

-- Room in the buffer is made first where there is too little.
unfoldable pub make_room : BufWriter → ℕ → BufWriter × Bool
make_room w n = if ltb (capacity - length w.buffer) n then flush w else (w, true)

-- `write_all`: what is as large as the whole buffer goes to the file at once.
unfoldable pub write_all : BufWriter → Bytes → BufWriter × Bool
write_all w d =
    if ltb (length d) (capacity - length w.buffer)
    then (record w { buffer = w.buffer ++ d }, true)
    else (let (w', made) = make_room w (length d) in
        if made
        then (if leb capacity (length d)
            then file_write w' d
            else (record w' { buffer = w'.buffer ++ d }, true))
        else (w', false))

-- All that was given to the writer and not lost.
abbrev pub content : BufWriter → Bytes
content w = w.file ++ w.buffer

pub content-flush : (w : BufWriter) → content (flush w).0 ≡ content w
unfolding flush
content-flush w = ground (
  arith,
  append-nil (w.file ++ w.buffer),
  append_assoc w.file (take w.room w.buffer) (drop w.room w.buffer),
  take-append-drop w.room w.buffer,
)

-- After a flush that succeeds everything is in the file.
pub file-flush : (w : BufWriter) → (flush w).1 ≡ true → (flush w).0.file ≡ content w
unfolding flush
file-flush w h = ground arith

pub nil-of_length : (b : Bytes) → length b ≡ 0 → b ≡ []
nil-of_length [] h = refl
nil-of_length (x ∷ b) h = absurd (omega arith)

-- A buffer that leaves no room to flush for is empty.
pub make_room-nil :
    (w : BufWriter) (n : ℕ)
    → capacity ≤ n
    → (make_room w n).1 ≡ true
    → (make_room w n).0.buffer ≡ []
unfolding make_room flush
make_room-nil w n big h = ground (arith, nil-of_length w.buffer)

content-make_room : (w : BufWriter) (n : ℕ) → content (make_room w n).0 ≡ content w
unfolding make_room
content-make_room w n = ground (arith, content-flush w)

-- What is written without an error stands behind what was written before.
pub content-write_all :
    (w : BufWriter) (d : Bytes)
    → (write_all w d).1 ≡ true
    → content (write_all w d).0 ≡ content w ++ d
unfolding write_all file_write
content-write_all w d h = ground (
  arith,
  append_assoc w.file w.buffer d,
  content-make_room w (length d),
  make_room-nil w (length d),
  append_assoc (make_room w (length d)).0.file (make_room w (length d)).0.buffer d,
  append-nil ((make_room w (length d)).0.file ++ d),
  append-nil (make_room w (length d)).0.file,
)

pub file-le-flush : (w : BufWriter) → length w.file ≤ length (flush w).0.file
unfolding flush
file-le-flush w =
    ground (arith, length-append w.file w.buffer, length-append w.file (take w.room w.buffer))

file-le-make_room : (w : BufWriter) (n : ℕ) → length w.file ≤ length (make_room w n).0.file
unfolding make_room
file-le-make_room w n = ground (arith, file-le-flush w)

-- The file only grows.
pub file-le-write_all : (w : BufWriter) (d : Bytes) → length w.file ≤ length (write_all w d).0.file
unfolding write_all file_write
file-le-write_all w d =
    let m = (make_room w (length d)).0 in
    ground (
      arith,
      file-le-make_room w (length d),
      length-append m.file d,
      length-append m.file (take m.room d),
    )
