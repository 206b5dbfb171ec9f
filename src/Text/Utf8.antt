-- ===== src/Text/Utf8.antt =====
-- `String::from_utf8_lossy` of the standard library: the longest prefixes that can begin a
-- character are replaced by U+FFFD where they do not go on to one.
use olivaw_hub.Prelude.{
  ℕ, zero, suc, ◌≡◌, refl, Bool, true, false, ◌&&◌, List, [], ◌∷◌, ◌++◌, leb, ◌==◌, if◌then◌else◌,
  length, take, drop,
}
use olivaw_hub.Text.{Text, Bytes, codes}

within : ℕ → ℕ → ℕ → Bool
within lo hi b = leb lo b && leb b hi

continues : List ℕ → Bool
unfolding within
continues [] = false
continues (b ∷ _) = within 0x80 0xbf b

-- May `b` stand second in a character that begins with `a`?
second_fits : ℕ → List ℕ → Bool
unfolding within
second_fits a [] = false
second_fits a (b ∷ _) =
    if a == 0xe0
    then within 0xa0 0xbf b
    else if a == 0xed
    then within 0x80 0x9f b
    else if a == 0xf0
    then within 0x90 0xbf b
    else if a == 0xf4
    then within 0x80 0x8f b
    else within 0x80 0xbf b

-- The bytes that the character, or the broken start of one, takes; and whether it is a character.
chunk : ℕ → Bytes → ℕ × Bool
unfolding within continues second_fits
chunk a rest =
    if leb a 0x7f
    then (1, true)
    else if within 0xc2 0xdf a
    then (if continues rest then (2, true) else (1, false))
    else if within 0xe0 0xef a
    then (if second_fits a rest
        then (if continues (drop 1 rest) then (3, true) else (2, false))
        else (1, false))
    else if within 0xf0 0xf4 a
    then (if second_fits a rest
        then (if continues (drop 1 rest)
            then (if continues (drop 2 rest) then (4, true) else (3, false))
            else (2, false))
        else (1, false))
    else (1, false)

abbrev replacement : Text
replacement = 0xef ∷ 0xbf ∷ 0xbd ∷ []

-- A chunk takes a byte at least, so the number of bytes is enough fuel.
chunks : ℕ → Bytes → Text
unfolding chunk
chunks zero s = []
chunks (suc f) [] = []
chunks (suc f) (a ∷ rest) =
    let (n, fits) = chunk a rest in
    (if fits then take n (a ∷ rest) else replacement) ++ chunks f (drop n (a ∷ rest))

unfoldable pub from_utf8_lossy : Bytes → Text
unfolding chunks
from_utf8_lossy s = chunks (length s) s

-- Text that a Rust `String` can hold is left as it is.
abbrev pub IsUtf8 : Bytes → Type 0
IsUtf8 s = from_utf8_lossy s ≡ s

keeps_text : from_utf8_lossy (codes "online") ≡ codes "online"
unfolding from_utf8_lossy
keeps_text = refl

keeps_euro : from_utf8_lossy (0xe2 ∷ 0x82 ∷ 0xac ∷ []) ≡ 0xe2 ∷ 0x82 ∷ 0xac ∷ []
unfolding from_utf8_lossy
keeps_euro = refl

replaces_broken :
    from_utf8_lossy (0xe2 ∷ 0x82 ∷ b'a' ∷ 0xff ∷ [])
    ≡ 0xef ∷ 0xbf ∷ 0xbd ∷ b'a' ∷ 0xef ∷ 0xbf ∷ 0xbd ∷ []
unfolding from_utf8_lossy
replaces_broken = refl
