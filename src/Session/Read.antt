-- ===== src/Session/Read.antt =====
-- src/session/recorder.rs, `read_all`: parse a whole recording. `rest` is `bytes[pos..]`, so that
-- `pos + 4 <= bytes.len()` is "four bytes are left" and `end <= bytes.len()` is "`len` are left".
use olivaw_hub.Prelude.{
  ℕ, zero, suc, ◌+◌, ◌*◌, true, false, none, some, List, [], ◌∷◌, ◌++◌, leb, length, take, drop,
}
use olivaw_hub.Text.{Bytes}
use olivaw_hub.External.{Types}
use olivaw_hub.Ingest.{CarEvent}
use olivaw_hub.Postcard.{Postcard}

pub data ReadResult (t : Types) : Type 0 where
  events : List (CarEvent t) → ReadResult t
  bad_record : ReadResult t
  out_of_fuel : ReadResult t

-- `u32::from_le_bytes`.
unfoldable pub from_le_bytes : ℕ → ℕ → ℕ → ℕ → ℕ
from_le_bytes a b c d = a + 256 * b + 65536 * c + 16777216 * d

module _ {t : Types} (p : Postcard t) where
  -- Each round takes four bytes at least.
  unfoldable pub read_loop : ℕ → List (CarEvent t) → Bytes → ReadResult t
  read_loop zero done rest = out_of_fuel
  read_loop (suc f) done (a ∷ b ∷ c ∷ d ∷ rest) =
      let len = from_le_bytes a b c d in
      elim (leb len (length rest)) [
        | false ↦ events done
        | true ↦ elim (Postcard.from_bytes p (take len rest)) [
          | none ↦ bad_record
          | some e ↦ read_loop f (done ++ e ∷ []) (drop len rest)
        ]
      ]
  read_loop (suc f) done _ = events done

  unfoldable pub read_all : Bytes → ReadResult t
  unfolding read_loop from_le_bytes
  read_all bytes = read_loop (suc (length bytes)) [] bytes
