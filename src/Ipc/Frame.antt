-- ===== src/Ipc/Frame.antt =====
-- Newline-delimited frames and authentication tokens of crates/ipc/src/lib.rs (`encode_frame`,
-- `read_frame`, `validate_token`). A `BufRead` is the list of what its `fill_buf` calls will give:
-- a chunk of bytes or an error; past the end of the list it is at end of file.
pub mod Stream
pub mod RoundTrip
use hwatu.Common.{
  ℕ, zero, suc, ◌+◌, ◌*◌, ◌-◌, ◌^◌, min, List, [], ◌∷◌, ◌++◌, Bool, true, false, Option, none, some,
  Result, ok, err, ltb, leb, ◌==◌, if◌then◌else◌, length, take, drop, is_empty,
}

abbrev pub Bytes : Type 0
Bytes = List ℕ

abbrev pub max_frame_bytes : ℕ
max_frame_bytes = 32 * 1024 * 1024

abbrev pub usize_max : ℕ
usize_max = 2 ^ 64 - 1

-- `usize::saturating_add`.
abbrev pub saturating_add : ℕ → ℕ → ℕ
saturating_add a b = min (a + b) usize_max

abbrev pub newline : ℕ
newline = 10

-- `io::ErrorKind` of what `read_frame` returns; `other` passes on an error of `fill_buf`.
pub data FrameError : Type 0 where
  unexpected_eof invalid_data : FrameError
  other : ℕ → FrameError

-- The error text of `encode_frame` is not modelled, only which failure it is.
pub data EncodeError : Type 0 where
  unserializable : EncodeError
  too_long : ℕ → ℕ → EncodeError

-- `to_vec` is serde_json's serializer. `checked_add` overflows past `usize_max`.
unfoldable pub encode_frame {ℓ} :
    {T : Type ℓ} → (T → Option Bytes) → T → ℕ → Result EncodeError Bytes
encode_frame to_vec value max_bytes = elim (to_vec value) [
  | none ↦ err unserializable
  | some frame ↦
      if ltb usize_max (length frame + 1)
      then err (too_long (saturating_add (length frame) 1) max_bytes)
      else if ltb max_bytes (length frame + 1)
      then err (too_long (saturating_add (length frame) 1) max_bytes)
      else ok (frame ++ newline ∷ [])
]

pub data Fill : Type 0 where
  chunk : Bytes → Fill
  failure : ℕ → Fill

-- `iter().position(|byte| *byte == b'\n')`.
abbrev pub position : Bytes → Option ℕ
position [] = none
position (b ∷ bs) =
    let rest = position bs in
    if b == newline then some 0 else elim rest [ none ↦ none | some k ↦ some (suc k) ]

-- `consume(n)` of the chunk that `fill_buf` showed; a chunk that is used up is gone.
abbrev pub consume : Bytes → ℕ → List Fill → List Fill
consume available n later =
    let left = drop n available in if is_empty left then later else chunk left ∷ later

abbrev pub at_eof : Bytes → Result FrameError (Option Bytes)
at_eof frame = if is_empty frame then ok none else err unexpected_eof

-- The loop of `read_frame`: `frame` is what earlier rounds have gathered.
read_from : ℕ → Bytes → List Fill → Result FrameError (Option Bytes) × List Fill
read_from max_bytes frame [] = (at_eof frame, [])
read_from max_bytes frame (failure e ∷ later) = (err (other e), later)
read_from max_bytes frame (chunk [] ∷ later) = (at_eof frame, chunk [] ∷ later)
read_from max_bytes frame (chunk (b ∷ bs) ∷ later) =
    let available : Bytes = b ∷ bs in
    elim (position available) [
      | some k ↦
          if ltb max_bytes (saturating_add (length frame) (k + 1))
          then (err invalid_data, chunk available ∷ later)
          else (ok (some (frame ++ take k available)), consume available (k + 1) later)
      | none ↦
          let rest = read_from max_bytes (frame ++ available) later in
          if leb max_bytes (saturating_add (length frame) (length available))
          then (err invalid_data, chunk available ∷ later)
          else rest
    ]

unfoldable pub read_frame : List Fill → ℕ → Result FrameError (Option Bytes) × List Fill
unfolding read_from
read_frame reader max_bytes = read_from max_bytes [] reader
