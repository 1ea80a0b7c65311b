-- ===== src/Server.antt =====
-- `FrameBuffer::take` and `read_bounded_frame` of crates/hwatud/src/ipc_server.rs. The socket is the
-- list of what arrives on it; a read takes at most as many bytes as it asks for.
pub mod Frames
pub mod Connection
pub mod Permits
mod Tests
use hwatu.Common.{
  ℕ, zero, suc, ◌+◌, ◌*◌, ◌-◌, min, List, [], ◌∷◌, ◌++◌, Bool, true, false, Option, none, some,
  Result, ok, err, ltb, leb, if◌then◌else◌, length, take, drop, is_empty,
}
use hwatu.Ipc.Frame.{Bytes, Fill, chunk, failure, position, consume}

abbrev pub read_chunk_bytes : ℕ
read_chunk_bytes = 8 * 1024

-- `BufferedFrame`.
pub data BufferedFrame : Type 0 where
  ready : Bytes → BufferedFrame
  need_more too_large : BufferedFrame

-- `FrameReadError`.
pub data FrameReadError : Type 0 where
  frame_too_large truncated io : FrameReadError

-- `FrameBuffer::take`, with the buffer it leaves.
unfoldable pub take_frame : Bytes → ℕ → BufferedFrame × Bytes
take_frame buffer max_bytes = elim (position buffer) [
  | some k ↦
      if ltb max_bytes (k + 1)
      then (too_large, buffer)
      else (ready (take k buffer), drop (k + 1) buffer)
  | none ↦ if leb max_bytes (length buffer) then (too_large, buffer) else (need_more, buffer)
]

-- What `read_bounded_frame` calls back with: the result, the buffer and what is still to arrive.
abbrev pub ReadOutcome : Type 0
ReadOutcome = Result FrameReadError (Option Bytes) × Bytes × List Fill

abbrev pub at_end : Bytes → Result FrameReadError (Option Bytes)
at_end buffer = if is_empty buffer then ok none else err truncated

-- How many bytes are asked for.
abbrev pub request_size : ℕ → Bytes → ℕ
request_size max_bytes buffer = min (max_bytes - length buffer) read_chunk_bytes

-- The rounds of `read_bounded_frame`; each that goes on has put a byte into the buffer.
read_rounds : ℕ → ℕ → Bytes → List Fill → ReadOutcome
unfolding take_frame
read_rounds zero max_bytes buffer input = (err io, buffer, input)
read_rounds (suc fuel) max_bytes buffer input =
    let (taken, left) = take_frame buffer max_bytes in
    elim taken [
      | ready frame ↦ (ok (some frame), left, input)
      | too_large ↦ (err frame_too_large, left, input)
      | need_more ↦ elim input [
        | [] ↦ (at_end buffer, buffer, [])
        | failure e ∷ later ↦ (err io, buffer, later)
        | chunk [] ∷ later ↦ (at_end buffer, buffer, chunk [] ∷ later)
        | chunk (b ∷ bs) ∷ later ↦
            let n = request_size max_bytes buffer in
            read_rounds fuel max_bytes (buffer ++ take n (b ∷ bs)) (consume (b ∷ bs) n later)
      ]
    ]

-- The fuel is one more than the bytes that the buffer has room for.
unfoldable pub read_bounded_frame : Bytes → List Fill → ℕ → ReadOutcome
unfolding read_rounds
read_bounded_frame buffer input max_bytes =
    read_rounds (suc (max_bytes - length buffer)) max_bytes buffer input
