-- ===== src/Server/Frames.antt =====
-- `read_bounded_frame` against the byte stream, and against the clients' `read_frame`.
use hwatu.Common.{
  ℕ, zero, suc, ◌+◌, ◌-◌, ◌≤◌, ◌<◌, ◌≡◌, refl, sym, ap, ◌∙◌, List, [], ◌∷◌, ◌++◌, Option, none,
  some, Result, ok, err, ltb, leb, length, take, drop, All, arith, append_assoc, append-nil,
  length-append, length-take, Bool-cases, Option-cases, inl, inr,
}
use hwatu.Ipc.Frame.{
  Bytes, newline, FrameError, unexpected_eof, invalid_data, other, Fill, chunk, failure, position,
  consume,
}
use hwatu.Ipc.Frame.Stream.{
  IsChunk, stream, first_line, first_line-some, first_line_long, position-append_some,
  position_past, take-append_le, position-lt,
}
use hwatu.Ipc.Frame.RoundTrip.{take-newline-drop_append, stream-consume, consume-IsChunk}
use hwatu.Server.{
  ready, need_more, too_large, FrameReadError, frame_too_large, truncated, io, take_frame,
  ReadOutcome, at_end, request_size, read_rounds, read_bounded_frame,
}

-- The clients' name of a failure.
abbrev pub as_client : Result FrameReadError (Option Bytes) → Result FrameError (Option Bytes)
as_client (ok line) = ok line
as_client (err frame_too_large) = err invalid_data
as_client (err truncated) = err unexpected_eof
as_client (err io) = err (other 0)

-- Behind a line that was returned are the bytes that follow its newline.
abbrev pub IsLeft : Bytes → Result FrameReadError (Option Bytes) → Bytes → Type 0
IsLeft whole (ok (some line)) rest = whole ≡ line ++ newline ∷ rest
IsLeft whole (ok none) rest = Unit
IsLeft whole (err e) rest = Unit

-- What a call owes: the first line of the bytes on hand and to come, and behind a line that is
-- returned exactly the bytes that follow its newline.
pub record IsFirstLine (max_bytes : ℕ) (whole : Bytes) (out : ReadOutcome) : Type 0 where
  pub told : as_client out.0 ≡ first_line max_bytes whole
  pub left : IsLeft whole out.0 (out.1 ++ stream out.2)
  pub served : All IsChunk out.2

take++drop : (n : ℕ) (s : Bytes) → take n s ++ drop n s ≡ s
take++drop zero s = refl
take++drop (suc n) [] = refl
take++drop (suc n) (b ∷ bs) = ap (λ x. b ∷ x) (take++drop n bs)

-- A read moves bytes from the socket to the buffer.
moved :
    (n : ℕ) (buffer bs : Bytes) (later : List Fill)
    → (buffer ++ take n bs) ++ stream (consume bs n later) ≡ buffer ++ (bs ++ stream later)
moved n buffer bs later =
    append_assoc buffer (take n bs) (stream (consume bs n later))
    ∙ ap (λ x. buffer ++ x)
        (rw (stream-consume bs n later) (
          sym (append_assoc (take n bs) (drop n bs) (stream later))
          ∙ ap (λ x. x ++ stream later) (take++drop n bs)))

-- The ends of a call, on each of its branches.
module _ (max_bytes : ℕ) (pos : 0 < max_bytes) (buffer : Bytes) (input : List Fill)
    (served : All IsChunk input) where
  ends_line :
      (k : ℕ)
      → position buffer ≡ some k
      → k + 1 ≤ max_bytes
      → IsFirstLine max_bytes
          (buffer ++ stream input)
          (ok (some (take k buffer)), drop (k + 1) buffer, input)
  ends_line k e fits = record {
    told = sym (
        first_line-some max_bytes _ k (position-append_some buffer (stream input) k e)
        ∙ rw (take-append_le buffer (stream input) k (omega (arith, position-lt buffer k e)))
            (ground arith));
    left = sym (take-newline-drop_append buffer (stream input) k e);
    served = served;
  }

  ends_long :
      (k : ℕ)
      → position buffer ≡ some k
      → max_bytes < k + 1
      → IsFirstLine max_bytes (buffer ++ stream input) (err frame_too_large, buffer, input)
  ends_long k e long = record {
    told = sym (
        first_line-some max_bytes _ k (position-append_some buffer (stream input) k e)
        ∙ ground arith);
    left = tt;
    served = served;
  }

  ends_full :
      position buffer ≡ none
      → max_bytes ≤ length buffer
      → IsFirstLine max_bytes (buffer ++ stream input) (err frame_too_large, buffer, input)
  ends_full e full = record {
    told = sym (
        first_line_long max_bytes _ (omega (arith, length-append buffer (stream input)))
          (omega (arith, length-append buffer (stream input)))
          (λ k h. omega (arith, position_past buffer (stream input) k e h)));
    left = tt;
    served = served;
  }

ends_eof :
    (max_bytes : ℕ) (buffer : Bytes)
    → position buffer ≡ none
    → length buffer < max_bytes
    → IsFirstLine max_bytes (buffer ++ []) (at_end buffer, buffer, [])
unfolding first_line
ends_eof max_bytes [] e room = record { told = refl; left = tt; served = tt }
ends_eof max_bytes (b ∷ bs) e room =
    rw append-nil (record { told = rw (e, first_line) (ground arith); left = tt; served = tt })

-- One round, on each of its branches.
module _ (max_bytes : ℕ) (buffer : Bytes) where
  taken_line :
      (k : ℕ)
      → position buffer ≡ some k
      → k + 1 ≤ max_bytes
      → take_frame buffer max_bytes ≡ (ready (take k buffer), drop (k + 1) buffer)
  unfolding take_frame
  taken_line k e fits = rw (e, take_frame) (ground arith)

  taken_long :
      (k : ℕ)
      → position buffer ≡ some k
      → max_bytes < k + 1
      → take_frame buffer max_bytes ≡ (too_large, buffer)
  unfolding take_frame
  taken_long k e long = rw (e, take_frame) (ground arith)

  taken_full :
      position buffer ≡ none
      → max_bytes ≤ length buffer
      → take_frame buffer max_bytes ≡ (too_large, buffer)
  unfolding take_frame
  taken_full e full = rw (e, take_frame) (ground arith)

  taken_none :
      position buffer ≡ none
      → length buffer < max_bytes
      → take_frame buffer max_bytes ≡ (need_more, buffer)
  unfolding take_frame
  taken_none e room = rw (e, take_frame) (ground arith)

module _ (fuel max_bytes : ℕ) (buffer : Bytes) (input : List Fill) where
  round_line :
      (k : ℕ)
      → position buffer ≡ some k
      → k + 1 ≤ max_bytes
      → read_rounds (suc fuel) max_bytes buffer input
        ≡ (ok (some (take k buffer)), drop (k + 1) buffer, input)
  unfolding read_rounds
  round_line k e fits =
      rw (taken_line max_bytes buffer k e fits, read_rounds)
        (rw (taken_line max_bytes buffer k e fits) refl)

  round_long :
      (k : ℕ)
      → position buffer ≡ some k
      → max_bytes < k + 1
      → read_rounds (suc fuel) max_bytes buffer input ≡ (err frame_too_large, buffer, input)
  unfolding read_rounds
  round_long k e long =
      rw (taken_long max_bytes buffer k e long, read_rounds)
        (rw (taken_long max_bytes buffer k e long) refl)

  round_full :
      position buffer ≡ none
      → max_bytes ≤ length buffer
      → read_rounds (suc fuel) max_bytes buffer input ≡ (err frame_too_large, buffer, input)
  unfolding read_rounds
  round_full e full =
      rw (taken_full max_bytes buffer e full, read_rounds)
        (rw (taken_full max_bytes buffer e full) refl)

module _ (fuel max_bytes : ℕ) (buffer : Bytes) (e : position buffer ≡ none)
    (room : length buffer < max_bytes) where
  round_eof : read_rounds (suc fuel) max_bytes buffer [] ≡ (at_end buffer, buffer, [])
  unfolding read_rounds
  round_eof = rw (taken_none max_bytes buffer e room, read_rounds) refl

  round_more :
      (b : ℕ) (bs : Bytes) (later : List Fill)
      → read_rounds (suc fuel) max_bytes buffer (chunk (b ∷ bs) ∷ later)
        ≡ read_rounds fuel max_bytes
            (buffer ++ take (request_size max_bytes buffer) (b ∷ bs))
            (consume (b ∷ bs) (request_size max_bytes buffer) later)
  unfolding read_rounds
  round_more b bs later = rw (taken_none max_bytes buffer e room, read_rounds) refl

-- A round that reads, where the later rounds do what they owe.
reads-IsFirstLine :
    (fuel max_bytes : ℕ) (buffer : Bytes) (input : List Fill)
    → max_bytes - length buffer < suc fuel
    → All IsChunk input
    → position buffer ≡ none
    → length buffer < max_bytes
    → ((buffer' : Bytes) (input' : List Fill)
        → max_bytes - length buffer' < fuel
        → All IsChunk input'
        → IsFirstLine max_bytes
            (buffer' ++ stream input')
            (read_rounds fuel max_bytes buffer' input'))
    → IsFirstLine max_bytes (buffer ++ stream input) (read_rounds (suc fuel) max_bytes buffer input)
reads-IsFirstLine fuel max_bytes buffer [] enough served e room go =
    rw (round_eof fuel max_bytes buffer e room) (ends_eof max_bytes buffer e room)
reads-IsFirstLine fuel max_bytes buffer (failure _ ∷ later) enough served e room go =
    absurd served.0
reads-IsFirstLine fuel max_bytes buffer (chunk [] ∷ later) enough served e room go = absurd served.0
reads-IsFirstLine fuel max_bytes buffer (chunk (b ∷ bs) ∷ later) enough served e room go =
    let n = request_size max_bytes buffer in
    rw (round_more fuel max_bytes buffer e room b bs later) (
      rw (← moved n buffer (b ∷ bs) later) (
        go (buffer ++ take n (b ∷ bs)) (consume (b ∷ bs) n later)
          (ground (arith, length-append buffer (take n (b ∷ bs)), length-take n (b ∷ bs)))
          (consume-IsChunk (b ∷ bs) n later served.1)))

read_rounds-IsFirstLine :
    (fuel max_bytes : ℕ) (buffer : Bytes) (input : List Fill)
    → 0 < max_bytes
    → max_bytes - length buffer < fuel
    → All IsChunk input
    → IsFirstLine max_bytes (buffer ++ stream input) (read_rounds fuel max_bytes buffer input)
read_rounds-IsFirstLine zero max_bytes buffer input pos enough served = absurd (omega arith)
read_rounds-IsFirstLine (suc fuel) max_bytes buffer input pos enough served =
    elim (Option-cases (position buffer)) [
      | inr (k, e) ↦ elim (Bool-cases (ltb max_bytes (k + 1))) [
        | inl long ↦
            rw (round_long fuel max_bytes buffer input k e (ground arith))
              (ends_long max_bytes pos buffer input served k e (ground arith))
        | inr fits ↦
            rw (round_line fuel max_bytes buffer input k e (ground arith))
              (ends_line max_bytes pos buffer input served k e (ground arith))
      ]
      | inl e ↦ elim (Bool-cases (leb max_bytes (length buffer))) [
        | inl full ↦
            rw (round_full fuel max_bytes buffer input e (ground arith))
              (ends_full max_bytes pos buffer input served e (ground arith))
        | inr room ↦
            reads-IsFirstLine fuel max_bytes buffer input enough served e (ground arith)
              (λ buffer' input' h c. read_rounds-IsFirstLine fuel max_bytes buffer' input' pos h c)
      ]
    ]

-- However the bytes arrive in non-empty chunks, a read of the daemon returns what the bytes in its
-- buffer and those still to arrive determine as one stream: its first line, if that and its newline
-- fit in the limit, and then buffer and socket hold exactly the bytes that follow; nothing on an
-- empty stream; a truncated frame on an unfinished line shorter than the limit; and a frame that is
-- too large otherwise. The limit is positive.
pub read_bounded_frame-IsFirstLine :
    (buffer : Bytes) (input : List Fill) (max_bytes : ℕ)
    → 0 < max_bytes
    → All IsChunk input
    → IsFirstLine max_bytes (buffer ++ stream input) (read_bounded_frame buffer input max_bytes)
unfolding read_bounded_frame
read_bounded_frame-IsFirstLine buffer input max_bytes pos served =
    read_rounds-IsFirstLine (suc (max_bytes - length buffer)) max_bytes buffer input pos
      (omega arith) served
