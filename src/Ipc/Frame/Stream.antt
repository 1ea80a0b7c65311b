-- ===== src/Ipc/Frame/Stream.antt =====
-- `read_frame` against a description of the byte stream that knows nothing of chunks.
use hwatu.Common.{
  ℕ, zero, suc, ◌+◌, ◌≤◌, ◌<◌, ◌≡◌, refl, sym, ◌∙◌, List, [], ◌∷◌, ◌++◌, Option, none, some, Result,
  ok, err, ltb, leb, if◌then◌else◌, length, take, drop, is_empty, All, arith, append_assoc,
  append-nil, ◌⊎◌, length-append, Bool-cases, Option-cases, inl, inr,
}
use native.Mathlib.Nat.{suc-add}
use hwatu.Ipc.Frame.{
  Bytes, newline, usize_max, FrameError, unexpected_eof, invalid_data, Fill, chunk, failure,
  position, consume, at_eof, read_from, read_frame,
}

-- A reader that never fails and shows no empty chunk before its end.
abbrev pub IsChunk : Fill → Type 0
IsChunk (chunk []) = ⊥
IsChunk (chunk (b ∷ bs)) = Unit
IsChunk (failure e) = ⊥

-- The bytes that a reader gives in all.
abbrev pub stream : List Fill → Bytes
stream [] = []
stream (chunk bs ∷ later) = bs ++ stream later
stream (failure e ∷ later) = []

-- The first line of a whole stream, if it fits with its newline in `max_bytes`.
unfoldable pub first_line : ℕ → Bytes → Result FrameError (Option Bytes)
first_line max_bytes s = elim (position s) [
  | some k ↦ if ltb max_bytes (k + 1) then err invalid_data else ok (some (take k s))
  | none ↦
      if is_empty s
      then ok none
      else if leb max_bytes (length s)
      then err invalid_data
      else err unexpected_eof
]

abbrev pub shift : ℕ → Option ℕ → Option ℕ
shift n none = none
shift n (some k) = some (n + k)

pub position-append :
    (f s : Bytes) → position f ≡ none → position (f ++ s) ≡ shift (length f) (position s)
position-append [] s h = ground arith
position-append (b ∷ bs) s h = ground (arith, position-append bs s)

pub take-append : (f s : Bytes) (k : ℕ) → take (length f + k) (f ++ s) ≡ f ++ take k s
take-append [] s k = ground arith
take-append (b ∷ bs) s k = rw suc-add (rw (take-append bs s k))

pub position-append_some : (f s : Bytes) (k : ℕ) → position f ≡ some k → position (f ++ s) ≡ some k
position-append_some [] s k h = ground arith
position-append_some (b ∷ bs) s zero h = ground arith
position-append_some (b ∷ bs) s (suc k) h = ground (arith, position-append_some bs s k)

pub position-lt : (s : Bytes) (k : ℕ) → position s ≡ some k → k < length s
position-lt [] k h = ground arith
position-lt (b ∷ bs) zero h = omega arith
position-lt (b ∷ bs) (suc k) h = ground (arith, position-lt bs k)

pub take-append_le : (f s : Bytes) (k : ℕ) → k ≤ length f → take k (f ++ s) ≡ take k f
take-append_le f s zero h = refl
take-append_le [] s (suc k) h = absurd (omega arith)
take-append_le (b ∷ bs) s (suc k) h = rw (take-append_le bs s k (omega arith))

-- A line holds no newline, and the stream goes on behind its newline.
take-position-none : (s : Bytes) (k : ℕ) → position s ≡ some k → position (take k s) ≡ none
take-position-none [] k h = ground arith
take-position-none (b ∷ bs) zero h = refl
take-position-none (b ∷ bs) (suc k) h = ground (arith, take-position-none bs k)

pub take-newline-drop :
    (s : Bytes) (k : ℕ) → position s ≡ some k → take k s ++ newline ∷ drop (suc k) s ≡ s
take-newline-drop [] k h = ground arith
take-newline-drop (b ∷ bs) zero h = ground arith
take-newline-drop (b ∷ bs) (suc k) h = ground (arith, take-newline-drop bs k)

abbrev IsShort : ℕ → Bytes → Type 0
IsShort max_bytes frame = (length frame < max_bytes) ⊎ (frame ≡ [])

pub first_line-some :
    (max_bytes : ℕ) (s : Bytes) (k : ℕ)
    → position s ≡ some k
    → first_line max_bytes s
      ≡ (if ltb max_bytes (k + 1) then err invalid_data else ok (some (take k s)))
unfolding first_line
first_line-some max_bytes s k h = rw (h, first_line)

pub first_line_long :
    (max_bytes : ℕ) (s : Bytes)
    → 0 < length s
    → max_bytes ≤ length s
    → ((k : ℕ) → position s ≡ some k → max_bytes ≤ k)
    → first_line max_bytes s ≡ err invalid_data
unfolding first_line
first_line_long max_bytes s pos long far = elim (Option-cases (position s)) [
  | inl e ↦ rw (e, first_line) (ground arith)
  | inr (k, e) ↦ rw (e, first_line) (ground (arith, far k e))
]

-- One round of the loop, on each of its branches.
module _ (max_bytes : ℕ) (word : max_bytes < usize_max) (frame : Bytes) (b : ℕ) (bs : Bytes)
    (later : List Fill) where
  read_from_more :
      position (b ∷ bs) ≡ none
      → length frame + length (b ∷ bs) < max_bytes
      → read_from max_bytes frame (chunk (b ∷ bs) ∷ later)
        ≡ read_from max_bytes (frame ++ b ∷ bs) later
  unfolding read_from
  read_from_more e h = rw (e, read_from) (ground arith)

  read_from_full :
      position (b ∷ bs) ≡ none
      → max_bytes ≤ length frame + length (b ∷ bs)
      → (read_from max_bytes frame (chunk (b ∷ bs) ∷ later)).0 ≡ err invalid_data
  unfolding read_from
  read_from_full e h = rw (e, read_from) (ground arith)

  read_from_long :
      (k : ℕ)
      → position (b ∷ bs) ≡ some k
      → max_bytes < length frame + (k + 1)
      → (read_from max_bytes frame (chunk (b ∷ bs) ∷ later)).0 ≡ err invalid_data
  unfolding read_from
  read_from_long k e h = rw (e, read_from) (ground arith)

  read_from_line :
      (k : ℕ)
      → position (b ∷ bs) ≡ some k
      → length frame + (k + 1) ≤ max_bytes
      → read_from max_bytes frame (chunk (b ∷ bs) ∷ later)
        ≡ (ok (some (frame ++ take k (b ∷ bs))), consume (b ∷ bs) (k + 1) later)
  unfolding read_from
  read_from_line k e h = rw (e, read_from) (ground arith)

pub position-append_none :
    (f s : Bytes) → position f ≡ none → position s ≡ none → position (f ++ s) ≡ none
position-append_none f s hf hs = rw (position-append f s hf) (rw hs)

-- Past a prefix with no newline, the first newline of the stream is that of the rest.
pub position_past :
    (f s : Bytes) (k : ℕ) → position f ≡ none → position (f ++ s) ≡ some k → length f ≤ k
position_past f s k hf h = elim (Option-cases (position s)) [
  | inl e ↦ cc (position-append f s hf, e)
  | inr (j, e) ↦ ground (arith, position-append f s hf, e)
]

pub first_line_eof :
    (max_bytes : ℕ) (frame : Bytes)
    → position frame ≡ none
    → IsShort max_bytes frame
    → at_eof frame ≡ first_line max_bytes frame
unfolding first_line
first_line_eof max_bytes [] nf short = refl
first_line_eof max_bytes (b ∷ bs) nf (inl short) = rw (nf, first_line) (ground arith)
first_line_eof max_bytes (b ∷ bs) nf (inr e) = cc

module _ (max_bytes : ℕ) (word : max_bytes < usize_max) (frame : Bytes) (b : ℕ) (bs : Bytes)
    (later : List Fill) (nf : position frame ≡ none) where
  abbrev whole : Bytes
  whole = frame ++ ((b ∷ bs) ++ stream later)

  length-whole : length frame + length (b ∷ bs) ≤ length whole
  length-whole =
      omega (
        arith,
        length-append frame ((b ∷ bs) ++ stream later),
        length-append (b ∷ bs) (stream later),
      )

  read_from-full :
      position (b ∷ bs) ≡ none
      → max_bytes ≤ length frame + length (b ∷ bs)
      → (read_from max_bytes frame (chunk (b ∷ bs) ∷ later)).0 ≡ first_line max_bytes whole
  read_from-full e full =
      read_from_full max_bytes word frame b bs later e full
      ∙ sym (
          first_line_long max_bytes whole (omega (arith, length-whole))
            (omega (arith, length-whole)) far)
    where
      far : (k : ℕ) → position whole ≡ some k → max_bytes ≤ k
      far k h = omega (
        arith,
        length-append frame (b ∷ bs),
        position_past (frame ++ b ∷ bs) (stream later) k (position-append_none frame (b ∷ bs) nf e)
            (rw (append_assoc frame (b ∷ bs) (stream later)) h),
      )

  position-whole : (k : ℕ) → position (b ∷ bs) ≡ some k → position whole ≡ some (length frame + k)
  position-whole k e =
      rw (position-append frame ((b ∷ bs) ++ stream later) nf)
        (rw (position-append_some (b ∷ bs) (stream later) k e))

  take-whole :
      (k : ℕ)
      → position (b ∷ bs) ≡ some k
      → take (length frame + k) whole ≡ frame ++ take k (b ∷ bs)
  take-whole k e =
      rw (take-append frame ((b ∷ bs) ++ stream later) k)
        (rw (take-append_le (b ∷ bs) (stream later) k (omega (arith, position-lt (b ∷ bs) k e))))

  read_from-line :
      (k : ℕ)
      → position (b ∷ bs) ≡ some k
      → (read_from max_bytes frame (chunk (b ∷ bs) ∷ later)).0 ≡ first_line max_bytes whole
  read_from-line k e =
      let first = first_line-some max_bytes whole (length frame + k) (position-whole k e) in
      elim (Bool-cases (ltb max_bytes (length frame + k + 1))) [
        | inl long ↦
            read_from_long max_bytes word frame b bs later k e (ground arith)
            ∙ sym (first ∙ rw long)
        | inr fits ↦
            rw (read_from_line max_bytes word frame b bs later k e (ground arith))
              (rw first (rw fits (rw (take-whole k e))))
      ]

-- On every way to cut a stream into chunks the loop gives what the whole stream says.
read_from-first_line :
    (max_bytes : ℕ) (frame : Bytes) (reader : List Fill)
    → max_bytes < usize_max
    → All IsChunk reader
    → position frame ≡ none
    → IsShort max_bytes frame
    → (read_from max_bytes frame reader).0 ≡ first_line max_bytes (frame ++ stream reader)
read_from-first_line max_bytes frame [] word c nf short =
    rw append-nil (unfold read_from in first_line_eof max_bytes frame nf short)
read_from-first_line max_bytes frame (failure e ∷ later) word c nf short = absurd c.0
read_from-first_line max_bytes frame (chunk [] ∷ later) word c nf short = absurd c.0
read_from-first_line max_bytes frame (chunk (b ∷ bs) ∷ later) word c nf short =
    elim (Option-cases (position (b ∷ bs))) [
      | inl e ↦ elim (Bool-cases (leb max_bytes (length frame + length (b ∷ bs)))) [
        | inl full ↦ read_from-full max_bytes word frame b bs later nf e (ground arith)
        | inr room ↦ rw (read_from_more max_bytes word frame b bs later e (ground arith)) (
            rw (← append_assoc frame (b ∷ bs) (stream later)) (
              read_from-first_line max_bytes (frame ++ b ∷ bs) later word c.1
                (position-append_none frame (b ∷ bs) nf e)
                (inl (ground (arith, length-append frame (b ∷ bs))))))
      ]
      | inr (k, e) ↦ read_from-line max_bytes word frame b bs later nf k e
    ]

-- However the bytes arrive in non-empty chunks, with no I/O error and a limit below 2 ^ 64 - 1,
-- `read_frame` returns what the whole stream determines: its first line, if that and its newline
-- fit in the limit; `None` on an empty stream; an unexpected end of file on an unfinished line
-- shorter than the limit; and invalid data on any longer line.
pub read_frame-eq-first_line :
    (reader : List Fill) (max_bytes : ℕ)
    → max_bytes < usize_max
    → All IsChunk reader
    → (read_frame reader max_bytes).0 ≡ first_line max_bytes (stream reader)
unfolding read_frame
read_frame-eq-first_line reader max_bytes word c =
    read_from-first_line max_bytes [] reader word c refl (inr refl)
