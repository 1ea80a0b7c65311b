-- ===== src/Ipc/Frame/RoundTrip.antt =====
-- What `encode_frame` writes, `read_frame` reads back, and leaves the rest of the stream.
use hwatu.Common.{
  ℕ, suc, ◌+◌, ◌≤◌, ◌<◌, ◌≡◌, sym, ap, ◌∙◌, List, [], ◌∷◌, ◌++◌, Option, none, some, ok, err,
  length, take, drop, All, arith, append_assoc, append-nil, Option-cases, inl, inr,
}
use native.Mathlib.Numerals.{add-one}
use hwatu.Ipc.Frame.{
  Bytes, newline, usize_max, invalid_data, EncodeError, encode_frame, Fill, chunk, failure,
  position, consume, read_from, read_frame,
}
use hwatu.Ipc.Frame.Stream.{
  IsChunk, stream, first_line, first_line-some, take-newline-drop, position-append, take-append,
  read_frame-eq-first_line,
}

pub stream-consume :
    (available : Bytes) (n : ℕ) (later : List Fill)
    → stream (consume available n later) ≡ drop n available ++ stream later
stream-consume available n later = ground arith

pub consume-IsChunk :
    (available : Bytes) (n : ℕ) (later : List Fill)
    → All IsChunk later
    → All IsChunk (consume available n later)
consume-IsChunk available n later h = ground arith

pub take-newline-drop_append :
    (s later : Bytes) (k : ℕ)
    → position s ≡ some k
    → take k s ++ newline ∷ (drop (k + 1) s ++ later) ≡ s ++ later
take-newline-drop_append s later k e = rw add-one (
    sym (append_assoc (take k s) (newline ∷ drop (suc k) s) later)
    ∙ ap (λ x. x ++ later) (take-newline-drop s k e))

module _ (max_bytes : ℕ) (frame f : Bytes) (b : ℕ) (bs : Bytes) (later rest : List Fill)
    (h : read_from max_bytes frame (chunk (b ∷ bs) ∷ later) ≡ (ok (some f), rest)) where
  read_from_more_inv :
      position (b ∷ bs) ≡ none → read_from max_bytes (frame ++ b ∷ bs) later ≡ (ok (some f), rest)
  unfolding read_from
  read_from_more_inv e = ground arith

  read_from_line_inv :
      (k : ℕ)
      → position (b ∷ bs) ≡ some k
      → (f ≡ frame ++ take k (b ∷ bs)) × (rest ≡ consume (b ∷ bs) (k + 1) later)
  unfolding read_from
  read_from_line_inv k e = ground arith

-- A line that was returned stood, with its newline, in front of what the reader still holds.
read_from_rest :
    (max_bytes : ℕ) (frame f : Bytes) (reader rest : List Fill)
    → All IsChunk reader
    → read_from max_bytes frame reader ≡ (ok (some f), rest)
    → (frame ++ stream reader ≡ f ++ newline ∷ stream rest) × All IsChunk rest
unfolding read_from
read_from_rest max_bytes frame f [] rest c h = ground arith
read_from_rest max_bytes frame f (failure e ∷ later) rest c h = absurd c.0
read_from_rest max_bytes frame f (chunk [] ∷ later) rest c h = absurd c.0
read_from_rest max_bytes frame f (chunk (b ∷ bs) ∷ later) rest c h =
    elim (Option-cases (position (b ∷ bs))) [
      | inl e ↦ rw (← append_assoc frame (b ∷ bs) (stream later)) (
          read_from_rest max_bytes (frame ++ b ∷ bs) f later rest c.1
            (read_from_more_inv max_bytes frame f b bs later rest h e))
      | inr (k, e) ↦
          let (line, left) = read_from_line_inv max_bytes frame f b bs later rest h k e in
          rw (line, left)
            (
              rw (stream-consume (b ∷ bs) (k + 1) later, append_assoc)
                  (ap (λ x. frame ++ x)
                    (sym (take-newline-drop_append (b ∷ bs) (stream later) k e))),
              consume-IsChunk (b ∷ bs) (k + 1) later c.1,
            )
    ]

read_frame_rest :
    (f : Bytes) (reader : List Fill) (max_bytes : ℕ)
    → All IsChunk reader
    → (read_frame reader max_bytes).0 ≡ ok (some f)
    → (stream reader ≡ f ++ newline ∷ stream (read_frame reader max_bytes).1)
      × All IsChunk (read_frame reader max_bytes).1
unfolding read_frame
read_frame_rest f reader max_bytes c h =
    read_from_rest max_bytes [] f reader (read_from max_bytes [] reader).1 c
      (λ i. (h i, (read_from max_bytes [] reader).1))

position-line : (p s : Bytes) → position p ≡ none → position (p ++ newline ∷ s) ≡ some (length p)
position-line p s h = rw (position-append p (newline ∷ s) h) (ground arith)

take-line : (p s : Bytes) → take (length p) (p ++ newline ∷ s) ≡ p
take-line p s =
    let e : length p ≡ length p + 0 = omega arith in
    rw e (rw (take-append p (newline ∷ s) 0) (append-nil p))

pub first_line-line :
    (max_bytes : ℕ) (p s : Bytes)
    → position p ≡ none
    → length p + 1 ≤ max_bytes
    → first_line max_bytes (p ++ newline ∷ s) ≡ ok (some p)
first_line-line max_bytes p s h fits =
    rw (first_line-some max_bytes (p ++ newline ∷ s) (length p) (position-line p s h))
      (rw (take-line p s) (ground arith))

first_line-line_long :
    (max_bytes : ℕ) (p s : Bytes)
    → position p ≡ none
    → max_bytes < length p + 1
    → first_line max_bytes (p ++ newline ∷ s) ≡ err invalid_data
first_line-line_long max_bytes p s h long =
    rw (first_line-some max_bytes (p ++ newline ∷ s) (length p) (position-line p s h))
      (ground arith)

pub append_cancel : (p s t : Bytes) → p ++ s ≡ p ++ t → s ≡ t
append_cancel [] s t h = h
append_cancel (b ∷ bs) s t h = append_cancel bs s t (cc)

module _ {ℓ} {T : Type ℓ} (to_vec : T → Option Bytes) (value : T) (payload : Bytes) (max_bytes : ℕ)
    (serialized : to_vec value ≡ some payload) where
  encode_frame_inv :
      {wire : Bytes}
      → encode_frame to_vec value max_bytes ≡ ok wire
      → (wire ≡ payload ++ newline ∷ []) × (length payload + 1 ≤ max_bytes)
  unfolding encode_frame
  encode_frame_inv h = ground (arith, serialized)

  encode_frame_err :
      {e : EncodeError}
      → max_bytes < usize_max
      → encode_frame to_vec value max_bytes ≡ err e
      → max_bytes < length payload + 1
  unfolding encode_frame
  encode_frame_err word h = ground (arith, serialized)

-- A frame that `encode_frame` accepts, of a value whose serialization has no newline, is read back
-- by `read_frame` under the same limit (below 2 ^ 64 - 1), however the bytes are cut into non-empty
-- chunks and whatever follows; the reader is left at exactly the bytes that follow.
pub read_frame-encode_frame {ℓ} :
    {T : Type ℓ} (to_vec : T → Option Bytes) (value : T) (payload wire after : Bytes)
    (max_bytes : ℕ) (reader : List Fill)
    → max_bytes < usize_max
    → to_vec value ≡ some payload
    → position payload ≡ none
    → encode_frame to_vec value max_bytes ≡ ok wire
    → All IsChunk reader
    → stream reader ≡ wire ++ after
    → ((read_frame reader max_bytes).0 ≡ ok (some payload))
      × (stream (read_frame reader max_bytes).1 ≡ after)
      × All IsChunk (read_frame reader max_bytes).1
read_frame-encode_frame to_vec value payload wire after max_bytes reader word ser line enc c sent =
    (got, append_cancel (payload ++ newline ∷ []) _ _ (sym rejoin), left.1)
  where
    parts : (wire ≡ payload ++ newline ∷ []) × (length payload + 1 ≤ max_bytes)
    parts = encode_frame_inv to_vec value payload max_bytes ser enc

    whole : stream reader ≡ payload ++ newline ∷ after
    whole = sent ∙ rw parts.0 (append_assoc payload (newline ∷ []) after)

    got : (read_frame reader max_bytes).0 ≡ ok (some payload)
    got =
        read_frame-eq-first_line reader max_bytes word c
        ∙ rw whole (first_line-line max_bytes payload after line parts.1)

    left :
        (stream reader ≡ payload ++ newline ∷ stream (read_frame reader max_bytes).1)
        × All IsChunk (read_frame reader max_bytes).1
    left = read_frame_rest payload reader max_bytes c got

    rejoin :
        (payload ++ newline ∷ []) ++ after
        ≡ (payload ++ newline ∷ []) ++ stream (read_frame reader max_bytes).1
    rejoin = rw (append_assoc payload (newline ∷ []) after) (
        rw (append_assoc payload (newline ∷ []) (stream (read_frame reader max_bytes).1))
          (sym whole ∙ left.0))

-- The two ends agree on the limit: a newline-free value that `encode_frame` refuses would, had it
-- been sent with its newline, be refused by `read_frame` as invalid data under the same limit.
pub read_frame-encode_frame_err {ℓ} :
    {T : Type ℓ} (to_vec : T → Option Bytes) (value : T) (payload after : Bytes) (max_bytes : ℕ)
    (reader : List Fill) {e : EncodeError}
    → max_bytes < usize_max
    → to_vec value ≡ some payload
    → position payload ≡ none
    → encode_frame to_vec value max_bytes ≡ err e
    → All IsChunk reader
    → stream reader ≡ payload ++ newline ∷ after
    → (read_frame reader max_bytes).0 ≡ err invalid_data
read_frame-encode_frame_err to_vec value payload after max_bytes reader word ser line enc c sent =
    read_frame-eq-first_line reader max_bytes word c
    ∙ rw sent (
        first_line-line_long max_bytes payload after line
          (encode_frame_err to_vec value payload max_bytes ser word enc))
