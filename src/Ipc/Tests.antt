-- ===== src/Ipc/Tests.antt =====
-- Concrete runs of the wire protocol.
use hwatu.Common.{ℕ, ◌≡◌, refl, List, [], ◌∷◌, All, Option, some, ok, err, arith, nat}
use hwatu.Ipc.Values.{parse_viewport, label}
use hwatu.Ipc.Values.Labels.{parse_viewport-label}
use hwatu.Ipc.Frame.{
  Bytes, Fill, chunk, unexpected_eof, invalid_data, too_long, encode_frame, read_frame,
}
use hwatu.Ipc.Frame.Stream.{IsChunk, stream, first_line, read_frame-eq-first_line}
use hwatu.Ipc.Frame.RoundTrip.{read_frame-encode_frame, read_frame-encode_frame_err}

-- `{}` and a newline, cut after its first byte, with one more byte behind.
abbrev cut_frame : List Fill
cut_frame = chunk (123 ∷ []) ∷ chunk (125 ∷ 10 ∷ 65 ∷ []) ∷ []

abbrev unfinished : List Fill
unfinished = chunk (123 ∷ []) ∷ []

read_frame-eq-first_line_example :
    (read_frame cut_frame 3).0 ≡ first_line 3 (123 ∷ 125 ∷ 10 ∷ 65 ∷ [])
read_frame-eq-first_line_example = read_frame-eq-first_line cut_frame 3 (omega arith) (tt, (tt, tt))

reads_cut_frame : read_frame cut_frame 3 ≡ (ok (some (123 ∷ 125 ∷ [])), chunk (65 ∷ []) ∷ [])
unfolding read_frame
reads_cut_frame = refl

reads_unfinished : (read_frame unfinished 3).0 ≡ err unexpected_eof
unfolding read_frame
reads_unfinished = refl

abbrev braces : ℕ → Option Bytes
braces n = some (123 ∷ 125 ∷ [])

sends_braces : encode_frame braces 0 3 ≡ ok (123 ∷ 125 ∷ 10 ∷ [])
unfolding encode_frame
sends_braces = refl

read_frame-encode_frame_example :
    ((read_frame cut_frame 3).0 ≡ ok (some (123 ∷ 125 ∷ [])))
    × (stream (read_frame cut_frame 3).1 ≡ 65 ∷ [])
    × All IsChunk (read_frame cut_frame 3).1
read_frame-encode_frame_example =
    read_frame-encode_frame braces 0 (123 ∷ 125 ∷ []) (123 ∷ 125 ∷ 10 ∷ []) (65 ∷ []) 3 cut_frame
      (omega arith) refl refl sends_braces (tt, (tt, tt)) refl

too_long_for_two : encode_frame braces 0 2 ≡ err (too_long 3 2)
unfolding encode_frame
too_long_for_two = refl

read_frame-encode_frame_err_example : (read_frame cut_frame 2).0 ≡ err invalid_data
read_frame-encode_frame_err_example =
    read_frame-encode_frame_err braces 0 (123 ∷ 125 ∷ []) (65 ∷ []) 2 cut_frame (omega arith) refl
      refl too_long_for_two (tt, (tt, tt)) refl

labelled_viewport :
    parse_viewport (label (record { w = nat 360; h = nat 640 }))
    ≡ some (record { w = nat 360; h = nat 640 })
labelled_viewport =
    parse_viewport-label 360 640 (omega arith) (omega arith) (omega arith) (omega arith)
