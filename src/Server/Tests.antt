-- ===== src/Server/Tests.antt =====
-- Concrete runs of the permits and of a bounded read.
use hwatu.Common.{◌≤◌, ◌≡◌, refl, List, [], ◌∷◌, false, ok, err, some, arith}
use hwatu.Ipc.Frame.{Fill, chunk}
use hwatu.Server.{read_bounded_frame, read_rounds, take_frame, frame_too_large}
use hwatu.Server.Frames.{IsFirstLine, read_bounded_frame-IsFirstLine}
use hwatu.Server.Permits.{
  Tcp, loads, rounds, Reachable, start, step, Reachable-counts, max_tcp_connections, acquire_round,
  end_round, refused,
}

-- `{}` and a newline, of which the first byte is in the buffer, with one more byte behind.
abbrev rest_of_frame : List Fill
rest_of_frame = chunk (125 ∷ []) ∷ chunk (10 ∷ 65 ∷ []) ∷ []

reads_rest :
    read_bounded_frame (123 ∷ []) rest_of_frame 3
    ≡ (ok (some (123 ∷ 125 ∷ [])), [], chunk (65 ∷ []) ∷ [])
unfolding read_bounded_frame read_rounds take_frame
reads_rest = refl

reads_too_large : (read_bounded_frame (123 ∷ []) rest_of_frame 2).0 ≡ err frame_too_large
unfolding read_bounded_frame read_rounds take_frame
reads_too_large = refl

reads_pipelined : read_bounded_frame (10 ∷ 65 ∷ []) [] 2 ≡ (ok (some []), 65 ∷ [], [])
unfolding read_bounded_frame read_rounds take_frame
reads_pipelined = refl

read_bounded_frame-IsFirstLine_example :
    IsFirstLine 3 (123 ∷ 125 ∷ 10 ∷ 65 ∷ []) (read_bounded_frame (123 ∷ []) rest_of_frame 3)
read_bounded_frame-IsFirstLine_example =
    read_bounded_frame-IsFirstLine (123 ∷ []) rest_of_frame 3 (omega arith) (tt, (tt, tt))

refuses_the_65th : acquire_round 64 false 64 ≡ (refused, 64)
unfolding acquire_round
refuses_the_65th = refl

-- Two connections load the counter; one gets a permit.
abbrev two_trying : Tcp
two_trying = record { connections = 0; permits = 0; trying = 0 ∷ 0 ∷ [] }

abbrev one_of_two : Tcp
unfolding end_round acquire_round
one_of_two = end_round 0 [] (0 ∷ []) (acquire_round 0 false 0)

reaches_two : Reachable two_trying
reaches_two = step (step start (loads 0 0 [])) (loads 0 0 (0 ∷ []))

reaches_one_of_two : Reachable one_of_two
unfolding one_of_two
reaches_one_of_two = step reaches_two (rounds 0 0 0 false [] (0 ∷ []))

Reachable-counts_example :
    (one_of_two.connections ≡ one_of_two.permits) × (one_of_two.permits ≤ max_tcp_connections)
unfolding one_of_two end_round acquire_round
Reachable-counts_example = Reachable-counts reaches_one_of_two
