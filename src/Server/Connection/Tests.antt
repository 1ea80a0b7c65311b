-- ===== src/Server/Connection/Tests.antt =====
-- A daemon that counts: the request `+` adds one to the world, and each request is answered by one
-- byte.
use hwatu.Common.{
  ℕ, ◌+◌, ◌≡◌, refl, List, [], ◌∷◌, true, Result, ok, err, some, arith, if◌then◌else◌, ◌⊎◌, ◌==◌,
  All,
}
use hwatu.Common.Text.{Text}
use hwatu.Ipc.Frame.{Bytes, Fill, chunk, encode_frame}
use hwatu.Ipc.Requests.{Request, ping}
use hwatu.Dispatch.Batch.{Response, success, failure}
use hwatu.Server.{read_bounded_frame, read_rounds, take_frame}
use hwatu.Server.Connection.{
  Daemon, unix, tcp, ran, sent, closed, handle_conn, authenticate, authenticated, write_auth_reply,
  proceed_if,
}
use hwatu.Server.Connection.Auth.{IsAuthorized, IsTurnedAway, handle_conn-IsAuthorized}
use hwatu.Server.Connection.Replies.{IsSerializer, IsLine, answers, handle_conn-answers}

abbrev plus_request : Bytes → Result Text (Request ℕ)
plus_request [] = err []
plus_request (b ∷ bs) = if b == 43 then ok ping else err []

abbrev one_byte : Response ℕ → Bytes
one_byte (success n) = (48 + n) ∷ []
one_byte (failure m) = 33 ∷ []

abbrev the_token : Bytes
the_token = 115 ∷ 51 ∷ []

abbrev counting : Daemon ℕ ℕ ℕ
counting = record {
  tcp_token = some the_token;
  auth_token = λ frame. some frame;
  request = plus_request;
  auth_json = λ reply. some (63 ∷ []);
  response_json = λ x. some (one_byte x);
  dispatch = λ transport w r. (w + 1, some (success (w + 1)));
}

-- `+`, `-`, `+`, cut inside the second line.
abbrev three_lines : List Fill
three_lines = chunk (43 ∷ 10 ∷ 45 ∷ []) ∷ chunk (10 ∷ 43 ∷ 10 ∷ []) ∷ []

-- A wrong token, then a request.
abbrev intruder : List Fill
intruder = chunk (120 ∷ 10 ∷ 43 ∷ 10 ∷ []) ∷ []

turns_away :
    handle_conn counting tcp (true ∷ true ∷ []) 0 intruder ≡ (0, sent (63 ∷ 10 ∷ []) ∷ closed ∷ [])
unfolding handle_conn authenticate authenticated write_auth_reply read_bounded_frame read_rounds
    take_frame encode_frame proceed_if
turns_away = refl

handle_conn-IsAuthorized_example :
    IsAuthorized counting intruder
    ⊎ IsTurnedAway counting 0 (handle_conn counting tcp (true ∷ []) 0 intruder)
handle_conn-IsAuthorized_example = handle_conn-IsAuthorized counting (true ∷ []) 0 intruder

counting-IsSerializer : IsSerializer counting one_byte
counting-IsSerializer = record { total = λ x. refl; short = omega arith }

three_IsLine : All (IsLine counting one_byte) ((43 ∷ []) ∷ (45 ∷ []) ∷ (43 ∷ []) ∷ [])
three_IsLine =
    let plus : IsLine counting one_byte (43 ∷ []) = record { one = refl; fits = omega arith } in
    let minus : IsLine counting one_byte (45 ∷ []) = record { one = refl; fits = omega arith } in
    (plus, (minus, (plus, tt)))

handle_conn-answers_example : handle_conn counting unix (true ∷ true ∷ true ∷ []) 0 three_lines ≡ (
  2,
  ran ping ∷ sent (49 ∷ 10 ∷ []) ∷ sent (33 ∷ 10 ∷ []) ∷ ran ping ∷ sent (50 ∷ 10 ∷ []) ∷ [],
)
unfolding answers
handle_conn-answers_example =
    handle_conn-answers counting one_byte ((43 ∷ []) ∷ (45 ∷ []) ∷ (43 ∷ []) ∷ [])
      (true ∷ true ∷ true ∷ []) 0 three_lines counting-IsSerializer three_IsLine (tt, (tt, tt)) refl
