-- ===== src/Server/Connection/Replies.antt =====
-- What a client on the Unix socket gets for its lines.
use hwatu.Common.{
  subst, ◌+◌, ◌≤◌, ◌<◌, ◌≡◌, refl, sym, ◌∙◌, List, [], ◌∷◌, ◌++◌, Bool, true, false, Option, none,
  some, Result, ok, err, All, arith, leb, if◌then◌else◌, length, append_assoc, inl, inr, Bool-cases,
  Option-cases, Result-cases,
}
use hwatu.Common.Text.{Text, codes}
use hwatu.Ipc.Frame.{Bytes, Fill, newline, position, encode_frame, EncodeError, max_frame_bytes}
use hwatu.Ipc.Frame.Stream.{IsChunk, stream, first_line}
use hwatu.Ipc.Frame.RoundTrip.{first_line-line, append_cancel}
use hwatu.Ipc.Requests.{Request}
use hwatu.Dispatch.Batch.{Response, failure}
use hwatu.Server.{ReadOutcome, FrameReadError, frame_too_large, truncated, io, read_bounded_frame}
use hwatu.Server.Frames.{IsLeft, as_client, read_bounded_frame-IsFirstLine}
use hwatu.Server.Connection.{
  Daemon, ran, sent, subscribed, closed, unix, Trace, Next, acting, oversized_response,
  response_frame, write_response, as_subscription, respond, answer, answer_next, read_next_request,
  hang_up, handle_conn,
}

left_line :
    (whole l : Bytes) (out : ReadOutcome)
    → out.0 ≡ ok (some l)
    → IsLeft whole out.0 (out.1 ++ stream out.2)
    → whole ≡ l ++ newline ∷ (out.1 ++ stream out.2)
left_line whole l out e h = subst (λ r. IsLeft whole r (out.1 ++ stream out.2)) e h

-- The bytes of lines that are each ended by a newline.
abbrev pub wire : List Bytes → Bytes
wire [] = []
wire (l ∷ ls) = l ++ newline ∷ wire ls

ok-as_client :
    (x : Result FrameReadError (Option Bytes)) (y : Option Bytes) → as_client x ≡ ok y → x ≡ ok y
ok-as_client (ok z) y h = cc
ok-as_client (err frame_too_large) y h = cc
ok-as_client (err truncated) y h = cc
ok-as_client (err io) y h = cc

module _ {F64 World Value : Type 0} (d : Daemon F64 World Value)
    (json : Response Value → Bytes) where
  -- The line that answers with a response: an error stands in for one that is too long.
  abbrev pub reply_line : Response Value → Bytes
  reply_line response =
      (if leb (length (json response) + 1) max_frame_bytes
        then json response
        else json (oversized_response d))
      ++ newline ∷ []

  -- What a line does, and then the rest: a line that is no request is answered by an error; a
  -- subscription hands the connection over; a request is run, and answered if its handler replies.
  -- Where it does not, the connection waits.
  abbrev pub one_answer : (World → Trace d) → World → Result Text (Request F64) → Trace d
  one_answer rest w (err e) =
      acting d (sent (reply_line (failure (codes "bad request: " ++ e)))) (rest w)
  one_answer rest w (ok r) = elim (as_subscription r) [
    | some kw ↦ (w, subscribed kw.0 kw.1 ∷ [])
    | none ↦
        let (w', reply) = d.dispatch unix w r in
        acting d (ran r) (elim reply [
          | none ↦ (w', [])
          | some response ↦ acting d (sent (reply_line response)) (rest w')
        ])
  ]

  -- Line after line in the world that those before it have left, as long as the replies are taken;
  -- after one that is not the connection is closed.
  unfoldable pub answers : List Bool → World → List Bytes → Trace d
  answers writes w [] = (w, [])
  answers [] w (l ∷ ls) = one_answer (λ w'. (w', closed ∷ [])) w (d.request l)
  answers (false ∷ writes) w (l ∷ ls) = one_answer (λ w'. (w', closed ∷ [])) w (d.request l)
  answers (true ∷ writes) w (l ∷ ls) = one_answer (λ w'. answers writes w' ls) w (d.request l)

  -- A line within the limit.
  pub record IsLine (l : Bytes) : Type 0 where
    pub one : position l ≡ none
    pub fits : length l + 1 ≤ max_frame_bytes

  -- The serializer does not fail on responses, and the stand-in fits.
  pub record IsSerializer : Type 0 where
    pub total : (x : Response Value) → d.response_json x ≡ some (json x)
    pub short : length (json (oversized_response d)) + 1 ≤ max_frame_bytes

  module _ (s : IsSerializer) where
    encode_json :
        (x : Response Value)
        → length (json x) + 1 ≤ max_frame_bytes
        → encode_frame d.response_json x max_frame_bytes ≡ ok (json x ++ newline ∷ [])
    unfolding encode_frame
    encode_json x fits = rw (s.total x, encode_frame) (ground arith)

    encode_json_err :
        (x : Response Value)
        → max_frame_bytes < length (json x) + 1
        → (e : EncodeError) × (encode_frame d.response_json x max_frame_bytes ≡ err e)
    unfolding encode_frame
    encode_json_err x long = elim (Result-cases (encode_frame d.response_json x max_frame_bytes)) [
      | inl h ↦ h
      | inr (f, h) ↦ absurd (ground (arith, s.total x))
    ]

    response_frame-reply_line : (x : Response Value) → response_frame d x ≡ ok (reply_line x)
    response_frame-reply_line x = elim (Bool-cases (leb (length (json x) + 1) max_frame_bytes)) [
      | inl fits ↦ rw (encode_json x (ground arith), response_frame) (rw fits refl)
      | inr long ↦
          rw ((encode_json_err x (ground arith)).1, response_frame)
            (rw (encode_json (oversized_response d) s.short) (rw long refl))
    ]

    write_response-reply_line :
        (x : Response Value) (next : Next d) (w : World) (buffer : Bytes) (input : List Fill)
        → write_response d x next w buffer input
          ≡ acting d (sent (reply_line x)) (next w buffer input)
    unfolding write_response
    write_response-reply_line x next w buffer input =
        rw (response_frame-reply_line x, write_response) refl

    respond-one_answer :
        (next : Next d) (rest : World → Trace d) (buffer : Bytes) (input : List Fill)
        → ((w : World) → next w buffer input ≡ rest w)
        → (w : World) (x : Result Text (Request F64))
        → respond d unix next x w buffer input ≡ one_answer rest w x
    unfolding respond
    respond-one_answer next rest buffer input later w (err e) =
        rw (write_response-reply_line (failure (codes "bad request: " ++ e)) next w buffer input)
          (rw (later w) refl)
    respond-one_answer next rest buffer input later w (ok r) =
        elim (Option-cases (as_subscription r)) [
          | inr (kw, h) ↦ rw (h, respond) (rw (h, one_answer) refl)
          | inl h ↦ elim (Option-cases (d.dispatch unix w r).1) [
            | inl e ↦ rw (h, e, respond) (rw (h, e, one_answer) refl)
            | inr (x, e) ↦
                let w' = (d.dispatch unix w r).0 in
                rw (h, e, respond)
                  (rw (h, e, one_answer)
                    (rw (write_response-reply_line x next w' buffer input) (rw (later w') refl)))
          ]
        ]

    answer_next_end :
        (next : Next d) (w : World) (buffer : Bytes) (input : List Fill)
        → All IsChunk input
        → buffer ++ stream input ≡ []
        → answer_next d unix next w buffer input ≡ (w, [])
    unfolding answer_next answer first_line
    answer_next_end next w buffer input served h =
        let first =
          read_bounded_frame-IsFirstLine buffer input max_frame_bytes (omega arith) served in
        rw
          (ok-as_client (read_bounded_frame buffer input max_frame_bytes).0 none
            (first.told ∙ rw h refl))
          refl

    read_next_request_end :
        (later : List Bool) (w : World) (buffer : Bytes) (input : List Fill)
        → All IsChunk input
        → buffer ++ stream input ≡ []
        → read_next_request d unix later w buffer input ≡ (w, [])
    unfolding read_next_request
    read_next_request_end [] w buffer input served h =
        answer_next_end (hang_up d) w buffer input served h
    read_next_request_end (false ∷ later) w buffer input served h =
        answer_next_end (hang_up d) w buffer input served h
    read_next_request_end (true ∷ later) w buffer input served h =
        answer_next_end (read_next_request d unix later) w buffer input served h

    -- One line, of which some bytes are in the buffer, with what follows it.
    answer_next-one_answer :
        (next : Next d) (rest : World → Trace d) (l : Bytes) (ls : List Bytes) (w : World)
        (buffer : Bytes) (input : List Fill)
        → IsLine l
        → All IsChunk input
        → buffer ++ stream input ≡ wire (l ∷ ls)
        → ((w' : World) (buffer' : Bytes) (input' : List Fill)
            → All IsChunk input'
            → buffer' ++ stream input' ≡ wire ls
            → next w' buffer' input' ≡ rest w')
        → answer_next d unix next w buffer input ≡ one_answer rest w (d.request l)
    unfolding answer_next answer
    answer_next-one_answer next rest l ls w buffer input is_line served h later =
        let out = read_bounded_frame buffer input max_frame_bytes in
        let first =
          read_bounded_frame-IsFirstLine buffer input max_frame_bytes (omega arith) served in
        let line : out.0 ≡ ok (some l) = ok-as_client out.0 (some l) (
          first.told
          ∙ rw h (first_line-line max_frame_bytes l (wire ls) is_line.one is_line.fits)) in
        let behind : out.1 ++ stream out.2 ≡ wire ls = append_cancel (l ++ newline ∷ []) _ _ (
          append_assoc l (newline ∷ []) _
          ∙ sym (left_line (buffer ++ stream input) l out line first.left)
          ∙ h
          ∙ sym (append_assoc l (newline ∷ []) (wire ls))) in
        rw line (
          respond-one_answer next rest out.1 out.2 (λ w'. later w' out.1 out.2 first.served behind)
            w (d.request l))

    read_next_request-answers :
        (ls : List Bytes) (writes : List Bool) (w : World) (buffer : Bytes) (input : List Fill)
        → All IsLine ls
        → All IsChunk input
        → buffer ++ stream input ≡ wire ls
        → read_next_request d unix writes w buffer input ≡ answers writes w ls
    unfolding read_next_request answers
    read_next_request-answers [] writes w buffer input lines served h =
        read_next_request_end writes w buffer input served h
    read_next_request-answers (l ∷ ls) [] w buffer input lines served h =
        answer_next-one_answer (hang_up d) (λ w'. (w', closed ∷ [])) l ls w buffer input lines.0
          served h (λ w' buffer' input' served' h'. refl)
    read_next_request-answers (l ∷ ls) (false ∷ writes) w buffer input lines served h =
        answer_next-one_answer (hang_up d) (λ w'. (w', closed ∷ [])) l ls w buffer input lines.0
          served h (λ w' buffer' input' served' h'. refl)
    read_next_request-answers (l ∷ ls) (true ∷ writes) w buffer input lines served h =
        answer_next-one_answer (read_next_request d unix writes) (λ w'. answers writes w' ls) l ls w
          buffer input lines.0 served h
          (λ w' buffer' input' served' h'.
            read_next_request-answers ls writes w' buffer' input' lines.1 served' h')

  -- A client on the Unix socket sends lines within the limit of a frame, in one go or cut into
  -- non-empty chunks in any way, and ends; responses can be serialized. Then the daemon takes the lines
  -- in order: it sends one line for each that is no request, an error; runs each request, in the world
  -- that the earlier ones left, and sends its response, or an error where that is too long, before it
  -- takes the next line. It goes on to the end of the lines unless a reply is not taken, which closes
  -- the connection, a line is a subscription, which hands it over, or the handler of a request never
  -- replies, where it waits.
  pub handle_conn-answers :
      (ls : List Bytes) (writes : List Bool) (w : World) (input : List Fill)
      → IsSerializer
      → All IsLine ls
      → All IsChunk input
      → stream input ≡ wire ls
      → handle_conn d unix writes w input ≡ answers writes w ls
  unfolding handle_conn
  handle_conn-answers ls writes w input s lines served h =
      read_next_request-answers s ls writes w [] input lines served h
