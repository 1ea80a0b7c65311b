-- ===== src/Server/Connection.antt =====
-- A connection of crates/hwatud/src/ipc_server.rs: `handle_conn`, `authenticate`, `write_auth_reply`,
-- `read_next_request`, `write_response`. The callbacks are continuations; what a connection does is
-- the list of its actions. What `write_all_async` gives is a list too, past whose end the peer is
-- gone; an expired timer of `authenticate` is a failure of its read. The serializers, serde's
-- parsers and the dispatch of one request are parameters.
pub mod Auth
pub mod Replies
mod Tests
use hwatu.Common.{
  ℕ, ◌*◌, List, [], ◌∷◌, ◌++◌, Bool, true, false, Option, none, some, Result, ok, err,
  if◌then◌else◌,
}
use hwatu.Common.Text.{Text, codes, text_eq}
use hwatu.Ipc.Frame.{Bytes, Fill, EncodeError, encode_frame, max_frame_bytes}
use hwatu.Ipc.Requests.{Request, subscribe}
use hwatu.Dispatch.Batch.{Response, success, failure}
use hwatu.Server.{FrameReadError, frame_too_large, truncated, io, ReadOutcome, read_bounded_frame}

abbrev pub max_auth_frame_bytes : ℕ
max_auth_frame_bytes = 4 * 1024

pub data TransportKind : Type 0 where
  unix tcp : TransportKind

pub data AuthReply : Type 0 where
  auth_ok : AuthReply
  auth_err : Text → AuthReply

pub record Daemon (F64 World Value : Type 0) : Type 0 where
  -- `daemon.security.tcp_token`.
  pub tcp_token : Option Bytes
  -- `serde_json::from_slice`: the token of an `AuthRequest`, and a `Request` or the error's text.
  pub auth_token : Bytes → Option Bytes
  pub request : Bytes → Result Text (Request F64)
  -- `serde_json::to_vec`.
  pub auth_json : AuthReply → Option Bytes
  pub response_json : Response Value → Option Bytes
  -- `dispatch`, with the response that its reply is called with, if it ever is.
  pub dispatch : TransportKind → World → Request F64 → World × Option (Response Value)

-- What a connection does: a request is run, a buffer is handed to the socket, the connection goes
-- to the broker as an event stream, the socket is closed.
pub data ConnAction (F64 : Type 0) : Type 0 where
  ran : Request F64 → ConnAction F64
  sent : Bytes → ConnAction F64
  subscribed : Option (List Text) → Option ℕ → ConnAction F64
  closed : ConnAction F64

-- `ct_eq` on slices: whether the bytes are the same.
abbrev pub tokens_equal : Bytes → Bytes → Bool
tokens_equal = text_eq

abbrev pub as_subscription : {F64 : Type 0} → Request F64 → Option (Option (List Text) × Option ℕ)
as_subscription (subscribe kinds window) = some (kinds, window)
as_subscription _ = none

module _ {F64 World Value : Type 0} (d : Daemon F64 World Value) where
  abbrev pub Trace : Type 0
  Trace = World × List (ConnAction F64)

  abbrev pub acting : ConnAction F64 → Trace → Trace
  acting a t = (t.0, a ∷ t.1)

  -- A continuation gets the world, the buffer and what is still to arrive.
  abbrev pub Next : Type 0
  Next = World → Bytes → List Fill → Trace

  abbrev pub hang_up : Next
  hang_up w buffer input = (w, closed ∷ [])

  abbrev pub oversized_request : Response Value
  oversized_request = failure (codes "request frame exceeds protocol limit")

  abbrev pub oversized_response : Response Value
  oversized_response = failure (codes "response frame exceeds protocol limit")

  -- The frame of `write_response`.
  abbrev pub response_frame : Response Value → Result EncodeError Bytes
  response_frame response = elim (encode_frame d.response_json response max_frame_bytes) [
    | ok frame ↦ ok frame
    | err _ ↦ encode_frame d.response_json oversized_response max_frame_bytes
  ]

  -- `write_response`; `next` is what follows a buffer that was handed to the socket.
  unfoldable pub write_response : Response Value → Next → Next
  write_response response next w buffer input = elim (response_frame response) [
    | err _ ↦ (w, closed ∷ [])
    | ok frame ↦ acting (sent frame) (next w buffer input)
  ]

  -- A frame's request, and its response with `next` after it.
  unfoldable pub respond : TransportKind → Next → Result Text (Request F64) → Next
  unfolding write_response
  respond transport next (err e) w buffer input =
      write_response (failure (codes "bad request: " ++ e)) next w buffer input
  respond transport next (ok r) w buffer input = elim (as_subscription r) [
    | some kw ↦ (w, subscribed kw.0 kw.1 ∷ [])
    | none ↦
        let (w', reply) = d.dispatch transport w r in
        acting (ran r) (elim reply [
          | none ↦ (w', [])
          | some response ↦ write_response response next w' buffer input
        ])
  ]

  -- What `read_next_request` does with the result of its read.
  unfoldable pub answer : TransportKind → Next → Result FrameReadError (Option Bytes) → Next
  unfolding respond write_response
  answer transport next (err frame_too_large) w buffer input =
      write_response oversized_request hang_up w buffer input
  answer transport next (err truncated) w buffer input = (w, [])
  answer transport next (err io) w buffer input = (w, [])
  answer transport next (ok none) w buffer input = (w, [])
  answer transport next (ok (some frame)) w buffer input =
      respond transport next (d.request frame) w buffer input

  -- `read_next_request` with `next` after a response that leaves the connection open.
  unfoldable pub answer_next : TransportKind → Next → Next
  unfolding answer
  answer_next transport next w buffer input =
      let out = read_bounded_frame buffer input max_frame_bytes in
      answer transport next out.0 w out.1 out.2

  -- The loop of `read_next_request` and `write_response` over what the writes will give.
  pub read_next_request : TransportKind → List Bool → Next
  unfolding answer_next
  read_next_request transport [] w buffer input = answer_next transport hang_up w buffer input
  read_next_request transport (false ∷ later) w buffer input =
      answer_next transport hang_up w buffer input
  read_next_request transport (true ∷ later) w buffer input =
      answer_next transport (read_next_request transport later) w buffer input

  abbrev pub is_the_secret : Option Bytes → Bytes → Bool
  is_the_secret none token = false
  is_the_secret (some secret) token = tokens_equal token secret

  abbrev pub admits : Option Bytes → Bool
  admits none = false
  admits (some token) = is_the_secret d.tcp_token token

  -- Whether the first frame of a connection authenticates it.
  unfoldable pub authenticated : Result FrameReadError (Option Bytes) → Bool
  authenticated (err _) = false
  authenticated (ok none) = false
  authenticated (ok (some frame)) = admits (d.auth_token frame)

  abbrev pub auth_reply_of : Bool → AuthReply
  auth_reply_of true = auth_ok
  auth_reply_of false = auth_err (codes "authentication failed")

  -- `write_auth_reply`.
  unfoldable pub write_auth_reply : AuthReply → Next → Next
  write_auth_reply reply next w buffer input =
      elim (encode_frame d.auth_json reply max_auth_frame_bytes) [
        | err _ ↦ (w, closed ∷ [])
        | ok frame ↦ acting (sent frame) (next w buffer input)
      ]

  -- What follows the reply to the first frame.
  abbrev pub proceed_if : Bool → List Bool → Next
  unfolding read_next_request
  proceed_if true (true ∷ later) = read_next_request tcp later
  proceed_if _ _ = hang_up

  unfoldable pub authenticate : List Bool → World → List Fill → Trace
  unfolding authenticated write_auth_reply
  authenticate writes w input =
      let (result, buffer, input') = read_bounded_frame [] input max_auth_frame_bytes in
      let good = authenticated result in
      write_auth_reply (auth_reply_of good) (proceed_if good writes) w buffer input'

  unfoldable pub handle_conn : TransportKind → List Bool → World → List Fill → Trace
  unfolding authenticate read_next_request
  handle_conn tcp writes w input = authenticate writes w input
  handle_conn unix writes w input = read_next_request unix writes w [] input
