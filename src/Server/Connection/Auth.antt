-- ===== src/Server/Connection/Auth.antt =====
-- What an unauthenticated TCP peer can make the daemon do.
use hwatu.Common.{
  ◌≡◌, ℕ, zero, suc, refl, sym, ap, subst, ◌∙◌, if◌then◌else◌, is_empty, drop, ◌-◌, take, ◌++◌,
  List, [], ◌∷◌, Bool, true, false, Option, none, some, Result, ok, err, All, arith, ◌⊎◌, inl, inr,
  Bool-cases, Option-cases, Result-cases,
}
use hwatu.Common.Text.{text_eq→eq}
use hwatu.Ipc.Frame.{Bytes, Fill, chunk, failure, consume, encode_frame}
use hwatu.Ipc.Frame.Stream.{IsChunk, stream, first_line}
use hwatu.Server.{
  FrameReadError, BufferedFrame, ready, too_large, need_more, take_frame, request_size, read_rounds,
  read_bounded_frame,
}
use hwatu.Server.Frames.{as_client, read_bounded_frame-IsFirstLine}
use hwatu.Server.Connection.{
  Daemon, sent, closed, tcp, Trace, max_auth_frame_bytes, is_the_secret, admits, authenticated,
  auth_reply_of, write_auth_reply, proceed_if, authenticate, handle_conn,
}

-- What arrives before a read fails, or before the peer's side ends.
pub until_stop : List Fill → List Fill
until_stop [] = []
until_stop (failure e ∷ later) = []
until_stop (chunk [] ∷ later) = []
until_stop (chunk (b ∷ bs) ∷ later) = chunk (b ∷ bs) ∷ until_stop later

until_stop-IsChunk : (input : List Fill) → All IsChunk (until_stop input)
unfolding until_stop
until_stop-IsChunk [] = tt
until_stop-IsChunk (failure e ∷ later) = tt
until_stop-IsChunk (chunk [] ∷ later) = tt
until_stop-IsChunk (chunk (b ∷ bs) ∷ later) = (tt, until_stop-IsChunk later)

until_stop-left :
    (left : Bytes) (later : List Fill)
    → until_stop (if is_empty left then later else chunk left ∷ later)
      ≡ (if is_empty left then until_stop later else chunk left ∷ until_stop later)
unfolding until_stop
until_stop-left [] later = refl
until_stop-left (b ∷ bs) later = refl

-- A frame that so many rounds read has arrived before any failure.
abbrev ArrivesFirst : ℕ → ℕ → Bytes → Type 0
ArrivesFirst fuel max_bytes frame =
    (buffer : Bytes) (input : List Fill)
    → (read_rounds fuel max_bytes buffer input).0 ≡ ok (some frame)
    → (read_rounds fuel max_bytes buffer (until_stop input)).0 ≡ ok (some frame)

round-until_stop :
    (fuel max_bytes : ℕ) (buffer frame : Bytes) (t : BufferedFrame × Bytes) (input : List Fill)
    → ArrivesFirst fuel max_bytes frame
    → take_frame buffer max_bytes ≡ t
    → (read_rounds (suc fuel) max_bytes buffer input).0 ≡ ok (some frame)
    → (read_rounds (suc fuel) max_bytes buffer (until_stop input)).0 ≡ ok (some frame)
unfolding read_rounds until_stop
round-until_stop fuel max_bytes buffer frame (ready f, left) input again e h =
    rw (e, read_rounds) (rw (e, read_rounds) at h)
round-until_stop fuel max_bytes buffer frame (too_large, left) input again e h =
    cc (rw (e, read_rounds) at h)
round-until_stop fuel max_bytes buffer frame (need_more, left) [] again e h = h
round-until_stop fuel max_bytes buffer frame (need_more, left) (failure x ∷ later) again e h =
    cc (rw (e, read_rounds) at h)
round-until_stop fuel max_bytes buffer frame (need_more, left) (chunk [] ∷ later) again e h =
    rw (e, read_rounds) (rw (e, read_rounds) at h)
round-until_stop fuel max_bytes buffer frame (need_more, left) (chunk (b ∷ bs) ∷ later) again e h =
    let n = request_size max_bytes buffer in
    let more = buffer ++ take n (b ∷ bs) in
    let rest = again more (consume (b ∷ bs) n later) (rw (e, read_rounds) at h) in
    rw (e, read_rounds)
      (subst (λ i. (read_rounds fuel max_bytes more i).0 ≡ ok (some frame))
        (until_stop-left (drop n (b ∷ bs)) later) rest)

read_rounds-until_stop : (fuel max_bytes : ℕ) (frame : Bytes) → ArrivesFirst fuel max_bytes frame
unfolding read_rounds
read_rounds-until_stop zero max_bytes frame buffer input h = cc
read_rounds-until_stop (suc fuel) max_bytes frame buffer input h =
    round-until_stop fuel max_bytes buffer frame (take_frame buffer max_bytes) input
      (read_rounds-until_stop fuel max_bytes frame) refl h

module _ {F64 World Value : Type 0} (d : Daemon F64 World Value) where
  -- The first line of the input is an authentication request with the daemon's secret.
  pub record IsAuthorized (input : List Fill) : Type 0 where
    pub frame : Bytes
    pub secret : Bytes
    pub first : first_line max_auth_frame_bytes (stream (until_stop input)) ≡ ok (some frame)
    pub token : d.auth_token frame ≡ some secret
    pub configured : d.tcp_token ≡ some secret

  -- The world is as it was, and the socket was closed after at most one buffer.
  pub IsTurnedAway : World → Trace d → Type 0
  IsTurnedAway w t =
      (t ≡ (w, closed ∷ [])) ⊎ ((frame : Bytes) × (t ≡ (w, sent frame ∷ closed ∷ [])))

  secret-is :
      (configured : Option Bytes) (token : Bytes)
      → is_the_secret d configured token ≡ true
      → configured ≡ some token
  secret-is none token h = cc
  secret-is (some secret) token h = ap some (sym (text_eq→eq token secret h))

  authenticated-frame :
      (result : Result FrameReadError (Option Bytes))
      → authenticated d result ≡ true
      → (frame : Bytes) × (token : Bytes) × (result ≡ ok (some frame))
        × (d.auth_token frame ≡ some token)
        × (d.tcp_token ≡ some token)
  unfolding authenticated
  authenticated-frame (err e) h = cc
  authenticated-frame (ok none) h = cc
  authenticated-frame (ok (some frame)) h = elim (Option-cases (d.auth_token frame)) [
    | inl e ↦ cc (e, h)
    | inr (token, e) ↦
        (frame, token, refl, e, secret-is d.tcp_token token (sym (ap (λ t. admits d t) e) ∙ h))
  ]

  turned_away :
      (writes : List Bool) (w : World) (buffer : Bytes) (input : List Fill)
      → IsTurnedAway w
          (write_auth_reply d (auth_reply_of d false) (proceed_if d false writes) w buffer input)
  unfolding write_auth_reply IsTurnedAway proceed_if
  turned_away writes w buffer input =
      elim (Result-cases (encode_frame d.auth_json (auth_reply_of d false) max_auth_frame_bytes)) [
        | inl (e, h) ↦ inl (rw (h, write_auth_reply) refl)
        | inr (frame, h) ↦ inr (frame, rw (h, write_auth_reply) refl)
      ]

  -- Whatever a TCP peer sends, and however its reads fail or time out: unless the first line of what
  -- arrives before that is an authentication request, within 4096 bytes, with the secret that the
  -- daemon is configured with, no request is run, nothing is subscribed and the world is unchanged;
  -- the socket is closed after at most one reply.
  pub handle_conn-IsAuthorized :
      (writes : List Bool) (w : World) (input : List Fill)
      → IsAuthorized input ⊎ IsTurnedAway w (handle_conn d tcp writes w input)
  unfolding handle_conn authenticate read_bounded_frame
  handle_conn-IsAuthorized writes w input =
      let n = suc (max_auth_frame_bytes - 0) in
      let out = read_bounded_frame [] input max_auth_frame_bytes in
      elim (Bool-cases (authenticated d out.0)) [
        | inl good ↦
            let (frame, token, line, sent_token, secret) = authenticated-frame out.0 good in
            let arrived = read_rounds-until_stop n max_auth_frame_bytes frame [] input line in
            let first =
              read_bounded_frame-IsFirstLine [] (until_stop input) max_auth_frame_bytes
                (omega arith) (until_stop-IsChunk input) in
            inl (record {
              frame = frame;
              secret = token;
              first = sym first.told ∙ ap as_client arrived;
              token = sent_token;
              configured = secret;
            })
        | inr bad ↦ inr (rw bad (turned_away writes w out.1 out.2))
      ]
