-- ===== src/Security/Listeners.antt =====
-- Who can reach a daemon over TCP.
use hwatu.Common.{
  ◌≤◌, ◌<◌, ◌≡◌, refl, sym, ap, List, true, not, ◌||◌, Option, none, some, Result, ok, err, ◌==◌,
  ◌>>=◌, arith, Bool-cases, Option-cases, Result-cases, inl, inr,
}
use hwatu.Common.Text.{Text, byte_len}
use hwatu.Ipc.Endpoints.{min_token_bytes, max_token_bytes, validate_token}
use hwatu.Security.{
  SecurityConfig, ParseSecurity, run, SecurityError, Environment, checked_token, from_environment,
  filled, parse_args, token_of, with_token, require_token, settle_args, parse_security_args,
  SocketAddress, ListenError, address_of, on_loopback, parse_tcp_listen,
}

-- A token of 32 to 1024 bytes.
pub record IsToken (token : Text) : Type 0 where
  pub long : min_token_bytes ≤ byte_len token
  pub short : byte_len token ≤ max_token_bytes

validate_token-IsToken : (token : Text) → validate_token token ≡ ok tt → IsToken token
unfolding validate_token
validate_token-IsToken token h = record { long = ground arith; short = ground arith }

checked_token-IsToken : (token t : Text) → checked_token token ≡ ok t → IsToken t
checked_token-IsToken token t h = elim (Result-cases (validate_token token)) [
  | inl (e, v) ↦ cc (rw (v, checked_token) at h)
  | inr (u, v) ↦
      let same : ok token ≡ ok t = rw (v, checked_token) at h in
      let is : token ≡ t = cc in rw (← is) (validate_token-IsToken token v)
]

bind-ok :
    {A B : Type 0} (m : Result SecurityError A) (f : A → Result SecurityError B) (b : B)
    → (m >>= f) ≡ ok b
    → (a : A) × (m ≡ ok a) × (f a ≡ ok b)
bind-ok (ok a) f b h = (a, refl, h)
bind-ok (err e) f b h = cc

require_token-IsToken :
    (env : Environment) (config c : SecurityConfig) (file : Option Text) (listen : Text)
    → c.tcp_listen ≡ some listen
    → require_token env config file ≡ ok (run c)
    → (token : Text) × (c.tcp_token ≡ some token) × IsToken token
unfolding require_token
require_token-IsToken env config c file listen l h = elim (Option-cases config.tcp_listen) [
  | inl e ↦
      let same : Path (Result SecurityError ParseSecurity) (ok (run config)) (ok (run c)) =
        rw (e, require_token) at h in
      let is : config ≡ c = cc in absurd (cc (e, ap (λ (x : SecurityConfig). x.tcp_listen) is, l))
  | inr (own, e) ↦
      let (token, from, last) =
        bind-ok (token_of env file >>= checked_token) (λ t. ok (with_token config t)) (run c)
          (rw (e, require_token) at h) in
      let (first, read, checked) = bind-ok (token_of env file) checked_token token from in
      let is : record config { tcp_token = some token } ≡ c = cc in
      (
        token,
        ap (λ (x : SecurityConfig). x.tcp_token) (sym is),
        checked_token-IsToken first token checked,
      )
]

settle_args-IsToken :
    (env : Environment) (o : Option (SecurityConfig × Option Text)) (c : SecurityConfig)
    (listen : Text)
    → c.tcp_listen ≡ some listen
    → settle_args env o ≡ ok (run c)
    → (token : Text) × (c.tcp_token ≡ some token) × IsToken token
unfolding settle_args
settle_args-IsToken env none c listen l h = cc
settle_args-IsToken env (some cf) c listen l h = require_token-IsToken env cf.0 c cf.1 listen l h

on_loopback-ok :
    (b a : SocketAddress) → on_loopback b ≡ ok a → (a.is_loopback ≡ true) × (0 < a.port)
on_loopback-ok b a h = elim (Bool-cases ((b.port == 0) || not b.is_loopback)) [
  | inl refused ↦ cc (rw (refused, on_loopback) at h)
  | inr taken ↦
      let same : Path (Result ListenError SocketAddress) (ok b) (ok a) =
        rw (taken, on_loopback) at h in
      let is : b ≡ a = cc in rw (← is) (ground arith, ground arith)
]

parse_tcp_listen-ok :
    (parse_address : Text → Option SocketAddress) (listen : Text) (a : SocketAddress)
    → parse_tcp_listen parse_address listen ≡ ok a
    → (a.is_loopback ≡ true) × (0 < a.port)
unfolding parse_tcp_listen
parse_tcp_listen-ok parse_address listen a h =
    elim (Result-cases (address_of parse_address listen)) [
      | inl (e, v) ↦ cc (rw v at h)
      | inr (b, v) ↦ on_loopback-ok b a (rw v at h)
    ]

-- A daemon that was told to listen on TCP and takes the address it was told has a bearer token of 32
-- to 1024 bytes, and the address is a loopback address with a port.
pub parse_security_args-IsToken :
    (env : Environment) (args : List Text) (config : SecurityConfig)
    (parse_address : Text → Option SocketAddress) (listen : Text) (a : SocketAddress)
    → parse_security_args env args ≡ ok (run config)
    → config.tcp_listen ≡ some listen
    → parse_tcp_listen parse_address listen ≡ ok a
    → ((token : Text) × (config.tcp_token ≡ some token) × IsToken token)
      × (a.is_loopback ≡ true)
      × (0 < a.port)
unfolding parse_security_args
parse_security_args-IsToken env args config parse_address listen a h l took =
    let (o, parsed, settled) =
      bind-ok (parse_args (from_environment env) (filled env.token_file) args) (settle_args env)
        (run config) h in
    let where_to = parse_tcp_listen-ok parse_address listen a took in
    (settle_args-IsToken env o config listen l settled, where_to.0, where_to.1)
