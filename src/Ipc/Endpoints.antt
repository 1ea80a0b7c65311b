-- ===== src/Ipc/Endpoints.antt =====
-- `Endpoint`, `parse_endpoint`, `validate_tcp_authority` and `validate_token` of
-- crates/ipc/src/lib.rs.
pub mod Authorities
mod Tests
use hwatu.Common.{
  ℕ, List, [], ◌∷◌, Bool, true, false, not, ◌&&◌, ◌||◌, Option, none, some, Result, ok, err, ◌>>=◌,
  ◌>>◌, refuse_if, ltb, ◌==◌, if◌then◌else◌, is_empty, any, parse_unsigned,
}
use hwatu.Common.Text.{
  Text, codes, byte_len, trim, is_whitespace, strip_prefix, split_once, rsplit_once, contains,
  contains_char,
}

pub data Endpoint : Type 0 where
  unix tcp : Text → Endpoint

-- Which failure the parser reports.
pub data EndpointError : Type 0 where
  empty_endpoint empty_path unsupported_scheme white_space : EndpointError
  bad_brackets bad_authority missing_port bad_host bad_port : EndpointError

-- `port.parse::<u16>().ok().filter(|port| *port != 0)`.
abbrev pub port_of : Text → Option ℕ
port_of port = elim (parse_unsigned 16 port) [
  | none ↦ none
  | some n ↦ if n == 0 then none else some n
]

-- The host and the port of `[host]:port`, after the bracket.
abbrev pub bracketed : Text → Result EndpointError (Text × Text)
bracketed rest = elim (split_once (codes "]:") rest) [
  | none ↦ err bad_brackets
  | some (host, port) ↦
      if is_empty host || contains_char (λ c. c == b'[') host || contains_char (λ c. c == b':') port
      then err bad_authority
      else ok (host, port)
]

-- The host and the port of `host:port`.
abbrev pub unbracketed : Text → Result EndpointError (Text × Text)
unbracketed authority = elim (rsplit_once b':' authority) [
  | none ↦ err missing_port
  | some (host, port) ↦
      if is_empty host || contains_char (λ c. c == b':') host || contains_char (λ c. c == b'/') host
      then err bad_host
      else ok (host, port)
]

abbrev pub host_and_port : Text → Result EndpointError (Text × Text)
host_and_port authority = elim (strip_prefix (codes "[") authority) [
  | some rest ↦ bracketed rest
  | none ↦ unbracketed authority
]

abbrev pub check_port : Text → Result EndpointError (Unit {0})
check_port port = elim (port_of port) [ none ↦ err bad_port | some n ↦ ok tt ]

unfoldable pub validate_tcp_authority : Text → Result EndpointError (Unit {0})
validate_tcp_authority authority =
    refuse_if (contains_char is_whitespace authority) white_space
    >> (host_and_port authority >>= λ hp. check_port hp.1)

abbrev pub tcp_endpoint : Text → Result EndpointError Endpoint
tcp_endpoint authority = elim (validate_tcp_authority authority) [
  | err e ↦ err e
  | ok _ ↦ ok (tcp authority)
]

-- The part of `parse_endpoint` after the trim.
abbrev pub endpoint_of : Text → Result EndpointError Endpoint
endpoint_of value =
    if is_empty value then err empty_endpoint else elim (strip_prefix (codes "tcp://") value) [
      | some authority ↦ tcp_endpoint authority
      | none ↦ elim (strip_prefix (codes "unix://") value) [
        | some path ↦ if is_empty path then err empty_path else ok (unix path)
        | none ↦
            if contains (codes "://") value
            then err unsupported_scheme
            else if contains_char (λ c. c == b':') value
            then tcp_endpoint value
            else ok (unix value)
      ]
    ]

unfoldable pub parse_endpoint : Text → Result EndpointError Endpoint
parse_endpoint value = endpoint_of (trim value)

-- `endpoint` on unix: the value of HWATU_ENDPOINT, and the path that `socket_path` gives.
pub endpoint : Option Text → Text → Result EndpointError Endpoint
unfolding parse_endpoint
endpoint none socket_path = ok (unix socket_path)
endpoint (some value) socket_path =
    if is_empty (trim value) then ok (unix socket_path) else parse_endpoint (trim value)

abbrev pub min_token_bytes : ℕ
min_token_bytes = 32

abbrev pub max_token_bytes : ℕ
max_token_bytes = 1024

pub data TokenError : Type 0 where
  short_token long_token : TokenError

unfoldable pub validate_token : Text → Result TokenError (Unit {0})
validate_token token =
    refuse_if (ltb (byte_len token) min_token_bytes) short_token
    >> refuse_if (ltb max_token_bytes (byte_len token)) long_token
