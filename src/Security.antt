-- ===== src/Security.antt =====
-- The policy of the daemon: `parse_security_args` of crates/hwatud/src/main.rs, `load_token_file` of
-- crates/ipc/src/lib.rs and `parse_tcp_listen` of crates/hwatud/src/ipc_server.rs. The environment is
-- a record of its variables, the file system a function from paths; texts of errors are not modelled.
pub mod Listeners
mod Tests
use hwatu.Common.{
  ℕ, ◌+◌, ◌%◌, ◌≡◌, List, [], ◌∷◌, Bool, true, false, not, ◌&&◌, ◌||◌, Option, none, some, Result,
  ok, err, ltb, ◌==◌, if◌then◌else◌, is_empty, ◌>>=◌, ◌>>◌, refuse_if, parse_unsigned,
}
use hwatu.Common.Text.{Text, codes, text_eq, trim, trim_end_by, byte_len}
use hwatu.Ipc.Endpoints.{TokenError, max_token_bytes, validate_token}

pub record SecurityConfig : Type 0 where
  pub eval_enabled : Bool
  pub ephemeral_profile : Bool
  pub tcp_listen : Option Text
  pub tcp_token : Option Text

-- `SecurityConfig::default`.
abbrev pub default_config : SecurityConfig
default_config = record {
  eval_enabled = true;
  ephemeral_profile = false;
  tcp_listen = none;
  tcp_token = none;
}

-- `ParseSecurity`.
pub data ParseSecurity : Type 0 where
  run : SecurityConfig → ParseSecurity
  help : ParseSecurity

pub data SecurityError : Type 0 where
  missing_value token_argument unknown_argument : Text → SecurityError
  no_token no_file not_a_file large_file shared_file unreadable_file : SecurityError
  bad_token : TokenError → SecurityError

-- The metadata of a file and its text, if it can be read as one.
pub record TokenFile : Type 0 where
  pub is_file : Bool
  pub len : ℕ
  pub mode : ℕ
  pub contents : Option Text

-- The variables that the daemon reads, and the file at a path.
pub record Environment : Type 0 where
  pub token_file : Option Text
  pub no_eval : Option Text
  pub ephemeral : Option Text
  pub listen : Option Text
  pub token : Option Text
  pub file_at : Text → Option TokenFile

abbrev pub checked_token : Text → Result SecurityError Text
checked_token token = elim (validate_token token) [ err e ↦ err (bad_token e) | ok _ ↦ ok token ]

abbrev pub is_line_end : ℕ → Bool
is_line_end c = (c == 13) || (c == 10)

abbrev pub read_token : Option Text → Result SecurityError Text
read_token none = err unreadable_file
read_token (some text) = checked_token (trim_end_by is_line_end text)

abbrev pub token_in : TokenFile → Result SecurityError Text
token_in f =
    refuse_if (not f.is_file) not_a_file
    >> refuse_if (ltb (max_token_bytes + 2) f.len) large_file
    >> refuse_if (not (f.mode % 64 == 0)) shared_file
    >> read_token f.contents

-- `load_token_file`, on unix: the last six bits of the mode are those of group and others.
unfoldable pub load_token_file : Environment → Text → Result SecurityError Text
load_token_file env path = elim (env.file_at path) [ none ↦ err no_file | some f ↦ token_in f ]

-- What `is_some_and(|v| !v.is_empty() && v != "0")` says of a variable.
abbrev pub is_set : Option Text → Bool
is_set none = false
is_set (some v) = not (is_empty v) && not (text_eq v (codes "0"))

abbrev pub filled : Option Text → Option Text
filled none = none
filled (some v) = if is_empty v then none else some v

abbrev pub listen_of : Option Text → Option Text
listen_of none = none
listen_of (some v) = if is_empty (trim v) then none else some v

abbrev pub from_environment : Environment → SecurityConfig
from_environment env = record {
  eval_enabled = not (is_set env.no_eval);
  ephemeral_profile = is_set env.ephemeral;
  tcp_listen = listen_of env.listen;
  tcp_token = none;
}

-- What an argument asks for.
pub data Argument : Type 0 where
  disable_eval use_ephemeral set_listen set_token_file give_token ask_help other_argument : Argument

unfoldable pub argument_of : Text → Argument
argument_of arg =
    if text_eq arg (codes "--no-eval")
    then disable_eval
    else if text_eq arg (codes "--ephemeral-profile") || text_eq arg (codes "--ephemeral")
    then use_ephemeral
    else if text_eq arg (codes "--listen")
    then set_listen
    else if text_eq arg (codes "--token-file")
    then set_token_file
    else if text_eq arg (codes "--token")
    then give_token
    else if text_eq arg (codes "--help") || text_eq arg (codes "-h")
    then ask_help
    else other_argument

-- The loop over the arguments: the configuration and the token file it ends with, or help.
abbrev pub Parsed : Type 0
Parsed = Result SecurityError (Option (SecurityConfig × Option Text))

unfoldable pub parse_args : SecurityConfig → Option Text → List Text → Parsed
unfolding argument_of
parse_args config file [] = ok (some (config, file))
parse_args config file (arg ∷ []) = elim (argument_of arg) [
  | disable_eval ↦ ok (some (record config { eval_enabled = false }, file))
  | use_ephemeral ↦ ok (some (record config { ephemeral_profile = true }, file))
  | set_listen ↦ err (missing_value arg)
  | set_token_file ↦ err (missing_value arg)
  | give_token ↦ err (token_argument arg)
  | ask_help ↦ ok none
  | other_argument ↦ err (unknown_argument arg)
]
parse_args config file (arg ∷ value ∷ args) = elim (argument_of arg) [
  | disable_eval ↦ parse_args (record config { eval_enabled = false }) file (value ∷ args)
  | use_ephemeral ↦ parse_args (record config { ephemeral_profile = true }) file (value ∷ args)
  | set_listen ↦ parse_args (record config { tcp_listen = some value }) file args
  | set_token_file ↦ parse_args config (some value) args
  | give_token ↦ err (token_argument arg)
  | ask_help ↦ ok none
  | other_argument ↦ err (unknown_argument arg)
]

abbrev pub environment_token : Option Text → Result SecurityError Text
environment_token none = err no_token
environment_token (some token) = ok token

-- The token of a daemon that listens on TCP.
abbrev pub token_of : Environment → Option Text → Result SecurityError Text
unfolding load_token_file
token_of env (some path) = load_token_file env path
token_of env none = environment_token env.token

abbrev pub with_token : SecurityConfig → Text → ParseSecurity
with_token config token = run (record config { tcp_token = some token })

-- What follows the loop.
unfoldable pub require_token :
    Environment → SecurityConfig → Option Text → Result SecurityError ParseSecurity
unfolding token_of
require_token env config file = elim config.tcp_listen [
  | none ↦ ok (run config)
  | some _ ↦ (token_of env file >>= checked_token) >>= λ token. ok (with_token config token)
]

abbrev pub settle_args :
    Environment → Option (SecurityConfig × Option Text) → Result SecurityError ParseSecurity
unfolding require_token
settle_args env none = ok help
settle_args env (some cf) = require_token env cf.0 cf.1

unfoldable pub parse_security_args : Environment → List Text → Result SecurityError ParseSecurity
unfolding parse_args settle_args
parse_security_args env args =
    parse_args (from_environment env) (filled env.token_file) args >>= settle_args env

-- `SocketAddr`, as far as the listener looks at it; its parser is Rust's.
pub record SocketAddress : Type 0 where
  pub is_loopback : Bool
  pub port : ℕ

pub data ListenError : Type 0 where
  invalid_input permission_denied : ListenError

abbrev pub address_of : (Text → Option SocketAddress) → Text → Result ListenError SocketAddress
address_of parse_address configured = elim (parse_unsigned 16 configured) [
  | some port ↦ ok (record { is_loopback = true; port = port })
  | none ↦ elim (parse_address configured) [ none ↦ err invalid_input | some a ↦ ok a ]
]

abbrev pub on_loopback : SocketAddress → Result ListenError SocketAddress
on_loopback a = if (a.port == 0) || not a.is_loopback then err permission_denied else ok a

unfoldable pub parse_tcp_listen :
    (Text → Option SocketAddress) → Text → Result ListenError SocketAddress
parse_tcp_listen parse_address configured = address_of parse_address configured >>= on_loopback
