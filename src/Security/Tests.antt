-- ===== src/Security/Tests.antt =====
-- A daemon that is told to listen on a port, with its token in the environment.
use hwatu.Common.{◌<◌, ◌≡◌, refl, List, [], ◌∷◌, true, false, none, some, ok, err, replicate}
use hwatu.Common.Text.{Text, codes}
use hwatu.Ipc.Endpoints.{validate_token}
use hwatu.Security.{
  SecurityConfig, run, Environment, parse_security_args, parse_args, argument_of, require_token,
  settle_args, token_argument, parse_tcp_listen, shared_file, load_token_file,
}
use hwatu.Security.Listeners.{IsToken, parse_security_args-IsToken}

abbrev secret : Text
secret = replicate 32 b'x'

abbrev with_secret : Environment
with_secret = record {
  token_file = none;
  no_eval = some (codes "1");
  ephemeral = some (codes "0");
  listen = none;
  token = some secret;
  file_at = λ path. some (record { is_file = true; len = 32; mode = 420; contents = some secret });
}

abbrev on_port : List Text
on_port = codes "--listen" ∷ codes "4000" ∷ []

abbrev listening : SecurityConfig
listening = record {
  eval_enabled = false;
  ephemeral_profile = false;
  tcp_listen = some (codes "4000");
  tcp_token = some secret;
}

parses_listen : parse_security_args with_secret on_port ≡ ok (run listening)
unfolding parse_security_args parse_args argument_of settle_args require_token validate_token
parses_listen = refl

refuses_token_argument :
    parse_security_args with_secret (codes "--token" ∷ secret ∷ [])
    ≡ err (token_argument (codes "--token"))
unfolding parse_security_args parse_args argument_of
refuses_token_argument = refl

-- A file that the group may read, mode 644.
refuses_shared_file :
    parse_security_args with_secret (codes "--token-file" ∷ codes "t" ∷ on_port) ≡ err shared_file
unfolding parse_security_args parse_args argument_of settle_args require_token load_token_file
refuses_shared_file = refl

takes_port :
    parse_tcp_listen (λ s. none) (codes "4000") ≡ ok (record { is_loopback = true; port = 4000 })
unfolding parse_tcp_listen
takes_port = refl

parse_security_args-IsToken_example :
    ((token : Text) × (some secret ≡ some token) × IsToken token) × (true ≡ true) × (0 < 4000)
parse_security_args-IsToken_example =
    parse_security_args-IsToken with_secret on_port listening (λ s. none) (codes "4000")
      (record { is_loopback = true; port = 4000 }) parses_listen refl takes_port
