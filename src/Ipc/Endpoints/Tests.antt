-- ===== src/Ipc/Endpoints/Tests.antt =====
-- Concrete endpoints and tokens.
use hwatu.Common.{◌≡◌, refl, ok, err, replicate}
use hwatu.Common.Text.{codes}
use hwatu.Ipc.Endpoints.{
  unix, tcp, parse_endpoint, validate_tcp_authority, bad_port, validate_token, short_token,
}
use hwatu.Ipc.Endpoints.Authorities.{IsWellFormed, parse_endpoint-IsWellFormed}

brackets : parse_endpoint (codes " tcp://[::1]:8741") ≡ ok (tcp (codes "[::1]:8741"))
unfolding parse_endpoint validate_tcp_authority
brackets = refl

port_zero : parse_endpoint (codes "localhost:0") ≡ err bad_port
unfolding parse_endpoint validate_tcp_authority
port_zero = refl

plain_path : parse_endpoint (codes "/run/hwatu.sock") ≡ ok (unix (codes "/run/hwatu.sock"))
unfolding parse_endpoint validate_tcp_authority
plain_path = refl

token_of_31 : validate_token (replicate 31 b'a') ≡ err short_token
unfolding validate_token
token_of_31 = refl

parse_endpoint-IsWellFormed_example : IsWellFormed (tcp (codes "[::1]:8741"))
parse_endpoint-IsWellFormed_example =
    parse_endpoint-IsWellFormed (codes " tcp://[::1]:8741") (tcp (codes "[::1]:8741")) brackets
