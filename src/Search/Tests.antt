-- ===== src/Search/Tests.antt =====
-- Concrete searches.
use hwatu.Common.{ℕ, ◌<◌, ◌≡◌, refl, List, [], ◌∷◌, ◌++◌, All, Option, none, some, arith}
use hwatu.Common.Text.{Text, codes}
use hwatu.Search.{encode_bytes, encode_byte, url_for, keyword_in, resolve_engine}
use hwatu.Search.Input.{is_loopback_host, looks_like_host, host_url, normalize_url}
use hwatu.Search.Escapes.{decode, decode-encode_bytes}

-- `a b&` and a byte of a longer character.
abbrev some_bytes : List ℕ
some_bytes = 97 ∷ 32 ∷ 98 ∷ 38 ∷ 195 ∷ []

escaped : encode_bytes some_bytes ≡ codes "a+b%26%C3"
unfolding encode_bytes encode_byte
escaped = refl

by_keyword_test :
    url_for (some (codes "google\nw https://w.org/?s=%s\n")) none (codes " W two words ")
    ≡ codes "https://w.org/?s=two+words"
unfolding url_for keyword_in resolve_engine encode_bytes encode_byte
by_keyword_test = refl

are_bytes : All (λ (b : ℕ). b < 256) some_bytes
are_bytes = (omega arith, (omega arith, (omega arith, (omega arith, (omega arith, tt)))))

decode-encode_bytes_example : decode (encode_bytes some_bytes) ≡ some_bytes
decode-encode_bytes_example = decode-encode_bytes some_bytes are_bytes

abbrev no_path : Text → Option Text
no_path p = none

abbrev some_path : Text → Option Text
some_path p = some (codes "/srv/" ++ p)

abbrev file_uri : Text → Option Text
file_uri p = some (codes "file://" ++ p)

loopback_test :
    normalize_url no_path file_uri none none (codes " LocalHost:5173/x ")
    ≡ codes "http://LocalHost:5173/x"
unfolding normalize_url host_url is_loopback_host
loopback_test = refl

host_test :
    normalize_url no_path file_uri none none (codes "docs.rs/a?b") ≡ codes "https://docs.rs/a?b"
unfolding normalize_url host_url is_loopback_host looks_like_host
host_test = refl

searched_test :
    normalize_url no_path file_uri none none (codes "a b.c")
    ≡ codes "https://duckduckgo.com/?q=a+b.c"
unfolding normalize_url host_url is_loopback_host looks_like_host url_for encode_bytes encode_byte
searched_test = refl

-- What stands before `://` is not looked at.
no_scheme_test :
    normalize_url no_path file_uri none none (codes "what is :// ?") ≡ codes "what is :// ?"
unfolding normalize_url
no_scheme_test = refl
