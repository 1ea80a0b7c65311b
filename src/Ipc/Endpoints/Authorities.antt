-- ===== src/Ipc/Endpoints/Authorities.antt =====
-- What the parser of endpoints accepts.
use hwatu.Common.{
  ℕ, ◌≡◌, refl, [], ◌∷◌, ◌++◌, Bool, true, false, ◌||◌, Option, none, some, Result, ok, err, ◌>>=◌,
  ◌>>◌, refuse_if, arith, Bool-cases, Option-cases, Result-cases, if◌then◌else◌, inl, inr, ◌==◌,
  is_empty, subst, ap, sym, ◌∙◌, ==_iff,
}
use hwatu.Common.Text.{
  Text, codes, trim, is_whitespace, rsplit_once, split_once, strip_prefix, contains, contains_char,
}
use hwatu.Ipc.Endpoints.{
  Endpoint, unix, tcp, EndpointError, white_space, bad_port, port_of, bracketed, unbracketed,
  host_and_port, check_port, validate_tcp_authority, tcp_endpoint, endpoint_of, parse_endpoint,
}

-- Text with a character of the kind.
abbrev Lacks : (ℕ → Bool) → Text → Type 0
Lacks p s = contains_char p s ≡ false

-- `host:port` or `[host]:port`, with the port's number.
pub data IsAuthority : Text → Type 0 where
  plain :
      (host port : Text) (n : ℕ)
      → is_empty host ≡ false
      → contains_char (λ c. c == b':') host ≡ false
      → contains_char (λ c. c == b'/') host ≡ false
      → port_of port ≡ some n
      → IsAuthority (host ++ b':' ∷ port)
  bracket :
      (host port : Text) (n : ℕ)
      → is_empty host ≡ false
      → contains_char (λ c. c == b'[') host ≡ false
      → contains_char (λ c. c == b':') port ≡ false
      → port_of port ≡ some n
      → IsAuthority (b'[' ∷ host ++ b']' ∷ b':' ∷ port)

-- Around an occurrence of the pattern.
abbrev IsSplit : Text → Text → Option (Text × Text) → Type 0
IsSplit pattern s none = Unit
IsSplit pattern s (some ba) = s ≡ ba.0 ++ (pattern ++ ba.1)

rsplit_once-IsSplit : (sep : ℕ) (s : Text) → IsSplit (sep ∷ []) s (rsplit_once sep s)
rsplit_once-IsSplit sep [] = tt
rsplit_once-IsSplit sep (c ∷ s) = elim (Option-cases (rsplit_once sep s)) [
  | inl e ↦ elim (Bool-cases (c == sep)) [
    | inl k ↦ rw (e, k) (ap (λ x. x ∷ s) ((==_iff c sep).0 k))
    | inr k ↦ rw (e, k) tt
  ]
  | inr (ba, e) ↦
      rw e (ap (λ x. c ∷ x) (subst (IsSplit (sep ∷ []) s) e (rsplit_once-IsSplit sep s)))
]

strip_prefix_sound : (p s t : Text) → strip_prefix p s ≡ some t → s ≡ p ++ t
strip_prefix_sound [] s t h = cc
strip_prefix_sound (p ∷ ps) [] t h = cc
strip_prefix_sound (p ∷ ps) (c ∷ s) t h = elim (Bool-cases (p == c)) [
  | inl e ↦ cc ((==_iff p c).0 e, strip_prefix_sound ps s t (rw e at h))
  | inr e ↦ cc (rw e at h)
]

split_once-IsSplit : (p s : Text) → IsSplit p s (split_once p s)
split_once-IsSplit [] [] = refl
split_once-IsSplit (p ∷ ps) [] = tt
split_once-IsSplit p (c ∷ s) = elim (Option-cases (strip_prefix p (c ∷ s))) [
  | inr (after, e) ↦ rw (e, split_once) (strip_prefix_sound p (c ∷ s) after e)
  | inl e ↦ elim (Option-cases (split_once p s)) [
    | inl k ↦ rw (e, k, split_once) tt
    | inr (ba, k) ↦
        rw (e, k, split_once) (ap (λ x. c ∷ x) (subst (IsSplit p s) k (split_once-IsSplit p s)))
  ]
]

or-left : (a b c : Bool) → (a || b || c) ≡ false → (a ≡ false) × (b ≡ false) × (c ≡ false)
or-left a b c h = ground arith

no_port : (port : Text) → port_of port ≡ none → check_port port ≡ err bad_port
no_port port e = rw (e, check_port) refl

-- The port that a check accepts has a number.
check_port-some : (port : Text) → check_port port ≡ ok tt → (n : ℕ) × (port_of port ≡ some n)
check_port-some port h = elim (Option-cases (port_of port)) [
  | inl e ↦ cc (no_port port e, h)
  | inr p ↦ p
]

-- An authority that one of the two forms gives, once its port is checked.
abbrev Gives : Text → Result EndpointError (Text × Text) → Type 0
Gives authority (err e) = Unit
Gives authority (ok hp) = (n : ℕ) → port_of hp.1 ≡ some n → IsAuthority authority

unbracketed-Gives : (authority : Text) → Gives authority (unbracketed authority)
unbracketed-Gives authority = elim (Option-cases (rsplit_once b':' authority)) [
  | inl e ↦ rw (e, unbracketed) tt
  | inr ((host, port), e) ↦
      let colons = contains_char (λ c. c == b':') host in
      let slashes = contains_char (λ c. c == b'/') host in
      let here = subst (IsSplit (b':' ∷ []) authority) e (rsplit_once-IsSplit b':' authority) in
      elim (Bool-cases (is_empty host || colons || slashes)) [
        | inl k ↦ rw (e, k, unbracketed) tt
        | inr k ↦
            let good = or-left (is_empty host) colons slashes k in
            rw (e, k, unbracketed)
              (λ n p. subst IsAuthority (sym here) (plain host port n good.0 good.1 good.2 p))
      ]
]

bracketed-Gives :
    (authority rest : Text) → authority ≡ b'[' ∷ rest → Gives authority (bracketed rest)
bracketed-Gives authority rest opens = elim (Option-cases (split_once (codes "]:") rest)) [
  | inl e ↦ rw (e, bracketed) tt
  | inr ((host, port), e) ↦
      let opening = contains_char (λ c. c == b'[') host in
      let colons = contains_char (λ c. c == b':') port in
      let here = subst (IsSplit (codes "]:") rest) e (split_once-IsSplit (codes "]:") rest) in
      elim (Bool-cases (is_empty host || opening || colons)) [
        | inl k ↦ rw (e, k, bracketed) tt
        | inr k ↦
            let good = or-left (is_empty host) opening colons k in
            rw (e, k, bracketed)
              (λ n p.
                subst IsAuthority (sym (opens ∙ ap (λ x. b'[' ∷ x) here))
                  (bracket host port n good.0 good.1 good.2 p))
      ]
]

host_and_port-Gives : (authority : Text) → Gives authority (host_and_port authority)
host_and_port-Gives authority = elim (Option-cases (strip_prefix (codes "[") authority)) [
  | inl e ↦ rw (e, host_and_port) (unbracketed-Gives authority)
  | inr (rest, e) ↦
      rw (e, host_and_port)
        (bracketed-Gives authority rest (strip_prefix_sound (codes "[") authority rest e))
]

refused :
    {E : Type 0} (b : Bool) (e : E) (k : Result E (Unit {0}))
    → (refuse_if b e >> k) ≡ ok tt
    → (b ≡ false) × (k ≡ ok tt)
refused true e k h = cc
refused false e k h = (refl, h)

given :
    (authority : Text) (r : Result EndpointError (Text × Text))
    → Gives authority r
    → (r >>= λ hp. check_port hp.1) ≡ ok tt
    → IsAuthority authority
given authority (err e) g h = cc
given authority (ok hp) g h = let p = check_port-some hp.1 h in g p.0 p.1

validate-IsAuthority :
    (authority : Text)
    → validate_tcp_authority authority ≡ ok tt
    → Lacks is_whitespace authority × IsAuthority authority
unfolding validate_tcp_authority
validate-IsAuthority authority h =
    let both =
      refused (contains_char is_whitespace authority) white_space
        (host_and_port authority >>= λ hp. check_port hp.1) h in
    (both.0, given authority (host_and_port authority) (host_and_port-Gives authority) both.1)

-- What an accepted endpoint looks like.
abbrev pub IsWellFormed : Endpoint → Type 0
IsWellFormed (unix path) = is_empty path ≡ false
IsWellFormed (tcp authority) = Lacks is_whitespace authority × IsAuthority authority

abbrev Fine : Result EndpointError Endpoint → Type 0
Fine (err e) = Unit
Fine (ok e) = IsWellFormed e

tcp_endpoint-Fine : (a : Text) → Fine (tcp_endpoint a)
tcp_endpoint-Fine a = elim (Result-cases (validate_tcp_authority a)) [
  | inl (e, r) ↦ rw (r, tcp_endpoint) tt
  | inr (u, r) ↦ rw (r, tcp_endpoint) (validate-IsAuthority a r)
]

if-Fine :
    (b : Bool) (x y : Result EndpointError Endpoint)
    → (b ≡ true → Fine x)
    → (b ≡ false → Fine y)
    → Fine (if b then x else y)
if-Fine true x y f g = f refl
if-Fine false x y f g = g refl

endpoint_of-Fine : (value : Text) → Fine (endpoint_of value)
endpoint_of-Fine value =
    if-Fine (is_empty value) _ _ (λ _. tt)
      (λ some_value. elim (Option-cases (strip_prefix (codes "tcp://") value)) [
        | inr (a, t) ↦ rw t (tcp_endpoint-Fine a)
        | inl t ↦ elim (Option-cases (strip_prefix (codes "unix://") value)) [
          | inr (path, u) ↦ rw (t, u) (if-Fine (is_empty path) _ _ (λ _. tt) (λ e. e))
          | inl u ↦
              rw (t, u)
                (if-Fine (contains (codes "://") value) _ _ (λ _. tt)
                  (λ _.
                    if-Fine (contains_char (λ c. c == b':') value) _ _
                      (λ _. tcp_endpoint-Fine value) (λ _. some_value)))
        ]
      ])

-- Whatever the parser of endpoints accepts is well formed: a Unix path that is not empty, or a TCP
-- authority without white space that is `host:port` or `[host]:port`, with a host that is not empty
-- and has no colon and no slash (in brackets: no opening bracket), and a port that `port_of` reads.
pub parse_endpoint-IsWellFormed :
    (value : Text) (e : Endpoint) → parse_endpoint value ≡ ok e → IsWellFormed e
unfolding parse_endpoint
parse_endpoint-IsWellFormed value e h = subst Fine h (endpoint_of-Fine (trim value))
