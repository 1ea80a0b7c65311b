-- ===== src/Server/Permits.antt =====
-- `TcpPermit` of crates/hwatud/src/ipc_server.rs: the bound on TCP connections, under every
-- interleaving of the atomic operations of `acquire` and `drop`.
use hwatu.Common.{
  ℕ, suc, ◌+◌, ◌-◌, ◌%◌, ◌^◌, ◌≤◌, ◌≡◌, refl, Bool, not, ◌&&◌, List, [], ◌∷◌, ◌++◌, leb, ◌==◌,
  if◌then◌else◌, arith,
}

abbrev pub max_tcp_connections : ℕ
max_tcp_connections = 64

abbrev pub u32_mod : ℕ
u32_mod = 2 ^ 32

-- What one round of the loop of `acquire` comes to.
pub data Round : Type 0 where
  refused acquired : Round
  again : ℕ → Round

-- One round, with `current` what it believes the counter to be. The exchange fails where the counter
-- is another by now, and may fail for no reason.
unfoldable pub acquire_round : ℕ → Bool → ℕ → Round × ℕ
acquire_round connections spurious current =
    if leb max_tcp_connections current
    then (refused, connections)
    else if connections == current && not spurious
    then (acquired, (connections + 1) % u32_mod)
    else (again connections, connections)

-- `fetch_sub(1)`.
unfoldable pub release : ℕ → ℕ
release connections = (connections + (u32_mod - 1)) % u32_mod

-- The counter, how many permits are held, and the calls of `acquire` under way.
pub record Tcp : Type 0 where
  pub connections : ℕ
  pub permits : ℕ
  pub trying : List ℕ

-- What a round does to the connection that called it; the others under way are `before` and `after`.
unfoldable pub end_round : ℕ → List ℕ → List ℕ → Round × ℕ → Tcp
end_round permits before after (refused, n) = record {
  connections = n;
  permits = permits;
  trying = before ++ after;
}
end_round permits before after (acquired, n) = record {
  connections = n;
  permits = permits + 1;
  trying = before ++ after;
}
end_round permits before after (again c, n) = record {
  connections = n;
  permits = permits;
  trying = before ++ c ∷ after;
}

pub data Step : Tcp → Tcp → Type 0 where
  loads :
      (n k : ℕ) (ts : List ℕ)
      → Step
          (record { connections = n; permits = k; trying = ts })
          (record { connections = n; permits = k; trying = n ∷ ts })
  rounds :
      (n k current : ℕ) (spurious : Bool) (before after : List ℕ)
      → Step
          (record { connections = n; permits = k; trying = before ++ current ∷ after })
          (end_round k before after (acquire_round n spurious current))
  drops :
      (n k : ℕ) (ts : List ℕ)
      → Step
          (record { connections = n; permits = suc k; trying = ts })
          (record { connections = release n; permits = k; trying = ts })

pub data Reachable : Tcp → Type 0 where
  start : Reachable (record { connections = 0; permits = 0; trying = [] })
  step : {s t : Tcp} → Reachable s → Step s t → Reachable t

end_round_counts :
    (n k current : ℕ) (spurious : Bool) (before after : List ℕ)
    → n ≡ k
    → k ≤ max_tcp_connections
    → let t = end_round k before after (acquire_round n spurious current) in
      (t.connections ≡ t.permits) × (t.permits ≤ max_tcp_connections)
unfolding end_round acquire_round
end_round_counts n k current spurious before after e h = ground arith

-- Whatever the order in which connections load the counter, exchange it, fail to, are refused or are
-- dropped, the counter is the number of permits held, at most 64, and so neither wraps around.
pub Reachable-counts :
    {s : Tcp} → Reachable s → (s.connections ≡ s.permits) × (s.permits ≤ max_tcp_connections)
unfolding release
Reachable-counts start = (refl, omega arith)
Reachable-counts (step r (loads n k ts)) = Reachable-counts r
Reachable-counts (step r (rounds n k current spurious before after)) =
    let h = Reachable-counts r in end_round_counts n k current spurious before after h.0 h.1
Reachable-counts (step r (drops n k ts)) = let h = Reachable-counts r in (omega arith, omega arith)
