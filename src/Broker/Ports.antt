-- ===== src/Broker/Ports.antt =====
-- The ports of the broker's settings.
use rdp_warp_portal.Prelude.{
  ℕ, ◌+◌, ◌≤◌, ◌<◌, ◌≡◌, ◌≢◌, refl, subst, some, [], text_eq, Text, codes, arith, Bool-cases, inl,
  inr, ◌==◌, pos,
}
use rdp_warp_portal.Broker.{BrokerConfig, load_config, port_pool_size}

-- A port of the range.
abbrev pub InRange : BrokerConfig → ℕ → Type 0
InRange c p = (c.proxy_port_start ≤ p) × (p ≤ c.proxy_port_end)

abbrev IsApart : ℕ → ℕ → BrokerConfig → Type 0
IsApart p q c =
    (port_pool_size c ≡ pos 101)
    × (InRange c p
        → InRange c q
        → (p ≢ c.api_port)
          × (p + c.proxy_internal_offset < 65536)
          × (p + c.proxy_internal_offset ≢ q))

loaded : (getenv : Text → Text) (a b : BrokerConfig) → some a ≡ some b → a ≡ b
loaded getenv a b h = cc

load_config-IsApart :
    (getenv : Text → Text) (c : BrokerConfig) (p q : ℕ)
    → load_config getenv ≡ some c
    → IsApart p q c
unfolding load_config port_pool_size
load_config-IsApart getenv c p q h = elim (Bool-cases (getenv (codes "BROKER_HOST") == [])) [
  | inl missing ↦ absurd (cc (rw (load_config, missing) at h))
  | inr set ↦ subst (IsApart p q) (loaded getenv _ c (rw (load_config, set) at h)) (
    refl,
    λ a b.
        let (low, high) = a in
        let (from, to) = b in
        (λ same. absurd (omega arith), omega arith, λ same. absurd (omega arith)),
  )
]

-- Whatever the environment holds, the settings that are loaded have 101 ports for sessions, of which
-- none is the port of the API or the internal port of another, and all internal ports have 16 bits.
pub load_config_ports :
    (getenv : Text → Text) (c : BrokerConfig) (p q : ℕ)
    → load_config getenv ≡ some c
    → InRange c p
    → InRange c q
    → (port_pool_size c ≡ pos 101)
      × (p ≢ c.api_port)
      × (p + c.proxy_internal_offset < 65536)
      × (p + c.proxy_internal_offset ≢ q)
load_config_ports getenv c p q h a b =
    let (size, apart) = load_config-IsApart getenv c p q h in
    let (own, narrow, other) = apart a b in (size, own, narrow, other)
