-- ===== src/Agent/Startup/Bounds.antt =====
-- The settings of the agent, and its connection to the broker.
use rdp_warp_portal.Prelude.{
  ℕ, zero, suc, ◌+◌, ◌≤◌, ◌<◌, ◌≡◌, refl, ◌↔◌, subst, Bool, true, false, Option, none, some, List,
  [], ◌∷◌, text_eq, Text, length, arith, Bool-cases, Option-cases, inl, inr, Result, ok, ◌==◌, ℤ,
  pos,
}
use rdp_warp_portal.Agent.Startup.{
  Config, positive_or, apply_defaults, load, load_from_env, read_config, settings, connect_from,
  connect, connect_delays, StartError,
}

abbrev pub IsPositive : ℤ → Type 0
IsPositive n = (k : ℕ) × (n ≡ pos (suc k))

-- The settings that the recorder relies on.
pub record IsUsable (cfg : Config) : Type 0 where
  pub framerate : IsPositive cfg.framerate
  pub chunk_secs : IsPositive cfg.chunk_secs
  pub poll_interval : IsPositive cfg.poll_interval
  pub resize_poll_ms : IsPositive cfg.resize_poll_ms

positive_or-IsPositive : (k : ℕ) (n : ℤ) → IsPositive (positive_or (suc k) n)
unfolding positive_or
positive_or-IsPositive k (pos zero) = (k, refl)
positive_or-IsPositive k (pos (suc n)) = (n, refl)
positive_or-IsPositive k (ℤ.negsuc n) = (k, refl)

apply_defaults-IsUsable : (cfg : Config) → IsUsable (apply_defaults cfg)
unfolding apply_defaults
apply_defaults-IsUsable cfg = record {
  framerate = positive_or-IsPositive 4 cfg.framerate;
  chunk_secs = positive_or-IsPositive 29 cfg.chunk_secs;
  poll_interval = positive_or-IsPositive 4 cfg.poll_interval;
  resize_poll_ms = positive_or-IsPositive 999 cfg.resize_poll_ms;
}

read_config-IsUsable :
    (file : Option Config) (getenv : Text → Text) → IsUsable (read_config (load file) getenv)
unfolding load read_config load_from_env
read_config-IsUsable none getenv = apply_defaults-IsUsable _
read_config-IsUsable (some cfg) getenv = apply_defaults-IsUsable cfg

abbrev Started : Result StartError Config → Config → Type 0
Started result cfg = result ≡ ok cfg

ok_same : (a b : Config) → Started (ok a) b → a ≡ b
ok_same a b h = cc

-- Settings that the agent starts with are usable, whatever the file and the environment hold.
pub settings-IsUsable :
    (file : Option Config) (getenv : Text → Text) (ensure_installed : Text → Option Text)
    (cfg : Config)
    → settings file getenv ensure_installed ≡ ok cfg
    → IsUsable cfg
unfolding settings
settings-IsUsable file getenv ensure_installed cfg h =
    let read = read_config (load file) getenv in
    elim (Bool-cases (read.proxy_url == [])) [
      | inl missing ↦ absurd (cc (rw (settings, missing) at h))
      | inr set ↦ elim (Option-cases (ensure_installed read.ffmpeg_path)) [
        | inl gone ↦ absurd (cc (rw (settings, set, gone) at h))
        | inr (path, found) ↦
            let same : record read { ffmpeg_path = path } ≡ cfg =
              ok_same _ cfg (rw (settings, set, found) at h) in
            let usable = read_config-IsUsable file getenv in
            subst IsUsable same (record {
              framerate = usable.framerate;
              chunk_secs = usable.chunk_secs;
              poll_interval = usable.poll_interval;
              resize_poll_ms = usable.resize_poll_ms;
            })
      ]
    ]

connected_by :
    (delays : List ℕ) (i waited : ℕ) (healthy done : ℕ → Bool)
    → (connect_from delays i waited healthy done).result ≡ ok tt
    → (j : ℕ) × (j < i + suc (length delays)) × (healthy j ≡ true)
unfolding connect_from
connected_by [] i waited healthy done h = elim (Bool-cases (healthy i)) [
  | inl well ↦ (i, omega arith, well)
  | inr ill ↦ absurd (cc (rw (connect_from, ill) at h))
]
connected_by (delay ∷ delays) i waited healthy done h = elim (Bool-cases (healthy i)) [
  | inl well ↦ (i, omega arith, well)
  | inr ill ↦ elim (Bool-cases (done i)) [
    | inl over ↦ absurd (cc (rw (connect_from, ill, over) at h))
    | inr going ↦
        let (j, below, well) =
          connected_by delays (suc i) (waited + delay) healthy done
            (rw (connect_from, ill, going) at h) in
        (j, omega arith, well)
  ]
]

connects_by :
    (delays : List ℕ) (i waited j : ℕ) (healthy done : ℕ → Bool)
    → ((k : ℕ) → done k ≡ false)
    → i ≤ j
    → j < i + suc (length delays)
    → healthy j ≡ true
    → (connect_from delays i waited healthy done).result ≡ ok tt
unfolding connect_from
connects_by [] i waited j healthy done going from below well =
    let same : j ≡ i = omega arith in rw (connect_from, rw same at well) refl
connects_by (delay ∷ delays) i waited j healthy done going from below well =
    ground (arith, going i, connects_by delays (suc i) (waited + delay) j healthy done going)

-- If the agent is not stopped and the broker answers one of the first seven checks, the agent connects.
-- Otherwise it gives up, after at most 60 seconds of waiting in any case.
pub connect_lem :
    (healthy done : ℕ → Bool)
    → ((i : ℕ) → done i ≡ false)
    → (((connect healthy done).result ≡ ok tt) ↔ ((i : ℕ) × (i < 7) × (healthy i ≡ true)))
      × ((connect healthy done).checks ≤ 7)
      × ((connect healthy done).waited ≤ 60)
unfolding connect connect_from
connect_lem healthy done going = (
  (
    λ h. connected_by connect_delays 0 0 healthy done h,
    λ h. connects_by connect_delays 0 0 h.0 healthy done going (omega arith) h.1 h.2,
  ),
  ground arith,
  ground arith,
)
