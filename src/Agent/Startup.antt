-- ===== src/Agent/Startup.antt =====
-- agent/internal/config/config.go, and the connection to the broker at the start of `runAgent` in
-- agent/cmd/p0rtal-agent/main.go. The file system, the environment and the broker are arguments.
pub mod Bounds
use rdp_warp_portal.Prelude.{
  ℕ, zero, suc, ◌+◌, Bool, true, false, Option, none, some, List, [], ◌∷◌, text_eq, Text, codes,
  if◌then◌else◌, ◌==◌, ℤ, pos, negsuc, Result, ok, err,
}
use rdp_warp_portal.Strings.{atoi}

pub record Config : Type 0 where
  pub proxy_url : Text
  pub api_key : Text
  pub ffmpeg_path : Text
  pub framerate : ℤ
  pub chunk_secs : ℤ
  pub poll_interval : ℤ
  pub resize_poll_ms : ℤ

-- A setting that is not positive gives way to the default.
unfoldable pub positive_or : ℕ → ℤ → ℤ
positive_or default (pos zero) = pos default
positive_or default (pos (suc n)) = pos (suc n)
positive_or default (negsuc n) = pos default

unfoldable pub apply_defaults : Config → Config
unfolding positive_or
apply_defaults cfg = record cfg {
  ffmpeg_path = if cfg.ffmpeg_path == [] then codes "ffmpeg" else cfg.ffmpeg_path;
  framerate = positive_or 5 cfg.framerate;
  chunk_secs = positive_or 30 cfg.chunk_secs;
  poll_interval = positive_or 5 cfg.poll_interval;
  resize_poll_ms = positive_or 1000 cfg.resize_poll_ms;
}

-- A file that cannot be read or decoded is `none`.
unfoldable pub load : Option Config → Option Config
unfolding apply_defaults
load none = none
load (some cfg) = some (apply_defaults cfg)

-- An integer of the environment: zero if it is not set or not a number.
unfoldable pub env_int : Text → ℤ
unfolding atoi
env_int value = elim (atoi value) [ none ↦ pos 0 | some n ↦ n ]

unfoldable pub load_from_env : (Text → Text) → Config
unfolding env_int apply_defaults
load_from_env getenv = apply_defaults (record {
  proxy_url = getenv (codes "PROXY_URL");
  api_key = getenv (codes "API_KEY");
  ffmpeg_path = getenv (codes "FFMPEG_PATH");
  framerate = env_int (getenv (codes "FRAMERATE"));
  chunk_secs = env_int (getenv (codes "CHUNK_SECS"));
  poll_interval = env_int (getenv (codes "POLL_INTERVAL"));
  resize_poll_ms = env_int (getenv (codes "RESIZE_POLL_MS"));
})

pub data StartError : Type 0 where
  no_proxy_url no_ffmpeg cannot_connect stopped : StartError

-- The file, or else the environment.
unfoldable pub read_config : Option Config → (Text → Text) → Config
unfolding load_from_env
read_config none getenv = load_from_env getenv
read_config (some cfg) getenv = cfg

-- The settings, with the path of ffmpeg.
unfoldable pub settings :
    Option Config → (Text → Text) → (Text → Option Text) → Result StartError Config
unfolding load read_config
settings file getenv ensure_installed =
    let cfg = read_config (load file) getenv in
    if cfg.proxy_url == [] then err no_proxy_url else elim (ensure_installed cfg.ffmpeg_path) [
      | none ↦ err no_ffmpeg
      | some path ↦ ok (record cfg { ffmpeg_path = path })
    ]

abbrev pub connect_delays : List ℕ
connect_delays = 1 ∷ 2 ∷ 4 ∷ 8 ∷ 15 ∷ 30 ∷ []

-- What the loop comes to, with the health checks made and the seconds waited.
pub record Connection : Type 0 where
  pub result : Result StartError (Unit {0})
  pub checks : ℕ
  pub waited : ℕ

-- The delays that are left, the attempt, the answers of the broker by attempt, and whether the context
-- is done after it.
unfoldable pub connect_from : List ℕ → ℕ → ℕ → (ℕ → Bool) → (ℕ → Bool) → Connection
connect_from [] attempt waited healthy done = record {
  result = if healthy attempt then ok tt else err cannot_connect;
  checks = suc attempt;
  waited = waited;
}
connect_from (delay ∷ delays) attempt waited healthy done =
    let rest = connect_from delays (suc attempt) (waited + delay) healthy done in
    if healthy attempt
    then record { result = ok tt; checks = suc attempt; waited = waited }
    else if done attempt
    then record { result = err stopped; checks = suc attempt; waited = waited }
    else rest

unfoldable pub connect : (ℕ → Bool) → (ℕ → Bool) → Connection
unfolding connect_from
connect healthy done = connect_from connect_delays 0 0 healthy done

-- The file next to the executable: none, a part that a failed extraction left, or ffmpeg.
pub data LocalFile : Type 0 where
  absent part whole : LocalFile

-- How the download and the extraction end: before a file is made, while it is written, or well.
pub data Download : Type 0 where
  not_made cut_off complete : Download

unfoldable pub extracted : Download → LocalFile → Text → LocalFile × Option Text
extracted not_made file path = (file, none)
extracted cut_off file path = (part, none)
extracted complete file path = (whole, some path)

-- The path of ffmpeg: that of the settings, the one of the system, or the one next to the executable,
-- which is downloaded if nothing is there.
unfoldable pub ensure_installed :
    (Text → Option Text) → Option Text → Download → Text → LocalFile → LocalFile × Option Text
unfolding extracted
ensure_installed look_path local_path download configured file =
    let configured_there = if configured == [] then none else look_path configured in
    let locally : LocalFile × Option Text = elim local_path [
      | none ↦ (file, none)
      | some path ↦ elim file [
        | absent ↦ extracted download absent path
        | part ↦ (part, some path)
        | whole ↦ (whole, some path)
      ]
    ] in
    elim configured_there [
      | some path ↦ (file, some path)
      | none ↦ elim (look_path (codes "ffmpeg")) [ some path ↦ (file, some path) | none ↦ locally ]
    ]
