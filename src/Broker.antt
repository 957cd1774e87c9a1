-- ===== src/Broker.antt =====
-- proxy/internal/config/config.go and its use in proxy/cmd/broker/main.go: the settings of the broker.
-- Durations are in seconds. The environment is a function from names to values, empty if not set.
pub mod Ports
use rdp_warp_portal.Prelude.{
  ℕ, ◌+◌, ◌-◌, ◌*◌, Bool, true, false, not, ◌&&◌, Option, none, some, List, [], ◌∷◌, text_eq, Text,
  codes, if◌then◌else◌, ◌==◌, ℤ, sub_ℕ,
}
use rdp_warp_portal.Session.PortPool.{PortPool, new_port_pool}

pub record BrokerConfig : Type 0 where
  pub broker_host : Text
  pub api_key : Text
  pub log_level : Text
  pub api_port : ℕ
  pub broker_domain : Text
  pub proxy_port_start : ℕ
  pub proxy_port_end : ℕ
  pub proxy_internal_offset : ℕ
  pub credential_provider : Text
  pub credential_provider_config : Text
  pub cert_dir : Text
  pub session_dir : Text
  pub recordings_dir : Text
  pub web_dir : Text
  pub freerdp_proxy_bin : Text
  pub max_concurrent_sessions : ℕ
  pub session_max_duration : ℕ
  pub token_ttl : ℕ
  pub log_format : Text
  pub azure_credential_url : Text
  pub gcp_wif_audience : Text
  pub gcp_service_account : Text
  pub gcp_project_id : Text

unfoldable pub get_env_string : (Text → Text) → Text → Text → Text
get_env_string getenv key default = if getenv key == [] then default else getenv key

-- The settings, unless the host is missing.
unfoldable pub load_config : (Text → Text) → Option BrokerConfig
unfolding get_env_string
load_config getenv =
    let cfg : BrokerConfig = record {
      broker_host = getenv (codes "BROKER_HOST");
      api_key = getenv (codes "API_KEY");
      log_level = get_env_string getenv (codes "LOG_LEVEL") (codes "info");
      api_port = 8080;
      broker_domain = codes "P0RTAL";
      proxy_port_start = 33400;
      proxy_port_end = 33500;
      proxy_internal_offset = 11000;
      credential_provider = codes "mock";
      credential_provider_config = codes "/etc/rdp-broker/targets.json";
      cert_dir = codes "/etc/rdp-broker/certs";
      session_dir = codes "/tmp/sessions";
      recordings_dir =
          get_env_string getenv (codes "RECORDINGS_DIR") (codes "/var/lib/p0rtal/recordings");
      web_dir = get_env_string getenv (codes "WEB_DIR") (codes "/usr/share/p0rtal/web");
      freerdp_proxy_bin = codes "freerdp-proxy";
      max_concurrent_sessions = 100;
      session_max_duration = 8 * 3600;
      token_ttl = 5 * 60;
      log_format = codes "json";
      azure_credential_url = getenv (codes "AZURE_CREDENTIAL_URL");
      gcp_wif_audience = getenv (codes "GCP_WIF_AUDIENCE");
      gcp_service_account = getenv (codes "GCP_SERVICE_ACCOUNT");
      gcp_project_id = getenv (codes "GCP_PROJECT_ID");
    } in
    if cfg.broker_host == [] then none else some cfg

unfoldable pub port_pool_size : BrokerConfig → ℤ
port_pool_size c = sub_ℕ (c.proxy_port_end + 1) c.proxy_port_start

unfoldable pub wif_configured : BrokerConfig → Bool
wif_configured c =
    not (c.azure_credential_url == [])
    && not (c.gcp_wif_audience == [])
    && not (c.gcp_service_account == [])

-- The pool that `main` makes.
unfoldable pub broker_pool : BrokerConfig → PortPool
unfolding new_port_pool
broker_pool c = new_port_pool c.proxy_port_start c.proxy_port_end c.proxy_internal_offset
