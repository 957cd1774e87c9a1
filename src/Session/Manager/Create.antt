-- ===== src/Session/Manager/Create.antt =====
-- `CreateSession`: its stages, each of which undoes what the earlier ones did when it fails.
use rdp_warp_portal.Prelude.{
  ℕ, ◌+◌, Bool, Option, none, some, if◌then◌else◌, nat_eq, text_eq, Text, Result, ok, err,
}
use rdp_warp_portal.Prelude.Assoc.{insert, delete}
use rdp_warp_portal.Session.ConfigWriter.{
  TargetCredentials, WriteOutcome, write_config, delete_config, cleanup_session,
}
use rdp_warp_portal.Session.Manager.{
  Manager, ManagerError, Session, creating, check_admission, register, ports_failed, no_session_id,
  no_token, config_not_written, proxy_not_started, proxy_not_ready,
}
use rdp_warp_portal.Session.PortPool.{allocate, release}
use rdp_warp_portal.Session.Token.{Token, generate_token, new_token}

-- What a call is given, and what the system answers to it: the random bytes of the id and of the
-- token, the clock, how far the write comes, the process that is started, and whether it listens
-- in time.
pub record Request : Type 0 where
  pub user_id : Text
  pub creds : TargetCredentials
  pub client_ip : Text
  pub id_bytes : Option Text
  pub token_bytes : Option Text
  pub now : ℕ
  pub write : WriteOutcome
  pub process : Option ℕ
  pub ready : Bool

unfoldable pub give_back : ℕ → Manager → Manager
give_back port m = record m { port_pool = (release m.port_pool port).0 }

-- `StartProxy` runs a process; `StopProxy` kills it, if the system can, and does not wait.
unfoldable pub start_proxy : ℕ → ℕ → Manager → Manager
start_proxy pid port m = record m { proxies = insert pid port m.proxies }

unfoldable pub stop_proxy : ℕ → Manager → Manager
stop_proxy pid m = record m { proxies = if m.os.kills pid then delete pid m.proxies else m.proxies }

unfoldable pub remove_directory : Text → Manager → Manager
remove_directory id m = record m {
  directories = cleanup_session (m.os.removes id) id m.directories;
}

unfoldable pub remove_config : Text → Manager → Manager
remove_config id m = record m {
  directories = delete_config (m.os.removes_file id) id m.directories;
}

-- The session object.
unfoldable pub new_session : Request → Manager → Text → Token → ℕ → ℕ → ℕ → Session
new_session r m id token external_port internal_port pid = record {
  id = id;
  user_id = r.user_id;
  target_id = r.creds.hostname;
  username = r.creds.username;
  target_host = r.creds.ip;
  external_port = external_port;
  internal_port = internal_port;
  client_ip = r.client_ip;
  state = creating;
  pid = pid;
  created_at = r.now;
  connected_at = none;
  expires_at = r.now + m.config.session_max_duration;
  token = token;
}

-- From `WaitReady` on.
unfoldable pub wait_ready : Request → Session → Manager → Manager × Result ManagerError Session
unfolding give_back stop_proxy remove_directory remove_config
wait_ready r s m = if r.ready then (register s (remove_config s.id m), ok s) else (
  give_back s.external_port (remove_directory s.id (stop_proxy s.pid m)),
  err proxy_not_ready,
)

-- From `StartProxy` on.
unfoldable pub launch :
    Request → Text → Token → ℕ → ℕ → Manager → Manager × Result ManagerError Session
unfolding give_back remove_directory start_proxy wait_ready new_session
launch r id token external_port internal_port m = elim r.process [
  | none ↦ (give_back external_port (remove_directory id m), err proxy_not_started)
  | some pid ↦
      wait_ready r (new_session r m id token external_port internal_port pid)
        (start_proxy pid internal_port m)
]

-- From `WriteConfig` on.
unfoldable pub configure :
    Request → Text → Token → ℕ → ℕ → Manager → Manager × Result ManagerError Session
unfolding give_back launch
configure r id token external_port internal_port m =
    let (directories, complete) =
      write_config r.write m.config.cert_dir id internal_port r.creds m.directories in
    let m' = record m { directories = directories } in
    if complete
    then launch r id token external_port internal_port m'
    else (give_back external_port m', err config_not_written)

-- From `GenerateToken` on.
unfoldable pub identify : Request → ℕ → ℕ → Manager → Manager × Result ManagerError Session
unfolding give_back configure
identify r external_port internal_port m = elim (generate_token r.id_bytes) [
  | none ↦ (give_back external_port m, err no_session_id)
  | some id ↦ elim (new_token r.token_bytes r.now m.config.token_ttl) [
    | none ↦ (give_back external_port m, err no_token)
    | some token ↦ configure r id token external_port internal_port m
  ]
]

-- From `Allocate` on.
unfoldable pub take_ports : Request → Manager → Manager × Result ManagerError Session
unfolding identify
take_ports r m =
    let (pool, ports) = allocate m.port_pool in
    elim ports [
      | err e ↦ (record m { port_pool = pool }, err ports_failed)
      | ok (external_port, internal_port) ↦
          identify r external_port internal_port (record m { port_pool = pool })
    ]

unfoldable pub create_session : Request → Manager → Manager × Result ManagerError Session
unfolding check_admission take_ports
create_session r m = elim (check_admission m) [ some e ↦ (m, err e) | none ↦ take_ports r m ]
