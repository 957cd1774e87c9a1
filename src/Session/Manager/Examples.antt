-- ===== src/Session/Manager/Examples.antt =====
-- Tests of the manager, and its theorems at concrete calls.
use rdp_warp_portal.Prelude.{
  ◌≡◌, ◌≢◌, refl, true, false, none, some, [], ◌∷◌, codes, text_beq, text_eq, nat_eq, beq_eq, ok,
  err, arith, ◌⊎◌,
}
use rdp_warp_portal.Prelude.Assoc.{lookup, insert}
use rdp_warp_portal.Session.ConfigWriter.{
  TargetCredentials, removed, generate_config_bytes, written, no_file, write_config, delete_config,
}
use rdp_warp_portal.Session.Manager.Create.{Request, create_session}
use rdp_warp_portal.Session.Manager.Failures.{IsFresh, IsUndoable, inside, create_session-err}
use rdp_warp_portal.Session.Manager.Success.{IsMade, create_session-ok, with_session}
use rdp_warp_portal.Session.Manager.Ending.{
  Keyed, terminate_session_cases, terminate_session-create_session, without_session,
}
use rdp_warp_portal.Session.Manager.Terminate.{terminate_session}
use rdp_warp_portal.Session.Manager.{
  OsAnswers, register, Manager, ManagerConfig, Session, creating, active, terminating, terminated,
  config_not_written, proxy_not_ready, check_admission, is_ending, session_not_found,
}
use rdp_warp_portal.Session.PortPool.{PortPool, allocate, held, IsValid}
use rdp_warp_portal.Session.Token.Encoding.{encode}
use rdp_warp_portal.Session.Token.{generate_token, new_token}

abbrev pub config : ManagerConfig
config = record {
  broker_host = codes "broker";
  broker_domain = codes "P0RTAL";
  cert_dir = codes "/certs";
  max_concurrent_sessions = 2;
  session_max_duration = 480;
  token_ttl = 60;
}

abbrev pub pool : PortPool
pool = record { start_port = 33400; end_port = 33401; internal_offset = 10000; in_use = [] }

pool-IsValid : IsValid pool
pool-IsValid = record { distinct = tt; marked = tt }

-- A system that kills and removes all that it is asked to.
abbrev pub obeys : OsAnswers
obeys = record { kills = λ pid. true; removes = λ id. removed; removes_file = λ id. true }

abbrev pub manager : Manager
manager = record {
  config = config;
  sessions = [];
  history = [];
  port_pool = pool;
  shut_down = false;
  directories = [];
  proxies = [];
  os = obeys;
}

abbrev pub creds : TargetCredentials
creds = record {
  hostname = codes "dc-01";
  ip = codes "10.0.0.5";
  port = 3389;
  username = codes "bob@corp";
  password = codes "pw";
  domain = codes "CORP";
}

-- Short random bytes stand for the 32 that the source draws.
abbrev pub call : Request
call = record {
  user_id = codes "bob";
  creds = creds;
  client_ip = codes "10.0.0.7";
  id_bytes = some (0 ∷ 1 ∷ 2 ∷ []);
  token_bytes = some (3 ∷ 4 ∷ 5 ∷ []);
  now = 1000;
  write = written;
  process = some 77;
  ready = true;
}

call-IsFresh : IsFresh call manager
unfolding lookup
call-IsFresh = record { new_id = λ id h. refl; new_pid = λ pid h. refl }

late_call-IsFresh : IsFresh (record call { ready = false }) manager
unfolding lookup
late_call-IsFresh = record { new_id = λ id h. refl; new_pid = λ pid h. refl }

abbrev pub session : Session
session = record {
  id = encode (0 ∷ 1 ∷ 2 ∷ []);
  user_id = codes "bob";
  target_id = codes "dc-01";
  username = codes "bob@corp";
  target_host = codes "10.0.0.5";
  external_port = 33400;
  internal_port = 43400;
  client_ip = codes "10.0.0.7";
  state = creating;
  pid = 77;
  created_at = 1000;
  connected_at = none;
  expires_at = 1480;
  token = record { value = encode (3 ∷ 4 ∷ 5 ∷ []); expiry = 1060; consumed = false };
}

created : create_session call manager ≡ ((create_session call manager).0, ok session)
unfolding create_session check_admission allocate held generate_token new_token encode write_config
    delete_config lookup insert text_beq
created = refl

-- A proxy that does not listen in time.
abbrev late_call : Request
late_call = record call { ready = false }

too_late : (create_session late_call manager).1 ≡ err proxy_not_ready
unfolding create_session check_admission allocate held generate_token new_token encode write_config
    delete_config lookup insert text_beq
too_late = refl

-- A file that cannot be opened leaves its directory behind.
left_behind :
    (create_session (record call { write = no_file }) manager).0.directories
    ≡ (encode (0 ∷ 1 ∷ 2 ∷ []), none) ∷ []
unfolding create_session check_admission allocate held generate_token new_token encode write_config
    delete_config lookup insert text_beq
left_behind = refl

create_session-err_example :
    let left = (create_session late_call manager).0 in
    (inside left manager ≡ manager)
    × (proxy_not_ready ≢ config_not_written → IsUndoable late_call manager → left ≡ manager)
unfolding create_session check_admission allocate held generate_token new_token encode write_config
    delete_config lookup insert text_beq
create_session-err_example =
    create_session-err late_call manager (create_session late_call manager).0 proxy_not_ready
      pool-IsValid late_call-IsFresh refl

create_session-ok_example :
    (check_admission manager ≡ none)
    × IsMade call manager session
    × ((create_session call manager).0 ≡ with_session call session manager)
create_session-ok_example =
    create_session-ok call manager (create_session call manager).0 session created

call-IsUndoable : IsUndoable call manager
call-IsUndoable = record { kills = λ pid h. refl; removes = λ id h. refl }

-- A system that removes no file leaves the credentials in the directory.
credentials_left :
    (create_session call
      (record manager { os = record obeys { removes_file = λ id. false } })).0.directories
    ≡ (session.id, some (generate_config_bytes config.cert_dir 43400 creds)) ∷ []
unfolding create_session check_admission allocate held generate_token new_token encode write_config
    delete_config lookup insert text_beq register
credentials_left = refl

terminate_session-create_session_example :
    let ended = record manager { history = record session { state = terminated } ∷ [] } in
    (terminate_session session.id (create_session call manager).0 ≡ (ended, none))
    × (terminate_session session.id ended ≡ (ended, some session_not_found))
unfolding lookup
terminate_session-create_session_example =
    terminate_session-create_session call manager (create_session call manager).0 session
      pool-IsValid call-IsFresh call-IsUndoable refl created

-- A manager with one session, as `CreateSession` leaves it.
abbrev busy : Manager
busy = record manager {
  sessions = (session.id, record session { state = active }) ∷ [];
  port_pool = record pool { in_use = (33400, true) ∷ [] };
  directories = (session.id, none) ∷ [];
  proxies = (77, 43400) ∷ [];
}

busy-Keyed : Keyed busy
unfolding lookup
busy-Keyed id s h = ground (arith, beq_eq session.id id)

terminate_session_cases_example :
    ((lookup session.id busy.sessions ≡ none)
      × (terminate_session session.id busy ≡ (busy, some session_not_found)))
    ⊎ (s : Session) × (lookup session.id busy.sessions ≡ some s)
      × (((is_ending s.state ≡ true) × (terminate_session session.id busy ≡ (busy, none)))
          ⊎ ((is_ending s.state ≡ false)
              × (terminate_session session.id busy ≡ (without_session s busy, none))))
terminate_session_cases_example = terminate_session_cases session.id busy busy-Keyed

abbrev leaving_session : Session
leaving_session = record session { state = terminating }

abbrev leaving : Manager
leaving = record busy { sessions = (session.id, leaving_session) ∷ [] }

leaving-Keyed : Keyed leaving
unfolding lookup
leaving-Keyed id s h = ground (arith, beq_eq session.id id)
