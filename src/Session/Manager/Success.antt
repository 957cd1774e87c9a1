-- ===== src/Session/Manager/Success.antt =====
-- What a `CreateSession` that succeeds has done.
use rdp_warp_portal.Prelude.{
  ℕ, ◌≡◌, refl, sym, subst, ap, ◌∙◌, Bool, true, false, if◌then◌else◌, Option, Option-cases, none,
  some, inl, inr, nat_eq, text_eq, Text, ok, arith, beq_refl,
}
use rdp_warp_portal.Prelude.Assoc.{insert, lookup-insert, insert_again}
use rdp_warp_portal.Session.ConfigWriter.{delete_config, generate_config_bytes}
use rdp_warp_portal.Session.Manager.{Manager, Session, active, check_admission, register}
use rdp_warp_portal.Session.Manager.Create.{
  Request, start_proxy, remove_config, new_session, wait_ready, launch, configure, identify,
  take_ports, create_session,
}
use rdp_warp_portal.Session.Manager.Failures.{write_config-cases}
use rdp_warp_portal.Session.PortPool.Alloc.{allocate_found}
use rdp_warp_portal.Session.PortPool.{allocate, internal_port}
use rdp_warp_portal.Session.Token.{Token, generate_token, new_token}

-- `s` is the session that the request asks for.
pub record IsMade (r : Request) (m : Manager) (s : Session) : Type 0 where
  pub id_of : generate_token r.id_bytes ≡ some s.id
  pub token_of : new_token r.token_bytes r.now m.config.token_ttl ≡ some s.token
  pub process_of : r.process ≡ some s.pid
  pub ports_of : (allocate m.port_pool).1 ≡ ok (s.external_port, s.internal_port)
  pub made_of : s ≡ new_session r m s.id s.token s.external_port s.internal_port s.pid

-- What is in the directory of a session after `WriteConfig` and the removal of its file.
abbrev pub left_file : Request → Manager → Text → ℕ → Option Text
left_file r m id port =
    if m.os.removes_file id
    then none
    else some (generate_config_bytes m.config.cert_dir port r.creds)

-- The manager once `s` is registered.
abbrev pub with_session : Request → Session → Manager → Manager
with_session r s m = record m {
  sessions = insert s.id (record s { state = active }) m.sessions;
  port_pool = (allocate m.port_pool).0;
  directories = insert s.id (left_file r m s.id s.internal_port) m.directories;
  proxies = insert s.pid s.internal_port m.proxies;
}

wait_ready-ok :
    (r : Request) (s s' : Session) (m m' : Manager)
    → wait_ready r s m ≡ (m', ok s')
    → (s' ≡ s) × (m' ≡ register s (remove_config s.id m))
unfolding wait_ready
wait_ready-ok r s s' m m' h = (ground arith, ground arith)

launch-ok :
    (r : Request) (id : Text) (token : Token) (ext int : ℕ) (m m' : Manager) (s : Session)
    → launch r id token ext int m ≡ (m', ok s)
    → (pid : ℕ) × (r.process ≡ some pid)
      × (s ≡ new_session r m id token ext int pid)
      × (m' ≡ register s (remove_config s.id (start_proxy pid int m)))
unfolding launch
launch-ok r id token ext int m m' s h = elim (Option-cases r.process) [
  | inl none_started ↦ absurd (cc (rw (none_started, launch) at h))
  | inr (pid, started) ↦
      let (same, left) =
        wait_ready-ok r (new_session r m id token ext int pid) s (start_proxy pid int m) m'
          (rw (started, launch) at h) in
      (
        pid,
        started,
        same,
        left ∙ ap (λ x. register x (remove_config x.id (start_proxy pid int m))) (sym same),
      )
]

-- The file that the proxy has read is gone, if the system removes it; its directory stays.
delete_config-insert :
    (removes : Bool) (id file : Text) (m : Manager)
    → delete_config removes id (insert id (some file) m.directories)
      ≡ insert id (if removes then none else some file) m.directories
unfolding delete_config
delete_config-insert false id file m = refl
delete_config-insert true id file m =
    rw (delete_config, lookup-insert id id (some file) m.directories, beq_refl id)
      (insert_again id none (some file) m.directories)

configure-ok :
    (r : Request) (id : Text) (token : Token) (ext int : ℕ) (m m' : Manager) (s : Session)
    → configure r id token ext int m ≡ (m', ok s)
    → (pid : ℕ) × (r.process ≡ some pid)
      × (s ≡ new_session r m id token ext int pid)
      × (m'
          ≡ register s (
              start_proxy pid int
                (record m { directories = insert id (left_file r m id int) m.directories })))
unfolding configure remove_config start_proxy new_session
configure-ok r id token ext int m m' s h =
    elim (write_config-cases r.write m.config.cert_dir id int r.creds m) [
      | inl e ↦ absurd (cc (rw (e, configure) at h))
      | inr e ↦
          let file = generate_config_bytes m.config.cert_dir int r.creds in
          let (pid, started, same, left) =
            launch-ok r id token ext int
              (record m { directories = insert id (some file) m.directories }) m' s
              (rw (e, configure) at h) in
          let same_id : s.id ≡ id = ap (λ x. x.id) same in
          (
            pid,
            started,
            same,
            left
                ∙ ap
                    (λ k. register s (
                      start_proxy pid int (record m {
                        directories =
                            delete_config (m.os.removes_file k) k
                              (insert id (some file) m.directories);
                      })))
                    same_id
                ∙ ap (λ d. register s (start_proxy pid int (record m { directories = d })))
                    (delete_config-insert (m.os.removes_file id) id file m),
          )
    ]

identify-ok :
    (r : Request) (ext int : ℕ) (m m' : Manager) (s : Session)
    → identify r ext int m ≡ (m', ok s)
    → (id : Text) × (token : Token) × (pid : ℕ) × (generate_token r.id_bytes ≡ some id)
      × (new_token r.token_bytes r.now m.config.token_ttl ≡ some token)
      × (r.process ≡ some pid)
      × (s ≡ new_session r m id token ext int pid)
      × (m'
          ≡ register s (
              start_proxy pid int
                (record m { directories = insert id (left_file r m id int) m.directories })))
unfolding identify
identify-ok r ext int m m' s h = elim (Option-cases (generate_token r.id_bytes)) [
  | inl none_made ↦ absurd (cc (rw (none_made, identify) at h))
  | inr (id, made) ↦ elim (Option-cases (new_token r.token_bytes r.now m.config.token_ttl)) [
    | inl no_bytes ↦ absurd (cc (rw (made, identify, no_bytes) at h))
    | inr (token, minted) ↦
        let (pid, started, same, left) =
          configure-ok r id token ext int m m' s (rw (made, identify, minted) at h) in
        (id, token, pid, made, minted, started, same, left)
  ]
]

new_session-IsMade :
    (r : Request) (m : Manager) (id : Text) (token : Token) (ext int pid : ℕ)
    → generate_token r.id_bytes ≡ some id
    → new_token r.token_bytes r.now m.config.token_ttl ≡ some token
    → r.process ≡ some pid
    → (allocate m.port_pool).1 ≡ ok (ext, int)
    → IsMade r m (new_session r m id token ext int pid)
unfolding new_session
new_session-IsMade r m id token ext int pid made minted started found = record {
  id_of = made;
  token_of = minted;
  process_of = started;
  ports_of = found;
  made_of = refl;
}

-- What the stages after `Allocate` do, seen from the manager that the call found.
with_session-identify :
    (r : Request) (m m' : Manager) (s : Session) (ext int : ℕ)
    → (allocate m.port_pool).1 ≡ ok (ext, int)
    → identify r ext int (record m { port_pool = (allocate m.port_pool).0 }) ≡ (m', ok s)
    → IsMade r m s × (m' ≡ with_session r s m)
unfolding register start_proxy new_session
with_session-identify r m m' s ext int found h =
    let (id, token, pid, made, minted, started, same, left) =
      identify-ok r ext int (record m { port_pool = (allocate m.port_pool).0 }) m' s h in
    let made_with = new_session r m id token ext int pid in
    let good : IsMade r m made_with
        × (register made_with (
              start_proxy pid int (record m {
                port_pool = (allocate m.port_pool).0;
                directories = insert id (left_file r m id int) m.directories;
              }))
            ≡ with_session r made_with m) =
      (new_session-IsMade r m id token ext int pid made minted started found, refl) in
    let (fine, end) =
      subst
        (λ x.
          IsMade r m x
          × (register x (
                start_proxy pid int (record m {
                  port_pool = (allocate m.port_pool).0;
                  directories = insert id (left_file r m id int) m.directories;
                }))
              ≡ with_session r x m))
        (sym same) good in
    (fine, left ∙ end)

-- A `CreateSession` that succeeds was admitted; it returns a session with an id, a token and a
-- process of its own and the ports that `Allocate` gives, and leaves the manager with that session
-- active, its ports in use, its proxy running, and its directory made: the file with the credentials is
-- gone if the system removes it, and else it is in that directory. Nothing else has changed.
pub create_session-ok :
    (r : Request) (m m' : Manager) (s : Session)
    → create_session r m ≡ (m', ok s)
    → (check_admission m ≡ none) × IsMade r m s × (m' ≡ with_session r s m)
unfolding create_session take_ports check_admission
create_session-ok r m m' s h = elim (Option-cases (check_admission m)) [
  | inr (e, refused) ↦ absurd (cc (rw (refused, create_session) at h))
  | inl admitted ↦ elim (allocate_found m.port_pool) [
    | inr (full, _) ↦ absurd (cc (rw (admitted, create_session, take_ports, full) at h))
    | inl (port, found, _) ↦
        let (fine, end) =
          with_session-identify r m m' s port (internal_port m.port_pool port) (ap (λ x. x.1) found)
            (rw (admitted, create_session, take_ports, found) at h) in
        (admitted, fine, end)
  ]
]
