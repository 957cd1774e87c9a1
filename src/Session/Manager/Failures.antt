-- ===== src/Session/Manager/Failures.antt =====
-- What a `CreateSession` that fails leaves behind.
use rdp_warp_portal.Prelude.{
  ℕ, ◌≡◌, refl, sym, ap, ◌∙◌, ◌≢◌, ◌⊎◌, true, false, Option-cases, none, some, inl, inr, nat_eq,
  text_eq, Text, err, arith, if◌then◌else◌,
}
use rdp_warp_portal.Prelude.Assoc.{lookup, insert, delete, delete-insert}
use rdp_warp_portal.Session.ConfigWriter.{
  TargetCredentials, WriteOutcome, written, no_directory, no_file, cut_short, write_config,
  cleanup_session, generate_config_bytes, removed,
}
use rdp_warp_portal.Session.Manager.{
  Manager, ManagerError, Session, config_not_written, check_admission,
}
use rdp_warp_portal.Session.Manager.Create.{
  Request, give_back, start_proxy, stop_proxy, remove_directory, new_session, wait_ready, launch,
  configure, identify, take_ports, create_session,
}
use rdp_warp_portal.Session.PortPool.Alloc.{allocate_found}
use rdp_warp_portal.Session.PortPool.Release.{release-allocate}
use rdp_warp_portal.Session.PortPool.{IsValid, allocate, release, internal_port}
use rdp_warp_portal.Session.Token.{Token, generate_token, new_token}

-- The id is new to the session directories, and the process to those that run.
pub record IsFresh (r : Request) (m : Manager) : Type 0 where
  pub new_id : (id : Text) → generate_token r.id_bytes ≡ some id → lookup id m.directories ≡ none
  pub new_pid : (pid : ℕ) → r.process ≡ some pid → lookup pid m.proxies ≡ none

wait_ready-err :
    (r : Request) (s : Session) (m m' : Manager) (e : ManagerError)
    → wait_ready r s m ≡ (m', err e)
    → m' ≡ give_back s.external_port (remove_directory s.id (stop_proxy s.pid m))
unfolding wait_ready
wait_ready-err r s m m' e h = ground arith

-- The system kills the process of the request, and removes the directory of its session.
pub record IsUndoable (r : Request) (m : Manager) : Type 0 where
  pub kills : (pid : ℕ) → r.process ≡ some pid → m.os.kills pid ≡ true
  pub removes : (id : Text) → generate_token r.id_bytes ≡ some id → m.os.removes id ≡ removed

-- `m'` with the directories and the proxies of `m`.
abbrev pub inside : Manager → Manager → Manager
inside m' m = record m' { directories = m.directories; proxies = m.proxies }

stop_proxy-start_proxy :
    (pid port : ℕ) (m : Manager)
    → m.os.kills pid ≡ true
    → lookup pid m.proxies ≡ none
    → stop_proxy pid (start_proxy pid port m) ≡ m
unfolding stop_proxy start_proxy
stop_proxy-start_proxy pid port m kills new =
    ap
      (λ b. record m {
        proxies = if b then delete pid (insert pid port m.proxies) else insert pid port m.proxies;
      })
      kills
    ∙ ap (λ proxies. record m { proxies = proxies }) (delete-insert pid port m.proxies new)

launch-err :
    (r : Request) (id : Text) (token : Token) (ext int : ℕ) (m m' : Manager) (e : ManagerError)
    → ((pid : ℕ) → r.process ≡ some pid → lookup pid m.proxies ≡ none)
    → launch r id token ext int m ≡ (m', err e)
    → (inside m' m ≡ give_back ext m)
      × (((pid : ℕ) → r.process ≡ some pid → m.os.kills pid ≡ true)
          → m' ≡ give_back ext (remove_directory id m))
unfolding launch new_session give_back remove_directory stop_proxy start_proxy
launch-err r id token ext int m m' e new h = elim (Option-cases r.process) [
  | inl none_started ↦
      let left : m' ≡ give_back ext (remove_directory id m) = cc (rw (none_started, launch) at h) in
      (ap (λ x. inside x m) left, λ _. left)
  | inr (pid, started) ↦
      let undone =
        wait_ready-err r (new_session r m id token ext int pid) (start_proxy pid int m) m' e
          (rw (started, launch) at h) in
      (
        ap (λ x. inside x m) undone,
        λ kills.
            undone
            ∙ ap (λ left. give_back ext (remove_directory id left))
                (stop_proxy-start_proxy pid int m (kills pid started) (new pid started)),
      )
]

-- The write is complete, or the directories are as they were but for what it left.
pub write_config-cases :
    (w : WriteOutcome) (cert_dir id : Text) (port : ℕ) (creds : TargetCredentials) (m : Manager)
    → (write_config w cert_dir id port creds m.directories
        ≡ ((write_config w cert_dir id port creds m.directories).0, false))
      ⊎ (write_config w cert_dir id port creds m.directories
          ≡ (insert id (some (generate_config_bytes cert_dir port creds)) m.directories, true))
unfolding write_config
write_config-cases no_directory cert_dir id port creds m = inl refl
write_config-cases no_file cert_dir id port creds m = inl refl
write_config-cases (cut_short part) cert_dir id port creds m = inl refl
write_config-cases written cert_dir id port creds m = inr refl

-- `m'` is `m` with the port given back, but for the directories and the proxies where the write has
-- failed or the system does not undo what was done.
abbrev Undone : Request → ℕ → ManagerError → Manager → Manager → Type 0
Undone r ext e m' m =
    (inside m' m ≡ give_back ext m)
    × (e ≢ config_not_written → IsUndoable r m → m' ≡ give_back ext m)

configure-err :
    (r : Request) (id : Text) (token : Token) (ext int : ℕ) (m m' : Manager) (e : ManagerError)
    → generate_token r.id_bytes ≡ some id
    → lookup id m.directories ≡ none
    → ((pid : ℕ) → r.process ≡ some pid → lookup pid m.proxies ≡ none)
    → configure r id token ext int m ≡ (m', err e)
    → Undone r ext e m' m
unfolding configure give_back remove_directory cleanup_session
configure-err r id token ext int m m' e made new_dir new_pid h =
    elim (write_config-cases r.write m.config.cert_dir id int r.creds m) [
      | inl e₁ ↦
          let failed = rw (e₁, configure) at h in
          (ap (λ x. inside x.0 m) (sym failed), λ other undoable. absurd (other (cc)))
      | inr e₁ ↦
          let file = some (generate_config_bytes m.config.cert_dir int r.creds) in
          let (kept, all) =
            launch-err r id token ext int (record m { directories = insert id file m.directories })
              m' e new_pid (rw (e₁, configure) at h) in
          (
            ap (λ x. inside x m) kept,
            λ other undoable.
                all undoable.kills
                ∙ ap
                    (λ a. give_back ext (record m {
                      directories = cleanup_session a id (insert id file m.directories);
                    }))
                    (undoable.removes id made)
                ∙ ap (λ dirs. give_back ext (record m { directories = dirs }))
                    (delete-insert id file m.directories new_dir),
          )
    ]

identify-err :
    (r : Request) (ext int : ℕ) (m m' : Manager) (e : ManagerError)
    → IsFresh r m
    → identify r ext int m ≡ (m', err e)
    → Undone r ext e m' m
unfolding identify give_back
identify-err r ext int m m' e fresh h = elim (Option-cases (generate_token r.id_bytes)) [
  | inl none_made ↦
      let left : m' ≡ give_back ext m = ground arith in (ap (λ x. inside x m) left, λ _ _. left)
  | inr (id, made) ↦ elim (Option-cases (new_token r.token_bytes r.now m.config.token_ttl)) [
    | inl no_bytes ↦
        let left : m' ≡ give_back ext m = ground arith in (ap (λ x. inside x m) left, λ _ _. left)
    | inr (token, minted) ↦
        configure-err r id token ext int m m' e made (fresh.new_id id made) fresh.new_pid
          (rw (made, identify, minted) at h)
  ]
]

-- A `CreateSession` that fails leaves the manager as it was, the pool and the sessions included, but for
-- the session directories and the proxies. Those are as before too, for an id and a process that are
-- new, if the failure is not that the configuration could not be written and if the system kills the
-- process and removes the directory of the session.
pub create_session-err :
    (r : Request) (m m' : Manager) (e : ManagerError)
    → IsValid m.port_pool
    → IsFresh r m
    → create_session r m ≡ (m', err e)
    → (inside m' m ≡ m) × (e ≢ config_not_written → IsUndoable r m → m' ≡ m)
unfolding create_session take_ports check_admission
create_session-err r m m' e valid fresh h = elim (Option-cases (check_admission m)) [
  | inr (e₁, refused) ↦
      let left : m ≡ m' = ap (λ x. x.0) (rw (refused, create_session) at h) in
      (ap (λ x. inside x m) (sym left), λ _ _. sym left)
  | inl admitted ↦ elim (allocate_found m.port_pool) [
    | inr (full, _) ↦
        let left : m ≡ m' =
          ap (λ x. record m { port_pool = x.0 }) (sym full)
          ∙ ap (λ x. x.0) (rw (admitted, create_session, take_ports, full) at h) in
        (ap (λ x. inside x m) (sym left), λ _ _. sym left)
    | inl (port, found, _) ↦
        let pool = (allocate m.port_pool).0 in
        let inner = internal_port m.port_pool port in
        let back : release pool port ≡ (m.port_pool, none) =
          release-allocate m.port_pool port inner valid (ap (λ x. x.1) found) in
        let undone : give_back port (record m { port_pool = pool }) ≡ m =
          ap (λ x. record m { port_pool = x.0 }) back in
        let (kept, all) =
          identify-err r port inner (record m { port_pool = pool }) m' e
            (record { new_id = fresh.new_id; new_pid = fresh.new_pid })
            (rw (admitted, create_session, take_ports, found) at h) in
        (
          ap (λ x. inside x m) kept ∙ undone,
          λ other undoable.
              all other (record { kills = undoable.kills; removes = undoable.removes }) ∙ undone,
        )
  ]
]
