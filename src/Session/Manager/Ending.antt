-- ===== src/Session/Manager/Ending.antt =====
-- What `TerminateSession` does, once and again.
use rdp_warp_portal.Prelude.{
  ◌≡◌, refl, sym, subst, ap, ◌∙◌, true, false, Bool-cases, Option-cases, none, some, inl, inr, ◌⊎◌,
  nat_eq, text_eq, Text, ok, err, arith, ◌++◌, ◌∷◌, [], beq_refl, if◌then◌else◌,
}
use rdp_warp_portal.Prelude.Assoc.{
  lookup, insert, delete, lookup-insert, delete-insert_any, delete-insert,
}
use rdp_warp_portal.Session.ConfigWriter.{cleanup_session}
use rdp_warp_portal.Session.Manager.Create.{
  Request, create_session, give_back, stop_proxy, remove_directory,
}
use rdp_warp_portal.Session.Manager.Failures.{IsFresh, IsUndoable}
use rdp_warp_portal.Session.Manager.Success.{left_file, create_session-ok, with_session, IsMade}
use rdp_warp_portal.Session.Manager.Terminate.{terminate_session, end_found, release_resources}
use rdp_warp_portal.Session.Manager.{
  Manager, Session, active, terminating, terminated, is_ending, session_not_found,
  begin_termination, finish_termination,
}
use rdp_warp_portal.Session.PortPool.Release.{release-allocate}
use rdp_warp_portal.Session.PortPool.{IsValid, release}

-- The manager without a session that it had: its process killed and its directory removed as far as the
-- system does so, its port released, and the session at the end of the history.
abbrev pub without_session : Session → Manager → Manager
without_session s m = record m {
  sessions = delete s.id m.sessions;
  history = m.history ++ (record s { state = terminated } ∷ []);
  port_pool = (release m.port_pool s.external_port).0;
  directories = cleanup_session (m.os.removes s.id) s.id m.directories;
  proxies = if m.os.kills s.pid then delete s.pid m.proxies else m.proxies;
}

-- Each session stands under its id.
abbrev pub Keyed : Manager → Type 0
Keyed m = (id : Text) (s : Session) → lookup id m.sessions ≡ some s → s.id ≡ id

begin_live :
    (s : Session) (m : Manager)
    → lookup s.id m.sessions ≡ some s
    → is_ending s.state ≡ false
    → let s' = record s { state = terminating } in
      begin_termination s.id m ≡ (record m { sessions = insert s.id s' m.sessions }, ok (some s'))
unfolding begin_termination
begin_live s m found live = rw (begin_termination, found, live) refl

begin_missing :
    (id : Text) (m : Manager)
    → lookup id m.sessions ≡ none
    → begin_termination id m ≡ (m, err session_not_found)
unfolding begin_termination
begin_missing id m missing = rw (begin_termination, missing) refl

terminate_live :
    (s : Session) (m : Manager)
    → lookup s.id m.sessions ≡ some s
    → is_ending s.state ≡ false
    → terminate_session s.id m ≡ (without_session s m, none)
unfolding terminate_session finish_termination release_resources give_back stop_proxy
    remove_directory cleanup_session
terminate_live s m found live =
    ap end_found (begin_live s m found live)
    ∙ ap (λ left. (record (without_session s m) { sessions = left }, none))
        (delete-insert_any s.id (record s { state = terminating }) m.sessions)

-- The session that was just made, taken away again.
without_session-with_session :
    (r : Request) (m : Manager) (s : Session)
    → IsValid m.port_pool
    → IsFresh r m
    → IsUndoable r m
    → lookup s.id m.sessions ≡ none
    → IsMade r m s
    → without_session (record s { state = active }) (with_session r s m)
      ≡ record m { history = m.history ++ (record s { state = terminated } ∷ []) }
unfolding cleanup_session
without_session-with_session r m s valid fresh undoable new made =
    rw
      (
        undoable.kills s.pid made.process_of,
        undoable.removes s.id made.id_of,
        delete-insert s.id (record s { state = active }) m.sessions new,
        delete-insert s.id (left_file r m s.id s.internal_port) m.directories
            (fresh.new_id s.id made.id_of),
        delete-insert s.pid s.internal_port m.proxies (fresh.new_pid s.pid made.process_of),
        release-allocate m.port_pool s.external_port s.internal_port valid made.ports_of,
      )
      refl

-- `TerminateSession` of an id that is not registered reports so, and of a session that is ending already
-- does nothing. Any other session goes to the history with its port released; its process and its
-- directory go as far as the system kills the one and removes the other. Each session must stand under
-- its id.
pub terminate_session_cases :
    (id : Text) (m : Manager)
    → Keyed m
    → ((lookup id m.sessions ≡ none) × (terminate_session id m ≡ (m, some session_not_found)))
      ⊎ (s : Session) × (lookup id m.sessions ≡ some s)
        × (((is_ending s.state ≡ true) × (terminate_session id m ≡ (m, none)))
            ⊎ ((is_ending s.state ≡ false)
                × (terminate_session id m ≡ (without_session s m, none))))
unfolding terminate_session begin_termination
terminate_session_cases id m keyed = elim (Option-cases (lookup id m.sessions)) [
  | inl missing ↦ inl (missing, ground arith)
  | inr (s, found) ↦ inr (
    s,
    found,
    elim (Bool-cases (is_ending s.state)) [
      | inl ending ↦ inl (ending, ground arith)
      | inr live ↦ inr (
        live,
        subst (λ k. terminate_session k m ≡ (without_session s m, none)) (keyed id s found)
            (terminate_live s m
              (subst (λ k. lookup k m.sessions ≡ some s) (sym (keyed id s found)) found) live),
      )
    ],
  )
]

-- Ending the session that a `CreateSession` has just made, whose id and process were new, gives back
-- the manager as it was before, with that session at the end of the history, if the system kills the
-- process and removes the directory: the pool, the proxies and the directories are the same. Ending it
-- again finds no session and changes nothing.
pub terminate_session-create_session :
    (r : Request) (m m' : Manager) (s : Session)
    → IsValid m.port_pool
    → IsFresh r m
    → IsUndoable r m
    → lookup s.id m.sessions ≡ none
    → create_session r m ≡ (m', ok s)
    → let ended = record m { history = m.history ++ (record s { state = terminated } ∷ []) } in
      (terminate_session s.id m' ≡ (ended, none))
      × (terminate_session s.id ended ≡ (ended, some session_not_found))
unfolding terminate_session begin_termination
terminate_session-create_session r m m' s valid fresh undoable new h =
    let (_, made, end) = create_session-ok r m m' s h in
    let s' = record s { state = active } in
    let ended = record m { history = m.history ++ (record s { state = terminated } ∷ []) } in
    let once =
      terminate_live s' (with_session r s m)
        (lookup-insert s.id s.id s' m.sessions ∙ rw (beq_refl s.id) refl) refl in
    (
      subst (λ x. terminate_session s.id x ≡ (ended, none)) (sym end)
          (once
            ∙ ap (λ x. (x, none))
                (without_session-with_session r m s valid fresh undoable new made)),
      ap end_found (begin_missing s.id ended new),
    )
