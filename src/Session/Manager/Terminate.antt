-- ===== src/Session/Manager/Terminate.antt =====
-- `TerminateSession`, and `Shutdown`.
use rdp_warp_portal.Prelude.{
  true, Option, none, some, List, [], ◌∷◌, if◌then◌else◌, Text, Result, ok, err,
}
use rdp_warp_portal.Session.Manager.{
  Manager, ManagerError, Session, begin_termination, finish_termination,
}
use rdp_warp_portal.Session.Manager.Create.{give_back, stop_proxy, remove_directory}

-- Between the two critical sections.
unfoldable pub release_resources : Session → Manager → Manager
unfolding give_back stop_proxy remove_directory
release_resources s m = remove_directory s.id (give_back s.external_port (stop_proxy s.pid m))

-- What follows the first critical section.
unfoldable pub end_found :
    Manager × Result ManagerError (Option Session) → Manager × Option ManagerError
unfolding release_resources
end_found (m, err e) = (m, some e)
end_found (m, ok none) = (m, none)
end_found (m, ok (some s)) = (finish_termination s (release_resources s m), none)

unfoldable pub terminate_session : Text → Manager → Manager × Option ManagerError
unfolding end_found
terminate_session id m = end_found (begin_termination id m)

-- The ids that `Shutdown` collects.
unfoldable pub session_ids : List (Text × Session) → List Text
session_ids [] = []
session_ids ((id, s) ∷ rest) = id ∷ session_ids rest

unfoldable pub terminate_all : List Text → Manager → Manager
unfolding terminate_session
terminate_all [] m = m
terminate_all (id ∷ ids) m = terminate_all ids (terminate_session id m).0

-- `shutdownOnce` runs the body once: later calls do nothing. The terminations run in parallel in the
-- source, and touch different sessions; here they run one after the other, with no deadline.
unfoldable pub shutdown : Manager → Manager
unfolding session_ids terminate_all
shutdown m =
    if m.shut_down
    then m
    else terminate_all (session_ids m.sessions) (record m { shut_down = true })
