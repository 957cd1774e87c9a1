-- ===== src/Agent/Client/Broker.antt =====
-- The agent's requests at the broker: agent/internal/client/client.go with the router and the handlers
-- of proxy/internal/api.
use rdp_warp_portal.Prelude.{
  ◌≡◌, refl, ◌↔◌, ◌∙◌, ap, sym, inl, inr, false, none, some, List, [], ◌++◌, text_eq, nat_eq, Text,
  codes, Result, ok, err, if◌then◌else◌, ◌==◌, Bool-cases, Option-cases, text_beq,
}
use rdp_warp_portal.Strings.{index, has_prefix, to_lower}
use rdp_warp_portal.Access.Router.{
  HttpRequest, Router, serves, serve_http, by_rule, by_shared_key, by_key-serves, bearer,
  is_session_request,
}
use rdp_warp_portal.Agent.Client.{Client, recording_gone, status_error, new_request}
use rdp_warp_portal.Recording.Api.{send_events, status_of, failure_status}
use rdp_warp_portal.Recording.Store.{
  Disk, Lines, Write, unreadable_events, StoreError, recording_not_found, unreadable_metadata,
  file_failed, ffmpeg_failed, append_events,
}

bearer_key : (key : Text) → bearer (codes "Bearer " ++ key) ≡ some key
unfolding bearer index has_prefix to_lower text_beq
bearer_key key = refl

by_shared_key-served :
    (r : Router) (req : HttpRequest) (key : Text)
    → r.api_key ≡ key
    → req.authorization ≡ (if key == [] then [] else codes "Bearer " ++ key)
    → by_shared_key r req ≡ serves none
unfolding by_shared_key
by_shared_key-served r req key same header = elim (Bool-cases (key == [])) [
  | inl none_set ↦ rw (same, none_set) refl
  | inr set ↦
      let sent : req.authorization ≡ codes "Bearer " ++ key = rw set at header in
      let known =
        (by_key-serves r.api_key req.authorization).1
          (ap bearer sent ∙ bearer_key key ∙ ap some (sym same)) in
      rw (same, set) known
]

-- At a broker with the agent's key every request of the agent under /api/recordings is let through.
pub serve_http-new_request :
    (r : Router) (c : Client) (method rest : Text)
    → r.api_key ≡ c.api_key
    → (method == codes "OPTIONS") ≡ false
    → serve_http r (new_request c method (codes "/api/recordings" ++ rest)) ≡ serves none
unfolding serve_http by_rule is_session_request new_request has_prefix text_beq
serve_http-new_request r c method rest same plain =
    let req = new_request c method (codes "/api/recordings" ++ rest) in
    let served = by_shared_key-served r req c.api_key same refl in
    elim (Option-cases r.verifier) [
      | inl e ↦ rw (serve_http, plain, by_rule, e) served
      | inr (verify, e) ↦ elim (Bool-cases (method == codes "POST")) [
        | inl post ↦ rw (serve_http, plain, by_rule, e, is_session_request, post) served
        | inr other ↦ rw (serve_http, plain, by_rule, e, is_session_request, other) served
      ]
    ]

-- How the agent reads the status of an answer of the store.
status_reads :
    (r : Result StoreError (Unit {0}))
    → ((status_error 200 204 (status_of 204 r) ≡ ok tt) ↔ (r ≡ ok tt))
      × ((status_error 200 204 (status_of 204 r) ≡ err recording_gone)
          ↔ (r ≡ err recording_not_found))
unfolding status_error status_of failure_status
status_reads (ok _) = ((λ h. refl, λ h. refl), (λ h. absurd (cc), λ h. absurd (cc)))
status_reads (err recording_not_found) =
    ((λ h. absurd (cc), λ h. absurd (cc)), (λ h. refl, λ h. refl))
status_reads (err unreadable_metadata) =
    ((λ h. absurd (cc), λ h. absurd (cc)), (λ h. absurd (cc), λ h. absurd (cc)))
status_reads (err unreadable_events) =
    ((λ h. absurd (cc), λ h. absurd (cc)), (λ h. absurd (cc), λ h. absurd (cc)))
status_reads (err file_failed) =
    ((λ h. absurd (cc), λ h. absurd (cc)), (λ h. absurd (cc), λ h. absurd (cc)))
status_reads (err ffmpeg_failed) =
    ((λ h. absurd (cc), λ h. absurd (cc)), (λ h. absurd (cc), λ h. absurd (cc)))

-- A batch of events that reaches the handler is accepted, as the agent reads the status, exactly when
-- the store has appended it; the agent takes the recording for gone exactly when the store has no
-- metadata of it.
pub status_error-send_events :
    {E : Type 0} (events : List E) (copy : Write (Lines E)) (write : Write (Unit {0})) (id : Text)
    (disk : Disk E)
    → ((status_error 200 204 (send_events (some events) copy write id disk).1 ≡ ok tt)
        ↔ ((append_events copy write id events disk).1 ≡ ok tt))
      × ((status_error 200 204 (send_events (some events) copy write id disk).1
            ≡ err recording_gone)
          ↔ ((append_events copy write id events disk).1 ≡ err recording_not_found))
unfolding send_events
status_error-send_events events copy write id disk =
    status_reads (append_events copy write id events disk).1
