-- ===== src/Access/Handlers/Granting.antt =====
-- A session is opened on the strength of a grant only.
use rdp_warp_portal.Prelude.{
  ◌≡◌, refl, ap, ◌∙◌, inl, inr, Option, some, [], text_eq, Text, Result, ok, err, Bool-cases,
  Option-cases, Result-cases, ◌==◌,
}
use rdp_warp_portal.Access.Handlers.{
  status_created, answer, post_session, open_for, open_granted, grant_credentials, request_for,
}
use rdp_warp_portal.Access.Store.{Grant, MemoryStore, find_grant}
use rdp_warp_portal.Session.Manager.Create.{Request, create_session, new_session}
use rdp_warp_portal.Session.Manager.Success.{IsMade, create_session-ok}
use rdp_warp_portal.Session.Manager.{Manager, ManagerError, Session}

-- A session that carries out a grant, for this user at this address.
pub record Carries (g : Grant) (user_id client_ip : Text) (s : Session) : Type 0 where
  pub of_user : s.user_id ≡ user_id
  pub from_ip : s.client_ip ≡ client_ip
  pub to_target : s.target_id ≡ g.host.hostname
  pub to_host : s.target_host ≡ g.host.ip
  pub as_account : s.username ≡ g.user.username

made-Carries :
    (r : Request) (m : Manager) (g : Grant) (password : Text) (s : Session)
    → r.creds ≡ grant_credentials g password
    → IsMade r m s
    → Carries g r.user_id r.client_ip s
unfolding new_session grant_credentials
made-Carries r m g password s same made = record {
  of_user = ap (λ x. x.user_id) made.made_of;
  from_ip = ap (λ x. x.client_ip) made.made_of;
  to_target = ap (λ x. x.target_id) made.made_of ∙ ap (λ c. c.hostname) same;
  to_host = ap (λ x. x.target_host) made.made_of ∙ ap (λ c. c.ip) same;
  as_account = ap (λ x. x.username) made.made_of ∙ ap (λ c. c.username) same;
}

answer-created :
    (r : Manager × Result ManagerError Session) (m' : Manager) (s : Session)
    → answer r ≡ (m', (status_created, some s))
    → r ≡ (m', ok s)
unfolding answer
answer-created (m, ok t) m' s h = cc
answer-created (m, err e) m' s h = absurd (cc)

module _ (resolve : Option (Text → Option Text)) (outside : Request) where
  -- The call of `CreateSession` that a handler makes for a grant.
  abbrev pub Opens : Text → Text → Grant → Manager → Manager → Session → Type 0
  Opens user_id client_ip g m m' s =
      (resolver : (Text → Option Text)) × (password : Text) × (resolve ≡ some resolver)
      × (resolver g.user.secret ≡ some password)
      × (create_session
            (request_for outside user_id client_ip (record {
              hostname = g.host.hostname;
              ip = g.host.ip;
              port = g.host.port;
              username = g.user.username;
              password = password;
              domain = g.host.domain;
            }))
            m
          ≡ (m', ok s))

  open_granted-created :
      (user_id client_ip : Text) (g : Grant) (m m' : Manager) (s : Session)
      → open_granted resolve outside user_id client_ip g m ≡ (m', (status_created, some s))
      → Opens user_id client_ip g m m' s
  unfolding open_granted grant_credentials
  open_granted-created user_id client_ip g m m' s h = elim (Option-cases resolve) [
    | inl e ↦ absurd (cc (rw (e, open_granted) at h))
    | inr (resolver, e) ↦ elim (Option-cases (resolver g.user.secret)) [
      | inl n ↦ absurd (cc (rw (e, open_granted, n) at h))
      | inr (password, y) ↦
          (resolver, password, e, y, answer-created _ m' s (rw (e, open_granted, y) at h))
    ]
  ]

  -- A session is opened only for a user who has a grant for the host. It is the one that `CreateSession`
  -- makes for the user and the address of the request, with the host, the address, the port, the
  -- account and the domain of that grant, and with the password that its secret stands for.
  pub post_session-created :
      {K : Type 0}
      → (hostname user_id client_ip : Text) (store : MemoryStore K) (m m' : Manager) (s : Session)
      → post_session resolve outside (some hostname) user_id client_ip store m
        ≡ (m', (status_created, some s))
      → (g : Grant) × (find_grant user_id hostname store ≡ ok g)
        × Carries g user_id client_ip s
        × Opens user_id client_ip g m m' s
  unfolding post_session open_for grant_credentials
  post_session-created hostname user_id client_ip store m m' s h =
      elim (Bool-cases (hostname == [])) [
        | inl e ↦ absurd (cc (rw (e, post_session) at h))
        | inr e ↦ elim (Bool-cases (user_id == [])) [
          | inl n ↦ absurd (cc (rw (e, post_session, n) at h))
          | inr n ↦ elim (Result-cases (find_grant user_id hostname store)) [
            | inl (bad, f) ↦ absurd (cc (rw (e, post_session, n, open_for, f) at h))
            | inr (g, f) ↦
                let opened =
                  open_granted-created user_id client_ip g m m' s
                    (rw (e, post_session, n, open_for, f) at h) in
                let (resolver, password, _, _, made) = opened in
                let r = request_for outside user_id client_ip (grant_credentials g password) in
                let (_, good, _) = create_session-ok r m m' s made in
                (g, f, made-Carries r m g password s refl good, opened)
          ]
        ]
      ]
