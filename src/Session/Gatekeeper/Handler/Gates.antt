-- ===== src/Session/Gatekeeper/Handler/Gates.antt =====
-- Which connections get through, and what a refused one changes.
use rdp_warp_portal.Prelude.{
  ◌≡◌, ◌≢◌, refl, ◌↔◌, ◌⊎◌, inl, inr, true, Option, none, some, [], text_eq, Text, codes, ok, err,
  arith, beq_ne, beq_eq, beq_refl, ap, sym, ◌∙◌, ◌==◌, Bool-cases, Option-cases, Result-cases,
}
use rdp_warp_portal.Session.Gatekeeper.Address.{extract_ip}
use rdp_warp_portal.Session.Gatekeeper.Cookie.{ParsedCookie}
use rdp_warp_portal.Session.Gatekeeper.Packet.{Conn, read_x224_packet}
use rdp_warp_portal.Session.Gatekeeper.{GateError}
use rdp_warp_portal.Session.Token.{TokenError}
use rdp_warp_portal.Session.Gatekeeper.Handler.{
  Drop, Outcome, dropped, bridged, wrong_ip, unreadable, no_cookie_sent, Network, Gate,
  run_validate, notify, connect_proxy, admit, ip_allowed, check_cookie, handle_connection,
}

module _ {S : Type 0} (g : Gate S) (net : Network) (conn : Conn) (s t : S) where
  -- No address is bound, or the connection comes from the one that is.
  abbrev pub FromAllowed : Type 0
  FromAllowed = (g.allowed_ip ≡ []) ⊎ (extract_ip net.remote_addr ≡ g.allowed_ip)

  -- There is no validator, or it accepts the cookie's token and target and leaves the state `u`.
  abbrev pub Validated : ParsedCookie → S → Type 0
  Validated cookie u =
      ((g.validate_token ≡ none) × (u ≡ s))
      ⊎ ((validate : S → Text → Text → S × Option TokenError) × (g.validate_token ≡ some validate)
          × (validate s cookie.token cookie.target_id ≡ (u, none)))

  -- There is no callback, or it takes the state `u` to `t`.
  abbrev pub Notified : S → Type 0
  Notified u =
      ((g.on_connected ≡ none) × (t ≡ u))
      ⊎ ((connected : S → S) × (g.on_connected ≡ some connected) × (t ≡ connected u))

  -- What a connection that is bridged meets, with the state `t` that it leaves.
  abbrev pub Passes : Text → Type 0
  Passes packet =
      (cookie : ParsedCookie) × (rest : Conn) × (read_x224_packet conn
        ≡ ok (packet, some cookie, rest))
      × FromAllowed
      × (u : S) × Validated cookie u
      × Notified u
      × (net.dial_ok ≡ true)
      × (net.write_ok ≡ true)

  -- The same by the parts of the handler.
  abbrev pub PassesParts : Text → Type 0
  PassesParts packet =
      (cookie : ParsedCookie) × (rest : Conn) × (read_x224_packet conn
        ≡ ok (packet, some cookie, rest))
      × (ip_allowed g net ≡ true)
      × ((run_validate g cookie s).1 ≡ none)
      × (net.dial_ok ≡ true)
      × (net.write_ok ≡ true)
      × (t ≡ notify g (run_validate g cookie s).0)

  check_cookie-bridged :
      (packet p : Text) (cookie : Option ParsedCookie) (rest : Conn)
      → read_x224_packet conn ≡ ok (p, cookie, rest)
      → check_cookie g net p cookie s ≡ (t, bridged packet)
      → PassesParts packet
  unfolding check_cookie admit connect_proxy
  check_cookie-bridged packet p none rest e h = cc
  check_cookie-bridged packet p (some cookie) rest e h = (
    cookie,
    rest,
    ground arith,
    ground arith,
    ground arith,
    ground arith,
    ground arith,
    ground arith,
  )

  pub handle-bridged :
      (packet : Text) → handle_connection g net conn s ≡ (t, bridged packet) → PassesParts packet
  unfolding handle_connection
  handle-bridged packet h = elim (Result-cases (read_x224_packet conn)) [
    | inl (e, failed) ↦ absurd (cc (rw (failed, handle_connection) at h))
    | inr ((p, cookie, rest), read) ↦
        check_cookie-bridged packet p cookie rest read (rw (read, handle_connection) at h)
  ]

  pub bridged-of-Passes :
      (packet : Text) (cookie : ParsedCookie) (rest : Conn)
      → read_x224_packet conn ≡ ok (packet, some cookie, rest)
      → ip_allowed g net ≡ true
      → (run_validate g cookie s).1 ≡ none
      → net.dial_ok ≡ true
      → net.write_ok ≡ true
      → t ≡ notify g (run_validate g cookie s).0
      → handle_connection g net conn s ≡ (t, bridged packet)
  unfolding handle_connection check_cookie admit connect_proxy
  bridged-of-Passes packet cookie rest e a v d w left =
      rw (e, handle_connection, a, admit, v) (ground arith)

  ip_allowed-FromAllowed : (ip_allowed g net ≡ true) ↔ FromAllowed
  unfolding ip_allowed
  ip_allowed-FromAllowed = (
    λ h. elim (Bool-cases (g.allowed_ip == [])) [
      | inl free ↦ inl (beq_eq g.allowed_ip [] free)
      | inr bound ↦ elim (Bool-cases (extract_ip net.remote_addr == g.allowed_ip)) [
        | inl same ↦ inr (beq_eq (extract_ip net.remote_addr) g.allowed_ip same)
        | inr other ↦ absurd (cc (rw (ip_allowed, bound, other) at h))
      ]
    ],
    λ p. elim p [
      | inl free ↦
          let yes : (g.allowed_ip == []) ≡ true = rw free (beq_refl (codes "")) in
          rw (ip_allowed, yes) refl
      | inr same ↦
          let yes : (extract_ip net.remote_addr == g.allowed_ip) ≡ true =
            rw same (beq_refl g.allowed_ip) in
          rw (ip_allowed, yes) (ground arith)
    ],
  )

  run_validate-Validated :
      (cookie : ParsedCookie)
      → (run_validate g cookie s).1 ≡ none
      → Validated cookie (run_validate g cookie s).0
  unfolding run_validate
  run_validate-Validated cookie h = elim (Option-cases g.validate_token) [
    | inl e ↦ rw (run_validate, e) (inl (refl, refl))
    | inr (validate, e) ↦
        let good = rw (run_validate, e) at h in
        rw (run_validate, e)
          (inr (validate, refl, ap (λ x. ((validate s cookie.token cookie.target_id).0, x)) good))
  ]

  Validated-run_validate :
      (cookie : ParsedCookie) (u : S) → Validated cookie u → run_validate g cookie s ≡ (u, none)
  unfolding run_validate
  Validated-run_validate cookie u (inl (e, same)) = rw (run_validate, e, same) refl
  Validated-run_validate cookie u (inr (validate, e, good)) = rw (run_validate, e) good

  notify-Notified : (u : S) → t ≡ notify g u → Notified u
  unfolding notify
  notify-Notified u h = elim (Option-cases g.on_connected) [
    | inl e ↦ inl (e, rw (notify, e) at h)
    | inr (connected, e) ↦ inr (connected, e, rw (notify, e) at h)
  ]

  Notified-notify : (u : S) → Notified u → t ≡ notify g u
  unfolding notify
  Notified-notify u (inl (e, same)) = rw (notify, e) same
  Notified-notify u (inr (connected, e, same)) = rw (notify, e) same

  -- A connection is bridged exactly when its packet is read with a good cookie, no address is bound or it
  -- comes from the one that is, there is no validator or it accepts the cookie's token and target, and
  -- the proxy can be reached and written to; the packet that is forwarded is the one that was read, and
  -- the state is what the validator and then the callback leave, as far as there are any.
  pub bridged_iff :
      (packet : Text) → (handle_connection g net conn s ≡ (t, bridged packet)) ↔ Passes packet
  bridged_iff packet = (
    λ h.
        let (cookie, rest, read, allowed, valid, dialled, written, left) =
          handle-bridged packet h in
        (
          cookie,
          rest,
          read,
          ip_allowed-FromAllowed.0 allowed,
          (run_validate g cookie s).0,
          run_validate-Validated cookie valid,
          notify-Notified (run_validate g cookie s).0 left,
          dialled,
          written,
        ),
    λ p.
        let (cookie, rest, read, allowed, u, valid, notified, dialled, written) = p in
        let same = Validated-run_validate cookie u valid in
        bridged-of-Passes packet cookie rest read (ip_allowed-FromAllowed.1 allowed)
          (ap (λ x. x.1) same) dialled written
          (Notified-notify u notified ∙ ap (λ x. notify g x.0) (sym same)),
  )

-- The handler's result leaves the state alone and closes the connection.
abbrev pub Untouched : {S : Type 0} → S → S × Outcome → Type 0
Untouched s r = (r.0 ≡ s) × ((d : Drop) × (r.1 ≡ dropped d))

module _ {S : Type 0} (g : Gate S) (net : Network) (s : S) where
  wrong_ip-Untouched :
      (packet : Text) (cookie : Option ParsedCookie)
      → g.allowed_ip ≢ []
      → extract_ip net.remote_addr ≢ g.allowed_ip
      → Untouched s (check_cookie g net packet cookie s)
  unfolding check_cookie ip_allowed
  wrong_ip-Untouched packet none bound other = (refl, (no_cookie_sent, refl))
  wrong_ip-Untouched packet (some cookie) bound other =
      rw (beq_ne g.allowed_ip [] bound, beq_ne (extract_ip net.remote_addr) g.allowed_ip other)
        (refl, (wrong_ip, refl))

  -- What keeps a connection from the validator.
  abbrev pub Unfit : Conn → Type 0
  Unfit conn =
      ((e : GateError) × (read_x224_packet conn ≡ err e))
      ⊎ ((packet : Text) × (rest : Conn) × (read_x224_packet conn ≡ ok (packet, none, rest)))
      ⊎ ((g.allowed_ip ≢ []) × (extract_ip net.remote_addr ≢ g.allowed_ip))

  -- A connection that brings no packet, no good cookie, or the wrong address is dropped, and never
  -- reaches the validator: the state behind the callbacks, so the token, stays as it was.
  pub dropped-Untouched : (conn : Conn) → Unfit conn → Untouched s (handle_connection g net conn s)
  unfolding handle_connection check_cookie
  dropped-Untouched conn (inl (e, failed)) =
      rw (failed, handle_connection) (refl, (unreadable e, refl))
  dropped-Untouched conn (inr (inl (packet, rest, read))) =
      rw (read, handle_connection) (refl, (no_cookie_sent, refl))
  dropped-Untouched conn (inr (inr (bound, other))) = elim (Result-cases (read_x224_packet conn)) [
    | inl (e, failed) ↦ rw (failed, handle_connection) (refl, (unreadable e, refl))
    | inr ((packet, cookie, rest), read) ↦
        rw (read, handle_connection) (wrong_ip-Untouched packet cookie bound other)
  ]

-- What the two callbacks keep, the handler keeps.
module _ {S : Type 0} (g : Gate S) (net : Network) (P : S → Type 0) where
  module _ (validating : (cookie : ParsedCookie) (u : S) → P u → P (run_validate g cookie u).0)
      (notifying : (u : S) → P u → P (notify g u)) where
    connect_proxy-keeps : (packet : Text) (u : S) → P u → P (connect_proxy g net packet u).0
    unfolding connect_proxy
    connect_proxy-keeps packet u p = elim (Bool-cases net.dial_ok) [
      | inr down ↦ rw down p
      | inl up ↦ elim (Bool-cases net.write_ok) [
        | inr cut ↦ rw (up, cut) p
        | inl sent ↦ rw (up, sent) (notifying u p)
      ]
    ]

    admit-keeps :
        (packet : Text) (cookie : ParsedCookie) (u : S) → P u → P (admit g net packet cookie u).0
    unfolding admit
    admit-keeps packet cookie u p = elim (Option-cases (run_validate g cookie u).1) [
      | inr (e, bad) ↦ rw (admit, bad) (validating cookie u p)
      | inl good ↦ rw (admit, good) (connect_proxy-keeps packet _ (validating cookie u p))
    ]

    check_cookie-keeps :
        (packet : Text) (cookie : Option ParsedCookie) (u : S)
        → P u
        → P (check_cookie g net packet cookie u).0
    unfolding check_cookie
    check_cookie-keeps packet none u p = p
    check_cookie-keeps packet (some cookie) u p = elim (Bool-cases (ip_allowed g net)) [
      | inl allowed ↦ rw allowed (admit-keeps packet cookie u p)
      | inr other ↦ rw other p
    ]

    pub handle_connection-keeps : (conn : Conn) (u : S) → P u → P (handle_connection g net conn u).0
    unfolding handle_connection
    handle_connection-keeps conn u p = elim (Result-cases (read_x224_packet conn)) [
      | inl (e, failed) ↦ rw (failed, handle_connection) p
      | inr ((packet, cookie, rest), read) ↦
          rw (read, handle_connection) (check_cookie-keeps packet cookie u p)
    ]
