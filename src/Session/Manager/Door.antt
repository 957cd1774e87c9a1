-- ===== src/Session/Manager/Door.antt =====
-- The gatekeeper that `CreateSession` puts before a session: who gets through it, and how often.
use rdp_warp_portal.Prelude.{
  ℕ, ◌+◌, ◌≤◌, ◌≡◌, ◌≢◌, refl, ap, ◌∙◌, true, false, none, some, inl, inr, List, [], ◌∷◌, text_eq,
  Text, arith, if◌then◌else◌, ◌⊎◌,
}
use rdp_warp_portal.Session.Gatekeeper.Handler.Gates.{handle-bridged, handle_connection-keeps}
use rdp_warp_portal.Session.Gatekeeper.Handler.{
  Gate, Network, Outcome, dropped, bridged, handle_connection, run_validate, notify,
}
use rdp_warp_portal.Session.Gatekeeper.Packet.{Conn}
use rdp_warp_portal.Session.Manager.{Session, on_connected, validate_token}
use rdp_warp_portal.Session.Token.{validate}

-- The gatekeeper's fields for a session made for `client_ip`, with the clock at `now`.
unfoldable pub session_gate : Text → ℕ → Gate Session
session_gate client_ip now = record {
  allowed_ip = client_ip;
  validate_token = some (validate_token now);
  on_connected = some (on_connected now);
}

validate_token-used :
    (now : ℕ) (s : Session) (value target : Text)
    → s.token.consumed ≡ true
    → ((validate_token now s value target).0.token.consumed ≡ true)
      × ((validate_token now s value target).1 ≢ none)
unfolding validate_token validate
validate_token-used now s value target used = (ground arith, ground arith)

validate_token-accepts :
    (now : ℕ) (s : Session) (value target : Text)
    → (validate_token now s value target).1 ≡ none
    → (validate_token now s value target).0.token.consumed ≡ true
unfolding validate_token validate
validate_token-accepts now s value target good = ground arith

on_connected-token : (now : ℕ) (s : Session) → (on_connected now s).token ≡ s.token
unfolding on_connected
on_connected-token now s = ground arith

-- A connection to a session's gatekeeper: when, from where, with what.
pub record Visit : Type 0 where
  pub now : ℕ
  pub net : Network
  pub conn : Conn

unfoldable pub visit : Text → Session → Visit → Session × Outcome
visit client_ip s v = handle_connection (session_gate client_ip v.now) v.net v.conn s

unfoldable pub bridge_count : Outcome → ℕ
bridge_count (dropped d) = 0
bridge_count (bridged packet) = 1

-- How many connections of a sequence are bridged to the session's proxy.
unfoldable pub bridges : Text → Session → List Visit → ℕ
unfolding visit bridge_count
bridges client_ip s [] = 0
bridges client_ip s (v ∷ vs) =
    let (s', outcome) = visit client_ip s v in bridge_count outcome + bridges client_ip s' vs

module _ (client_ip : Text) where
  visit-used :
      (s : Session) (v : Visit)
      → s.token.consumed ≡ true
      → (visit client_ip s v).0.token.consumed ≡ true
  unfolding visit session_gate run_validate notify
  visit-used s v used =
      handle_connection-keeps (session_gate client_ip v.now) v.net (λ u. u.token.consumed ≡ true)
        (λ cookie u h. (validate_token-used v.now u cookie.token cookie.target_id h).0)
        (λ u h. ap (λ t. t.consumed) (on_connected-token v.now u) ∙ h) v.conn s used

  -- A bridged connection has used the token up.
  visit-bridged :
      (s : Session) (v : Visit) (packet : Text)
      → (visit client_ip s v).1 ≡ bridged packet
      → (s.token.consumed ≡ false) × ((visit client_ip s v).0.token.consumed ≡ true)
  unfolding visit session_gate run_validate notify
  visit-bridged s v packet h =
      let (cookie, rest, read, allowed, valid, dialled, sent, left) =
        handle-bridged (session_gate client_ip v.now) v.net v.conn s (visit client_ip s v).0 packet
          (ap (λ o. ((visit client_ip s v).0, o)) h) in
      (
        ground (arith, validate_token-used v.now s cookie.token cookie.target_id),
        ap (λ u. u.token.consumed) left
            ∙ ap (λ t. t.consumed) (on_connected-token v.now _)
            ∙ validate_token-accepts v.now s cookie.token cookie.target_id valid,
      )

  Outcome-cases : (o : Outcome) → (bridge_count o ≡ 0) ⊎ ((packet : Text) × (o ≡ bridged packet))
  unfolding bridge_count
  Outcome-cases (dropped d) = inl refl
  Outcome-cases (bridged packet) = inr (packet, refl)

  bridges-used :
      (s : Session) (vs : List Visit) → s.token.consumed ≡ true → bridges client_ip s vs ≡ 0
  unfolding bridges bridge_count
  bridges-used s [] used = refl
  bridges-used s (v ∷ vs) used =
      let none_after = bridges-used (visit client_ip s v).0 vs (visit-used s v used) in
      elim (Outcome-cases (visit client_ip s v).1) [
        | inl quiet ↦ omega arith
        | inr (packet, e) ↦ let (unused, _) = visit-bridged s v packet e in absurd (cc)
      ]

  bridges_le : (s : Session) (vs : List Visit) → bridges client_ip s vs ≤ 1
  unfolding bridges bridge_count
  bridges_le s [] = omega arith
  bridges_le s (v ∷ vs) =
      let later : bridges client_ip (visit client_ip s v).0 vs ≤ 1 =
        bridges_le (visit client_ip s v).0 vs in
      elim (Outcome-cases (visit client_ip s v).1) [
        | inl quiet ↦ omega arith
        | inr (packet, e) ↦
            let (_, used) = visit-bridged s v packet e in
            let none_after : bridges client_ip (visit client_ip s v).0 vs ≡ 0 =
              bridges-used (visit client_ip s v).0 vs used in
            let one : bridge_count (visit client_ip s v).1 ≡ 1 = rw e refl in omega arith
      ]

  -- Of all connections that ever reach a session's gatekeeper, from wherever and whenever they come
  -- and whatever they send, at most one is bridged to the proxy; none is once the token is used.
  pub bridged_once :
      (s : Session) (vs : List Visit) → bridges client_ip s vs ≤ (if s.token.consumed then 0 else 1)
  bridged_once s vs = ground (arith, bridges-used s vs, bridges_le s vs)
