-- ===== src/Session/PortPool.antt =====
-- proxy/internal/session/port_pool.go. Ports and the offset are natural numbers. Each method holds
-- the pool's mutex from its first line to its last, so a call is one step.
pub mod Alloc
pub mod Release
pub mod Runs
pub mod Count
pub mod Examples
use rdp_warp_portal.Prelude.{
  ℕ, zero, suc, ◌+◌, ◌-◌, ◌≤◌, ◌≡◌, Bool, true, false, ◌||◌, Option, none, some, ltb, if◌then◌else◌,
  Result, ok, err, nat_eq, [], ℤ, sub_ℕ, length, All,
}
use rdp_warp_portal.Prelude.Assoc.{GoMap, lookup, insert, delete, Distinct}

pub data PortError : Type 0 where
  no_ports_available port_not_in_use port_out_of_range : PortError

pub record PortPool : Type 0 where
  pub start_port : ℕ
  pub end_port : ℕ
  pub internal_offset : ℕ
  pub in_use : GoMap ℕ Bool

unfoldable pub new_port_pool : ℕ → ℕ → ℕ → PortPool
new_port_pool start_port end_port internal_offset = record {
  start_port = start_port;
  end_port = end_port;
  internal_offset = internal_offset;
  in_use = [];
}

-- `inUse[port]`, where a missing key reads as false.
unfoldable pub held : GoMap ℕ Bool → ℕ → Bool
held m port = elim (lookup port m) [ none ↦ false | some b ↦ b ]

-- The loop of `Allocate`, with the rounds that are left.
unfoldable pub first_free : GoMap ℕ Bool → ℕ → ℕ → Option ℕ
first_free m zero port = none
first_free m (suc n) port = if held m port then first_free m n (suc port) else some port

unfoldable pub allocate : PortPool → PortPool × Result PortError (ℕ × ℕ)
unfolding first_free
allocate p = elim (first_free p.in_use (p.end_port + 1 - p.start_port) p.start_port) [
  | some port ↦
      (record p { in_use = insert port true p.in_use }, ok (port, port + p.internal_offset))
  | none ↦ (p, err no_ports_available)
]

unfoldable pub release : PortPool → ℕ → PortPool × Option PortError
release p port =
    if ltb port p.start_port || ltb p.end_port port
    then (p, some port_out_of_range)
    else if held p.in_use port
    then (record p { in_use = delete port p.in_use }, none)
    else (p, some port_not_in_use)

pub available : PortPool → ℤ
available p = sub_ℕ (p.end_port + 1) (p.start_port + length p.in_use)

pub in_use_count : PortPool → ℕ
in_use_count p = length p.in_use

pub total : PortPool → ℤ
total p = sub_ℕ (p.end_port + 1) p.start_port

unfoldable pub is_in_use : PortPool → ℕ → Bool
is_in_use p port = held p.in_use port

pub internal_port : PortPool → ℕ → ℕ
internal_port p port = port + p.internal_offset

pub range : PortPool → ℕ × ℕ
range p = (p.start_port, p.end_port)

-- An entry of the map is a port of the range, marked true.
abbrev pub Marked : PortPool → ℕ × Bool → Type 0
Marked p e = (e.1 ≡ true) × (p.start_port ≤ e.0) × (e.0 ≤ p.end_port)

pub record IsValid (p : PortPool) : Type 0 where
  pub distinct : Distinct p.in_use
  pub marked : All (Marked p) p.in_use
