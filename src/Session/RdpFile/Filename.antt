-- ===== src/Session/RdpFile/Filename.antt =====
-- The download's name cannot leave its directory or its header.
use rdp_warp_portal.Prelude.{
  ℕ, ◌≡◌, ◌≢◌, refl, [], ◌∷◌, ◌++◌, if◌then◌else◌, ◌==◌, nat_eq, text_eq, Text, codes, arith, All,
  text_beq, beq_ne, false, Bool-cases, inl, inr,
}
use rdp_warp_portal.Session.Token.Encoding.{IsUrlSafe}
use rdp_warp_portal.Session.RdpFile.{rdp_filename, sanitize, is_file_safe, is_continuation}

safe_byte : (c : ℕ) → IsUrlSafe (if is_file_safe c then c else b'_')
unfolding is_file_safe
safe_byte c = grind arith

kept_byte : (c : ℕ) → IsUrlSafe c → (if is_file_safe c then c else b'_') ≡ c
unfolding is_file_safe
kept_byte c h = ground arith

sanitize-IsUrlSafe : (s : Text) → All IsUrlSafe (sanitize s)
unfolding sanitize
sanitize-IsUrlSafe [] = tt
sanitize-IsUrlSafe (c ∷ s) = elim (Bool-cases (is_continuation c)) [
  | inl inner ↦ rw (sanitize, inner) (sanitize-IsUrlSafe s)
  | inr first ↦ rw (sanitize, first) (safe_byte c, sanitize-IsUrlSafe s)
]

first_byte : (c : ℕ) → IsUrlSafe c → is_continuation c ≡ false
unfolding is_continuation
first_byte c h = ground arith

sanitize_safe : (s : Text) → All IsUrlSafe s → sanitize s ≡ s
unfolding sanitize
sanitize_safe [] h = refl
sanitize_safe (c ∷ s) h = rw (sanitize, first_byte c h.0, kept_byte c h.0, sanitize_safe s h.1) refl

connection_safe : All IsUrlSafe (codes "connection")
connection_safe = omega arith

stem : Text → Text
stem safe = if safe == [] then codes "connection" else safe

stem-IsUrlSafe : (s : Text) → All IsUrlSafe s → (stem s ≢ []) × All IsUrlSafe (stem s)
unfolding stem text_beq
stem-IsUrlSafe [] h = ((λ e. cc), connection_safe)
stem-IsUrlSafe (c ∷ s) h = ((λ e. cc), h)

-- The name is a stem of letters, digits, dashes and underscores, not empty, before `.rdp`; a target
-- that is such a text is its own stem.
pub rdp_filename_lem :
    (target : Text)
    → ((name : Text) × (rdp_filename target ≡ name ++ codes ".rdp")
        × (name ≢ [])
        × All IsUrlSafe name)
      × (target ≢ [] → All IsUrlSafe target → rdp_filename target ≡ target ++ codes ".rdp")
unfolding rdp_filename stem
rdp_filename_lem target =
    let (filled, safe) = stem-IsUrlSafe (sanitize target) (sanitize-IsUrlSafe target) in
    (
      (stem (sanitize target), refl, filled, safe),
      λ some_bytes all_safe. rw (sanitize_safe target all_safe, beq_ne target [] some_bytes),
    )
