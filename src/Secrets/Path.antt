-- ===== src/Secrets/Path.antt =====
-- The path that `AccessSecret` of proxy/internal/secrets/client.go makes of a secret's name.
use rdp_warp_portal.Prelude.{
  ℕ, ◌-◌, ◌≡◌, refl, ap, subst, inl, inr, ◌⊎◌, true, some, [], ◌∷◌, ◌++◌, nat_eq, text_eq, Text,
  codes, arith, Bool-cases, length, length-append, drop-length-append, beq_refl, if◌then◌else◌,
  ◌==◌,
}
use rdp_warp_portal.Strings.{has_prefix, has_suffix, contains, index}
use rdp_warp_portal.Strings.Index.{has_prefix-append}
use rdp_warp_portal.Secrets.Client.{secret_path}

has_prefix_more : (s t p : Text) → has_prefix s p ≡ true → has_prefix (s ++ t) p ≡ true
unfolding has_prefix
has_prefix_more s t [] h = refl
has_prefix_more [] t (c ∷ p) h = absurd (cc)
has_prefix_more (d ∷ s) t (c ∷ p) h = ground (arith, has_prefix_more s t p)

contains_here : (s sub : Text) → has_prefix s sub ≡ true → contains s sub ≡ true
unfolding contains index
contains_here [] sub h = rw (h, contains) refl
contains_here (c ∷ s) sub h = rw (h, contains) refl

contains_later : (c : ℕ) (s sub : Text) → contains s sub ≡ true → contains (c ∷ s) sub ≡ true
unfolding contains index
contains_later c s sub h = ground arith

contains_cases :
    (c : ℕ) (s sub : Text)
    → contains (c ∷ s) sub ≡ true
    → (has_prefix (c ∷ s) sub ≡ true) ⊎ (contains s sub ≡ true)
unfolding contains index
contains_cases c s sub h = ground arith

contains_nil : (sub : Text) → contains [] sub ≡ true → has_prefix [] sub ≡ true
unfolding contains index
contains_nil sub h = ground arith

contains_more : (s t sub : Text) → contains s sub ≡ true → contains (s ++ t) sub ≡ true
contains_more [] t sub h = contains_here t sub (has_prefix_more [] t sub (contains_nil sub h))
contains_more (c ∷ s) t sub h = elim (contains_cases c s sub h) [
  | inl here ↦ contains_here (c ∷ (s ++ t)) sub (has_prefix_more (c ∷ s) t sub here)
  | inr later ↦ contains_later c (s ++ t) sub (contains_more s t sub later)
]

contains-append : (a sub b : Text) → contains (a ++ (sub ++ b)) sub ≡ true
contains-append [] sub b = contains_here (sub ++ b) sub (has_prefix-append sub b)
contains-append (c ∷ a) sub b = contains_later c (a ++ (sub ++ b)) sub (contains-append a sub b)

has_suffix-append : (s p : Text) → has_suffix (s ++ p) p ≡ true
unfolding has_suffix
has_suffix-append s p =
    let long : length (s ++ p) - length p ≡ length s = omega (arith, length-append s p) in
    rw (long, drop-length-append s p, beq_refl p) (ground (arith, length-append s p))

-- The parts that a path has: its project, its version and the operation.
pub record IsComplete (path : Text) : Type 0 where
  pub project : has_prefix path (codes "projects/") ≡ true
  pub version : contains path (codes "/versions/") ≡ true
  pub operation : has_suffix path (codes ":access") ≡ true

-- The two last additions.
versioned : (full : Text) → Text
versioned full =
    if contains full (codes "/versions/") then full else full ++ codes "/versions/latest"

accessed : (path : Text) → Text
accessed path = if has_suffix path (codes ":access") then path else path ++ codes ":access"

versioned_lem :
    (full : Text)
    → has_prefix full (codes "projects/") ≡ true
    → (has_prefix (versioned full) (codes "projects/") ≡ true)
      × (contains (versioned full) (codes "/versions/") ≡ true)
unfolding versioned
versioned_lem full h = elim (Bool-cases (contains full (codes "/versions/"))) [
  | inl has ↦ rw (versioned, has) (h, has)
  | inr lacks ↦
      rw (versioned, lacks)
        (
          has_prefix_more full (codes "/versions/latest") (codes "projects/") h,
          contains-append full (codes "/versions/") (codes "latest"),
        )
]

accessed_lem :
    (path : Text)
    → has_prefix path (codes "projects/") ≡ true
    → contains path (codes "/versions/") ≡ true
    → IsComplete (accessed path)
unfolding accessed
accessed_lem path h k = elim (Bool-cases (has_suffix path (codes ":access"))) [
  | inl has ↦ rw (accessed, has) (record { project = h; version = k; operation = has })
  | inr lacks ↦
      rw (accessed, lacks)
        (record {
          project = has_prefix_more path (codes ":access") (codes "projects/") h;
          version = contains_more path (codes ":access") (codes "/versions/") k;
          operation = has_suffix-append path (codes ":access");
        })
]

completed_lem :
    (full : Text)
    → has_prefix full (codes "projects/") ≡ true
    → IsComplete (accessed (versioned full))
completed_lem full h =
    let (project, version) = versioned_lem full h in accessed_lem (versioned full) project version

own_path : (name : Text) → IsComplete name → accessed (versioned name) ≡ name
unfolding accessed versioned
own_path name c =
    let version = c.version in
    let operation = c.operation in rw (accessed, versioned, version, operation) refl

some_same : (a b : Text) → some a ≡ some b → a ≡ b
some_same a b h = cc

secret_path-IsComplete :
    (project_id name path : Text) → secret_path project_id name ≡ some path → IsComplete path
unfolding secret_path accessed versioned
secret_path-IsComplete project_id name path h =
    elim (Bool-cases (has_prefix name (codes "projects/"))) [
      | inl full ↦
          let same : accessed (versioned name) ≡ path =
            some_same _ path (rw (secret_path, full) at h) in
          subst IsComplete same (completed_lem name full)
      | inr short ↦ elim (Bool-cases (project_id == [])) [
        | inl unset ↦ absurd (cc (rw (secret_path, short, unset) at h))
        | inr set ↦
            let rest = project_id ++ codes "/secrets/" ++ name in
            let same : accessed (versioned (codes "projects/" ++ rest)) ≡ path =
              some_same _ path (rw (secret_path, short, set) at h) in
            subst IsComplete same (
              completed_lem (codes "projects/" ++ rest)
                (has_prefix-append (codes "projects/") rest))
      ]
    ]

-- Whatever the name, the path that is asked for has its project, its version and the operation, and as
-- a name it is its own path under any project.
pub secret_path_lem :
    (project_id name path other : Text)
    → secret_path project_id name ≡ some path
    → IsComplete path × (secret_path other path ≡ some path)
unfolding secret_path accessed versioned
secret_path_lem project_id name path other h =
    let complete = secret_path-IsComplete project_id name path h in
    (complete, rw (secret_path, complete.project) (ap some (own_path path complete)))
