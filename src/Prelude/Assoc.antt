-- ===== src/Prelude/Assoc.antt =====
-- A Go map as an association list: a write replaces the entry of its key, or adds one at the end.
-- Go leaves the order of iteration open; the list fixes one.
use Prim.Native.Nat.{◌+◌}
use mathlib.Core.List.{List, [], ◌∷◌}
use mathlib.Core.Option.{Option, none, some}
use mathlib.Core.Logic.{inl, inr}
use mathlib.Core.Path.{◌≡◌, refl, subst₂}
use native.Mathlib.Omega.{arith}
use rdp_warp_portal.Prelude.Lists.{length, All}
use rdp_warp_portal.Prelude.Tests.{Eq, ◌==◌, if◌then◌else◌, beq_refl, beq_eq, Bool-cases}

-- `map[K]V`.
abbrev pub GoMap {ℓ κ} : Type ℓ → Type κ → Type (ℓ ⊔ κ)
GoMap K V = List (K × V)

module _ {ℓ κ} {K : Type ℓ} {V : Type κ} ⦃e : Eq K⦄ where
  unfoldable pub lookup : K → GoMap K V → Option V
  lookup k [] = none
  lookup k ((a, v) ∷ entries) = if a == k then some v else lookup k entries

  unfoldable pub insert : K → V → GoMap K V → GoMap K V
  insert k v [] = (k, v) ∷ []
  insert k v ((a, old) ∷ entries) =
      if a == k then (k, v) ∷ entries else (a, old) ∷ insert k v entries

  unfoldable pub delete : K → GoMap K V → GoMap K V
  delete k [] = []
  delete k ((a, old) ∷ entries) = if a == k then delete k entries else (a, old) ∷ delete k entries

  pub lookup-insert :
      (k a : K) (v : V) (entries : GoMap K V)
      → lookup a (insert k v entries) ≡ (if k == a then some v else lookup a entries)
  unfolding lookup insert
  lookup-insert k a v [] = refl
  lookup-insert k a v ((c, old) ∷ entries) =
      ground
        (arith, e.equals_iff k a, e.equals_iff c k, e.equals_iff c a, lookup-insert k a v entries)

  pub lookup-delete :
      (k a : K) (entries : GoMap K V)
      → lookup a (delete k entries) ≡ (if k == a then none else lookup a entries)
  unfolding lookup delete
  lookup-delete k a [] = ground arith
  lookup-delete k a ((c, old) ∷ entries) =
      ground
        (arith, e.equals_iff k a, e.equals_iff c k, e.equals_iff c a, lookup-delete k a entries)

  -- Each key stands once.
  abbrev pub Distinct : GoMap K V → Type κ
  Distinct [] = Unit
  Distinct ((a, old) ∷ entries) = (lookup a entries ≡ none) × Distinct entries

  pub insert-Distinct :
      (k : K) (v : V) (entries : GoMap K V) → Distinct entries → Distinct (insert k v entries)
  unfolding insert lookup
  insert-Distinct k v [] h = (refl, tt)
  insert-Distinct k v ((a, old) ∷ entries) h = ground (
    arith,
    e.equals_iff a k,
    e.equals_iff k a,
    insert-Distinct k v entries,
    lookup-insert k a v entries,
  )

  pub delete-Distinct :
      (k : K) (entries : GoMap K V) → Distinct entries → Distinct (delete k entries)
  unfolding delete
  delete-Distinct k [] h = tt
  delete-Distinct k ((a, old) ∷ entries) h =
      ground (arith, delete-Distinct k entries, lookup-delete k a entries)

  pub delete_absent :
      (k : K) (entries : GoMap K V) → lookup k entries ≡ none → delete k entries ≡ entries
  unfolding delete lookup
  delete_absent k [] h = refl
  delete_absent k ((a, old) ∷ entries) h = ground (arith, delete_absent k entries)

  pub delete-insert :
      (k : K) (v : V) (entries : GoMap K V)
      → lookup k entries ≡ none
      → delete k (insert k v entries) ≡ entries
  unfolding delete lookup insert
  delete-insert k v [] h = rw (beq_refl k)
  delete-insert k v ((a, old) ∷ entries) h = ground (arith, delete-insert k v entries)

  pub delete-insert_any :
      (k : K) (v : V) (entries : GoMap K V) → delete k (insert k v entries) ≡ delete k entries
  unfolding delete insert
  delete-insert_any k v [] = rw (beq_refl k) refl
  delete-insert_any k v ((a, old) ∷ entries) =
      ground (arith, beq_refl k, delete-insert_any k v entries)

  pub insert_again :
      (k : K) (v x : V) (entries : GoMap K V) → insert k v (insert k x entries) ≡ insert k v entries
  unfolding insert
  insert_again k v x [] = rw (beq_refl k) refl
  insert_again k v x ((a, old) ∷ entries) = ground (arith, beq_refl k, insert_again k v x entries)

  pub length-insert :
      (k : K) (v : V) (entries : GoMap K V)
      → lookup k entries ≡ none
      → length (insert k v entries) ≡ length entries + 1
  unfolding insert lookup
  length-insert k v [] h = omega arith
  length-insert k v ((a, old) ∷ entries) h = ground (arith, length-insert k v entries)

  pub length-delete :
      (k : K) (v : V) (entries : GoMap K V)
      → Distinct entries
      → lookup k entries ≡ some v
      → length (delete k entries) + 1 ≡ length entries
  unfolding delete lookup
  length-delete k v [] d h = absurd (cc)
  length-delete k v ((a, old) ∷ entries) d h =
      ground (arith, e.equals_iff a k, delete_absent a entries, length-delete k v entries)

  module _ {μ} (P : K × V → Type μ) where
    pub All-insert :
        (k : K) (v : V) (entries : GoMap K V)
        → P (k, v)
        → All P entries
        → All P (insert k v entries)
    unfolding insert
    All-insert k v [] p h = (p, tt)
    All-insert k v ((a, old) ∷ entries) p h = elim (Bool-cases (a == k)) [
      | inl same ↦ rw same (p, h.1)
      | inr other ↦ rw other (h.0, All-insert k v entries p h.1)
    ]

    pub All-delete : (k : K) (entries : GoMap K V) → All P entries → All P (delete k entries)
    unfolding delete
    All-delete k [] h = tt
    All-delete k ((a, old) ∷ entries) h = elim (Bool-cases (a == k)) [
      | inl same ↦ rw same (All-delete k entries h.1)
      | inr other ↦ rw other (h.0, All-delete k entries h.1)
    ]

    -- What holds of every entry holds of the one that a lookup finds.
    pub All-lookup :
        (k : K) (v : V) (entries : GoMap K V) → All P entries → lookup k entries ≡ some v → P (k, v)
    unfolding lookup
    All-lookup k v [] h found = cc
    All-lookup k v ((a, old) ∷ entries) h found = elim (Bool-cases (a == k)) [
      | inl same ↦
          let hit : some old ≡ some v = rw same at found in
          subst₂ (λ a b. P (a, b)) (beq_eq a k same) (cc) h.0
      | inr other ↦ All-lookup k v entries h.1 (rw other at found)
    ]
