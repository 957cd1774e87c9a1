-- ===== src/Prelude/Weights.antt =====
-- The sum of a weight over a list, and over the values of a map, to count what they own.
use Prim.Native.Nat.{ℕ, ◌+◌, ◌≤◌}
use mathlib.Core.List.{List, [], ◌∷◌, ◌++◌}
use mathlib.Core.Logic.{◌≢◌}
use mathlib.Core.Option.{none, some}
use mathlib.Core.Path.{◌≡◌, ◌∙◌}
use native.Mathlib.Omega.{arith}
use rdp_warp_portal.Prelude.Assoc.{
  GoMap, lookup, insert, delete, Distinct, delete_absent, lookup-delete, delete-Distinct,
}
use rdp_warp_portal.Prelude.Tests.{Eq, beq_ne}

module _ {ℓ} {A : Type ℓ} (f : A → ℕ) where
  unfoldable pub total_of : List A → ℕ
  total_of [] = 0
  total_of (x ∷ xs) = f x + total_of xs

  pub total_of-append : (xs ys : List A) → total_of (xs ++ ys) ≡ total_of xs + total_of ys
  unfolding total_of
  total_of-append [] ys = omega arith
  total_of-append (x ∷ xs) ys = omega (arith, total_of-append xs ys)

module _ {ℓ κ} {K : Type ℓ} {V : Type κ} ⦃e : Eq K⦄ (w : V → ℕ) where
  unfoldable pub weigh : GoMap K V → ℕ
  weigh [] = 0
  weigh ((k, v) ∷ entries) = w v + weigh entries

  pub weigh-insert :
      (k : K) (v : V) (entries : GoMap K V)
      → lookup k entries ≡ none
      → weigh (insert k v entries) ≡ weigh entries + w v
  unfolding weigh insert lookup
  weigh-insert k v [] new = omega arith
  weigh-insert k v ((a, old) ∷ entries) new = ground (arith, weigh-insert k v entries)

  -- One value in place of another.
  pub weigh-replace :
      (k : K) (u v : V) (entries : GoMap K V)
      → lookup k entries ≡ some u
      → weigh (insert k v entries) + w u ≡ weigh entries + w v
  unfolding weigh insert lookup
  weigh-replace k u v [] found = absurd (cc)
  weigh-replace k u v ((a, old) ∷ entries) found = ground (arith, weigh-replace k u v entries)

  pub weigh-delete :
      (k : K) (v : V) (entries : GoMap K V)
      → Distinct entries
      → lookup k entries ≡ some v
      → weigh (delete k entries) + w v ≡ weigh entries
  unfolding weigh delete lookup
  weigh-delete k v [] d found = absurd (cc)
  weigh-delete k v ((a, old) ∷ entries) d found =
      ground (arith, e.equals_iff a k, delete_absent a entries, weigh-delete k v entries)

  -- The values under two keys weigh at most what all do.
  pub weigh_two :
      (j k : K) (u v : V) (entries : GoMap K V)
      → Distinct entries
      → j ≢ k
      → lookup j entries ≡ some u
      → lookup k entries ≡ some v
      → w u + w v ≤ weigh entries
  weigh_two j k u v entries d apart at_j at_k =
      let kept : lookup k (delete j entries) ≡ some v =
        lookup-delete j k entries ∙ (rw (beq_ne j k apart) at_k) in
      omega (
        arith,
        weigh-delete j u entries d at_j,
        weigh-delete k v (delete j entries) (delete-Distinct j entries d) kept,
      )
