-- ===== src/Session/Gatekeeper/Connections/Counting.antt =====
-- Lists of connections: how often one is in them, and what taking it out changes.
use rdp_warp_portal.Prelude.{
  ℕ, ◌+◌, ◌-◌, ◌≤◌, ◌≡◌, Bool, true, false, List, [], ◌∷◌, ◌++◌, if◌then◌else◌, ◌==◌, nat_eq, arith,
  length,
}
use rdp_warp_portal.Session.Gatekeeper.Connections.{remove_conn, close_all}

-- How often a connection is in a list.
unfoldable pub count : ℕ → List ℕ → ℕ
count c [] = 0
count c (x ∷ xs) = (if x == c then 1 else 0) + count c xs

-- Whether it is in the list.
unfoldable pub has : ℕ → List ℕ → Bool
has c [] = false
has c (x ∷ xs) = if x == c then true else has c xs

pub count-append : (c : ℕ) (xs ys : List ℕ) → count c (xs ++ ys) ≡ count c xs + count c ys
unfolding count
count-append c [] ys = omega arith
count-append c (x ∷ xs) ys = ground (arith, count-append c xs ys)

pub count-remove_conn :
    (c x : ℕ) (xs : List ℕ) → count c (remove_conn x xs) ≡ count c xs - (if x == c then 1 else 0)
unfolding count remove_conn
count-remove_conn c x [] = ground arith
count-remove_conn c x (y ∷ xs) = ground (arith, count-remove_conn c x xs)

pub count-has : (c x : ℕ) (xs : List ℕ) → has x xs ≡ true → (if x == c then 1 else 0) ≤ count c xs
unfolding count has
count-has c x [] h = absurd (cc)
count-has c x (y ∷ xs) h = ground (arith, count-has c x xs)

pub length-remove_conn :
    (c : ℕ) (xs : List ℕ) → has c xs ≡ true → length (remove_conn c xs) + 1 ≡ length xs
unfolding remove_conn has
length-remove_conn c [] h = cc
length-remove_conn c (x ∷ xs) h = ground (arith, length-remove_conn c xs)

pub has-remove_conn :
    (c x : ℕ) (xs : List ℕ) → (x == c) ≡ false → has x xs ≡ true → has x (remove_conn c xs) ≡ true
unfolding has remove_conn
has-remove_conn c x [] other there = there
has-remove_conn c x (y ∷ xs) other there = ground (arith, has-remove_conn c x xs other)

pub has-append : (c : ℕ) (xs : List ℕ) → has c (xs ++ c ∷ []) ≡ true
unfolding has
has-append c [] = ground arith
has-append c (x ∷ xs) = ground (arith, has-append c xs)

pub length-has : (c : ℕ) (xs : List ℕ) → has c xs ≡ true → 1 ≤ length xs
unfolding has
length-has c [] h = absurd (cc)
length-has c (x ∷ xs) h = omega arith

pub count-close_all :
    (c : ℕ) (xs sockets : List ℕ) → count c (close_all xs sockets) ≡ count c sockets - count c xs
unfolding count close_all
count-close_all c [] sockets = omega arith
count-close_all c (x ∷ xs) sockets =
    ground (arith, count-close_all c xs (remove_conn x sockets), count-remove_conn c x sockets)
