-- ===== src/Base/Members.antt =====
-- JavaScript's `Set<number>` as the list of its members in insertion order.
use semantos_edge.Base.Tests.{◌==◌, ==_iff, if◌then◌else◌}
use Prim.Native.Nat.{ℕ, ◌+◌}
use mathlib.Core.Path.{◌≡◌, refl}
use mathlib.Core.Bool.{Bool, false, ◌||◌}
use mathlib.Core.List.{List, [], ◌∷◌, ◌++◌}
use native.Mathlib.Omega.{arith}

-- s.has(q)
unfoldable pub mem : ℕ → List ℕ → Bool
mem q [] = false
mem q (x ∷ xs) = x == q || mem q xs

-- s.add(q): a member that is already there keeps its place.
unfoldable pub add : ℕ → List ℕ → List ℕ
add q s = if mem q s then s else s ++ (q ∷ [])

-- for (const q of qs) s.add(q)
unfoldable pub add_all : List ℕ → List ℕ → List ℕ
add_all [] s = s
add_all (q ∷ qs) s = add_all qs (add q s)

pub mem-append : (q : ℕ) (xs ys : List ℕ) → mem q (xs ++ ys) ≡ (mem q xs || mem q ys)
unfolding mem
mem-append q [] ys = refl
mem-append q (x ∷ xs) ys = ground (arith, mem-append q xs ys)

pub mem-add : (q x : ℕ) (s : List ℕ) → mem q (add x s) ≡ (mem q s || x == q)
unfolding add mem
mem-add q x s = ground (arith, mem-append q s (x ∷ []), ==_iff x q)

pub mem-add_all : (q : ℕ) (xs s : List ℕ) → mem q (add_all xs s) ≡ (mem q s || mem q xs)
unfolding add_all mem
mem-add_all q [] s = ground arith
mem-add_all q (x ∷ xs) s = ground (arith, mem-add_all q xs (add x s), mem-add q x s)

-- How many entries pass a test.
unfoldable pub count : (ℕ → Bool) → List ℕ → ℕ
count p [] = 0
count p (x ∷ xs) = (if p x then 1 else 0) + count p xs
