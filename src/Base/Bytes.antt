-- ===== src/Base/Bytes.antt =====
-- A JavaScript `Uint8Array` as the list of its bytes: `b[o] = v` is `set`, `b.set(src, o)` is
-- `set_at`, `b.slice(from, to)` is `slice`.
use Prim.Native.Nat.{ℕ, zero, suc, ◌+◌, ◌≤◌}
use mathlib.Core.Path.{◌≡◌, refl, ap, ◌∙◌}
use mathlib.Core.List.{List, [], ◌∷◌, ◌++◌}
use native.Mathlib.Omega.{arith}
use semantos_edge.Base.Tests.{leb, if◌then◌else◌, Result, ok, thrown}
use semantos_edge.Base.Lists.{length, get_or, set, take, drop}

-- `src` over the bytes from `o` on; what does not fit is dropped.
unfoldable pub overwrite : List ℕ → ℕ → List ℕ → List ℕ
overwrite [] o src = []
overwrite (x ∷ xs) (suc o) src = x ∷ overwrite xs o src
overwrite (x ∷ xs) zero [] = x ∷ xs
overwrite (x ∷ xs) zero (s ∷ ss) = s ∷ overwrite xs zero ss

-- `b.set(src, o)` throws where `src` does not fit.
unfoldable pub set_at : List ℕ → ℕ → List ℕ → Result (List ℕ)
set_at b o src = if leb (o + length src) (length b) then ok (overwrite b o src) else thrown

-- b.slice(from, from + n)
abbrev pub slice : ℕ → ℕ → List ℕ → List ℕ
slice from n b = take n (drop from b)

pub set-overwrite : (b : List ℕ) (o v : ℕ) → set b o v ≡ overwrite b o (v ∷ [])
unfolding overwrite
set-overwrite [] o v = refl
set-overwrite (x ∷ []) zero v = refl
set-overwrite (x ∷ y ∷ xs) zero v = refl
set-overwrite (x ∷ xs) (suc o) v = ap (λ t. x ∷ t) (set-overwrite xs o v)

pub length-overwrite : (b : List ℕ) (o : ℕ) (src : List ℕ) → length (overwrite b o src) ≡ length b
unfolding overwrite
length-overwrite [] o src = refl
length-overwrite (x ∷ xs) (suc o) src = ap suc (length-overwrite xs o src)
length-overwrite (x ∷ xs) zero [] = refl
length-overwrite (x ∷ xs) zero (s ∷ ss) = ap suc (length-overwrite xs zero ss)

-- Two writes side by side are one.
pub overwrite_merge :
    (b : List ℕ) (o p : ℕ) (xs ys : List ℕ)
    → p ≡ o + length xs
    → overwrite (overwrite b o xs) p ys ≡ overwrite b o (xs ++ ys)
unfolding overwrite
overwrite_merge [] o p xs ys h = refl
overwrite_merge (x ∷ b) zero zero [] ys h = refl
overwrite_merge (x ∷ b) zero (suc p) [] ys h = absurd (omega arith)
overwrite_merge (x ∷ b) zero zero (y ∷ xs) ys h = absurd (omega arith)
overwrite_merge (x ∷ b) zero (suc p) (y ∷ xs) ys h =
    ap (λ t. y ∷ t) (overwrite_merge b zero p xs ys (omega arith))
overwrite_merge (x ∷ b) (suc o) zero xs ys h = absurd (omega arith)
overwrite_merge (x ∷ b) (suc o) (suc p) xs ys h =
    ap (λ t. x ∷ t) (overwrite_merge b o p xs ys (omega arith))

-- A write as long as the array leaves nothing of it.
pub overwrite_all : (b src : List ℕ) → length src ≡ length b → overwrite b zero src ≡ src
unfolding overwrite
overwrite_all [] [] h = refl
overwrite_all [] (s ∷ src) h = absurd (omega arith)
overwrite_all (x ∷ b) [] h = absurd (omega arith)
overwrite_all (x ∷ b) (s ∷ src) h = ap (λ t. s ∷ t) (overwrite_all b src (omega arith))

pub get_or-append :
    (pre xs : List ℕ) (o k d : ℕ) → o ≡ length pre + k → get_or (pre ++ xs) o d ≡ get_or xs k d
get_or-append [] xs o k d h = let e : o ≡ k = omega arith in rw e refl
get_or-append (x ∷ pre) xs zero k d h = absurd (omega arith)
get_or-append (x ∷ pre) xs (suc o) k d h = get_or-append pre xs o k d (omega arith)

-- A write right behind what was written, and one that fits.
pub overwrite_next :
    (c b : List ℕ) (p : ℕ) (xs ys : List ℕ)
    → c ≡ overwrite b zero xs
    → p ≡ length xs
    → overwrite c p ys ≡ overwrite b zero (xs ++ ys)
overwrite_next c b p xs ys e h =
    ap (λ t. overwrite t p ys) e ∙ overwrite_merge b zero p xs ys (omega arith)

pub set_at_fits :
    (b : List ℕ) (o : ℕ) (src : List ℕ)
    → o + length src ≤ length b
    → set_at b o src ≡ ok (overwrite b o src)
unfolding set_at
set_at_fits b o src h = ground arith

-- Reading what a write did not touch, and what it wrote.
pub slice-overwrite_before :
    (b : List ℕ) (o from n : ℕ) (src : List ℕ)
    → from + n ≤ o
    → slice from n (overwrite b o src) ≡ slice from n b
unfolding overwrite
slice-overwrite_before [] o from n src h = refl
slice-overwrite_before (x ∷ b) o zero zero src h = refl
slice-overwrite_before (x ∷ b) zero zero (suc n) src h = absurd (omega arith)
slice-overwrite_before (x ∷ b) (suc o) zero (suc n) src h =
    ap (λ t. x ∷ t) (slice-overwrite_before b o zero n src (omega arith))
slice-overwrite_before (x ∷ b) zero (suc from) n src h = absurd (omega arith)
slice-overwrite_before (x ∷ b) (suc o) (suc from) n src h =
    slice-overwrite_before b o from n src (omega arith)

pub slice-overwrite_after :
    (b : List ℕ) (o from n : ℕ) (src : List ℕ)
    → o + length src ≤ from
    → slice from n (overwrite b o src) ≡ slice from n b
unfolding overwrite
slice-overwrite_after [] o from n src h = refl
slice-overwrite_after (x ∷ b) zero from n [] h = refl
slice-overwrite_after (x ∷ b) zero zero n (s ∷ src) h = absurd (omega arith)
slice-overwrite_after (x ∷ b) zero (suc from) n (s ∷ src) h =
    slice-overwrite_after b zero from n src (omega arith)
slice-overwrite_after (x ∷ b) (suc o) zero n src h = absurd (omega arith)
slice-overwrite_after (x ∷ b) (suc o) (suc from) n src h =
    slice-overwrite_after b o from n src (omega arith)

pub slice-overwrite_self :
    (b : List ℕ) (o n : ℕ) (src : List ℕ)
    → length src ≡ n
    → o + n ≤ length b
    → slice o n (overwrite b o src) ≡ src
unfolding overwrite
slice-overwrite_self [] zero zero [] h k = refl
slice-overwrite_self [] (suc o) zero [] h k = absurd (omega arith)
slice-overwrite_self [] o (suc n) src h k = absurd (omega arith)
slice-overwrite_self [] o zero (s ∷ src) h k = absurd (omega arith)
slice-overwrite_self (x ∷ b) (suc o) n src h k = slice-overwrite_self b o n src h (omega arith)
slice-overwrite_self (x ∷ b) zero zero [] h k = refl
slice-overwrite_self (x ∷ b) zero (suc n) [] h k = absurd (omega arith)
slice-overwrite_self (x ∷ b) zero zero (s ∷ src) h k = absurd (omega arith)
slice-overwrite_self (x ∷ b) zero (suc n) (s ∷ src) h k =
    ap (λ t. s ∷ t) (slice-overwrite_self b zero n src (omega arith) (omega arith))

pub drop-append : (pre xs : List ℕ) (n : ℕ) → n ≡ length pre → drop n (pre ++ xs) ≡ xs
drop-append [] xs zero h = refl
drop-append [] xs (suc n) h = absurd (omega arith)
drop-append (x ∷ pre) xs zero h = absurd (omega arith)
drop-append (x ∷ pre) xs (suc n) h = drop-append pre xs n (omega arith)

pub take-append : (xs ys : List ℕ) (n : ℕ) → n ≡ length xs → take n (xs ++ ys) ≡ xs
take-append [] ys zero h = refl
take-append [] ys (suc n) h = absurd (omega arith)
take-append (x ∷ xs) ys zero h = absurd (omega arith)
take-append (x ∷ xs) ys (suc n) h = ap (λ t. x ∷ t) (take-append xs ys n (omega arith))

pub drop-suc : (n : ℕ) (xs : List ℕ) → drop (suc n) xs ≡ drop 1 (drop n xs)
drop-suc zero xs = refl
drop-suc (suc n) [] = refl
drop-suc (suc n) (x ∷ xs) = drop-suc n xs
