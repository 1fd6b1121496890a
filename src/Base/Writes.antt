-- ===== src/Base/Writes.antt =====
-- A `Uint8Array` that is filled field by field: each write with where it goes, the room that the
-- field has, and its bytes.
use semantos_edge.Base.Tests.{leb, Bool-cases}
use semantos_edge.Base.Lists.{length, get_or, take, drop, replicate, All}
use semantos_edge.Base.Bytes.{
  overwrite, slice, length-overwrite, slice-overwrite_before, slice-overwrite_after,
  slice-overwrite_self,
}
use Prim.Native.Nat.{ℕ, zero, suc, ◌+◌, ◌-◌, ◌≤◌, ◌<◌}
use mathlib.Core.Path.{◌≡◌, refl, ap, ◌∙◌}
use mathlib.Core.Logic.{inl, inr}
use mathlib.Core.Bool.{Bool, true, ◌&&◌, ◌||◌}
use mathlib.Core.List.{List, [], ◌∷◌, ◌++◌}
use native.Mathlib.Omega.{arith}

abbrev pub Writes : Type 0
Writes = List (ℕ × ℕ × List ℕ)

abbrev pub fill : Writes → List ℕ → List ℕ
fill [] b = b
fill ((o, cap, src) ∷ ws) b = fill ws (overwrite b o src)

-- No write exceeds its room.
abbrev pub Fits : Writes → Type 0
Fits [] = Unit
Fits ((o, cap, src) ∷ ws) = (length src ≤ cap) × Fits ws

-- No room meets the `n` bytes from `from` on.
abbrev pub is_clear : ℕ → ℕ → Writes → Bool
is_clear from n [] = true
is_clear from n ((o, cap, src) ∷ ws) =
    (leb (from + n) o || leb (o + cap) from) && is_clear from n ws

pub length-fill : (ws : Writes) (b : List ℕ) → length (fill ws b) ≡ length b
length-fill [] b = refl
length-fill ((o, cap, src) ∷ ws) b = length-fill ws (overwrite b o src) ∙ length-overwrite b o src

pub slice-fill :
    (from n : ℕ) (ws : Writes) (b : List ℕ)
    → Fits ws
    → is_clear from n ws ≡ true
    → slice from n (fill ws b) ≡ slice from n b
slice-fill from n [] b f h = refl
slice-fill from n ((o, cap, src) ∷ ws) b (f, fs) h =
    slice-fill from n ws (overwrite b o src) fs (ground arith)
    ∙ elim (Bool-cases (leb (from + n) o)) [
      | inl before ↦ slice-overwrite_before b o from n src (ground arith)
      | inr other ↦ slice-overwrite_after b o from n src (ground arith)
    ]

pub Fits-append : (xs ys : Writes) → Fits xs → Fits ys → Fits (xs ++ ys)
Fits-append [] ys f g = g
Fits-append ((o, cap, src) ∷ xs) ys (f, fs) g = (f, Fits-append xs ys fs g)

pub is_clear-append :
    (from n : ℕ) (xs ys : Writes)
    → is_clear from n xs ≡ true
    → is_clear from n ys ≡ true
    → is_clear from n (xs ++ ys) ≡ true
is_clear-append from n [] ys h k = k
is_clear-append from n ((o, cap, src) ∷ xs) ys h k =
    let rest = is_clear-append from n xs ys in ground arith

Fits-drop : (k : ℕ) (ws : Writes) → Fits ws → Fits (drop k ws)
Fits-drop zero ws f = f
Fits-drop (suc k) [] f = tt
Fits-drop (suc k) ((o, cap, src) ∷ ws) (f, fs) = Fits-drop k ws fs

pub Fits-take : (k : ℕ) (ws : Writes) → Fits ws → Fits (take k ws)
Fits-take zero ws f = tt
Fits-take (suc k) [] f = tt
Fits-take (suc k) ((o, cap, src) ∷ ws) (f, fs) = (f, Fits-take k ws fs)

fill-take : (k : ℕ) (ws : Writes) (b : List ℕ) → fill ws b ≡ fill (drop k ws) (fill (take k ws) b)
fill-take zero ws b = refl
fill-take (suc k) [] b = refl
fill-take (suc k) ((o, cap, src) ∷ ws) b = fill-take k ws (overwrite b o src)

-- A field reads back where no later write meets it.
pub slice-fill_field :
    (k o n : ℕ) (src : List ℕ) (ws : Writes) (b : List ℕ)
    → drop k ws ≡ (o, n, src) ∷ drop (k + 1) ws
    → length src ≡ n
    → Fits ws
    → is_clear o n (drop (k + 1) ws) ≡ true
    → o + n ≤ length b
    → slice o n (fill ws b) ≡ src
slice-fill_field k o n src ws b e h f c l =
    let before : List ℕ = fill (take k ws) b in
    ap (slice o n) (fill-take k ws b ∙ ap (λ t. fill t before) e)
    ∙ slice-fill o n (drop (k + 1) ws) (overwrite before o src) (Fits-drop (k + 1) ws f) c
    ∙ slice-overwrite_self before o n src h (omega (arith, length-fill (take k ws) b))

-- A part of the array is written as the array is.
pub slice-overwrite_at :
    (b : List ℕ) (o n : ℕ) (src : List ℕ)
    → slice o n (overwrite b o src) ≡ overwrite (slice o n b) 0 src
unfolding overwrite
slice-overwrite_at [] zero zero src = refl
slice-overwrite_at [] zero (suc n) src = refl
slice-overwrite_at [] (suc o) zero src = refl
slice-overwrite_at [] (suc o) (suc n) src = refl
slice-overwrite_at (x ∷ b) (suc o) n src = slice-overwrite_at b o n src
slice-overwrite_at (x ∷ b) zero zero src = refl
slice-overwrite_at (x ∷ b) zero (suc n) [] = refl
slice-overwrite_at (x ∷ b) zero (suc n) (s ∷ src) =
    ap (λ t. s ∷ t) (slice-overwrite_at b zero n src)

pub overwrite-replicate :
    (n v : ℕ) (src : List ℕ)
    → length src ≤ n
    → overwrite (replicate n v) 0 src ≡ src ++ replicate (n - length src) v
unfolding overwrite
overwrite-replicate zero v [] h = refl
overwrite-replicate (suc n) v [] h =
    let e : suc n ≡ suc n - 0 = omega arith in ap (λ m. replicate m v) e
overwrite-replicate zero v (s ∷ src) h = absurd (omega arith)
overwrite-replicate (suc n) v (s ∷ src) h =
    let e : n - length src ≡ suc n - suc (length src) = omega arith in
    ap (λ t. s ∷ t) (overwrite-replicate n v src (omega arith) ∙ ap (λ m. src ++ replicate m v) e)

pub slice-replicate : (from n m v : ℕ) → from + n ≤ m → slice from n (replicate m v) ≡ replicate n v
slice-replicate zero zero m v h = refl
slice-replicate zero (suc n) zero v h = absurd (omega arith)
slice-replicate zero (suc n) (suc m) v h =
    ap (λ t. v ∷ t) (slice-replicate zero n m v (omega arith))
slice-replicate (suc from) n zero v h = absurd (omega arith)
slice-replicate (suc from) n (suc m) v h = slice-replicate from n m v (omega arith)

pub take_all : (n : ℕ) (b : List ℕ) → length b ≡ n → take n b ≡ b
take_all zero [] h = refl
take_all zero (x ∷ b) h = absurd (omega arith)
take_all (suc n) [] h = absurd (omega arith)
take_all (suc n) (x ∷ b) h = ap (λ t. x ∷ t) (take_all n b (omega arith))

pub take-take : (k n : ℕ) (b : List ℕ) → k ≤ n → take k (take n b) ≡ take k b
take-take zero n b h = refl
take-take (suc k) zero b h = absurd (omega arith)
take-take (suc k) (suc n) [] h = refl
take-take (suc k) (suc n) (x ∷ b) h = ap (λ t. x ∷ t) (take-take k n b (omega arith))

pub get_or-slice :
    (from n i k d : ℕ) (b : List ℕ)
    → i ≡ from + k
    → k < n
    → get_or (slice from n b) k d ≡ get_or b i d
get_or-slice zero zero i k d b e h = absurd (omega arith)
get_or-slice zero (suc n) i k d [] e h = refl
get_or-slice zero (suc n) zero zero d (x ∷ b) e h = refl
get_or-slice zero (suc n) zero (suc k) d (x ∷ b) e h = absurd (omega arith)
get_or-slice zero (suc n) (suc i) zero d (x ∷ b) e h = absurd (omega arith)
get_or-slice zero (suc n) (suc i) (suc k) d (x ∷ b) e h =
    get_or-slice zero n i k d b (omega arith) (omega arith)
get_or-slice (suc from) n zero k d b e h = absurd (omega arith)
get_or-slice (suc from) n (suc i) k d (x ∷ b) e h = get_or-slice from n i k d b (omega arith) h
get_or-slice (suc from) zero (suc i) k d [] e h = refl
get_or-slice (suc from) (suc n) (suc i) k d [] e h = refl

module _ {κ} (P : ℕ → Type κ) where
  All-overwrite :
      (b : List ℕ) (o : ℕ) (src : List ℕ) → All P b → All P src → All P (overwrite b o src)
  unfolding overwrite
  All-overwrite [] o src h k = tt
  All-overwrite (x ∷ b) (suc o) src (p, h) k = (p, All-overwrite b o src h k)
  All-overwrite (x ∷ b) zero [] (p, h) k = (p, h)
  All-overwrite (x ∷ b) zero (s ∷ src) (p, h) (q, k) = (q, All-overwrite b zero src h k)

  -- What holds of the bytes of each write.
  abbrev pub AllWritten : Writes → Type κ
  AllWritten [] = Unit {κ}
  AllWritten ((o, cap, src) ∷ ws) = All P src × AllWritten ws

  pub All-fill : (ws : Writes) (b : List ℕ) → AllWritten ws → All P b → All P (fill ws b)
  All-fill [] b w h = h
  All-fill ((o, cap, src) ∷ ws) b (w, wr) h =
      All-fill ws (overwrite b o src) wr (All-overwrite b o src h w)

  pub All-replicate : (n v : ℕ) → P v → All P (replicate n v)
  All-replicate zero v p = tt
  All-replicate (suc n) v p = (p, All-replicate n v p)

pub length-take_le : (n : ℕ) (b : List ℕ) → length (take n b) ≤ n
length-take_le zero b = omega arith
length-take_le (suc n) [] = omega arith
length-take_le (suc n) (x ∷ b) = omega (arith, length-take_le n b)

-- The writes into an array of which `b` is the part from `from` on.
abbrev pub moved : ℕ → Writes → Writes
moved from [] = []
moved from ((o, cap, src) ∷ ws) = (from + o, cap, src) ∷ moved from ws

take-overwrite :
    (n k : ℕ) (src b : List ℕ) → take n (overwrite b k src) ≡ overwrite (take n b) k src
unfolding overwrite
take-overwrite zero k src b = refl
take-overwrite (suc n) k src [] = refl
take-overwrite (suc n) (suc k) src (x ∷ b) = ap (λ t. x ∷ t) (take-overwrite n k src b)
take-overwrite (suc n) zero [] (x ∷ b) = refl
take-overwrite (suc n) zero (s ∷ src) (x ∷ b) = ap (λ t. s ∷ t) (take-overwrite n zero src b)

drop-overwrite :
    (from o k : ℕ) (src b : List ℕ)
    → o ≡ from + k
    → drop from (overwrite b o src) ≡ overwrite (drop from b) k src
unfolding overwrite
drop-overwrite zero o k src b h = let e : o ≡ k = omega arith in ap (λ i. overwrite b i src) e
drop-overwrite (suc from) o k src [] h = refl
drop-overwrite (suc from) zero k src (x ∷ b) h = absurd (omega arith)
drop-overwrite (suc from) (suc o) k src (x ∷ b) h = drop-overwrite from o k src b (omega arith)

-- A part that the writes go into is written like the array.
pub slice-fill-moved :
    (from n : ℕ) (ws : Writes) (b : List ℕ)
    → slice from n (fill (moved from ws) b) ≡ fill ws (slice from n b)
slice-fill-moved from n [] b = refl
slice-fill-moved from n ((o, cap, src) ∷ ws) b =
    slice-fill-moved from n ws (overwrite b (from + o) src)
    ∙ ap (fill ws) (
        ap (take n) (drop-overwrite from (from + o) o src b refl)
        ∙ take-overwrite n o src (drop from b))

pub fill-append : (xs ys : Writes) (b : List ℕ) → fill (xs ++ ys) b ≡ fill ys (fill xs b)
fill-append [] ys b = refl
fill-append ((o, cap, src) ∷ xs) ys b = fill-append xs ys (overwrite b o src)

pub moved-append :
    (from : ℕ) (xs ys : Writes) → moved from (xs ++ ys) ≡ moved from xs ++ moved from ys
moved-append from [] ys = refl
moved-append from ((o, cap, src) ∷ xs) ys =
    ap (λ t. (from + o, cap, src) ∷ t) (moved-append from xs ys)

-- What lies in front of the writes is left alone.
pub slice-fill_front :
    (from n : ℕ) (ws : Writes) (b : List ℕ)
    → n ≤ from
    → slice 0 n (fill (moved from ws) b) ≡ slice 0 n b
slice-fill_front from n [] b h = refl
slice-fill_front from n ((o, cap, src) ∷ ws) b h =
    slice-fill_front from n ws (overwrite b (from + o) src) h
    ∙ slice-overwrite_before b (from + o) 0 n src (omega arith)

pub overwrite_nil : (b : List ℕ) (o : ℕ) → overwrite b o [] ≡ b
unfolding overwrite
overwrite_nil [] o = refl
overwrite_nil (x ∷ b) zero = refl
overwrite_nil (x ∷ b) (suc o) = ap (λ t. x ∷ t) (overwrite_nil b o)

pub length-take_fits : (n : ℕ) (b : List ℕ) → n ≤ length b → length (take n b) ≡ n
length-take_fits zero b h = refl
length-take_fits (suc n) [] h = absurd (omega arith)
length-take_fits (suc n) (x ∷ b) h = ap suc (length-take_fits n b (omega arith))
