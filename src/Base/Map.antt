-- ===== src/Base/Map.antt =====
-- JavaScript's `Map<string, V>` as its entries in insertion order. A string is the list of its
-- code units.
use semantos_edge.Base.Tests.{◌==◌, ==_iff, if◌then◌else◌, Bool-cases}
use Prim.Native.Nat.{ℕ}
use semantos_edge.Base.Lists.{All}
use mathlib.Core.Path.{◌≡◌, refl, ap, sym, ◌∙◌, subst}
use mathlib.Core.Logic.{◌↔◌, inl, inr}
use mathlib.Core.Bool.{Bool, true, false, ◌&&◌}
use mathlib.Core.Option.{Option, none, some}
use mathlib.Core.List.{List, [], ◌∷◌}
use native.Mathlib.Omega.{arith}

abbrev pub Str : Type 0
Str = List ℕ

-- a === b
unfoldable pub str_eq : Str → Str → Bool
str_eq [] [] = true
str_eq [] (y ∷ ys) = false
str_eq (x ∷ xs) [] = false
str_eq (x ∷ xs) (y ∷ ys) = x == y && str_eq xs ys

pub str_eq_iff : (a b : Str) → (str_eq a b ≡ true) ↔ (a ≡ b)
unfolding str_eq
str_eq_iff [] [] = ground arith
str_eq_iff [] (y ∷ ys) = ground arith
str_eq_iff (x ∷ xs) [] = ground arith
str_eq_iff (x ∷ xs) (y ∷ ys) = ground (arith, ==_iff x y, str_eq_iff xs ys)

pub str_eq_refl : (a : Str) → str_eq a a ≡ true
str_eq_refl a = (str_eq_iff a a).1 refl

module _ {ℓ} {V : Type ℓ} where
  -- m.get(k)
  unfoldable pub get : Str → List (Str × V) → Option V
  get k [] = none
  get k ((j, v) ∷ m) = if str_eq j k then some v else get k m

  -- m.set(k, v): a key that is already there keeps its place.
  unfoldable pub put : Str → V → List (Str × V) → List (Str × V)
  put k v [] = (k, v) ∷ []
  put k v ((j, w) ∷ m) = if str_eq j k then (j, v) ∷ m else (j, w) ∷ put k v m

  pub get-put :
      (k j : Str) (v : V) (m : List (Str × V))
      → get j (put k v m) ≡ (if str_eq k j then some v else get j m)
  unfolding get put
  get-put k j v [] = refl
  get-put k j v ((i, w) ∷ m) =
      ground (arith, str_eq_iff k j, str_eq_iff i k, str_eq_iff i j, get-put k j v m)

  pub put-put : (k : Str) (v w : V) (m : List (Str × V)) → put k v (put k w m) ≡ put k v m
  unfolding put
  put-put k v w [] = rw (str_eq_refl k) refl
  put-put k v w ((j, x) ∷ m) = elim (Bool-cases (str_eq j k)) [
    | inl e ↦ rw (e, put) (rw (e, put) refl)
    | inr e ↦ rw (e, put) (rw (e, put) (ap (λ t. (j, x) ∷ t) (put-put k v w m)))
  ]

  pub get-put_self : (k : Str) (v : V) (m : List (Str × V)) → get k (put k v m) ≡ some v
  get-put_self k v m = get-put k k v m ∙ rw (str_eq_refl k) refl

  -- Putting what is there changes nothing.
  pub put_same : (k : Str) (v : V) (m : List (Str × V)) → get k m ≡ some v → put k v m ≡ m
  unfolding get put
  put_same k v [] h = cc
  put_same k v ((j, w) ∷ m) h = elim (Bool-cases (str_eq j k)) [
    | inl e ↦ rw e (ap (λ x. (j, x) ∷ m) (sym (ground arith)))
    | inr e ↦ rw e (ap (λ x. (j, w) ∷ x) (put_same k v m (ground arith)))
  ]

  -- A property of every value of a map.
  pub All-get {κ} :
      (P : V → Type κ) (k : Str) (v : V) (m : List (Str × V))
      → All (λ (e : Str × V). P e.1) m
      → get k m ≡ some v
      → P v
  unfolding get
  All-get P k v [] h e = absurd (cc e)
  All-get P k v ((j, w) ∷ m) (h, hs) e = elim (Bool-cases (str_eq j k)) [
    | inl t ↦ let same : w ≡ v = ground arith in subst P same h
    | inr t ↦ All-get P k v m hs (ground arith)
  ]

  pub All-put {κ} :
      (P : V → Type κ) (k : Str) (v : V) (m : List (Str × V))
      → All (λ (e : Str × V). P e.1) m
      → P v
      → All (λ (e : Str × V). P e.1) (put k v m)
  unfolding put
  All-put P k v [] h p = (p, tt)
  All-put P k v ((j, w) ∷ m) (h, hs) p = elim (Bool-cases (str_eq j k)) [
    | inl t ↦ rw (t, put) (p, hs)
    | inr t ↦ rw (t, put) (h, All-put P k v m hs p)
  ]
