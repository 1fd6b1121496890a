-- ===== src/Templog/Climb.antt =====
-- The loop `while (has(through + 1)) through++` of tools/templog-bridge/store.ts.
use semantos_edge.Base.{
  ℕ, zero, suc, ◌+◌, ◌≤◌, ◌<◌, ◌≡◌, Bool, true, false, List, [], ◌∷◌, arith, ltb, ==_iff,
  if◌then◌else◌, Bool-cases, inl, inr, length,
}
use semantos_edge.Base.Members.{mem}
use native.Mathlib.Decide.{dec_le}

-- `climb fuel has t`: at most `fuel` rounds.
unfoldable pub climb : ℕ → (ℕ → Bool) → ℕ → ℕ
climb zero has t = t
climb (suc fuel) has t = elim (has (t + 1)) [ true ↦ climb fuel has (t + 1) | false ↦ t ]

-- `r` is where a walk up from `t` over what is held ends: all between is held, and `r + 1` is not.
pub record IsTop (has : ℕ → Bool) (t r : ℕ) : Type 0 where
  pub low : t ≤ r
  pub held : (q : ℕ) → t < q → q ≤ r → has q ≡ true
  pub stop : has (r + 1) ≡ false

-- There is one such point.
pub IsTop-unique : (has : ℕ → Bool) (t r r' : ℕ) → IsTop has t r → IsTop has t r' → r ≡ r'
IsTop-unique has t r r' a b =
    grind (arith, a.low, b.low, a.stop, b.stop, a.held (r' + 1), b.held (r + 1))

-- How many entries of a list lie above `t`.
above : ℕ → List ℕ → ℕ
above t [] = 0
above t (x ∷ xs) = (if ltb t x then 1 else 0) + above t xs

above-le-length : (t : ℕ) (xs : List ℕ) → above t xs ≤ length xs
unfolding above
above-le-length t [] = omega arith
above-le-length t (x ∷ xs) = ground (arith, above-le-length t xs)

above-suc-le : (t : ℕ) (xs : List ℕ) → above (t + 1) xs ≤ above t xs
unfolding above
above-suc-le t [] = omega arith
above-suc-le t (x ∷ xs) = ground (arith, above-suc-le t xs)

above_falls : (t : ℕ) (xs : List ℕ) → mem (t + 1) xs ≡ true → above (t + 1) xs < above t xs
unfolding above mem
above_falls t [] h = cc
above_falls t (x ∷ xs) h = ground (arith, above_falls t xs, above-suc-le t xs, ==_iff x (t + 1))

climb_on :
    (fuel : ℕ) (has : ℕ → Bool) (t : ℕ)
    → has (t + 1) ≡ true
    → climb (suc fuel) has t ≡ climb fuel has (t + 1)
unfolding climb
climb_on fuel has t e = rw (e, climb)

climb_off : (fuel : ℕ) (has : ℕ → Bool) (t : ℕ) → has (t + 1) ≡ false → climb (suc fuel) has t ≡ t
unfolding climb
climb_off fuel has t e = rw (e, climb)

none_above : (t : ℕ) (xs : List ℕ) → above t xs ≤ 0 → mem (t + 1) xs ≡ false
none_above t xs h = elim (Bool-cases (mem (t + 1) xs)) [
  | inl e ↦ absurd (omega (arith, above_falls t xs e))
  | inr e ↦ e
]

IsTop-step : (has : ℕ → Bool) (t r : ℕ) → has (t + 1) ≡ true → IsTop has (t + 1) r → IsTop has t r
IsTop-step has t r e i = record {
  low = omega (arith, i.low);
  held = λ q a b. ground (arith, i.held q);
  stop = i.stop;
}

climb-IsTop-above :
    (fuel : ℕ) (has : ℕ → Bool) (xs : List ℕ) (t : ℕ)
    → ((q : ℕ) → has q ≡ mem q xs)
    → above t xs ≤ fuel
    → IsTop has t (climb fuel has t)
climb-IsTop-above zero has xs t same h =
    unfold climb in
    record {
      low = omega arith;
      held = λ q a b. absurd (omega arith);
      stop = rw same (none_above t xs h);
    }
climb-IsTop-above (suc fuel) has xs t same h = elim (Bool-cases (has (t + 1))) [
  | inl e ↦ rw (climb_on fuel has t e) (
      IsTop-step has t _ e (
        climb-IsTop-above fuel has xs (t + 1) same
          (omega (arith, above_falls t xs (rw same at e)))))
  | inr e ↦
      rw (climb_off fuel has t e)
        (record { low = omega arith; held = λ q a b. absurd (omega arith); stop = e })
]

-- With a round for each entry of the list that `has` tests, the loop ends by its test.
pub climb-IsTop :
    (fuel : ℕ) (has : ℕ → Bool) (xs : List ℕ) (t : ℕ)
    → ((q : ℕ) → has q ≡ mem q xs)
    → length xs ≤ fuel
    → IsTop has t (climb fuel has t)
climb-IsTop fuel has xs t same h =
    climb-IsTop-above fuel has xs t same (omega (arith, above-le-length t xs))

-- A walk that starts lower, at a point from which all up to `t` is held, ends at the same place.
pub IsTop-below :
    (has : ℕ → Bool) (s t r : ℕ)
    → s ≤ t
    → ((q : ℕ) → s < q → q ≤ t → has q ≡ true)
    → IsTop has t r
    → IsTop has s r
IsTop-below has s t r le h i = record {
  low = omega (arith, i.low);
  held = λ q a b. elim (dec_le q t) [ yes p ↦ h q a p | no p ↦ i.held q (omega arith) b ];
  stop = i.stop;
}
