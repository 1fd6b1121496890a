-- ===== src/X402/Meter/Runs.antt =====
-- How a property of the meter (tools/x402-bridge/meter.ts) goes through a sequence of calls.
use semantos_edge.Base.{Bool, true, false, Result, ok, thrown, if◌then◌else◌}
use semantos_edge.X402.Meter.{Meter, Run, and_then, ◌>>=◌, return, lift, ask, modify}

-- The call keeps the property, whether it returns or throws.
pub record Keeps {ℓ} {A : Type ℓ} (P : Meter → Type 0) (r : Run A) : Type 0 where
  pub keeps : (m : Meter) → P m → P (r m).1

pub Keeps-bind {ℓ κ} :
    {A : Type ℓ} {B : Type κ} {P : Meter → Type 0} (r : Run A) (k : A → Run B)
    → Keeps P r
    → ((a : A) → Keeps P (k a))
    → Keeps P (r >>= k)
unfolding ◌>>=◌
Keeps-bind {A = A} {B = B} {P = P} r k first later = record {
  keeps = λ m h. go (r m) (first.keeps m h);
}
  where
    go : (x : Result A × Meter) → P x.1 → P (and_then x k).1
    go (ok a, n) p = (later a).keeps n p
    go (thrown, n) p = p

-- What holds at the end of a sequence whose first call keeps a property.
pub bind-lem {ℓ κ} :
    {A : Type ℓ} {B : Type κ} {P : Meter → Type 0} (S : Result B × Meter → Type 0) (r : Run A)
    (k : A → Run B) (m : Meter)
    → Keeps P r
    → P m
    → ((n : Meter) → P n → S (thrown, n))
    → ((a : A) (n : Meter) → P n → S (k a n))
    → S ((r >>= k) m)
unfolding ◌>>=◌
bind-lem {A = A} {P = P} S r k m first h throws returns = go (r m) (first.keeps m h)
  where
    go : (x : Result A × Meter) → P x.1 → S (and_then x k)
    go (ok a, n) p = returns a n p
    go (thrown, n) p = throws n p

-- What holds at the end of a sequence, from what holds after its first call.
pub bind_result {ℓ κ} :
    {A : Type ℓ} {B : Type κ} (R : Result A × Meter → Type 0) (S : Result B × Meter → Type 0)
    (r : Run A) (k : A → Run B) (m : Meter)
    → R (r m)
    → ((n : Meter) → R (thrown, n) → S (thrown, n))
    → ((a : A) (n : Meter) → R (ok a, n) → S (k a n))
    → S ((r >>= k) m)
unfolding ◌>>=◌
bind_result {A = A} R S r k m h throws returns = go (r m) h
  where
    go : (x : Result A × Meter) → R x → S (and_then x k)
    go (ok a, n) p = returns a n p
    go (thrown, n) p = throws n p

pub ask-lem {ℓ κ} :
    {A : Type ℓ} {B : Type κ} (S : Result B × Meter → Type 0) (f : Meter → A) (k : A → Run B)
    (m : Meter)
    → S (k (f m) m)
    → S ((ask f >>= k) m)
unfolding ◌>>=◌ ask
ask-lem S f k m h = h

-- Calls that read the meter and do not change it.
pub Keeps-return {ℓ} : {A : Type ℓ} {P : Meter → Type 0} (a : A) → Keeps P (return a)
unfolding return
Keeps-return a = record { keeps = λ m h. h }

pub Keeps-lift {ℓ} : {A : Type ℓ} {P : Meter → Type 0} (r : Result A) → Keeps P (lift r)
unfolding lift
Keeps-lift r = record { keeps = λ m h. h }

pub Keeps-ask {ℓ} : {A : Type ℓ} {P : Meter → Type 0} (f : Meter → A) → Keeps P (ask f)
unfolding ask
Keeps-ask f = record { keeps = λ m h. h }

pub Keeps-modify :
    {P : Meter → Type 0} (f : Meter → Meter) → ((m : Meter) → P m → P (f m)) → Keeps P (modify f)
unfolding modify
Keeps-modify f h = record { keeps = h }

pub Keeps-if {ℓ} :
    {A : Type ℓ} {P : Meter → Type 0} {r t : Run A} (b : Bool)
    → Keeps P r
    → Keeps P t
    → Keeps P (if b then r else t)
Keeps-if true h k = h
Keeps-if false h k = k
