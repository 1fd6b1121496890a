-- ===== src/X402/Meter/Payments.antt =====
-- What a payment promises (`addSats` of tools/x402-bridge/meter.ts).
use semantos_edge.Base.{
  ℕ, ◌+◌, ◌<◌, ◌≡◌, refl, sym, ap, none, some, List, ◌⊎◌, inl, inr, arith, Result, ok, thrown,
}
use mathlib.Core.Path.{subst}
use semantos_edge.Base.Map.{Str}
use semantos_edge.X402.Meter.{MeterSettings, MeterState, Meter, Air}
use semantos_edge.X402.Meter.Session.{start, add_sats, Added, lit_for, not_broadcast, fresh_state}
use semantos_edge.X402.Meter.Kept.{start-Keeps}
use semantos_edge.X402.Meter.Books.{Pays, threw, not_paid, paid, paid_unsaved, add_sats-Pays}

-- What the room paid by a call.
unfoldable pub paid_by : Result Added → ℕ → ℕ
paid_by (ok (lit_for added left)) sats = sats
paid_by (ok (not_broadcast left)) sats = 0
paid_by thrown sats = 0

-- A meter that was not started has after_commit nothing, and one that was has a commitment.
pub data IsBooked (s : MeterState) : Type 0 where
  unstarted : s.meter_start_at ≡ none → s.seq ≡ 0 → s.share ≡ 0 → IsBooked s
  started : (from : ℕ) → s.meter_start_at ≡ some from → 0 < s.seq → IsBooked s

module _ (sha256 : List ℕ → List ℕ) (sign_cell : List ℕ → List ℕ) (clock : ℕ → ℕ) (air : ℕ → Air)
    (random_id : ℕ → Str) (cfg : MeterSettings) where
  -- The satoshis of a payment are added if it answers that the light is on, and not if it answers that
  -- the commitment was not broadcast; if it throws, they are or not.
  abbrev pub Paid : ℕ → ℕ → Result Added × Meter → Type 0
  Paid n sats x =
      (x.1.state.sats_paid ≡ n + paid_by x.0 sats)
      ⊎ ((x.0 ≡ thrown) × (x.1.state.sats_paid ≡ n + sats))

  Paid-of :
      (n sats : ℕ) (x : Result Added × Meter)
      → Pays sha256 sign_cell clock air random_id cfg (λ s. s.sats_paid ≡ n) sats x
      → Paid n sats x
  unfolding paid_by
  Paid-of n sats x (threw m p) = inl (omega arith)
  Paid-of n sats x (not_paid m left p) = inl (omega arith)
  Paid-of n sats x (paid s m i from seconds left p e) =
      let q = ap (λ t. t.sats_paid) e in inl (omega arith)
  Paid-of n sats x (paid_unsaved s m i from p e) =
      let q = ap (λ t. t.sats_paid) e in inr (refl, omega arith)

  -- A payment adds its satoshis to what the room paid if it answers that the light is on, and nothing
  -- if it answers that the commitment was not broadcast. If it throws, it adds nothing or exactly
  -- them: the state file is written behind the sum.
  pub add_sats-paid :
      (sats : ℕ) (m : Meter)
      → ((add_sats sha256 sign_cell clock air random_id cfg sats m).1.state.sats_paid
          ≡ m.state.sats_paid
            + paid_by (add_sats sha256 sign_cell clock air random_id cfg sats m).0 sats)
        ⊎ (((add_sats sha256 sign_cell clock air random_id cfg sats m).0 ≡ thrown)
            × ((add_sats sha256 sign_cell clock air random_id cfg sats m).1.state.sats_paid
                ≡ m.state.sats_paid + sats))
  add_sats-paid sats m = Paid-of m.state.sats_paid sats _ (
      add_sats-Pays sha256 sign_cell clock air random_id cfg (λ s. s.sats_paid ≡ m.state.sats_paid)
        (λ s id h. h) sats m refl)

  IsBooked-restart :
      (s : MeterState) (id : Str) → IsBooked s → IsBooked (fresh_state id s.sats_paid)
  IsBooked-restart s id h = unstarted refl refl refl

  IsBooked-of :
      (sats : ℕ) (x : Result Added × Meter)
      → Pays sha256 sign_cell clock air random_id cfg IsBooked sats x
      → IsBooked x.1.state
  IsBooked-of sats x (threw m p) = p
  IsBooked-of sats x (not_paid m left p) = p
  IsBooked-of sats x (paid s m i from seconds left p e) =
      subst IsBooked (sym e) (started from refl (omega arith))
  IsBooked-of sats x (paid_unsaved s m i from p e) =
      subst IsBooked (sym e) (started from refl (omega arith))

  -- Starting the meter and paying keep that a meter that is not started has after_commit nothing and that
  -- a started one has a commitment, whether they return or throw.
  pub add_sats-IsBooked :
      (sats : ℕ) (m : Meter)
      → IsBooked m.state
      → IsBooked (start sha256 sign_cell clock air random_id cfg m).1.state
        × IsBooked (add_sats sha256 sign_cell clock air random_id cfg sats m).1.state
  add_sats-IsBooked sats m h = (
    (start-Keeps sha256 sign_cell clock air random_id cfg IsBooked IsBooked-restart).keeps m h,
    IsBooked-of sats _
        (add_sats-Pays sha256 sign_cell clock air random_id cfg IsBooked IsBooked-restart sats m h),
  )
