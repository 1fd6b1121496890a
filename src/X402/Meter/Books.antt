-- ===== src/X402/Meter/Books.antt =====
-- What a payment does to the books of `ChannelMeter` (tools/x402-bridge/meter.ts).
use semantos_edge.Base.{
  ℕ, ◌+◌, ◌*◌, ◌/◌, ◌≡◌, refl, sym, ap, inl, inr, Bool, true, false, some, List, [], ◌∷◌, ◌∙◌,
  if◌then◌else◌, Result, ok, thrown, Option-cases,
}
use mathlib.Core.Path.{subst}
use semantos_edge.Base.Map.{Str}
use semantos_edge.X402.Meter.{
  MeterSettings, MeterState, Meter, Frame, Air, Run, Done, and_then, ◌>>=◌, return, modify, ask,
}
use semantos_edge.X402.Meter.Session.{
  now, next_share, settle, commit, status, add_sats, Added, lit_for, not_broadcast, save, saved_by,
  fresh_state,
}
use semantos_edge.X402.Meter.Runs.{Keeps-lift, bind-lem, bind_result, ask-lem}
use semantos_edge.X402.Meter.Kept.{seal-Keeps, broadcast-Keeps, flush-Keeps, prepare-Keeps}

-- The state after a commitment that was broadcast, by the share and the start of the meter.
abbrev pub after_commit : MeterState → ℕ → ℕ → ℕ → MeterState
after_commit s sats share from = record s {
  seq = s.seq + 1;
  share = share;
  sats_paid = s.sats_paid + sats;
  meter_start_at = some from;
}

module _ (sha256 : List ℕ → List ℕ) (sign_cell : List ℕ → List ℕ) (clock : ℕ → ℕ) (air : ℕ → Air)
    (random_id : ℕ → Str) (cfg : MeterSettings) where
  -- How a commitment ends: with the state as it was, or with one more commitment in the books, whose
  -- share was decided at some reading of the clock.
  pub data Commits (s : MeterState) (sats : ℕ) : Result Bool × Meter → Type 0 where
    stopped : (m : Meter) → m.state ≡ s → Commits s sats (thrown, m)
    missed : (m : Meter) → m.state ≡ s → Commits s sats (ok false, m)
    went :
        (m : Meter) (i from : ℕ)
        → m.state
          ≡ after_commit s sats
              (next_share sha256 sign_cell clock air random_id cfg s (clock i) sats)
              from
        → Commits s sats (ok true, m)
    unsaved :
        (m : Meter) (i from : ℕ)
        → m.state
          ≡ after_commit s sats
              (next_share sha256 sign_cell clock air random_id cfg s (clock i) sats)
              from
        → Commits s sats (thrown, m)

  saved_by-lem :
      (S : Result Done × Meter → Type 0) (d : List Bool) (m : Meter)
      → ((n : Meter) → n.state ≡ m.state → S (ok tt, n))
      → ((n : Meter) → n.state ≡ m.state → S (thrown, n))
      → S (saved_by d m)
  unfolding saved_by
  saved_by-lem S [] m h k = h _ refl
  saved_by-lem S (true ∷ d) m h k = h _ refl
  saved_by-lem S (false ∷ d) m h k = k _ refl

  save-lem {ℓ} :
      {B : Type ℓ} (S : Result B × Meter → Type 0) (k : Done → Run B) (m : Meter)
      → ((n : Meter) → n.state ≡ m.state → S (k tt n))
      → ((n : Meter) → n.state ≡ m.state → S (thrown, n))
      → S (and_then (save sha256 sign_cell clock air random_id cfg m) k)
  unfolding save
  save-lem S k m h t = saved_by-lem (λ x. S (and_then x k)) m.disk m h t

  now-lem {ℓ} :
      {B : Type ℓ} (S : Result B × Meter → Type 0) (k : ℕ → Run B) (m : Meter)
      → ((n : Meter) → n.state ≡ m.state → S (k (clock m.reads) n))
      → S ((now sha256 sign_cell clock air random_id cfg >>= k) m)
  unfolding ◌>>=◌ now
  now-lem S k m h = h _ refl

  settle-went :
      (s : MeterState) (sats i : ℕ) (f : Frame) (m : Meter)
      → m.state ≡ s
      → Commits s sats (
          (settle sha256 sign_cell clock air random_id cfg f
                (next_share sha256 sign_cell clock air random_id cfg s (clock i) sats)
                sats
              >>= λ ignored. return true)
            m)
  unfolding settle now ask modify ◌>>=◌ return
  settle-went s sats i f m e =
      let share = next_share sha256 sign_cell clock air random_id cfg s (clock i) sats in
      elim (Option-cases m.state.meter_start_at) [
        | inl h ↦
            let booked = ap (λ t. after_commit t sats share (clock m.reads)) e in
            rw (h, settle)
              (save-lem (λ x. Commits s sats (and_then x (λ ignored. return true))) _ _
                (λ n q. went _ i (clock m.reads) (q ∙ booked))
                (λ n q. unsaved _ i (clock m.reads) (q ∙ booked)))
        | inr (from, h) ↦
            let booked = ap (λ t. after_commit t sats share from) e in
            rw (h, settle)
              (save-lem (λ x. Commits s sats (and_then x (λ ignored. return true))) _ _
                (λ n q. went _ i from (q ∙ booked)) (λ n q. unsaved _ i from (q ∙ booked)))
      ]

  settled :
      (s : MeterState) (sats i : ℕ) (f : Frame) (heard : Bool) (m : Meter)
      → m.state ≡ s
      → Commits s sats (
          (if heard
              then (settle sha256 sign_cell clock air random_id cfg f
                    (next_share sha256 sign_cell clock air random_id cfg s (clock i) sats)
                    sats
                  >>= λ ignored. return heard)
              else return heard)
            m)
  unfolding return
  settled s sats i f true m e = settle-went s sats i f m e
  settled s sats i f false m e = missed m e

  Commits-at :
      {s t : MeterState} (sats : ℕ) (x : Result Bool × Meter)
      → s ≡ t
      → Commits s sats x
      → Commits t sats x
  Commits-at sats x e h = subst (λ s. Commits s sats x) e h

  commit-Commits :
      (sats : ℕ) (m : Meter)
      → Commits m.state sats (commit sha256 sign_cell clock air random_id cfg sats m)
  unfolding commit
  commit-Commits sats m =
      let S = Commits m.state sats in
      now-lem S _ m (λ n e. ask-lem S _ _ n (
        Commits-at sats _ e (
          bind-lem {P = λ k. k.state ≡ n.state} (Commits n.state sats) _ _ n (Keeps-lift _) refl
            stopped
            (λ payload a p.
              bind-lem {P = λ k. k.state ≡ n.state} (Commits n.state sats) _ _ a
                (seal-Keeps sha256 sign_cell clock air random_id cfg _ _ payload) p stopped
                (λ f b q.
                  bind-lem {P = λ k. k.state ≡ n.state} (Commits n.state sats) _ _ b
                    (broadcast-Keeps sha256 sign_cell clock air random_id cfg _ f) q stopped
                    (λ heard c r. settled n.state sats m.reads f heard c r))))))

  -- How a payment ends, by what the state that it is after_commit from is like.
  pub data Pays (P : MeterState → Type 0) (sats : ℕ) : Result Added × Meter → Type 0 where
    threw : (m : Meter) → P m.state → Pays P sats (thrown, m)
    not_paid : (m : Meter) (left : ℕ) → P m.state → Pays P sats (ok (not_broadcast left), m)
    paid :
        (s : MeterState) (m : Meter) (i from seconds left : ℕ)
        → P s
        → m.state
          ≡ after_commit s sats
              (next_share sha256 sign_cell clock air random_id cfg s (clock i) sats)
              from
        → Pays P sats (ok (lit_for seconds left), m)
    paid_unsaved :
        (s : MeterState) (m : Meter) (i from : ℕ)
        → P s
        → m.state
          ≡ after_commit s sats
              (next_share sha256 sign_cell clock air random_id cfg s (clock i) sats)
              from
        → Pays P sats (thrown, m)

  stopped-Pays :
      (P : MeterState → Type 0) (s : MeterState) (sats : ℕ) (m : Meter)
      → P s
      → Commits s sats (thrown, m)
      → Pays P sats (thrown, m)
  stopped-Pays P s sats m p (stopped _ e) = threw m (subst P (sym e) p)
  stopped-Pays P s sats m p (unsaved _ i from e) = paid_unsaved s m i from p e

  -- The answer, after the clock is read for it.
  told :
      (P : MeterState → Type 0) (s : MeterState) (sats : ℕ) (heard : Bool) (m : Meter)
      → P s
      → Commits s sats (ok heard, m)
      → Pays P sats (
          (status sha256 sign_cell clock air random_id cfg >>= λ left. return (
              if heard
              then lit_for ((20000 * sats + cfg.rate) / (2 * cfg.rate)) left.seconds_left
              else not_broadcast left.seconds_left))
            m)
  unfolding status now ask ◌>>=◌ return
  told P s sats heard m p (missed _ e) = not_paid _ _ (subst P (sym e) p)
  told P s sats heard m p (went _ i from e) = paid s _ i from _ _ p e

  -- A property that the empty state has again is kept up to the commitment.
  pub add_sats-Pays :
      (P : MeterState → Type 0)
      (restart : (s : MeterState) (id : Str) → P s → P (fresh_state id s.sats_paid)) (sats : ℕ)
      (m : Meter)
      → P m.state
      → Pays P sats (add_sats sha256 sign_cell clock air random_id cfg sats m)
  unfolding add_sats
  add_sats-Pays P restart sats m h =
      bind-lem (Pays P sats) _ _ m (flush-Keeps sha256 sign_cell clock air random_id cfg P) h threw
        (λ flushed n p.
          bind-lem (Pays P sats) _ _ n
            (prepare-Keeps sha256 sign_cell clock air random_id cfg P restart) p threw
            (λ prepared k q.
              bind_result (Commits k.state sats) (Pays P sats) _ _ k (commit-Commits sats k)
                (λ l c. stopped-Pays P k.state sats l q c) (λ a l c. told P k.state sats a l q c)))
