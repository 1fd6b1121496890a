-- ===== src/X402/Meter/Kept.antt =====
-- What the calls of `ChannelMeter` (tools/x402-bridge/meter.ts) keep of its state.
use semantos_edge.Base.{
  ℕ, zero, suc, ◌+◌, inl, inr, Bool, true, false, ◌||◌, Option, none, some, List, [], ◌∷◌, ltb,
  Option-cases,
}
use semantos_edge.Base.Map.{Str}
use semantos_edge.X402.Meter.{
  MeterSettings, MeterState, Meter, Frame, FrameKind, Air, ◌>>=◌, return,
}
use semantos_edge.X402.Meter.Session.{
  broadcast, now, seal, copies, send, send_open, flush, end_channel, draw, new_session, start,
  is_dark, reopens, prepare, save, saved_by, fresh_state,
}
use semantos_edge.X402.Meter.Runs.{
  Keeps, Keeps-bind, Keeps-return, Keeps-lift, Keeps-ask, Keeps-modify, Keeps-if,
}

module _ (sha256 : List ℕ → List ℕ) (sign_cell : List ℕ → List ℕ) (clock : ℕ → ℕ) (air : ℕ → Air)
    (random_id : ℕ → Str) (cfg : MeterSettings) (P : MeterState → Type 0) where
  -- A property of the state, as one of the meter.
  abbrev pub OfState : Meter → Type 0
  OfState m = P m.state

  pub now-Keeps : Keeps OfState (now sha256 sign_cell clock air random_id cfg)
  unfolding now
  now-Keeps = record { keeps = λ m h. h }

  pub seal-Keeps :
      (kind : FrameKind) (payload : List ℕ)
      → Keeps OfState (seal sha256 sign_cell clock air random_id cfg kind payload)
  unfolding seal
  seal-Keeps kind payload =
      Keeps-bind _ _ now-Keeps (λ at. Keeps-bind _ _ (Keeps-lift _) (λ cell. Keeps-return _))

  pub broadcast-Keeps :
      (f : Frame) → Keeps OfState (broadcast sha256 sign_cell clock air random_id cfg f)
  unfolding broadcast
  broadcast-Keeps f = record { keeps = λ m h. h }

  copies-Keeps :
      (n : ℕ) (f : Frame) (any : Bool)
      → Keeps OfState (copies sha256 sign_cell clock air random_id cfg n f any)
  unfolding copies
  copies-Keeps zero f any = Keeps-return _
  copies-Keeps (suc n) f any =
      Keeps-bind _ _ (broadcast-Keeps f) (λ went. copies-Keeps n f (went || any))

  send-Keeps :
      (kind : FrameKind) (payload : List ℕ) (times : ℕ)
      → Keeps OfState (send sha256 sign_cell clock air random_id cfg kind payload times)
  unfolding send
  send-Keeps kind payload times =
      Keeps-bind _ _ (seal-Keeps kind payload) (λ f. copies-Keeps times f false)

  send_open-Keeps :
      (times : ℕ) → Keeps OfState (send_open sha256 sign_cell clock air random_id cfg times)
  unfolding send_open
  send_open-Keeps times = Keeps-bind _ _ now-Keeps (λ at. Keeps-bind _ _ (Keeps-ask _) (λ id.
      Keeps-bind _ _ (Keeps-lift _) (λ payload. Keeps-bind _ _ (send-Keeps _ payload times) (λ went.
        Keeps-if went
          (Keeps-bind _ _ now-Keeps
            (λ t. Keeps-bind _ _ (Keeps-modify _ (λ m h. h)) (λ ignored. Keeps-return _)))
          (Keeps-return _)))))

  saved_by-kept : (d : List Bool) (m : Meter) → P m.state → P (saved_by d m).1.state
  unfolding saved_by
  saved_by-kept [] m h = h
  saved_by-kept (true ∷ d) m h = h
  saved_by-kept (false ∷ d) m h = h

  save-Keeps : Keeps OfState (save sha256 sign_cell clock air random_id cfg)
  unfolding save
  save-Keeps = record { keeps = λ m h. saved_by-kept m.disk m h }

  draw-Keeps : Keeps OfState (draw sha256 sign_cell clock air random_id cfg)
  unfolding draw
  draw-Keeps = record { keeps = λ m h. h }

  pub flush-Keeps : Keeps OfState (flush sha256 sign_cell clock air random_id cfg)
  unfolding flush
  flush-Keeps = record {
    keeps = λ m h. elim (Option-cases m.tail) [
      | inl e ↦ rw (e, flush) h
      | inr ((f, n), e) ↦ rw (e, flush) ((copies-Keeps n f false).keeps m h)
    ];
  }

  end_channel-Keeps : Keeps OfState (end_channel sha256 sign_cell clock air random_id cfg)
  unfolding end_channel
  end_channel-Keeps = Keeps-bind _ _ (Keeps-ask _) (λ s.
      Keeps-if (ltb 0 s.seq)
        (Keeps-bind _ _ (Keeps-lift _) (λ last. Keeps-bind _ _ (send-Keeps _ last 1) (λ ignored.
          Keeps-bind _ _ (Keeps-lift _)
            (λ end. Keeps-bind _ _ (send-Keeps _ end cfg.repeat) (λ again. Keeps-return _)))))
        (Keeps-return _))

  is_dark-Keeps : Keeps OfState (is_dark sha256 sign_cell clock air random_id cfg)
  unfolding is_dark
  is_dark-Keeps = Keeps-bind _ _ (Keeps-ask _) (λ s.
      Keeps-if (ltb 0 s.seq) (Keeps-bind _ _ now-Keeps (λ t. Keeps-return _)) (Keeps-return _))

  reopens-Keeps : Keeps OfState (reopens sha256 sign_cell clock air random_id cfg)
  unfolding reopens
  reopens-Keeps = Keeps-bind _ _ (Keeps-ask _) cases
    where
      cases :
          (last : Option ℕ)
          → Keeps OfState (elim last [
            | none ↦ return true
            | some at ↦ now sha256 sign_cell clock air random_id cfg >>= λ t.
                return (ltb (at + cfg.reopen_every_ms) t)
          ])
      cases none = Keeps-return _
      cases (some at) = Keeps-bind _ _ now-Keeps (λ t. Keeps-return _)

  -- What every state shares with the empty one that follows it.
  module _ (restart : (s : MeterState) (id : Str) → P s → P (fresh_state id s.sats_paid)) where
    new_session-Keeps : Keeps OfState (new_session sha256 sign_cell clock air random_id cfg)
    unfolding new_session
    new_session-Keeps = Keeps-bind _ _ end_channel-Keeps (λ ended. Keeps-bind _ _ draw-Keeps (λ id.
        Keeps-bind _ _ (Keeps-modify _ (λ m h. restart m.state id h))
          (λ ignored. Keeps-bind _ _ save-Keeps (λ saved. send_open-Keeps cfg.repeat))))

    pub prepare-Keeps : Keeps OfState (prepare sha256 sign_cell clock air random_id cfg)
    unfolding prepare
    prepare-Keeps = Keeps-bind _ _ is_dark-Keeps (λ dark. Keeps-if dark new_session-Keeps (
        Keeps-bind _ _ reopens-Keeps
          (λ again. Keeps-if again (send_open-Keeps 1) (Keeps-return _))))

    pub start-Keeps : Keeps OfState (start sha256 sign_cell clock air random_id cfg)
    unfolding start
    start-Keeps = Keeps-bind _ _ flush-Keeps (λ flushed.
        Keeps-bind _ _ (Keeps-ask _)
          (λ seq. Keeps-if (ltb 0 seq) new_session-Keeps (send_open-Keeps cfg.repeat)))
