-- ===== src/X402/Hops/Examples.antt =====
-- Requests that are refused and sent (tools/x402-bridge/mesh-control.ts), with a stand-in
-- for SHA-256.
use semantos_edge.Base.{
  ℕ, true, false, ◌%◌, ◌≡◌, refl, ◌⊎◌, none, some, List, [], ◌∷◌, length, replicate, arith,
}
use semantos_edge.Templog.Text.{codes}
use semantos_edge.X402.Hops.{
  Request, no_hops, inner_of, prepare_v1, after_all, Event, forward, bad_key, opened, failed,
  bad_trigger, sends,
}
use semantos_edge.X402.Hops.Named.{IsNamed, prepare_v1-IsNamed}

abbrev hash : List ℕ → List ℕ
hash bytes = (length bytes % 256) ∷ replicate 31 0

hash-long : (bytes : List ℕ) → length (hash bytes) ≡ 32
hash-long bytes = refl

abbrev refused : Request
refused = record {
  hop_verb = some 2;
  trigger = some (codes "knock");
  blink_ms = none;
  now = 1000;
  channel_id = replicate 16 1;
  cert_hash = none;
  certified = true;
}

abbrev wave : Request
wave = record refused { hop_verb = some 1; cert_hash = some (replicate 32 9) }

-- A channel that was opened after a cell, a request that is refused, and a cell with a bad key.
abbrev events : List Event
events = forward wave ∷ opened ∷ forward refused ∷ bad_key true ∷ []

prepare_v1-IsNamed_example :
    ((true ≡ false) × ((prepare_v1 hash wave (after_all hash events no_hops)).0 ≡ failed))
    ⊎ (((inner_of hash wave ≡ none)
          × ((prepare_v1 hash wave (after_all hash events no_hops)).0 ≡ bad_trigger))
        ⊎ ((v : List ℕ) × ((prepare_v1 hash wave (after_all hash events no_hops)).0 ≡ sends v)
            × IsNamed v 3))
prepare_v1-IsNamed_example = prepare_v1-IsNamed hash hash-long events wave (omega arith)
