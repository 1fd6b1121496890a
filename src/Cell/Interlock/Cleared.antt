-- ===== src/Cell/Interlock/Cleared.antt =====
-- What the interlocked actuators of tools/x402-bridge/interlock.ts carry.
use semantos_edge.Base.{
  ℕ, ◌<◌, ◌%◌, ◌∷◌, ◌++◌, length, none, some, ◌≡◌, refl, sym, ap, ◌∙◌, List, [], Result, ok, thrown,
  ◌>>=◌,
}
use mathlib.Core.Path.{subst}
use semantos_edge.Base.Map.{Str}
use semantos_edge.Templog.Text.{codes, from_hex}
use semantos_edge.Cell.Wire.{mint_cell, type_hash}
use semantos_edge.Cell.Actuator.{Activate, decode_actuator_activate}
use semantos_edge.Cell.Actuator.RoundTrip.{
  IsActivate, activate_of, decode_actuator_activate-activate_payload,
}
use semantos_edge.Cell.Activate.{bip143_sighash-single}
use semantos_edge.Cell.Domains.{mesh_control}
use semantos_edge.Cell.Interlock.{
  InterlockOptions, lock_offer, interlock_lock, interlock_check_sig_lock, push_signature,
  sighash_type_or, sighash_all_forkid, interlock_sighash, interlock_cell,
  build_capability_interlock_actuator, build_interlock_actuator,
}

abbrev payload_of : Result Activate → List ℕ
payload_of thrown = []
payload_of (ok a) = a.payload

abbrev activate_from : List ℕ → (List ℕ → List ℕ) → List ℕ → Activate
activate_from p sign cell = record { payload = p; cell = cell; sig = sign cell }

-- The payload that a cell is minted from is handed on with it.
payload-kept :
    (sign : List ℕ → List ℕ) (p : List ℕ) (r : Result (List ℕ)) (a : Activate)
    → (r >>= λ cell. ok (activate_from p sign cell)) ≡ ok a
    → p ≡ a.payload
payload-kept sign p thrown a h = absurd (cc h)
payload-kept sign p (ok cell) a h = ap payload_of h

-- A signature and its type behind their length.
abbrev pub pushed : List ℕ → ℕ → List ℕ
pushed sig type = length (sig ++ (type % 256 ∷ [])) % 256 ∷ (sig ++ (type % 256 ∷ []))

module _ (sha256 hash160 : List ℕ → List ℕ) (sign : List ℕ → List ℕ × List ℕ)
    (sign_cell : List ℕ → List ℕ) where
  interlock_cell-decoded :
      (opts : InterlockOptions) (lock unlock : List ℕ) (a : Activate)
      → IsActivate (lock_offer opts lock) unlock opts.counter
      → interlock_cell sha256 hash160 sign sign_cell opts lock unlock ≡ ok a
      → decode_actuator_activate a.payload ≡ activate_of (lock_offer opts lock) unlock opts.counter
  unfolding interlock_cell
  interlock_cell-decoded opts lock unlock a v h =
      let (p, e, d) =
        decode_actuator_activate-activate_payload (lock_offer opts lock) unlock opts.counter v in
      let type = type_hash sha256 (codes "cellmesh.actuator_activate.v0") in
      let mint : List ℕ → Result (List ℕ) =
        λ q. mint_cell sha256 type q opts.owner_id opts.timestamp_ms mesh_control in
      let after : (mint p >>= λ cell. ok (activate_from p sign_cell cell)) ≡ ok a =
        subst (λ x. (x >>= λ q. mint q >>= λ cell. ok (activate_from q sign_cell cell)) ≡ ok a) e
          h in
      ap decode_actuator_activate (sym (payload-kept sign_cell p (mint p) a after)) ∙ d

  -- Where the options fit the fields of a payload, the payload of an actuator that a capability clears
  -- decodes to the script 0x21, the capability's key, 0xac as its lock, to its length, the signature
  -- and the byte of its type as what unlocks it, the type being 0xc3 unless another is chosen, and to
  -- the options.
  pub build_capability_interlock_actuator-decoded :
      (opts : InterlockOptions) (cap_pubkey_hex : Str) (sig_der : List ℕ) (a : Activate)
      → IsActivate
          (lock_offer opts (0x21 ∷ (from_hex cap_pubkey_hex ++ (0xac ∷ []))))
          (pushed sig_der (elim opts.sighash_type [ none ↦ 0xc3 | some t ↦ t ]))
          opts.counter
      → build_capability_interlock_actuator sha256 hash160 sign sign_cell opts cap_pubkey_hex
          sig_der
        ≡ ok a
      → decode_actuator_activate a.payload
        ≡ activate_of
            (lock_offer opts (0x21 ∷ (from_hex cap_pubkey_hex ++ (0xac ∷ []))))
            (pushed sig_der (elim opts.sighash_type [ none ↦ 0xc3 | some t ↦ t ]))
            opts.counter
  unfolding build_capability_interlock_actuator interlock_check_sig_lock push_signature
      sighash_type_or
  build_capability_interlock_actuator-decoded opts cap_pubkey_hex sig_der a v h =
      interlock_cell-decoded opts (interlock_check_sig_lock cap_pubkey_hex) _ a v h

  -- An actuator with a permissive is not built for an input index other than 0: the call throws, since
  -- the transaction that its signature is made for is given one input only.
  pub build_interlock_actuator-thrown :
      (opts : InterlockOptions) (operator_pub_hex : Str) (permissive reveal : List ℕ)
      → 0 < opts.input_idx
      → build_interlock_actuator sha256 hash160 sign sign_cell opts operator_pub_hex permissive
          reveal
        ≡ thrown
  unfolding build_interlock_actuator interlock_sighash
  build_interlock_actuator-thrown opts operator_pub_hex permissive reveal h =
      rw
        (bip143_sighash-single sha256 1 _ _ 0 opts.input_idx
          (interlock_lock hash160 permissive operator_pub_hex) opts.input_value
          (sighash_type_or sighash_all_forkid opts) h)
        refl
