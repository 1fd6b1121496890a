-- ===== src/X402/Hops/Named.antt =====
-- What the payloads of /inject-forward-v1 of tools/x402-bridge/mesh-control.ts name as the count and
-- the pay of each hop.
use mathlib.Core.Path.{subst, sym}
use semantos_edge.Base.{
  Bool, true, false, if◌then◌else◌, ℕ, ◌+◌, ◌*◌, ◌^◌, ◌≤◌, ◌<◌, ◌≡◌, refl, ap, ◌∙◌, ◌⊎◌, inl, inr,
  ◌==◌, Bool-cases, none, some, Option-cases, List, [], ◌∷◌, length, length-replicate, replicate,
  ok, arith,
}
use semantos_edge.Base.Map.{get}
use semantos_edge.Templog.Text.{codes}
use semantos_edge.Cell.Words.{read_u32}
use semantos_edge.Cell.Wire.{type_hash}
use semantos_edge.X402.Forward.Route.{route_bytes}
use semantos_edge.X402.Forward.Rules.{encode_rule-built}
use semantos_edge.X402.Forward.Bound.{v1_routed}
use semantos_edge.X402.Forward.Slots.{slot_words, read_u32-part}
use semantos_edge.X402.Hops.{
  count_hop, Prepared, Hops, no_hops, route, type_names, Request, bad_trigger, sends, given,
  commitment, type_of, rule_of, inner_of, hop_payload, prepared, prepare_v1, failed, count_bad_key,
  Event, forward, bad_key, opened, after_event, after_all,
}

-- The words of a payload that name the `n`th cell of both hops, and its pay.
pub record IsNamed (v : List ℕ) (n : ℕ) : Type 0 where
  pub seq_b : read_u32 v 64 ≡ n
  pub share_b : read_u32 v 68 ≡ 10 * n
  pub seq_c : read_u32 v 132 ≡ n
  pub share_c : read_u32 v 136 ≡ 10 * n

-- Both hops have `n` cells to their name.
record IsCounted (hops : Hops) (n : ℕ) : Type 0 where
  seq_b : hops.b.seq ≡ n
  share_b : hops.b.share ≡ 10 * n
  seq_c : hops.c.seq ≡ n
  share_c : hops.c.share ≡ 10 * n

-- The cells that were counted since the channel was opened last, of either route behind its
-- certificate, whether they were sent or refused.
abbrev pub cells_of : List Event → ℕ → ℕ
cells_of [] n = n
cells_of (forward r ∷ es) n = cells_of es (if r.certified then n + 1 else n)
cells_of (bad_key certified ∷ es) n = cells_of es (if certified then n + 1 else n)
cells_of (opened ∷ es) n = cells_of es 0

module _ (sha256 : List ℕ → List ℕ) where
  count_both-IsCounted :
      (hops : Hops) (n : ℕ)
      → IsCounted hops n
      → IsCounted (record { b = count_hop hops.b; c = count_hop hops.c }) (n + 1)
  count_both-IsCounted hops n k =
      let sb = k.seq_b in
      let hb = k.share_b in
      let sc = k.seq_c in
      let hc = k.share_c in
      record {
        seq_b = omega arith;
        share_b = omega arith;
        seq_c = omega arith;
        share_c = omega arith;
      }

  no_hops-IsCounted : IsCounted no_hops 0
  no_hops-IsCounted = record { seq_b = refl; share_b = refl; seq_c = refl; share_c = refl }

  IsCounted-if :
      (certified : Bool) (hops : Hops) (n : ℕ)
      → IsCounted hops n
      → IsCounted (count_bad_key certified hops) (if certified then n + 1 else n)
  unfolding count_bad_key
  IsCounted-if true hops n k = count_both-IsCounted hops n k
  IsCounted-if false hops n k = k

  prepare_v1-counts :
      (r : Request) (hops : Hops) → (prepare_v1 sha256 r hops).1 ≡ count_bad_key r.certified hops
  unfolding prepare_v1 count_bad_key
  prepare_v1-counts r hops = elim (Bool-cases r.certified) [ inl e ↦ rw e refl | inr e ↦ rw e refl ]

  after_all-IsCounted :
      (es : List Event) (hops : Hops) (n : ℕ)
      → IsCounted hops n
      → IsCounted (after_all sha256 es hops) (cells_of es n)
  unfolding after_all after_event
  after_all-IsCounted [] hops n k = k
  after_all-IsCounted (forward r ∷ es) hops n k = after_all-IsCounted es _ _ (
      subst (λ h. IsCounted h (if r.certified then n + 1 else n)) (sym (prepare_v1-counts r hops))
        (IsCounted-if r.certified hops n k))
  after_all-IsCounted (bad_key certified ∷ es) hops n k =
      after_all-IsCounted es _ _ (IsCounted-if certified hops n k)
  after_all-IsCounted (opened ∷ es) hops n k = after_all-IsCounted es _ _ no_hops-IsCounted

  -- A request is refused, or has an inner payload.
  inner_of-cases :
      ((bytes : List ℕ) → length (sha256 bytes) ≡ 32)
      → (r : Request)
      → (inner_of sha256 r ≡ none) ⊎ ((inner : List ℕ) × (inner_of sha256 r ≡ some (ok inner)))
  unfolding inner_of
  inner_of-cases long r = elim (Bool-cases (given 0 r.hop_verb == 2)) [
    | inr e ↦ inr ([], rw e refl)
    | inl e ↦ elim (Option-cases (get (given (codes "tap") r.trigger) type_names)) [
      | inl unknown ↦ inl (rw e (rw unknown (unfold type_of rule_of in refl)))
      | inr (name, known) ↦
          let size : length (type_hash sha256 name) ≡ 32 = unfold type_hash in long (name) in
          let built = encode_rule-built (type_hash sha256 name) (given 2000 r.blink_ms) none size in
          inr (built.0, rw e (rw known (unfold type_of rule_of in ap some built.1)))
    ]
  ]

  hop_payload-IsNamed :
      (r : Request) (hops : Hops) (inner : List ℕ) (n : ℕ)
      → IsCounted hops n
      → 10 * n < 2 ^ 32
      → (v : List ℕ) × (hop_payload sha256 r hops (some (ok inner)) ≡ sends v) × IsNamed v n
  unfolding hop_payload commitment
  hop_payload-IsNamed r hops inner n k small =
      let b = commitment r hops.b in
      let c = commitment r hops.c in
      let built = v1_routed route (b ∷ c ∷ []) sha256 r.now (given 0 r.hop_verb) inner in
      let v : List ℕ = built.0 in
      let z : List ℕ = replicate 296 0 in
      let sb = k.seq_b in
      let hb = k.share_b in
      let sc = k.seq_c in
      let hc = k.share_c in
      let words =
        slot_words (0x58 ∷ 0xe6 ∷ 0xc5 ∷ 0x1a ∷ 0x8c ∷ 0x54 ∷ [])
          (0x58 ∷ 0xe6 ∷ 0xc5 ∷ 0x1a ∷ 0x8c ∷ 0xf8 ∷ []) b c z (length-replicate {A = ℕ} 296 0)
          (omega arith) (omega arith) (omega arith) (omega arith) in
      let part : (i k : ℕ)
          → i ≡ 24 + k
          → k + 4 ≤ 296
          → read_u32 v i ≡ read_u32 (route_bytes route (b ∷ c ∷ []) z) k =
        λ i k e h. read_u32-part v 24 296 i k e h ∙ ap (λ t. read_u32 t k) built.2 in
      (
        v,
        ap prepared built.1 ∙ (unfold prepared in refl),
        record {
          seq_b = part 64 40 refl (omega arith) ∙ words.0 ∙ sb;
          share_b = part 68 44 refl (omega arith) ∙ words.1 ∙ hb;
          seq_c = part 132 108 refl (omega arith) ∙ words.2 ∙ sc;
          share_c = part 136 112 refl (omega arith) ∙ words.3 ∙ hc;
        },
      )

  prepare_v1-certified :
      (r : Request) (hops : Hops)
      → r.certified ≡ true
      → (prepare_v1 sha256 r hops).0
        ≡ hop_payload sha256 r
            (record { b = count_hop hops.b; c = count_hop hops.c })
            (inner_of sha256 r)
  unfolding prepare_v1
  prepare_v1-certified r hops e i =
      let counted : Hops = record { b = count_hop hops.b; c = count_hop hops.c } in
      let picked : Prepared × Hops =
        if e i
        then (hop_payload sha256 r counted (inner_of sha256 r), counted)
        else (failed, hops) in
      picked.0

  -- Where SHA-256 gives 32 bytes and the shares fit 32 bits, a request for a forward.v1 cell fails where
  -- its certificate cannot be injected, or is refused, since it is to install a rule on a trigger
  -- that is no type, or its payload names the `n + 1`th cell for both hops and a share of 10 for each
  -- of the `n + 1`, where `n` cells of this route and of that with a bad key were counted since the
  -- channel was opened last: the requests that were refused count among them.
  pub prepare_v1-IsNamed :
      ((bytes : List ℕ) → length (sha256 bytes) ≡ 32)
      → (es : List Event) (r : Request) → 10 * (cells_of es 0 + 1) < 2 ^ 32
      → ((r.certified ≡ false) × ((prepare_v1 sha256 r (after_all sha256 es no_hops)).0 ≡ failed))
        ⊎ (((inner_of sha256 r ≡ none)
              × ((prepare_v1 sha256 r (after_all sha256 es no_hops)).0 ≡ bad_trigger))
            ⊎ ((v : List ℕ) × ((prepare_v1 sha256 r (after_all sha256 es no_hops)).0 ≡ sends v)
                × IsNamed v (cells_of es 0 + 1)))
  prepare_v1-IsNamed long es r small =
      let hops : Hops = after_all sha256 es no_hops in
      let counted : Hops = record { b = count_hop hops.b; c = count_hop hops.c } in
      let n = cells_of es 0 in
      let now = count_both-IsCounted hops n (after_all-IsCounted es no_hops 0 no_hops-IsCounted) in
      elim (Bool-cases r.certified) [
        | inr e ↦ inl (e, (unfold prepare_v1 in rw e refl))
        | inl e ↦ elim (inner_of-cases long r) [
          | inl none_built ↦
              let told : hop_payload sha256 r counted (inner_of sha256 r) ≡ bad_trigger =
                rw none_built (unfold hop_payload in refl) in
              inr (inl (none_built, prepare_v1-certified r hops e ∙ told))
          | inr (inner, f) ↦
              let named = hop_payload-IsNamed r counted inner (n + 1) now small in
              let told : hop_payload sha256 r counted (inner_of sha256 r) ≡ sends named.0 =
                ap (hop_payload sha256 r counted) f ∙ named.1 in
              inr (inr (named.0, prepare_v1-certified r hops e ∙ told, named.2))
        ]
      ]
