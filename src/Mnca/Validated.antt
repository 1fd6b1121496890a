-- ===== src/Mnca/Validated.antt =====
-- What `validateMncaTransition` of tools/x402-bridge/mnca-oracle.ts accepts and signs.
use semantos_edge.Base.{
  ℕ, zero, suc, ◌*◌, ◌≤◌, ◌≡◌, ◌↔◌, ◌⊎◌, refl, sym, ap, ◌∙◌, inl, inr, true, false, Option, none,
  some, List, [], ◌∷◌, arith, ◌==◌, ◌++◌, ◌%◌, map, ==_iff, length, Bool-cases, Option-cases,
}
use semantos_edge.Base.Map.{Str, str_eq, str_eq_iff}
use semantos_edge.Templog.Text.{codes, from_hex, hex_value, all_hex}
use semantos_edge.Mnca.{default_rule, tile_cells, step_tile}
use semantos_edge.Mnca.Tiles.{step_tile-bytes}
use semantos_edge.Mnca.Oracle.{
  ValidateRequest, rule_name, ascii, same_cells, oracle_message, signed, validate_mnca_transition,
}

same_cells_iff :
    (n : ℕ) (xs ys : List ℕ)
    → length xs ≡ n
    → length ys ≤ n
    → (same_cells n xs ys ≡ true) ↔ (xs ≡ ys)
unfolding same_cells
same_cells_iff zero [] [] h k = ground arith
same_cells_iff zero [] (y ∷ ys) h k = absurd (omega arith)
same_cells_iff zero (x ∷ xs) ys h k = absurd (omega arith)
same_cells_iff (suc n) [] ys h k = absurd (omega arith)
same_cells_iff (suc n) (x ∷ xs) [] h k = ground arith
same_cells_iff (suc n) (x ∷ xs) (y ∷ ys) h k =
    let long : length xs ≡ n = omega arith in
    let short : length ys ≤ n = omega arith in
    ground (arith, ==_iff x y, same_cells_iff n xs ys long short)

length-from_hex : (s : Str) → 2 * length (from_hex s) ≤ length s
unfolding from_hex
length-from_hex [] = omega arith
length-from_hex (c ∷ []) = omega arith
length-from_hex (c ∷ d ∷ s) = elim (Option-cases (hex_value c)) [
  | inl e ↦ rw (e, from_hex) (omega arith)
  | inr (hi, e) ↦ elim (Option-cases (hex_value d)) [
    | inl f ↦ rw (e, f, from_hex) (omega arith)
    | inr (lo, f) ↦ rw (e, f, from_hex) (omega (arith, length-from_hex s))
  ]
]

-- An id that names the rule: in ASCII, or as eight hexadecimal digits whose bytes are the letters but for
-- their highest bits.
abbrev pub NamesMnca : Str → Type 0
NamesMnca id =
    (id ≡ codes "MNCA")
    ⊎ ((length id ≡ 8) × (all_hex id ≡ true) × (map (λ b. b % 128) (from_hex id) ≡ codes "MNCA"))

ascii-map : (bytes : List ℕ) → ascii bytes ≡ map (λ b. b % 128) bytes
unfolding ascii
ascii-map [] = refl
ascii-map (b ∷ bs) = ap (λ t. b % 128 ∷ t) (ascii-map bs)

rule_name_iff : (id : Str) → (rule_name id ≡ codes "MNCA") ↔ NamesMnca id
unfolding rule_name
rule_name_iff id = elim (Bool-cases (length id == 8)) [
  | inl e ↦ elim (Bool-cases (all_hex id)) [
    | inl h ↦
        let long = (==_iff (length id) 8).0 e in
        rw e (
          rw h (
            λ k. inr (long, refl, sym (ascii-map (from_hex id)) ∙ k),
            λ k. elim k [
              | inl n ↦ absurd (omega (arith, ap length n))
              | inr (l, d, n) ↦ ascii-map (from_hex id) ∙ n
            ],
          ))
    | inr h ↦ rw e (rw h (λ k. inl k, λ k. elim k [ inl n ↦ n | inr (l, d, n) ↦ absurd (cc d) ]))
  ]
  | inr e ↦ rw e (
    λ k. inl k,
    λ k. elim k [ inl n ↦ n | inr (l, d, n) ↦ absurd (cc (sym ((==_iff (length id) 8).1 l) ∙ e)) ],
  )
]

-- The request names the rule, and its next state is the step of its previous one.
pub record IsStep (req : ValidateRequest) : Type 0 where
  pub rule : NamesMnca req.rule_id
  pub prev : length req.prev_state ≡ 128
  pub next : length req.next_state ≡ 128
  pub step : from_hex req.next_state ≡ step_tile default_rule (from_hex req.prev_state)

next_state_iff :
    (req : ValidateRequest)
    → length req.next_state ≡ 128
    → (same_cells tile_cells
          (step_tile default_rule (from_hex req.prev_state))
          (from_hex req.next_state)
        ≡ true)
      ↔ (step_tile default_rule (from_hex req.prev_state) ≡ from_hex req.next_state)
next_state_iff req h =
    same_cells_iff 64 _ (from_hex req.next_state)
      (step_tile-bytes default_rule (from_hex req.prev_state)).0
      (omega (arith, length-from_hex req.next_state))

module _ (hash_hex : List ℕ → Str) (text : ℕ → Str) (sign : Str → Option Str) where
  signed-valid :
      (req : ValidateRequest) (next : List ℕ)
      → ((signed hash_hex text sign req next).valid ≡ true)
        × ((signed hash_hex text sign req next).oracle_sig
            ≡ sign (hash_hex (oracle_message hash_hex text sign req (hash_hex next))))
  unfolding signed
  signed-valid req next =
      elim (Option-cases
        (sign (hash_hex (oracle_message hash_hex text sign req (hash_hex next))))) [
          | inl e ↦ rw (e, signed) (refl, refl)
          | inr (sig, e) ↦ rw (e, signed) (refl, refl)
        ]

  validate-cases :
      (req : ValidateRequest)
      → ((validate_mnca_transition hash_hex text sign req
            ≡ signed hash_hex text sign req (step_tile default_rule (from_hex req.prev_state)))
          × IsStep req)
        ⊎ ((validate_mnca_transition hash_hex text sign req).valid ≡ false)
          × ((validate_mnca_transition hash_hex text sign req).oracle_sig ≡ none)
          × ¬ IsStep req
  unfolding validate_mnca_transition
  validate-cases req =
      let next = step_tile default_rule (from_hex req.prev_state) in
      elim (Bool-cases (str_eq (rule_name req.rule_id) (codes "MNCA"))) [
        | inr e ↦ inr (
            rw e (
              refl,
              refl,
              λ h. cc (sym ((str_eq_iff _ _).1 ((rule_name_iff req.rule_id).1 h.rule)) ∙ e),
            ))
        | inl e ↦ elim (Bool-cases (length req.prev_state == 128)) [
          | inr f ↦ inr (rw e (rw f (refl, refl, λ h. cc (sym ((==_iff _ 128).1 h.prev) ∙ f))))
          | inl f ↦ elim (Bool-cases (length req.next_state == 128)) [
            | inr g ↦
                inr (rw e (rw f (rw g (refl, refl, λ h. cc (sym ((==_iff _ 128).1 h.next) ∙ g)))))
            | inl g ↦ elim (Bool-cases (same_cells tile_cells next (from_hex req.next_state))) [
              | inl k ↦ inl (
                  rw e (
                    rw f (
                      rw g (
                        rw k (
                          refl,
                          record {
                            rule = (rule_name_iff req.rule_id).0 ((str_eq_iff _ _).0 e);
                            prev = (==_iff _ 128).0 f;
                            next = (==_iff _ 128).0 g;
                            step = sym ((next_state_iff req ((==_iff _ 128).0 g)).0 k);
                          },
                        )))))
              | inr k ↦ inr (
                  rw e (
                    rw f (
                      rw g (
                        rw k (
                          refl,
                          refl,
                          λ h. cc (sym ((next_state_iff req h.next).1 (sym h.step)) ∙ k),
                        )))))
            ]
          ]
        ]
      ]

  -- A request is valid exactly if it names the rule MNCA, in ASCII or as eight hexadecimal digits whose
  -- bytes are those letters where the highest bit of each is dropped, both its states are 128
  -- characters long, and its next state decodes to the step of its previous one.
  pub validate_mnca_transition-IsStep :
      (req : ValidateRequest)
      → ((validate_mnca_transition hash_hex text sign req).valid ≡ true) ↔ IsStep req
  validate_mnca_transition-IsStep req = elim (validate-cases req) [
    | inl (e, h) ↦ (λ v. h, λ i. ap (λ r. r.valid) e ∙ (signed-valid req _).0)
    | inr (v, o, n) ↦ (λ w. absurd (cc (sym w ∙ v)), λ i. absurd (n i))
  ]

  -- A signature is given only for a request that is valid, and it is the wallet's for the digest of the
  -- text MNCA_ORACLE, the place, the generation and the hash of the next state that the request
  -- claims, with a bar between one and the next.
  pub validate_mnca_transition-oracle_sig :
      (req : ValidateRequest) (sig : Str)
      → (validate_mnca_transition hash_hex text sign req).oracle_sig ≡ some sig
      → IsStep req
        × (sign (
              hash_hex (
                codes "MNCA_ORACLE|"
                ++ (text req.x
                    ++ (codes "|"
                        ++ (text req.y
                            ++ (codes "|"
                                ++ (text req.gen
                                    ++ (codes "|" ++ hash_hex (from_hex req.next_state)))))))))
            ≡ some sig)
  unfolding oracle_message
  validate_mnca_transition-oracle_sig req sig e = elim (validate-cases req) [
    | inl (f, h) ↦ (h, rw h.step (sym (signed-valid req _).1 ∙ sym (ap (λ r. r.oracle_sig) f) ∙ e))
    | inr (v, o, n) ↦ absurd (cc (sym e ∙ o))
  ]
