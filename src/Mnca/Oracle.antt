-- ===== src/Mnca/Oracle.antt =====
-- `validateMncaTransition` of tools/x402-bridge/mnca-oracle.ts. SHA-256 in hexadecimal, the text of a
-- number and the signature of the wallet are parameters.
use semantos_edge.Base.{
  ℕ, zero, suc, ◌*◌, ◌%◌, Bool, true, false, not, ◌&&◌, Option, none, some, List, [], ◌∷◌, ◌++◌,
  ◌==◌, if◌then◌else◌, length,
}
use semantos_edge.Base.Map.{Str, str_eq}
use semantos_edge.Templog.Text.{codes, all_hex, from_hex}
use semantos_edge.Mnca.{default_rule, tile_cells, step_tile}

pub record ValidateRequest : Type 0 where
  pub prev_state : Str
  pub next_state : Str
  pub rule_id : Str
  pub x : ℕ
  pub y : ℕ
  pub gen : ℕ

pub data Message : Type 0 where
  unknown_rule : Str → Message
  bad_prev_state bad_next_state invalid signing_failed : Message
  valid_transition : ℕ → ℕ → ℕ → Str → Message

pub record ValidateResponse : Type 0 where
  pub valid : Bool
  pub oracle_sig : Option Str
  pub message : Message

-- The ASCII text of the bytes, where their highest bit is dropped.
unfoldable pub ascii : List ℕ → Str
ascii [] = []
ascii (b ∷ bs) = b % 128 ∷ ascii bs

unfoldable pub rule_name : Str → Str
rule_name id = if length id == 8 && all_hex id then ascii (from_hex id) else id

-- The first elements agree, `n` of them; beyond its end an array has undefined.
unfoldable pub same_cells : ℕ → List ℕ → List ℕ → Bool
same_cells zero xs ys = true
same_cells (suc n) [] [] = same_cells n [] []
same_cells (suc n) [] (y ∷ ys) = false
same_cells (suc n) (x ∷ xs) [] = false
same_cells (suc n) (x ∷ xs) (y ∷ ys) = x == y && same_cells n xs ys

abbrev pub invalid_for : Message → ValidateResponse
invalid_for m = record { valid = false; oracle_sig = none; message = m }

module _ (hash_hex : List ℕ → Str) (text : ℕ → Str) (sign : Str → Option Str) where
  -- MNCA_ORACLE|x|y|gen|next_hash
  unfoldable pub oracle_message : ValidateRequest → Str → Str
  oracle_message req next_hash =
      codes "MNCA_ORACLE|"
      ++ (text req.x
          ++ (codes "|"
              ++ (text req.y ++ (codes "|" ++ (text req.gen ++ (codes "|" ++ next_hash))))))

  unfoldable pub signed : ValidateRequest → List ℕ → ValidateResponse
  signed req next =
      let next_hash = hash_hex next in
      elim (sign (hash_hex (oracle_message req next_hash))) [
        | none ↦ record { valid = true; oracle_sig = none; message = signing_failed }
        | some sig ↦ record {
          valid = true;
          oracle_sig = some sig;
          message = valid_transition req.x req.y req.gen next_hash;
        }
      ]

  unfoldable pub validate_mnca_transition : ValidateRequest → ValidateResponse
  validate_mnca_transition req =
      let rule = rule_name req.rule_id in
      let next = step_tile default_rule (from_hex req.prev_state) in
      if not (str_eq rule (codes "MNCA"))
      then invalid_for (unknown_rule rule)
      else if not (length req.prev_state == 2 * tile_cells)
      then invalid_for bad_prev_state
      else if not (length req.next_state == 2 * tile_cells)
      then invalid_for bad_next_state
      else if same_cells tile_cells next (from_hex req.next_state)
      then signed req next
      else invalid_for invalid
